-- ===== src/Lib.antt =====
-- WeeeChatroom: the network library of the chat program (netlib/), the server on it (server/), and
-- what the client (client/) shares with them.
--
-- How the parts interact. A TcpConnection reads what the kernel has for it into a Buffer, and the
-- onMessage loop takes whole messages out of it: a length in four bytes and a JSON text, as sendJson
-- writes them. What a connection sends goes to the kernel at once or waits in its output buffer for
-- the descriptor to be writable. A Channel says what a descriptor waits for, an Epoller keeps that in
-- the kernel, a TimerQueue wakes the loop for the first timer, a Connector sets up the client's
-- connection. On the server the handlers work on Redis, on MySQL and on the users who are online.
--
-- Which file models what:
--   Common: lists, slices of arrays, Boolean tests and machine words.
--   Buffer: netlib/reactor/Buffer.h and Buffer.cc. A vector of bytes with two indices; index
--     arithmetic is that of size_t, modulo 2 ^ 64.
--   Codec: sendJson (server/base/base.cc) and the loop of onMessage (server/Service.cc; the client has
--     the same in client/Neter.cc). What the body of the loop does with a text is a parameter.
--   Channel, Epoller: netlib/reactor/Channel.h, Channel.cc, Epoller.h and Epoller.cc.
--   Connection: netlib/reactor/TcpConnection.h and TcpConnection.cc. Calls on other objects are
--     recorded as effects, in order.
--   EventLoop: netlib/reactor/EventLoop.cc: the queue of functors and the turns of the loop. A functor
--     is a number, with the functors that it queues.
--   TimerQueue: netlib/reactor/TimerQueue.h and TimerQueue.cc. The set is the ordered list of its
--     timers; a callback is the list of timers that it adds.
--   Connector: netlib/reactor/Connector.h and Connector.cc, with the sockets that it has opened, closed
--     and handed over.
--   TcpServer: netlib/reactor/TcpServer.cc, with a number for the name of a connection.
--   ThreadPools: netlib/reactor/EventLoopThreadPool.cc and netlib/base/ThreadPool.cc.
--   Server: the handlers of server/handler/Chat.cc, Friend.cc, Group.cc, Login.cc (Server.Login,
--     Server.Removal) and Register.cc. Server.World is the state that they share, with getConnectionPtr
--     (server/Service.cc), the messages that go out in order, and the faults; Server.Services is what
--     they use, and Server.Local one that can be run. Server.Online is who is online and the
--     heartbeats, Server.Transfer is insertFromRedis and initCache, Server.Dispatch the table
--     of handlers, all of server/Service.cc.
--     Server.Sql is the text of the statements of server/base/MySQLConn.cc, and its pool.
--   Client: client/service/ChatService.cc with the state of client/include/Client.h that it uses, and
--     fixInvalidUtf8 of client/ui.cc (Client.Utf8). Log files are lists of lines. Client.Contacts and
--     Client.Groups are FriendService.cc and GroupService.cc.
--
-- Parameters. epoll_ctl(2) is a record of operations, which may fail at any time, with the laws of its
-- manual (Epoller.Kernel); results of readv, write, connect and of socket options are arguments. Redis, the statements of
-- MySQLConn and the JSON library are records with the laws that the handlers rely on
-- (Server.Services); the Redis keys are their prefixes with an id. mysql_real_escape_string is a
-- parameter of the SQL texts, and what text the bytes of a terminal line make is one of the client's
-- services. A handler runs without another one in between.
--
-- Bounds and fuel. Counts, offsets and numbers of connections are so small that their sums do not
-- wrap around. A message has fewer than 2 ^ 31 - 4 bytes and a vector fewer than 2 ^ 63 where a
-- theorem says so. The onMessage loop has fuel: each turn takes four bytes or more, so that one more
-- than the readable bytes is enough. A worker's loop has fuel too, of which it needs one more than
-- the tasks, and so has the loop that sends offline messages, one more than there are. The loop of
-- fixInvalidUtf8 takes a byte or more at each turn, so that the length of the input is enough. All
-- other loops are structural.
--
-- Not modelled: the logger, system call wrappers, the terminal interface and the threads that run the
-- loops; mail through libcurl and the time after which a code expires; TcpClient and Acceptor, the
-- table of handlers of the client, the transfer of files, and the rows of a result of MySQL.
pub mod Common
pub mod Buffer
pub mod Codec
pub mod Channel
pub mod Epoller
pub mod Connection
pub mod Server
pub mod TimerQueue
pub mod Connector
pub mod ThreadPools
pub mod Client
pub mod EventLoop
pub mod TcpServer
