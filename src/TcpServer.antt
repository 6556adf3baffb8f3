-- ===== src/TcpServer.antt =====
-- netlib/reactor/TcpServer.cc: the connections of a server, by their numbers. The name of a connection is
-- the server's with the number behind it. What is handed to a connection's loop is recorded, in order.
pub mod Names
use weee_chatroom.Common.{
  ℕ, suc, ◌+◌, List, [], ◌∷◌, ◌++◌, Option, none, some, if◌then◌else◌, ◌==◌, Bool, true, false,
}
use weee_chatroom.Server.World.{◌>>=◌}
use weee_chatroom.ThreadPools.{EventLoopThreadPool, get_next_loop}

-- `connectEstablished` and `connectDestroyed`, by the connection and its loop
pub data Handed : Type 0 where
  established : ℕ → ℕ → Handed
  destroyed : ℕ → ℕ → Handed

pub record TcpServer : Type 0 where
  pub next_conn_id : ℕ
  -- `connections_`: each with its loop
  pub connections : List (ℕ × ℕ)
  pub thread_pool : EventLoopThreadPool
  pub handed : List Handed

-- `connections_.erase(conn->name())`
unfoldable pub erase_name : ℕ → List (ℕ × ℕ) → List (ℕ × ℕ)
erase_name id [] = []
erase_name id ((k, loop) ∷ m) = if k == id then m else (k, loop) ∷ erase_name id m

-- `newConnection` with the loop that it gets
unfoldable pub with_loop : ℕ × EventLoopThreadPool → TcpServer → TcpServer
with_loop (loop, pool) s = record {
  next_conn_id = suc s.next_conn_id;
  connections = s.connections ++ (s.next_conn_id, loop) ∷ [];
  thread_pool = pool;
  handed = s.handed ++ established s.next_conn_id loop ∷ [];
}

-- `newConnection`
unfoldable pub new_connection : TcpServer → Option TcpServer
new_connection s = get_next_loop s.thread_pool >>= λ next. some (with_loop next s)

-- `removeConnectionInLoop`, for a connection and its loop
unfoldable pub remove_connection_in_loop : ℕ → ℕ → TcpServer → TcpServer
remove_connection_in_loop id loop s = record s {
  connections = erase_name id s.connections;
  handed = s.handed ++ destroyed id loop ∷ [];
}
