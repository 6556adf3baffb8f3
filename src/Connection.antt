-- ===== src/Connection.antt =====
-- netlib/reactor/TcpConnection.h and TcpConnection.cc: one connection. What its operations do to the
-- world around it, in the kernel, the event loop and the callbacks, is the list of its effects,
-- newest first; what the kernel answers is an argument. Names, addresses, the context and the log
-- are left out.
pub mod Output
pub mod Shutdown
pub mod Draining
pub mod Run
mod Tests
use weee_chatroom.Common.{
  ℕ, ◌-◌, Bool, true, false, ◌&&◌, ◌||◌, not, List, [], ◌∷◌, ◌==◌, ltb, if◌then◌else◌, length, take,
  drop,
}
use weee_chatroom.Buffer.{
  Buffer, new_buffer, readable_bytes, peek, retrieve, append, Readv, failed, received, read_fd,
}
use weee_chatroom.Channel.{
  Channel, new_channel, is_writing, set_reading, set_writing, clear_writing, clear_all,
}
use weee_chatroom.Epoller.Lifetime.{ChannelCall, reading, writing, not_writing, nothing}

-- `StateE`
pub data State : Type 0 where
  connecting connected disconnecting disconnected : State

-- What is put into the loop's queue.
pub data Task : Type 0 where
  sends_in_loop : List ℕ → Task
  shuts_down_in_loop : Task
  force_closes_in_loop : Task
  completes_write : Task

pub data Effect : Type 0 where
  -- a call on the channel, which reaches `updateChannel`
  updated : ChannelCall → Effect
  -- `EventLoop::removeChannel`
  removed_channel : Effect
  -- `EventLoop::queueInLoop`
  queued : Task → Effect
  -- these bytes went out by `::write`
  wrote : List ℕ → Effect
  -- `::shutdown(fd, SHUT_WR)`
  shut_write : Effect
  called_connection : Effect
  called_message : Effect
  called_readable : Effect
  called_write : Effect
  called_close : Effect

pub record Connection : Type 0 where
  pub state : State
  pub channel : Channel
  pub input_buffer : Buffer
  pub output_buffer : Buffer
  pub connection_callback : Bool
  pub write_complete_callback : Bool
  pub write_callback : Bool
  pub is_set_readable_callback : Bool
  pub effects : List Effect

-- The constructor, which sets three of the channel's callbacks.
pub new_connection : ℕ → ℕ → Connection
new_connection self fd = record {
  state = connecting;
  channel = record (new_channel self fd) {
    read_callback = true;
    write_callback = true;
    close_callback = true;
  };
  input_buffer = new_buffer;
  output_buffer = new_buffer;
  connection_callback = false;
  write_complete_callback = false;
  write_callback = false;
  is_set_readable_callback = false;
  effects = [];
}

abbrev pub emit : Effect → Connection → Connection
emit e c = record c { effects = e ∷ c.effects }

-- Changes the channel's events and passes them to the poller.
abbrev pub on_channel : ChannelCall → (Channel → Channel) → Connection → Connection
on_channel k f c = record c { channel = f c.channel; effects = updated k ∷ c.effects }

pub connect_established : Connection → Connection
unfolding set_reading
connect_established c =
    let c₁ = on_channel reading set_reading (record c { state = connected }) in
    if c.connection_callback then emit called_connection c₁ else c₁

pub handle_close : Connection → Connection
unfolding clear_all
handle_close c = emit called_close (on_channel nothing clear_all c)

-- `handleRead`, by what `readv` returns: a failure only logs the socket's error.
pub handle_read : Readv → Connection → Connection
unfolding handle_close
handle_read r c = if c.is_set_readable_callback then emit called_readable c else into_buffer r
  where
    into_buffer : Readv → Connection
    into_buffer (failed errno) = record c { input_buffer = read_fd c.input_buffer r }
    into_buffer (received []) = handle_close (record c { input_buffer = read_fd c.input_buffer r })
    into_buffer (received (x ∷ xs)) =
        emit called_message (record c { input_buffer = read_fd c.input_buffer r })

pub shutdown_in_loop : Connection → Connection
shutdown_in_loop c = if is_writing c.channel then c else emit shut_write c

-- What `::write` returns.
pub data Write : Type 0 where
  write_failed : Write
  written : ℕ → Write

abbrev pub queue_complete : Connection → Connection
queue_complete c = if c.write_complete_callback then emit (queued completes_write) c else c

-- `handleWrite`, behind a `::write` of `n` bytes.
pub wrote_out : ℕ → Connection → Connection
wrote_out n c = record c {
  output_buffer = retrieve c.output_buffer n;
  effects = wrote (peek c.output_buffer n) ∷ c.effects;
}

-- The output buffer is empty again.
pub when_drained : Connection → Connection
unfolding clear_writing
when_drained c =
    let idle = queue_complete (on_channel not_writing clear_writing c) in
    elim c.state [ disconnecting ↦ shutdown_in_loop idle | _ ↦ idle ]

pub after_write : ℕ → Connection → Connection
after_write n c =
    let sent = wrote_out n c in
    if readable_bytes sent.output_buffer == 0 then when_drained sent else sent

pub handle_write : Write → Connection → Connection
handle_write w c =
    if is_writing c.channel
    then (if c.write_callback then emit called_write c else by_result w)
    else c
  where
    by_result : Write → Connection
    by_result write_failed = c
    by_result (written n) = if n == 0 then c else after_write n c

-- What `::write` does with the message where it is tried: the number of bytes that went out.
abbrev pub sent_now : Write → ℕ
sent_now write_failed = 0
sent_now (written n) = n

-- The rest of the message goes into the output buffer.
pub keep_rest : List ℕ → Connection → Connection
unfolding set_writing
keep_rest rest c =
    let kept = record c { output_buffer = append c.output_buffer rest } in
    if is_writing c.channel then kept else on_channel writing set_writing kept

pub send_in_loop : Write → List ℕ → Connection → Connection
send_in_loop w message c =
    if not (is_writing c.channel) && readable_bytes c.output_buffer == 0
    then written_through w
    else (if ltb 0 (length message) then keep_rest message c else c)
  where
    written_through : Write → Connection
    written_through write_failed = if ltb 0 (length message) then keep_rest message c else c
    written_through (written n) =
        let out = emit (wrote (take n message)) c in
        if ltb n (length message) then keep_rest (drop n message) out else queue_complete out

-- `send`, from the loop's thread or from another.
pub send : Bool → Write → List ℕ → Connection → Connection
send in_loop_thread w message c = elim c.state [
  | connected ↦
      if in_loop_thread then send_in_loop w message c else emit (queued (sends_in_loop message)) c
  | _ ↦ c
]

pub shutdown : Bool → Connection → Connection
shutdown in_loop_thread c = elim c.state [
  | connected ↦
      let c₁ = record c { state = disconnecting } in
      if in_loop_thread then shutdown_in_loop c₁ else emit (queued shuts_down_in_loop) c₁
  | _ ↦ c
]

-- `state_ == kConnected || state_ == kDisconnecting`
pub is_open : State → Bool
is_open connected = true
is_open disconnecting = true
is_open _ = false

pub force_close : Connection → Connection
unfolding is_open
force_close c =
    if is_open c.state
    then emit (queued force_closes_in_loop) (record c { state = disconnecting })
    else c

pub force_close_in_loop : Connection → Connection
unfolding is_open handle_close
force_close_in_loop c = if is_open c.state then handle_close (emit shut_write c) else c

pub connect_destroyed : Connection → Connection
unfolding clear_all
connect_destroyed c =
    emit removed_channel
      (emit called_connection (on_channel nothing clear_all (record c { state = disconnected })))
