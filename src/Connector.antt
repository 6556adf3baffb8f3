-- ===== src/Connector.antt =====
-- netlib/reactor/Connector.cc: how the client's connection is set up, with its retries. The results
-- of connect(2), of SO_ERROR and of the test for a connection to itself are arguments, and so is the
-- descriptor that socket(2) gives. A `none` is a null channel that is used.
pub mod Sockets
pub mod Reach
mod Tests
use weee_chatroom.Common.{
  ℕ, ◌*◌, ◌≡◌, Bool, true, false, List, [], ◌∷◌, Option, none, some, min, ◌==◌, if◌then◌else◌,
}

pub data State : Type 0 where
  disconnected connecting connected : State

-- The errno values that `connect` tells apart; `success` is 0.
pub data Errno : Type 0 where
  success einprogress eintr eisconn eagain eaddrinuse eaddrnotavail econnrefused enetunreach eacces
        eperm eafnosupport ealready ebadf efault enotsock unexpected :
      Errno

pub record Connector : Type 0 where
  -- `connect_`
  pub wanted : Bool
  pub state : State
  pub retry_delay_ms : ℕ
  -- the descriptor of the channel that is registered
  pub channel : Option ℕ
  -- sockets made, closed, and handed to the callback; delays of the timers, the last first
  pub opened : List ℕ
  pub closed : List ℕ
  pub handed : List ℕ
  pub timers : List ℕ

abbrev pub init_retry_delay_ms : ℕ
init_retry_delay_ms = 500

abbrev pub max_retry_delay_ms : ℕ
max_retry_delay_ms = 30000

abbrev pub new_connector : Connector
new_connector = record {
  wanted = false;
  state = disconnected;
  retry_delay_ms = init_retry_delay_ms;
  channel = none;
  opened = [];
  closed = [];
  handed = [];
  timers = [];
}

abbrev pub close : ℕ → Connector → Connector
close sockfd c = record c { closed = sockfd ∷ c.closed }

-- `retry`
unfoldable pub retry : ℕ → Connector → Connector
retry sockfd c =
    let down = record (close sockfd c) { state = disconnected } in
    if c.wanted
    then record down {
      timers = c.retry_delay_ms ∷ c.timers;
      retry_delay_ms = min (c.retry_delay_ms * 2) max_retry_delay_ms;
    }
    else down

-- `connecting`
unfoldable pub begin_connecting : ℕ → Connector → Connector
begin_connecting sockfd c = record c { state = connecting; channel = some sockfd }

-- The switch of `connect` over what connect(2) says.
unfoldable pub by_errno : Errno → ℕ → Connector → Connector
by_errno success sockfd c = begin_connecting sockfd c
by_errno einprogress sockfd c = begin_connecting sockfd c
by_errno eintr sockfd c = begin_connecting sockfd c
by_errno eisconn sockfd c = begin_connecting sockfd c
by_errno eagain sockfd c = retry sockfd c
by_errno eaddrinuse sockfd c = retry sockfd c
by_errno eaddrnotavail sockfd c = retry sockfd c
by_errno econnrefused sockfd c = retry sockfd c
by_errno enetunreach sockfd c = retry sockfd c
by_errno _ sockfd c = close sockfd c

-- `connect`
unfoldable pub connect : Errno → ℕ → Connector → Connector
connect saved_errno sockfd c = by_errno saved_errno sockfd (record c { opened = sockfd ∷ c.opened })

-- `startInLoop`, which a timer runs too
unfoldable pub start_in_loop : Errno → ℕ → Connector → Connector
start_in_loop saved_errno sockfd c = if c.wanted then connect saved_errno sockfd c else c

-- `start`, in the loop's thread
unfoldable pub start : Errno → ℕ → Connector → Connector
start saved_errno sockfd c = start_in_loop saved_errno sockfd (record c { wanted = true })

unfoldable pub restart : Errno → ℕ → Connector → Connector
restart saved_errno sockfd c =
    start_in_loop saved_errno sockfd
      (record c { state = disconnected; retry_delay_ms = init_retry_delay_ms; wanted = true })

unfoldable pub stop : Connector → Connector
stop c = record c { wanted = false }

-- `removeAndResetChannel`: the channel is gone, and its descriptor is the caller's.
unfoldable pub taken : Option ℕ → Connector → Option (ℕ × Connector)
taken none c = none
taken (some sockfd) c = some (sockfd, record c { channel = none })

unfoldable pub remove_and_reset_channel : Connector → Option (ℕ × Connector)
remove_and_reset_channel c = taken c.channel c

unfoldable pub when_taken : (ℕ → Connector → Connector) → Option (ℕ × Connector) → Option Connector
when_taken f none = none
when_taken f (some (sockfd, c)) = some (f sockfd c)

-- `handleWrite` behind `removeAndResetChannel`
unfoldable pub finish_connecting : Bool → Bool → ℕ → Connector → Connector
finish_connecting err self_connect sockfd c =
    if err
    then retry sockfd c
    else if self_connect
    then retry sockfd c
    else if c.wanted
    then record c { state = connected; handed = sockfd ∷ c.handed }
    else record (close sockfd c) { state = connected }

-- `handleWrite`
unfoldable pub handle_write_in : State → Bool → Bool → Connector → Option Connector
handle_write_in connecting err self_connect c =
    when_taken (finish_connecting err self_connect) (remove_and_reset_channel c)
handle_write_in _ err self_connect c = some c

unfoldable pub handle_write : Bool → Bool → Connector → Option Connector
handle_write err self_connect c = handle_write_in c.state err self_connect c

-- `handleError`
unfoldable pub handle_error : Connector → Option Connector
handle_error c = when_taken retry (remove_and_reset_channel c)
