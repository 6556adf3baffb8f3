-- ===== src/Connector/Reach.antt =====
-- What can happen to a connector, and that no socket is lost whatever does.
use mathlib.Core.Option.{some-injective, none-ne-some}
use weee_chatroom.Common.{ℕ, ◌≡◌, refl, Bool, true, false, Option, none, some, subst, arith}
use weee_chatroom.Connector.{
  State, disconnected, connecting, connected, Errno, Connector, new_connector, retry, start_in_loop,
  start, restart, stop, taken, when_taken, remove_and_reset_channel, finish_connecting,
  handle_write_in, handle_write, handle_error,
}
use weee_chatroom.Connector.Sockets.{
  IsAccounted, Holds, no_delay, start_in_loop-IsAccounted, without_channel,
  finish_connecting-IsAccounted, retry-IsAccounted,
}

-- What happens to a connector: an attempt starts while none is under way, it is called off, or the
-- channel that is registered reports.
pub data Step : Connector → Connector → Type 0 where
  starts : (e : Errno) (sockfd : ℕ) (c : Connector) → c.channel ≡ none → Step c (start e sockfd c)
  restarts :
      (e : Errno) (sockfd : ℕ) (c : Connector) → c.channel ≡ none → Step c (restart e sockfd c)
  timer_runs :
      (e : Errno) (sockfd : ℕ) (c : Connector)
      → c.channel ≡ none
      → Step c (start_in_loop e sockfd c)
  stops : (c : Connector) → Step c (stop c)
  can_write :
      (err self_connect : Bool) (c c' : Connector)
      → handle_write err self_connect c ≡ some c'
      → Step c c'
  has_error : (c c' : Connector) → handle_error c ≡ some c' → Step c c'

pub data Reachable : Connector → Type 0 where
  at_first : Reachable new_connector
  later : {c c' : Connector} → Reachable c → Step c c' → Reachable c'

when_taken-IsAccounted :
    (f : ℕ → Connector → Connector) (ch : Option ℕ) (c c' : Connector)
    → ((sockfd : ℕ) (d : Connector) → Holds sockfd d → IsAccounted (f sockfd d))
    → c.channel ≡ ch
    → when_taken f (taken ch c) ≡ some c'
    → IsAccounted c
    → IsAccounted c'
unfolding when_taken taken
when_taken-IsAccounted f none c c' h g e a = absurd (none-ne-some c' e)
when_taken-IsAccounted f (some sockfd) c c' h g e a =
    subst IsAccounted (some-injective (f sockfd (record c { channel = none })) c' e)
      (h sockfd (record c { channel = none }) (without_channel c sockfd g a))

handle_write_in-IsAccounted :
    (st : State) (err self_connect : Bool) (c c' : Connector)
    → handle_write_in st err self_connect c ≡ some c'
    → IsAccounted c
    → IsAccounted c'
unfolding handle_write_in remove_and_reset_channel
handle_write_in-IsAccounted disconnected err s c c' e a =
    subst IsAccounted (some-injective c c' e) a
handle_write_in-IsAccounted connected err s c c' e a = subst IsAccounted (some-injective c c' e) a
handle_write_in-IsAccounted connecting err s c c' e a =
    when_taken-IsAccounted (finish_connecting err s) c.channel c c'
      (finish_connecting-IsAccounted err s) refl e a

-- The flag, the state and a fresh delay do not count.
changed :
    (c : Connector) (wanted : Bool) → IsAccounted c → IsAccounted (record c { wanted = wanted })
changed c wanted a = record {
  balance = a.balance;
  delay_low = a.delay_low;
  delay_high = a.delay_high;
  delays = a.delays;
}

Step-IsAccounted : (c c' : Connector) → Step c c' → IsAccounted c → IsAccounted c'
unfolding start restart stop handle_write handle_error remove_and_reset_channel
Step-IsAccounted c c' (starts e sockfd c₀ idle) a =
    start_in_loop-IsAccounted e sockfd (record c { wanted = true }) idle (changed c true a)
Step-IsAccounted c c' (restarts e sockfd c₀ idle) a =
    let again : Connector = record c {
      state = disconnected;
      retry_delay_ms = 500;
      wanted = true;
    } in
    start_in_loop-IsAccounted e sockfd again idle (record {
      balance = a.balance;
      delay_low = omega arith;
      delay_high = omega arith;
      delays = a.delays;
    })
Step-IsAccounted c c' (timer_runs e sockfd c₀ idle) a = start_in_loop-IsAccounted e sockfd c idle a
Step-IsAccounted c c' (stops c₀) a = changed c false a
Step-IsAccounted c c' (can_write err s c₀ c₁ e) a =
    handle_write_in-IsAccounted c.state err s c c' e a
Step-IsAccounted c c' (has_error c₀ c₁ e) a =
    when_taken-IsAccounted retry c.channel c c' retry-IsAccounted refl e a

-- In every state that a connector gets to, where an attempt starts only while none is under way, each
-- descriptor has been opened as often as it was closed, handed over or is being connected, and every
-- timer was set for between 500 and 30000 milliseconds.
pub Reachable-IsAccounted : (c : Connector) → Reachable c → IsAccounted c
Reachable-IsAccounted c at_first = record {
  balance = λ fd. refl;
  delay_low = omega arith;
  delay_high = omega arith;
  delays = no_delay;
}
Reachable-IsAccounted c (later {c = c₀} r s) = Step-IsAccounted c₀ c s (Reachable-IsAccounted c₀ r)
