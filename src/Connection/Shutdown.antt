-- ===== src/Connection/Shutdown.antt =====
-- A connection in its loop's thread: messages to send, writable events and a `shutdown`, in any order.
-- The write half is shut down exactly when all that was accepted is written.
use weee_chatroom.Common.{
  ℕ, ◌≤◌, ◌≡◌, refl, sym, ◌∙◌, Bool, true, false, List, [], ◌∷◌, ◌++◌, arith, length, append-nil,
  Bool-cases, inl, inr, take, drop,
}
use weee_chatroom.Buffer.Invariant.{HasRoom}
use weee_chatroom.Buffer.Contents.{contents}
use weee_chatroom.Channel.{is_writing}
use weee_chatroom.Connection.{
  Connection, Effect, wrote, shut_write, State, connecting, connected, disconnecting, disconnected,
  Write, write_failed, written, sent_now, send, send_in_loop, keep_rest, handle_write, shutdown,
  shutdown_in_loop, emit,
}
use weee_chatroom.Connection.Output.{stream, IsFlowing, send_in_loop-stream}

pub data Event : Type 0 where
  sends : Write → List ℕ → Event
  writable : Write → Event
  shuts_down : Event

unfoldable pub step : Event → Connection → Connection
unfolding send handle_write shutdown
step (sends w m) c = send true w m c
step (writable w) c = handle_write w c
step shuts_down c = shutdown true c

-- A connection that is not connected drops the message.
abbrev pub accepted_by : State → List ℕ → List ℕ
accepted_by connected m = m
accepted_by _ m = []

abbrev pub accepted : Event → Connection → List ℕ
accepted (sends w m) c = accepted_by c.state m
accepted _ c = []

-- `::write` takes no more than it is given, and the buffer's vector stays below its largest size.
abbrev pub Allowed : Event → Connection → Type 0
Allowed (sends w m) c = (sent_now w ≤ length m) × HasRoom c.output_buffer (length m)
Allowed (writable w) c = sent_now w ≤ length (contents c.output_buffer)
Allowed shuts_down c = Unit {0}

unfoldable pub run : List Event → Connection → Connection
run [] c = c
run (e ∷ es) c = run es (step e c)

abbrev pub all_accepted : List Event → Connection → List ℕ
all_accepted [] c = []
all_accepted (e ∷ es) c = accepted e c ++ all_accepted es (step e c)

abbrev pub AllAllowed : List Event → Connection → Type 0
AllAllowed [] c = Unit {0}
AllAllowed (e ∷ es) c = Allowed e c × AllAllowed es (step e c)

abbrev pub has_shut : List Effect → Bool
has_shut [] = false
has_shut (shut_write ∷ es) = true
has_shut (_ ∷ es) = has_shut es

-- The write half is shut down exactly if a shutdown was asked for and nothing is left to write.
pub record IsOrderly (c : Connection) : Type 0 where
  pub flows : IsFlowing c
  pub plain : c.write_callback ≡ false
  pub shut_late :
      has_shut c.effects ≡ true
      → (c.state ≡ disconnecting) × (length (contents c.output_buffer) ≡ 0)
  pub shut_soon :
      c.state ≡ disconnecting → length (contents c.output_buffer) ≡ 0 → has_shut c.effects ≡ true

-- `sendInLoop` changes neither the state nor the write half.
pub record SameState (c c' : Connection) : Type 0 where
  pub state : c'.state ≡ c.state
  pub plain : c'.write_callback ≡ c.write_callback
  pub shut : has_shut c'.effects ≡ has_shut c.effects

keep_rest-SameState : (rest : List ℕ) (c : Connection) → SameState c (keep_rest rest c)
unfolding keep_rest
keep_rest-SameState rest c = ground arith

send_in_loop-SameState :
    (w : Write) (m : List ℕ) (c : Connection) → SameState c (send_in_loop w m c)
unfolding send_in_loop
send_in_loop-SameState write_failed m c = ground (arith, keep_rest-SameState m c)
send_in_loop-SameState (written n) m c =
    ground
      (arith, keep_rest-SameState m c, keep_rest-SameState (drop n m) (emit (wrote (take n m)) c))

-- What a step does to the stream, and that it keeps the connection orderly.
abbrev pub Steps : Connection → List ℕ → Connection → Type 0
Steps c m c' = (stream c' ≡ stream c ++ m) × IsOrderly c'

send_connected :
    (w : Write) (m : List ℕ) (c : Connection)
    → c.state ≡ connected
    → IsOrderly c
    → Allowed (sends w m) c
    → Steps c m (send_in_loop w m c)
send_connected w m c e o (fits, room) =
    let (all, flows) = send_in_loop-stream w m c o.flows fits room in
    let same = send_in_loop-SameState w m c in
    (
      all,
      record {
        flows = flows;
        plain = same.plain ∙ o.plain;
        shut_late = λ h. absurd (connected-ne (sym e ∙ (o.shut_late (sym same.shut ∙ h)).0));
        shut_soon = λ h z. absurd (connected-ne (sym e ∙ sym same.state ∙ h));
      },
    )
  where
    connected-ne : connected ≡ disconnecting → ⊥
    connected-ne p = cc

pub by_connected :
    (P : Connection → List ℕ → Type 0) (s : State) (m : List ℕ) {a c : Connection}
    → (s ≡ connected → P a m)
    → P c []
    → P (elim s [ connected ↦ a | _ ↦ c ]) (accepted_by s m)
by_connected P connected m pa pc = pa refl
by_connected P connecting m pa pc = pc
by_connected P disconnecting m pa pc = pc
by_connected P disconnected m pa pc = pc

pub step_sends :
    (w : Write) (m : List ℕ) (c : Connection)
    → IsOrderly c
    → Allowed (sends w m) c
    → Steps c (accepted_by c.state m) (step (sends w m) c)
unfolding step
step_sends w m c o a =
    by_connected (λ c' m'. Steps c m' c') c.state m (λ e. send_connected w m c e o a)
      (sym (append-nil (stream c)), o)

-- A shutdown in the loop's thread, of a connection that was connected.
pub shutdown_connected :
    (c : Connection)
    → c.state ≡ connected
    → IsOrderly c
    → Steps c [] (shutdown_in_loop (record c { state = disconnecting }))
unfolding shutdown_in_loop
shutdown_connected c e o = elim (Bool-cases (is_writing c.channel)) [
  | inl on ↦ rw on (
    sym (append-nil (stream c)),
    record {
      flows = record { valid = o.flows.valid; waits = o.flows.waits };
      plain = o.plain;
      shut_late = λ h. (refl, (o.shut_late h).1);
      shut_soon = λ h z. absurd (ground (arith, o.flows.waits));
    },
  )
  | inr off ↦ rw off (
    sym (append-nil (stream c)),
    record {
      flows = record { valid = o.flows.valid; waits = o.flows.waits };
      plain = o.plain;
      shut_late = λ h. (refl, ground (arith, o.flows.waits));
      shut_soon = λ h z. refl;
    },
  )
]

by_connected_only :
    (P : Connection → Type 0) (s : State) {a b : Connection}
    → (s ≡ connected → P a)
    → P b
    → P (elim s [ connected ↦ a | _ ↦ b ])
by_connected_only P connected pa pb = pa refl
by_connected_only P connecting pa pb = pb
by_connected_only P disconnecting pa pb = pb
by_connected_only P disconnected pa pb = pb

pub step_shuts_down : (c : Connection) → IsOrderly c → Steps c [] (step shuts_down c)
unfolding step
step_shuts_down c o =
    by_connected_only (λ c'. Steps c [] c') c.state (λ e. shutdown_connected c e o)
      (sym (append-nil (stream c)), o)
