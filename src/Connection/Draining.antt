-- ===== src/Connection/Draining.antt =====
-- What a writable event leaves of the order between writing and shutting down.
use weee_chatroom.Common.{
  ℕ, ◌⊎◌, ◌≢◌, ◌≤◌, ◌<◌, ◌≡◌, refl, sym, ap, ◌∙◌, true, false, [], arith, length, ◌==◌, ==_iff,
  if◌then◌else◌, append-nil, Bool-cases, inl, inr,
}
use weee_chatroom.Buffer.{readable_bytes}
use weee_chatroom.Buffer.Contents.{contents, readable-contents}
use weee_chatroom.Channel.{is_writing, clear_writing}
use weee_chatroom.Connection.{
  Connection, State, connecting, connected, disconnecting, disconnected, Write, write_failed,
  written, sent_now, handle_write, after_write, wrote_out, when_drained, shutdown_in_loop,
}
use weee_chatroom.Connection.Output.{stream, IsFlowing, after_write-stream, wrote_out-stream}
use weee_chatroom.Connection.Shutdown.{has_shut, step, writable, IsOrderly, SameState, Steps}

by_disconnecting :
    (P : Connection → Type 0) (s : State) {a b : Connection}
    → (s ≡ disconnecting → P a)
    → (s ≢ disconnecting → P b)
    → P (elim s [ disconnecting ↦ a | _ ↦ b ])
by_disconnecting P disconnecting pa pb = pa refl
by_disconnecting P connecting pa pb = pb (λ e. cc)
by_disconnecting P connected pa pb = pb (λ e. cc)
by_disconnecting P disconnected pa pb = pb (λ e. cc)

-- Behind the last write a connection that was asked to is shut down, and no other.
record IsDrained (c c' : Connection) : Type 0 where
  state : c'.state ≡ c.state
  plain : c'.write_callback ≡ c.write_callback
  buffer : c'.output_buffer ≡ c.output_buffer
  shut : c.state ≡ disconnecting → has_shut c'.effects ≡ true
  kept : c.state ≢ disconnecting → has_shut c'.effects ≡ has_shut c.effects

when_drained-IsDrained : (c : Connection) → IsDrained c (when_drained c)
unfolding when_drained shutdown_in_loop is_writing clear_writing
when_drained-IsDrained c =
    by_disconnecting (IsDrained c) c.state
      (λ e. record {
        state = ground arith;
        plain = ground arith;
        buffer = ground arith;
        shut = λ _. ground arith;
        kept = λ ne. absurd (ne e);
      })
      (λ ne. record {
        state = ground arith;
        plain = ground arith;
        buffer = ground arith;
        shut = λ e. absurd (ne e);
        kept = λ _. ground arith;
      })

wrote_out-SameState : (n : ℕ) (c : Connection) → SameState c (wrote_out n c)
unfolding wrote_out
wrote_out-SameState n c = record { state = refl; plain = refl; shut = refl }

not_shut : (c : Connection) → IsOrderly c → is_writing c.channel ≡ true → has_shut c.effects ≡ false
not_shut c o on = elim (Bool-cases (has_shut c.effects)) [
  | inl shut ↦ absurd (ground (arith, o.flows.waits, o.shut_late shut))
  | inr open_yet ↦ open_yet
]

is_disconnecting : (s : State) → (s ≡ disconnecting) ⊎ (s ≢ disconnecting)
is_disconnecting disconnecting = inl refl
is_disconnecting connecting = inr (λ e. cc)
is_disconnecting connected = inr (λ e. cc)
is_disconnecting disconnected = inr (λ e. cc)

drained :
    (n : ℕ) (c : Connection)
    → IsOrderly c
    → is_writing c.channel ≡ true
    → length (contents (wrote_out n c).output_buffer) ≡ 0
    → IsFlowing (when_drained (wrote_out n c))
    → IsOrderly (when_drained (wrote_out n c))
drained n c o on empty flows =
    let w = wrote_out-SameState n c in
    let d = when_drained-IsDrained (wrote_out n c) in
    record {
      flows = flows;
      plain = d.plain ∙ w.plain ∙ o.plain;
      shut_late = λ h. (was_disconnecting h, ap (λ b. length (contents b)) d.buffer ∙ empty);
      shut_soon = λ e z. d.shut (sym d.state ∙ e);
    }
  where
    was_disconnecting :
        has_shut (when_drained (wrote_out n c)).effects ≡ true
        → (when_drained (wrote_out n c)).state ≡ disconnecting
    was_disconnecting h =
        let w = wrote_out-SameState n c in
        let d = when_drained-IsDrained (wrote_out n c) in
        elim (is_disconnecting (wrote_out n c).state) [
          | inl e ↦ d.state ∙ e
          | inr ne ↦ cc (d.kept ne, w.shut, not_shut c o on)
        ]

left_over :
    (n : ℕ) (c : Connection)
    → IsOrderly c
    → is_writing c.channel ≡ true
    → 0 < length (contents (wrote_out n c).output_buffer)
    → IsFlowing (wrote_out n c)
    → IsOrderly (wrote_out n c)
left_over n c o on more flows =
    let w = wrote_out-SameState n c in
    record {
      flows = flows;
      plain = w.plain ∙ o.plain;
      shut_late = λ h. cc (not_shut c o on, w.shut);
      shut_soon = λ e z. absurd (omega arith);
    }

-- A write from the buffer of a connection that waits to write, which is not shut down yet.
after_write-IsOrderly :
    (n : ℕ) (c : Connection)
    → IsOrderly c
    → is_writing c.channel ≡ true
    → n ≤ length (contents c.output_buffer)
    → IsOrderly (after_write n c)
after_write-IsOrderly n c o on fits =
    let (same, valid) = wrote_out-stream n c o.flows.valid fits in
    let flows = (after_write-stream n c o.flows on fits).1 in
    elim (Bool-cases (readable_bytes (wrote_out n c).output_buffer == 0)) [
      | inl zero_left ↦
          let is : after_write n c ≡ when_drained (wrote_out n c) =
            unfold after_write in rw zero_left in
          rw is (
            drained n c o on
              (omega (
                arith,
                (==_iff (readable_bytes (wrote_out n c).output_buffer) 0).0 zero_left,
                readable-contents valid,
              ))
              (rw is at flows))
      | inr some_left ↦
          let is : after_write n c ≡ wrote_out n c = unfold after_write in rw some_left in
          rw is (left_over n c o on (ground (arith, readable-contents valid)) (rw is at flows))
    ]

handle_write_written :
    (n : ℕ) (c : Connection)
    → c.write_callback ≡ false
    → handle_write (written n) c
      ≡ (if is_writing c.channel then (if n == 0 then c else after_write n c) else c)
unfolding handle_write
handle_write_written n c plain = ground (arith, plain)

handle_write_failed : (c : Connection) → c.write_callback ≡ false → handle_write write_failed c ≡ c
unfolding handle_write
handle_write_failed c plain = ground (arith, plain)

-- `handleWrite`, whatever `::write` does.
pub step_writable :
    (w : Write) (c : Connection)
    → IsOrderly c
    → sent_now w ≤ length (contents c.output_buffer)
    → Steps c [] (step (writable w) c)
unfolding step
step_writable write_failed c o fits =
    rw (handle_write_failed c o.plain) (sym (append-nil (stream c)), o)
step_writable (written n) c o fits =
    rw (handle_write_written n c o.plain) (elim (Bool-cases (is_writing c.channel)) [
      | inr off ↦ rw off (sym (append-nil (stream c)), o)
      | inl on ↦ elim (Bool-cases (n == 0)) [
        | inl zero_written ↦ rw (on, zero_written) (sym (append-nil (stream c)), o)
        | inr some_written ↦
            rw (on, some_written)
              (
                (after_write-stream n c o.flows on fits).0 ∙ sym (append-nil (stream c)),
                after_write-IsOrderly n c o on fits,
              )
      ]
    ])
