-- ===== src/Connection/Output.antt =====
-- The bytes of a connection's messages on their way out: written, or waiting in the output buffer.
use weee_chatroom.Common.{
  ℕ, ◌≤◌, ◌<◌, ◌≡◌, refl, sym, ap, ◌∙◌, Bool, true, false, not, List, [], ◌∷◌, ◌++◌, arith, length,
  take, drop, ltb, ◌==◌, append_assoc, append-nil, take-append-drop, length-append, length-drop,
  Bool-cases, inl, inr, take_all, ◌&&◌, length-eq-zero, if◌then◌else◌, ltb→lt, ltb_false→le,
}
use weee_chatroom.Buffer.{readable_bytes, append}
use weee_chatroom.Buffer.Invariant.{IsValid, HasRoom}
use weee_chatroom.Buffer.Contents.{
  contents, append-contents, retrieve_lem, readable-contents, peek-contents,
}
use weee_chatroom.Channel.{is_writing, set_writing, clear_writing}
use weee_chatroom.Epoller.Lifetime.{not_writing}
use weee_chatroom.Connection.{
  wrote_out, when_drained, Connection, Effect, wrote, State, disconnecting, connected, connecting,
  disconnected, emit, queue_complete, keep_rest, after_write, send_in_loop, shutdown_in_loop, Write,
  write_failed, written, sent_now, on_channel,
}

-- What went out, in order.
abbrev pub sent : List Effect → List ℕ
sent [] = []
sent (wrote bs ∷ es) = sent es ++ bs
sent (_ ∷ es) = sent es

-- What went out and what is to follow.
abbrev pub stream : Connection → List ℕ
stream c = sent c.effects ++ contents c.output_buffer

-- The output buffer is valid, and the loop waits to write exactly while there is something in it.
pub record IsFlowing (c : Connection) : Type 0 where
  pub valid : IsValid c.output_buffer
  pub waits : is_writing c.channel ≡ ltb 0 (length (contents c.output_buffer))

pub keep_rest-stream :
    (rest : List ℕ) (c : Connection)
    → IsValid c.output_buffer
    → HasRoom c.output_buffer (length rest)
    → 0 < length rest
    → (stream (keep_rest rest c) ≡ stream c ++ rest) × IsFlowing (keep_rest rest c)
unfolding keep_rest is_writing set_writing
keep_rest-stream rest c v h some_left =
    let (kept, valid) = append-contents rest v h in
    let all : sent c.effects ++ contents (append c.output_buffer rest) ≡ stream c ++ rest =
      ap (◌++◌ (sent c.effects)) kept
      ∙ sym (append_assoc (sent c.effects) (contents c.output_buffer) rest) in
    let size : 0 < length (contents (append c.output_buffer rest)) =
      omega (arith, ap length kept, length-append (contents c.output_buffer) rest) in
    elim (Bool-cases (is_writing c.channel)) [
      | inl on ↦
          (ground (arith, all), record { valid = ground (arith, valid); waits = ground arith })
      | inr off ↦
          (ground (arith, all), record { valid = ground (arith, valid); waits = ground arith })
    ]

queue_complete-stream :
    (c : Connection)
    → (stream (queue_complete c) ≡ stream c) × (IsFlowing c → IsFlowing (queue_complete c))
queue_complete-stream c = elim (Bool-cases c.write_complete_callback) [
  | inl on ↦ rw on (refl, λ f. record { valid = f.valid; waits = f.waits })
  | inr off ↦ rw off (refl, λ f. f)
]

-- The whole message goes into the buffer.
keeps_all :
    (m : List ℕ) (c : Connection)
    → IsFlowing c
    → HasRoom c.output_buffer (length m)
    → let c' = if◌then◌else◌ (ltb 0 (length m)) (keep_rest m c) c in
      (stream c' ≡ stream c ++ m) × IsFlowing c'
keeps_all [] c f room = (sym (append-nil (stream c)), f)
keeps_all (x ∷ m) c f room = ground (arith, keep_rest-stream (x ∷ m) c f.valid)

-- A connection on which nothing waits to be written.
abbrev IsIdle : Connection → Type 0
IsIdle c = (is_writing c.channel ≡ false) × (contents c.output_buffer ≡ [])

-- The message after a direct write of its first `n` bytes.
sends_directly :
    (n : ℕ) (m : List ℕ) (c : Connection)
    → IsFlowing c
    → IsIdle c
    → n ≤ length m
    → HasRoom c.output_buffer (length m)
    → let out = emit (wrote (take n m)) c in
      let c' = if◌then◌else◌ (ltb n (length m)) (keep_rest (drop n m) out) (queue_complete out) in
      (stream c' ≡ stream c ++ m) × IsFlowing c'
sends_directly n m c f idle fits room = elim (Bool-cases (ltb n (length m))) [
  | inl less ↦
      let (kept, flows) =
        keep_rest-stream (drop n m) (emit (wrote (take n m)) c) f.valid
          (omega (arith, length-drop n m)) (omega (arith, length-drop n m, ltb→lt _ _ less)) in
      rw less (kept ∙ partly, flows)
  | inr whole ↦ rw whole (wholly (ltb_false→le _ _ whole))
]
  where
    partly : (stream (emit (wrote (take n m)) c) ++ drop n m) ≡ stream c ++ m
    partly = simp (idle.1, append-nil, append_assoc, take-append-drop n m)

    wholly :
        length m ≤ n
        → (stream (queue_complete (emit (wrote (take n m)) c)) ≡ stream c ++ m)
          × IsFlowing (queue_complete (emit (wrote (take n m)) c))
    wholly all =
        let (same, flows) = queue_complete-stream (emit (wrote (take n m)) c) in
        (
          same ∙ (simp (idle.1, append-nil, take_all n m all)),
          flows (record { valid = f.valid; waits = f.waits }),
        )

abbrev is_idle : Connection → Bool
is_idle c = not (is_writing c.channel) && readable_bytes c.output_buffer == 0

is_idle_iff : (c : Connection) → IsFlowing c → is_idle c ≡ true → IsIdle c
is_idle_iff c f h = (
  ground arith,
  length-eq-zero (contents c.output_buffer) (ground (arith, readable-contents f.valid)),
)

-- `sendInLoop`, whatever `::write` does: the message goes behind all that was sent before it, partly
-- to the kernel and partly into the output buffer, no byte of it lost or doubled, and the loop
-- waits to write exactly if bytes are left. `::write` takes no more than it is given.
pub send_in_loop-stream :
    (w : Write) (m : List ℕ) (c : Connection)
    → IsFlowing c
    → sent_now w ≤ length m
    → HasRoom c.output_buffer (length m)
    → (stream (send_in_loop w m c) ≡ stream c ++ m) × IsFlowing (send_in_loop w m c)
unfolding send_in_loop
send_in_loop-stream write_failed m c f fits room = elim (Bool-cases (is_idle c)) [
  | inl idle ↦ rw idle (keeps_all m c f room)
  | inr busy ↦ rw busy (keeps_all m c f room)
]
send_in_loop-stream (written n) m c f fits room = elim (Bool-cases (is_idle c)) [
  | inl idle ↦ rw idle (sends_directly n m c f (is_idle_iff c f idle) fits room)
  | inr busy ↦ rw busy (keeps_all m c f room)
]

pub wrote_out-stream :
    (n : ℕ) (c : Connection)
    → IsValid c.output_buffer
    → n ≤ length (contents c.output_buffer)
    → (stream (wrote_out n c) ≡ stream c) × IsValid (wrote_out n c).output_buffer
unfolding wrote_out
wrote_out-stream n c v fits =
    let (left, valid) = retrieve_lem n v fits in
    (
      rw (peek-contents n v fits, left, append_assoc)
          (ap (◌++◌ (sent c.effects)) (take-append-drop n (contents c.output_buffer))),
      valid,
    )

shutdown_in_loop-stream :
    (c : Connection)
    → (stream (shutdown_in_loop c) ≡ stream c) × (IsFlowing c → IsFlowing (shutdown_in_loop c))
unfolding shutdown_in_loop
shutdown_in_loop-stream c = elim (Bool-cases (is_writing c.channel)) [
  | inl on ↦ rw on (refl, λ f. f)
  | inr off ↦ rw off (refl, λ f. record { valid = f.valid; waits = f.waits })
]

by_state :
    (P : Connection → Type 0) (s : State) {a b : Connection}
    → P a
    → P b
    → P (elim s [ disconnecting ↦ a | _ ↦ b ])
by_state P disconnecting pa pb = pa
by_state P connecting pa pb = pb
by_state P connected pa pb = pb
by_state P disconnected pa pb = pb

pub channel-wrote_out : (n : ℕ) (c : Connection) → (wrote_out n c).channel ≡ c.channel
unfolding wrote_out
channel-wrote_out n c = refl

when_drained-stream :
    (c : Connection)
    → IsValid c.output_buffer
    → contents c.output_buffer ≡ []
    → (stream (when_drained c) ≡ stream c) × IsFlowing (when_drained c)
unfolding when_drained is_writing clear_writing
when_drained-stream c v empty =
    let off = on_channel not_writing clear_writing c in
    let (same, flows) = queue_complete-stream off in
    let flow : IsFlowing (queue_complete off) =
      flows (record { valid = v; waits = ground (arith, empty) }) in
    let (same', flows') = shutdown_in_loop-stream (queue_complete off) in
    by_state (λ c'. (stream c' ≡ stream c) × IsFlowing c') c.state (same' ∙ same, flows' flow)
      (same, flow)

-- `handleWrite`: what is written leaves the output buffer at its front, and the loop stops waiting
-- to write exactly when the buffer is empty.
pub after_write-stream :
    (n : ℕ) (c : Connection)
    → IsFlowing c
    → is_writing c.channel ≡ true
    → n ≤ length (contents c.output_buffer)
    → (stream (after_write n c) ≡ stream c) × IsFlowing (after_write n c)
unfolding after_write
after_write-stream n c f on fits =
    let (same, valid) = wrote_out-stream n c f.valid fits in
    elim (Bool-cases (readable_bytes (wrote_out n c).output_buffer == 0)) [
      | inl zero_left ↦
          let (same', flows) =
            when_drained-stream (wrote_out n c) valid
              (length-eq-zero _ (ground (arith, readable-contents valid))) in
          rw zero_left (same' ∙ same, flows)
      | inr some_left ↦ rw some_left (
        same,
        record {
          valid = valid;
          waits = rw (channel-wrote_out n c) (ground (arith, readable-contents valid));
        },
      )
    ]
