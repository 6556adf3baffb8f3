-- ===== src/Codec/Safety.antt =====
-- The `onMessage` loop on bytes from anywhere: it ends, and never reads past what is in the buffer.
use weee_chatroom.Common.{
  ℕ, zero, suc, ◌-◌, ◌<◌, ◌≤◌, ◌^◌, ◌≡◌, refl, ap, ◌≢◌, List, arith, length, drop, length-slice,
  length-drop,
}
use weee_chatroom.Buffer.{Buffer, readable_bytes, retrieve, peek}
use weee_chatroom.Buffer.Growth.{bytes-retrieve}
use weee_chatroom.Buffer.Invariant.{IsValid}
use weee_chatroom.Buffer.Contents.{contents, retrieve_lem, readable-contents}
use weee_chatroom.Codec.{Decoded, on_message, size_of_int, ntohl_bytes, starved, length_error}
use weee_chatroom.Codec.Frames.{
  announced, front, waits, takes, throws, on_message-waits, on_message-takes, on_message-throws,
}

contents-small : {b : Buffer} → IsValid b → length (contents b) < 2 ^ 63
contents-small {b} v =
    omega (arith, v, length-slice b.bytes b.reader_index (b.writer_index - b.reader_index))

-- The loop has ended by itself, and the buffer that it leaves is valid.
pub record IsSafe {E : Type 0} (d : Decoded E) : Type 0 where
  pub valid : IsValid d.rest
  pub ended : d.outcome ≢ starved

module _ {E : Type 0} (deliver : List ℕ → E) where
  on_message_ends :
      (fuel : ℕ) {b : Buffer}
      → IsValid b
      → length (contents b) < fuel
      → IsSafe (on_message deliver fuel b)
  on_message_ends zero v h = absurd (omega arith)
  on_message_ends (suc fuel) {b} v h = elim (front (contents b) (contents-small v)) [
    | waits more ↦ rw (on_message-waits deliver fuel v more) (record { valid = v; ended = λ e. cc })
    | throws long negative ↦
        rw (on_message-throws deliver fuel v long negative)
          (record { valid = (retrieve_lem 4 v long).1; ended = λ e. cc })
    | takes all ↦
        let (step, left, v') = on_message-takes deliver fuel v all in
        let rest = on_message_ends fuel v' (
          omega (
            arith,
            ap length left,
            h,
            all,
            length-drop 4 (contents b),
            length-drop (announced (contents b)) (drop 4 (contents b)),
          )) in
        rw step (record { valid = rest.valid; ended = rest.ended })
  ]

  -- Whatever bytes arrive, the loop ends with more fuel than bytes, and leaves a valid buffer: no
  -- read goes past the bytes that are there, in the branch that throws neither.
  pub on_message-IsSafe :
      {b : Buffer} (fuel : ℕ)
      → IsValid b
      → readable_bytes b < fuel
      → IsSafe (on_message deliver fuel b)
  on_message-IsSafe {b} fuel v h = on_message_ends fuel v (omega (arith, readable-contents v))

  -- A header that reads as a length of -4 to -1 passes the test on what is readable, and building
  -- the string throws `std::length_error`, whatever follows: the messages before it are delivered,
  -- this one is not.
  pub on_message-negative :
      {b : Buffer} (fuel : ℕ)
      → IsValid b
      → 4 ≤ length (contents b)
      → 2 ^ 32 - 4 ≤ announced (contents b)
      → (on_message deliver (suc fuel) b).outcome ≡ length_error
  on_message-negative fuel v long negative =
      ap (λ d. d.outcome) (on_message-throws deliver fuel v long negative)

  -- The loop moves indices only.
  pub bytes-on_message : (fuel : ℕ) (b : Buffer) → (on_message deliver fuel b).rest.bytes ≡ b.bytes
  unfolding on_message
  bytes-on_message zero b = refl
  bytes-on_message (suc fuel) b =
      let size = size_of_int (ntohl_bytes (peek b 4)) in
      ground (
        arith,
        bytes-on_message fuel (retrieve (retrieve b 4) size),
        bytes-retrieve b 4,
        bytes-retrieve (retrieve b 4) size,
      )
