-- ===== src/Buffer/Growth.antt =====
-- How far the vector of a `Buffer` grows.
use weee_chatroom.Common.{
  ℕ, ◌+◌, ◌-◌, ◌≤◌, ◌<◌, ◌^◌, ◌≡◌, refl, List, arith, length, length-copy_forward, length-write_at,
  length-drop, drop, ltb, ltb→lt, ltb_false→le, Bool-cases, inl, inr,
}
use weee_chatroom.Buffer.{
  Buffer, cheap_prepend, make_space, ensure_writable_bytes, append, retrieve, read_fd, received,
  writable_bytes, extra_size,
}
use weee_chatroom.Buffer.Invariant.{IsValid, HasRoom, length-resize}
use weee_chatroom.Buffer.Reading.{
  length-filled, filled-IsValid, filled-HasRoom, read_fd-short, read_fd-long,
}

pub bytes-retrieve : (b : Buffer) (len : ℕ) → (retrieve b len).bytes ≡ b.bytes
unfolding retrieve
bytes-retrieve b len = refl

make_space-growth :
    {b : Buffer} (len : ℕ)
    → IsValid b
    → HasRoom b len
    → length b.bytes < b.writer_index + len
    → length (make_space b len).bytes ≤ length b.bytes + len
unfolding make_space
make_space-growth {b} len v h short = ground (
  arith,
  length-resize b.bytes (b.writer_index + len),
  length-copy_forward b.bytes b.reader_index (b.writer_index - b.reader_index) cheap_prepend,
)

ensure_writable_bytes-growth :
    {b : Buffer} (len : ℕ)
    → IsValid b
    → HasRoom b len
    → length (ensure_writable_bytes b len).bytes ≤ length b.bytes + len
unfolding ensure_writable_bytes
ensure_writable_bytes-growth {b} len v h = ground (arith, make_space-growth {b = b} len)

-- `append` grows the vector by no more than the text.
pub append-growth :
    {b : Buffer} (text : List ℕ)
    → IsValid b
    → HasRoom b (length text)
    → length (append b text).bytes ≤ length b.bytes + length text
unfolding append
append-growth {b} text v h =
    let c = ensure_writable_bytes b (length text) in
    omega (
      arith,
      ensure_writable_bytes-growth (length text) v h,
      length-write_at c.bytes c.writer_index text,
    )

pub read_fd-growth :
    {b : Buffer} (input : List ℕ)
    → IsValid b
    → length input ≤ writable_bytes b + extra_size
    → length b.bytes + extra_size < 2 ^ 63
    → length (read_fd b (received input)).bytes ≤ length b.bytes + length input
read_fd-growth {b} input v fits room =
    let n = length b.bytes - b.writer_index in
    elim (Bool-cases (ltb n (length input))) [
      | inl more ↦ rw (read_fd-long input v (ltb→lt _ _ more)) (
          omega (
            arith,
            append-growth (drop n input) (filled-IsValid input v)
                (filled-HasRoom input v fits room),
            length-filled b input,
            length-drop n input,
          ))
      | inr less ↦
          rw (read_fd-short input v (ltb_false→le _ _ less)) (omega (arith, length-filled b input))
    ]
