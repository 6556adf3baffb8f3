-- ===== src/Buffer/Reading.antt =====
-- `Buffer::readFd`: whatever `readv` delivers, up to 64 KiB more than fits, is kept in order.
use weee_chatroom.Common.{
  ℕ, ◌+◌, ◌-◌, ◌≤◌, ◌<◌, ◌^◌, ◌≡◌, sym, ap, ◌∙◌, List, [], ◌++◌, arith, length, take, drop,
  write_at, length-write_at, take-append-drop, length-take, length-drop, take_all, ltb, ltb→lt,
  ltb_false→le, append-nil, false, append_assoc, inl, inr, Bool-cases,
}
use weee_chatroom.Buffer.{
  Buffer, writable_bytes, append, Readv, failed, received, read_fd, extra_size,
}
use weee_chatroom.Buffer.Invariant.{IsValid, HasRoom, writable_bytes_lem}
use weee_chatroom.Buffer.Contents.{contents, append-contents, slice-write_behind}

-- The bytes that a `readv` delivered.
abbrev pub input_of : Readv → List ℕ
input_of (failed errno) = []
input_of (received input) = input

-- The vector with the part of the input in it that fits, and the index behind that part.
pub filled : Buffer → List ℕ → Buffer
filled b input =
    let part = take (length b.bytes - b.writer_index) input in
    record b {
      bytes = write_at b.bytes b.writer_index part;
      writer_index = b.writer_index + length part;
    }

pub length-filled : (b : Buffer) (input : List ℕ) → length (filled b input).bytes ≡ length b.bytes
unfolding filled
length-filled b input = length-write_at b.bytes b.writer_index _

filled-contents :
    {b : Buffer} (input : List ℕ)
    → IsValid b
    → contents (filled b input) ≡ contents b ++ take (length b.bytes - b.writer_index) input
unfolding filled
filled-contents {b} input v =
    let part = take (length b.bytes - b.writer_index) input in
    slice-write_behind b.bytes b.reader_index b.writer_index part v.ordered
      (omega (arith, v, length-take (length b.bytes - b.writer_index) input))

pub filled-IsValid : {b : Buffer} (input : List ℕ) → IsValid b → IsValid (filled b input)
unfolding filled
filled-IsValid {b} input v =
    let part = take (length b.bytes - b.writer_index) input in
    omega (
      arith,
      length-take (length b.bytes - b.writer_index) input,
      length-write_at b.bytes b.writer_index part,
    )

pub filled-HasRoom :
    {b : Buffer} (input : List ℕ)
    → IsValid b
    → length input ≤ writable_bytes b + extra_size
    → length b.bytes + extra_size < 2 ^ 63
    → HasRoom (filled b input) (length (drop (length b.bytes - b.writer_index) input))
unfolding filled
filled-HasRoom {b} input v fits room =
    let n = length b.bytes - b.writer_index in
    omega (arith, v, writable_bytes_lem v, length-take n input, length-drop n input)

pub read_fd-short :
    {b : Buffer} (input : List ℕ)
    → IsValid b
    → length input ≤ length b.bytes - b.writer_index
    → read_fd b (received input) ≡ filled b input
unfolding read_fd filled
read_fd-short {b} input v h =
    ground (arith, writable_bytes_lem v, take_all (length b.bytes - b.writer_index) input)

pub read_fd-long :
    {b : Buffer} (input : List ℕ)
    → IsValid b
    → length b.bytes - b.writer_index < length input
    → read_fd b (received input)
      ≡ append (filled b input) (drop (length b.bytes - b.writer_index) input)
unfolding read_fd filled
read_fd-long {b} input v h =
    let n = length b.bytes - b.writer_index in
    ground (
      arith,
      writable_bytes_lem v,
      length-take n input,
      length-write_at b.bytes b.writer_index (take n input),
    )

-- Where `readv` delivers no more than its two regions hold, the readable bytes grow by exactly
-- what it delivered, in order, and the buffer stays valid; a failed `readv` changes nothing. The
-- vector is at least 64 KiB below its largest size.
pub read_fd-contents :
    {b : Buffer} (r : Readv)
    → IsValid b
    → length (input_of r) ≤ writable_bytes b + extra_size
    → length b.bytes + extra_size < 2 ^ 63
    → (contents (read_fd b r) ≡ contents b ++ input_of r) × IsValid (read_fd b r)
unfolding read_fd
read_fd-contents {b} (failed errno) v fits room = (sym (append-nil (contents b)), v)
read_fd-contents {b} (received input) v fits room = elim (Bool-cases (ltb n (length input))) [
  | inl more ↦ rw (read_fd-long input v (ltb→lt _ _ more)) (kept, appended.1)
  | inr less ↦
      rw (read_fd-short input v (ltb_false→le _ _ less)) (short less, filled-IsValid input v)
]
  where
    n : ℕ
    n = length b.bytes - b.writer_index

    short : ltb n (length input) ≡ false → contents (filled b input) ≡ contents b ++ input
    short less =
        filled-contents input v
        ∙ ap (λ t. contents b ++ t) (take_all n input (ltb_false→le _ _ less))

    appended :
        (contents (append (filled b input) (drop n input))
          ≡ contents (filled b input) ++ drop n input)
        × IsValid (append (filled b input) (drop n input))
    appended =
        append-contents (drop n input) (filled-IsValid input v) (filled-HasRoom input v fits room)

    kept : contents (append (filled b input) (drop n input)) ≡ contents b ++ input
    kept = rw (appended.0, filled-contents input v, append_assoc, take-append-drop n input)
