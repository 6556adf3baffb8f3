-- ===== src/Buffer/Invariant.antt =====
-- The indices of a `Buffer` stay in order and inside the vector.
use weee_chatroom.Common.{
  ℕ, ◌+◌, ◌-◌, ◌≤◌, ◌<◌, ◌^◌, ◌≡◌, List, arith, length, length-append, length-take,
  length-replicate, length-write_at, length-copy_forward, take,
}
use weee_chatroom.Buffer.{
  Buffer, cheap_prepend, new_buffer, readable_bytes, writable_bytes, resize, make_space,
  ensure_writable_bytes, append, retrieve, retrieve_all,
}

pub record IsValid (b : Buffer) : Type 0 where
  pub prepend : cheap_prepend ≤ b.reader_index
  pub ordered : b.reader_index ≤ b.writer_index
  pub inside : b.writer_index ≤ length b.bytes
  pub small : length b.bytes < 2 ^ 63

-- `len` more bytes keep the vector below its largest size.
abbrev pub HasRoom : Buffer → ℕ → Type 0
HasRoom b len = b.writer_index + len < 2 ^ 63

pub readable_bytes_lem :
    {b : Buffer} → IsValid b → readable_bytes b ≡ b.writer_index - b.reader_index
unfolding readable_bytes
readable_bytes_lem v = omega arith

pub writable_bytes_lem :
    {b : Buffer} → IsValid b → writable_bytes b ≡ length b.bytes - b.writer_index
unfolding writable_bytes
writable_bytes_lem v = omega arith

pub length-resize : (bs : List ℕ) (n : ℕ) → length (resize bs n) ≡ n
unfolding resize
length-resize bs n = omega (
  arith,
  length-append (take n bs) _,
  length-take n bs,
  length-replicate {A = ℕ} (n - length bs) 0,
)

pub new_buffer-IsValid : IsValid new_buffer
unfolding new_buffer
new_buffer-IsValid = omega arith

pub make_space-IsValid :
    {b : Buffer} (len : ℕ) → IsValid b → HasRoom b len → IsValid (make_space b len)
unfolding make_space
make_space-IsValid {b} len v h = ground (
  arith,
  length-resize b.bytes (b.writer_index + len),
  length-copy_forward b.bytes b.reader_index (b.writer_index - b.reader_index) cheap_prepend,
)

pub ensure_writable_bytes-IsValid :
    {b : Buffer} (len : ℕ) → IsValid b → HasRoom b len → IsValid (ensure_writable_bytes b len)
unfolding ensure_writable_bytes
ensure_writable_bytes-IsValid {b} len v h = ground (arith, make_space-IsValid {b = b} len)

-- The space asked for is there.
pub make_space_fits :
    {b : Buffer} (len : ℕ)
    → IsValid b
    → HasRoom b len
    → length b.bytes < b.writer_index + len
    → (make_space b len).writer_index + len ≤ length (make_space b len).bytes
unfolding make_space
make_space_fits {b} len v h short = ground (
  arith,
  length-resize b.bytes (b.writer_index + len),
  length-copy_forward b.bytes b.reader_index (b.writer_index - b.reader_index) cheap_prepend,
)

pub ensure_writable_bytes_fits :
    {b : Buffer} (len : ℕ)
    → IsValid b
    → HasRoom b len
    → (ensure_writable_bytes b len).writer_index + len ≤ length (ensure_writable_bytes b len).bytes
unfolding ensure_writable_bytes
ensure_writable_bytes_fits {b} len v h = ground (arith, make_space_fits {b = b} len)

pub append-IsValid :
    {b : Buffer} (text : List ℕ) → IsValid b → HasRoom b (length text) → IsValid (append b text)
unfolding append
append-IsValid {b} text v h =
    let c = ensure_writable_bytes b (length text) in
    ground (
      arith,
      ensure_writable_bytes-IsValid (length text) v h,
      ensure_writable_bytes_fits (length text) v h,
      length-write_at c.bytes c.writer_index text,
    )

pub retrieve-IsValid :
    {b : Buffer} (len : ℕ)
    → IsValid b
    → len ≤ b.writer_index - b.reader_index
    → IsValid (retrieve b len)
unfolding retrieve
retrieve-IsValid len v h = omega arith

pub retrieve_all-IsValid : {b : Buffer} → IsValid b → IsValid (retrieve_all b)
unfolding retrieve_all
retrieve_all-IsValid v = omega arith
