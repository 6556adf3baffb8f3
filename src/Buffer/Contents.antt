-- ===== src/Buffer/Contents.antt =====
-- A `Buffer` as the queue of the bytes that are still to be read.
use weee_chatroom.Common.{
  sym, ◌∙◌, length-slice, take-slice, take, ℕ, ◌+◌, ◌-◌, ◌≤◌, ◌<◌, ◌≡◌, refl, ap, List, [], ◌++◌,
  arith, length, drop, slice, write_at, slice-write_at, slice-write_at_above, slice-copy_forward,
  slice-append, slice-append_array, drop-slice, take_all,
}
use weee_chatroom.Buffer.{
  Buffer, cheap_prepend, readable_bytes, resize, make_space, ensure_writable_bytes, append,
  retrieve, retrieve_all, retrieve_as_string, peek,
}
use weee_chatroom.Buffer.Invariant.{
  IsValid, HasRoom, append-IsValid, retrieve-IsValid, retrieve_all-IsValid,
  ensure_writable_bytes-IsValid, ensure_writable_bytes_fits, readable_bytes_lem,
}

abbrev pub contents : Buffer → List ℕ
contents b = slice b.bytes b.reader_index (b.writer_index - b.reader_index)

slice-resize :
    (bs : List ℕ) (n i k : ℕ)
    → length bs ≤ n
    → i + k ≤ length bs
    → slice (resize bs n) i k ≡ slice bs i k
unfolding resize
slice-resize bs n i k h fits = rw (take_all n bs h) (slice-append_array bs _ i k fits)

make_space-contents :
    {b : Buffer} (len : ℕ)
    → IsValid b
    → HasRoom b len
    → length b.bytes < b.writer_index + len
    → contents (make_space b len) ≡ contents b
unfolding make_space
make_space-contents {b} len v h short = ground (
  arith,
  slice-resize b.bytes (b.writer_index + len) b.reader_index (b.writer_index - b.reader_index),
  slice-copy_forward b.bytes b.reader_index (b.writer_index - b.reader_index) cheap_prepend,
)

ensure_writable_bytes-contents :
    {b : Buffer} (len : ℕ)
    → IsValid b
    → HasRoom b len
    → contents (ensure_writable_bytes b len) ≡ contents b
unfolding ensure_writable_bytes
ensure_writable_bytes-contents {b} len v h = ground (arith, make_space-contents {b = b} len)

-- Bytes written behind the range that is to be read extend it.
pub slice-write_behind :
    (bs : List ℕ) (r w : ℕ) (text : List ℕ)
    → r ≤ w
    → w + length text ≤ length bs
    → slice (write_at bs w text) r (w + length text - r) ≡ slice bs r (w - r) ++ text
slice-write_behind bs r w text h fits =
    let e : w + length text - r ≡ (w - r) + length text = omega arith in
    let f : r + (w - r) ≡ w = omega arith in
    rw (e, slice-append, f, slice-write_at bs w text fits)
      (ap (λ s. s ++ text) (slice-write_at_above bs w text r (w - r) (omega arith)))

append_written :
    {b : Buffer} (text : List ℕ)
    → IsValid b
    → HasRoom b (length text)
    → contents (append b text) ≡ contents b ++ text
unfolding append
append_written {b} text v h =
    let c = ensure_writable_bytes b (length text) in
    let vc = ensure_writable_bytes-IsValid (length text) v h in
    let fits = ensure_writable_bytes_fits (length text) v h in
    ground (
      arith,
      vc,
      fits,
      slice-write_behind c.bytes c.reader_index c.writer_index text,
      ensure_writable_bytes-contents (length text) v h,
    )

retrieve_dropped :
    {b : Buffer} (len : ℕ)
    → IsValid b
    → len ≤ b.writer_index - b.reader_index
    → contents (retrieve b len) ≡ drop len (contents b)
unfolding retrieve
retrieve_dropped {b} len v h =
    ground (arith, drop-slice b.bytes b.reader_index (b.writer_index - b.reader_index) len)

-- `append` adds the text behind the bytes that are to be read, moving or growing the vector where
-- it must, and keeps the buffer valid, as long as the vector stays below its largest size.
pub append-contents :
    {b : Buffer} (text : List ℕ)
    → IsValid b
    → HasRoom b (length text)
    → (contents (append b text) ≡ contents b ++ text) × IsValid (append b text)
append-contents {b} text v h = (append_written text v h, append-IsValid text v h)

-- `retrieve` of no more than what is readable drops that many bytes from the front.
pub retrieve-contents :
    {b : Buffer} (len : ℕ)
    → IsValid b
    → len ≤ readable_bytes b
    → (contents (retrieve b len) ≡ drop len (contents b)) × IsValid (retrieve b len)
retrieve-contents {b} len v h =
    let fits : len ≤ b.writer_index - b.reader_index = omega (arith, readable_bytes_lem v) in
    (retrieve_dropped len v fits, retrieve-IsValid len v fits)

-- `retrieveAsString` returns all that is readable and leaves a valid, empty buffer.
pub retrieve_as_string_lem :
    {b : Buffer}
    → IsValid b
    → let (text, c) = retrieve_as_string b in (text ≡ contents b) × (contents c ≡ []) × IsValid c
unfolding retrieve_as_string peek
retrieve_as_string_lem {b} v = (rw (readable_bytes_lem v), empty, retrieve_all-IsValid v)
  where
    empty : contents (retrieve_all b) ≡ []
    empty = unfold retrieve_all in refl

pub readable-contents : {b : Buffer} → IsValid b → readable_bytes b ≡ length (contents b)
readable-contents {b} v =
    readable_bytes_lem v
    ∙ sym (length-slice b.bytes b.reader_index (b.writer_index - b.reader_index))

pub peek-contents :
    {b : Buffer} (k : ℕ) → IsValid b → k ≤ length (contents b) → peek b k ≡ take k (contents b)
unfolding peek
peek-contents {b} k v h = sym (
    take-slice b.bytes b.reader_index (b.writer_index - b.reader_index) k
      (omega (arith, length-slice b.bytes b.reader_index (b.writer_index - b.reader_index))))

pub retrieve_lem :
    {b : Buffer} (k : ℕ)
    → IsValid b
    → k ≤ length (contents b)
    → (contents (retrieve b k) ≡ drop k (contents b)) × IsValid (retrieve b k)
retrieve_lem {b} k v h = retrieve-contents k v (omega (arith, readable-contents v))
