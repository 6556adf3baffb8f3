-- ===== src/Buffer.antt =====
-- netlib/reactor/Buffer.h and Buffer.cc: the byte buffer of a connection. The vector is a list of
-- bytes, a pointer into it an index, and `size_t` arithmetic wraps at 2^64. Bytes are only moved,
-- so a byte is any number. That an allocation fails is not modelled.
pub mod Invariant
pub mod Contents
pub mod Reading
pub mod Growth
mod Tests
use weee_chatroom.Common.{
  ℕ, ◌+◌, ◌-◌, Bool, List, [], ◌∷◌, ◌++◌, length, take, drop, replicate, slice, write_at,
  copy_forward, ltb, leb, if◌then◌else◌,
}
use weee_chatroom.Common.Words.{add_size, sub_size}

pub record Buffer : Type 0 where
  pub bytes : List ℕ
  pub reader_index : ℕ
  pub writer_index : ℕ

abbrev pub cheap_prepend : ℕ
cheap_prepend = 8

abbrev pub initial_size : ℕ
initial_size = 1024

-- The constructor. The vector's elements are value-initialised.
unfoldable pub new_buffer : Buffer
new_buffer = record {
  bytes = replicate (cheap_prepend + initial_size) 0;
  reader_index = cheap_prepend;
  writer_index = cheap_prepend;
}

unfoldable pub readable_bytes : Buffer → ℕ
readable_bytes b = sub_size b.writer_index b.reader_index

unfoldable pub writable_bytes : Buffer → ℕ
writable_bytes b = sub_size (length b.bytes) b.writer_index

unfoldable pub prependable_bytes : Buffer → ℕ
prependable_bytes b = b.reader_index

-- `vector::resize`: cut off, or padded with zeros.
unfoldable pub resize : List ℕ → ℕ → List ℕ
resize bs n = take n bs ++ replicate (n - length bs) 0

unfoldable pub make_space : Buffer → ℕ → Buffer
unfolding readable_bytes writable_bytes prependable_bytes
make_space b len =
    if ltb (add_size (writable_bytes b) (prependable_bytes b)) (add_size len cheap_prepend)
    then record b { bytes = resize b.bytes (add_size b.writer_index len) }
    else record {
      bytes =
          copy_forward b.bytes b.reader_index (sub_size b.writer_index b.reader_index)
            cheap_prepend;
      reader_index = cheap_prepend;
      writer_index = add_size cheap_prepend (readable_bytes b);
    }

unfoldable pub ensure_writable_bytes : Buffer → ℕ → Buffer
unfolding writable_bytes
ensure_writable_bytes b len = if ltb (writable_bytes b) len then make_space b len else b

unfoldable pub has_written : Buffer → ℕ → Buffer
has_written b len = record b { writer_index = add_size b.writer_index len }

unfoldable pub append : Buffer → List ℕ → Buffer
unfolding has_written
append b text =
    let c = ensure_writable_bytes b (length text) in
    has_written (record c { bytes = write_at c.bytes c.writer_index text }) (length text)

unfoldable pub retrieve : Buffer → ℕ → Buffer
retrieve b len = record b { reader_index = add_size b.reader_index len }

-- `retrieveUntil(end)`, with `end` as an index into the vector.
unfoldable pub retrieve_until : Buffer → ℕ → Buffer
retrieve_until b end = retrieve b (sub_size end b.reader_index)

unfoldable pub retrieve_all : Buffer → Buffer
retrieve_all b = record b { reader_index = cheap_prepend; writer_index = cheap_prepend }

-- `std::string(peek(), len)`.
unfoldable pub peek : Buffer → ℕ → List ℕ
peek b len = slice b.bytes b.reader_index len

unfoldable pub retrieve_as_string : Buffer → List ℕ × Buffer
unfolding readable_bytes peek
retrieve_as_string b = (peek b (readable_bytes b), retrieve_all b)

-- What `readv` does: it fails with an errno, or fills the two regions in turn with these bytes.
pub data Readv : Type 0 where
  failed : ℕ → Readv
  received : List ℕ → Readv

-- `sizeof extrabuf`
abbrev pub extra_size : ℕ
extra_size = 65536

-- The first region is the writable part of the vector, the second the 64 KiB on the stack. The
-- value returned and `savedErrno` are those of the `Readv` itself.
unfoldable pub read_fd : Buffer → Readv → Buffer
unfolding writable_bytes
read_fd b (failed errno) = b
read_fd b (received input) =
    let writable = writable_bytes b in
    let filled = record b { bytes = write_at b.bytes b.writer_index (take writable input) } in
    if leb (length input) writable
    then record filled { writer_index = add_size b.writer_index (length input) }
    else append (record filled { writer_index = length filled.bytes }) (drop writable input)
