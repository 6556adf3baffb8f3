-- ===== src/Buffer/Tests.antt =====
-- Buffers of a few bytes.
use weee_chatroom.Common.{◌≡◌, refl, [], ◌∷◌, arith}
use weee_chatroom.Buffer.{
  Buffer, ensure_writable_bytes, make_space, writable_bytes, append, read_fd, received,
}
use weee_chatroom.Buffer.Invariant.{IsValid}
use weee_chatroom.Buffer.Contents.{contents, append-contents}
use weee_chatroom.Buffer.Reading.{read_fd-contents}

-- Two bytes to read, and room for one behind them.
abbrev two_bytes : Buffer
two_bytes = record {
  bytes = 0 ∷ 0 ∷ 0 ∷ 0 ∷ 0 ∷ 0 ∷ 0 ∷ 0 ∷ 0 ∷ 7 ∷ 8 ∷ 0 ∷ [];
  reader_index = 9;
  writer_index = 11;
}

-- The same two bytes further back, so that a move makes room for two more.
abbrev far_back : Buffer
far_back = record {
  bytes = 0 ∷ 0 ∷ 0 ∷ 0 ∷ 0 ∷ 0 ∷ 0 ∷ 0 ∷ 0 ∷ 0 ∷ 7 ∷ 8 ∷ [];
  reader_index = 10;
  writer_index = 12;
}

two_bytes-IsValid : IsValid two_bytes
two_bytes-IsValid = omega arith

far_back_moves : (append far_back (1 ∷ 2 ∷ [])).reader_index ≡ 8
unfolding append ensure_writable_bytes make_space
far_back_moves = refl

append-contents_example :
    (contents (append two_bytes (1 ∷ 2 ∷ [])) ≡ 7 ∷ 8 ∷ 1 ∷ 2 ∷ [])
    × IsValid (append two_bytes (1 ∷ 2 ∷ []))
append-contents_example = append-contents (1 ∷ 2 ∷ []) two_bytes-IsValid (omega arith)

read_fd-contents_example :
    (contents (read_fd two_bytes (received (1 ∷ 2 ∷ 3 ∷ []))) ≡ 7 ∷ 8 ∷ 1 ∷ 2 ∷ 3 ∷ [])
    × IsValid (read_fd two_bytes (received (1 ∷ 2 ∷ 3 ∷ [])))
unfolding writable_bytes
read_fd-contents_example =
    read_fd-contents (received (1 ∷ 2 ∷ 3 ∷ [])) two_bytes-IsValid (omega arith) (omega arith)
