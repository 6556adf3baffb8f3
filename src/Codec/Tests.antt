-- ===== src/Codec/Tests.antt =====
-- Two short messages on the wire.
use weee_chatroom.Common.{ℕ, ◌≡◌, refl, List, [], ◌∷◌, arith, inl}
use weee_chatroom.Buffer.{Buffer}
use weee_chatroom.Buffer.Invariant.{IsValid, readable_bytes_lem}
use weee_chatroom.Buffer.Contents.{contents}
use weee_chatroom.Codec.{on_message, length_error, send_json, htonl_bytes, ntohl_bytes}
use weee_chatroom.Codec.Safety.{IsSafe, on_message-IsSafe, on_message-negative}
use weee_chatroom.Codec.Stream.{Received, on_message-wire}
use weee_chatroom.Codec.Chunks.{receive, receive-wire}

-- The frames of "ab" and "c", and the first two bytes of another header.
abbrev arrived : Buffer
arrived = record {
  bytes = 0 ∷ 0 ∷ 0 ∷ 0 ∷ 0 ∷ 0 ∷ 0 ∷ 0 ∷ 0 ∷ 0 ∷ 0 ∷ 2 ∷ 97 ∷ 98 ∷ 0 ∷ 0 ∷ 0 ∷ 1 ∷ 99 ∷ 0 ∷ 0 ∷ [];
  reader_index = 8;
  writer_index = 21;
}

-- A header of -1.
abbrev negative : Buffer
negative = record {
  bytes = 0 ∷ 0 ∷ 0 ∷ 0 ∷ 0 ∷ 0 ∷ 0 ∷ 0 ∷ 255 ∷ 255 ∷ 255 ∷ 255 ∷ [];
  reader_index = 8;
  writer_index = 12;
}

abbrev empty : Buffer
empty = record { bytes = 0 ∷ 0 ∷ 0 ∷ 0 ∷ 0 ∷ 0 ∷ 0 ∷ 0 ∷ []; reader_index = 8; writer_index = 8 }

abbrev texts : List (List ℕ)
texts = (97 ∷ 98 ∷ []) ∷ (99 ∷ []) ∷ []

arrived-IsValid : IsValid arrived
arrived-IsValid = omega arith

negative-IsValid : IsValid negative
negative-IsValid = omega arith

empty-IsValid : IsValid empty
empty-IsValid = omega arith

send_json_ab : send_json (97 ∷ 98 ∷ []) ≡ 0 ∷ 0 ∷ 0 ∷ 2 ∷ 97 ∷ 98 ∷ []
unfolding send_json htonl_bytes
send_json_ab = refl

on_message-IsSafe_example : IsSafe (on_message (λ s. s) 14 arrived)
on_message-IsSafe_example =
    on_message-IsSafe (λ s. s) 14 arrived-IsValid
      (omega (arith, readable_bytes_lem arrived-IsValid))

on_message-negative_example : (on_message (λ s. s) 1 negative).outcome ≡ length_error
unfolding ntohl_bytes
on_message-negative_example =
    on_message-negative (λ s. s) 0 negative-IsValid (omega arith) (omega arith)

on_message-wire_example : Received (λ s. s) texts (0 ∷ 0 ∷ []) (on_message (λ s. s) 3 arrived)
unfolding send_json htonl_bytes
on_message-wire_example =
    on_message-wire (λ s. s) texts (0 ∷ 0 ∷ []) 3 arrived-IsValid refl (omega arith)
      (inl (omega arith)) (omega arith)

-- The two frames in pieces of one, six and four bytes.
abbrev pieces : List (List ℕ)
pieces = (0 ∷ []) ∷ (0 ∷ 0 ∷ 2 ∷ 97 ∷ 98 ∷ 0 ∷ []) ∷ (0 ∷ 0 ∷ 1 ∷ 99 ∷ []) ∷ []

receive-wire_example :
    let (events, b) = receive (λ s. s) pieces empty in
    (events ≡ texts) × (contents b ≡ []) × IsValid b
unfolding send_json htonl_bytes
receive-wire_example =
    receive-wire (λ s. s) pieces texts [] empty-IsValid (inl (omega arith)) refl (omega arith)
      (inl (omega arith)) (omega arith) (omega arith)
