-- ===== src/Codec.antt =====
-- The framing of messages: a length in four bytes, most significant first, then the JSON text.
-- Written by `sendJson` (server/base/base.cc, client/Neter.cc), taken apart by the `onMessage` loops
-- of server/Service.cc and client/Neter.cc. A text is its list of bytes.
pub mod Frames
pub mod Stream
pub mod Chunks
pub mod Safety
mod Tests
use weee_chatroom.Common.{
  ℕ, zero, suc, ◌+◌, ◌*◌, ◌-◌, ◌/◌, ◌%◌, ◌^◌, Bool, List, [], ◌∷◌, ◌++◌, length, get_or, ltb,
  if◌then◌else◌,
}
use weee_chatroom.Buffer.{Buffer, readable_bytes, retrieve, peek}

-- `static_cast<int>(size)` as a bit pattern.
abbrev pub int_of_size : ℕ → ℕ
int_of_size n = n % 2 ^ 32

-- `htonl`, and the four bytes that `append` then copies out of the `int`.
pub htonl_bytes : ℕ → List ℕ
htonl_bytes n = n / 2 ^ 24 % 256 ∷ n / 2 ^ 16 % 256 ∷ n / 2 ^ 8 % 256 ∷ n % 256 ∷ []

-- `sendJson`: what is handed to `conn->send`.
pub send_json : List ℕ → List ℕ
send_json json_str = htonl_bytes (int_of_size (length json_str)) ++ json_str

-- `ntohl` of the four bytes at the front, as the bit pattern of an `int`.
pub ntohl_bytes : List ℕ → ℕ
ntohl_bytes bs = byte 0 * 2 ^ 24 + byte 1 * 2 ^ 16 + byte 2 * 2 ^ 8 + byte 3
  where
    byte : ℕ → ℕ
    byte i = get_or bs i 0 % 256

-- An `int` that is converted to `size_t`: its sign bit is extended.
abbrev pub size_of_int : ℕ → ℕ
size_of_int p = if ltb p (2 ^ 31) then p else p + 2 ^ 64 - 2 ^ 32

-- `4 + len` in `int` (it wraps where C++ leaves an overflow undefined), compared as `size_t`.
abbrev pub frame_size : ℕ → ℕ
frame_size len = size_of_int ((4 + len) % 2 ^ 32)

-- How the loop ends: by its test or its `break`, or by `std::length_error` out of the constructor
-- `std::string(buf->peek(), len)`, which nothing catches. `starved` is the end of the model's fuel.
pub data Outcome : Type 0 where
  finished length_error starved : Outcome

pub record Decoded (E : Type 0) : Type 0 where
  pub events : List E
  pub rest : Buffer
  pub outcome : Outcome

-- The largest `std::string`.
abbrev pub max_string : ℕ
max_string = 2 ^ 63 - 1

-- The loop of `onMessage`. What its body does with a text is `deliver`.
module _ {E : Type 0} (deliver : List ℕ → E) where
  pub on_message : ℕ → Buffer → Decoded E
  on_message zero b = record { events = []; rest = b; outcome = starved }
  on_message (suc fuel) b =
      let len = ntohl_bytes (peek b 4) in
      let header_read = retrieve b 4 in
      let json_str = peek header_read (size_of_int len) in
      let next = on_message fuel (retrieve header_read (size_of_int len)) in
      if ltb (readable_bytes b) 4
      then record { events = []; rest = b; outcome = finished }
      else if ltb (readable_bytes b) (frame_size len)
      then record { events = []; rest = b; outcome = finished }
      else if ltb max_string (size_of_int len)
      then record { events = []; rest = header_read; outcome = length_error }
      else record next { events = deliver json_str ∷ next.events }
