-- ===== src/Codec/Frames.antt =====
-- One round of the `onMessage` loop, on each of its branches, over what the buffer holds.
use weee_chatroom.Common.{
  inl, inr, ◌⊎◌, ℕ, suc, ◌+◌, ◌-◌, ◌≤◌, ◌<◌, ◌^◌, ◌≡◌, refl, ap, ◌∙◌, List, [], ◌∷◌, ◌++◌, arith,
  length, take, drop, length-drop,
}
use native.Mathlib.Decide.{dec_lt}
use weee_chatroom.Buffer.{Buffer, retrieve}
use weee_chatroom.Buffer.Invariant.{IsValid}
use weee_chatroom.Buffer.Contents.{contents, retrieve_lem, readable-contents, peek-contents}
use weee_chatroom.Codec.{
  htonl_bytes, send_json, ntohl_bytes, frame_size, on_message, finished, length_error,
}

-- The length that the header at the front of a stream announces, as a bit pattern.
abbrev pub announced : List ℕ → ℕ
announced s = ntohl_bytes (take 4 s)

pub ntohl_bytes-lt : (bs : List ℕ) → ntohl_bytes bs < 2 ^ 32
unfolding ntohl_bytes
ntohl_bytes-lt bs = omega arith

-- `ntohl` undoes `htonl`.
pub ntohl-htonl : (n : ℕ) → n < 2 ^ 32 → ntohl_bytes (htonl_bytes n) ≡ n
unfolding ntohl_bytes htonl_bytes
ntohl-htonl n h = omega arith

pub announced-send_json :
    (m s : List ℕ) → length m < 2 ^ 32 → announced (send_json m ++ s) ≡ length m
unfolding ntohl_bytes htonl_bytes send_json
announced-send_json m s h = omega arith

pub length-send_json : (m : List ℕ) → length (send_json m) ≡ 4 + length m
unfolding send_json htonl_bytes
length-send_json m = omega arith

pub drop-send_json : (m s : List ℕ) → drop 4 (send_json m ++ s) ≡ m ++ s
unfolding send_json htonl_bytes
drop-send_json m s = refl

-- Less than a header, or less than the frame that the header announces.
abbrev pub HasNoFrame : List ℕ → Type 0
HasNoFrame s = (length s < 4) ⊎ ((4 ≤ length s) × (length s < frame_size (announced s)))

-- A header with a length that an `int` can hold beside it, and that many bytes.
abbrev pub HasFrame : List ℕ → Type 0
HasFrame s = (announced s + 4 < 2 ^ 31) × (announced s + 4 ≤ length s)

module _ {E : Type 0} (deliver : List ℕ → E) where
  -- The branch that waits for more: less than a header, or less than the frame.
  pub on_message-waits :
      {b : Buffer} (fuel : ℕ)
      → IsValid b
      → HasNoFrame (contents b)
      → on_message deliver (suc fuel) b ≡ record { events = []; rest = b; outcome = finished }
  unfolding on_message
  on_message-waits {b} fuel v (inl h) = ground (arith, readable-contents v)
  on_message-waits {b} fuel v (inr h) = ground (arith, readable-contents v, peek-contents 4 v)

  -- The branch that throws: a length of -4 to -1 passes the test, and no string is that long.
  pub on_message-throws :
      {b : Buffer} (fuel : ℕ)
      → IsValid b
      → 4 ≤ length (contents b)
      → 2 ^ 32 - 4 ≤ announced (contents b)
      → on_message deliver (suc fuel) b
        ≡ record { events = []; rest = retrieve b 4; outcome = length_error }
  unfolding on_message
  on_message-throws {b} fuel v h neg =
      ground (arith, readable-contents v, peek-contents 4 v, ntohl_bytes-lt (take 4 (contents b)))

  -- The branch that takes a frame off the front.
  pub on_message-takes :
      {b : Buffer} (fuel : ℕ)
      → IsValid b
      → HasFrame (contents b)
      → let len = announced (contents b) in
        let b' = retrieve (retrieve b 4) len in
        let next = on_message deliver fuel b' in
        (on_message deliver (suc fuel) b
          ≡ record next { events = deliver (take len (drop 4 (contents b))) ∷ next.events })
        × (contents b' ≡ drop len (drop 4 (contents b)))
        × IsValid b'
  unfolding on_message
  on_message-takes {b} fuel v h =
      let (dropped, valid) = retrieve_lem 4 v (omega (arith, h)) in
      let fits : announced (contents b) ≤ length (contents (retrieve b 4)) =
        omega (arith, h, ap length dropped, length-drop 4 (contents b)) in
      let (dropped', valid') = retrieve_lem (announced (contents b)) valid fits in
      (
        ground (
          arith,
          readable-contents v,
          peek-contents 4 v,
          peek-contents (announced (contents b)) valid fits,
          dropped,
        ),
        dropped' ∙ ap (drop (announced (contents b))) dropped,
        valid',
      )

-- Every stream is in one of three cases.
pub data Front (s : List ℕ) : Type 0 where
  waits : HasNoFrame s → Front s
  takes : HasFrame s → Front s
  throws : 4 ≤ length s → 2 ^ 32 - 4 ≤ announced s → Front s

pub front : (s : List ℕ) → length s < 2 ^ 63 → Front s
front s h = elim (dec_lt (length s) 4) [
  | yes short ↦ waits (inl short)
  | no long ↦ elim (dec_lt (length s) (frame_size (announced s))) [
    | yes more ↦ waits (inr (omega arith, more))
    | no all ↦ elim (dec_lt (announced s) (2 ^ 32 - 4)) [
      | yes small ↦ takes (ground (arith, ntohl_bytes-lt (take 4 s)))
      | no negative ↦ throws (omega arith) (omega arith)
    ]
  ]
]
