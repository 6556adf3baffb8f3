-- ===== src/Codec/Stream.antt =====
-- The `onMessage` loop on a buffer that holds whole frames and less than one more.
use weee_chatroom.Common.{
  ℕ, zero, suc, ◌+◌, ◌<◌, ◌^◌, ◌≡◌, refl, ap, ◌∙◌, List, [], ◌∷◌, ◌++◌, map, arith, length, take,
  drop, take-append_self, drop-append_self, append_assoc, length-append,
}
use weee_chatroom.Buffer.{Buffer, retrieve}
use weee_chatroom.Buffer.Invariant.{IsValid}
use weee_chatroom.Buffer.Contents.{contents}
use weee_chatroom.Codec.{Decoded, on_message, send_json, finished}
use weee_chatroom.Codec.Frames.{
  announced, HasNoFrame, announced-send_json, length-send_json, on_message-waits, on_message-takes,
  drop-send_json,
}

-- What `sendJson` puts on the wire for some messages.
abbrev pub wire : List (List ℕ) → List ℕ
wire [] = []
wire (m ∷ ms) = send_json m ++ wire ms

-- Each message and its header have a size that an `int` can hold.
abbrev pub AllSmall : List (List ℕ) → Type 0
AllSmall [] = Unit {0}
AllSmall (m ∷ ms) = (length m + 4 < 2 ^ 31) × AllSmall ms

module _ {E : Type 0} (deliver : List ℕ → E) where
  -- What the loop makes of a buffer that holds whole frames and less than one more.
  pub record Received (ms : List (List ℕ)) (r : List ℕ) (d : Decoded E) : Type 0 where
    pub all : d.events ≡ map deliver ms
    pub left : contents d.rest ≡ r
    pub valid : IsValid d.rest
    pub ended : d.outcome ≡ finished

  -- The loop delivers each whole message once, in order, and leaves the rest in the buffer, with
  -- more fuel than there are messages.
  pub on_message-wire :
      (ms : List (List ℕ)) (r : List ℕ) (fuel : ℕ) {b : Buffer}
      → IsValid b
      → contents b ≡ wire ms ++ r
      → AllSmall ms
      → HasNoFrame r
      → length ms < fuel
      → Received ms r (on_message deliver fuel b)
  on_message-wire ms r zero v e small more h = absurd (omega arith)
  on_message-wire [] r (suc fuel) v e small more h =
      rw (on_message-waits deliver fuel v (rw e more))
        (record { all = refl; left = e; valid = v; ended = refl })
  on_message-wire (m ∷ ms) r (suc fuel) {b} v e small more h =
      let s = wire ms ++ r in
      let e' : contents b ≡ send_json m ++ s = e ∙ append_assoc (send_json m) (wire ms) r in
      let len : announced (contents b) ≡ length m =
        ap announced e' ∙ announced-send_json m s (omega (arith, small)) in
      let body : drop 4 (contents b) ≡ m ++ s = ap (drop 4) e' ∙ drop-send_json m s in
      let size : length (contents b) ≡ 4 + length m + length s =
        omega (arith, ap length e', length-append (send_json m) s, length-send_json m) in
      let (step, left, v') = on_message-takes deliver fuel v (omega (arith, small)) in
      let text : take (announced (contents b)) (drop 4 (contents b)) ≡ m =
        rw (len, body) (take-append_self m s) in
      let left' : contents (retrieve (retrieve b 4) (announced (contents b))) ≡ s =
        left ∙ rw (len, body) (drop-append_self m s) in
      let rest = on_message-wire ms r fuel v' left' small.1 more (omega arith) in
      rw step (record {
        all = rw (text, rest.all);
        left = rest.left;
        valid = rest.valid;
        ended = rest.ended;
      })
