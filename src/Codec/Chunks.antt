-- ===== src/Codec/Chunks.antt =====
-- Messages sent one after the other arrive whole and in order, wherever TCP cuts the stream. Each
-- piece goes through `readFd` and then the `onMessage` loop, as in `TcpConnection::handleRead`.
use weee_chatroom.Common.{
  ℕ, suc, ◌+◌, ◌<◌, ◌≤◌, ◌^◌, ◌≡◌, refl, sym, ap, subst, ◌∙◌, inl, inr, List, [], ◌∷◌, ◌++◌, map,
  arith, length, take, drop, take-append_left, append_split, append_assoc, length-append,
  append-nil, map-append, flatten,
}
use native.Mathlib.Decide.{dec_lt}
use weee_chatroom.Buffer.{Buffer, readable_bytes, read_fd, received, extra_size}
use weee_chatroom.Buffer.Invariant.{IsValid}
use weee_chatroom.Buffer.Contents.{contents, readable-contents}
use weee_chatroom.Buffer.Growth.{read_fd-growth}
use weee_chatroom.Codec.Safety.{bytes-on_message}
use weee_chatroom.Buffer.Reading.{read_fd-contents}
use weee_chatroom.Codec.{on_message, send_json, frame_size}
use weee_chatroom.Codec.Frames.{announced, HasNoFrame, announced-send_json, length-send_json}
use weee_chatroom.Codec.Stream.{wire, AllSmall, on_message-wire}

-- A piece of an incomplete frame is one.
HasNoFrame-prefix : (p q r : List ℕ) → p ++ q ≡ r → HasNoFrame r → HasNoFrame p
HasNoFrame-prefix p q r e more = elim (dec_lt (length p) 4) [
  | yes short ↦ inl short
  | no long ↦
      let same : take 4 r ≡ take 4 p = ap (take 4) (sym e) ∙ take-append_left 4 p q (omega arith) in
      inr
        (omega arith, bound more same (omega arith) (omega (arith, length-append p q, ap length e)))
]
  where
    bound :
        HasNoFrame r
        → take 4 r ≡ take 4 p
        → 4 ≤ length p
        → length p ≤ length r
        → length p < frame_size (announced p)
    bound (inl short) same long size = absurd (omega arith)
    bound (inr more) same long size = rw (← same) (omega arith)

-- Less than a whole frame of a message is an incomplete frame.
HasNoFrame-cut :
    (m s p q : List ℕ)
    → p ++ q ≡ send_json m ++ s
    → length m + 4 < 2 ^ 31
    → length p < length (send_json m)
    → HasNoFrame p
HasNoFrame-cut m s p q e small short = elim (dec_lt (length p) 4) [
  | yes tiny ↦ inl tiny
  | no long ↦
      let same : take 4 p ≡ take 4 (send_json m ++ s) =
        sym (take-append_left 4 p q (omega arith)) ∙ ap (take 4) e in
      let len : announced p ≡ length m =
        announced_path same ∙ announced-send_json m s (omega arith) in
      inr (omega arith, rw len (ground (arith, length-send_json m)))
]
  where
    announced_path :
        take 4 p ≡ take 4 (send_json m ++ s) → announced p ≡ announced (send_json m ++ s)
    announced_path same = rw same

-- A stream of frames, cut in two: the first piece holds whole frames and an incomplete one, which
-- the second piece completes.
record Cut (p q : List ℕ) (ms : List (List ℕ)) (r : List ℕ) : Type 0 where
  before : List (List ℕ)
  after : List (List ℕ)
  middle : List ℕ
  first : p ≡ wire before ++ middle
  second : middle ++ q ≡ wire after ++ r
  whole : before ++ after ≡ ms
  incomplete : HasNoFrame middle
  small_before : AllSmall before
  small_after : AllSmall after

cut :
    (ms : List (List ℕ)) (r p q : List ℕ)
    → p ++ q ≡ wire ms ++ r
    → AllSmall ms
    → HasNoFrame r
    → Cut p q ms r
cut [] r p q e small more = record {
  before = [];
  after = [];
  middle = p;
  first = refl;
  second = e;
  whole = refl;
  incomplete = HasNoFrame-prefix p q r e more;
  small_before = tt;
  small_after = tt;
}
cut (m ∷ ms) r p q e small more = elim (dec_lt (length p) (length (send_json m))) [
  | yes short ↦ record {
    before = [];
    after = m ∷ ms;
    middle = p;
    first = refl;
    second = e;
    whole = refl;
    incomplete = HasNoFrame-cut m (wire ms ++ r) p q e' small.0 short;
    small_before = tt;
    small_after = small;
  }
  | no long ↦
      let (start, tail) = append_split (send_json m) (wire ms ++ r) p q e' (omega arith) in
      let rest = cut ms r (drop (length (send_json m)) p) q tail small.1 more in
      record {
        before = m ∷ rest.before;
        after = rest.after;
        middle = rest.middle;
        first =
            start
            ∙ ap (◌++◌ (send_json m)) rest.first
            ∙ sym (append_assoc (send_json m) (wire rest.before) rest.middle);
        second = rest.second;
        whole = ap (◌∷◌ m) rest.whole;
        incomplete = rest.incomplete;
        small_before = (small.0, rest.small_before);
        small_after = rest.small_after;
      }
]
  where
    e' : p ++ q ≡ send_json m ++ (wire ms ++ r)
    e' = e ∙ append_assoc (send_json m) (wire ms) r

pub length-wire : (ms : List (List ℕ)) → length ms ≤ length (wire ms)
length-wire [] = omega arith
length-wire (m ∷ ms) =
    omega (arith, length-append (send_json m) (wire ms), length-send_json m, length-wire ms)

-- A whole frame is not an incomplete one.
frame_complete : (m s : List ℕ) → length m + 4 < 2 ^ 31 → HasNoFrame (send_json m ++ s) → ⊥
frame_complete m s small more =
    let size : length (send_json m ++ s) ≡ 4 + length m + length s =
      omega (arith, length-append (send_json m) s, length-send_json m) in
    ground (arith, announced-send_json m s)

module _ {E : Type 0} (deliver : List ℕ → E) where
  -- The pieces come in one after the other. The fuel is the number of readable bytes and one.
  pub receive : List (List ℕ) → Buffer → List E × Buffer
  receive [] b = ([], b)
  receive (piece ∷ pieces) b =
      let filled = read_fd b (received piece) in
      let d = on_message deliver (suc (readable_bytes filled)) filled in
      let later = receive pieces d.rest in (d.events ++ later.0, later.1)

  -- No piece is larger than what `readv` may deliver at once.
  abbrev pub AllFit : List (List ℕ) → Type 0
  AllFit [] = Unit {0}
  AllFit (piece ∷ pieces) = (length piece ≤ extra_size) × AllFit pieces

  -- Messages of any number arrive once each, in order, whatever pieces their frames come in, and
  -- what is left is the incomplete frame at the end. The buffer starts without a whole frame, and
  -- the vector stays below its largest size.
  pub receive-wire :
      (pieces ms : List (List ℕ)) (r : List ℕ) {b : Buffer}
      → IsValid b
      → HasNoFrame (contents b)
      → contents b ++ flatten pieces ≡ wire ms ++ r
      → AllSmall ms
      → HasNoFrame r
      → AllFit pieces
      → length b.bytes + length (flatten pieces) + extra_size < 2 ^ 63
      → let (events, b') = receive pieces b in
        (events ≡ map deliver ms) × (contents b' ≡ r) × IsValid b'
  unfolding receive
  receive-wire [] [] r {b} v start e small more fit room =
      (refl, sym (append-nil (contents b)) ∙ e, v)
  receive-wire [] (m ∷ ms) r {b} v start e small more fit room = absurd (
      frame_complete m (wire ms ++ r) small.0 (
        subst HasNoFrame
          (sym (append-nil (contents b)) ∙ e ∙ append_assoc (send_json m) (wire ms) r) start))
  receive-wire (piece ∷ pieces) ms r {b} v start e small more fit room =
      let filled = read_fd b (received piece) in
      let (filled_with, valid) =
        read_fd-contents (received piece) v (omega (arith, fit))
          (omega (arith, length-append piece (flatten pieces))) in
      let c =
        cut ms r (contents filled) (flatten pieces)
          (ap (λ s. s ++ flatten pieces) filled_with
            ∙ append_assoc (contents b) piece (flatten pieces)
            ∙ e)
          small more in
      let d =
        on_message-wire deliver c.before c.middle (suc (readable_bytes filled)) valid c.first
          c.small_before c.incomplete
          (omega (
            arith,
            readable-contents valid,
            ap length c.first,
            length-append (wire c.before) c.middle,
            length-wire c.before,
          )) in
      let later =
        receive-wire pieces c.after r d.valid (subst HasNoFrame (sym d.left) c.incomplete)
          (ap (λ s. s ++ flatten pieces) d.left ∙ c.second) c.small_after more fit.1
          (omega (
            arith,
            length-append piece (flatten pieces),
            read_fd-growth piece v (omega (arith, fit))
                (omega (arith, length-append piece (flatten pieces))),
            ap length (bytes-on_message deliver (suc (readable_bytes filled)) filled),
          )) in
      (rw (d.all, later.0, ← map-append) (ap (map deliver) c.whole), later.1, later.2)
