-- ===== src/Client/Utf8.antt =====
-- client/ui.cc: `fixInvalidUtf8`, on bytes. The masks are written as quotients of a byte; `s` is the
-- input from `i` on, which gets shorter at each turn, so that its length is enough fuel.
use weee_chatroom.Common.{
  ℕ, zero, suc, ◌/◌, ◌≤◌, ◌≡◌, refl, sym, ap, ◌∙◌, inl, inr, Bool, true, false, List, [], ◌∷◌, ◌++◌,
  length, take, drop, leb, ltb, ◌==◌, if◌then◌else◌, arith, Bool-cases, ℕ-cases, length-append,
  length-take, length-drop, take-append_self, drop-append_self, ltb_false→le, le→ltb_false,
}

-- The length of a character by its first byte, or 0 for a byte that starts none.
unfoldable pub lead_length : ℕ → ℕ
lead_length c =
    if leb c 127
    then 1
    else if (c / 32) == 6
    then 2
    else if (c / 16) == 14
    then 3
    else if (c / 8) == 30
    then 4
    else 0

-- The loop over the bytes behind the first.
unfoldable pub all_continue : List ℕ → Bool
all_continue [] = true
all_continue (c ∷ s) = if (c / 64) == 2 then all_continue s else false

-- What is kept of a character.
unfoldable pub keep : List ℕ → List ℕ
keep s = if all_continue (drop 1 s) then s else []

unfoldable pub fix_from : ℕ → List ℕ → List ℕ
fix_from zero s = []
fix_from (suc fuel) [] = []
fix_from (suc fuel) (c ∷ s) = elim (lead_length c) [
  | zero ↦ fix_from fuel s
  | suc n ↦ if ltb (length s) n then [] else keep (c ∷ take n s) ++ fix_from fuel (drop n s)
]

unfoldable pub fix_invalid_utf8 : List ℕ → List ℕ
fix_invalid_utf8 s = fix_from (length s) s

-- Whole characters: a first byte, and as many bytes of the form 10xxxxxx as it asks for.
pub data IsUtf8 : List ℕ → Type 0 where
  ended : IsUtf8 []
  and_char :
      (c : ℕ) (t s : List ℕ)
      → lead_length c ≡ suc (length t)
      → all_continue t ≡ true
      → IsUtf8 s
      → IsUtf8 (c ∷ t ++ s)

keep-IsUtf8 :
    (c n : ℕ) (t s : List ℕ)
    → lead_length c ≡ suc n
    → length t ≡ n
    → IsUtf8 s
    → IsUtf8 (keep (c ∷ t) ++ s)
unfolding keep
keep-IsUtf8 c n t s lead long r = elim (Bool-cases (all_continue t)) [
  | inl all ↦ rw all (and_char c t s (lead ∙ ap suc (sym long)) all r)
  | inr broken ↦ rw broken r
]

fix_from-IsUtf8 : (fuel : ℕ) (s : List ℕ) → IsUtf8 (fix_from fuel s)
unfolding fix_from
fix_from-IsUtf8 zero s = ended
fix_from-IsUtf8 (suc fuel) [] = ended
fix_from-IsUtf8 (suc fuel) (c ∷ s) = elim (ℕ-cases (lead_length c)) [
  | inl bad ↦ rw (fix_from, bad) (fix_from-IsUtf8 fuel s)
  | inr (n, lead) ↦ elim (Bool-cases (ltb (length s) n)) [
    | inl short ↦ rw (fix_from, lead, short) ended
    | inr enough ↦
        rw (fix_from, lead, enough)
          (keep-IsUtf8 c n (take n s) (fix_from fuel (drop n s)) lead
            (grind (arith, length-take n s, ltb_false→le (length s) n enough))
            (fix_from-IsUtf8 fuel (drop n s)))
  ]
]

fix_from-same : (fuel : ℕ) (s : List ℕ) → IsUtf8 s → length s ≤ fuel → fix_from fuel s ≡ s
unfolding fix_from keep
fix_from-same zero [] ended h = refl
fix_from-same (suc fuel) [] ended h = refl
fix_from-same zero s (and_char c t rest lead all r) h = absurd (omega arith)
fix_from-same (suc fuel) s (and_char c t rest lead all r) h =
    let enough : ltb (length (t ++ rest)) (length t) ≡ false =
      le→ltb_false (length (t ++ rest)) (length t) (omega (arith, length-append t rest)) in
    rw (
      fix_from,
      lead,
      enough,
      take-append_self t rest,
      drop-append_self t rest,
      all,
      fix_from-same fuel rest r (omega (arith, length-append t rest)),
    )

length-keep : (s : List ℕ) → length (keep s) ≤ length s
unfolding keep
length-keep s = ground (arith, Bool-cases (all_continue (drop 1 s)))

length-fix_from : (fuel : ℕ) (s : List ℕ) → length (fix_from fuel s) ≤ length s
unfolding fix_from keep
length-fix_from zero s = omega arith
length-fix_from (suc fuel) [] = omega arith
length-fix_from (suc fuel) (c ∷ s) = elim (ℕ-cases (lead_length c)) [
  | inl bad ↦ rw (fix_from, bad) (omega (arith, length-fix_from fuel s))
  | inr (n, lead) ↦ elim (Bool-cases (ltb (length s) n)) [
    | inl short ↦ rw (fix_from, lead, short) (omega arith)
    | inr enough ↦
        rw (fix_from, lead, enough)
          (omega (
            arith,
            length-append (keep (c ∷ take n s)) (fix_from fuel (drop n s)),
            length-keep (c ∷ take n s),
            length-fix_from fuel (drop n s),
            length-take n s,
            length-drop n s,
            ltb_false→le (length s) n enough,
          ))
  ]
]

-- `fixInvalidUtf8` gives whole characters, each a first byte and the bytes of the form 10xxxxxx that
-- it asks for, never more bytes than the input has, and a second run changes nothing.
pub fix_invalid_utf8_lem :
    (s : List ℕ)
    → IsUtf8 (fix_invalid_utf8 s)
      × (length (fix_invalid_utf8 s) ≤ length s)
      × (fix_invalid_utf8 (fix_invalid_utf8 s) ≡ fix_invalid_utf8 s)
unfolding fix_invalid_utf8
fix_invalid_utf8_lem s =
    let fixed = fix_from-IsUtf8 (length s) s in
    (
      fixed,
      length-fix_from (length s) s,
      fix_from-same (length (fix_from (length s) s)) (fix_from (length s) s) fixed (omega arith),
    )
