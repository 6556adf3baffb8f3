-- ===== src/Server/Sql/Columns.antt =====
-- The name of a column in a condition ends at its first space.
use Prim.Native.String.{String, [], ◌∷◌, ◌++◌}
use Prim.Native.Char.{Char, code}
use text.Mathlib.TextLemmas.{
  nil-append, cons-append, append_cancel_left, head-eq_of_cons-eq, tail-eq_of_cons-eq,
}
use weee_chatroom.Common.{
  ◌≡◌, refl, sym, ap, ap₂, ◌∙◌, Bool, true, false, ◌==◌, if◌then◌else◌, arith,
}

abbrev space : Char
space = " "

-- A name without a space.
unfoldable pub is_plain : String → Bool
is_plain [] = true
is_plain (c ∷ s) = let rest = is_plain s in if code c == 32 then false else rest

opened : (u : String) → " = '" ++ u ≡ space ∷ ("= '" ++ u)
opened u = cons-append space "= '" u

plain_tail : (c : Char) (s : String) → is_plain (c ∷ s) ≡ true → is_plain s ≡ true
unfolding is_plain
plain_tail c s h = ground (arith, h)

plain_head : (c : Char) (s : String) → space ≡ c → is_plain (c ∷ s) ≡ false
unfolding is_plain
plain_head c s e = ap (λ d. is_plain (d ∷ s)) (sym e)

-- A longer name cannot go on where a plain one has ended.
no_longer :
    (d : Char) (t u v : String)
    → is_plain (d ∷ t) ≡ true
    → [] ++ (" = '" ++ u) ≡ (d ∷ t) ++ (" = '" ++ v)
    → is_plain (d ∷ t) ≡ false
no_longer d t u v q e = plain_head d t (
    head-eq_of_cons-eq
      (sym (opened u) ∙ sym (nil-append (" = '" ++ u)) ∙ e ∙ cons-append d t (" = '" ++ v)))

pub plain_prefix :
    (s t u v : String)
    → is_plain s ≡ true
    → is_plain t ≡ true
    → s ++ (" = '" ++ u) ≡ t ++ (" = '" ++ v)
    → (s ≡ t) × (u ≡ v)
plain_prefix [] [] u v p q e = (
  refl,
  append_cancel_left " = '" u v (sym (nil-append (" = '" ++ u)) ∙ e ∙ nil-append (" = '" ++ v)),
)
plain_prefix [] (d ∷ t) u v p q e = let no = no_longer d t u v q e in absurd (ground (arith, q, no))
plain_prefix (c ∷ s) [] u v p q e =
    let no = no_longer c s v u p (sym e) in absurd (ground (arith, p, no))
plain_prefix (c ∷ s) (d ∷ t) u v p q e =
    let whole = sym (cons-append c s (" = '" ++ u)) ∙ e ∙ cons-append d t (" = '" ++ v) in
    let (same, rest) =
      plain_prefix s t u v (plain_tail c s p) (plain_tail d t q) (tail-eq_of_cons-eq whole) in
    (ap₂ (◌∷◌) (head-eq_of_cons-eq whole) same, rest)
