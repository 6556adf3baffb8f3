-- ===== src/Server/Sql/Tests.antt =====
-- The texts of statements, with an escape that puts a backslash before quotes and backslashes.
use Prim.Native.String.{String, [], ◌∷◌, ◌++◌}
use Prim.Native.Char.{Char, code}
use text.Mathlib.TextLemmas.{nil-append, cons-append}
use weee_chatroom.Common.{
  ◌∙◌, ℕ, ◌≡◌, refl, ◌⊎◌, inl, inr, List, Option, none, some, ◌==◌, ◌||◌, if◌then◌else◌, Bool-cases,
  Bool, true, false, ap, arith,
}
use weee_chatroom.Common as Lists
use weee_chatroom.Server.Services.{Fields}
use weee_chatroom.Server.Sql.Columns.{is_plain}
use weee_chatroom.Server.Sql.{join, equal_clause, where_loop, where_clauses, select_sql}
use weee_chatroom.Server.Sql.Values.{IsRead, all_plain, same_conditions}

abbrev slash : Char
slash = "\\"

abbrev tick : Char
tick = "'"

abbrev needs_escape : Char → Bool
needs_escape c = (code c == 39) || (code c == 92)

abbrev escape : String → String
escape [] = []
escape (c ∷ s) = let rest = escape s in if needs_escape c then slash ∷ c ∷ rest else c ∷ rest

abbrev with_char : Char → Option (String × String) → Option (String × String)
with_char c (some (v, rest)) = some (c ∷ v, rest)
with_char c none = none

-- Up to a quote; a backslash is left out and the character behind it is taken as it is.
abbrev read_from : Bool → String → Option (String × String)
read_from escaped [] = none
read_from true (c ∷ s) = with_char c (read_from false s)
read_from false (c ∷ s) =
    let skipped = read_from true s in
    let kept = with_char c (read_from false s) in
    if code c == 39 then some ([], s) else if code c == 92 then skipped else kept

quote_append : (rest : String) → "'" ++ rest ≡ tick ∷ rest
quote_append rest = cons-append tick [] rest ∙ ap (λ t. tick ∷ t) (nil-append rest)

escape-IsRead : IsRead escape (read_from false)
unfolding IsRead
escape-IsRead [] rest = rw (nil-append ("'" ++ rest), quote_append rest) refl
escape-IsRead (c ∷ s) rest = elim (Bool-cases (code c == 39)) [
  | inl quote ↦
      rw
        (
          quote,
          cons-append slash (c ∷ escape s) ("'" ++ rest),
          cons-append c (escape s) ("'" ++ rest),
          escape-IsRead s rest,
        )
        refl
  | inr other ↦ elim (Bool-cases (code c == 92)) [
    | inl backslash ↦
        rw
          (
            other,
            backslash,
            cons-append slash (c ∷ escape s) ("'" ++ rest),
            cons-append c (escape s) ("'" ++ rest),
            escape-IsRead s rest,
          )
          refl
    | inr plain ↦
        rw
          (other, plain, cons-append c (escape s) ("'" ++ rest), other, plain, escape-IsRead s rest)
          refl
  ]
]

-- A value with a quote in a statement.
quotes :
    select_sql escape "users"
      (Lists.◌∷◌ ("email", "a' or 'b") (Lists.◌∷◌ ("state", "alive") Lists.[]))
      Lists.[]
      Lists.[]
    ≡ "select * from users where email = 'a\\' or \\'b' and state = 'alive'"
unfolding select_sql where_clauses where_loop equal_clause join
quotes = refl

abbrev conditions : Fields
conditions = Lists.◌∷◌ ("email", "a' or 'b") (Lists.◌∷◌ ("state", "alive") Lists.[])

same_conditions_example : conditions ≡ conditions
unfolding all_plain is_plain
same_conditions_example =
    same_conditions escape (read_from false) "users" conditions conditions escape-IsRead refl refl
      (inl refl)
