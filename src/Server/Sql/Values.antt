-- ===== src/Server/Sql/Values.antt =====
-- The text of a list of conditions determines the list: no value makes the text of other conditions.
use Prim.Native.String.{String, ◌++◌}
use text.Mathlib.TextLemmas.{
  append_assoc, append_cancel_left, append-nil, cons-append, cons≢nil,
  append-ne-nil_of_right_ne-nil,
}
use weee_chatroom.Server.Sql.Columns.{is_plain, plain_prefix}
use mathlib.Core.Option.{some-injective}
use weee_chatroom.Common.{
  ◌≡◌, refl, sym, ap, ap₂, ◌∙◌, ◌⊎◌, inl, inr, Bool, true, ◌&&◌, [], ◌∷◌, map, Option, some, arith,
}
use weee_chatroom.Server.Services.{Fields}
use weee_chatroom.Server.Sql.{join, equal_clause, where_loop, del_sql, select_sql, where_clauses}

-- No column's name has a space.
unfoldable pub all_plain : Fields → Bool
all_plain [] = true
all_plain ((column, value) ∷ conditions) = is_plain column && all_plain conditions

module _ (escape_str : String → String) where
  -- `select` and `update` write the conditions in a loop, and `del` joins them.
  where_loop_lem :
      (conditions : Fields)
      → where_loop escape_str conditions ≡ join (map (equal_clause escape_str) conditions) " and "
  unfolding where_loop join
  where_loop_lem [] = refl
  where_loop_lem (c ∷ []) = refl
  where_loop_lem (c ∷ d ∷ conditions) =
      ap (λ t. equal_clause escape_str c ++ (" and " ++ t)) (where_loop_lem (d ∷ conditions))

  -- The value of a literal up to its closing quote, and the text behind it, as the server reads it:
  -- what mysql_real_escape_string gives may stand between quotes in a statement.
  unfoldable pub IsRead : (String → Option (String × String)) → Type 0
  IsRead read =
      (value rest : String) → read (escape_str value ++ ("'" ++ rest)) ≡ some (value, rest)

  clause-append :
      (column value tail : String)
      → equal_clause escape_str (column, value) ++ tail
        ≡ column ++ (" = '" ++ (escape_str value ++ ("'" ++ tail)))
  unfolding equal_clause
  clause-append column value tail =
      append_assoc column (" = '" ++ (escape_str value ++ "'")) tail
      ∙ ap (◌++◌ column) (append_assoc " = '" (escape_str value ++ "'") tail)
      ∙ ap (λ t. column ++ (" = '" ++ t)) (append_assoc (escape_str value) "'" tail)

  same_clause :
      (read : String → Option (String × String)) (column other v w t u : String)
      → IsRead read
      → is_plain column ≡ true
      → is_plain other ≡ true
      → equal_clause escape_str (column, v) ++ t ≡ equal_clause escape_str (other, w) ++ u
      → (column ≡ other) × (v ≡ w) × (t ≡ u)
  unfolding IsRead
  same_clause read column other v w t u law p q e =
      let (same, inner) =
        plain_prefix column other (escape_str v ++ ("'" ++ t)) (escape_str w ++ ("'" ++ u)) p q
          (sym (clause-append column v t) ∙ e ∙ clause-append other w u) in
      let both = some-injective (v, t) (w, u) (sym (law v t) ∙ ap read inner ∙ law w u) in
      (same, ap (λ b. b.0) both, ap (λ b. b.1) both)

  -- The conditions behind another one.
  rest_text : Fields → String
  rest_text [] = ""
  rest_text (c ∷ conditions) =
      " and " ++ join (map (equal_clause escape_str) (c ∷ conditions)) " and "

  join-cons :
      (c : String × String) (conditions : Fields)
      → join (map (equal_clause escape_str) (c ∷ conditions)) " and "
        ≡ equal_clause escape_str c ++ rest_text conditions
  unfolding join rest_text
  join-cons c [] = sym (append-nil (equal_clause escape_str c))
  join-cons c (d ∷ conditions) = refl

  plain_here :
      (column value : String) (conditions : Fields)
      → all_plain ((column, value) ∷ conditions) ≡ true
      → (is_plain column ≡ true) × (all_plain conditions ≡ true)
  unfolding all_plain
  plain_here column value conditions h = (ground (arith, h), ground (arith, h))

  something : (text : String) → " and " ++ text ≡ "" → ⊥
  something text e = cons≢nil (sym (cons-append " " "and " text) ∙ e)

  same_rest :
      (read : String → Option (String × String)) (cs ds : Fields)
      → IsRead read
      → all_plain cs ≡ true
      → all_plain ds ≡ true
      → rest_text cs ≡ rest_text ds
      → cs ≡ ds
  unfolding rest_text
  same_rest read [] [] law p q e = refl
  same_rest read [] (d ∷ ds) law p q e =
      absurd (something (join (map (equal_clause escape_str) (d ∷ ds)) " and ") (sym e))
  same_rest read (c ∷ cs) [] law p q e =
      absurd (something (join (map (equal_clause escape_str) (c ∷ cs)) " and ") e)
  same_rest read ((column, v) ∷ cs) ((other, w) ∷ ds) law p q e =
      let (p₁, p₂) = plain_here column v cs p in
      let (q₁, q₂) = plain_here other w ds q in
      let text =
        append_cancel_left " and " (join (map (equal_clause escape_str) ((column, v) ∷ cs)) " and ")
          (join (map (equal_clause escape_str) ((other, w) ∷ ds)) " and ") e in
      let (same, value, rest) =
        same_clause read column other v w (rest_text cs) (rest_text ds) law p₁ q₁
          (sym (join-cons (column, v) cs) ∙ text ∙ join-cons (other, w) ds) in
      ap₂ (λ (c : String × String) l. c ∷ l) (ap₂ (λ x y. (x, y)) same value)
        (same_rest read cs ds law p₂ q₂ rest)

  -- Where there is a condition there is a text.
  clause_there :
      (c : String × String) (conditions : Fields)
      → join (map (equal_clause escape_str) (c ∷ conditions)) " and " ≡ ""
      → ⊥
  clause_there (column, value) conditions e =
      append-ne-nil_of_right_ne-nil column
        (λ f.
          cons≢nil
            (sym (cons-append " " "= '" (escape_str value ++ ("'" ++ rest_text conditions))) ∙ f))
        (sym (clause-append column value (rest_text conditions))
          ∙ sym (join-cons (column, value) conditions)
          ∙ e)

  same_join :
      (read : String → Option (String × String)) (cs ds : Fields)
      → IsRead read
      → all_plain cs ≡ true
      → all_plain ds ≡ true
      → join (map (equal_clause escape_str) cs) " and "
        ≡ join (map (equal_clause escape_str) ds) " and "
      → cs ≡ ds
  unfolding rest_text join
  same_join read [] [] law p q e = refl
  same_join read [] (d ∷ ds) law p q e = absurd (clause_there d ds (sym e))
  same_join read (c ∷ cs) [] law p q e = absurd (clause_there c cs e)
  same_join read (c ∷ cs) (d ∷ ds) law p q e =
      same_rest read (c ∷ cs) (d ∷ ds) law p q (ap (◌++◌ " and ") e)

  del_sql-Injective :
      (read : String → Option (String × String)) (table : String) (cs ds : Fields)
      → IsRead read
      → all_plain cs ≡ true
      → all_plain ds ≡ true
      → del_sql escape_str table cs ≡ del_sql escape_str table ds
      → cs ≡ ds
  unfolding del_sql
  del_sql-Injective read table cs ds law p q e =
      let left = join (map (equal_clause escape_str) cs) " and " in
      let right = join (map (equal_clause escape_str) ds) " and " in
      same_join read cs ds law p q (
        append_cancel_left " where " left right (
          append_cancel_left table (" where " ++ left) (" where " ++ right) (
            append_cancel_left "delete from " (table ++ (" where " ++ left))
              (table ++ (" where " ++ right)) e)))

  -- What `select` writes behind the table.
  where_text : Fields → String
  where_text [] = ""
  where_text (c ∷ cs) = " where " ++ where_loop escape_str (c ∷ cs)

  select_sql-where :
      (table : String) (cs : Fields)
      → select_sql escape_str table cs [] [] ≡ "select * from " ++ (table ++ where_text cs)
  unfolding select_sql where_clauses join where_text
  select_sql-where table [] = refl
  select_sql-where table (c ∷ cs) = refl

  same_where :
      (read : String → Option (String × String)) (cs ds : Fields)
      → IsRead read
      → all_plain cs ≡ true
      → all_plain ds ≡ true
      → where_text cs ≡ where_text ds
      → cs ≡ ds
  unfolding where_text
  same_where read [] [] law p q e = refl
  same_where read [] (d ∷ ds) law p q e =
      absurd (cons≢nil (sym (cons-append " " "where " (where_loop escape_str (d ∷ ds))) ∙ sym e))
  same_where read (c ∷ cs) [] law p q e =
      absurd (cons≢nil (sym (cons-append " " "where " (where_loop escape_str (c ∷ cs))) ∙ e))
  same_where read (c ∷ cs) (d ∷ ds) law p q e =
      let left = where_loop escape_str (c ∷ cs) in
      let right = where_loop escape_str (d ∷ ds) in
      same_join read (c ∷ cs) (d ∷ ds) law p q (
        sym (where_loop_lem (c ∷ cs))
        ∙ append_cancel_left " where " left right e
        ∙ where_loop_lem (d ∷ ds))

  select_sql-Injective :
      (read : String → Option (String × String)) (table : String) (cs ds : Fields)
      → IsRead read
      → all_plain cs ≡ true
      → all_plain ds ≡ true
      → select_sql escape_str table cs [] [] ≡ select_sql escape_str table ds [] []
      → cs ≡ ds
  select_sql-Injective read table cs ds law p q e =
      let whole = sym (select_sql-where table cs) ∙ e ∙ select_sql-where table ds in
      same_where read cs ds law p q (
        append_cancel_left table (where_text cs) (where_text ds) (
          append_cancel_left "select * from " (table ++ where_text cs) (table ++ where_text ds)
            whole))

  -- Where the server reads a value back from what escapeStr makes of it and a quote, two lists of
  -- conditions, on columns whose names have no space, that give one DELETE, or one SELECT without
  -- other conditions, on a table are the same list: in their number, their columns and their values.
  pub same_conditions :
      (read : String → Option (String × String)) (table : String) (conditions others : Fields)
      → IsRead read
      → all_plain conditions ≡ true
      → all_plain others ≡ true
      → (del_sql escape_str table conditions ≡ del_sql escape_str table others)
        ⊎ (select_sql escape_str table conditions [] [] ≡ select_sql escape_str table others [] [])
      → conditions ≡ others
  same_conditions read table cs ds law p q (inl e) = del_sql-Injective read table cs ds law p q e
  same_conditions read table cs ds law p q (inr e) = select_sql-Injective read table cs ds law p q e
