-- ===== src/Server/Sql.antt =====
-- server/base/MySQLConn.cc: the text of the statements. `escape_str` is `escapeStr`, which calls
-- mysql_real_escape_string; a table is its name. An entry of a map is a column and a value.
pub mod Columns
pub mod Values
pub mod Pool
mod Tests
use Prim.Native.String.{String, ◌++◌}
use text.Mathlib.Text.{◌==◌}
use weee_chatroom.Common.{
  ℕ, Bool, true, false, List, [], ◌∷◌, map, Option, none, some, if◌then◌else◌, ◌++◌ as append,
}
use weee_chatroom.Server.Services.{Fields, at}

-- `join`
unfoldable pub join : List String → String → String
join [] delimiter = ""
join (s ∷ []) delimiter = s
join (s ∷ t ∷ vec) delimiter = s ++ (delimiter ++ join (t ∷ vec) delimiter)

module _ (escape_str : String → String) where
  -- `"'" + escapeStr(value) + "'"`
  unfoldable pub quoted : String → String
  quoted value = "'" ++ (escape_str value ++ "'")

  -- `column = 'value'`
  unfoldable pub equal_clause : String × String → String
  equal_clause (column, value) = column ++ (" = '" ++ (escape_str value ++ "'"))

  -- The loop over the conditions in `select` and `update`.
  unfoldable pub where_loop : Fields → String
  where_loop [] = ""
  where_loop (c ∷ []) = equal_clause c
  where_loop (c ∷ d ∷ conditions) = equal_clause c ++ (" and " ++ where_loop (d ∷ conditions))

  -- `insert`
  unfoldable pub insert_sql : String → Fields → String
  insert_sql table row =
      "insert into "
      ++ (table
          ++ (" ("
              ++ (join (map (λ p. p.0) row) ","
                  ++ (") values (" ++ (join (map (λ p. quoted p.1) row) "," ++ ")")))))

  -- The values of a row for the columns of the first one; a column that is missing is empty.
  unfoldable pub row_values : List String → Fields → List String
  row_values columns row =
      map
        (λ column.
          "'" ++ ((elim (at row column) [ some value ↦ escape_str value | none ↦ "" ]) ++ "'"))
        columns

  unfoldable pub rows_loop : List String → List Fields → String
  rows_loop columns [] = ""
  rows_loop columns (row ∷ []) = "(" ++ (join (row_values columns row) "," ++ ")")
  rows_loop columns (row ∷ next ∷ rows) =
      "(" ++ (join (row_values columns row) "," ++ (")," ++ rows_loop columns (next ∷ rows)))

  -- `insertList`, which makes no statement for no rows
  unfoldable pub insert_list_sql : String → List Fields → Option String
  insert_list_sql table [] = none
  insert_list_sql table (row ∷ rows) =
      let columns = map (λ (p : String × String). p.0) row in
      some (
        "INSERT INTO "
        ++ (table
            ++ (" (" ++ (join columns "," ++ (") VALUES " ++ rows_loop columns (row ∷ rows))))))

  -- `del`
  unfoldable pub del_sql : String → Fields → String
  del_sql table conditions =
      "delete from " ++ (table ++ (" where " ++ join (map equal_clause conditions) " and "))

  -- `update`
  unfoldable pub update_sql : String → Fields → Fields → String
  update_sql table updates conditions =
      "update "
      ++ (table
          ++ (" set "
              ++ (join (map equal_clause updates) ", " ++ (elim conditions [
                | [] ↦ ""
                | c ∷ rest ↦ " where " ++ join (where_loop (c ∷ rest) ∷ []) " and "
              ]))))

  -- `column in ('value','value')`
  unfoldable pub in_clause : String × List String → String
  in_clause (column, values) = column ++ (" in (" ++ (join (map quoted values) "," ++ ")"))

  unfoldable pub where_clauses : Fields → List (String × List String) → Fields → List String
  where_clauses conditions in_conditions or_conditions =
      append
        (append (elim conditions [ [] ↦ [] | c ∷ rest ↦ where_loop (c ∷ rest) ∷ [] ])
          (map in_clause in_conditions))
        (elim or_conditions [
          | [] ↦ []
          | c ∷ rest ↦ ("(" ++ (join (map equal_clause (c ∷ rest)) " or " ++ ")")) ∷ []
        ])

  -- `select`
  unfoldable pub select_sql : String → Fields → List (String × List String) → Fields → String
  select_sql table conditions in_conditions or_conditions =
      "select * from "
      ++ (table ++ (elim (where_clauses conditions in_conditions or_conditions) [
        | [] ↦ ""
        | c ∷ rest ↦
            " where " ++ join (where_clauses conditions in_conditions or_conditions) " and "
      ]))
