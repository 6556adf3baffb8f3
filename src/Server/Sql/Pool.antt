-- ===== src/Server/Sql/Pool.antt =====
-- server/base/MySQLConn.cc: `MySQLConnPool`. A connection is a number; the pointer that `getConnection` gives
-- puts the connection back when it is destroyed.
use weee_chatroom.Common.{
  ℕ, ◌+◌, ◌≡◌, ap, Bool, List, [], ◌∷◌, ◌++◌, Option, none, some, if◌then◌else◌, ◌==◌, arith,
  Bool-cases,
}
use mathlib.Core.Option.{some-injective, none-ne-some}

pub record MySqlConnPool : Type 0 where
  pub pool : List ℕ

-- `init`: the connections that could be set up, of those that were made
unfoldable pub init_pool : List (ℕ × Bool) → MySqlConnPool → MySqlConnPool
init_pool [] p = p
init_pool ((conn, is_up) ∷ made) p =
    init_pool made (if is_up then record { pool = p.pool ++ conn ∷ [] } else p)

-- `getConnection`; with an empty pool it waits, which is none
unfoldable pub get_connection : MySqlConnPool → Option (ℕ × MySqlConnPool)
get_connection p = elim p.pool [ [] ↦ none | conn ∷ rest ↦ some (conn, record { pool = rest }) ]

-- What the pointer does at its end.
unfoldable pub give_back : ℕ → MySqlConnPool → MySqlConnPool
give_back conn p = record { pool = p.pool ++ conn ∷ [] }

-- How often a connection is in a list.
abbrev pub count : ℕ → List ℕ → ℕ
count conn [] = 0
count conn (x ∷ xs) = let rest = count conn xs in if x == conn then rest + 1 else rest

count-append : (conn : ℕ) (xs ys : List ℕ) → count conn (xs ++ ys) ≡ count conn xs + count conn ys
count-append conn [] ys = omega arith
count-append conn (x ∷ xs) ys = ground (arith, count-append conn xs ys, Bool-cases (x == conn))

-- The connection that is given out is the first.
first_given :
    (xs : List ℕ) (p' : MySqlConnPool) (conn : ℕ)
    → get_connection (record { pool = xs }) ≡ some (conn, p')
    → xs ≡ conn ∷ p'.pool
unfolding get_connection
first_given [] p' conn e = absurd (none-ne-some (conn, p') e)
first_given (x ∷ xs) p' conn e =
    ap (λ (r : ℕ × MySqlConnPool). r.0 ∷ r.1.pool)
      (some-injective (x, record { pool = xs }) (conn, p') e)

-- A connection that is given out is the first of the pool, and once it is back each connection is in the
-- pool as often as before.
pub get_connection-give_back :
    (p p' : MySqlConnPool) (conn other : ℕ)
    → get_connection p ≡ some (conn, p')
    → (p.pool ≡ conn ∷ p'.pool) × (count other (give_back conn p').pool ≡ count other p.pool)
unfolding give_back
get_connection-give_back p p' conn other e =
    let given = first_given p.pool p' conn e in
    let same : count other p.pool ≡ count other (conn ∷ p'.pool) = ap (count other) given in
    (
      given,
      ground (arith, same, count-append other p'.pool (conn ∷ []), Bool-cases (conn == other)),
    )
