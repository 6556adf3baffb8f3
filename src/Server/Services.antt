-- ===== src/Server/Services.antt =====
-- What the server uses and does not implement: Redis, the MySQL server behind `MySQLConn`, and the
-- JSON library. Each is a type of states with its operations, and what its documentation says of
-- them. A Redis key is one of the prefixes that the handlers put before an id, and the id.
use Prim.Native.String.{String}
use text.Mathlib.Text.{◌==◌}
use weee_chatroom.Common.{
  ℕ, drop, ◌≡◌, Bool, true, false, ◌&&◌, Option, none, some, List, [], ◌∷◌, ◌++◌, if◌then◌else◌,
}

pub data Key : Type 0 where
  friends : String → Key
  blacklist : String → Key
  group : String → Key
  offline_messages : String → Key
  verify_email : String → Key
  messages : Key
  group_messages : Key

-- The texts of two keys are equal: no prefix starts another key's text.
abbrev pub same_key : Key → Key → Bool
same_key (friends a) (friends b) = a == b
same_key (blacklist a) (blacklist b) = a == b
same_key (group a) (group b) = a == b
same_key (offline_messages a) (offline_messages b) = a == b
same_key (verify_email a) (verify_email b) = a == b
same_key messages messages = true
same_key group_messages group_messages = true
same_key _ _ = false

-- `contains vs v`: the value is among the values.
abbrev pub contains : List String → String → Bool
contains [] v = false
contains (w ∷ vs) v = if w == v then true else contains vs v

pub record Redis : Type 1 where
  pub State : Type 0
  -- SISMEMBER, SMEMBERS, SADD, SREM, DEL
  pub sismember : State → Key → String → Bool
  pub smembers : State → Key → List String
  pub sadd : State → Key → String → State
  pub srem : State → Key → String → State
  pub del : State → Key → State
  -- LRANGE 0 -1, LPUSH, RPUSH, RPOP (its reply and the state after it), LTRIM n -1
  pub items : State → Key → List String
  pub lpush : State → Key → String → State
  pub rpush : State → Key → String → State
  pub rpop : State → Key → Option String × State
  pub ltrim : State → Key → ℕ → State
  -- HGET, HSET and HDEL for the field "code"
  pub hget : State → Key → Option String
  pub hset : State → Key → String → State
  pub hdel : State → Key → State
  pub sismember-sadd :
      (s : State) (k : Key) (v : String) (j : Key) (w : String)
      → sismember (sadd s k v) j w ≡ (if same_key k j && (v == w) then true else sismember s j w)
  pub sismember-srem :
      (s : State) (k : Key) (v : String) (j : Key) (w : String)
      → sismember (srem s k v) j w ≡ (if same_key k j && (v == w) then false else sismember s j w)
  pub sismember-del :
      (s : State) (k j : Key) (w : String)
      → sismember (del s k) j w ≡ (if same_key k j then false else sismember s j w)
  pub contains-smembers :
      (s : State) (k : Key) (v : String) → contains (smembers s k) v ≡ sismember s k v
  pub sismember-lpush :
      (s : State) (k : Key) (v : String) (j : Key) (w : String)
      → sismember (lpush s k v) j w ≡ sismember s j w
  pub sismember-rpush :
      (s : State) (k : Key) (v : String) (j : Key) (w : String)
      → sismember (rpush s k v) j w ≡ sismember s j w
  pub items-sadd : (s : State) (k : Key) (v : String) (j : Key) → items (sadd s k v) j ≡ items s j
  pub items-srem : (s : State) (k : Key) (v : String) (j : Key) → items (srem s k v) j ≡ items s j
  pub items-lpush :
      (s : State) (k : Key) (v : String) (j : Key)
      → items (lpush s k v) j ≡ (if same_key k j then v ∷ items s j else items s j)
  pub items-rpush :
      (s : State) (k : Key) (v : String) (j : Key)
      → items (rpush s k v) j ≡ (if same_key k j then items s j ++ v ∷ [] else items s j)
  pub items-ltrim :
      (s : State) (k : Key) (n : ℕ) (j : Key)
      → items (ltrim s k n) j ≡ (if same_key k j then drop n (items s j) else items s j)
  pub hget-hset :
      (s : State) (k : Key) (v : String) (j : Key)
      → hget (hset s k v) j ≡ (if same_key k j then some v else hget s j)
  pub hget-hdel :
      (s : State) (k j : Key) → hget (hdel s k) j ≡ (if same_key k j then none else hget s j)
  pub rpop_empty :
      (s : State) (k : Key) → items s k ≡ [] → ((rpop s k).0 ≡ none) × (items (rpop s k).1 k ≡ [])
  pub rpop_last :
      (s : State) (k : Key) (vs : List String) (v : String)
      → items s k ≡ vs ++ v ∷ []
      → ((rpop s k).0 ≡ some v) × (items (rpop s k).1 k ≡ vs)

-- `std::map<std::string, std::string>`, as a list of its entries.
abbrev pub Fields : Type 0
Fields = List (String × String)

-- The tables of init.sql.
pub data Table : Type 0 where
  users friends_table groups group_members friend_requests group_requests files messages_table
        group_messages_table offline_messages_table :
      Table

-- The columns that the handlers read by `at`.
abbrev pub has_column : Table → String → Bool
has_column friends_table k = if k == "friend_id" then true else k == "user_id"
has_column users k = if k == "id" then true else k == "nickname"
has_column groups k = if k == "id" then true else k == "name"
has_column group_members k =
    if k == "user_id" then true else if k == "group_id" then true else k == "role"
has_column friend_requests k = k == "json"
has_column group_requests k = k == "json"
has_column messages_table k = k == "json"
has_column group_messages_table k = k == "json"
has_column _ k = false

-- An entry of a row.
abbrev pub at : Fields → String → Option String
at [] key = none
at ((k, v) ∷ row) key = if k == key then some v else at row key

abbrev pub all_at : List Fields → String → Bool
all_at [] key = true
all_at (row ∷ rows) key = elim (at row key) [ some v ↦ all_at rows key | none ↦ false ]

-- `MySQLConn`: `select` with its three kinds of conditions, `insert`, `insertList`, `del` and `update`, each with
-- the state after the statement. A select that fails returns no rows.
pub record Database : Type 1 where
  pub State : Type 0
  pub select : State → Table → Fields → List (String × List String) → Fields → List Fields
  pub insert : State → Table → Fields → Bool × State
  pub insert_list : State → Table → List Fields → Bool × State
  pub del : State → Table → Fields → Bool × State
  pub update : State → Table → Fields → Fields → Bool × State
  -- `mysql_insert_id`, as text
  pub insert_id : State → String
  -- `select *` gives every column of the table.
  pub select_columns :
      (s : State) (t : Table) (conditions : Fields) (in_conditions : List (String × List String))
      (or_conditions : Fields) (k : String)
      → has_column t k ≡ true
      → all_at (select s t conditions in_conditions or_conditions) k ≡ true
  -- The rows that a DELETE has removed are not found again.
  pub select-del :
      (s : State) (t : Table) (conditions : Fields)
      → (del s t conditions).0 ≡ true
      → select (del s t conditions).1 t conditions [] [] ≡ []

-- nlohmann::json: a null value, `js[key] = value` for a text, a number and a Boolean, `dump`, `parse`, and
-- the members that are texts, numbers, Booleans or arrays. A `none` is an exception.
pub record JsonLibrary : Type 1 where
  pub Json : Type 0
  pub null : Json
  pub assign : Json → String → String → Json
  pub assign_number : Json → String → ℕ → Json
  pub assign_bool : Json → String → Bool → Json
  pub dump : Json → String
  pub parse : String → Option Json
  pub get : Json → String → Option String
  pub get_number : Json → String → Option ℕ
  pub get_bool : Json → String → Option Bool
  -- the elements of a member, none for one that is missing
  pub get_list : Json → String → List Json
  pub parse-dump : (js : Json) → parse (dump js) ≡ some js

pub record Services : Type 1 where
  pub redis : Redis
  pub database : Database
  pub json : JsonLibrary
