-- ===== src/Server/Local.antt =====
-- Services that can be run: a Redis whose sets and lists are functions of the key, a database with one
-- user until something is deleted, and JSON values that are texts.
use Prim.Native.String.{String}
use Prim.Native.String as Text
use text.Mathlib.Text.{◌==◌}
use text.Mathlib.TextPositions.{eq_refl}
use text.Mathlib.TextEquality.{eq_iff}
use weee_chatroom.Common.{
  ◌≡◌, refl, ap, Bool, true, false, ◌&&◌, List, [], ◌∷◌, ◌++◌, Option, none, some, drop,
  if◌then◌else◌, arith, Bool-cases, inl, inr, ◌⊎◌,
}
use weee_chatroom.Server.Services.{
  Services, Redis, Database, JsonLibrary, Key, same_key, friends, blacklist, group,
  offline_messages, verify_email, messages, group_messages, contains, at, all_at, has_column, Table,
  users, group_members, messages_table, friend_requests, friends_table, Fields,
}

pub record Store : Type 0 where
  pub sets : Key → List String
  pub queues : Key → List String
  pub codes : Key → Option String

abbrev without : String → List String → List String
without v [] = []
without v (w ∷ ws) = let rest = without v ws in if v == w then rest else w ∷ rest

abbrev rpop_list : List String → Option String × List String
rpop_list [] = (none, [])
rpop_list (v ∷ []) = (some v, [])
rpop_list (v ∷ w ∷ ws) = let (last, rest) = rpop_list (w ∷ ws) in (last, v ∷ rest)

contains-without :
    (v : String) (ws : List String) (w : String)
    → contains (without v ws) w ≡ (if v == w then false else contains ws w)
contains-without v [] w = ground (arith, Bool-cases (v == w))
contains-without v (u ∷ ws) w = elim (Bool-cases (v == u)) [
  | inl same ↦
      let e = (eq_iff v u).0 same in
      ground (arith, same, ap (λ x. x == w) e, contains-without v ws w, Bool-cases (v == w))
  | inr differ ↦ elim (Bool-cases (u == w)) [
    | inl found ↦ let e = (eq_iff u w).0 found in ground (arith, differ, found, ap (λ x. v == x) e)
    | inr other ↦ ground (arith, differ, other, contains-without v ws w)
  ]
]

rpop_list_last : (vs : List String) (v : String) → rpop_list (vs ++ v ∷ []) ≡ (some v, vs)
rpop_list_last [] v = refl
rpop_list_last (u ∷ []) v = refl
rpop_list_last (u ∷ w ∷ ws) v = rw (rpop_list_last (w ∷ ws) v) refl

-- A change of the entry of one key.
abbrev at_key : {A : Type 0} → (Key → A) → Key → (A → A) → Key → A
at_key f k g j = if same_key k j then g (f j) else f j

same_key_refl : (k : Key) → same_key k k ≡ true
same_key_refl (friends a) = eq_refl a
same_key_refl (blacklist a) = eq_refl a
same_key_refl (group a) = eq_refl a
same_key_refl (offline_messages a) = eq_refl a
same_key_refl (verify_email a) = eq_refl a
same_key_refl messages = refl
same_key_refl group_messages = refl

pub contains-sadd :
    (s : Key → List String) (k : Key) (v : String) (j : Key) (w : String)
    → contains (at_key s k (λ vs. v ∷ vs) j) w
      ≡ (if same_key k j && (v == w) then true else contains (s j) w)
contains-sadd s k v j w = ground (arith, Bool-cases (same_key k j), Bool-cases (v == w))

pub contains-srem :
    (s : Key → List String) (k : Key) (v : String) (j : Key) (w : String)
    → contains (at_key s k (without v) j) w
      ≡ (if same_key k j && (v == w) then false else contains (s j) w)
contains-srem s k v j w =
    ground (arith, Bool-cases (same_key k j), Bool-cases (v == w), contains-without v (s j) w)

pub contains-del :
    (s : Key → List String) (k j : Key) (w : String)
    → contains (at_key s k (λ vs. []) j) w ≡ (if same_key k j then false else contains (s j) w)
contains-del s k j w = ground (arith, Bool-cases (same_key k j))

pub rpop_at_key :
    (s : Key → List String) (k : Key) (vs : List String) (v : String)
    → s k ≡ vs ++ v ∷ []
    → ((rpop_list (s k)).0 ≡ some v) × (at_key s k (λ ws. (rpop_list ws).1) k ≡ vs)
rpop_at_key s k vs v e =
    (rw (e, rpop_list_last vs v) refl, rw (same_key_refl k, e, rpop_list_last vs v) refl)

pub rpop_at_key_empty :
    (s : Key → List String) (k : Key)
    → s k ≡ []
    → ((rpop_list (s k)).0 ≡ none) × (at_key s k (λ ws. (rpop_list ws).1) k ≡ [])
rpop_at_key_empty s k e = (rw e refl, rw (same_key_refl k, e) refl)

abbrev cache : Redis
cache = record {
  State = Store;
  sismember = λ s k v. contains (s.sets k) v;
  smembers = λ s k. s.sets k;
  sadd = λ s k v. record s { sets = at_key s.sets k (λ vs. v ∷ vs) };
  srem = λ s k v. record s { sets = at_key s.sets k (without v) };
  del = λ s k. record {
    sets = at_key s.sets k (λ vs. []);
    queues = at_key s.queues k (λ vs. []);
    codes = at_key s.codes k (λ c. none);
  };
  hget = λ s k. s.codes k;
  hset = λ s k v. record s { codes = at_key s.codes k (λ c. some v) };
  hdel = λ s k. record s { codes = at_key s.codes k (λ c. none) };
  hget-hset = λ s k v j. refl;
  hget-hdel = λ s k j. refl;
  items = λ s k. s.queues k;
  lpush = λ s k v. record s { queues = at_key s.queues k (λ vs. v ∷ vs) };
  rpush = λ s k v. record s { queues = at_key s.queues k (λ vs. vs ++ v ∷ []) };
  rpop = λ s k. (
    (rpop_list (s.queues k)).0,
    record s { queues = at_key s.queues k (λ vs. (rpop_list vs).1) },
  );
  ltrim = λ s k n. record s { queues = at_key s.queues k (drop n) };
  sismember-sadd = λ s k v j w. contains-sadd s.sets k v j w;
  sismember-srem = λ s k v j w. contains-srem s.sets k v j w;
  sismember-del = λ s k j w. contains-del s.sets k j w;
  contains-smembers = λ s k v. refl;
  sismember-lpush = λ s k v j w. refl;
  sismember-rpush = λ s k v j w. refl;
  items-sadd = λ s k v j. refl;
  items-srem = λ s k v j. refl;
  items-lpush = λ s k v j. refl;
  items-rpush = λ s k v j. refl;
  items-ltrim = λ s k n j. refl;
  rpop_empty = λ s k e. rpop_at_key_empty s.queues k e;
  rpop_last = λ s k vs v e. rpop_at_key s.queues k vs v e;
}

-- The group has one member with a row, and none for the user 9.
abbrev absent : Fields → Bool
absent conditions = elim (at conditions "user_id") [ some id ↦ id == "9" | none ↦ false ]

abbrev rows : Bool → Table → Fields → List Fields
rows true t conditions = []
rows false users conditions =
    (("id", "3")
      ∷ ("email", "bob@mail")
      ∷ ("nickname", "Bob")
      ∷ ("password", "secret")
      ∷ ("state", "alive")
      ∷ [])
    ∷ []
rows false friends_table conditions = (("user_id", "2") ∷ ("friend_id", "3") ∷ []) ∷ []
rows false group_members conditions =
    if absent conditions
    then []
    else (("group_id", "5") ∷ ("role", "owner") ∷ ("user_id", "2") ∷ []) ∷ []
rows false messages_table conditions = (("json", "hello") ∷ []) ∷ (("json", "bye") ∷ []) ∷ []
rows false friend_requests conditions = (("json", "a request") ∷ []) ∷ []
rows false t conditions = []

member_columns :
    (k : String)
    → has_column group_members k ≡ true
    → all_at ((("group_id", "5") ∷ ("role", "owner") ∷ ("user_id", "2") ∷ []) ∷ []) k ≡ true
member_columns k h = elim (Bool-cases (k == "user_id")) [
  | inl user_id ↦ let e = (eq_iff k "user_id").0 user_id in rw e refl
  | inr other ↦ elim (Bool-cases (k == "group_id")) [
    | inl group_id ↦ let e = (eq_iff k "group_id").0 group_id in rw e refl
    | inr rest ↦ let e = (eq_iff k "role").0 (rw (other, rest) at h) in rw e refl
  ]
]

user_columns : (k : String) → has_column users k ≡ true → (k ≡ "id") ⊎ (k ≡ "nickname")
user_columns k h = elim (Bool-cases (k == "id")) [
  | inl id ↦ inl ((eq_iff k "id").0 id)
  | inr other ↦ inr ((eq_iff k "nickname").0 (rw other at h))
]

pub rows-all_at :
    (s : Bool) (t : Table) (conditions : Fields) (k : String)
    → has_column t k ≡ true
    → all_at (rows s t conditions) k ≡ true
rows-all_at true t conditions k h = refl
rows-all_at false users conditions k h = elim (user_columns k h) [
  | inl e ↦ rw e refl
  | inr e ↦ rw e refl
]
rows-all_at false friends_table conditions k h = elim (Bool-cases (k == "friend_id")) [
  | inl friend_id ↦ let e = (eq_iff k "friend_id").0 friend_id in rw e refl
  | inr other ↦ let e = (eq_iff k "user_id").0 (rw other at h) in rw e refl
]
rows-all_at false friend_requests conditions k h = let e = (eq_iff k "json").0 h in rw e refl
rows-all_at false group_members conditions k h = elim (Bool-cases (absent conditions)) [
  | inl gone ↦ rw gone refl
  | inr there ↦ rw there (member_columns k h)
]
rows-all_at false messages_table conditions k h = let e = (eq_iff k "json").0 h in rw e refl
rows-all_at false t conditions k h = refl

abbrev tables : Database
tables = record {
  State = Bool;
  select = λ s t conditions in_conditions or_conditions. rows s t conditions;
  insert = λ s t row. (true, s);
  insert_list = λ s t list. (true, s);
  del = λ s t conditions. (true, true);
  update = λ s t updates conditions. (true, s);
  insert_id = λ s. "1";
  select_columns = λ s t conditions in_conditions or_conditions k h. rows-all_at s t conditions k h;
  select-del = λ s t conditions h. refl;
}

abbrev texts : JsonLibrary
texts = record {
  Json = String;
  null = "null";
  assign = λ js k v. Text.◌++◌ js (Text.◌++◌ k v);
  assign_number = λ js k n. js;
  assign_bool = λ js k b. js;
  dump = λ js. js;
  parse = λ t. some t;
  get = λ js k. some js;
  get_number = λ js k. some 8;
  get_bool = λ js k. some false;
  get_list = λ js k. js ∷ [];
  parse-dump = λ js. refl;
}

abbrev pub local : Services
local = record { redis = cache; database = tables; json = texts }
