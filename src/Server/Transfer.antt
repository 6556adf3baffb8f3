-- ===== src/Server/Transfer.antt =====
-- server/Service.cc: `insertFromRedis`, which moves the stored messages from Redis to MySQL in batches,
-- and `initCache`, which fills the sets of Redis. A member of a stored text that is missing or no text
-- is a fault. LRANGE 0 10000 gives 10001 texts at most.
pub mod Rows
pub mod Stored
pub mod Batches
use Prim.Native.String.{String}
use weee_chatroom.Common.{
  ℕ, ◌+◌, ◌≤◌, ◌≡◌, ◌⊎◌, inl, inr, refl, sym, ap, ap₂, ◌∙◌, Bool, true, false, List, [], ◌∷◌, ◌++◌,
  map, Option, none, some, if◌then◌else◌, length, take, drop, arith, Option-cases, Bool-cases,
  take-append-drop, length-take, length-map,
}
use mathlib.Core.Option.{some-injective, none-ne-some}
use weee_chatroom.Server.Services.{
  Services, Key, friends, group, messages, group_messages, Table, messages_table,
  group_messages_table, friends_table, group_members, Fields, at,
}
use weee_chatroom.Server.World.{World, ◌>>=◌, >>=-some, entry, sadd, select}

module _ (services : Services) where
  open services use {redis, database, json}

  -- A row for the table, of a stored text.
  unfoldable pub message_row : String → Option Fields
  message_row msg_str = json.parse msg_str >>= λ msg.
      (json.get msg "sender_id" >>= λ sender_id.
      (json.get msg "receiver_id" >>= λ receiver_id.
      (json.get msg "content" >>= λ content. some (
        ("sender_id", sender_id)
        ∷ ("receiver_id", receiver_id)
        ∷ ("content", content)
        ∷ ("json", msg_str)
        ∷ []))))

  unfoldable pub group_message_row : String → Option Fields
  group_message_row msg_str = json.parse msg_str >>= λ msg.
      (json.get msg "group_id" >>= λ group_id.
      (json.get msg "sender_id" >>= λ sender_id.
      (json.get msg "content" >>= λ content. some (
        ("group_id", group_id)
        ∷ ("sender_id", sender_id)
        ∷ ("content", content)
        ∷ ("json", msg_str)
        ∷ []))))

  -- The loop over the texts.
  unfoldable pub data_list : (String → Option Fields) → List String → Option (List Fields)
  data_list row_of [] = some []
  data_list row_of (msg_str ∷ texts) =
      row_of msg_str >>= λ row. (data_list row_of texts >>= λ rows. some (row ∷ rows))

  -- `lrange(key, 0, 10000, …)`
  unfoldable pub batch : Key → World services → List String
  batch key w = take 10001 (redis.items w.cache key)

  -- `insertList`, and `ltrim` if it has succeeded
  unfoldable pub insert_batch : Key → Table → ℕ → List Fields → World services → World services
  insert_batch key table size rows w =
      let inserted = database.insert_list w.tables table rows in
      let trimmed = if inserted.0 then redis.ltrim w.cache key size else w.cache in
      record w { tables = inserted.1; cache = trimmed }

  unfoldable pub move_batch :
      Key → Table → (String → Option Fields) → World services → Option (World services)
  move_batch key table row_of w = data_list row_of (batch key w) >>= λ rows.
      some (insert_batch key table (length (batch key w)) rows w)

  -- A call of the timer's: it returns, or an exception leaves it, each with the state at that point.
  pub data Call : Type 0 where
    returned thrown : World services → Call

  -- `insertFromRedis`: the first batch has been moved when the second is read.
  unfoldable pub insert_from_redis : World services → Call
  insert_from_redis w = elim (move_batch messages messages_table message_row w) [
    | none ↦ thrown w
    | some w₁ ↦ elim (move_batch group_messages group_messages_table group_message_row w₁) [
      | none ↦ thrown w₁
      | some w₂ ↦ returned w₂
    ]
  ]

  -- The loops of `initCache`.
  unfoldable pub cache_friends : List Fields → World services → Option (World services)
  cache_friends [] w = some w
  cache_friends (row ∷ rows) w = at row "user_id" >>= λ user_id.
      (at row "friend_id" >>= λ friend_id.
      cache_friends rows (sadd services (friends user_id) friend_id w))

  unfoldable pub cache_members : List Fields → World services → Option (World services)
  cache_members [] w = some w
  cache_members (row ∷ rows) w = at row "group_id" >>= λ group_id.
      (at row "user_id" >>= λ user_id.
      cache_members rows (sadd services (group group_id) user_id w))

  -- `initCache`; its two tasks change different sets
  unfoldable pub init_cache : World services → Option (World services)
  init_cache w = cache_friends (select services w friends_table []) w >>= λ w₁.
      cache_members (select services w₁ group_members []) w₁
