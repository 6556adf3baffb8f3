-- ===== src/Server/Transfer/Batches.antt =====
-- Every stored message is either in the batch that MySQL has taken or still in Redis.
use Prim.Native.String.{String}
use weee_chatroom.Common.{
  ℕ, ◌≤◌, ◌≡◌, ◌⊎◌, inl, inr, refl, sym, ap, ◌∙◌, true, false, List, [], ◌++◌, Option, none, some,
  if◌then◌else◌, length, take, drop, arith, Bool-cases, take-append-drop, length-take, length-map,
  drop-append_self,
}
use weee_chatroom.Server.Services.{
  Services, Key, same_key, messages, group_messages, Table, messages_table, group_messages_table,
  Fields,
}
use weee_chatroom.Server.World.{World, entry}
use weee_chatroom.Server.Transfer.{
  message_row, group_message_row, batch, insert_batch, move_batch, insert_from_redis, Call,
  returned, thrown,
}
use weee_chatroom.Server.Transfer.Rows.{
  Rows, Broken, texts_of, data_list_lem, IsReader, message_row-IsReader, group_message_row-IsReader,
}

module _ (services : Services) where
  open services use {redis, database, json}

  -- What MySQL has taken of a batch.
  pub accepted : Table → List Fields → database.State → List String
  accepted table rows s =
      if (database.insert_list s table rows).0 then texts_of services rows else []

  length-batch : (key : Key) (w : World services) → length (batch services key w) ≤ 10001
  unfolding batch
  length-batch key w = omega (arith, length-take 10001 (redis.items w.cache key))

  -- To drop as many as were taken leaves the others.
  drop-take_all :
      {A : Type 0} (n : ℕ) (xs : List A) → take n xs ++ drop (length (take n xs)) xs ≡ xs
  drop-take_all n xs =
      ap (λ l. take n xs ++ drop (length (take n xs)) l) (sym (take-append-drop n xs))
      ∙ ap (◌++◌ (take n xs)) (drop-append_self (take n xs) (drop n xs))
      ∙ take-append-drop n xs

  items-insert_batch :
      (key : Key) (table : Table) (rows : List Fields) (w : World services)
      → same_key key key ≡ true
      → texts_of services rows ≡ take 10001 (redis.items w.cache key)
      → accepted table rows w.tables
          ++ redis.items
              (insert_batch services key table (length (batch services key w)) rows w).cache
              key
        ≡ redis.items w.cache key
  unfolding insert_batch accepted batch
  items-insert_batch key table rows w same texts =
      elim (Bool-cases (database.insert_list w.tables table rows).0) [
        | inl ok ↦
            rw
              (
                ok,
                insert_batch,
                redis.items-ltrim w.cache key (length (take 10001 (redis.items w.cache key))) key,
                same,
                texts,
              )
              (drop-take_all 10001 (redis.items w.cache key))
        | inr failed ↦ rw (failed, insert_batch) refl
      ]

  items-insert_batch_other :
      (key j : Key) (table : Table) (size : ℕ) (rows : List Fields) (w : World services)
      → same_key key j ≡ false
      → redis.items (insert_batch services key table size rows w).cache j ≡ redis.items w.cache j
  unfolding insert_batch
  items-insert_batch_other key j table size rows w differ =
      elim (Bool-cases (database.insert_list w.tables table rows).0) [
        | inl ok ↦ rw (ok, redis.items-ltrim w.cache key size j, differ) refl
        | inr failed ↦ rw (failed) refl
      ]

  -- A batch has been moved: its rows are read from the texts, MySQL is given them, and what it has taken
  -- and what is left of the list in Redis are together what the list was, in order; at most 10001
  -- texts are taken, and nothing else changes.
  pub record Moved (key : Key) (table : Table) (a b c : String) (w w' : World services)
      : Type 0 where
    pub rows : List Fields
    pub read : Rows services a b c (take 10001 (redis.items w.cache key)) rows
    pub tables : w'.tables ≡ (database.insert_list w.tables table rows).1
    pub kept : accepted table rows w.tables ++ redis.items w'.cache key ≡ redis.items w.cache key
    pub few : length rows ≤ 10001
    pub same_others :
        (j : Key) → same_key key j ≡ false → redis.items w'.cache j ≡ redis.items w.cache j
    pub same_outbox : w'.outbox ≡ w.outbox
    pub same_users : w'.online_users ≡ w.online_users

  -- One batch: it is moved, or one of its texts cannot be read.
  move_batch_lem :
      (key : Key) (table : Table) (a b c : String) (row_of : String → Option Fields)
      (w : World services)
      → same_key key key ≡ true
      → IsReader services a b c row_of
      → ((w' : World services) × (move_batch services key table row_of w ≡ some w')
          × Moved key table a b c w w')
        ⊎ ((move_batch services key table row_of w ≡ none)
            × Broken services a b c (take 10001 (redis.items w.cache key)))
  unfolding move_batch batch insert_batch texts_of
  move_batch_lem key table a b c row_of w same reader =
      elim (data_list_lem services a b c row_of (batch services key w) reader) [
        | inr (bad, broken) ↦ inr (rw (move_batch, bad) refl, broken)
        | inl (rows, good, read, texts) ↦ inl (
          insert_batch services key table (length (batch services key w)) rows w,
          rw (move_batch, good) refl,
          record {
            rows = rows;
            read = read;
            tables = refl;
            kept = items-insert_batch key table rows w same texts;
            few = omega (
              arith,
              length-map (λ row. entry row "json") rows,
              ap length texts,
              length-take 10001 (redis.items w.cache key),
            );
            same_others =
                λ j. items-insert_batch_other key j table (length (batch services key w)) rows w;
            same_outbox = refl;
            same_users = refl;
          },
        )
      ]

  -- The three ends of `insertFromRedis`.
  pub Transferred : World services → Call services → Type 0
  Transferred w call =
      ((w₁ : World services) × (w₂ : World services) × (call ≡ returned w₂)
        × Moved messages messages_table "sender_id" "receiver_id" "content" w w₁
        × Moved group_messages group_messages_table "group_id" "sender_id" "content" w₁ w₂)
      ⊎ ((call ≡ thrown w)
          × Broken services "sender_id" "receiver_id" "content"
              (take 10001 (redis.items w.cache messages)))
      ⊎ ((w₁ : World services) × (call ≡ thrown w₁)
          × Moved messages messages_table "sender_id" "receiver_id" "content" w w₁
          × Broken services "group_id" "sender_id" "content"
              (take 10001 (redis.items w₁.cache group_messages)))

  -- `insertFromRedis` moves a batch of the messages, the first 10001 at most, and then one of the group
  -- messages: each row has the members that are read from its text, the texts that MySQL takes leave
  -- Redis, and no others, so that what was taken and what is left are together what was stored, in
  -- order. Exactly where one of the texts of a batch is no JSON or lacks one of the members, an exception ends
  -- it, before that batch is touched: with nothing changed for the first batch, and with the first
  -- batch moved for the second.
  pub insert_from_redis_lem : (w : World services) → Transferred w (insert_from_redis services w)
  unfolding insert_from_redis Transferred
  insert_from_redis_lem w =
      let first =
        move_batch_lem messages messages_table "sender_id" "receiver_id" "content"
          (message_row services) w refl (message_row-IsReader services) in
      elim first [
        | inr (bad, broken) ↦ inr (inl (rw (insert_from_redis, bad) refl, broken))
        | inl (w₁, good, moved) ↦
            let second =
              move_batch_lem group_messages group_messages_table "group_id" "sender_id" "content"
                (group_message_row services) w₁ refl (group_message_row-IsReader services) in
            elim second [
              | inr (bad, broken) ↦
                  inr (inr (w₁, rw (insert_from_redis, good, bad) refl, moved, broken))
              | inl (w₂, group_good, group_moved) ↦
                  inl (w₁, w₂, rw (insert_from_redis, good, group_good) refl, moved, group_moved)
            ]
      ]
