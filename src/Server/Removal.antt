-- ===== src/Server/Removal.antt =====
-- server/handler/Login.cc: `AccountKiller`, which removes an account. `srem` answers whether it has removed
-- something; a row without an id is a fault. `select(table)` has no conditions.
pub mod Silence
use Prim.Native.String.{String}
use weee_chatroom.Common.{ℕ, Bool, true, false, List, [], ◌∷◌, Option, none, some, if◌then◌else◌}
use weee_chatroom.Server.Services.{
  Services, Key, friends, blacklist, group, Fields, at, Table, users, groups, group_members,
  friends_table, friend_requests, group_requests, offline_messages_table,
}
use weee_chatroom.Server.World.{World, ◌>>=◌, sismember, srem, del_key, select, del}
use weee_chatroom.Server.Friend.{send_friend_list}
use weee_chatroom.Server.Group.{group_exiter}
use weee_chatroom.Server.Online.{on_disconnection}

module _ (services : Services) where
  -- The loop over the groups of the user, each with a `GroupExiter`.
  unfoldable pub exit_groups : List Fields → String → World services → Option (World services)
  exit_groups [] user_id w = some w
  exit_groups (row ∷ rows) user_id w = at row "id" >>= λ group_id.
      (group_exiter services group_id user_id w >>= λ w₁. exit_groups rows user_id w₁)

  -- The deletes before the loop over the users.
  unfoldable pub clear_tables : String → World services → World services
  clear_tables user_id w = del services friends_table (("friend_id", user_id) ∷ []) (
      del services friends_table (("user_id", user_id) ∷ []) (
        del services group_requests (("to_user_id", user_id) ∷ []) (
          del services group_requests (("from_user_id", user_id) ∷ []) (
            del services friend_requests (("to_user_id", user_id) ∷ []) (
              del services friend_requests (("from_user_id", user_id) ∷ []) (
                del_key services (blacklist user_id) (
                  del services offline_messages_table (("receiver_id", user_id) ∷ [])
                    (del services offline_messages_table (("sender_id", user_id) ∷ []) w))))))))

  -- The loop over the users: who had the user as a friend gets a new list.
  unfoldable pub unfriend_all : List Fields → String → World services → Option (World services)
  unfriend_all [] user_id w = some w
  unfriend_all (row ∷ rows) user_id w = at row "id" >>= λ id.
      (let removed = srem services (friends id) user_id w in
        (if sismember services w (friends id) user_id
          then send_friend_list services id removed
          else some removed)
        >>= λ w₁. unfriend_all rows user_id w₁)

  unfoldable pub leave_all : List Fields → String → World services → Option (World services)
  leave_all [] user_id w = some w
  leave_all (row ∷ rows) user_id w =
      at row "id" >>= λ group_id. leave_all rows user_id (srem services (group group_id) user_id w)

  -- `AccountKiller::handle` behind the loop over the groups
  unfoldable pub remove_user : String → World services → Option (World services)
  remove_user user_id w =
      let cleared = del_key services (friends user_id) (clear_tables user_id w) in
      unfriend_all (select services cleared users []) user_id cleared >>= λ w₁.
      (let left = del services group_members (("user_id", user_id) ∷ []) w₁ in
        leave_all (select services left groups []) user_id left >>= λ w₂.
        some (del services users (("id", user_id) ∷ []) w₂))

  -- `AccountKiller::handle`
  unfoldable pub account_killer : String → ℕ → World services → Option (World services)
  account_killer user_id conn w =
      let offline = on_disconnection services conn w in
      exit_groups (select services offline groups (("creator_id", user_id) ∷ [])) user_id offline
      >>= λ w₁. remove_user user_id w₁
