-- ===== src/Server/World.antt =====
-- The state that the handlers share, and what they do to it: `Service::onlineUsers_`, the services,
-- and what has been handed to `sendJson` (server/base/base.cc). A handler runs without another one
-- in between. A `none` is a fault: `result[0]` or `at` where there is nothing. A connection is its
-- address.
use Prim.Native.String.{String}
use text.Mathlib.Text.{◌==◌}
use mathlib.Core.Option.{none-ne-some}
use weee_chatroom.Common.{
  ◌≡◌, refl, ℕ, Bool, true, false, List, [], ◌∷◌, ◌++◌, Option, none, some, if◌then◌else◌,
}
use weee_chatroom.Server.Services.{Services, Key, Table, Fields, users}

-- `MsgType` of server/base/include/base.h.
pub data MsgType : Type 0 where
  reg_msg reg_msg_ack login_msg login_msg_ack find_password find_password_ack get_friends chat_msg
        chat_msg_ack chat_group_msg chat_group_msg_ack add_friend add_friend_ack del_friend
        friend_request create_group add_group add_group_ack group_request get_groups
        add_group_remove get_groupinfo exit_group kick_member add_admin remove_admin upload_file
        get_files upload_file_ack download_file download_file_ack block_friend block_friend_ack
        unblock_friend unblock_friend_ack destroy_account get_logs get_logs_ack :
      MsgType

-- An entry of the friend list that is sent: id, nickname, is_blocked, isOnline.
pub record FriendEntry : Type 0 where
  pub id : String
  pub nickname : String
  pub is_blocked : Bool
  pub is_online : Bool

module _ (services : Services) where
  open services use {redis, database, json}

  pub data Message : Type 0 where
    -- `makeResponse(msgid, errno)`
    response : MsgType → ℕ → Message
    -- a JSON value as it was received, with what the handler added
    relay : json.Json → Message
    -- a JSON text that was stored
    stored : String → Message
    friend_list : List FriendEntry → Message
    -- ids and names
    group_list : List (String × String) → Message
    -- the members of a group: user id, role and nickname
    group_info : List (String × String × String) → Message
    -- ADD_GROUP_REMOVE for a user and a group
    request_removed : String → String → Message
    -- `makeResponse(REG_MSG_ACK, -1)`
    registration_failed : Message
    -- LOGIN_MSG_ACK: email and errno, and the id and nickname of who has logged in
    login_ack : String → ℕ → Option (String × String) → Message

  pub record World : Type 0 where
    pub cache : redis.State
    pub tables : database.State
    -- `onlineUsers_`
    pub online_users : List (String × ℕ)
    -- what was sent and to which connection, in order
    pub outbox : List (ℕ × Message)

  -- `getConnectionPtr`: a null pointer is `none`.
  unfoldable pub find_user : List (String × ℕ) → String → Option ℕ
  find_user [] user_id = none
  find_user ((k, c) ∷ m) user_id = if k == user_id then some c else find_user m user_id

  unfoldable pub get_connection_ptr : World → String → Option ℕ
  get_connection_ptr w user_id = find_user w.online_users user_id

  -- `sendJson(conn, …)`
  unfoldable pub send_json : ℕ → Message → World → World
  send_json conn m w = record w { outbox = w.outbox ++ (conn, m) ∷ [] }

  unfoldable pub sismember : World → Key → String → Bool
  sismember w k v = redis.sismember w.cache k v

  unfoldable pub sadd : Key → String → World → World
  sadd k v w = record w { cache = redis.sadd w.cache k v }

  unfoldable pub srem : Key → String → World → World
  srem k v w = record w { cache = redis.srem w.cache k v }

  unfoldable pub lpush : Key → String → World → World
  lpush k v w = record w { cache = redis.lpush w.cache k v }

  unfoldable pub rpush : Key → String → World → World
  rpush k v w = record w { cache = redis.rpush w.cache k v }

  unfoldable pub del_key : Key → World → World
  del_key k w = record w { cache = redis.del w.cache k }

  -- `mysql->select(table, conditions)`
  unfoldable pub select : World → Table → Fields → List Fields
  select w t conditions = database.select w.tables t conditions [] []

  -- With conditions of the form `column in (…)`.
  unfoldable pub select_in : World → Table → Fields → List (String × List String) → List Fields
  select_in w t conditions in_conditions = database.select w.tables t conditions in_conditions []

  -- With conditions of which one is to hold.
  unfoldable pub select_or : World → Table → Fields → List Fields
  select_or w t or_conditions = database.select w.tables t [] [] or_conditions

  unfoldable pub insert : Table → Fields → World → World
  insert t row w = record w { tables = (database.insert w.tables t row).1 }

  unfoldable pub del : Table → Fields → World → World
  del t conditions w = record w { tables = (database.del w.tables t conditions).1 }

  unfoldable pub update : Table → Fields → Fields → World → World
  update t updates conditions w = record w {
    tables = (database.update w.tables t updates conditions).1;
  }

-- Faults: a computation that may have none of a result.
infixl 5 ◌>>=◌
abbrev pub ◌>>=◌ : {A B : Type 0} → Option A → (A → Option B) → Option B
none >>= f = none
some a >>= f = f a

pub >>=-some :
    {A B : Type 0} (o : Option A) (f : A → Option B) (b : B)
    → (o >>= f) ≡ some b
    → (a : A) × (o ≡ some a) × (f a ≡ some b)
>>=-some none f b e = absurd (none-ne-some b e)
>>=-some (some a) f b e = (a, refl, e)

-- `rows[0]`
unfoldable pub first_row : List Fields → Option Fields
first_row [] = none
first_row (row ∷ rows) = some row

unfoldable pub is_empty : List Fields → Bool
is_empty [] = true
is_empty (row ∷ rows) = false

-- `row[key]`, which makes an empty entry for a missing key.
unfoldable pub entry : Fields → String → String
entry [] key = ""
entry ((k, v) ∷ row) key = if k == key then v else entry row key

-- `MySQLConn::getEmailById` and `getNicknameById`: the column of a user who is alive.
unfoldable pub column_by_id :
    {services : Services} → String → World services → String → Option String
column_by_id {services} column w user_id =
    first_row (select services w users (("id", user_id) ∷ ("state", "alive") ∷ [])) >>= λ row.
    some (entry row column)
