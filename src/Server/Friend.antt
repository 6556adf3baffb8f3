-- ===== src/Server/Friend.antt =====
-- server/handler/Friend.cc: the friend lists, the requests and the answers to them, the deletion of a
-- friend, blocking and unblocking. The ids are fields of the request, as strings; `conn` is the
-- connection that the request came on.
pub mod Listing
pub mod Relations
pub mod Blocking
use Prim.Native.String.{String}
use Prim.Native.String as Text
use text.Mathlib.Text.{◌==◌}
use weee_chatroom.Common.{
  ℕ, Bool, true, false, not, List, [], ◌∷◌, Option, none, some, if◌then◌else◌,
}
use weee_chatroom.Server.Services.{
  Services, Key, friends, blacklist, Fields, at, Table, users, friends_table, friend_requests,
}
use weee_chatroom.Server.World.{
  World, Message, MsgType, add_friend_ack, block_friend_ack, unblock_friend_ack, response, relay,
  friend_list, FriendEntry, is_empty, column_by_id, ◌>>=◌, get_connection_ptr, send_json, sismember,
  sadd, srem, select, select_in, insert, del,
}
use weee_chatroom.Server.Chat.{ChatRequest, chatter}

module _ (services : Services) where
  open services use {redis, json}

  -- `FriendLister::getFriendsId`
  unfoldable pub get_friends_id : World services → String → List Fields
  get_friends_id w user_id =
      select services w friends_table (("status", "accepted") ∷ ("user_id", user_id) ∷ [])

  -- The loop of `getFriendsInfo` over the rows: their friend_id.
  unfoldable pub id_list : List Fields → Option (List String)
  id_list [] = some []
  id_list (row ∷ rows) = at row "friend_id" >>= λ id. (id_list rows >>= λ ids. some (id ∷ ids))

  -- `FriendLister::getFriendsInfo`
  unfoldable pub get_friends_info : World services → List Fields → Option (List Fields)
  get_friends_info w friends_id =
      if is_empty friends_id
      then some []
      else (id_list friends_id >>= λ ids. some (select_in services w users [] (("id", ids) ∷ [])))

  unfoldable pub is_online : World services → String → Bool
  is_online w id = elim (get_connection_ptr services w id) [ some c ↦ true | none ↦ false ]

  -- The body of the loop in `sendFriendList`.
  unfoldable pub to_entry : World services → String → Fields → Option FriendEntry
  to_entry w user_id user = at user "id" >>= λ id.
      (at user "nickname" >>= λ nickname. some (record {
        id = id;
        nickname = nickname;
        is_blocked = sismember services w (blacklist id) user_id;
        is_online = is_online w id;
      }))

  unfoldable pub to_entries : World services → String → List Fields → Option (List FriendEntry)
  to_entries w user_id [] = some []
  to_entries w user_id (user ∷ rows) =
      to_entry w user_id user >>= λ u. (to_entries w user_id rows >>= λ us. some (u ∷ us))

  -- `FriendLister::sendFriendList`
  unfoldable pub send_friend_list : String → World services → Option (World services)
  send_friend_list user_id w = elim (get_connection_ptr services w user_id) [
    | none ↦ some w
    | some conn ↦ get_friends_info w (get_friends_id w user_id) >>= λ rows.
        (to_entries w user_id rows >>= λ entries.
        some (send_json services conn (friend_list entries) w))
  ]

  -- The fields of ADD_FRIEND, beside the JSON value itself.
  pub record AddRequest : Type 0 where
    pub to_user_id : String
    pub from_user_id : String
    pub js : json.Json

  abbrev ack : ℕ → MsgType → ℕ → World services → World services
  ack conn msgid errno w = send_json services conn (response msgid errno) w

  -- To the user's connection, if there is one.
  unfoldable pub forward : String → json.Json → World services → World services
  forward user_id js w = elim (get_connection_ptr services w user_id) [
    | some target ↦ send_json services target (relay js) w
    | none ↦ w
  ]

  -- What `FriendAdder::handle` does with a request that passes its checks.
  unfoldable pub store_request : ℕ → AddRequest → World services → Option (World services)
  store_request conn r w = column_by_id "nickname" w r.from_user_id >>= λ nickname.
      (let js = json.assign r.js "from_user_nickname" nickname in
        let row =
          ("to_user_id", r.to_user_id)
          ∷ ("from_user_id", r.from_user_id)
          ∷ ("json", json.dump js)
          ∷ [] in
        some (
          ack conn add_friend_ack 0
            (insert services friend_requests row (forward r.to_user_id js w))))

  -- `FriendAdder::handle`
  unfoldable pub friend_adder : ℕ → AddRequest → World services → Option (World services)
  friend_adder conn r w =
      let requests =
        select services w friend_requests
          (("from_user_id", r.from_user_id) ∷ ("to_user_id", r.to_user_id) ∷ []) in
      if is_empty (select services w users (("id", r.to_user_id) ∷ []))
      then some (ack conn add_friend_ack 1 w)
      else if r.to_user_id == r.from_user_id
      then some (ack conn add_friend_ack 2 w)
      else if sismember services w (friends r.from_user_id) r.to_user_id
      then some (ack conn add_friend_ack 3 w)
      else if not (is_empty requests)
      then some (ack conn add_friend_ack 4 w)
      else store_request conn r w

  -- The fields of a FRIEND_REQUEST, and the time as text that the answer to a rejection has.
  pub record Answer : Type 0 where
    pub response : String
    pub from_user_id : String
    pub to_user_id : String
    pub timestamp : String

  -- The cache and the table of friends after an acceptance.
  unfoldable pub accept : Answer → World services → World services
  accept a w =
      let cached =
        sadd services (friends a.to_user_id) a.from_user_id
          (sadd services (friends a.from_user_id) a.to_user_id w) in
      let one =
        insert services friends_table
          (("user_id", a.from_user_id) ∷ ("friend_id", a.to_user_id) ∷ []) cached in
      let both =
        insert services friends_table
          (("user_id", a.to_user_id) ∷ ("friend_id", a.from_user_id) ∷ []) one in
      srem services (blacklist a.to_user_id) a.from_user_id
        (srem services (blacklist a.from_user_id) a.to_user_id both)

  -- The message that a rejection sends, from the system user "1".
  rejection : Answer → String → ChatRequest services
  rejection a email = record {
    sender_id = "1";
    receiver_id = a.from_user_id;
    content = Text.◌++◌ "你向好友[" (Text.◌++◌ email "]发送的好友请求被拒绝了");
    js =
        json.assign
          (json.assign
            (json.assign
              (json.assign (json.assign (json.assign_number json.null "msgid" 8) "sender_id" "1")
                "receiver_id" a.from_user_id)
              "content" (Text.◌++◌ "你向好友[" (Text.◌++◌ email "]发送的好友请求被拒绝了")))
            "nickname" "系统消息")
          "timestamp" a.timestamp;
  }

  -- The branch on the response.
  unfoldable pub respond : Answer → World services → Option (World services)
  unfolding rejection
  respond a w =
      if a.response == "accept"
      then some (accept a w)
      else if a.response == "reject"
      then (column_by_id "email" w a.to_user_id >>= λ email.
          some (chatter services (rejection a email) w))
      else some w

  -- `FriendAddResponser::handle`
  unfoldable pub friend_add_responser : Answer → World services → Option (World services)
  friend_add_responser a w = respond a w >>= λ answered.
      (let deleted =
          del services friend_requests
            (("to_user_id", a.to_user_id) ∷ ("from_user_id", a.from_user_id) ∷ []) answered in
        send_friend_list a.from_user_id deleted >>= send_friend_list a.to_user_id)

  -- `FriendDeleter::handle`
  unfoldable pub friend_deleter : String → String → World services → Option (World services)
  friend_deleter from_user_id to_user_id w =
      let cached =
        srem services (friends to_user_id) from_user_id
          (srem services (friends from_user_id) to_user_id w) in
      let one =
        del services friends_table (("user_id", from_user_id) ∷ ("friend_id", to_user_id) ∷ [])
          cached in
      let both =
        del services friends_table (("user_id", to_user_id) ∷ ("friend_id", from_user_id) ∷ [])
          one in
      send_friend_list from_user_id both >>= send_friend_list to_user_id

  -- `FriendBlocker::handle`
  unfoldable pub friend_blocker : ℕ → String → String → World services → Option (World services)
  friend_blocker conn from_user_id to_user_id w =
      if sismember services w (blacklist from_user_id) to_user_id
      then some (ack conn block_friend_ack 1 w)
      else send_friend_list to_user_id
          (ack conn block_friend_ack 0 (sadd services (blacklist from_user_id) to_user_id w))

  -- `FriendUnblocker::handle`
  unfoldable pub friend_unblocker : ℕ → String → String → World services → Option (World services)
  friend_unblocker conn from_user_id to_user_id w =
      if not (sismember services w (blacklist from_user_id) to_user_id)
      then some (ack conn unblock_friend_ack 1 w)
      else send_friend_list to_user_id
          (ack conn unblock_friend_ack 0 (srem services (blacklist from_user_id) to_user_id w))
