-- ===== src/Client/Contacts.antt =====
-- client/service/FriendService.cc, and the answer to a login of UserService.cc: what they ask of the server
-- and do with its answers. A member of a JSON value that is missing or of another type is a fault. The
-- numbers are those of `MsgType`.
pub mod Requests
use Prim.Native.String.{String}
use text.Mathlib.Text.{◌==◌}
use weee_chatroom.Common.{
  ℕ, Bool, true, false, ◌&&◌, List, [], ◌∷◌, ◌++◌, Option, none, some, if◌then◌else◌,
  ◌==◌ as same_number,
}
use weee_chatroom.Server.Services.{JsonLibrary}
use weee_chatroom.Server.World.{◌>>=◌}
use weee_chatroom.Client.{
  Client, Friend, FriendRequest, GroupAddRequest, GroupMember, put, send_json, notify, Awaited,
  friend_added, friend_blocked, friend_unblocked, friends_listed, groups_listed, group_added,
  group_shown, registered, logged_in, password_found,
}

-- The loop that erases the requests of one user to another.
unfoldable pub erase_requests : String → String → List FriendRequest → List FriendRequest
erase_requests from_user_id user_id [] = []
erase_requests from_user_id user_id (r ∷ rs) =
    let rest = erase_requests from_user_id user_id rs in
    if (r.from_user_id == from_user_id) && (r.user_id == user_id) then rest else r ∷ rest

module _ (json : JsonLibrary) where
  -- `json js; js["msgid"] = …`
  unfoldable pub request : ℕ → json.Json
  request msgid = json.assign_number json.null "msgid" msgid

  -- `addFriend` before it waits
  unfoldable pub send_add_friend : String → String → Client json → Client json
  send_add_friend id timestamp c =
      send_json json
        (json.assign (json.assign (json.assign (request 12) "id" id) "from_user_id" c.user_id)
          "timestamp" timestamp)
        c

  -- `delFriend`, and `blockFriend` and `unblockFriend` before they wait
  unfoldable pub send_del_friend : String → Client json → Client json
  send_del_friend friend_id c =
      send_json json
        (json.assign (json.assign (request 14) "to_user_id" friend_id) "from_user_id" c.user_id) c

  unfoldable pub send_block_friend : String → Client json → Client json
  send_block_friend friend_id c =
      send_json json
        (json.assign (json.assign (request 32) "to_user_id" friend_id) "from_user_id" c.user_id) c

  unfoldable pub send_unblock_friend : String → Client json → Client json
  send_unblock_friend friend_id c =
      send_json json
        (json.assign (json.assign (request 34) "from_user_id" c.user_id) "to_user_id" friend_id) c

  -- The handlers of answers: each wakes who waits for it, with the errno.
  unfoldable pub handle_ack : Awaited → json.Json → Client json → Option (Client json)
  handle_ack a js c = json.get_number js "errno" >>= λ res. some (notify json a res c)

  -- `handleFriendRequest`
  unfoldable pub handle_friend_request : json.Json → Client json → Option (Client json)
  handle_friend_request js c = json.get js "from_user_id" >>= λ from_user_id.
      (json.get js "from_user_nickname" >>= λ nickname.
      (json.get js "timestamp" >>= λ timestamp. some (record c {
        friend_requests =
            c.friend_requests
            ++ (record {
              from_user_id = from_user_id;
              nickname = nickname;
              timestamp = timestamp;
              user_id = c.user_id;
            })
              ∷ [];
      })))

  unfoldable pub read_friend : json.Json → Option Friend
  read_friend js = json.get js "id" >>= λ id.
      (json.get js "nickname" >>= λ nickname.
      (json.get_bool js "isOnline" >>= λ is_online.
      (json.get_bool js "is_blocked" >>= λ is_blocked.
      some
        (record { id = id; nickname = nickname; is_online = is_online; is_blocked = is_blocked }))))

  -- The loop of `handleFriendsList`.
  unfoldable pub put_friends :
      List json.Json → List (String × Friend) → Option (List (String × Friend))
  put_friends [] m = some m
  put_friends (js ∷ list) m = read_friend js >>= λ f. put_friends list (put f.id f m)

  -- `handleFriendsList`
  unfoldable pub handle_friends_list : json.Json → Client json → Option (Client json)
  handle_friends_list js c = put_friends (json.get_list js "friends") [] >>= λ friends.
      some (notify json friends_listed 0 (record c { friend_list = friends }))

  -- `responseFriendRequest`
  unfoldable pub response_friend_request : FriendRequest → String → Client json → Client json
  response_friend_request r response c =
      let js =
        json.assign
          (json.assign (json.assign (request 15) "from_user_id" r.from_user_id) "to_user_id"
            r.user_id)
          "response" response in
      let answered = send_json json js c in
      record answered {
        friend_requests = erase_requests r.from_user_id r.user_id answered.friend_requests;
      }

  -- `handleLoginAck`
  unfoldable pub handle_login_ack : json.Json → Client json → Option (Client json)
  handle_login_ack js c = json.get js "email" >>= λ email.
      (json.get_number js "errno" >>= λ errno.
      (let known = record c { user_email = email } in
        if same_number errno 0
        then (json.get js "user_id" >>= λ user_id.
            (json.get js "nickname" >>= λ nickname. some (
              notify json logged_in errno
                (record known { user_id = user_id; nickname = nickname }))))
        else some (notify json logged_in errno known)))
