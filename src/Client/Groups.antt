-- ===== src/Client/Groups.antt =====
-- client/service/GroupService.cc: groups, their members and the requests to join them.
use Prim.Native.String.{String}
use text.Mathlib.Text.{◌==◌}
use weee_chatroom.Common.{ℕ, ◌&&◌, List, [], ◌∷◌, ◌++◌, Option, some, if◌then◌else◌}
use weee_chatroom.Server.Services.{JsonLibrary}
use weee_chatroom.Server.World.{◌>>=◌}
use weee_chatroom.Client.{
  Client, GroupAddRequest, GroupMember, put, send_json, notify, groups_listed, group_shown,
}
use weee_chatroom.Client.Contacts.{request}

-- `removeGroupAddRequest`
unfoldable pub erase_group_requests : String → String → List GroupAddRequest → List GroupAddRequest
erase_group_requests group_id from_user_id [] = []
erase_group_requests group_id from_user_id (r ∷ rs) =
    let rest = erase_group_requests group_id from_user_id rs in
    if (r.group_id == group_id) && (r.from_user_id == from_user_id) then rest else r ∷ rest

module _ (json : JsonLibrary) where
  -- `createGroup`, with the texts that `fixInvalidUtf8` leaves
  unfoldable pub send_create_group : String → String → Client json → Client json
  send_create_group name description c =
      send_json json
        (json.assign
          (json.assign (json.assign (request json 16) "creator_id" c.user_id) "name" name)
          "description" description)
        c

  -- `addGroup` before it waits
  unfoldable pub send_add_group : String → String → Client json → Client json
  send_add_group group_id timestamp c =
      send_json json
        (json.assign
          (json.assign (json.assign (request json 17) "group_id" group_id) "from_user_id" c.user_id)
          "timestamp" timestamp)
        c

  -- `handleGroupRequest`
  unfoldable pub handle_group_request : json.Json → Client json → Option (Client json)
  handle_group_request js c = json.get js "group_id" >>= λ group_id.
      (json.get js "group_name" >>= λ group_name.
      (json.get js "nickname" >>= λ nickname.
      (json.get js "from_user_id" >>= λ from_user_id.
      (json.get js "timestamp" >>= λ timestamp. some (record c {
        group_requests =
            c.group_requests
            ++ (record {
              from_user_id = from_user_id;
              group_id = group_id;
              nickname = nickname;
              group_name = group_name;
              timestamp = timestamp;
              user_id = c.user_id;
            })
              ∷ [];
      })))))

  -- `responseGroupRequest`
  unfoldable pub response_group_request : GroupAddRequest → String → Client json → Client json
  response_group_request r response c =
      let js =
        json.assign
          (json.assign
            (json.assign (json.assign (request json 19) "group_id" r.group_id) "from_user_id"
              r.from_user_id)
            "user_id" c.user_id)
          "response" response in
      let answered = send_json json js c in
      record answered {
        group_requests = erase_group_requests r.group_id r.from_user_id answered.group_requests;
      }

  -- `handleGroupRequestRemove`
  unfoldable pub handle_group_request_remove : json.Json → Client json → Option (Client json)
  handle_group_request_remove js c = json.get js "from_user_id" >>= λ from_user_id.
      (json.get js "group_id" >>= λ group_id.
      some
        (record c { group_requests = erase_group_requests group_id from_user_id c.group_requests }))

  -- The loop of `handleGroupList`.
  unfoldable pub put_groups :
      List json.Json → List (String × String) → Option (List (String × String))
  put_groups [] m = some m
  put_groups (js ∷ list) m =
      json.get js "id" >>= λ id. (json.get js "name" >>= λ name. put_groups list (put id name m))

  -- `handleGroupList`
  unfoldable pub handle_group_list : json.Json → Client json → Option (Client json)
  handle_group_list js c = put_groups (json.get_list js "groups") [] >>= λ groups.
      some (notify json groups_listed 1 (record c { group_list = groups }))

  -- The loop of `handleGroupInfo`.
  unfoldable pub put_members :
      List json.Json → List (String × GroupMember) → Option (List (String × GroupMember))
  put_members [] m = some m
  put_members (js ∷ list) m = json.get js "user_id" >>= λ id.
      (json.get js "nickname" >>= λ nickname.
      (json.get js "role" >>= λ role.
      put_members list (put id (record { id = id; nickname = nickname; role = role }) m)))

  -- `handleGroupInfo`
  unfoldable pub handle_group_info : json.Json → Client json → Option (Client json)
  handle_group_info js c = put_members (json.get_list js "members") [] >>= λ members.
      some (notify json group_shown 0 (record c { group_members = members }))

  -- `exitGroup`
  unfoldable pub send_exit_group : Client json → Client json
  send_exit_group c =
      send_json json
        (json.assign (json.assign (request json 23) "user_id" c.user_id) "group_id"
          c.current_group_id)
        c

  -- `kickMember`
  unfoldable pub send_kick_member : String → Client json → Client json
  send_kick_member user_id c =
      send_json json
        (json.assign
          (json.assign (json.assign (request json 24) "kick_user_id" user_id) "user_id" c.user_id)
          "group_id" c.current_group_id)
        c

  -- `addAdmin`, and `removeAdmin` with its own number
  unfoldable pub send_admin : ℕ → String → Client json → Client json
  send_admin msgid to_user_id c =
      send_json json
        (json.assign
          (json.assign (json.assign (request json msgid) "to_user_id" to_user_id) "group_id"
            c.current_group_id)
          "user_id" c.user_id)
        c
