-- ===== src/Server/Group/Requests.antt =====
-- Requests to join a group, and the answers of its administrators.
use Prim.Native.String.{String}
use Prim.Native.String as Text
use text.Mathlib.Text.{◌==◌}
use weee_chatroom.Common.{ℕ, not, List, [], ◌∷◌, Option, none, some, if◌then◌else◌}
use weee_chatroom.Server.Services.{
  Services, group, Fields, at, users, groups, group_members, group_requests,
}
use weee_chatroom.Server.World.{
  World, Message, add_group_ack, response, relay, request_removed, is_empty, first_row, ◌>>=◌,
  get_connection_ptr, send_json, sismember, sadd, select, select_in, insert, del,
}
use weee_chatroom.Server.Chat.{ChatRequest, chatter}
use weee_chatroom.Server.Group.{send_group_list, member_rows, role_of}

module _ (services : Services) where
  open services use {redis, json}

  -- The fields of ADD_GROUP, beside the JSON value itself.
  pub record JoinRequest : Type 0 where
    pub group_id : String
    pub from_user_id : String
    pub js : json.Json

  abbrev pub ack : ℕ → ℕ → World services → World services
  ack conn errno w = send_json services conn (response add_group_ack errno) w

  unfoldable pub forward_to : String → Message services → World services → World services
  forward_to user_id message w = elim (get_connection_ptr services w user_id) [
    | some target ↦ send_json services target message w
    | none ↦ w
  ]

  -- The loop over the administrators: `js` goes on with the last id that was put into it.
  unfoldable pub ask_admins :
      JoinRequest → List Fields → json.Json → World services → Option (World services)
  ask_admins r [] js w = some w
  ask_admins r (admin ∷ admins) js w = at admin "user_id" >>= λ admin_id.
      (let js' = json.assign js "to_user_id" admin_id in
        ask_admins r admins js' (
          insert services group_requests
            (("from_user_id", r.from_user_id)
              ∷ ("to_user_id", admin_id)
              ∷ ("group_id", r.group_id)
              ∷ ("json", json.dump js')
              ∷ [])
            (forward_to admin_id (relay js) w)))

  unfoldable pub admins_of : World services → String → List Fields
  admins_of w group_id =
      select_in services w group_members (("group_id", group_id) ∷ [])
        (("role", "admin" ∷ "owner" ∷ []) ∷ [])

  unfoldable pub ask : ℕ → JoinRequest → Fields → World services → Option (World services)
  ask conn r name w = at name "name" >>= λ group_name.
      (first_row (select services w users (("id", r.from_user_id) ∷ [])) >>= λ user.
      (at user "nickname" >>= λ nickname.
      (ask_admins r (admins_of w r.group_id)
          (json.assign (json.assign r.js "group_name" group_name) "nickname" nickname) w
        >>= λ asked. some (ack conn 0 asked))))

  -- `GroupAdder::handle`
  unfoldable pub group_adder : ℕ → JoinRequest → World services → Option (World services)
  group_adder conn r w =
      let requests =
        select services w group_requests
          (("from_user_id", r.from_user_id) ∷ ("group_id", r.group_id) ∷ []) in
      elim (first_row (select services w groups (("id", r.group_id) ∷ []))) [
        | none ↦ some (ack conn 1 w)
        | some name ↦
            if sismember services w (group r.group_id) r.from_user_id
            then some (ack conn 2 w)
            else if not (is_empty requests)
            then some (ack conn 3 w)
            else ask conn r name w
      ]

  -- The fields of a GROUP_REQUEST, and the time as text that the answer to a rejection has.
  pub record JoinAnswer : Type 0 where
    pub response : String
    pub from_user_id : String
    pub group_id : String
    pub user_id : String
    pub timestamp : String

  unfoldable pub rejection : JoinAnswer → ChatRequest services
  rejection a = record {
    sender_id = "1";
    receiver_id = a.from_user_id;
    content = Text.◌++◌ "你向群[" (Text.◌++◌ a.group_id "]发送的加群请求被拒绝了");
    js =
        json.assign
          (json.assign
            (json.assign
              (json.assign (json.assign (json.assign_number json.null "msgid" 8) "sender_id" "1")
                "receiver_id" a.from_user_id)
              "content" (Text.◌++◌ "你向群[" (Text.◌++◌ a.group_id "]发送的加群请求被拒绝了")))
            "nickname" "系统消息")
          "timestamp" a.timestamp;
  }

  -- The branch on the response.
  unfoldable pub decide : JoinAnswer → World services → World services
  decide a w =
      if a.response == "accept"
      then insert services group_members
          (("group_id", a.group_id) ∷ ("user_id", a.from_user_id) ∷ [])
          (sadd services (group a.group_id) a.from_user_id w)
      else if a.response == "reject"
      then chatter services (rejection a) w
      else w

  -- The loop that tells the administrators that the request is gone.
  unfoldable pub tell_admins :
      Message services → List Fields → World services → Option (World services)
  tell_admins notice [] w = some w
  tell_admins notice (admin ∷ admins) w =
      at admin "user_id" >>= λ admin_id. tell_admins notice admins (forward_to admin_id notice w)

  unfoldable pub answer_request : JoinAnswer → World services → Option (World services)
  answer_request a w =
      let removed =
        del services group_requests
          (("from_user_id", a.from_user_id) ∷ ("group_id", a.group_id) ∷ []) (decide a w) in
      send_group_list services a.from_user_id removed >>= λ listed.
      tell_admins (request_removed a.from_user_id a.group_id) (admins_of listed a.group_id) listed

  -- `GroupAddResponser::handle`: only an administrator's answer counts.
  unfoldable pub group_add_responser : JoinAnswer → World services → Option (World services)
  group_add_responser a w =
      let rows = member_rows services w a.group_id a.user_id in
      if is_empty rows
      then some w
      else (role_of services rows >>= λ role.
          if role == "member" then some w else answer_request a w)
