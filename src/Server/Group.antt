-- ===== src/Server/Group.antt =====
-- server/handler/Group.cc: groups, their members and the members' roles. The fields of a request are
-- given as strings.
pub mod Listing
pub mod Members
pub mod Requests
pub mod Joining
use Prim.Native.String.{String}
use Prim.Native.String as Text
use text.Mathlib.Text.{◌==◌}
use weee_chatroom.Common.{
  ℕ, Bool, true, false, not, ◌&&◌, ◌||◌, List, [], ◌∷◌, Option, none, some, if◌then◌else◌,
}
use weee_chatroom.Server.Services.{
  Services, Key, group, Fields, at, Table, users, groups, group_members, group_requests,
  group_messages_table,
}
use weee_chatroom.Server.World.{
  World, Message, MsgType, add_group_ack, response, relay, group_list, group_info, request_removed,
  is_empty, first_row, ◌>>=◌, get_connection_ptr, send_json, sismember, sadd, srem, del_key, select,
  select_in, insert, del, update,
}
use weee_chatroom.Server.Chat.{ChatRequest, chatter}

module _ (services : Services) where
  open services use {redis, database, json}

  -- `GroupCreater::handle`
  unfoldable pub group_creater : String → String → String → World services → World services
  group_creater creator_id name description w =
      let created =
        insert services groups
          (("creator_id", creator_id) ∷ ("name", name) ∷ ("description", description) ∷ []) w in
      let group_id = database.insert_id created.tables in
      insert services group_members
        (("group_id", group_id) ∷ ("role", "owner") ∷ ("user_id", creator_id) ∷ [])
        (sadd services (group group_id) creator_id created)

  -- The loop of `getGroupsInfo` over the rows: their group_id.
  unfoldable pub group_ids : List Fields → Option (List String)
  group_ids [] = some []
  group_ids (row ∷ rows) = at row "group_id" >>= λ id. (group_ids rows >>= λ ids. some (id ∷ ids))

  -- `GroupLister::getGroupsInfo`
  unfoldable pub get_groups_info : World services → List Fields → Option (List Fields)
  get_groups_info w groups_id =
      if is_empty groups_id
      then some []
      else (group_ids groups_id >>= λ ids. some (select_in services w groups [] (("id", ids) ∷ [])))

  -- The loop of `sendGroupList`.
  unfoldable pub to_groups : List Fields → Option (List (String × String))
  to_groups [] = some []
  to_groups (row ∷ rows) = at row "id" >>= λ id.
      (at row "name" >>= λ name. (to_groups rows >>= λ gs. some ((id, name) ∷ gs)))

  -- `GroupLister::sendGroupList`
  unfoldable pub send_group_list : String → World services → Option (World services)
  send_group_list user_id w = elim (get_connection_ptr services w user_id) [
    | none ↦ some w
    | some conn ↦
        get_groups_info w (select services w group_members (("user_id", user_id) ∷ [])) >>= λ rows.
        (to_groups rows >>= λ gs. some (send_json services conn (group_list gs) w))
  ]

  -- The row of a member, as the handlers look for it.
  unfoldable pub member_rows : World services → String → String → List Fields
  member_rows w group_id user_id =
      select services w group_members (("group_id", group_id) ∷ ("user_id", user_id) ∷ [])

  -- `rows[0].at("role")`
  unfoldable pub role_of : List Fields → Option String
  role_of rows = first_row rows >>= λ row. at row "role"

  -- `GroupExiter::handle` for a member or an admin
  unfoldable pub leave : String → String → World services → World services
  leave group_id user_id w =
      del services group_members (("group_id", group_id) ∷ ("user_id", user_id) ∷ [])
        (srem services (group group_id) user_id w)

  -- and for the owner.
  unfoldable pub dissolve : String → World services → World services
  dissolve group_id w =
      let cached = del_key services (group group_id) w in
      let members = del services group_members (("group_id", group_id) ∷ []) cached in
      let history = del services group_messages_table (("group_id", group_id) ∷ []) members in
      del services groups (("id", group_id) ∷ []) history

  -- The loop over the members of a group that is gone.
  unfoldable pub send_group_lists : List Fields → World services → Option (World services)
  send_group_lists [] w = some w
  send_group_lists (row ∷ rows) w =
      at row "user_id" >>= λ id. (send_group_list id w >>= send_group_lists rows)

  unfoldable pub exit_as : String → String → String → World services → Option (World services)
  exit_as role group_id user_id w =
      if (role == "member") || (role == "admin")
      then some (leave group_id user_id w)
      else if role == "owner"
      then send_group_lists (select services w group_members (("group_id", group_id) ∷ []))
          (dissolve group_id w)
      else some w

  -- `GroupExiter::handle`
  unfoldable pub group_exiter : String → String → World services → Option (World services)
  group_exiter group_id user_id w =
      role_of (member_rows w group_id user_id) >>= λ role. exit_as role group_id user_id w

  -- Who may be kicked by whom, by their roles.
  unfoldable pub may_kick : String → String → Bool
  may_kick role kick_role = (not (role == "member") && (kick_role == "member")) || (role == "owner")

  unfoldable pub kick_by_roles :
      String → String → String → String → World services → Option (World services)
  kick_by_roles role kick_role group_id kick_user_id w =
      if may_kick role kick_role
      then send_group_list kick_user_id (leave group_id kick_user_id w)
      else some w

  -- `MemberKicker::handle`
  unfoldable pub member_kicker : String → String → String → World services → Option (World services)
  member_kicker kick_user_id user_id group_id w =
      if kick_user_id == user_id
      then some w
      else if is_empty (member_rows w group_id user_id)
      then some w
      else (role_of (member_rows w group_id user_id) >>= λ role.
          (role_of (member_rows w group_id kick_user_id) >>= λ kick_role.
          kick_by_roles role kick_role group_id kick_user_id w))

  unfoldable pub change_role :
      String → String → String → String → String → World services → Option (World services)
  change_role from_role to_role to_user_id group_id user_id w =
      let owned = select services w groups (("creator_id", user_id) ∷ ("id", group_id) ∷ []) in
      role_of (member_rows w group_id to_user_id) >>= λ role. some (
        if not (is_empty owned) && not (to_user_id == user_id) && (role == from_role)
        then update services group_members (("role", to_role) ∷ [])
            (("group_id", group_id) ∷ ("user_id", to_user_id) ∷ []) w
        else w)

  -- `AdminAdder::handle`
  unfoldable pub admin_adder : String → String → String → World services → Option (World services)
  admin_adder = change_role "member" "admin"

  -- `AdminRemover::handle`
  unfoldable pub admin_remover : String → String → String → World services → Option (World services)
  admin_remover = change_role "admin" "member"

  -- The loop of `GroupInfoSender::handle`.
  unfoldable pub members_info :
      World services → List Fields → Option (List (String × String × String))
  members_info w [] = some []
  members_info w (row ∷ rows) = at row "user_id" >>= λ user_id.
      (at row "role" >>= λ role.
      (first_row (select services w users (("id", user_id) ∷ [])) >>= λ user.
      (at user "nickname" >>= λ nickname.
      (members_info w rows >>= λ ms. some ((user_id, role, nickname) ∷ ms)))))

  -- `GroupInfoSender::handle`
  unfoldable pub group_info_sender : ℕ → String → World services → Option (World services)
  group_info_sender conn group_id w =
      members_info w (select services w group_members (("group_id", group_id) ∷ [])) >>= λ ms.
      some (send_json services conn (group_info ms) w)
