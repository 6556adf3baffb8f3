-- ===== src/Server/Group/Members.antt =====
-- Who may take a member out of a group, what that leaves behind, and where it goes wrong.
use Prim.Native.String.{String}
use text.Mathlib.Text.{◌==◌}
use text.Mathlib.TextPositions.{eq_refl}
use weee_chatroom.Common.{
  ◌≡◌, refl, ap, ◌∙◌, ◌⊎◌, inl, inr, Bool, true, false, not, ◌&&◌, ◌||◌, List, [], ◌∷◌, none, some,
  arith, Bool-cases,
}
use weee_chatroom.Server.Services.{
  Services, group, Fields, group_members, groups, group_messages_table,
}
use weee_chatroom.Server.World.{World, is_empty, first_row, sismember, srem, del_key, select, del}
use weee_chatroom.Server.Chat.{GroupChatRequest, group_chatter}
use weee_chatroom.Server.Group.{
  member_rows, role_of, leave, dissolve, exit_as, group_exiter, may_kick, kick_by_roles,
  member_kicker,
}
use weee_chatroom.Server.Group.Listing.{send_group_list_total, send_group_lists_total}

-- `GroupChatter` does nothing with a message of somebody who is no member.
no_member_chatter :
    (services : Services) (r : GroupChatRequest services) (w : World services)
    → sismember services w (group r.group_id) r.sender_id ≡ false
    → group_chatter services r w ≡ w
unfolding group_chatter
no_member_chatter services r w e = rw e refl

same_member :
    (services : Services) (w w' : World services) (group_id user_id : String)
    → w'.cache ≡ w.cache
    → sismember services w' (group group_id) user_id ≡ sismember services w (group group_id) user_id
unfolding sismember
same_member services w w' group_id user_id e =
    ap (λ s. services.redis.sismember s (group group_id) user_id) e

sismember-leave :
    (services : Services) (group_id user_id : String) (w : World services)
    → sismember services (leave services group_id user_id w) (group group_id) user_id ≡ false
unfolding leave srem del sismember
sismember-leave services group_id user_id w = ground (
  arith,
  services.redis.sismember-srem w.cache (group group_id) user_id (group group_id) user_id,
  eq_refl group_id,
  eq_refl user_id,
)

sismember-dissolve :
    (services : Services) (group_id user_id : String) (w : World services)
    → sismember services (dissolve services group_id w) (group group_id) user_id ≡ false
unfolding dissolve del_key del sismember
sismember-dissolve services group_id user_id w = ground (
  arith,
  services.redis.sismember-del w.cache (group group_id) (group group_id) user_id,
  eq_refl group_id,
)

leave-tables :
    (services : Services) (group_id user_id : String) (w : World services)
    → (leave services group_id user_id w).tables
      ≡ (services.database.del w.tables group_members
          (("group_id", group_id) ∷ ("user_id", user_id) ∷ [])).1
unfolding leave srem del
leave-tables services group_id user_id w = refl

-- Once a DELETE of the user's row has been tried, it has failed or there is none.
no_row :
    (services : Services) (group_id user_id : String) (w w' : World services)
    → let deleted =
        services.database.del w.tables group_members
          (("group_id", group_id) ∷ ("user_id", user_id) ∷ []) in
      w'.tables ≡ deleted.1 → (deleted.0 ≡ false) ⊎ (member_rows services w' group_id user_id ≡ [])
unfolding member_rows select
no_row services group_id user_id w w' e =
    let conditions = ("group_id", group_id) ∷ ("user_id", user_id) ∷ [] in
    elim (Bool-cases (services.database.del w.tables group_members conditions).0) [
      | inr failed ↦ inl failed
      | inl ok ↦ inr (
          ap (λ s. services.database.select s group_members conditions [] []) e
          ∙ services.database.select-del w.tables group_members conditions ok)
    ]

role_of_row :
    (services : Services) (rows : List Fields) (role : String)
    → role_of services rows ≡ some role
    → is_empty rows ≡ false
unfolding role_of first_row is_empty
role_of_row services [] role h = ground (arith, h)
role_of_row services (row ∷ rows) role h = refl

kick_oneself :
    (services : Services) (kick_user_id user_id group_id : String) (w : World services)
    → (kick_user_id == user_id) ≡ true
    → member_kicker services kick_user_id user_id group_id w ≡ some w
unfolding member_kicker
kick_oneself services kick_user_id user_id group_id w e = rw e refl

member_kicker_by_roles :
    (services : Services) (kick_user_id user_id group_id role kick_role : String)
    (w : World services)
    → (kick_user_id == user_id) ≡ false
    → role_of services (member_rows services w group_id user_id) ≡ some role
    → role_of services (member_rows services w group_id kick_user_id) ≡ some kick_role
    → member_kicker services kick_user_id user_id group_id w
      ≡ kick_by_roles services role kick_role group_id kick_user_id w
unfolding member_kicker
member_kicker_by_roles services kick_user_id user_id group_id role kick_role w d h k =
    let there = role_of_row services (member_rows services w group_id user_id) role h in
    rw (d, there, h, k) refl

-- Whether a request to kick is carried out: it is about another user, who is a plain member where
-- the one who asks is not the owner, and the one who asks is no plain member.
abbrev pub kicks : String → String → String → String → Bool
kicks kick_user_id user_id role kick_role =
    not (kick_user_id == user_id)
    && ((role == "owner") || ((kick_role == "member") && not (role == "member")))

kicks_by_roles :
    (services : Services) (kick_user_id user_id role kick_role : String)
    → (kick_user_id == user_id) ≡ false
    → kicks kick_user_id user_id role kick_role ≡ may_kick services role kick_role
unfolding may_kick
kicks_by_roles services kick_user_id user_id role kick_role d = ground (
  arith,
  d,
  Bool-cases (role == "member"),
  Bool-cases (kick_role == "member"),
  Bool-cases (role == "owner"),
)

-- `MemberKicker` for a user of a group, where that user and the one who asks have a row: if the roles
-- allow it, the user is not in the set of the group in Redis afterwards, MySQL has been told to delete
-- the user's row from group_members and nothing else, so that no row of the user is found unless that
-- statement has failed, and `GroupChatter` does nothing with a message of the user; otherwise nothing
-- changes.
pub member_kicker_lem :
    (services : Services) (r : GroupChatRequest services) (user_id role kick_role : String)
    (w : World services)
    → role_of services (member_rows services w r.group_id user_id) ≡ some role
    → role_of services (member_rows services w r.group_id r.sender_id) ≡ some kick_role
    → let deleted =
        services.database.del w.tables group_members
          (("group_id", r.group_id) ∷ ("user_id", r.sender_id) ∷ []) in
      ((kicks r.sender_id user_id role kick_role ≡ true)
        × ((w' : World services) × (member_kicker services r.sender_id user_id r.group_id w
              ≡ some w')
            × (sismember services w' (group r.group_id) r.sender_id ≡ false)
            × (w'.tables ≡ deleted.1)
            × ((deleted.0 ≡ false) ⊎ (member_rows services w' r.group_id r.sender_id ≡ []))
            × (group_chatter services r w' ≡ w')))
      ⊎ ((kicks r.sender_id user_id role kick_role ≡ false)
          × (member_kicker services r.sender_id user_id r.group_id w ≡ some w))
unfolding kick_by_roles
member_kicker_lem services r user_id role kick_role w h k =
    let g = r.group_id in
    let kicked = r.sender_id in
    elim (Bool-cases (kicked == user_id)) [
      | inl self ↦ inr (rw self refl, kick_oneself services kicked user_id g w self)
      | inr other ↦
          let by_roles =
            member_kicker_by_roles services kicked user_id g role kick_role w other h k in
          let same_test = kicks_by_roles services kicked user_id role kick_role other in
          elim (Bool-cases (may_kick services role kick_role)) [
            | inr refused ↦ inr (same_test ∙ refused, rw by_roles (rw refused refl))
            | inl allowed ↦
                let (w', e, same, tables) =
                  send_group_list_total services kicked (leave services g kicked w) in
                let told = tables ∙ leave-tables services g kicked w in
                let gone =
                  same_member services (leave services g kicked w) w' g kicked same
                  ∙ sismember-leave services g kicked w in
                inl (
                  same_test ∙ allowed,
                  (
                    w',
                    rw by_roles (rw allowed e),
                    gone,
                    told,
                    no_row services g kicked w w' told,
                    no_member_chatter services r w' gone,
                  ),
                )
          ]
    ]

no_role : (services : Services) → role_of services [] ≡ none
unfolding role_of first_row
no_role services = refl

-- `MemberKicker` indexes an empty result, `kick_result[0]`, where somebody who has a row in the group
-- asks for another user who has none.
pub member_kicker_fault :
    (services : Services) (kick_user_id user_id group_id role : String) (w : World services)
    → (kick_user_id == user_id) ≡ false
    → role_of services (member_rows services w group_id user_id) ≡ some role
    → member_rows services w group_id kick_user_id ≡ []
    → member_kicker services kick_user_id user_id group_id w ≡ none
unfolding member_kicker
member_kicker_fault services kick_user_id user_id group_id role w d h e =
    let there = role_of_row services (member_rows services w group_id user_id) role h in
    rw (d, there, h, e, no_role services) refl

-- `GroupExiter` for the owner always returns; from then on the set of the group in Redis has no member,
-- MySQL has been told to delete the members, the messages and then the group itself, and nothing else,
-- and `GroupChatter` does nothing with a message to the group.
pub group_exiter_owner :
    (services : Services) (r : GroupChatRequest services) (user_id : String) (w : World services)
    → role_of services (member_rows services w r.group_id user_id) ≡ some "owner"
    → let members = services.database.del w.tables group_members (("group_id", r.group_id) ∷ []) in
      let history =
        services.database.del members.1 group_messages_table (("group_id", r.group_id) ∷ []) in
      (w' : World services) × (group_exiter services r.group_id user_id w ≡ some w')
      × ((v : String) → sismember services w' (group r.group_id) v ≡ false)
      × (w'.tables ≡ (services.database.del history.1 groups (("id", r.group_id) ∷ [])).1)
      × (group_chatter services r w' ≡ w')
unfolding group_exiter exit_as select dissolve del del_key
group_exiter_owner services r user_id w h =
    let conditions = ("group_id", r.group_id) ∷ [] in
    let rows = select services w group_members conditions in
    let gone = dissolve services r.group_id w in
    let (w', e, same, tables) =
      send_group_lists_total services rows gone
        (services.database.select_columns w.tables group_members conditions [] [] "user_id" refl) in
    let empty = λ (v : String).
      same_member services gone w' r.group_id v same ∙ sismember-dissolve services r.group_id v w in
    (w', rw h e, empty, tables, no_member_chatter services r w' (empty r.sender_id))
