-- ===== src/Server/Group/Joining.antt =====
-- Whose answers to a request count, and what an acceptance does.
use Prim.Native.String.{String}
use text.Mathlib.Text.{◌==◌}
use text.Mathlib.TextPositions.{eq_refl}
use weee_chatroom.Common.{
  ◌≡◌, refl, ap, ◌∙◌, ◌⊎◌, inl, inr, Bool, true, false, not, List, [], ◌∷◌, none, some, arith,
  Option-cases, Bool-cases,
}
use weee_chatroom.Server.Services.{
  Services, group, Fields, at, all_at, group_members, group_requests,
}
use weee_chatroom.Server.World.{
  World, Message, request_removed, is_empty, first_row, get_connection_ptr, send_json, sismember,
  sadd, select, select_in, insert, del,
}
use weee_chatroom.Server.Group.{member_rows, role_of}
use weee_chatroom.Server.Group.Listing.{send_group_list_total}
use weee_chatroom.Server.Group.Requests.{
  forward_to, admins_of, JoinAnswer, decide, tell_admins, answer_request, group_add_responser,
}

-- The row of an administrator: there is one, and it is not the one of a plain member.
pub is_admin : (services : Services) → List Fields → Bool
is_admin services rows = elim (role_of services rows) [
  | some role ↦ not (role == "member")
  | none ↦ false
]

forward_to_rest :
    (services : Services) (user_id : String) (m : Message services) (w : World services)
    → ((forward_to services user_id m w).cache ≡ w.cache)
      × ((forward_to services user_id m w).tables ≡ w.tables)
unfolding forward_to send_json
forward_to_rest services user_id m w = elim (Option-cases (get_connection_ptr services w user_id)) [
  | inl off ↦ rw (off, forward_to) (refl, refl)
  | inr (target, on) ↦ rw (on, forward_to) (refl, refl)
]

tell_admins_total :
    (services : Services) (m : Message services) (rows : List Fields) (w : World services)
    → all_at rows "user_id" ≡ true
    → (w' : World services) × (tell_admins services m rows w ≡ some w')
      × (w'.cache ≡ w.cache)
      × (w'.tables ≡ w.tables)
unfolding tell_admins
tell_admins_total services m [] w h = (w, refl, refl, refl)
tell_admins_total services m (row ∷ rows) w h = elim (Option-cases (at row "user_id")) [
  | inl missing ↦ ground (arith, missing, h)
  | inr (id, e) ↦
      let (w', f, same, tables) =
        tell_admins_total services m rows (forward_to services id m w) (ground (arith, e, h)) in
      let (first, tables_first) = forward_to_rest services id m w in
      (w', rw (e, f) refl, same ∙ first, tables ∙ tables_first)
]

decide_accept :
    (services : Services) (a : JoinAnswer services) (w : World services)
    → (a.response == "accept") ≡ true
    → sismember services (decide services a w) (group a.group_id) a.from_user_id ≡ true
unfolding decide insert sadd sismember
decide_accept services a w h = ground (
  arith,
  h,
  services.redis.sismember-sadd w.cache (group a.group_id) a.from_user_id (group a.group_id)
      a.from_user_id,
  eq_refl a.group_id,
  eq_refl a.from_user_id,
)

-- The new row of the member, and then the DELETE of the requests.
pub joined : (services : Services) → JoinAnswer services → World services → services.database.State
joined services a w =
    (services.database.del
      (services.database.insert w.tables group_members
        (("group_id", a.group_id) ∷ ("user_id", a.from_user_id) ∷ [])).1
      group_requests (("from_user_id", a.from_user_id) ∷ ("group_id", a.group_id) ∷ [])).1

decide_accept_tables :
    (services : Services) (a : JoinAnswer services) (w : World services)
    → (a.response == "accept") ≡ true
    → (decide services a w).tables
      ≡ (services.database.insert w.tables group_members
          (("group_id", a.group_id) ∷ ("user_id", a.from_user_id) ∷ [])).1
unfolding decide insert sadd
decide_accept_tables services a w h = rw (h, decide) refl

answer_request_accept :
    (services : Services) (a : JoinAnswer services) (w : World services)
    → (a.response == "accept") ≡ true
    → (w' : World services) × (answer_request services a w ≡ some w')
      × (sismember services w' (group a.group_id) a.from_user_id ≡ true)
      × (w'.tables ≡ joined services a w)
unfolding answer_request admins_of select_in sismember del joined
answer_request_accept services a w h =
    let conditions = ("from_user_id", a.from_user_id) ∷ ("group_id", a.group_id) ∷ [] in
    let removed = del services group_requests conditions (decide services a w) in
    let (listed, e, same, tables) = send_group_list_total services a.from_user_id removed in
    let (w', f, still, tables_still) =
      tell_admins_total services (request_removed a.from_user_id a.group_id)
        (admins_of services listed a.group_id) listed
        (services.database.select_columns listed.tables group_members
          (("group_id", a.group_id) ∷ []) (("role", "admin" ∷ "owner" ∷ []) ∷ []) [] "user_id"
          refl) in
    (
      w',
      rw (e, f) refl,
      ap (λ s. services.redis.sismember s (group a.group_id) a.from_user_id) (still ∙ same)
          ∙ decide_accept services a w h,
      tables_still
          ∙ tables
          ∙ ap (λ s. (services.database.del s group_requests conditions).1)
              (decide_accept_tables services a w h),
    )

role_there :
    (services : Services) (rows : List Fields)
    → all_at rows "role" ≡ true
    → is_empty rows ≡ false
    → (role : String) × (role_of services rows ≡ some role)
unfolding role_of first_row is_empty
role_there services [] h e = ground (arith, e)
role_there services (row ∷ rows) h e = elim (Option-cases (at row "role")) [
  | inl missing ↦ ground (arith, missing, h)
  | inr (role, found) ↦ (role, found)
]

row_columns :
    (services : Services) (w : World services) (group_id user_id : String)
    → all_at (member_rows services w group_id user_id) "role" ≡ true
unfolding member_rows select
row_columns services w group_id user_id =
    services.database.select_columns w.tables group_members
      (("group_id", group_id) ∷ ("user_id", user_id) ∷ []) [] [] "role" refl

nobody_is_admin :
    (services : Services) (rows : List Fields)
    → is_empty rows ≡ true
    → is_admin services rows ≡ false
unfolding is_admin role_of first_row is_empty
nobody_is_admin services [] e = refl
nobody_is_admin services (row ∷ rows) e = ground (arith, e)

-- `GroupAddResponser` with "accept" always returns: if the one who answers is an administrator of the
-- group, the user who asked is in the set of the group in Redis then, and what MySQL has been told is
-- the insertion of the user's row into group_members and then the deletion of the user's requests for
-- the group; otherwise nothing changes.
pub group_add_responser_accept :
    (services : Services) (a : JoinAnswer services) (w : World services)
    → (a.response == "accept") ≡ true
    → let admin = is_admin services (member_rows services w a.group_id a.user_id) in
      (w' : World services) × (group_add_responser services a w ≡ some w')
      × (((admin ≡ true)
            × (sismember services w' (group a.group_id) a.from_user_id ≡ true)
            × (w'.tables ≡ joined services a w))
          ⊎ ((admin ≡ false) × (w' ≡ w)))
unfolding group_add_responser is_admin
group_add_responser_accept services a w h =
    let rows = member_rows services w a.group_id a.user_id in
    elim (Bool-cases (is_empty rows)) [
      | inl nobody ↦ (w, rw nobody refl, inr (nobody_is_admin services rows nobody, refl))
      | inr somebody ↦
          let (role, e) =
            role_there services rows (row_columns services w a.group_id a.user_id) somebody in
          elim (Bool-cases (role == "member")) [
            | inl plain ↦
                (w, rw (somebody, e, plain) refl, inr (rw (is_admin, e, plain) refl, refl))
            | inr admin ↦
                let (w', f, member, tables) = answer_request_accept services a w h in
                (w', rw (somebody, e, admin) f, inl (rw (is_admin, e, admin) refl, member, tables))
          ]
    ]
