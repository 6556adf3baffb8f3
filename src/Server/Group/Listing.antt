-- ===== src/Server/Group/Listing.antt =====
-- The group list is always made and sent: no row that it reads lacks a column.
use Prim.Native.String.{String}
use weee_chatroom.Common.{
  ◌≡◌, refl, ◌∙◌, true, List, [], ◌∷◌, some, arith, Option-cases, Bool-cases, inl, inr,
}
use weee_chatroom.Server.Services.{Services, Fields, at, all_at, groups, group_members}
use weee_chatroom.Server.World.{
  World, group_list, is_empty, get_connection_ptr, send_json, select, select_in,
}
use weee_chatroom.Server.Group.{
  group_ids, get_groups_info, to_groups, send_group_list, send_group_lists,
}

group_ids_total :
    (services : Services) (rows : List Fields)
    → all_at rows "group_id" ≡ true
    → (ids : List String) × (group_ids services rows ≡ some ids)
unfolding group_ids
group_ids_total services [] h = ([], refl)
group_ids_total services (row ∷ rows) h = elim (Option-cases (at row "group_id")) [
  | inl missing ↦ ground (arith, missing, h)
  | inr (v, e) ↦
      let (ids, found) = group_ids_total services rows (ground (arith, e, h)) in
      (v ∷ ids, rw (e, found) refl)
]

to_groups_total :
    (services : Services) (rows : List Fields)
    → all_at rows "id" ≡ true
    → all_at rows "name" ≡ true
    → (gs : List (String × String)) × (to_groups services rows ≡ some gs)
unfolding to_groups
to_groups_total services [] h g = ([], refl)
to_groups_total services (row ∷ rows) h g = elim (Option-cases (at row "id")) [
  | inl missing ↦ ground (arith, missing, h)
  | inr (id, e) ↦ elim (Option-cases (at row "name")) [
    | inl missing ↦ ground (arith, missing, g)
    | inr (name, f) ↦
        let (gs, found) =
          to_groups_total services rows (ground (arith, e, h)) (ground (arith, f, g)) in
        ((id, name) ∷ gs, rw (e, f, found) refl)
  ]
]

get_groups_info_total :
    (services : Services) (w : World services) (user_id : String)
    → let rows_of = select services w group_members (("user_id", user_id) ∷ []) in
      (rows : List Fields) × (get_groups_info services w rows_of ≡ some rows)
      × (all_at rows "id" ≡ true)
      × (all_at rows "name" ≡ true)
unfolding get_groups_info select select_in
get_groups_info_total services w user_id =
    let rows_of = select services w group_members (("user_id", user_id) ∷ []) in
    let columns = services.database.select_columns w.tables in
    elim (Bool-cases (is_empty rows_of)) [
      | inl none_yet ↦ ([], rw none_yet refl, refl, refl)
      | inr some_there ↦
          let (ids, found) =
            group_ids_total services rows_of
              (columns group_members (("user_id", user_id) ∷ []) [] [] "group_id" refl) in
          (
            select_in services w groups [] (("id", ids) ∷ []),
            rw (some_there, found) refl,
            columns groups [] (("id", ids) ∷ []) [] "id" refl,
            columns groups [] (("id", ids) ∷ []) [] "name" refl,
          )
    ]

pub send_group_list_total :
    (services : Services) (user_id : String) (w : World services)
    → (w' : World services) × (send_group_list services user_id w ≡ some w')
      × (w'.cache ≡ w.cache)
      × (w'.tables ≡ w.tables)
unfolding send_json send_group_list
send_group_list_total services user_id w =
    elim (Option-cases (get_connection_ptr services w user_id)) [
      | inl off ↦ (w, rw (off, send_group_list) refl, refl, refl)
      | inr (conn, on) ↦
          let (rows, e, id_there, name_there) = get_groups_info_total services w user_id in
          let (gs, f) = to_groups_total services rows id_there name_there in
          (
            send_json services conn (group_list gs) w,
            rw (on, send_group_list, e, f) refl,
            refl,
            refl,
          )
    ]

pub send_group_lists_total :
    (services : Services) (rows : List Fields) (w : World services)
    → all_at rows "user_id" ≡ true
    → (w' : World services) × (send_group_lists services rows w ≡ some w')
      × (w'.cache ≡ w.cache)
      × (w'.tables ≡ w.tables)
unfolding send_group_lists
send_group_lists_total services [] w h = (w, refl, refl, refl)
send_group_lists_total services (row ∷ rows) w h = elim (Option-cases (at row "user_id")) [
  | inl missing ↦ ground (arith, missing, h)
  | inr (id, e) ↦
      let (w₁, f, same, tables) = send_group_list_total services id w in
      let (w₂, g, still, tables_still) =
        send_group_lists_total services rows w₁ (ground (arith, e, h)) in
      (w₂, rw (e, f, g) refl, still ∙ same, tables_still ∙ tables)
]
