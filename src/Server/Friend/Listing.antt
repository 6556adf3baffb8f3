-- ===== src/Server/Friend/Listing.antt =====
-- The friend list is always made and sent: no row that it reads lacks a column.
use Prim.Native.String.{String}
use weee_chatroom.Common.{
  ℕ, ◌≡◌, refl, sym, true, List, [], ◌∷◌, ◌++◌, some, arith, append-nil, Option-cases, Bool-cases,
  inl, inr,
}
use weee_chatroom.Server.Services.{Services, blacklist, Fields, at, all_at, friends_table, users}
use weee_chatroom.Server.World.{
  World, Message, is_empty, get_connection_ptr, send_json, sismember, select, select_in,
  FriendEntry, friend_list,
}
use weee_chatroom.Server.Friend.{
  get_friends_id, id_list, get_friends_info, is_online, to_entry, to_entries, send_friend_list,
}

-- The loops over rows that have the columns find them.
id_list_total :
    (services : Services) (rows : List Fields)
    → all_at rows "friend_id" ≡ true
    → (ids : List String) × (id_list services rows ≡ some ids)
unfolding id_list
id_list_total services [] h = ([], refl)
id_list_total services (row ∷ rows) h = elim (Option-cases (at row "friend_id")) [
  | inl missing ↦ ground (arith, missing, h)
  | inr (v, e) ↦
      let (ids, found) = id_list_total services rows (ground (arith, e, h)) in
      (v ∷ ids, rw (e, found) refl)
]

to_entry_total :
    (services : Services) (w : World services) (user_id : String) (row : Fields)
    (id nickname : String)
    → at row "id" ≡ some id
    → at row "nickname" ≡ some nickname
    → to_entry services w user_id row
      ≡ some (record {
        id = id;
        nickname = nickname;
        is_blocked = sismember services w (blacklist id) user_id;
        is_online = is_online services w id;
      })
unfolding to_entry
to_entry_total services w user_id row id nickname e f = rw (e, f) refl

to_entries_total :
    (services : Services) (w : World services) (user_id : String) (rows : List Fields)
    → all_at rows "id" ≡ true
    → all_at rows "nickname" ≡ true
    → (us : List FriendEntry) × (to_entries services w user_id rows ≡ some us)
unfolding to_entries
to_entries_total services w user_id [] h g = ([], refl)
to_entries_total services w user_id (row ∷ rows) h g = elim (Option-cases (at row "id")) [
  | inl missing ↦ ground (arith, missing, h)
  | inr (id, e) ↦ elim (Option-cases (at row "nickname")) [
    | inl missing ↦ ground (arith, missing, g)
    | inr (nickname, f) ↦
        let (us, found) =
          to_entries_total services w user_id rows (ground (arith, e, h)) (ground (arith, f, g)) in
        let u : FriendEntry = record {
          id = id;
          nickname = nickname;
          is_blocked = sismember services w (blacklist id) user_id;
          is_online = is_online services w id;
        } in
        (u ∷ us, rw (to_entry_total services w user_id row id nickname e f, found) refl)
  ]
]

-- What `sendFriendList` leaves as it was.
pub record Listed (services : Services) (w w' : World services) : Type 0 where
  pub same_cache : w'.cache ≡ w.cache
  pub same_tables : w'.tables ≡ w.tables
  pub same_users : w'.online_users ≡ w.online_users
  pub sent : (rest : List (ℕ × Message services)) × (w'.outbox ≡ w.outbox ++ rest)

get_friends_info_total :
    (services : Services) (w : World services) (user_id : String)
    → (rows : List Fields) × (get_friends_info services w (get_friends_id services w user_id)
        ≡ some rows)
      × (all_at rows "id" ≡ true)
      × (all_at rows "nickname" ≡ true)
unfolding get_friends_info get_friends_id select select_in
get_friends_info_total services w user_id =
    elim (Bool-cases (is_empty (get_friends_id services w user_id))) [
      | inl none_yet ↦ ([], rw none_yet refl, refl, refl)
      | inr some_there ↦
          let (ids, found) = id_list_total services (get_friends_id services w user_id) (
            services.database.select_columns w.tables friends_table
              (("status", "accepted") ∷ ("user_id", user_id) ∷ []) [] [] "friend_id" refl) in
          (
            select_in services w users [] (("id", ids) ∷ []),
            rw (some_there, found) refl,
            services.database.select_columns w.tables users [] (("id", ids) ∷ []) [] "id" refl,
            services.database.select_columns w.tables users [] (("id", ids) ∷ []) [] "nickname"
                refl,
          )
    ]

pub send_friend_list_total :
    (services : Services) (user_id : String) (w : World services)
    → (w' : World services) × (send_friend_list services user_id w ≡ some w') × Listed services w w'
unfolding send_json send_friend_list
send_friend_list_total services user_id w =
    elim (Option-cases (get_connection_ptr services w user_id)) [
      | inl off ↦ (
        w,
        rw (off, send_friend_list) refl,
        record {
          same_cache = refl;
          same_tables = refl;
          same_users = refl;
          sent = ([], sym (append-nil w.outbox));
        },
      )
      | inr (conn, on) ↦
          let (rows, e, id_there, nickname_there) = get_friends_info_total services w user_id in
          let (entries, f) = to_entries_total services w user_id rows id_there nickname_there in
          (
            send_json services conn (friend_list entries) w,
            rw (on, send_friend_list, e, f) refl,
            record {
              same_cache = refl;
              same_tables = refl;
              same_users = refl;
              sent = ((conn, friend_list entries) ∷ [], refl);
            },
          )
    ]
