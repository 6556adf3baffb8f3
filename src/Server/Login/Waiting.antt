-- ===== src/Server/Login/Waiting.antt =====
-- The answer to a login that is let in, and all that is sent behind it.
use Prim.Native.String.{String}
use mathlib.Core.List.{reverse}
use weee_chatroom.Common.{
  ℕ, ◌<◌, ◌≡◌, refl, ap, ◌∙◌, true, List, [], ◌∷◌, ◌++◌, length, some, append_assoc,
}
use weee_chatroom.Server.Services.{
  Services, Table, friend_requests, group_requests, all_at, has_column,
}
use weee_chatroom.Server.World.{
  World, Message, login_ack, get_connection_ptr, send_json, column_by_id, select,
}
use weee_chatroom.Server.Chat.Logs.{logs_of}
use weee_chatroom.Server.Chat.Delivery.{offline}
use weee_chatroom.Server.Online.{find_conn, get_userid}
use weee_chatroom.Server.Login.{requests_to, send_message_offline, send_waiting, answer_login}
use weee_chatroom.Server.Login.Away.{
  stored_on, same_user, send_requests_lem, send_message_offline_lem,
}

module _ (services : Services) where
  open services use {json, database}

  requests-all_at :
      (t : Table) (w : World services) (user_id : String)
      → has_column t "json" ≡ true
      → all_at (requests_to services t w user_id) "json" ≡ true
  unfolding requests_to select
  requests-all_at t w user_id h =
      database.select_columns w.tables t (("to_user_id", user_id) ∷ []) [] [] "json" h

  same_requests :
      (t : Table) (w w' : World services) (user_id : String)
      → w'.tables ≡ w.tables
      → requests_to services t w' user_id ≡ requests_to services t w user_id
  unfolding requests_to select
  same_requests t w w' user_id e =
      ap (λ s. database.select s t (("to_user_id", user_id) ∷ []) [] []) e

  -- What a login sends behind its answer.
  pub waiting_for : ℕ → String → List String → World services → List (ℕ × Message services)
  waiting_for conn user_id vs w =
      logs_of services conn (requests_to services friend_requests w user_id)
      ++ (stored_on services conn vs
          ++ logs_of services conn (requests_to services group_requests w user_id))

  pub same_waiting :
      (conn : ℕ) (user_id : String) (vs : List String) (w w' : World services)
      → w'.tables ≡ w.tables
      → waiting_for conn user_id vs w' ≡ waiting_for conn user_id vs w
  unfolding waiting_for
  same_waiting conn user_id vs w w' e =
      rw (same_requests friend_requests w w' user_id e, same_requests group_requests w w' user_id e)

  -- The user is online and has been sent all that waited.
  pub record Served (user_id : String) (conn : ℕ) (sent : List (ℕ × Message services))
      (w w' : World services) : Type 0 where
    pub outbox : w'.outbox ≡ w.outbox ++ sent
    pub none_waits : offline services w' user_id ≡ []
    pub same_users : w'.online_users ≡ w.online_users

  pub send_waiting_lem :
      (fuel : ℕ) (vs : List String) (user_id : String) (conn : ℕ) (w : World services)
      → get_connection_ptr services w user_id ≡ some conn
      → offline services w user_id ≡ reverse vs
      → length vs < fuel
      → (w' : World services) × (send_waiting services fuel user_id conn w ≡ some w')
        × Served user_id conn (waiting_for conn user_id vs w) w w'
  unfolding send_waiting waiting_for
  send_waiting_lem fuel vs user_id conn w on waiting h =
      let friends = logs_of services conn (requests_to services friend_requests w user_id) in
      let groups = logs_of services conn (requests_to services group_requests w user_id) in
      let w₁ : World services = record w { outbox = w.outbox ++ friends } in
      let on₁ = same_user services user_id w w₁ refl ∙ on in
      let c = send_message_offline_lem services fuel vs user_id conn conn w₁ on₁ waiting h in
      let w₂ : World services = (send_message_offline services fuel user_id conn w₁).0 in
      let on₂ = same_user services user_id w w₂ c.same_users ∙ on in
      let first =
        send_requests_lem services (requests_to services friend_requests w user_id) user_id conn
          conn w on (requests-all_at friend_requests w user_id refl) in
      let last =
        send_requests_lem services (requests_to services group_requests w₂ user_id) user_id conn
          conn w₂ on₂ (requests-all_at group_requests w₂ user_id refl) in
      (
        record w₂ {
          outbox =
              w₂.outbox ++ logs_of services conn (requests_to services group_requests w₂ user_id);
        },
        rw (first) last,
        record {
          outbox =
              ap (λ r. w₂.outbox ++ logs_of services conn r)
                (same_requests group_requests w w₂ user_id c.same_tables)
              ∙ ap (λ o. o ++ groups) c.sent
              ∙ append_assoc (w.outbox ++ friends) (stored_on services conn vs) groups
              ∙ append_assoc w.outbox friends (stored_on services conn vs ++ groups);
          none_waits = c.none_waits;
          same_users = c.same_users;
        },
      )

  get_userid-find_conn :
      (conn : ℕ) (user_id : String) (w : World services)
      → find_conn w.online_users conn ≡ some user_id
      → get_userid services conn w ≡ user_id
  unfolding get_userid
  get_userid-find_conn conn user_id w e = rw (get_userid, e) refl

  pub same_column :
      (column user_id : String) (w w' : World services)
      → w'.tables ≡ w.tables
      → column_by_id column w' user_id ≡ column_by_id column w user_id
  unfolding column_by_id select
  same_column column user_id w w' e = rw e refl

  -- The answer to a login with code 0.
  pub welcome : String → String → String → ℕ → ℕ × Message services
  welcome email user_id nickname conn = (conn, login_ack email 0 (some (user_id, nickname)))

  pub answer_login_lem :
      (fuel : ℕ) (vs : List String) (email user_id nickname : String) (conn : ℕ)
      (w : World services)
      → get_connection_ptr services w user_id ≡ some conn
      → find_conn w.online_users conn ≡ some user_id
      → column_by_id "nickname" w user_id ≡ some nickname
      → offline services w user_id ≡ reverse vs
      → length vs < fuel
      → (w' : World services) × (answer_login services fuel email conn 0 w ≡ some w')
        × Served user_id conn
            (welcome email user_id nickname conn ∷ waiting_for conn user_id vs w)
            w
            w'
  unfolding answer_login welcome send_json
  answer_login_lem fuel vs email user_id nickname conn w on mine named waiting h =
      let my_id = get_userid-find_conn conn user_id w mine in
      let next = send_json services conn (login_ack email 0 (some (user_id, nickname))) w in
      let (w', e, served) =
        send_waiting_lem fuel vs user_id conn next (same_user services user_id w next refl ∙ on)
          waiting h in
      (
        w',
        rw (answer_login, my_id, named) e,
        record {
          outbox =
              served.outbox
              ∙ append_assoc w.outbox (welcome email user_id nickname conn ∷ [])
                  (waiting_for conn user_id vs next)
              ∙ ap (λ l. w.outbox ++ welcome email user_id nickname conn ∷ l)
                  (same_waiting conn user_id vs w next refl);
          none_waits = served.none_waits;
          same_users = served.same_users;
        },
      )
