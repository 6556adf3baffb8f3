-- ===== src/Server/Login/Whole.antt =====
-- A whole login: the answer, then the requests, and the messages that came while the user was away.
use Prim.Native.String.{String}
use text.Mathlib.Text.{◌==◌}
use text.Mathlib.TextPositions.{eq_refl}
use mathlib.Core.List.{reverse, reverse-cons}
use weee_chatroom.Common.{
  ℕ, ◌<◌, ◌≡◌, refl, inl, inr, Option-cases, sym, ap, ◌∙◌, true, List, [], ◌∷◌, ◌++◌, length, none,
  some, arith, append_assoc, map, append-nil, length-map,
}
use weee_chatroom.Server.Services.{Services, Fields, users}
use weee_chatroom.Server.World.{
  World, get_connection_ptr, send_json, entry, column_by_id, select, lpush,
}
use weee_chatroom.Server.Chat.{deliver}
use weee_chatroom.Server.Chat.Delivery.{offline, deliver-Delivered}
use weee_chatroom.Server.Online.{find_conn, set_user}
use weee_chatroom.Server.Login.{accounts, verify_account, check_password, loginer}
use weee_chatroom.Server.Login.Account.{find_conn-set_user, id_by_email-entry, entered}
use weee_chatroom.Server.Login.Waiting.{
  waiting_for, same_waiting, same_column, welcome, answer_login_lem,
}
use weee_chatroom.Server.Login.Away.{same_user}

module _ (services : Services) where
  open services use {json, database}

  -- The delivery part of `Chatter`, from `getConnectionPtr` to LPUSH, for one message after the other to
  -- the same user; the tests of friendship before it and the RPUSH after it are not part of it.
  abbrev pub deliver_all : String → List json.Json → World services → World services
  deliver_all user_id [] w = w
  deliver_all user_id (js ∷ list) w = deliver_all user_id list (deliver services user_id js w)

  -- The messages wait, the latest first, and nothing else of what a login reads has changed.
  record Kept (user_id : String) (list : List json.Json) (w w' : World services) : Type 0 where
    waiting :
        offline services w' user_id ≡ reverse (map json.dump list) ++ offline services w user_id
    same_users : w'.online_users ≡ w.online_users
    same_outbox : w'.outbox ≡ w.outbox
    same_tables : w'.tables ≡ w.tables

  tables-deliver :
      (user_id : String) (js : json.Json) (w : World services)
      → (deliver services user_id js w).tables ≡ w.tables
  unfolding deliver send_json lpush
  tables-deliver user_id js w = elim (Option-cases (get_connection_ptr services w user_id)) [
    | inl off ↦ rw (deliver, off) refl
    | inr (target, on) ↦ rw (deliver, on) refl
  ]

  deliver_all-Kept :
      (user_id : String) (list : List json.Json) (w : World services)
      → get_connection_ptr services w user_id ≡ none
      → Kept user_id list w (deliver_all user_id list w)
  deliver_all-Kept user_id [] w off = record {
    waiting = refl;
    same_users = refl;
    same_outbox = refl;
    same_tables = refl;
  }
  deliver_all-Kept user_id (js ∷ list) w off =
      let next = deliver services user_id js w in
      let d = deliver-Delivered services user_id js w in
      let (outbox, waits) = d.kept off in
      let rest =
        deliver_all-Kept user_id list next (same_user services user_id w next d.same_users ∙ off) in
      record {
        waiting =
            rest.waiting
            ∙ ap (λ l. reverse (map json.dump list) ++ l) waits
            ∙ sym (
                append_assoc (reverse (map json.dump list)) (json.dump js ∷ [])
                  (offline services w user_id))
            ∙ ap (λ l. l ++ offline services w user_id)
                (sym (reverse-cons (json.dump js) (map json.dump list)));
        same_users = rest.same_users ∙ d.same_users;
        same_outbox = rest.same_outbox ∙ outbox;
        same_tables = rest.same_tables ∙ tables-deliver user_id js w;
      }

  same_accounts :
      (email : String) (w w' : World services)
      → w'.tables ≡ w.tables
      → accounts services w' email ≡ accounts services w email
  unfolding accounts select
  same_accounts email w w' e =
      ap (λ s. database.select s users (("email", email) ∷ ("state", "alive") ∷ []) [] []) e

  abbrev logged_in : String → ℕ → World services → World services
  logged_in user_id conn w = record w { online_users = set_user user_id conn w.online_users }

  verify_account-logged_in :
      (email password : String) (row : Fields) (rows : List Fields) (conn : ℕ) (w : World services)
      → accounts services w email ≡ row ∷ rows
      → (entry row "password" == password) ≡ true
      → get_connection_ptr services w (entry row "id") ≡ none
      → verify_account services email password conn w ≡ (0, logged_in (entry row "id") conn w)
  unfolding verify_account check_password
  verify_account-logged_in email password row rows conn w found right off =
      rw
        (
          verify_account,
          id_by_email-entry services email w row rows found,
          off,
          found,
          check_password,
          right,
        )
        refl

  -- Messages that the delivery part of `Chatter` has for a user who is not online, with none waiting
  -- before, and then a login of the user with the right password, on a connection that nobody has, where the user has
  -- a row with a nickname and the fuel is above the number of the messages: the handler returns,
  -- and has sent the answer, the friend requests, the messages, once each in the order in which they
  -- came, and the group requests; none of the messages waits any more, and the user is online.
  pub loginer_lem :
      (fuel : ℕ) (list : List json.Json) (email password nickname : String) (row : Fields)
      (rows : List Fields) (conn : ℕ) (w : World services)
      → let user_id = entry row "id" in
        accounts services w email ≡ row ∷ rows
        → (entry row "password" == password) ≡ true
        → get_connection_ptr services w user_id ≡ none
        → find_conn w.online_users conn ≡ none
        → column_by_id "nickname" w user_id ≡ some nickname
        → offline services w user_id ≡ []
        → length list < fuel
        → (w' : World services) × (loginer services fuel email password conn
              (deliver_all user_id list w)
            ≡ some w')
          × (w'.outbox
              ≡ w.outbox
                ++ welcome services email user_id nickname conn
                  ∷ waiting_for services conn user_id (map json.dump list) w)
          × (offline services w' user_id ≡ [])
          × (get_connection_ptr services w' user_id ≡ some conn)
  unfolding loginer
  loginer_lem fuel list email password nickname row rows conn w found right off free named nothing
        h =
      let user_id = entry row "id" in
      let away = deliver_all user_id list w in
      let k = deliver_all-Kept user_id list w off in
      let w₁ = logged_in user_id conn away in
      let verified =
        verify_account-logged_in email password row rows conn away
          (same_accounts email w away k.same_tables ∙ found) right
          (same_user services user_id w away k.same_users ∙ off) in
      let on : get_connection_ptr services w₁ user_id ≡ some conn =
        rw (entered services user_id conn away user_id, eq_refl user_id) refl in
      let (w', e, served) =
        answer_login_lem services fuel (map json.dump list) email user_id nickname conn w₁ on
          (find_conn-set_user user_id conn away.online_users
            (ap (λ m. find_conn m conn) k.same_users ∙ free))
          (same_column services "nickname" user_id w w₁ k.same_tables ∙ named)
          (k.waiting
            ∙ ap (λ l. reverse (map json.dump list) ++ l) nothing
            ∙ append-nil (reverse (map json.dump list)))
          (omega (arith, length-map json.dump list)) in
      (
        w',
        rw (loginer, verified) e,
        served.outbox
            ∙ ap
                (λ o.
                  o
                  ++ welcome services email user_id nickname conn
                    ∷ waiting_for services conn user_id (map json.dump list) w₁)
                k.same_outbox
            ∙ ap (λ l. w.outbox ++ welcome services email user_id nickname conn ∷ l)
                (same_waiting services conn user_id (map json.dump list) w w₁ k.same_tables),
        served.none_waits,
        same_user services user_id w₁ w' served.same_users ∙ on,
      )
