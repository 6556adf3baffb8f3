-- ===== src/Server/Login.antt =====
-- server/handler/Login.cc: a login, and what is sent to a user who has been away. A password and an
-- email are texts; `conn` is the connection that the request came on.
pub mod Account
pub mod Away
pub mod Waiting
pub mod Whole
mod Tests
use Prim.Native.String.{String}
use text.Mathlib.Text.{◌==◌}
use weee_chatroom.Common.{
  ℕ, zero, suc, Bool, true, false, List, [], ◌∷◌, Option, none, some, if◌then◌else◌,
}
use weee_chatroom.Server.Services.{
  Services, Key, offline_messages, Fields, at, Table, users, friend_requests, group_requests,
}
use weee_chatroom.Server.World.{
  World, Message, stored, login_ack, entry, column_by_id, ◌>>=◌, get_connection_ptr, send_json,
  select,
}
use weee_chatroom.Server.Online.{set_user, get_userid}

module _ (services : Services) where
  open services use {redis}

  -- The rows of the users with an email who are alive.
  unfoldable pub accounts : World services → String → List Fields
  accounts w email = select services w users (("email", email) ∷ ("state", "alive") ∷ [])

  -- `MySQLConn::getIdByEmail`
  unfoldable pub id_by_email : World services → String → String
  id_by_email w email = elim (accounts w email) [ [] ↦ "" | row ∷ _ ↦ entry row "id" ]

  -- The test of the password, for the rows of the account.
  unfoldable pub check_password : List Fields → String → ℕ → World services → ℕ × World services
  check_password [] password conn w = (2, w)
  check_password (row ∷ rows) password conn w =
      if entry row "password" == password
      then (0, record w { online_users = set_user (entry row "id") conn w.online_users })
      else (1, w)

  -- `verifyAccount`: 0, or 1 for a wrong password, 2 for no account and 3 for one that is online
  unfoldable pub verify_account : String → String → ℕ → World services → ℕ × World services
  verify_account email password conn w =
      elim (get_connection_ptr services w (id_by_email w email)) [
        | some conned ↦ (3, w)
        | none ↦ check_password (accounts w email) password conn w
      ]

  -- The loop of `sendFriendRequestOffLine` and `sendGroupRequestOffLine`.
  unfoldable pub send_requests : List Fields → String → ℕ → World services → Option (World services)
  send_requests [] to_user_id conn w = some w
  send_requests (row ∷ rows) to_user_id conn w = elim (get_connection_ptr services w to_user_id) [
    | none ↦ some w
    | some target ↦ at row "json" >>= λ json.
        send_requests rows to_user_id conn (send_json services conn (stored json) w)
  ]

  unfoldable pub requests_to : Table → World services → String → List Fields
  requests_to t w to_user_id = select services w t (("to_user_id", to_user_id) ∷ [])

  -- `redis->rpop`
  unfoldable pub rpop : Key → World services → Option String × World services
  rpop k w = let reply = redis.rpop w.cache k in (reply.0, record w { cache = reply.1 })

  -- The loop of `sendMessageOffLine`, on fuel, with what is done with a reply: whether it has ended.
  unfoldable pub send_message_offline : ℕ → String → ℕ → World services → World services × Bool
  send_message_offline zero to_user_id conn w = (w, false)
  send_message_offline (suc fuel) to_user_id conn w =
      elim (get_connection_ptr services w to_user_id) [
        | none ↦ (w, true)
        | some target ↦
            let popped = rpop (offline_messages to_user_id) w in
            elim popped.0 [
              | none ↦ (popped.1, true)
              | some json ↦
                  send_message_offline fuel to_user_id conn
                    (send_json services conn (stored json) popped.1)
            ]
      ]

  -- What `Loginer::handle` sends to a user who is online now.
  unfoldable pub send_waiting : ℕ → String → ℕ → World services → Option (World services)
  send_waiting fuel user_id conn w =
      send_requests (requests_to friend_requests w user_id) user_id conn w >>= λ w₁.
      (let w₂ = send_message_offline fuel user_id conn w₁ in
        send_requests (requests_to group_requests w₂.0 user_id) user_id conn w₂.0)

  -- `Loginer::handle` behind `verifyAccount`
  unfoldable pub answer_login : ℕ → String → ℕ → ℕ → World services → Option (World services)
  answer_login fuel email conn zero w =
      let user_id = get_userid services conn w in
      column_by_id "nickname" w user_id >>= λ nickname.
      send_waiting fuel user_id conn
        (send_json services conn (login_ack email 0 (some (user_id, nickname))) w)
  answer_login fuel email conn (suc errno) w =
      some (send_json services conn (login_ack email (suc errno) none) w)

  -- `Loginer::handle`
  unfoldable pub loginer : ℕ → String → String → ℕ → World services → Option (World services)
  loginer fuel email password conn w =
      let verified = verify_account email password conn w in
      answer_login fuel email conn verified.0 verified.1
