-- ===== src/Server/Register.antt =====
-- server/handler/Register.cc: verification codes, new accounts and lost passwords. A code is the text
-- that `std::to_string` makes of it; the mail with it and the time after which it expires are left out.
-- To take the code where none is stored is a fault (`*real_code_opt`).
pub mod Passwords
use Prim.Native.String.{String}
use text.Mathlib.Text.{◌==◌}
use weee_chatroom.Common.{
  ℕ, zero, suc, Bool, true, false, List, [], ◌∷◌, Option, none, some, if◌then◌else◌,
}
use weee_chatroom.Server.Services.{
  Services, Key, verify_email, friends, Fields, users, friends_table,
}
use weee_chatroom.Server.World.{
  World, Message, response, registration_failed, reg_msg_ack, find_password_ack, ◌>>=◌,
  get_connection_ptr, send_json, insert, update, sadd,
}
use weee_chatroom.Server.Online.{erase_conn}
use weee_chatroom.Server.Login.{id_by_email}

module _ (services : Services) where
  open services use {redis, database}

  -- `storeCode`
  unfoldable pub store_code : String → String → World services → World services
  store_code email code w = record w { cache = redis.hset w.cache (verify_email email) code }

  -- `verifyCode`: 0, or 1 for a wrong code
  unfoldable pub verify_code : String → String → World services → Option (ℕ × World services)
  verify_code email input_code w = elim (redis.hget w.cache (verify_email email)) [
    | none ↦ none
    | some real_code ↦
        if real_code == input_code
        then some (0, record w { cache = redis.hdel w.cache (verify_email email) })
        else some (1, w)
  ]

  -- `inputAccount`: whether the row was written, and the state after it
  unfoldable pub input_account : String → String → String → World services → Bool × World services
  input_account email password nickname w =
      let inserted =
        database.insert w.tables users
          (("email", email) ∷ ("nickname", nickname) ∷ ("password", password) ∷ []) in
      (inserted.0, record w { tables = inserted.1 })

  -- A new user becomes a friend of the user "1".
  unfoldable pub befriend_system : String → World services → World services
  befriend_system user_id w = sadd services (friends "1") user_id (
      sadd services (friends user_id) "1" (
        insert services friends_table (("friend_id", user_id) ∷ ("user_id", "1") ∷ [])
          (insert services friends_table (("user_id", user_id) ∷ ("friend_id", "1") ∷ []) w)))

  unfoldable pub open_account : String → String → String → ℕ → World services → World services
  open_account email password nickname conn w =
      let written = input_account email password nickname w in
      if written.0
      then send_json services conn (response reg_msg_ack 0)
          (befriend_system (id_by_email services written.1 email) written.1)
      else send_json services conn registration_failed written.1

  -- `RegisterAcker::handle` behind `verifyCode`: an email with an account is 2
  unfoldable pub answer_register :
      String → String → String → ℕ → ℕ → World services → World services
  answer_register email password nickname conn errno w =
      if id_by_email services w email == ""
      then elim errno [
        | zero ↦ open_account email password nickname conn w
        | suc n ↦ send_json services conn (response reg_msg_ack (suc n)) w
      ]
      else send_json services conn (response reg_msg_ack 2) w

  -- `RegisterAcker::handle`
  unfoldable pub register_acker :
      String → String → String → String → ℕ → World services → Option (World services)
  register_acker email code password nickname conn w = verify_code email code w >>= λ verified.
      some (answer_register email password nickname conn verified.0 verified.1)

  -- The connection of a user who is online is taken out of the map.
  unfoldable pub take_offline : String → World services → World services
  take_offline user_id w = elim (get_connection_ptr services w user_id) [
    | none ↦ w
    | some conned ↦ record w { online_users = erase_conn conned w.online_users }
  ]

  unfoldable pub set_password : String → String → World services → World services
  set_password email password w =
      update services users (("password", password) ∷ []) (("email", email) ∷ [])
        (take_offline (id_by_email services w email) w)

  -- `PasswordFindAcker::handle` behind `verifyCode`: an email without an account is 2
  unfoldable pub answer_find : String → String → ℕ → ℕ → World services → World services
  answer_find email password conn errno w =
      if id_by_email services w email == ""
      then send_json services conn (response find_password_ack 2) w
      else elim errno [
        | zero ↦
            send_json services conn (response find_password_ack 0) (set_password email password w)
        | suc n ↦ send_json services conn (response find_password_ack (suc n)) w
      ]

  -- `PasswordFindAcker::handle`
  unfoldable pub password_find_acker :
      String → String → String → ℕ → World services → Option (World services)
  password_find_acker email code password conn w = verify_code email code w >>= λ verified.
      some (answer_find email password conn verified.0 verified.1)
