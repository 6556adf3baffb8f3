-- ===== src/Server/Register/Passwords.antt =====
-- A lost password: what `PasswordFindAcker` does with a code.
use Prim.Native.String.{String}
use text.Mathlib.Text.{◌==◌}
use text.Mathlib.TextPositions.{eq_refl}
use weee_chatroom.Common.{
  ℕ, ◌≡◌, refl, ap, ◌∙◌, ◌⊎◌, inl, inr, true, false, [], ◌∷◌, ◌++◌, Option, none, some, Bool-cases,
  Option-cases,
}
use weee_chatroom.Server.Services.{Services, verify_email, users}
use weee_chatroom.Server.World.{
  World, find_user, response, find_password_ack, get_connection_ptr, send_json, update, select,
}
use weee_chatroom.Server.Online.Sessions.{AreApart, IsGone, erase_conn-IsGone}
use weee_chatroom.Server.Login.{accounts, id_by_email}
use weee_chatroom.Server.Login.Away.{same_user}
use weee_chatroom.Server.Register.{
  verify_code, take_offline, set_password, answer_find, password_find_acker,
}

module _ (services : Services) where
  open services use {redis, database}

  -- The code for an email.
  abbrev pub code_of : World services → String → Option String
  code_of w email = redis.hget w.cache (verify_email email)

  -- The answer is sent, and nothing but the codes has changed.
  pub record TurnedAway (errno conn : ℕ) (w w' : World services) : Type 0 where
    pub outbox : w'.outbox ≡ w.outbox ++ (conn, response find_password_ack errno) ∷ []
    pub same_tables : w'.tables ≡ w.tables
    pub same_users : w'.online_users ≡ w.online_users

  -- The password is written, the code is used up, and the user is not online any more.
  pub record Renewed (email password : String) (conn : ℕ) (w w' : World services) : Type 0 where
    pub outbox : w'.outbox ≡ w.outbox ++ (conn, response find_password_ack 0) ∷ []
    pub tables :
        w'.tables
        ≡ (database.update w.tables users (("password", password) ∷ []) (("email", email) ∷ [])).1
    pub used_up : code_of w' email ≡ none
    pub offline_now : get_connection_ptr services w' (id_by_email services w email) ≡ none

  take_offline_lem :
      (user_id : String) (w : World services)
      → AreApart services w.online_users
      → get_connection_ptr services (take_offline services user_id w) user_id ≡ none
  unfolding take_offline get_connection_ptr IsGone
  take_offline_lem user_id w a = elim (Option-cases (find_user services w.online_users user_id)) [
    | inl off ↦ rw (take_offline, off) off
    | inr (conned, on) ↦
        rw (take_offline, on)
          (elim (erase_conn-IsGone services conned w.online_users user_id a) [
            | inl (was, gone) ↦ gone
            | inr (other, same) ↦ absurd (other on)
          ])
  ]

  -- The rest of the state is as it was.
  take_offline_rest :
      (user_id : String) (w : World services)
      → take_offline services user_id w
        ≡ record w { online_users = (take_offline services user_id w).online_users }
  unfolding take_offline
  take_offline_rest user_id w = elim (Option-cases (get_connection_ptr services w user_id)) [
    | inl off ↦ rw (take_offline, off) refl
    | inr (conned, on) ↦ rw (take_offline, on) refl
  ]

  -- The ends of the handler, of which exactly one is met: no code to compare with, an email without an
  -- account, a wrong code, and a new password.
  pub Outcome : String → String → String → ℕ → World services → Option (World services) → Type 0
  Outcome email code password conn w result =
      let id = id_by_email services w email in
      ((code_of w email ≡ none) × (result ≡ none))
      ⊎ ((real_code : String) × (w' : World services) × (code_of w email ≡ some real_code)
          × (result ≡ some w')
          × ((((id == "") ≡ true) × TurnedAway 2 conn w w')
              ⊎ (((id == "") ≡ false)
                  × ((real_code == code) ≡ false)
                  × TurnedAway 1 conn w w'
                  × (code_of w' email ≡ some real_code))
              ⊎ (((id == "") ≡ false)
                  × ((real_code == code) ≡ true)
                  × Renewed email password conn w w')))

  send_json-TurnedAway :
      (errno conn : ℕ) (w w' : World services)
      → w' ≡ record w { cache = w'.cache }
      → TurnedAway errno conn w (send_json services conn (response find_password_ack errno) w')
  unfolding send_json
  send_json-TurnedAway errno conn w w' e = record {
    outbox =
        ap (λ (v : World services). v.outbox ++ (conn, response find_password_ack errno) ∷ []) e;
    same_tables = ap (λ (v : World services). v.tables) e;
    same_users = ap (λ (v : World services). v.online_users) e;
  }

  used : String → World services → World services
  used email w = record w { cache = redis.hdel w.cache (verify_email email) }

  set_password-Renewed :
      (email password : String) (conn : ℕ) (w : World services)
      → AreApart services w.online_users
      → Renewed email password conn w (
          send_json services conn
            (response find_password_ack 0)
            (set_password services email password (used email w)))
  unfolding set_password update send_json used id_by_email accounts select
  set_password-Renewed email password conn w a =
      let w₁ = used email w in
      let user_id = id_by_email services w email in
      let w₂ = take_offline services user_id w₁ in
      let rest = take_offline_rest user_id w₁ in
      record {
        outbox =
            ap (λ (v : World services). v.outbox ++ (conn, response find_password_ack 0) ∷ []) rest;
        tables =
            ap
              (λ (v : World services).
                (database.update v.tables users (("password", password) ∷ [])
                  (("email", email) ∷ [])).1)
              rest;
        used_up =
            ap (λ (v : World services). code_of v email) rest
            ∙ rw (redis.hget-hdel w.cache (verify_email email) (verify_email email), eq_refl email)
                refl;
        offline_now = same_user services user_id w₂ _ refl ∙ take_offline_lem user_id w₁ a;
      }

  same_id :
      (email : String) (w : World services)
      → (id_by_email services (used email w) email == "") ≡ (id_by_email services w email == "")
  unfolding used id_by_email accounts select
  same_id email w = refl

  -- `PasswordFindAcker`, where the users who are online are apart: without a stored code for the
  -- email it reads a missing one. With a stored code it answers 2 for an email without an account, and
  -- 1 for a wrong code, which stays stored, and changes neither the tables nor who is online; with the
  -- right code it writes the password, uses up the code and takes the user offline, and answers 0.
  pub password_find_acker_lem :
      (email code password : String) (conn : ℕ) (w : World services)
      → AreApart services w.online_users
      → Outcome email code password conn w (password_find_acker services email code password conn w)
  unfolding password_find_acker verify_code answer_find Outcome used send_json
  password_find_acker_lem email code password conn w a = elim (Option-cases (code_of w email)) [
    | inl missing ↦ inl (missing, rw (password_find_acker, verify_code, missing) refl)
    | inr (real_code, stored) ↦ elim (Bool-cases (real_code == code)) [
      | inr wrong ↦ elim (Bool-cases (id_by_email services w email == "")) [
        | inl nobody ↦ inr (
          real_code,
          _,
          stored,
          rw (password_find_acker, verify_code, stored, wrong, answer_find, nobody) refl,
          inl (nobody, send_json-TurnedAway 2 conn w w refl),
        )
        | inr known ↦ inr (
          real_code,
          _,
          stored,
          rw (password_find_acker, verify_code, stored, wrong, answer_find, known) refl,
          inr (inl (known, wrong, send_json-TurnedAway 1 conn w w refl, stored)),
        )
      ]
      | inl right ↦
          let same : (id_by_email services (used email w) email == "")
              ≡ (id_by_email services w email == "") =
            same_id email w in
          elim (Bool-cases (id_by_email services w email == "")) [
            | inl nobody ↦ inr (
              real_code,
              _,
              stored,
              rw (password_find_acker, verify_code, stored, right, answer_find, same ∙ nobody) refl,
              inl (nobody, send_json-TurnedAway 2 conn w (used email w) refl),
            )
            | inr known ↦ inr (
              real_code,
              _,
              stored,
              rw (password_find_acker, verify_code, stored, right, answer_find, same ∙ known) refl,
              inr (inr (known, right, set_password-Renewed email password conn w a)),
            )
          ]
    ]
  ]
