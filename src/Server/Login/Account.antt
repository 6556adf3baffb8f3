-- ===== src/Server/Login/Account.antt =====
-- Who is let in by `verifyAccount`, and the map of users who are online afterwards.
use Prim.Native.String.{String}
use text.Mathlib.Text.{◌==◌}
use text.Mathlib.TextPositions.{eq_refl}
use text.Mathlib.TextEquality.{eq_iff}
use weee_chatroom.Common.{
  ℕ, ◌≡◌, refl, sym, ap, ◌∙◌, ◌⊎◌, inl, inr, true, false, List, [], ◌∷◌, none, some, arith,
  Bool-cases, Option-cases, List-cases, if◌then◌else◌, ◌==◌ as same_conn,
}
use weee_chatroom.Server.Services.{Services, Fields}
use weee_chatroom.Server.World.{World, find_user, get_connection_ptr, entry}
use weee_chatroom.Server.Online.{set_user, find_conn}
use weee_chatroom.Server.Login.{accounts, id_by_email, check_password, verify_account}

-- The users of a map after `onlineUsers_[user_id] = conn`.
pub find_user-set_user :
    (services : Services) (user_id : String) (conn : ℕ) (m : List (String × ℕ)) (other : String)
    → find_user services (set_user user_id conn m) other
      ≡ (if user_id == other then some conn else find_user services m other)
unfolding find_user set_user
find_user-set_user services user_id conn [] other = refl
find_user-set_user services user_id conn ((k, c) ∷ m) other = elim (Bool-cases (k == user_id)) [
  | inl same ↦
      rw (same, (eq_iff k user_id).0 same)
        elim (Bool-cases (user_id == other)) [ inl here ↦ rw here refl | inr there ↦ rw there refl ]
  | inr differ ↦ elim (Bool-cases (k == other)) [
    | inl here ↦
        let apart : (user_id == other) ≡ false = ground (
          arith,
          differ,
          (eq_iff k other).0 here,
          eq_refl k,
          eq_iff user_id other,
          Bool-cases (user_id == other),
        ) in
        rw (differ, here, apart) refl
    | inr there ↦ rw (differ, there) (find_user-set_user services user_id conn m other)
  ]
]

-- A connection that nobody has is that of the user who is entered with it.
pub find_conn-set_user :
    (user_id : String) (conn : ℕ) (m : List (String × ℕ))
    → find_conn m conn ≡ none
    → find_conn (set_user user_id conn m) conn ≡ some user_id
unfolding find_conn set_user
find_conn-set_user user_id conn [] h = ground arith
find_conn-set_user user_id conn ((k, c) ∷ m) h = elim (Bool-cases (same_conn c conn)) [
  | inl mine ↦ ground (arith, mine, h)
  | inr other ↦ elim (Bool-cases (k == user_id)) [
    | inl same ↦ rw (same, (eq_iff k user_id).0 same) ground arith
    | inr differ ↦ rw (differ, other) (find_conn-set_user user_id conn m (rw other at h))
  ]
]

module _ (services : Services) where
  -- The account was not online and had this password, and now its user alone is entered anew, with
  -- this connection.
  pub record LoggedIn (email password : String) (conn : ℕ) (w w' : World services) : Type 0 where
    pub row : Fields
    pub rows : List Fields
    pub found : accounts services w email ≡ row ∷ rows
    pub right : (entry row "password" == password) ≡ true
    pub was_away : get_connection_ptr services w (entry row "id") ≡ none
    pub online_now :
        (user_id : String)
        → get_connection_ptr services w' user_id
          ≡ (if entry row "id" == user_id then some conn else get_connection_ptr services w user_id)
    pub same_tables : w'.tables ≡ w.tables
    pub same_cache : w'.cache ≡ w.cache
    pub same_outbox : w'.outbox ≡ w.outbox

  pub id_by_email-entry :
      (email : String) (w : World services) (row : Fields) (rows : List Fields)
      → accounts services w email ≡ row ∷ rows
      → id_by_email services w email ≡ entry row "id"
  unfolding id_by_email
  id_by_email-entry email w row rows e = rw (id_by_email, e) refl

  pub entered :
      (user_id : String) (conn : ℕ) (w : World services) (other : String)
      → get_connection_ptr services
          (record w { online_users = set_user user_id conn w.online_users })
          other
        ≡ (if user_id == other then some conn else get_connection_ptr services w other)
  unfolding get_connection_ptr
  entered user_id conn w other = find_user-set_user services user_id conn w.online_users other

  -- The four ends of `verifyAccount`, of which exactly one is met: the user is online already, there is
  -- no account, the password is another one, and the user is let in.
  pub Verified : String → String → ℕ → World services → ℕ × World services → Type 0
  Verified email password conn w verified =
      let user = get_connection_ptr services w (id_by_email services w email) in
      ((conned : ℕ) × (user ≡ some conned) × (verified ≡ (3, w)))
      ⊎ ((user ≡ none) × (accounts services w email ≡ []) × (verified ≡ (2, w)))
      ⊎ ((row : Fields) × (rows : List Fields) × (user ≡ none)
          × (accounts services w email ≡ row ∷ rows)
          × ((entry row "password" == password) ≡ false)
          × (verified ≡ (1, w)))
      ⊎ ((verified.0 ≡ 0) × LoggedIn email password conn w verified.1)

  -- `verifyAccount` answers 3 where the user of the email is online; else 2 where no account that is
  -- alive has the email, and 1 where the password is not that of the account, and changes nothing in
  -- these cases; else it answers 0 and enters the connection for this user alone.
  pub verify_account_lem :
      (email password : String) (conn : ℕ) (w : World services)
      → Verified email password conn w (verify_account services email password conn w)
  unfolding verify_account check_password Verified
  verify_account_lem email password conn w =
      elim (Option-cases (get_connection_ptr services w (id_by_email services w email))) [
        | inr (conned, on) ↦ inl (conned, on, rw (verify_account, on) refl)
        | inl away ↦ elim (List-cases (accounts services w email)) [
          | inl missing ↦
              inr (inl (away, missing, rw (verify_account, away, missing, check_password) refl))
          | inr (row, rows, found) ↦ elim (Bool-cases (entry row "password" == password)) [
            | inr wrong ↦ inr (
                inr (
                  inl (
                    row,
                    rows,
                    away,
                    found,
                    wrong,
                    rw (verify_account, away, found, check_password, wrong) refl,
                  )))
            | inl right ↦ inr (
                inr (
                  inr (
                    ground (arith, away, found, right),
                    rw (verify_account, away, found, check_password, right)
                        (record {
                          row = row;
                          rows = rows;
                          found = found;
                          right = right;
                          was_away =
                              ap (get_connection_ptr services w)
                                (sym (id_by_email-entry email w row rows found))
                              ∙ away;
                          online_now = entered (entry row "id") conn w;
                          same_tables = refl;
                          same_cache = refl;
                          same_outbox = refl;
                        }),
                  )))
          ]
        ]
      ]
