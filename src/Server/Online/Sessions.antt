-- ===== src/Server/Online/Sessions.antt =====
-- The users who are online after a connection is lost.
use Prim.Native.String.{String}
use text.Mathlib.Text.{◌==◌}
use text.Mathlib.TextEquality.{eq_iff}
use weee_chatroom.Common.{
  ℕ, ◌⊎◌, ◌≡◌, ◌≢◌, refl, ap, inl, inr, List, [], ◌∷◌, none, some, arith, ==_iff, subst, Bool-cases,
  ◌==◌ as same_conn,
}
use weee_chatroom.Server.Services.{Services}
use weee_chatroom.Server.World.{World, find_user, get_connection_ptr}
use weee_chatroom.Server.Online.{erase_conn, find_conn, on_disconnection}

module _ (services : Services) where
  -- Keys as in a map, and no connection for two users.
  pub data AreApart : List (String × ℕ) → Type 0 where
    nobody : AreApart []
    and_user :
        {k : String} {c : ℕ} {m : List (String × ℕ)}
        → find_user services m k ≡ none
        → find_conn m c ≡ none
        → AreApart m
        → AreApart ((k, c) ∷ m)

  -- Where nobody has a connection, a user who is found has another one.
  find_user-find_conn :
      (m : List (String × ℕ)) (conn : ℕ) (user_id : String)
      → find_conn m conn ≡ none
      → find_user services m user_id ≢ some conn
  unfolding find_user find_conn
  find_user-find_conn [] conn user_id h e = ground (arith, e)
  find_user-find_conn ((k, c) ∷ m) conn user_id h e = elim (Bool-cases (same_conn c conn)) [
    | inl mine ↦ ground (arith, mine, h)
    | inr other ↦ elim (Bool-cases (k == user_id)) [
      | inl here ↦ ground (arith, here, other, e)
      | inr there ↦ find_user-find_conn m conn user_id (rw other at h) (rw there at e)
    ]
  ]

  -- A user whose connection it was is found no more, and anybody else where they were.
  unfoldable pub IsGone : ℕ → String → List (String × ℕ) → List (String × ℕ) → Type 0
  IsGone conn user_id m m' =
      ((find_user services m user_id ≡ some conn) × (find_user services m' user_id ≡ none))
      ⊎ ((find_user services m user_id ≢ some conn)
          × (find_user services m' user_id ≡ find_user services m user_id))

  pub erase_conn-IsGone :
      (conn : ℕ) (m : List (String × ℕ)) (user_id : String)
      → AreApart m
      → IsGone conn user_id m (erase_conn conn m)
  unfolding erase_conn find_user find_conn IsGone
  erase_conn-IsGone conn [] u a = inr (λ e. ground (arith, e), refl)
  erase_conn-IsGone conn ((k, c) ∷ m) u (and_user new lone a) =
      elim (Bool-cases (same_conn c conn)) [
        | inl mine ↦ elim (Bool-cases (k == u)) [
          | inl here ↦
              rw (mine, here)
                (inl (
                  ap some ((==_iff c conn).0 mine),
                  subst (λ x. find_user services m x ≡ none) ((eq_iff k u).0 here) new,
                ))
          | inr there ↦
              rw (mine, there)
                (inr (
                  find_user-find_conn m conn u
                      (subst (λ x. find_conn m x ≡ none) ((==_iff c conn).0 mine) lone),
                  refl,
                ))
        ]
        | inr other ↦ elim (Bool-cases (k == u)) [
          | inl here ↦ rw (other, here) (inr (λ e. ground (arith, other, e), refl))
          | inr there ↦ rw (other, there) (erase_conn-IsGone conn m u a)
        ]
      ]

  -- The loss of a connection, where the keys are those of a map and no connection is that of two
  -- users: a user who was online on it is not online any more, everybody else is found where they
  -- were, and nothing but the users has changed.
  pub on_disconnection_lem :
      (conn : ℕ) (user_id : String) (w : World services)
      → AreApart w.online_users
      → let w' = on_disconnection services conn w in
        (((get_connection_ptr services w user_id ≡ some conn)
            × (get_connection_ptr services w' user_id ≡ none))
          ⊎ ((get_connection_ptr services w user_id ≢ some conn)
              × (get_connection_ptr services w' user_id ≡ get_connection_ptr services w user_id)))
        × (w' ≡ record w { online_users = w'.online_users })
  unfolding on_disconnection get_connection_ptr IsGone
  on_disconnection_lem conn user_id w a = (erase_conn-IsGone conn w.online_users user_id a, refl)
