-- ===== src/Server/Removal/Silence.antt =====
-- After an account is removed nobody reaches it.
use Prim.Native.String.{String}
use text.Mathlib.Text.{◌==◌}
use text.Mathlib.TextPositions.{eq_refl}
use mathlib.Core.Option.{some-injective}
use weee_chatroom.Common.{
  ◌≡◌, refl, sym, ap, subst, ◌∙◌, inl, inr, Bool, true, false, ◌&&◌, List, [], ◌∷◌, some, arith,
  if◌then◌else◌, Bool-cases, Option-cases,
}
use weee_chatroom.Server.Services.{
  Services, Key, same_key, friends, group, Fields, at, all_at, users, groups, group_members,
}
use weee_chatroom.Server.World.{World, >>=-some, sismember, srem, del_key, select, del}
use weee_chatroom.Server.Friend.{send_friend_list}
use weee_chatroom.Server.Friend.Listing.{send_friend_list_total}
use weee_chatroom.Server.Chat.{ChatRequest, chatter}
use weee_chatroom.Server.Removal.{clear_tables, unfriend_all, leave_all, remove_user}

module _ (services : Services) where
  open services use {redis, database}

  -- The set of friends of the user is empty.
  HasNone : String → World services → Type 0
  HasNone user_id w = (v : String) → sismember services w (friends user_id) v ≡ false

  same_cache-HasNone :
      (user_id : String) (w w' : World services)
      → w'.cache ≡ w.cache
      → HasNone user_id w
      → HasNone user_id w'
  unfolding HasNone sismember
  same_cache-HasNone user_id w w' e none_left v =
      ap (λ c. redis.sismember c (friends user_id) v) e ∙ none_left v

  srem-HasNone :
      (user_id : String) (k : Key) (v : String) (w : World services)
      → HasNone user_id w
      → HasNone user_id (srem services k v w)
  unfolding HasNone sismember srem
  srem-HasNone user_id k v w none_left u = ground (
    arith,
    redis.sismember-srem w.cache k v (friends user_id) u,
    none_left u,
    Bool-cases (same_key k (friends user_id) && (v == u)),
  )

  del_key-HasNone :
      (user_id : String) (w : World services)
      → HasNone user_id (del_key services (friends user_id) w)
  unfolding HasNone sismember del_key
  del_key-HasNone user_id w v =
      rw (redis.sismember-del w.cache (friends user_id) (friends user_id) v, eq_refl user_id) refl

  listed-HasNone :
      (listed : Bool) (user_id id : String) (w w' : World services)
      → (if listed then send_friend_list services id w else some w) ≡ some w'
      → HasNone user_id w
      → HasNone user_id w'
  listed-HasNone true user_id id w w' e none_left =
      let (w₁, f, l) = send_friend_list_total services id w in
      same_cache-HasNone user_id w w'
        (ap (λ (v : World services). v.cache) (some-injective w' w₁ (sym e ∙ f)) ∙ l.same_cache)
        none_left
  listed-HasNone false user_id id w w' e none_left =
      subst (HasNone user_id) (some-injective w w' e) none_left

  unfriend_all-HasNone :
      (rows : List Fields) (user_id : String) (w w' : World services)
      → unfriend_all services rows user_id w ≡ some w'
      → HasNone user_id w
      → HasNone user_id w'
  unfolding unfriend_all
  unfriend_all-HasNone [] user_id w w' e none_left =
      subst (HasNone user_id) (some-injective w w' e) none_left
  unfriend_all-HasNone (row ∷ rows) user_id w w' e none_left =
      let (id, _, e₁) = >>=-some (at row "id") _ w' e in
      let removed = srem services (friends id) user_id w in
      let (w₁, f, e₂) =
        >>=-some
          (if sismember services w (friends id) user_id
            then send_friend_list services id removed
            else some removed)
          _ w' e₁ in
      unfriend_all-HasNone rows user_id w₁ w' e₂ (
        listed-HasNone (sismember services w (friends id) user_id) user_id id removed w₁ f
          (srem-HasNone user_id (friends id) user_id w none_left))

  leave_all-HasNone :
      (rows : List Fields) (user_id : String) (w w' : World services)
      → leave_all services rows user_id w ≡ some w'
      → HasNone user_id w
      → HasNone user_id w'
  unfolding leave_all
  leave_all-HasNone [] user_id w w' e none_left =
      subst (HasNone user_id) (some-injective w w' e) none_left
  leave_all-HasNone (row ∷ rows) user_id w w' e none_left =
      let (group_id, _, e₁) = >>=-some (at row "id") _ w' e in
      leave_all-HasNone rows user_id (srem services (group group_id) user_id w) w' e₁
        (srem-HasNone user_id (group group_id) user_id w none_left)

  remove_user-HasNone :
      (user_id : String) (w w' : World services)
      → remove_user services user_id w ≡ some w'
      → HasNone user_id w'
  unfolding remove_user del
  remove_user-HasNone user_id w w' e =
      let cleared = del_key services (friends user_id) (clear_tables services user_id w) in
      let (w₁, e₁, f) =
        >>=-some (unfriend_all services (select services cleared users []) user_id cleared) _ w'
          e in
      let left = del services group_members (("user_id", user_id) ∷ []) w₁ in
      let (w₂, e₂, g) =
        >>=-some (leave_all services (select services left groups []) user_id left) _ w' f in
      let first =
        unfriend_all-HasNone (select services cleared users []) user_id cleared w₁ e₁
          (del_key-HasNone user_id (clear_tables services user_id w)) in
      let second =
        leave_all-HasNone (select services left groups []) user_id left w₂ e₂
          (same_cache-HasNone user_id w₁ left refl first) in
      same_cache-HasNone user_id w₂ w'
        (ap (λ (v : World services). v.cache) (sym (some-injective _ w' g))) second

  listed_total :
      (listed : Bool) (id : String) (w : World services)
      → (w' : World services) × ((if listed then send_friend_list services id w else some w)
          ≡ some w')
  listed_total true id w = let (w₁, f, l) = send_friend_list_total services id w in (w₁, f)
  listed_total false id w = (w, refl)

  unfriend_all_total :
      (rows : List Fields) (user_id : String) (w : World services)
      → all_at rows "id" ≡ true
      → (w' : World services) × (unfriend_all services rows user_id w ≡ some w')
  unfolding unfriend_all
  unfriend_all_total [] user_id w h = (w, refl)
  unfriend_all_total (row ∷ rows) user_id w h = elim (Option-cases (at row "id")) [
    | inl missing ↦ absurd (ground (arith, missing, h))
    | inr (id, e) ↦
        let removed = srem services (friends id) user_id w in
        let (w₁, f) = listed_total (sismember services w (friends id) user_id) id removed in
        let (w₂, g) = unfriend_all_total rows user_id w₁ (ground (arith, e, h)) in
        (w₂, rw (unfriend_all, e, f) g)
  ]

  leave_all_total :
      (rows : List Fields) (user_id : String) (w : World services)
      → all_at rows "id" ≡ true
      → (w' : World services) × (leave_all services rows user_id w ≡ some w')
  unfolding leave_all
  leave_all_total [] user_id w h = (w, refl)
  leave_all_total (row ∷ rows) user_id w h = elim (Option-cases (at row "id")) [
    | inl missing ↦ absurd (ground (arith, missing, h))
    | inr (id, e) ↦
        let (w₁, g) =
          leave_all_total rows user_id (srem services (group id) user_id w)
            (ground (arith, e, h)) in
        (w₁, rw (leave_all, e) g)
  ]

  remove_user_total :
      (user_id : String) (w : World services)
      → (w' : World services) × (remove_user services user_id w ≡ some w')
  unfolding remove_user select
  remove_user_total user_id w =
      let cleared = del_key services (friends user_id) (clear_tables services user_id w) in
      let (w₁, e) =
        unfriend_all_total (select services cleared users []) user_id cleared
          (database.select_columns cleared.tables users [] [] [] "id" refl) in
      let left = del services group_members (("user_id", user_id) ∷ []) w₁ in
      let (w₂, f) =
        leave_all_total (select services left groups []) user_id left
          (database.select_columns left.tables groups [] [] [] "id" refl) in
      (del services users (("id", user_id) ∷ []) w₂, rw (remove_user, e, f) refl)

  no_chat :
      (r : ChatRequest services) (w : World services)
      → (sismember services w (friends r.sender_id) r.receiver_id
          && sismember services w (friends r.receiver_id) r.sender_id)
        ≡ false
      → chatter services r w ≡ w
  unfolding chatter
  no_chat r w h = ground (
    arith,
    h,
    Bool-cases (sismember services w (friends r.sender_id) r.receiver_id),
    Bool-cases (sismember services w (friends r.receiver_id) r.sender_id),
  )

  -- `AccountKiller`, behind the loop over the groups of the user, always returns, and from then on
  -- Chatter does nothing with a message from the user or to the user.
  pub remove_user_lem :
      (r : ChatRequest services) (user_id : String) (w : World services)
      → (w' : World services) × (remove_user services user_id w ≡ some w')
        × (chatter services (record r { sender_id = user_id }) w' ≡ w')
        × (chatter services (record r { receiver_id = user_id }) w' ≡ w')
  unfolding HasNone
  remove_user_lem r user_id w =
      let (w', e) = remove_user_total user_id w in
      let none_left = remove_user-HasNone user_id w w' e in
      (
        w',
        e,
        no_chat (record r { sender_id = user_id }) w' (ground (arith, none_left r.receiver_id)),
        no_chat (record r { receiver_id = user_id }) w'
            (ground (
              arith,
              none_left r.sender_id,
              Bool-cases (sismember services w' (friends r.sender_id) user_id),
            )),
      )
