-- ===== src/Server/Friend/Relations.antt =====
-- What the handlers of friendship leave behind in the two relations of Redis, friends and blacklist.
use Prim.Native.String.{String}
use text.Mathlib.Text.{◌==◌}
use text.Mathlib.TextPositions.{eq_refl}
use weee_chatroom.Common.{
  ◌≡◌, refl, ap, ◌∙◌, true, false, ◌&&◌, [], ◌∷◌, some, if◌then◌else◌, arith,
}
use weee_chatroom.Server.Services.{
  Services, Key, same_key, friends, blacklist, friends_table, friend_requests,
}
use weee_chatroom.Server.World.{World, ◌>>=◌, sismember, sadd, srem, insert, del}
use weee_chatroom.Server.Chat.{ChatRequest, chatter}
use weee_chatroom.Server.Chat.Delivery.{are_friends}
use weee_chatroom.Server.Friend.{
  send_friend_list, Answer, accept, respond, friend_add_responser, friend_deleter,
}
use weee_chatroom.Server.Friend.Listing.{send_friend_list_total}

-- Two lists in a row.
lists_total :
    (services : Services) (a b : String) (w : World services)
    → (w' : World services) × ((send_friend_list services a w >>= send_friend_list services b)
        ≡ some w')
      × (w'.cache ≡ w.cache)
lists_total services a b w =
    let (w₁, e, l) = send_friend_list_total services a w in
    let (w₂, f, k) = send_friend_list_total services b w₁ in
    (w₂, rw (e, f) refl, k.same_cache ∙ l.same_cache)

still :
    (services : Services) (w w' : World services) (k : Key) (v : String)
    → w'.cache ≡ w.cache
    → sismember services w' k v ≡ sismember services w k v
unfolding sismember
still services w w' k v e = ap (λ c. services.redis.sismember c k v) e

-- Membership after the two sadd and the two srem of an acceptance, and of nothing else.
pub record Befriended (services : Services) (a b : String) (w w' : World services) : Type 0 where
  pub befriended : are_friends services w' a b ≡ true
  pub unblocked :
      (sismember services w' (blacklist a) b ≡ false)
      × (sismember services w' (blacklist b) a ≡ false)
  pub entries :
      (k : Key) (v : String)
      → sismember services w' k v ≡ (
          if same_key (blacklist b) k && (a == v)
          then false
          else if same_key (blacklist a) k && (b == v)
          then false
          else if same_key (friends b) k && (a == v)
          then true
          else if same_key (friends a) k && (b == v)
          then true
          else sismember services w k v)

-- An entry of the two relations after an acceptance.
sismember-accept :
    (services : Services) (a : Answer services) (w : World services) (k : Key) (v : String)
    → sismember services (accept services a w) k v ≡ (
        if same_key (blacklist a.to_user_id) k && (a.from_user_id == v)
        then false
        else if same_key (blacklist a.from_user_id) k && (a.to_user_id == v)
        then false
        else if same_key (friends a.to_user_id) k && (a.from_user_id == v)
        then true
        else if same_key (friends a.from_user_id) k && (a.to_user_id == v)
        then true
        else sismember services w k v)
unfolding accept sadd srem insert sismember
sismember-accept services a w k v =
    let r = services.redis in
    let x = a.from_user_id in
    let y = a.to_user_id in
    let s₁ = r.sadd w.cache (friends x) y in
    let s₂ = r.sadd s₁ (friends y) x in
    let s₃ = r.srem s₂ (blacklist x) y in
    rw
      (
        r.sismember-srem s₃ (blacklist y) x k v,
        r.sismember-srem s₂ (blacklist x) y k v,
        r.sismember-sadd s₁ (friends y) x k v,
        r.sismember-sadd w.cache (friends x) y k v,
      )
      refl

accept-Befriended :
    (services : Services) (a : Answer services) (w : World services)
    → Befriended services a.from_user_id a.to_user_id w (accept services a w)
accept-Befriended services a w =
    let x = a.from_user_id in
    let y = a.to_user_id in
    let entry = sismember-accept services a w in
    record {
      befriended = ground (arith, entry (friends x) y, entry (friends y) x, eq_refl x, eq_refl y);
      unblocked = (
        ground (arith, entry (blacklist x) y, eq_refl x, eq_refl y),
        ground (arith, entry (blacklist y) x, eq_refl x, eq_refl y),
      );
      entries = entry;
    }

Befriended-cache :
    (services : Services) (a b : String) (w w₁ w₂ : World services)
    → w₂.cache ≡ w₁.cache
    → Befriended services a b w w₁
    → Befriended services a b w w₂
unfolding sismember
Befriended-cache services a b w w₁ w₂ e h = record {
  befriended = rw e h.befriended;
  unblocked = rw e h.unblocked;
  entries = λ k v. ap (λ c. services.redis.sismember c k v) e ∙ h.entries k v;
}

-- `FriendAddResponser` with "accept" always returns, and the two users are then friends, each as the
-- other's set has it, neither blocks the other, and no other entry of the sets has
-- changed.
pub friend_add_responser_accept :
    (services : Services) (a : Answer services) (w : World services)
    → (a.response == "accept") ≡ true
    → (w' : World services) × (friend_add_responser services a w ≡ some w')
      × Befriended services a.from_user_id a.to_user_id w w'
unfolding friend_add_responser respond del
friend_add_responser_accept services a w h =
    let conditions = ("to_user_id", a.to_user_id) ∷ ("from_user_id", a.from_user_id) ∷ [] in
    let accepted = accept services a w in
    let (w', e, same) =
      lists_total services a.from_user_id a.to_user_id
        (del services friend_requests conditions accepted) in
    (
      w',
      rw h e,
      Befriended-cache services a.from_user_id a.to_user_id w accepted w' same
          (accept-Befriended services a w),
    )

not_friend_chatter :
    (services : Services) (r : ChatRequest services) (w : World services)
    → sismember services w (friends r.sender_id) r.receiver_id ≡ false
    → chatter services r w ≡ w
unfolding chatter
not_friend_chatter services r w e = rw e refl

no_longer_friends :
    (services : Services) (a b : String) (w : World services)
    → let cached = srem services (friends b) a (srem services (friends a) b w) in
      (sismember services cached (friends a) b ≡ false)
      × (sismember services cached (friends b) a ≡ false)
unfolding srem sismember
no_longer_friends services a b w =
    let r = services.redis in
    let s = r.srem w.cache (friends a) b in
    let entry = λ (k : Key) (v : String). r.sismember-srem s (friends b) a k v in
    let before = λ (k : Key) (v : String). r.sismember-srem w.cache (friends a) b k v in
    (
      ground (arith, entry (friends a) b, before (friends a) b, eq_refl a, eq_refl b),
      ground (arith, entry (friends b) a, eq_refl a, eq_refl b),
    )

-- The message in the other direction.
abbrev pub backwards : {services : Services} → ChatRequest services → ChatRequest services
backwards r = record r { sender_id = r.receiver_id; receiver_id = r.sender_id }

-- `FriendDeleter` always returns, and from then on `Chatter` does nothing with a message from one of
-- the two users to the other.
pub friend_deleter_lem :
    (services : Services) (r : ChatRequest services) (w : World services)
    → (w' : World services) × (friend_deleter services r.sender_id r.receiver_id w ≡ some w')
      × (are_friends services w' r.sender_id r.receiver_id ≡ false)
      × (chatter services r w' ≡ w')
      × (chatter services (backwards r) w' ≡ w')
unfolding friend_deleter del
friend_deleter_lem services r w =
    let a = r.sender_id in
    let b = r.receiver_id in
    let cached = srem services (friends b) a (srem services (friends a) b w) in
    let one = del services friends_table (("user_id", a) ∷ ("friend_id", b) ∷ []) cached in
    let both = del services friends_table (("user_id", b) ∷ ("friend_id", a) ∷ []) one in
    let (w', e, same) = lists_total services a b both in
    let (ab, ba) = no_longer_friends services a b w in
    let no_ab = still services cached w' (friends a) b same ∙ ab in
    let no_ba = still services cached w' (friends b) a same ∙ ba in
    (
      w',
      e,
      rw no_ab refl,
      not_friend_chatter services r w' no_ab,
      not_friend_chatter services (backwards r) w' no_ba,
    )
