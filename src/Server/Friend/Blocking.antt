-- ===== src/Server/Friend/Blocking.antt =====
-- Blocking a friend and taking it back.
use Prim.Native.String.{String}
use text.Mathlib.TextPositions.{eq_refl}
use weee_chatroom.Common.{
  ℕ, ◌≡◌, refl, ap, ◌∙◌, Bool, true, false, List, [], ◌∷◌, ◌++◌, some, if◌then◌else◌, arith,
  Bool-cases, inl, inr, append_assoc,
}
use weee_chatroom.Server.Services.{Services, friends, blacklist}
use weee_chatroom.Server.World.{
  World, Message, MsgType, response, block_friend_ack, unblock_friend_ack, send_json, sismember,
  sadd, srem,
}
use weee_chatroom.Server.Friend.{friend_blocker, friend_unblocker}
use weee_chatroom.Server.Friend.Listing.{Listed, send_friend_list_total}

-- What one of the two requests does: `a` blocks `b` or not, from now on, the request is answered
-- with an error number before anything else is sent, and nobody's friends change.
pub record Marked (services : Services) (conn : ℕ) (msgid : MsgType) (errno : ℕ) (a b : String)
    (on : Bool) (w w' : World services) : Type 0 where
  pub marked : sismember services w' (blacklist a) b ≡ on
  pub answered :
      (rest : List (ℕ × Message services)) × (w'.outbox
        ≡ w.outbox ++ (conn, response msgid errno) ∷ rest)
  pub same_friends :
      (c v : String) → sismember services w' (friends c) v ≡ sismember services w (friends c) v

Marked-again :
    (services : Services) (conn : ℕ) (msgid : MsgType) (a b : String) (on : Bool)
    (w : World services)
    → sismember services w (blacklist a) b ≡ on
    → Marked services conn msgid 1 a b on w (send_json services conn (response msgid 1) w)
unfolding send_json sismember
Marked-again services conn msgid a b on w e = record {
  marked = e;
  answered = ([], refl);
  same_friends = λ c v. refl;
}

Marked-Listed :
    (services : Services) (conn : ℕ) (msgid : MsgType) (a b : String) (on : Bool)
    (w w₁ w' : World services)
    → w₁.outbox ≡ w.outbox
    → sismember services w₁ (blacklist a) b ≡ on
    → ((c v : String) → sismember services w₁ (friends c) v ≡ sismember services w (friends c) v)
    → Listed services (send_json services conn (response msgid 0) w₁) w'
    → Marked services conn msgid 0 a b on w w'
unfolding send_json sismember
Marked-Listed services conn msgid a b on w w₁ w' same h g l =
    let (rest, sent) = l.sent in
    record {
      marked = ap (λ s. services.redis.sismember s (blacklist a) b) l.same_cache ∙ h;
      answered = (
        rest,
        sent
            ∙ append_assoc w₁.outbox ((conn, response msgid 0) ∷ []) rest
            ∙ ap (λ o. o ++ (conn, response msgid 0) ∷ rest) same,
      );
      same_friends = λ c v. ap (λ s. services.redis.sismember s (friends c) v) l.same_cache ∙ g c v;
    }

blocks :
    (services : Services) (a b : String) (w : World services)
    → sismember services (sadd services (blacklist a) b w) (blacklist a) b ≡ true
unfolding sadd sismember
blocks services a b w = ground (
  arith,
  services.redis.sismember-sadd w.cache (blacklist a) b (blacklist a) b,
  eq_refl a,
  eq_refl b,
)

unblocks :
    (services : Services) (a b : String) (w : World services)
    → sismember services (srem services (blacklist a) b w) (blacklist a) b ≡ false
unfolding srem sismember
unblocks services a b w = ground (
  arith,
  services.redis.sismember-srem w.cache (blacklist a) b (blacklist a) b,
  eq_refl a,
  eq_refl b,
)

blocks_only :
    (services : Services) (a b : String) (w : World services) (c v : String)
    → sismember services (sadd services (blacklist a) b w) (friends c) v
      ≡ sismember services w (friends c) v
unfolding sadd sismember
blocks_only services a b w c v = services.redis.sismember-sadd w.cache (blacklist a) b (friends c) v

unblocks_only :
    (services : Services) (a b : String) (w : World services) (c v : String)
    → sismember services (srem services (blacklist a) b w) (friends c) v
      ≡ sismember services w (friends c) v
unfolding srem sismember
unblocks_only services a b w c v =
    services.redis.sismember-srem w.cache (blacklist a) b (friends c) v

-- `FriendBlocker` always returns; then the friend is blocked, the request is answered first, with 0,
-- or 1 if the friend was blocked before, and the friends of nobody have changed.
pub friend_blocker_lem :
    (services : Services) (conn : ℕ) (a b : String) (w : World services)
    → (w' : World services) × (friend_blocker services conn a b w ≡ some w')
      × Marked services conn block_friend_ack
          (if sismember services w (blacklist a) b then 1 else 0)
          a
          b
          true
          w
          w'
unfolding friend_blocker sadd
friend_blocker_lem services conn a b w = elim (Bool-cases (sismember services w (blacklist a) b)) [
  | inl before ↦ rw before (
    send_json services conn (response block_friend_ack 1) w,
    refl,
    Marked-again services conn block_friend_ack a b true w before,
  )
  | inr free ↦
      let w₁ = sadd services (blacklist a) b w in
      let (w', e, l) =
        send_friend_list_total services b
          (send_json services conn (response block_friend_ack 0) w₁) in
      rw free (
        w',
        e,
        Marked-Listed services conn block_friend_ack a b true w w₁ w' refl (blocks services a b w)
            (blocks_only services a b w) l,
      )
]

-- `FriendUnblocker` always returns; then the friend is not blocked, the request is answered first,
-- with 0, or 1 if the friend was not blocked before, and the friends of nobody have changed.
pub friend_unblocker_lem :
    (services : Services) (conn : ℕ) (a b : String) (w : World services)
    → (w' : World services) × (friend_unblocker services conn a b w ≡ some w')
      × Marked services conn unblock_friend_ack
          (if sismember services w (blacklist a) b then 0 else 1)
          a
          b
          false
          w
          w'
unfolding friend_unblocker srem
friend_unblocker_lem services conn a b w =
    elim (Bool-cases (sismember services w (blacklist a) b)) [
      | inr before ↦ rw before (
        send_json services conn (response unblock_friend_ack 1) w,
        refl,
        Marked-again services conn unblock_friend_ack a b false w before,
      )
      | inl free ↦
          let w₁ = srem services (blacklist a) b w in
          let (w', e, l) =
            send_friend_list_total services b
              (send_json services conn (response unblock_friend_ack 0) w₁) in
          rw free (
            w',
            e,
            Marked-Listed services conn unblock_friend_ack a b false w w₁ w' refl
                (unblocks services a b w) (unblocks_only services a b w) l,
          )
    ]
