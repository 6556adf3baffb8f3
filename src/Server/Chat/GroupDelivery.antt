-- ===== src/Server/Chat/GroupDelivery.antt =====
-- What `GroupChatter` does with a message: who gets it, and how often it is stored.
use Prim.Native.String.{String}
use text.Mathlib.Text.{◌==◌}
use weee_chatroom.Common.{
  ℕ, ◌≡◌, refl, sym, ap, ap₂, ◌⊎◌, ◌∙◌, true, false, List, [], ◌∷◌, ◌++◌, none, some, if◌then◌else◌,
  arith, Option-cases, Bool-cases, inl, inr, length, replicate, append_assoc, append-nil,
}
use weee_chatroom.Server.Services.{Services, group, group_messages}
use weee_chatroom.Server.World.{World, Message, relay, get_connection_ptr, sismember, rpush}
use weee_chatroom.Server.Chat.{GroupChatRequest, deliver, to_member, to_members, group_chatter}
use weee_chatroom.Server.Chat.Delivery.{deliver-Delivered, items-deliver}

module _ (services : Services) where
  open services use {redis, json}

  -- What goes out to the members: to each one but the sender who is online, in the members' order.
  notice : GroupChatRequest services → World services → String → List (ℕ × Message services)
  notice r w member_id =
      if member_id == r.sender_id then [] else elim (get_connection_ptr services w member_id) [
        | some target ↦ (target, relay r.js) ∷ []
        | none ↦ []
      ]

  pub notices :
      GroupChatRequest services → World services → List String → List (ℕ × Message services)
  notices r w [] = []
  notices r w (member_id ∷ members) = notice r w member_id ++ notices r w members

  -- One turn of the loop.
  record Turn (r : GroupChatRequest services) (m : String) (w w' : World services) : Type 0 where
    outbox : w'.outbox ≡ w.outbox ++ notice r w m
    stored :
        redis.items w'.cache group_messages
        ≡ redis.items w.cache group_messages ++ json.dump r.js ∷ []
    same_users : w'.online_users ≡ w.online_users

  to_member-Turn :
      (r : GroupChatRequest services) (m : String) (w : World services)
      → Turn r m w (to_member services r m w)
  unfolding to_member notice rpush
  to_member-Turn r m w =
      let d = deliver-Delivered services m r.js w in
      let to_one = deliver services m r.js w in
      elim (Bool-cases (m == r.sender_id)) [
        | inl own ↦ record {
          outbox = ground (arith, own, append-nil w.outbox);
          stored = ground (
            arith,
            own,
            redis.items-rpush w.cache group_messages (json.dump r.js) group_messages,
          );
          same_users = ground (arith, own);
        }
        | inr other ↦ elim (Option-cases (get_connection_ptr services w m)) [
          | inl off ↦ record {
            outbox = ground (arith, other, off, d.kept off, append-nil w.outbox);
            stored = ground (
              arith,
              other,
              redis.items-rpush to_one.cache group_messages (json.dump r.js) group_messages,
              items-deliver services m r.js w group_messages refl,
            );
            same_users = ground (arith, other, d.same_users);
          }
          | inr (target, on) ↦ record {
            outbox = ground (arith, other, on, d.sent_on target on);
            stored = ground (
              arith,
              other,
              redis.items-rpush to_one.cache group_messages (json.dump r.js) group_messages,
              items-deliver services m r.js w group_messages refl,
            );
            same_users = ground (arith, other, d.same_users);
          }
        ]
      ]

  notice_same_users :
      (r : GroupChatRequest services) (m : String) (w w' : World services)
      → w'.online_users ≡ w.online_users
      → notice r w' m ≡ notice r w m
  unfolding notice get_connection_ptr
  notice_same_users r m w w' e = ground (arith, e)

  notices_same_users :
      (r : GroupChatRequest services) (ms : List String) (w w' : World services)
      → w'.online_users ≡ w.online_users
      → notices r w' ms ≡ notices r w ms
  unfolding notices
  notices_same_users r [] w w' e = refl
  notices_same_users r (m ∷ ms) w w' e =
      ap₂ ◌++◌ (notice_same_users r m w w' e) (notices_same_users r ms w w' e)

  to_members_lem :
      (r : GroupChatRequest services) (ms : List String) (w : World services)
      → let w' = to_members services r ms w in
        (w'.outbox ≡ w.outbox ++ notices r w ms)
        × (redis.items w'.cache group_messages
            ≡ redis.items w.cache group_messages ++ replicate (length ms) (json.dump r.js))
  unfolding to_members notices
  to_members_lem r [] w = (sym (append-nil w.outbox), sym (append-nil _))
  to_members_lem r (m ∷ ms) w =
      let t = to_member-Turn r m w in
      let w₁ = to_member services r m w in
      let (sent, stored) = to_members_lem r ms w₁ in
      (
        sent
            ∙ ap₂ ◌++◌ t.outbox (notices_same_users r ms w w₁ t.same_users)
            ∙ append_assoc w.outbox (notice r w m) (notices r w ms),
        stored
            ∙ ap (λ l. l ++ replicate (length ms) (json.dump r.js)) t.stored
            ∙ append_assoc (redis.items w.cache group_messages) (json.dump r.js ∷ [])
                (replicate (length ms) (json.dump r.js)),
      )

  -- `GroupChatter`: a message of a member goes to each other member that is online, and is stored for
  -- the group's history once for every member of the group; one of somebody else does nothing.
  pub group_chatter_lem :
      (r : GroupChatRequest services) (w : World services)
      → let w' = group_chatter services r w in
        let members = redis.smembers w.cache (group r.group_id) in
        ((sismember services w (group r.group_id) r.sender_id ≡ true)
          × (w'.outbox ≡ w.outbox ++ notices r w members)
          × (redis.items w'.cache group_messages
              ≡ redis.items w.cache group_messages ++ replicate (length members) (json.dump r.js)))
        ⊎ ((sismember services w (group r.group_id) r.sender_id ≡ false) × (w' ≡ w))
  unfolding group_chatter
  group_chatter_lem r w = elim (Bool-cases (sismember services w (group r.group_id) r.sender_id)) [
    | inr stranger ↦ inr (stranger, rw stranger)
    | inl member ↦
        let (sent, kept) = to_members_lem r (redis.smembers w.cache (group r.group_id)) w in
        rw member (inl (refl, sent, kept))
  ]
