-- ===== src/Server/Chat/Delivery.antt =====
-- What `Chatter` does with a message, on each of its branches.
use Prim.Native.String.{String}
use text.Mathlib.TextPositions.{eq_refl}
use weee_chatroom.Common.{
  ℕ, ◌≡◌, refl, ◌∙◌, ◌⊎◌, inl, inr, Bool, true, false, ◌&&◌, List, [], ◌∷◌, ◌++◌, none, some, arith,
  Option-cases, Bool-cases,
}
use weee_chatroom.Server.Services.{Services, Key, same_key, friends, offline_messages, messages}
use weee_chatroom.Server.World.{
  World, relay, get_connection_ptr, send_json, sismember, lpush, rpush,
}
use weee_chatroom.Server.Chat.{ChatRequest, deliver, chatter}

module _ (services : Services) where
  open services use {redis, json}

  abbrev pub offline : World services → String → List String
  offline w user_id = redis.items w.cache (offline_messages user_id)

  -- The message reached the user's connection, or waits for the user, and nothing else changed.
  pub record Delivered (user_id : String) (js : json.Json) (w w' : World services) : Type 0 where
    pub sent_on :
        (target : ℕ)
        → get_connection_ptr services w user_id ≡ some target
        → (w'.outbox ≡ w.outbox ++ (target, relay js) ∷ [])
          × (offline w' user_id ≡ offline w user_id)
    pub kept :
        get_connection_ptr services w user_id ≡ none
        → (w'.outbox ≡ w.outbox) × (offline w' user_id ≡ json.dump js ∷ offline w user_id)
    pub same_users : w'.online_users ≡ w.online_users

  pub deliver-Delivered :
      (user_id : String) (js : json.Json) (w : World services)
      → Delivered user_id js w (deliver services user_id js w)
  unfolding deliver send_json lpush
  deliver-Delivered user_id js w = record {
    sent_on = λ target e. (ground (arith, e), ground (arith, e));
    kept = λ e. (
      ground (arith, e),
      ground (
        arith,
        e,
        eq_refl user_id,
        redis.items-lpush w.cache (offline_messages user_id) (json.dump js)
            (offline_messages user_id),
      ),
    );
    same_users = ground arith;
  }

  pub items-deliver :
      (user_id : String) (js : json.Json) (w : World services) (k : Key)
      → same_key (offline_messages user_id) k ≡ false
      → redis.items (deliver services user_id js w).cache k ≡ redis.items w.cache k
  unfolding deliver send_json lpush
  items-deliver user_id js w k h = ground (
    arith,
    redis.items-lpush w.cache (offline_messages user_id) (json.dump js) k,
    Option-cases (get_connection_ptr services w user_id),
  )

  -- Storing a message touches no list of offline messages.
  stored-Delivered :
      (user_id : String) (js : json.Json) (w : World services)
      → Delivered user_id js w
          (rpush services messages (json.dump js) (deliver services user_id js w))
  unfolding rpush
  stored-Delivered user_id js w =
      let d = deliver-Delivered user_id js w in
      let same =
        redis.items-rpush (deliver services user_id js w).cache messages (json.dump js)
          (offline_messages user_id) in
      record {
        sent_on = λ target e. ((d.sent_on target e).0, same ∙ (d.sent_on target e).1);
        kept = λ e. ((d.kept e).0, same ∙ (d.kept e).1);
        same_users = d.same_users;
      }

  -- The message went to the user's connection, or is the latest of the user's offline messages.
  pub Reached : String → json.Json → World services → World services → Type 0
  Reached user_id js w w' =
      ((target : ℕ) × (get_connection_ptr services w user_id ≡ some target)
        × (w'.outbox ≡ w.outbox ++ (target, relay js) ∷ [])
        × (offline w' user_id ≡ offline w user_id))
      ⊎ ((get_connection_ptr services w user_id ≡ none)
          × (w'.outbox ≡ w.outbox)
          × (offline w' user_id ≡ json.dump js ∷ offline w user_id))

  Delivered-Reached :
      (user_id : String) (js : json.Json) (w w' : World services)
      → Delivered user_id js w w'
      → Reached user_id js w w'
  unfolding Reached
  Delivered-Reached user_id js w w' d =
      elim (Option-cases (get_connection_ptr services w user_id)) [
        | inl off ↦ let (outbox, waiting) = d.kept off in inr (off, outbox, waiting)
        | inr (target, on) ↦
            let (outbox, waiting) = d.sent_on target on in inl (target, on, outbox, waiting)
      ]

  -- Each of the two is among the friends of the other.
  abbrev pub are_friends : World services → String → String → Bool
  are_friends w a b = sismember services w (friends a) b && sismember services w (friends b) a

  -- `Chatter`: between friends, as both sets have it, the message reaches the receiver's connection
  -- or waits for the receiver, and is stored once for the history behind the others; otherwise
  -- nothing happens.
  pub chatter_lem :
      (r : ChatRequest services) (w : World services)
      → let w' = chatter services r w in
        ((are_friends w r.sender_id r.receiver_id ≡ true)
          × Reached r.receiver_id r.js w w'
          × (redis.items w'.cache messages ≡ redis.items w.cache messages ++ json.dump r.js ∷ []))
        ⊎ ((are_friends w r.sender_id r.receiver_id ≡ false) × (w' ≡ w))
  unfolding chatter rpush
  chatter_lem r w = elim (Bool-cases (sismember services w (friends r.sender_id) r.receiver_id)) [
    | inr stranger ↦ inr (ground arith, ground arith)
    | inl first ↦ elim (Bool-cases (sismember services w (friends r.receiver_id) r.sender_id)) [
      | inr blocked ↦ inr (ground arith, ground arith)
      | inl second ↦
          rw (first, second)
            (inl (
              refl,
              Delivered-Reached r.receiver_id r.js w
                  (rpush services messages (json.dump r.js) delivered)
                  (stored-Delivered r.receiver_id r.js w),
              ground (
                arith,
                redis.items-rpush delivered.cache messages (json.dump r.js) messages,
                items-deliver r.receiver_id r.js w messages refl,
              ),
            ))
    ]
  ]
    where
      delivered : World services
      delivered = deliver services r.receiver_id r.js w
