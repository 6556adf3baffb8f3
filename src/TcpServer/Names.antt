-- ===== src/TcpServer/Names.antt =====
-- No two connections of a server have one name, and what is in the map is what was established and not
-- yet destroyed.
use weee_chatroom.Common.{
  ℕ, suc, ◌<◌, ◌≡◌, refl, sym, inl, inr, List, [], ◌∷◌, ◌++◌, some, if◌then◌else◌, ◌==◌, Bool, true,
  false, subst, arith, Bool-cases, ==_iff,
}
use mathlib.Core.Option.{some-injective}
use weee_chatroom.Server.World.{>>=-some}
use weee_chatroom.ThreadPools.{get_next_loop}
use weee_chatroom.TcpServer.{
  TcpServer, erase_name, with_loop, new_connection, remove_connection_in_loop,
}

-- Whether a number is in the map.
abbrev pub has_name : ℕ → List (ℕ × ℕ) → Bool
has_name id [] = false
has_name id ((k, loop) ∷ m) = if k == id then true else has_name id m

-- All numbers are below the next one and differ.
pub data AreNamed : ℕ → List (ℕ × ℕ) → Type 0 where
  none_named : (next : ℕ) → AreNamed next []
  and_named :
      (next id loop : ℕ) (m : List (ℕ × ℕ))
      → id < next
      → has_name id m ≡ false
      → AreNamed next m
      → AreNamed next ((id, loop) ∷ m)

has_name-append :
    (id : ℕ) (m : List (ℕ × ℕ)) (k loop : ℕ)
    → has_name id m ≡ false
    → (k == id) ≡ false
    → has_name id (m ++ (k, loop) ∷ []) ≡ false
has_name-append id [] k loop h e = ground (arith, e)
has_name-append id ((j, l) ∷ m) k loop h e = elim (Bool-cases (j == id)) [
  | inl here ↦ absurd (ground (arith, here, h))
  | inr there ↦ rw there (has_name-append id m k loop (rw there at h) e)
]

new-AreNamed :
    (next : ℕ) (m : List (ℕ × ℕ)) (loop : ℕ)
    → AreNamed next m
    → AreNamed (suc next) (m ++ (next, loop) ∷ [])
new-AreNamed next [] loop a =
    and_named (suc next) next loop [] (omega arith) refl (none_named (suc next))
new-AreNamed next ((id, l) ∷ m) loop (and_named next₀ id₀ l₀ m₀ below differ a) =
    and_named (suc next) id l (m ++ (next, loop) ∷ []) (omega arith)
      (has_name-append id m next loop differ (ground arith)) (new-AreNamed next m loop a)

has_name-erase_name :
    (id gone : ℕ) (m : List (ℕ × ℕ))
    → has_name id m ≡ false
    → has_name id (erase_name gone m) ≡ false
unfolding erase_name
has_name-erase_name id gone [] h = refl
has_name-erase_name id gone ((k, l) ∷ m) h = elim (Bool-cases (k == id)) [
  | inl here ↦ absurd (ground (arith, here, h))
  | inr there ↦ elim (Bool-cases (k == gone)) [
    | inl this ↦ rw this (rw there at h)
    | inr other ↦ rw (other, there) (has_name-erase_name id gone m (rw there at h))
  ]
]

erase_name-AreNamed :
    (next gone : ℕ) (m : List (ℕ × ℕ)) → AreNamed next m → AreNamed next (erase_name gone m)
unfolding erase_name
erase_name-AreNamed next gone [] a = none_named next
erase_name-AreNamed next gone ((id, l) ∷ m) (and_named n i l₀ m₀ below differ a) =
    elim (Bool-cases (id == gone)) [
      | inl this ↦ rw this a
      | inr other ↦ rw other (
          and_named next id l (erase_name gone m) below (has_name-erase_name id gone m differ)
            (erase_name-AreNamed next gone m a))
    ]

-- A connection that was removed is not in the map.
erased_name :
    (next gone : ℕ) (m : List (ℕ × ℕ)) → AreNamed next m → has_name gone (erase_name gone m) ≡ false
unfolding erase_name
erased_name next gone [] a = refl
erased_name next gone ((id, l) ∷ m) (and_named n i l₀ m₀ below differ a) =
    elim (Bool-cases (id == gone)) [
      | inl this ↦ rw this (ground (arith, (==_iff id gone).0 this, differ))
      | inr other ↦ rw (other, other) (erased_name next gone m a)
    ]

fresh_name : (next : ℕ) (m : List (ℕ × ℕ)) → AreNamed next m → has_name next m ≡ false
fresh_name next [] a = refl
fresh_name next ((id, l) ∷ m) (and_named n i l₀ m₀ below differ a) =
    let other : (id == next) ≡ false = ground arith in rw other (fresh_name next m a)

-- The states that accepted connections and lost ones lead to.
pub data Reachable : TcpServer → Type 0 where
  starts : (s : TcpServer) → s.connections ≡ [] → Reachable s
  accepts : (s s' : TcpServer) → Reachable s → new_connection s ≡ some s' → Reachable s'
  removes :
      (id loop : ℕ) (s : TcpServer) → Reachable s → Reachable (remove_connection_in_loop id loop s)

Reachable-AreNamed : (s : TcpServer) → Reachable s → AreNamed s.next_conn_id s.connections
unfolding new_connection with_loop remove_connection_in_loop
Reachable-AreNamed s (starts s₀ e) =
    subst (AreNamed s.next_conn_id) (sym e) (none_named s.next_conn_id)
Reachable-AreNamed s (accepts s₀ s₁ r e) =
    let (next, _, f) = >>=-some (get_next_loop s₀.thread_pool) _ s e in
    subst (λ (t : TcpServer). AreNamed t.next_conn_id t.connections)
      (some-injective (with_loop next s₀) s f)
      (new-AreNamed s₀.next_conn_id s₀.connections next.0 (Reachable-AreNamed s₀ r))
Reachable-AreNamed s (removes id loop s₀ r) =
    erase_name-AreNamed s₀.next_conn_id id s₀.connections (Reachable-AreNamed s₀ r)

-- In every state that a server gets to, the name of the next connection is that of none in the map, and
-- a connection that is removed is in the map no more.
pub Reachable-IsFresh :
    (s : TcpServer) (id loop : ℕ)
    → Reachable s
    → (has_name s.next_conn_id s.connections ≡ false)
      × (has_name id (remove_connection_in_loop id loop s).connections ≡ false)
unfolding remove_connection_in_loop
Reachable-IsFresh s id loop r =
    let a = Reachable-AreNamed s r in
    (fresh_name s.next_conn_id s.connections a, erased_name s.next_conn_id id s.connections a)
