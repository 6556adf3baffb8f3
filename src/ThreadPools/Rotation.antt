-- ===== src/ThreadPools/Rotation.antt =====
-- The loops of a pool take turns.
use mathlib.Core.Option.{none-ne-some}
use weee_chatroom.Common.{
  ℕ, zero, suc, ◌+◌, ◌≡◌, refl, true, false, List, [], ◌∷◌, ◌++◌, Option, none, some, leb, length,
  if◌then◌else◌, arith, append_assoc, length-append,
}
use weee_chatroom.ThreadPools.{EventLoopThreadPool, index, rotate, get_next_loop}

abbrev pub pool : ℕ → List ℕ → ℕ → EventLoopThreadPool
pool b ls i = record { base_loop = b; loops = ls; next = i }

-- `n` new connections, one after the other: their loops, and the pool then.
pub next_loops : ℕ → EventLoopThreadPool → Option (List ℕ × EventLoopThreadPool)
next_loops zero p = some ([], p)
next_loops (suc n) p = elim (get_next_loop p) [
  | none ↦ none
  | some first ↦ elim (next_loops n first.1) [
    | none ↦ none
    | some rest ↦ some (first.0 ∷ rest.0, rest.1)
  ]
]

one_more :
    (n l : ℕ) (ls : List ℕ) (p q r : EventLoopThreadPool)
    → get_next_loop p ≡ some (l, q)
    → next_loops n q ≡ some (ls, r)
    → next_loops (suc n) p ≡ some (l ∷ ls, r)
unfolding next_loops
one_more n l ls p q r e f = rw (e, next_loops, f) refl

index-append : (pre : List ℕ) (x : ℕ) (suf : List ℕ) → index (pre ++ x ∷ suf) (length pre) ≡ some x
unfolding index
index-append [] x suf = refl
index-append (y ∷ pre) x suf = index-append pre x suf

get_next_loop-index :
    (b : ℕ) (ls : List ℕ) (i x : ℕ)
    → index ls i ≡ some x
    → get_next_loop (pool b ls i)
      ≡ some (x, pool b ls (if leb (length ls) (i + 1) then 0 else i + 1))
unfolding get_next_loop rotate index
get_next_loop-index b [] i x e = absurd (none-ne-some x e)
get_next_loop-index b (l ∷ ls) i x e = rw e refl

-- The rest of a lap, from the loop behind `pre` on.
turns :
    (b : ℕ) (pre : List ℕ) (x : ℕ) (suf : List ℕ)
    → next_loops (length (x ∷ suf)) (pool b (pre ++ x ∷ suf) (length pre))
      ≡ some (x ∷ suf, pool b (pre ++ x ∷ suf) 0)
unfolding next_loops
turns b pre x [] =
    let ls = pre ++ x ∷ [] in
    let here = get_next_loop-index b ls (length pre) x (index-append pre x []) in
    let last : leb (length ls) (length pre + 1) ≡ true =
      ground (arith, length-append pre (x ∷ [])) in
    one_more 0 x [] (pool b ls (length pre)) (pool b ls 0) (pool b ls 0) (rw last at here) refl
turns b pre x (y ∷ suf) =
    let ls = pre ++ x ∷ y ∷ suf in
    let here = get_next_loop-index b ls (length pre) x (index-append pre x (y ∷ suf)) in
    let more : leb (length ls) (length pre + 1) ≡ false =
      ground (arith, length-append pre (x ∷ y ∷ suf)) in
    let e : (pre ++ x ∷ []) ++ y ∷ suf ≡ ls = append_assoc pre (x ∷ []) (y ∷ suf) in
    let n : length (pre ++ x ∷ []) ≡ length pre + 1 = omega (arith, length-append pre (x ∷ [])) in
    let ih = turns b (pre ++ x ∷ []) y suf in
    one_more (length (y ∷ suf)) x (y ∷ suf) (pool b ls (length pre)) (pool b ls (length pre + 1))
      (pool b ls 0) (rw more at here) (rw (e, n) at ih)

-- In a pool with loops each loop gets one of the next connections, as many as there are loops, in
-- their order, and then the first has its turn again.
pub next_loops-lap :
    (b x : ℕ) (ls : List ℕ)
    → next_loops (length (x ∷ ls)) (pool b (x ∷ ls) 0) ≡ some (x ∷ ls, pool b (x ∷ ls) 0)
next_loops-lap b x ls = turns b [] x ls
