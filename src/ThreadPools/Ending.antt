-- ===== src/ThreadPools/Ending.antt =====
-- What workers do with the tasks that are left, and how a pool ends.
use weee_chatroom.Common.{
  ℕ, zero, suc, ◌<◌, ◌≡◌, refl, ◌⊎◌, inl, inr, Bool, List, [], ◌∷◌, length, arith, ap, true, false,
  if◌then◌else◌,
}
use weee_chatroom.ThreadPools.{
  ThreadPool, waits, ends, take_turn, work, joined, out_of_range, terminated, join_threads, destroy,
}

-- A worker that nobody adds to runs every task of the queue, in order, also after `STOP`; with none
-- left it ends after `STOP` and waits otherwise; on fuel of more than the tasks.
pub work_lem :
    (fuel : ℕ) (stopped : Bool) (tasks : List ℕ)
    → length tasks < fuel
    → work fuel stopped tasks ≡ (tasks, if stopped then ends else waits)
unfolding work take_turn
work_lem zero stopped tasks h = absurd (omega arith)
work_lem (suc fuel) false [] h = refl
work_lem (suc fuel) true [] h = refl
work_lem (suc fuel) false (task ∷ tasks) h = rw (work_lem fuel false tasks (omega arith)) refl
work_lem (suc fuel) true (task ∷ tasks) h = rw (work_lem fuel true tasks (omega arith)) refl

join_threads_lem :
    (n : ℕ) (ts : List ℕ)
    → ((length ts < n) × (join_threads n ts ≡ out_of_range))
      ⊎ ((length ts ≡ n) × (join_threads n ts ≡ joined))
      ⊎ ((n < length ts) × (join_threads n ts ≡ terminated))
unfolding join_threads
join_threads_lem zero [] = inr (inl (refl, refl))
join_threads_lem zero (t ∷ ts) = inr (inr (omega arith, refl))
join_threads_lem (suc n) [] = inl (omega arith, refl)
join_threads_lem (suc n) (t ∷ ts) = elim (join_threads_lem n ts) [
  | inl (h, e) ↦ inl (omega arith, e)
  | inr (inl (h, e)) ↦ inr (inl (ap suc h, e))
  | inr (inr (h, e)) ↦ inr (inr (omega arith, e))
]

-- `~ThreadPool` joins THREAD_NUMS threads whatever the size of the pool: it joins all of them in a
-- pool of 16, runs past the end of a smaller one, and destroys joinable threads of a larger one.
pub destroy_lem :
    (p : ThreadPool)
    → ((length p.threads < 16) × (destroy p ≡ out_of_range))
      ⊎ ((length p.threads ≡ 16) × (destroy p ≡ joined))
      ⊎ ((16 < length p.threads) × (destroy p ≡ terminated))
unfolding destroy
destroy_lem p = join_threads_lem 16 p.threads
