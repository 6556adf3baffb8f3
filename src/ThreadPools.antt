-- ===== src/ThreadPools.antt =====
-- netlib/reactor/EventLoopThreadPool.cc: which loop gets a new connection; and
-- netlib/base/ThreadPool.cc: the queue of tasks, the workers' loop and the end of a pool. A loop, a
-- thread and a task are numbers.
pub mod Rotation
pub mod Ending
mod Tests
use weee_chatroom.Common.{
  ℕ, zero, suc, ◌+◌, Bool, true, false, List, [], ◌∷◌, ◌++◌, Option, none, some, leb, length, drop,
  if◌then◌else◌,
}

pub record EventLoopThreadPool : Type 0 where
  pub base_loop : ℕ
  pub loops : List ℕ
  pub next : ℕ

-- `loops_[next_]`, undefined past the end.
unfoldable pub index : List ℕ → ℕ → Option ℕ
index [] i = none
index (x ∷ xs) zero = some x
index (x ∷ xs) (suc i) = index xs i

-- The branch of `getNextLoop` for a pool with loops.
unfoldable pub rotate : EventLoopThreadPool → Option ℕ → Option (ℕ × EventLoopThreadPool)
rotate p none = none
rotate p (some loop) =
    some (loop, record p { next = if leb (length p.loops) (p.next + 1) then 0 else p.next + 1 })

-- `getNextLoop`
unfoldable pub get_next_loop : EventLoopThreadPool → Option (ℕ × EventLoopThreadPool)
get_next_loop p = elim p.loops [
  | [] ↦ some (p.base_loop, p)
  | _ ∷ _ ↦ rotate p (index p.loops p.next)
]

pub record ThreadPool : Type 0 where
  pub tasks : List ℕ
  -- joinable threads
  pub threads : List ℕ
  -- `STOP`
  pub stopped : Bool

-- `add_task`
unfoldable pub add_task : ℕ → ThreadPool → ThreadPool
add_task task p = record p { tasks = p.tasks ++ task ∷ [] }

-- `add_last_task`
unfoldable pub add_last_task : ℕ → ThreadPool → ThreadPool
add_last_task task p = record p { tasks = task ∷ [] }

-- What a worker does with the lock in its hands.
pub data Turn : Type 0 where
  waits ends : Turn
  runs : ℕ → List ℕ → Turn

unfoldable pub take_turn : Bool → List ℕ → Turn
take_turn false [] = waits
take_turn true [] = ends
take_turn stopped (task ∷ tasks) = runs task tasks

-- The loop of `work`, on fuel: the tasks that a worker runs while nothing is added, and how it stands
-- then. With no fuel left it stands at its next turn.
unfoldable pub work : ℕ → Bool → List ℕ → List ℕ × Turn
work zero stopped tasks = ([], take_turn stopped tasks)
work (suc fuel) stopped tasks = elim (take_turn stopped tasks) [
  | waits ↦ ([], waits)
  | ends ↦ ([], ends)
  | runs task rest ↦ let later = work fuel stopped rest in (task ∷ later.0, later.1)
]

-- `THREAD_NUMS`
abbrev pub thread_nums : ℕ
thread_nums = 16

-- How `~ThreadPool` ends: the threads are joined, the loop over `threads[i]` runs past the end, or a
-- thread that is joinable is destroyed, which ends the process.
pub data Destroyed : Type 0 where
  joined out_of_range terminated : Destroyed

-- The loop from `i` on: `n` threads are to be joined.
unfoldable pub join_threads : ℕ → List ℕ → Destroyed
join_threads zero [] = joined
join_threads zero (t ∷ ts) = terminated
join_threads (suc n) [] = out_of_range
join_threads (suc n) (t ∷ ts) = join_threads n ts

unfoldable pub destroy : ThreadPool → Destroyed
destroy p = join_threads thread_nums p.threads
