-- ===== src/TimerQueue.antt =====
-- netlib/reactor/TimerQueue.cc with the Timer class of TimerQueue.h: the set of timers and the timer
-- descriptor that wakes the loop for the first one. Times are microseconds since the epoch, and so is
-- an interval after the conversion in `addTime`. An entry of the set is a timer, since its first part
-- is the timer's expiration, which changes only after the entry has been erased.
pub mod Order
pub mod Expiry
mod Tests
use weee_chatroom.Common.{
  ℕ, ◌+◌, ◌-◌, ◌^◌, Bool, true, false, not, ◌&&◌, ◌||◌, ltb, List, [], ◌∷◌, if◌then◌else◌,
}

pub record Timer : Type 0 where
  pub address : ℕ
  pub expiration : ℕ
  pub interval : ℕ
  pub repeat : Bool

-- `Timer::restart`; the invalid time is 0.
unfoldable pub restart : ℕ → Timer → Timer
restart now t = record t { expiration = if t.repeat then now + t.interval else 0 }

-- `operator<` of `std::pair<Timestamp, Timer *>`
abbrev pub before : ℕ → ℕ → ℕ → ℕ → Bool
before time address time' address' =
    ltb time time' || (not (ltb time' time) && ltb address address')

abbrev pub earlier : Timer → Timer → Bool
earlier t u = before t.expiration t.address u.expiration u.address

pub record TimerQueue : Type 0 where
  -- the set, in its order
  pub timers : List Timer
  -- the time for which `resetTimerfd` last set the descriptor
  pub armed : ℕ

-- `timers_.insert`: an entry that is there stays.
unfoldable pub insert_timer : Timer → List Timer → List Timer
insert_timer t [] = t ∷ []
insert_timer t (u ∷ us) =
    let rest = insert_timer t us in
    if earlier t u then t ∷ u ∷ us else if earlier u t then u ∷ rest else u ∷ us

-- Whether `TimerQueue::insert` changes the first expiration.
unfoldable pub earliest_changed : Timer → List Timer → Bool
earliest_changed t [] = true
earliest_changed t (u ∷ us) = ltb t.expiration u.expiration

-- `TimerQueue::addTimer`, in the loop's thread
unfoldable pub add_timer : Timer → TimerQueue → TimerQueue
add_timer t q = record {
  timers = insert_timer t q.timers;
  armed = if earliest_changed t q.timers then t.expiration else q.armed;
}

-- Whether an entry is before the sentry of `getExpired`, (now, UINTPTR_MAX).
abbrev pub before_sentry : ℕ → Timer → Bool
before_sentry now t = before t.expiration t.address now (2 ^ 64 - 1)

-- `TimerQueue::getExpired`: the entries before the lower bound of the sentry, and those left.
unfoldable pub get_expired : ℕ → List Timer → List Timer
get_expired now [] = []
get_expired now (t ∷ ts) =
    let rest = get_expired now ts in if before_sentry now t then t ∷ rest else []

unfoldable pub left_over : ℕ → List Timer → List Timer
left_over now [] = []
left_over now (t ∷ ts) = let rest = left_over now ts in if before_sentry now t then rest else t ∷ ts

-- The timers that a callback adds, one after the other.
unfoldable pub add_timers : List Timer → TimerQueue → TimerQueue
add_timers [] q = q
add_timers (t ∷ ts) q = add_timers ts (add_timer t q)

-- The loop of `handleRead` that runs the callbacks: the one of a timer at an address adds timers.
unfoldable pub run_callbacks : (ℕ → List Timer) → List Timer → TimerQueue → TimerQueue
run_callbacks added [] q = q
run_callbacks added (t ∷ ts) q = run_callbacks added ts (add_timers (added t.address) q)

-- The loop of `reset`: a timer that repeats starts again, another one is deleted.
unfoldable pub restart_all : ℕ → List Timer → List Timer → List Timer
restart_all now [] timers = timers
restart_all now (t ∷ ts) timers =
    let again = insert_timer (restart now t) timers in
    restart_all now ts (if t.repeat then again else timers)

-- `resetTimerfd` for the first timer that is left.
unfoldable pub rearm : TimerQueue → TimerQueue
rearm q = elim q.timers [ [] ↦ q | t ∷ ts ↦ record q { armed = t.expiration } ]

-- `TimerQueue::reset`
unfoldable pub reset : List Timer → ℕ → TimerQueue → TimerQueue
reset expired now q = rearm (record q { timers = restart_all now expired q.timers })

-- `TimerQueue::handleRead` at the time `now`
unfoldable pub handle_read : (ℕ → List Timer) → ℕ → TimerQueue → TimerQueue
handle_read added now q =
    let expired = get_expired now q.timers in
    reset expired now (run_callbacks added expired (record q { timers = left_over now q.timers }))
