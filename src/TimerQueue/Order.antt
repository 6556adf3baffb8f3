-- ===== src/TimerQueue/Order.antt =====
-- The order of the timers, and the time for which the descriptor is set.
use weee_chatroom.Common.{
  ℕ, ◌≡◌, refl, Bool, true, false, List, [], ◌∷◌, if◌then◌else◌, arith, Bool-cases, inl, inr,
}
use weee_chatroom.TimerQueue.{
  Timer, TimerQueue, earlier, insert_timer, earliest_changed, add_timer, add_timers, run_callbacks,
  restart, restart_all, rearm, reset,
}

-- Every timer of the list comes after `t` in the order of the set.
pub data After (t : Timer) : List Timer → Type 0 where
  nothing_after : After t []
  then_after : {u : Timer} {us : List Timer} → earlier t u ≡ true → After t us → After t (u ∷ us)

pub data Ordered : List Timer → Type 0 where
  no_timer : Ordered []
  then_later : {t : Timer} {ts : List Timer} → After t ts → Ordered ts → Ordered (t ∷ ts)

earlier_trans : (t u v : Timer) → earlier t u ≡ true → earlier u v ≡ true → earlier t v ≡ true
earlier_trans t u v h g = ground arith

After-trans : (t u : Timer) (us : List Timer) → earlier t u ≡ true → After u us → After t us
After-trans t u [] h a = nothing_after
After-trans t u (v ∷ us) h (then_after g a) =
    then_after (earlier_trans t u v h g) (After-trans t u us h a)

After-insert_timer :
    (t u : Timer) (us : List Timer) → earlier t u ≡ true → After t us → After t (insert_timer u us)
unfolding insert_timer
After-insert_timer t u [] h a = then_after h nothing_after
After-insert_timer t u (v ∷ us) h (then_after g a) = elim (Bool-cases (earlier u v)) [
  | inl first ↦ rw first (then_after h (then_after g a))
  | inr not_first ↦ elim (Bool-cases (earlier v u)) [
    | inl later ↦ rw (not_first, later) (then_after g (After-insert_timer t u us h a))
    | inr same ↦ rw (not_first, same) (then_after g a)
  ]
]

insert_timer-Ordered : (t : Timer) (us : List Timer) → Ordered us → Ordered (insert_timer t us)
unfolding insert_timer
insert_timer-Ordered t [] o = then_later nothing_after no_timer
insert_timer-Ordered t (u ∷ us) (then_later a o) = elim (Bool-cases (earlier t u)) [
  | inl first ↦
      rw first (then_later (then_after first (After-trans t u us first a)) (then_later a o))
  | inr not_first ↦ elim (Bool-cases (earlier u t)) [
    | inl later ↦
        rw (not_first, later)
          (then_later (After-insert_timer u t us later a) (insert_timer-Ordered t us o))
    | inr same ↦ rw (not_first, same) (then_later a o)
  ]
]

-- The descriptor is set for the first timer, if there is one.
pub data IsArmed : List Timer → ℕ → Type 0 where
  nothing_to_wait_for : {a : ℕ} → IsArmed [] a
  for_first : {t : Timer} {ts : List Timer} {a : ℕ} → a ≡ t.expiration → IsArmed (t ∷ ts) a

pub record Scheduled (q : TimerQueue) : Type 0 where
  pub in_order : Ordered q.timers
  pub is_armed : IsArmed q.timers q.armed

insert_timer-IsArmed :
    (t : Timer) (us : List Timer) (a : ℕ)
    → IsArmed us a
    → IsArmed (insert_timer t us) (if earliest_changed t us then t.expiration else a)
unfolding insert_timer earliest_changed
insert_timer-IsArmed t [] a h = for_first refl
insert_timer-IsArmed t (u ∷ us) a (for_first e) = elim (Bool-cases (earlier t u)) [
  | inl first ↦ rw first (for_first (ground arith))
  | inr not_first ↦ elim (Bool-cases (earlier u t)) [
    | inl later ↦ rw (not_first, later) (for_first (ground arith))
    | inr same ↦ rw (not_first, same) (for_first (ground arith))
  ]
]

-- `addTimer` keeps the timers in order and the descriptor set for the first of them.
pub add_timer-Scheduled : (t : Timer) (q : TimerQueue) → Scheduled q → Scheduled (add_timer t q)
unfolding add_timer
add_timer-Scheduled t q s = record {
  in_order = insert_timer-Ordered t q.timers s.in_order;
  is_armed = insert_timer-IsArmed t q.timers q.armed s.is_armed;
}

add_timers-Ordered :
    (ts : List Timer) (q : TimerQueue) → Ordered q.timers → Ordered (add_timers ts q).timers
unfolding add_timers add_timer
add_timers-Ordered [] q o = o
add_timers-Ordered (t ∷ ts) q o =
    add_timers-Ordered ts (add_timer t q) (insert_timer-Ordered t q.timers o)

pub run_callbacks-Ordered :
    (added : ℕ → List Timer) (ts : List Timer) (q : TimerQueue)
    → Ordered q.timers
    → Ordered (run_callbacks added ts q).timers
unfolding run_callbacks
run_callbacks-Ordered added [] q o = o
run_callbacks-Ordered added (t ∷ ts) q o =
    run_callbacks-Ordered added ts (add_timers (added t.address) q)
      (add_timers-Ordered (added t.address) q o)

if_Ordered :
    (b : Bool) (ts us : List Timer) → Ordered ts → Ordered us → Ordered (if b then ts else us)
if_Ordered true ts us o p = o
if_Ordered false ts us o p = p

restart_all-Ordered : (now : ℕ) (ts us : List Timer) → Ordered us → Ordered (restart_all now ts us)
unfolding restart_all
restart_all-Ordered now [] us o = o
restart_all-Ordered now (t ∷ ts) us o =
    let again = insert_timer (restart now t) us in
    restart_all-Ordered now ts (if t.repeat then again else us)
      (if_Ordered t.repeat again us (insert_timer-Ordered (restart now t) us o) o)

rearmed :
    (ts : List Timer) (a : ℕ) → Ordered ts → Scheduled (rearm (record { timers = ts; armed = a }))
unfolding rearm
rearmed [] a o = record { in_order = o; is_armed = nothing_to_wait_for }
rearmed (t ∷ ts) a o = record { in_order = o; is_armed = for_first refl }

pub reset-Scheduled :
    (expired : List Timer) (now : ℕ) (q : TimerQueue)
    → Ordered q.timers
    → Scheduled (reset expired now q)
unfolding reset
reset-Scheduled expired now q o =
    rearmed (restart_all now expired q.timers) q.armed (restart_all-Ordered now expired q.timers o)
