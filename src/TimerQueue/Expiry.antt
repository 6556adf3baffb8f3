-- ===== src/TimerQueue/Expiry.antt =====
-- What `getExpired` takes out of the set, and the whole of `handleRead`.
use weee_chatroom.Common.{
  ℕ, ◌-◌, ◌^◌, ◌≤◌, ◌<◌, ◌≡◌, refl, ap, Bool, true, false, not, ◌||◌, ltb, List, [], ◌∷◌, ◌++◌,
  if◌then◌else◌, arith, Bool-cases, inl, inr,
}
use weee_chatroom.TimerQueue.{
  Timer, TimerQueue, earlier, before_sentry, insert_timer, add_timer, add_timers, get_expired,
  left_over, run_callbacks, restart, restart_all, rearm, reset, handle_read,
}
use weee_chatroom.TimerQueue.Order.{
  After, nothing_after, then_after, Ordered, then_later, Scheduled, run_callbacks-Ordered,
  reset-Scheduled,
}

-- Every timer of the list is due at `now`.
pub data Due (now : ℕ) : List Timer → Type 0 where
  none_due : Due now []
  one_due : {t : Timer} {ts : List Timer} → t.expiration ≤ now → Due now ts → Due now (t ∷ ts)

-- No timer of the list is due at `now`.
pub data Later (now : ℕ) : List Timer → Type 0 where
  none_later : Later now []
  one_later : {t : Timer} {ts : List Timer} → now < t.expiration → Later now ts → Later now (t ∷ ts)

-- No timer stands at the address of the sentry.
pub data Allocated : List Timer → Type 0 where
  none_allocated : Allocated []
  one_allocated :
      {t : Timer} {ts : List Timer} → t.address < 2 ^ 64 - 1 → Allocated ts → Allocated (t ∷ ts)

get_expired-append : (now : ℕ) (ts : List Timer) → get_expired now ts ++ left_over now ts ≡ ts
unfolding get_expired left_over
get_expired-append now [] = refl
get_expired-append now (t ∷ ts) = elim (Bool-cases (before_sentry now t)) [
  | inl due ↦ rw due (ap (◌∷◌ t) (get_expired-append now ts))
  | inr later ↦ rw later refl
]

get_expired-Due : (now : ℕ) (ts : List Timer) → Due now (get_expired now ts)
unfolding get_expired
get_expired-Due now [] = none_due
get_expired-Due now (t ∷ ts) = elim (Bool-cases (before_sentry now t)) [
  | inl due ↦ rw due (one_due (ground arith) (get_expired-Due now ts))
  | inr later ↦ rw later none_due
]

After-Later :
    (now : ℕ) (t : Timer) (ts : List Timer) → now < t.expiration → After t ts → Later now ts
After-Later now t [] h nothing_after = none_later
After-Later now t (u ∷ us) h (then_after e a) = one_later (ground arith) (After-Later now t us h a)

left_over-Later :
    (now : ℕ) (ts : List Timer) → Ordered ts → Allocated ts → Later now (left_over now ts)
unfolding left_over
left_over-Later now [] o a = none_later
left_over-Later now (t ∷ ts) (then_later f o) (one_allocated g a) =
    elim (Bool-cases (before_sentry now t)) [
      | inl due ↦ rw due (left_over-Later now ts o a)
      | inr later ↦
          let h : now < t.expiration = ground arith in
          rw later (one_later h (After-Later now t ts h f))
    ]

-- `getExpired` splits a set that is in order and has no timer at the address of the sentry in two
-- without a change of order: the first part is due, the second is not, as the assertion in it says.
pub get_expired_lem :
    (now : ℕ) (ts : List Timer)
    → Ordered ts
    → Allocated ts
    → (get_expired now ts ++ left_over now ts ≡ ts)
      × Due now (get_expired now ts)
      × Later now (left_over now ts)
get_expired_lem now ts o a =
    (get_expired-append now ts, get_expired-Due now ts, left_over-Later now ts o a)

insert_timer-Later :
    (now : ℕ) (t : Timer) (us : List Timer)
    → now < t.expiration
    → Later now us
    → Later now (insert_timer t us)
unfolding insert_timer
insert_timer-Later now t [] h l = one_later h none_later
insert_timer-Later now t (u ∷ us) h (one_later g l) = elim (Bool-cases (earlier t u)) [
  | inl first ↦ rw first (one_later h (one_later g l))
  | inr not_first ↦ elim (Bool-cases (earlier u t)) [
    | inl later ↦ rw (not_first, later) (one_later g (insert_timer-Later now t us h l))
    | inr same ↦ rw (not_first, same) (one_later g l)
  ]
]

add_timers-Later :
    (now : ℕ) (ts : List Timer) (q : TimerQueue)
    → Later now ts
    → Later now q.timers
    → Later now (add_timers ts q).timers
unfolding add_timers add_timer
add_timers-Later now [] q h l = l
add_timers-Later now (t ∷ ts) q (one_later g h) l =
    add_timers-Later now ts (add_timer t q) h (insert_timer-Later now t q.timers g l)

run_callbacks-Later :
    (now : ℕ) (added : ℕ → List Timer) (ts : List Timer) (q : TimerQueue)
    → ((a : ℕ) → Later now (added a))
    → Later now q.timers
    → Later now (run_callbacks added ts q).timers
unfolding run_callbacks
run_callbacks-Later now added [] q h l = l
run_callbacks-Later now added (t ∷ ts) q h l =
    run_callbacks-Later now added ts (add_timers (added t.address) q) h
      (add_timers-Later now (added t.address) q (h t.address) l)

-- A timer that repeats does so after a microsecond or more.
pub data Repeating : List Timer → Type 0 where
  none_repeating : Repeating []
  one_repeating :
      {t : Timer} {ts : List Timer}
      → (not t.repeat || ltb 0 t.interval) ≡ true
      → Repeating ts
      → Repeating (t ∷ ts)

get_expired-Repeating : (now : ℕ) (ts : List Timer) → Repeating ts → Repeating (get_expired now ts)
unfolding get_expired
get_expired-Repeating now [] r = none_repeating
get_expired-Repeating now (t ∷ ts) (one_repeating h r) = elim (Bool-cases (before_sentry now t)) [
  | inl due ↦ rw due (one_repeating h (get_expired-Repeating now ts r))
  | inr later ↦ rw later none_repeating
]

restarted :
    (now : ℕ) (t : Timer) (us : List Timer)
    → (not t.repeat || ltb 0 t.interval) ≡ true
    → Later now us
    → Later now (if t.repeat then insert_timer (restart now t) us else us)
unfolding restart
restarted now t us h l = go t.repeat refl
  where
    go : (b : Bool) → t.repeat ≡ b → Later now (if b then insert_timer (restart now t) us else us)
    go true e = insert_timer-Later now (restart now t) us (ground (arith, e, h)) l
    go false e = l

restart_all-Later :
    (now : ℕ) (ts us : List Timer) → Repeating ts → Later now us → Later now (restart_all now ts us)
unfolding restart_all
restart_all-Later now [] us r l = l
restart_all-Later now (t ∷ ts) us (one_repeating h r) l =
    restart_all-Later now ts (if t.repeat then insert_timer (restart now t) us else us) r
      (restarted now t us h l)

rearm-timers : (q : TimerQueue) → (rearm q).timers ≡ q.timers
unfolding rearm
rearm-timers q = go q.timers refl
  where
    go : (ts : List Timer) → q.timers ≡ ts → (rearm q).timers ≡ q.timers
    go [] e = rw e refl
    go (t ∷ ts) e = rw e refl

left_over-Ordered : (now : ℕ) (ts : List Timer) → Ordered ts → Ordered (left_over now ts)
unfolding left_over
left_over-Ordered now [] o = o
left_over-Ordered now (t ∷ ts) (then_later f o) = elim (Bool-cases (before_sentry now t)) [
  | inl due ↦ rw due (left_over-Ordered now ts o)
  | inr later ↦ rw later (then_later f o)
]

-- `handleRead` leaves the timers in order and the descriptor set for the first of them, whatever
-- timers the callbacks add, where the timers were in order.
pub handle_read-Scheduled :
    (added : ℕ → List Timer) (now : ℕ) (q : TimerQueue)
    → Ordered q.timers
    → Scheduled (handle_read added now q)
unfolding handle_read
handle_read-Scheduled added now q o =
    let q₁ = record q { timers = left_over now q.timers } in
    let expired = get_expired now q.timers in
    reset-Scheduled expired now (run_callbacks added expired q₁)
      (run_callbacks-Ordered added expired q₁ (left_over-Ordered now q.timers o))

-- After `handleRead` at the time `now` no timer that is due then is left in the set, where the set is
-- in order, no timer has the address of the sentry, callbacks add timers for later times only and
-- intervals are a microsecond or more.
pub handle_read-Later :
    (added : ℕ → List Timer) (now : ℕ) (q : TimerQueue)
    → Ordered q.timers
    → Allocated q.timers
    → Repeating q.timers
    → ((a : ℕ) → Later now (added a))
    → Later now (handle_read added now q).timers
unfolding handle_read reset
handle_read-Later added now q o a r h =
    let q₁ = record q { timers = left_over now q.timers } in
    let expired = get_expired now q.timers in
    let q₂ = run_callbacks added expired q₁ in
    let timers = restart_all now expired q₂.timers in
    rw (rearm-timers (record q₂ { timers = timers })) (
      restart_all-Later now expired q₂.timers (get_expired-Repeating now q.timers r)
        (run_callbacks-Later now added expired q₁ h (left_over-Later now q.timers o a)))
