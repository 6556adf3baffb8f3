-- ===== src/TimerQueue/Tests.antt =====
-- Two timers, of which one repeats.
use weee_chatroom.Common.{◌≡◌, refl, true, false, [], ◌∷◌, arith, ◌++◌}
use weee_chatroom.TimerQueue.{
  Timer, TimerQueue, add_timer, get_expired, left_over, handle_read, reset, rearm, restart_all,
  insert_timer, run_callbacks, add_timers, restart,
}
use weee_chatroom.TimerQueue.Order.{
  nothing_after, then_after, Ordered, no_timer, then_later, for_first, Scheduled,
  add_timer-Scheduled,
}
use weee_chatroom.TimerQueue.Expiry.{
  Due, Later, none_later, Allocated, none_allocated, one_allocated, none_repeating, one_repeating,
  get_expired_lem, handle_read-Scheduled, handle_read-Later,
}

abbrev heartbeat : Timer
heartbeat = record { address = 64; expiration = 1000; interval = 500; repeat = true }

abbrev once : Timer
once = record { address = 96; expiration = 3000; interval = 0; repeat = false }

abbrev both : TimerQueue
both = record { timers = heartbeat ∷ once ∷ []; armed = 1000 }

both-Ordered : Ordered (heartbeat ∷ once ∷ [])
both-Ordered = then_later (then_after refl nothing_after) (then_later nothing_after no_timer)

both-Allocated : Allocated (heartbeat ∷ once ∷ [])
both-Allocated = one_allocated (omega arith) (one_allocated (omega arith) none_allocated)

-- The heartbeat is set again for half a millisecond later.
beats :
    handle_read (λ a. []) 1200 both
    ≡ record { timers = (record heartbeat { expiration = 1700 }) ∷ once ∷ []; armed = 1700 }
unfolding handle_read reset rearm restart_all get_expired insert_timer run_callbacks add_timers
    left_over restart
beats = refl

add_timer-Scheduled_example : Scheduled (add_timer (record once { expiration = 500 }) both)
add_timer-Scheduled_example =
    add_timer-Scheduled (record once { expiration = 500 }) both
      (record { in_order = both-Ordered; is_armed = for_first refl })

get_expired_lem_example :
    (get_expired 1200 (heartbeat ∷ once ∷ []) ++ left_over 1200 (heartbeat ∷ once ∷ [])
      ≡ heartbeat ∷ once ∷ [])
    × Due 1200 (get_expired 1200 (heartbeat ∷ once ∷ []))
    × Later 1200 (left_over 1200 (heartbeat ∷ once ∷ []))
get_expired_lem_example = get_expired_lem 1200 (heartbeat ∷ once ∷ []) both-Ordered both-Allocated

handle_read-Scheduled_example : Scheduled (handle_read (λ a. []) 1200 both)
handle_read-Scheduled_example = handle_read-Scheduled (λ a. []) 1200 both both-Ordered

handle_read-Later_example : Later 1200 (handle_read (λ a. []) 1200 both).timers
handle_read-Later_example =
    handle_read-Later (λ a. []) 1200 both both-Ordered both-Allocated
      (one_repeating refl (one_repeating refl none_repeating)) (λ a. none_later)
