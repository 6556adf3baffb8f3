-- ===== src/EventLoop/Tests.antt =====
-- A loop in which another thread queues the functor 1, which queues the functor 2.
use weee_chatroom.Common.{ℕ, zero, suc, ◌<◌, ◌≡◌, ◌≢◌, ◌⊎◌, refl, List, [], ◌∷◌, ◌++◌, false}
use weee_chatroom.EventLoop.{
  EventLoop, queue_in_loop, wakeup, take_pending, finish_pending, call_functor, queue_all, call_all,
  do_pending_functors,
}
use weee_chatroom.EventLoop.Turns.{
  Machine, polling, handling, calling, queues, wakes, takes, calls, Reachable, starts, then_step,
  to_call, Reachable-IsOrderly,
}

abbrev idle : EventLoop
idle = record { pending_functors = []; calling_pending_functors = false; wakeups = 0; quit = false }

abbrev queues_next : ℕ → List ℕ
queues_next (suc zero) = 2 ∷ []
queues_next f = []

-- `doPendingFunctors` calls what waits, and what that queues waits with a wakeup.
calls_once :
    do_pending_functors queues_next (record idle { pending_functors = 1 ∷ [] })
    ≡ record idle { pending_functors = 2 ∷ []; wakeups = 1 }
unfolding do_pending_functors take_pending finish_pending call_functor call_all queue_all
    queue_in_loop wakeup
calls_once = refl

abbrev queued : Machine
queued = record { loop = queue_in_loop false 1 idle; phase = polling; queued = 1 ∷ []; called = [] }

abbrev awake : Machine
awake = record queued { phase = handling }

queued-Reachable : Reachable queues_next queued
queued-Reachable =
    then_step (record { loop = idle; phase = polling; queued = []; called = [] }) queued
      (starts idle refl)
      (queues 1 (record { loop = idle; phase = polling; queued = []; called = [] }))

abbrev about_to_call : Machine
about_to_call = record {
  loop = take_pending (queue_in_loop false 1 idle);
  phase = calling (1 ∷ []);
  queued = 1 ∷ [];
  called = [];
}

abbrev has_called : Machine
has_called = record {
  loop = call_functor queues_next 1 (take_pending (queue_in_loop false 1 idle));
  phase = calling [];
  queued = 1 ∷ 2 ∷ [];
  called = 1 ∷ [];
}

has_called-Reachable : Reachable queues_next has_called
unfolding queue_in_loop wakeup
has_called-Reachable =
    then_step about_to_call has_called
      (then_step awake about_to_call
        (then_step queued awake queued-Reachable (wakes (queue_in_loop false 1 idle) (1 ∷ []) []))
        (takes (queue_in_loop false 1 idle) (1 ∷ []) []))
      (calls 1 [] (take_pending (queue_in_loop false 1 idle)) (1 ∷ []) [])

Reachable-IsOrderly_example :
    (has_called.called ++ (to_call has_called.phase ++ has_called.loop.pending_functors)
      ≡ has_called.queued)
    × ((has_called.phase ≢ polling)
        ⊎ ((has_called.loop.pending_functors ≡ []) ⊎ (0 < has_called.loop.wakeups)))
Reachable-IsOrderly_example = Reachable-IsOrderly queues_next has_called has_called-Reachable
