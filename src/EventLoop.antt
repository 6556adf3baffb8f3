-- ===== src/EventLoop.antt =====
-- netlib/reactor/EventLoop.cc: the functors that wait for the loop's thread, and what wakes it. A
-- functor is a number, and `body f` are the functors that it queues, in the loop's thread, when it
-- runs. The counter of the eventfd is the number of wakeups since it was read.
pub mod Turns
mod Tests
use weee_chatroom.Common.{
  ℕ, zero, suc, Bool, true, false, not, ◌||◌, List, [], ◌∷◌, ◌++◌, if◌then◌else◌,
}

pub record EventLoop : Type 0 where
  pub pending_functors : List ℕ
  pub calling_pending_functors : Bool
  pub wakeups : ℕ
  pub quit : Bool

-- `wakeup`
unfoldable pub wakeup : EventLoop → EventLoop
wakeup l = record l { wakeups = suc l.wakeups }

-- `handleRead`
unfoldable pub handle_read : EventLoop → EventLoop
handle_read l = record l { wakeups = 0 }

-- `queueInLoop`, in the loop's thread or another one. The push_back, which the source does with the
-- lock held, and the wakeup after it are one step here: no other step comes between the two.
unfoldable pub queue_in_loop : Bool → ℕ → EventLoop → EventLoop
queue_in_loop in_loop f l =
    let queued = record l { pending_functors = l.pending_functors ++ f ∷ [] } in
    if not in_loop || l.calling_pending_functors then wakeup queued else queued

unfoldable pub queue_all : List ℕ → EventLoop → EventLoop
queue_all [] l = l
queue_all (f ∷ fs) l = queue_all fs (queue_in_loop true f l)

-- `quit`
unfoldable pub ask_quit : Bool → EventLoop → EventLoop
ask_quit in_loop l = let asked = record l { quit = true } in if in_loop then asked else wakeup asked

module _ (body : ℕ → List ℕ) where
  -- A call of a functor.
  unfoldable pub call_functor : ℕ → EventLoop → EventLoop
  call_functor f l = queue_all (body f) l

  -- `runInLoop`
  unfoldable pub run_in_loop : Bool → ℕ → EventLoop → EventLoop
  run_in_loop in_loop f l = if in_loop then call_functor f l else queue_in_loop false f l

  unfoldable pub call_all : List ℕ → EventLoop → EventLoop
  call_all [] l = l
  call_all (f ∷ fs) l = call_all fs (call_functor f l)

-- `doPendingFunctors` before its loop: the functors are taken out.
unfoldable pub take_pending : EventLoop → EventLoop
take_pending l = record l { pending_functors = []; calling_pending_functors = true }

unfoldable pub finish_pending : EventLoop → EventLoop
finish_pending l = record l { calling_pending_functors = false }

-- `doPendingFunctors`
unfoldable pub do_pending_functors : (ℕ → List ℕ) → EventLoop → EventLoop
do_pending_functors body l = finish_pending (call_all body l.pending_functors (take_pending l))
