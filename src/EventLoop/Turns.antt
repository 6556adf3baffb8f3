-- ===== src/EventLoop/Turns.antt =====
-- The turns of `loop`, with other threads that queue functors in between: what was queued runs once and
-- in order, and the loop does not sleep on it.
use Prim.{Unit}
use weee_chatroom.Common.{
  ℕ, ◌<◌, ◌≡◌, ◌≢◌, refl, sym, ap, ◌∙◌, ◌⊎◌, inl, inr, Bool, true, false, List, [], ◌∷◌, ◌++◌,
  append_assoc, append-nil, arith, Bool-cases,
}
use weee_chatroom.EventLoop.{
  EventLoop, wakeup, handle_read, queue_in_loop, queue_all, ask_quit, call_functor, run_in_loop,
  take_pending, finish_pending,
}

-- Where the loop's thread is: in `poll`, among the events, with functors still to call, or behind `loop`.
pub data Phase : Type 0 where
  polling : Phase
  handling : Phase
  calling : List ℕ → Phase
  ended : Phase

-- With what was queued so far, and what was called from the queue, in order.
pub record Machine : Type 0 where
  pub loop : EventLoop
  pub phase : Phase
  pub queued : List ℕ
  pub called : List ℕ

module _ (body : ℕ → List ℕ) where
  pub data Step : Machine → Machine → Type 0 where
    -- in other threads
    queues :
        (f : ℕ) (s : Machine)
        → Step s (record s { loop = queue_in_loop false f s.loop; queued = s.queued ++ f ∷ [] })
    quits : (s : Machine) → Step s (record s { loop = ask_quit false s.loop })
    -- `poll` returns, for an event, a wakeup or the time
    wakes :
        (l : EventLoop) (q c : List ℕ)
        → Step
            (record { loop = l; phase = polling; queued = q; called = c })
            (record { loop = l; phase = handling; queued = q; called = c })
    -- the handlers of the events, the wakeup among them
    reads :
        (l : EventLoop) (q c : List ℕ)
        → Step
            (record { loop = l; phase = handling; queued = q; called = c })
            (record { loop = handle_read l; phase = handling; queued = q; called = c })
    queues_here :
        (f : ℕ) (l : EventLoop) (q c : List ℕ)
        → Step
            (record { loop = l; phase = handling; queued = q; called = c })
            (record {
              loop = queue_in_loop true f l;
              phase = handling;
              queued = q ++ f ∷ [];
              called = c;
            })
    runs_here :
        (f : ℕ) (l : EventLoop) (q c : List ℕ)
        → Step
            (record { loop = l; phase = handling; queued = q; called = c })
            (record {
              loop = run_in_loop body true f l;
              phase = handling;
              queued = q ++ body f;
              called = c;
            })
    quits_here :
        (l : EventLoop) (q c : List ℕ)
        → Step
            (record { loop = l; phase = handling; queued = q; called = c })
            (record { loop = ask_quit true l; phase = handling; queued = q; called = c })
    -- `doPendingFunctors`
    takes :
        (l : EventLoop) (q c : List ℕ)
        → Step
            (record { loop = l; phase = handling; queued = q; called = c })
            (record {
              loop = take_pending l;
              phase = calling l.pending_functors;
              queued = q;
              called = c;
            })
    calls :
        (f : ℕ) (fs : List ℕ) (l : EventLoop) (q c : List ℕ)
        → Step
            (record { loop = l; phase = calling (f ∷ fs); queued = q; called = c })
            (record {
              loop = call_functor body f l;
              phase = calling fs;
              queued = q ++ body f;
              called = c ++ f ∷ [];
            })
    -- `while (!quit_)`
    turns :
        (l : EventLoop) (q c : List ℕ)
        → l.quit ≡ false
        → Step
            (record { loop = l; phase = calling []; queued = q; called = c })
            (record { loop = finish_pending l; phase = polling; queued = q; called = c })
    ends :
        (l : EventLoop) (q c : List ℕ)
        → l.quit ≡ true
        → Step
            (record { loop = l; phase = calling []; queued = q; called = c })
            (record { loop = finish_pending l; phase = ended; queued = q; called = c })

  -- `loop` starts, with nothing queued.
  pub data Reachable : Machine → Type 0 where
    starts :
        (l : EventLoop)
        → l.pending_functors ≡ []
        → Reachable (record { loop = l; phase = polling; queued = []; called = [] })
    then_step : (s s' : Machine) → Reachable s → Step s s' → Reachable s'

-- The functors that were taken and not yet called.
abbrev pub to_call : Phase → List ℕ
to_call (calling fs) = fs
to_call p = []

-- What waits has a wakeup.
abbrev pub IsAwake : EventLoop → Type 0
IsAwake l = (l.pending_functors ≡ []) ⊎ (0 < l.wakeups)

abbrev IsFit : Phase → EventLoop → Type 0
IsFit polling l = IsAwake l
IsFit handling l = Unit
IsFit (calling fs) l = (l.calling_pending_functors ≡ true) × IsAwake l
IsFit ended l = IsAwake l

pending-queue_in_loop :
    (in_loop : Bool) (f : ℕ) (l : EventLoop)
    → (queue_in_loop in_loop f l).pending_functors ≡ l.pending_functors ++ f ∷ []
unfolding queue_in_loop wakeup
pending-queue_in_loop in_loop f l =
    ground (arith, Bool-cases in_loop, Bool-cases l.calling_pending_functors)

calling-queue_in_loop :
    (in_loop : Bool) (f : ℕ) (l : EventLoop)
    → (queue_in_loop in_loop f l).calling_pending_functors ≡ l.calling_pending_functors
unfolding queue_in_loop wakeup
calling-queue_in_loop in_loop f l =
    ground (arith, Bool-cases in_loop, Bool-cases l.calling_pending_functors)

queue_in_loop-IsAwake : (f : ℕ) (l : EventLoop) → IsAwake (queue_in_loop false f l)
unfolding queue_in_loop wakeup
queue_in_loop-IsAwake f l = inr (omega arith)

queue_in_loop-IsStillAwake :
    (f : ℕ) (l : EventLoop) → l.calling_pending_functors ≡ true → IsAwake (queue_in_loop true f l)
unfolding queue_in_loop wakeup
queue_in_loop-IsStillAwake f l h = inr (ground (arith, h))

pending-queue_all :
    (fs : List ℕ) (l : EventLoop) → (queue_all fs l).pending_functors ≡ l.pending_functors ++ fs
unfolding queue_all
pending-queue_all [] l = sym (append-nil l.pending_functors)
pending-queue_all (f ∷ fs) l =
    pending-queue_all fs (queue_in_loop true f l)
    ∙ ap (λ p. p ++ fs) (pending-queue_in_loop true f l)
    ∙ append_assoc l.pending_functors (f ∷ []) fs

queue_all-Awake :
    (fs : List ℕ) (l : EventLoop)
    → l.calling_pending_functors ≡ true
    → IsAwake l
    → ((queue_all fs l).calling_pending_functors ≡ true) × IsAwake (queue_all fs l)
unfolding queue_all
queue_all-Awake [] l h a = (h, a)
queue_all-Awake (f ∷ fs) l h a =
    queue_all-Awake fs (queue_in_loop true f l) (calling-queue_in_loop true f l ∙ h)
      (queue_in_loop-IsStillAwake f l h)

-- The functors that were called, then those that were taken, then those that wait are what was queued.
abbrev IsOrdered : Machine → Type 0
IsOrdered s = s.called ++ (to_call s.phase ++ s.loop.pending_functors) ≡ s.queued

IsFit-IsAwake : (p : Phase) (l : EventLoop) → IsFit p l → (p ≢ polling) ⊎ IsAwake l
IsFit-IsAwake polling l fit = inr fit
IsFit-IsAwake handling l fit = inl (λ e. ground (arith, e))
IsFit-IsAwake (calling fs) l (called, awake) = inr awake
IsFit-IsAwake ended l fit = inr fit

module _ (body : ℕ → List ℕ) where
  -- Something queued behind what waits is behind all.
  behind :
      (s : Machine) (l : EventLoop) (fs : List ℕ)
      → l.pending_functors ≡ s.loop.pending_functors ++ fs
      → IsOrdered s
      → s.called ++ (to_call s.phase ++ l.pending_functors) ≡ s.queued ++ fs
  behind s l fs e ordered =
      ap (λ p. s.called ++ (to_call s.phase ++ p)) e
      ∙ ap (◌++◌ s.called) (sym (append_assoc (to_call s.phase) s.loop.pending_functors fs))
      ∙ sym (append_assoc s.called (to_call s.phase ++ s.loop.pending_functors) fs)
      ∙ ap (λ q. q ++ fs) ordered

  Step-IsOrdered : (s s' : Machine) → Step body s s' → IsOrdered s → IsOrdered s'
  unfolding ask_quit wakeup handle_read take_pending finish_pending call_functor run_in_loop
  Step-IsOrdered s s' (queues f s₀) o =
      behind s (queue_in_loop false f s.loop) (f ∷ []) (pending-queue_in_loop false f s.loop) o
  Step-IsOrdered s s' (quits s₀) o = o
  Step-IsOrdered s s' (wakes l q c) o = o
  Step-IsOrdered s s' (reads l q c) o = o
  Step-IsOrdered s s' (queues_here f l q c) o =
      behind s (queue_in_loop true f l) (f ∷ []) (pending-queue_in_loop true f l) o
  Step-IsOrdered s s' (runs_here f l q c) o =
      behind s (queue_all (body f) l) (body f) (pending-queue_all (body f) l) o
  Step-IsOrdered s s' (quits_here l q c) o = o
  Step-IsOrdered s s' (takes l q c) o = ap (◌++◌ c) (append-nil l.pending_functors) ∙ o
  Step-IsOrdered s s' (calls f fs l q c) o =
      append_assoc c (f ∷ []) (fs ++ (queue_all (body f) l).pending_functors)
      ∙ behind s (queue_all (body f) l) (body f) (pending-queue_all (body f) l) o
  Step-IsOrdered s s' (turns l q c e) o = o
  Step-IsOrdered s s' (ends l q c e) o = o

  other-IsFit : (p : Phase) (f : ℕ) (l : EventLoop) → IsFit p l → IsFit p (queue_in_loop false f l)
  other-IsFit polling f l fit = queue_in_loop-IsAwake f l
  other-IsFit handling f l fit = fit
  other-IsFit (calling fs) f l (called, awake) =
      (calling-queue_in_loop false f l ∙ called, queue_in_loop-IsAwake f l)
  other-IsFit ended f l fit = queue_in_loop-IsAwake f l

  quit-IsFit : (p : Phase) (l : EventLoop) → IsFit p l → IsFit p (ask_quit false l)
  unfolding ask_quit wakeup
  quit-IsFit polling l fit = inr (omega arith)
  quit-IsFit handling l fit = fit
  quit-IsFit (calling fs) l (called, awake) = (called, inr (omega arith))
  quit-IsFit ended l fit = inr (omega arith)

  Step-IsFit : (s s' : Machine) → Step body s s' → IsFit s.phase s.loop → IsFit s'.phase s'.loop
  unfolding take_pending finish_pending call_functor
  Step-IsFit s s' (queues f s₀) fit = other-IsFit s.phase f s.loop fit
  Step-IsFit s s' (quits s₀) fit = quit-IsFit s.phase s.loop fit
  Step-IsFit s s' (wakes l q c) fit = record {}
  Step-IsFit s s' (reads l q c) fit = fit
  Step-IsFit s s' (queues_here f l q c) fit = fit
  Step-IsFit s s' (runs_here f l q c) fit = fit
  Step-IsFit s s' (quits_here l q c) fit = fit
  Step-IsFit s s' (takes l q c) fit = (refl, inl refl)
  Step-IsFit s s' (calls f fs l q c) (called, awake) = queue_all-Awake (body f) l called awake
  Step-IsFit s s' (turns l q c e) (called, awake) = awake
  Step-IsFit s s' (ends l q c e) (called, awake) = awake

  Reachable-Fit : (s : Machine) → Reachable body s → IsOrdered s × IsFit s.phase s.loop
  Reachable-Fit s (starts l e) = (e, inl e)
  Reachable-Fit s (then_step s₀ s₁ r step) =
      let (ordered, fit) = Reachable-Fit s₀ r in
      (Step-IsOrdered s₀ s step ordered, Step-IsFit s₀ s step fit)

-- In every state of a loop that starts with nothing queued, whatever the functors queue, and whatever
-- other threads and the handlers of events queue in between: the functors that were called, those
-- that were taken to be called, and those that wait are together what was queued, once each and in
-- order; and where the loop is about to sleep in `poll`, nothing waits or a wakeup ends the sleep.
pub Reachable-IsOrderly :
    (body : ℕ → List ℕ) (s : Machine)
    → Reachable body s
    → (s.called ++ (to_call s.phase ++ s.loop.pending_functors) ≡ s.queued)
      × ((s.phase ≢ polling) ⊎ ((s.loop.pending_functors ≡ []) ⊎ (0 < s.loop.wakeups)))
Reachable-IsOrderly body s r =
    let (ordered, fit) = Reachable-Fit body s r in (ordered, IsFit-IsAwake s.phase s.loop fit)
