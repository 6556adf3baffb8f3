-- ===== src/Epoller/Tests.antt =====
-- A kernel that does what epoll_ctl(2) says, and a channel on it.
use weee_chatroom.Common.{
  ℕ, ◌≡◌, refl, ◌⊎◌, inl, inr, false, [], ◌∷◌, Option, none, some, arith, ltb, Bool-cases, ◌==◌,
  if◌then◌else◌,
}
use mathlib.Core.Option.{none-ne-some}
use weee_chatroom.Channel.{Channel, Mask, new_channel}
use weee_chatroom.Epoller.Kernel.{Epoll, Operation, Failure, mismatch, other, accepts, registers}
use weee_chatroom.Epoller.{Epoller, update_channel}
use weee_chatroom.Epoller.Agreement.{Tracked}
use weee_chatroom.Epoller.Registration.{Answered, update_channel-Updated}
use weee_chatroom.Epoller.Lifetime.{
  reading, writing, nothing, calls, Removed, Hindered, calls-Removed,
}

-- The kernel has room for 1024 descriptors with numbers below that.
abbrev fails : (ℕ → Option Mask) → Operation → ℕ → Option Failure
fails s op fd =
    if ltb fd 1024 then if accepts op (s fd) then none else some mismatch else some other

abbrev ctl : (ℕ → Option Mask) → Operation → ℕ → Mask → ℕ → Option Mask
ctl s op fd m g = elim (fails s op fd) [
  | none ↦ if g == fd then registers op m else s g
  | some failure ↦ s g
]

fails_mismatch :
    (s : ℕ → Option Mask) (op : Operation) (fd : ℕ)
    → fails s op fd ≡ some mismatch
    → accepts op (s fd) ≡ false
fails_mismatch s op fd h = elim (Bool-cases (accepts op (s fd))) [
  | inl fits ↦ elim (Bool-cases (ltb fd 1024)) [
    | inl low ↦ absurd (none-ne-some mismatch (rw (low, fits) at h))
    | inr high ↦ ground (arith, high, h)
  ]
  | inr differs ↦ differs
]

interest-ctl :
    (s : ℕ → Option Mask) (op : Operation) (fd : ℕ) (m : Mask) (g : ℕ)
    → fails s op fd ≡ none
    → ctl s op fd m g ≡ (if g == fd then registers op m else s g)
interest-ctl s op fd m g h = rw (ctl, h) refl

interest-ctl_failed :
    (s : ℕ → Option Mask) (op : Operation) (fd : ℕ) (m : Mask) (g : ℕ) (failure : Failure)
    → fails s op fd ≡ some failure
    → ctl s op fd m g ≡ s g
interest-ctl_failed s op fd m g failure h = rw (ctl, h) refl

abbrev linux : Epoll
linux = record {
  State = ℕ → Option Mask;
  interest = λ s. s;
  ctl = ctl;
  fails = fails;
  fails_mismatch = fails_mismatch;
  interest-ctl = interest-ctl;
  interest-ctl_failed = interest-ctl_failed;
}

abbrev idle : Epoller linux
idle = record { state = λ fd. none; channels = []; event_list_size = 16 }

abbrev fresh : Channel
fresh = new_channel 100 5

fresh-Tracked : Tracked linux idle fresh
unfolding new_channel
fresh-Tracked = record { registered = refl; mapped = λ ne. absurd (ne refl) }

update_channel-Updated_example : Answered linux idle fresh (update_channel linux idle fresh)
update_channel-Updated_example = update_channel-Updated linux idle fresh fresh-Tracked

calls-Removed_example :
    Removed linux idle fresh (calls linux (reading ∷ writing ∷ nothing ∷ nothing ∷ []) idle fresh)
    ⊎ Hindered linux (reading ∷ writing ∷ nothing ∷ nothing ∷ []) idle fresh
calls-Removed_example =
    calls-Removed linux (reading ∷ writing ∷ nothing ∷ nothing ∷ []) idle fresh fresh-Tracked
