-- ===== src/Epoller/Kernel.antt =====
-- epoll_ctl(2), which is not part of the program: a state, the calls on it, and what its manual says
-- of them. A call may fail at any time, for want of memory or of watches, say, and then changes
-- nothing; it fails with EEXIST or ENOENT only where what is registered calls for that.
use weee_chatroom.Common.{ℕ, Bool, true, false, Option, none, some, ◌≡◌, ◌==◌, if◌then◌else◌}
use weee_chatroom.Channel.{Mask}

-- EPOLL_CTL_ADD, EPOLL_CTL_MOD and EPOLL_CTL_DEL.
pub data Operation : Type 0 where
  add mod_ del : Operation

-- ADD wants a descriptor that is not registered, MOD and DEL one that is.
abbrev pub accepts : Operation → Option Mask → Bool
accepts add none = true
accepts add (some m) = false
accepts mod_ none = false
accepts mod_ (some m) = true
accepts del none = false
accepts del (some m) = true

abbrev pub registers : Operation → Mask → Option Mask
registers add m = some m
registers mod_ m = some m
registers del m = none

-- How a call fails: with EEXIST or ENOENT, or with another errno (ENOMEM, ENOSPC, EBADF, EPERM, …).
pub data Failure : Type 0 where
  mismatch other : Failure

pub record Epoll : Type 1 where
  pub State : Type 0
  -- what a descriptor is registered for
  pub interest : State → ℕ → Option Mask
  pub ctl : State → Operation → ℕ → Mask → State
  -- whether a call fails, and how
  pub fails : State → Operation → ℕ → Option Failure
  pub fails_mismatch :
      (s : State) (op : Operation) (fd : ℕ)
      → fails s op fd ≡ some mismatch
      → accepts op (interest s fd) ≡ false
  pub interest-ctl :
      (s : State) (op : Operation) (fd : ℕ) (m : Mask) (g : ℕ)
      → fails s op fd ≡ none
      → interest (ctl s op fd m) g ≡ (if g == fd then registers op m else interest s g)
  pub interest-ctl_failed :
      (s : State) (op : Operation) (fd : ℕ) (m : Mask) (g : ℕ) (failure : Failure)
      → fails s op fd ≡ some failure
      → interest (ctl s op fd m) g ≡ interest s g
