-- ===== src/Epoller/Agreement.antt =====
-- What a channel, `channels_` and the kernel know of each other.
use weee_chatroom.Common.{
  ℕ, ◌≡◌, ◌≢◌, refl, ◌⊎◌, true, List, [], ◌∷◌, Option, none, some, arith, ◌==◌, if◌then◌else◌, inl,
  inr, Option-cases,
}
use weee_chatroom.Channel.{Channel, Mask, Index, new, added, deleted, is_none_event, none_event}
use weee_chatroom.Epoller.Kernel.{
  Epoll, Operation, add, mod_, del, accepts, registers, mismatch, other,
}
use weee_chatroom.Epoller.{Epoller, lookup, assign, erase, update}

-- A descriptor is registered exactly if its channel's index says so.
abbrev pub Agrees : Index → Option Mask → Type 0
Agrees new m = m ≡ none
Agrees added m = (e : Mask) × (m ≡ some e)
Agrees deleted m = m ≡ none

-- Where it is registered, it is so for the channel's events.
abbrev pub expected : Index → Mask → Option Mask
expected added e = some e
expected _ e = none

pub lookup-assign :
    (m : List (ℕ × ℕ)) (k c g : ℕ)
    → lookup (assign m k c) g ≡ (if k == g then some c else lookup m g)
unfolding lookup assign
lookup-assign [] k c g = refl
lookup-assign ((j, d) ∷ m) k c g = ground (arith, lookup-assign m k c g)

pub lookup-erase :
    (m : List (ℕ × ℕ)) (k g : ℕ) → lookup (erase m k) g ≡ (if k == g then none else lookup m g)
unfolding lookup erase
lookup-erase [] k g = ground arith
lookup-erase ((j, d) ∷ m) k g = ground (arith, lookup-erase m k g)

module _ (kernel : Epoll) where
  open kernel use {State, interest, ctl, fails, fails_mismatch, interest-ctl}

  -- The channel is known to the kernel exactly if its index says so, and to `channels_` unless it
  -- is new. Its events may have just been changed.
  pub record Tracked (ep : Epoller kernel) (c : Channel) : Type 0 where
    pub registered : Agrees c.index (interest ep.state c.fd)
    pub mapped : c.index ≢ new → lookup ep.channels c.fd ≡ some c.self

  -- The kernel waits for what the channel asks for.
  pub record Synced (ep : Epoller kernel) (c : Channel) : Type 0 where
    pub waits : interest ep.state c.fd ≡ expected c.index c.events
    pub known : lookup ep.channels c.fd ≡ some c.self
    pub shown : (c.index ≡ added) ⊎ (c.events ≡ none_event)

  -- What an operation may touch of the other descriptors: nothing.
  abbrev pub Untouched : Epoller kernel → Epoller kernel → ℕ → Type 0
  Untouched ep ep' fd =
      (g : ℕ)
      → g ≢ fd
      → (interest ep'.state g ≡ interest ep.state g)
        × (lookup ep'.channels g ≡ lookup ep.channels g)

  pub update_accepted :
      (ep : Epoller kernel) (op : Operation) (c : Channel)
      → fails ep.state op c.fd ≡ none
      → update kernel ep op c ≡ some (record ep { state = ctl ep.state op c.fd c.events })
  unfolding update
  update_accepted ep op c h = rw (update, h) refl

  -- An operation that fits what is registered is carried out, or fails for another reason.
  pub fitting :
      (s : State) (op : Operation) (fd : ℕ)
      → accepts op (interest s fd) ≡ true
      → (fails s op fd ≡ none) ⊎ (fails s op fd ≡ some other)
  fitting s op fd h = elim (Option-cases (fails s op fd)) [
    | inl fine ↦ inl fine
    | inr (mismatch, e) ↦ absurd (ground (arith, h, fails_mismatch s op fd e))
    | inr (other, e) ↦ inr e
  ]

  -- A failed DEL is only logged; a failed ADD or MOD ends the process.
  pub update_failed_del :
      (ep : Epoller kernel) (c : Channel)
      → fails ep.state del c.fd ≡ some other
      → update kernel ep del c ≡ some (record ep { state = ctl ep.state del c.fd c.events })
  unfolding update
  update_failed_del ep c h = rw (update, h) refl

  pub update_failed_add :
      (ep : Epoller kernel) (c : Channel)
      → fails ep.state add c.fd ≡ some other
      → update kernel ep add c ≡ none
  unfolding update
  update_failed_add ep c h = rw (update, h) refl

  pub update_failed_mod :
      (ep : Epoller kernel) (c : Channel)
      → fails ep.state mod_ c.fd ≡ some other
      → update kernel ep mod_ c ≡ none
  unfolding update
  update_failed_mod ep c h = rw (update, h) refl

  pub interest_self :
      (s : State) (op : Operation) (fd : ℕ) (m : Mask)
      → fails s op fd ≡ none
      → interest (ctl s op fd m) fd ≡ registers op m
  interest_self s op fd m h = ground (arith, interest-ctl s op fd m fd h)

  pub interest_other :
      (s : State) (op : Operation) (fd : ℕ) (m : Mask) (g : ℕ)
      → fails s op fd ≡ none
      → g ≢ fd
      → interest (ctl s op fd m) g ≡ interest s g
  interest_other s op fd m g h ne = ground (arith, interest-ctl s op fd m g h)

  pub accepts_add : {o : Option Mask} → o ≡ none → accepts add o ≡ true
  accepts_add e = rw e

  pub accepts_mod : {o : Option Mask} {m : Mask} → o ≡ some m → accepts mod_ o ≡ true
  accepts_mod e = rw e

  pub accepts_del : {o : Option Mask} {m : Mask} → o ≡ some m → accepts del o ≡ true
  accepts_del e = rw e

  pub is_none_event_iff : (c : Channel) → is_none_event c ≡ true → c.events ≡ none_event
  unfolding is_none_event
  is_none_event_iff c h = ground arith
