-- ===== src/Epoller/Registration.antt =====
-- What a channel and the kernel know of each other, through every operation on the channel.
use weee_chatroom.Common.{
  ◌≡◌, refl, ◌⊎◌, inl, inr, Bool, true, false, Bool-cases, Option, none, some, arith,
}
use weee_chatroom.Channel.{Index-cases, Channel, Mask, Index, new, added, deleted, is_none_event}
use weee_chatroom.Epoller.Kernel.{Epoll, Operation, add, mod_, del, other}
use weee_chatroom.Epoller.Agreement.{
  Tracked, Synced, Untouched, lookup-assign, update_accepted, update_failed_add, update_failed_mod,
  update_failed_del, fitting, interest_self, interest_other, accepts_add, accepts_mod, accepts_del,
  is_none_event_iff,
}
use weee_chatroom.Epoller.{Epoller, lookup, assign, update_channel}

module _ (kernel : Epoll) where
  open kernel use {State, interest, ctl, fails, interest-ctl}

  -- The operation returns, and leaves the channel known and in step with the kernel.
  pub record Updated (ep : Epoller kernel) (c : Channel) (r : Option (Epoller kernel × Channel))
      : Type 0 where
    pub poller : Epoller kernel
    pub channel : Channel
    pub returned : r ≡ some (poller, channel)
    pub synced : Synced kernel poller channel
    pub same_fd : channel.fd ≡ c.fd
    pub same_events : channel.events ≡ c.events
    pub untouched : Untouched kernel ep poller c.fd

  update_channel_new :
      (ep : Epoller kernel) (c : Channel)
      → c.index ≡ new
      → Tracked kernel ep c
      → fails ep.state add c.fd ≡ none
      → Updated ep c (update_channel kernel ep c)
  unfolding update_channel
  update_channel_new ep c i t ok =
      let ep₁ : Epoller kernel = record ep { channels = assign ep.channels c.fd c.self } in
      let c' : Channel = record c { index = added } in
      record {
        poller = record ep₁ { state = ctl ep.state add c.fd c.events };
        channel = c';
        returned = rw i (ground (arith, update_accepted kernel ep₁ add c' ok));
        synced = record {
          waits = interest_self kernel ep.state add c.fd c.events ok;
          known = ground (arith, lookup-assign ep.channels c.fd c.self c.fd);
          shown = inl refl;
        };
        same_fd = refl;
        same_events = refl;
        untouched = λ g ne. (
          interest_other kernel ep.state add c.fd c.events g ok ne,
          ground (arith, lookup-assign ep.channels c.fd c.self g),
        );
      }

  update_channel_again :
      (ep : Epoller kernel) (c : Channel)
      → c.index ≡ deleted
      → Tracked kernel ep c
      → fails ep.state add c.fd ≡ none
      → Updated ep c (update_channel kernel ep c)
  unfolding update_channel
  update_channel_again ep c i t ok =
      let c' : Channel = record c { index = added } in
      record {
        poller = record ep { state = ctl ep.state add c.fd c.events };
        channel = c';
        returned = rw i (ground (arith, update_accepted kernel ep add c' ok));
        synced = record {
          waits = interest_self kernel ep.state add c.fd c.events ok;
          known = t.mapped (λ e. cc);
          shown = inl refl;
        };
        same_fd = refl;
        same_events = refl;
        untouched = λ g ne. (interest_other kernel ep.state add c.fd c.events g ok ne, refl);
      }

  update_channel_left :
      (ep : Epoller kernel) (c : Channel)
      → c.index ≡ added
      → is_none_event c ≡ true
      → lookup ep.channels c.fd ≡ some c.self
      → fails ep.state del c.fd ≡ none
      → Updated ep c (update_channel kernel ep c)
  unfolding update_channel
  update_channel_left ep c i none_left known ok = record {
    poller = record ep { state = ctl ep.state del c.fd c.events };
    channel = record c { index = deleted };
    returned = rw i (ground (arith, update_accepted kernel ep del c ok));
    synced = record {
      waits = interest_self kernel ep.state del c.fd c.events ok;
      known = known;
      shown = inr (is_none_event_iff kernel c none_left);
    };
    same_fd = refl;
    same_events = refl;
    untouched = λ g ne. (interest_other kernel ep.state del c.fd c.events g ok ne, refl);
  }

  update_channel_changed :
      (ep : Epoller kernel) (c : Channel)
      → c.index ≡ added
      → is_none_event c ≡ false
      → lookup ep.channels c.fd ≡ some c.self
      → fails ep.state mod_ c.fd ≡ none
      → Updated ep c (update_channel kernel ep c)
  unfolding update_channel
  update_channel_changed ep c i some_left known ok = record {
    poller = record ep { state = ctl ep.state mod_ c.fd c.events };
    channel = c;
    returned = rw i (ground (arith, update_accepted kernel ep mod_ c ok));
    synced = record {
      waits = rw i (interest_self kernel ep.state mod_ c.fd c.events ok);
      known = known;
      shown = inl i;
    };
    same_fd = refl;
    same_events = refl;
    untouched = λ g ne. (interest_other kernel ep.state mod_ c.fd c.events g ok ne, refl);
  }

  -- What a channel asks of the kernel, by its index and whether nothing is left to wait for.
  pub asks : Index → Bool → Operation
  asks new left = add
  asks deleted left = add
  asks added true = del
  asks added false = mod_

  -- The end of `updateChannel` where the call fails: for DEL that is logged, and the channel's index
  -- says that it is taken out; for ADD and MOD the process ends.
  pub Failed : Operation → Epoller kernel → Channel → Option (Epoller kernel × Channel) → Type 0
  Failed del ep c r =
      r ≡ some (record ep { state = ctl ep.state del c.fd c.events }, record c { index = deleted })
  Failed _ ep c r = r ≡ none

  unfoldable pub Answered : Epoller kernel → Channel → Option (Epoller kernel × Channel) → Type 0
  Answered ep c r =
      let op = asks c.index (is_none_event c) in
      ((fails ep.state op c.fd ≡ none) × Updated ep c r)
      ⊎ ((fails ep.state op c.fd ≡ some other) × Failed op ep c r)

  added-Answered :
      (ep : Epoller kernel) (c : Channel) (m : Mask)
      → c.index ≡ added
      → interest ep.state c.fd ≡ some m
      → lookup ep.channels c.fd ≡ some c.self
      → Answered ep c (update_channel kernel ep c)
  unfolding update_channel asks Failed Answered is_none_event
  added-Answered ep c m i h known = elim (Bool-cases (is_none_event c)) [
    | inl none_left ↦ elim (fitting kernel ep.state del c.fd (accepts_del kernel h)) [
      | inl ok ↦ inl (rw (i, none_left) ok, update_channel_left ep c i none_left known ok)
      | inr failed ↦ inr (
        rw (i, none_left) failed,
        rw (i, none_left, update_channel) (ground (arith, update_failed_del kernel ep c failed)),
      )
    ]
    | inr some_left ↦ elim (fitting kernel ep.state mod_ c.fd (accepts_mod kernel h)) [
      | inl ok ↦ inl (rw (i, some_left) ok, update_channel_changed ep c i some_left known ok)
      | inr failed ↦ inr (
        rw (i, some_left) failed,
        rw (i, some_left, update_channel) (ground (arith, update_failed_mod kernel ep c failed)),
      )
    ]
  ]

  -- `updateChannel` on a channel whose registration agrees with its index asks the kernel for what fits
  -- (ADD, MOD, or DEL where nothing is left to wait for), so that EEXIST and ENOENT do not come. Where
  -- the call succeeds, the kernel waits for exactly the channel's events, or for nothing where there
  -- are none left, `channels_` holds the channel, and no other descriptor is touched. Where it fails
  -- with another errno, the process ends for ADD and MOD, and for DEL the channel counts as taken out.
  pub update_channel-Updated :
      (ep : Epoller kernel) (c : Channel)
      → Tracked kernel ep c
      → Answered ep c (update_channel kernel ep c)
  unfolding update_channel asks Failed Answered
  update_channel-Updated ep c t = elim (Index-cases c.index) [
    | inl i ↦ elim (fitting kernel ep.state add c.fd (accepts_add kernel (rw i at t.registered))) [
      | inl ok ↦ inl (rw i ok, update_channel_new ep c i t ok)
      | inr failed ↦ inr (
        rw i failed,
        rw (i, update_channel)
            (ground (
              arith,
              update_failed_add kernel (record ep { channels = assign ep.channels c.fd c.self })
                  (record c { index = added }) failed,
            )),
      )
    ]
    | inr (inl i) ↦ let (m, h) = registered_as i in added-Answered ep c m i h (t.mapped (λ e. cc))
    | inr (inr i) ↦
        elim (fitting kernel ep.state add c.fd (accepts_add kernel (rw i at t.registered))) [
          | inl ok ↦ inl (rw i ok, update_channel_again ep c i t ok)
          | inr failed ↦ inr (
            rw i failed,
            rw (i, update_channel)
                (ground (arith, update_failed_add kernel ep (record c { index = added }) failed)),
          )
        ]
  ]
    where
      registered_as : c.index ≡ added → (m : Mask) × (interest ep.state c.fd ≡ some m)
      registered_as i = rw i at t.registered
