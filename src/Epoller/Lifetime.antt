-- ===== src/Epoller/Lifetime.antt =====
-- A channel from its construction to `removeChannel`: whatever is enabled and disabled in between,
-- in the end nothing of the channel is left, unless a call of epoll_ctl fails.
use weee_chatroom.Common.{
  ◌≡◌, refl, sym, ap, ◌∙◌, List, [], ◌∷◌, Option, none, some, arith, ◌⊎◌, inl, inr,
}
use weee_chatroom.Channel.{
  Index-cases, Channel, Mask, Index, new, added, deleted, set_reading, set_writing, clear_writing,
  clear_all, is_none_event,
}
use weee_chatroom.Epoller.Kernel.{Epoll, del, other}
use weee_chatroom.Epoller.{
  Epoller, lookup, erase, remove_channel, enable_reading, enable_writing, disable_writing,
  disable_all,
}
use weee_chatroom.Epoller.Agreement.{
  Agrees, expected, Tracked, Synced, Untouched, lookup-erase, update_accepted, fitting,
  interest_self, interest_other, accepts_del,
}
use weee_chatroom.Epoller.Registration.{Updated, asks, Answered, update_channel-Updated}

-- The calls on a channel that reach `updateChannel`.
pub data ChannelCall : Type 0 where
  reading writing not_writing nothing : ChannelCall

-- What a call does to the channel's events.
abbrev pub wanted : ChannelCall → Channel → Channel
wanted reading c = set_reading c
wanted writing c = set_writing c
wanted not_writing c = clear_writing c
wanted nothing c = clear_all c

module _ (kernel : Epoll) where
  open kernel use {State, interest, ctl, fails}

  -- One call after the other, then `removeChannel`.
  pub call : ChannelCall → Epoller kernel → Channel → Option (Epoller kernel × Channel)
  unfolding enable_reading enable_writing disable_writing disable_all
  call reading ep c = enable_reading kernel ep c
  call writing ep c = enable_writing kernel ep c
  call not_writing ep c = disable_writing kernel ep c
  call nothing ep c = disable_all kernel ep c

  pub calls : List ChannelCall → Epoller kernel → Channel → Option (Epoller kernel × Channel)
  calls [] ep c = remove_channel kernel ep c
  calls (k ∷ ks) ep c = elim (call k ep c) [ none ↦ none | some (ep', c') ↦ calls ks ep' c' ]

  -- Nothing of the channel is left, and no other descriptor is touched.
  pub record Removed (ep : Epoller kernel) (c : Channel) (r : Option (Epoller kernel × Channel))
      : Type 0 where
    pub poller : Epoller kernel
    pub channel : Channel
    pub returned : r ≡ some (poller, channel)
    pub unregistered : interest poller.state c.fd ≡ none
    pub unmapped : lookup poller.channels c.fd ≡ none
    pub fresh_again : channel.index ≡ new
    pub untouched : Untouched kernel ep poller c.fd

  -- On the way from here, a call of epoll_ctl fails for another reason than what is registered: the one
  -- that an enable or disable call makes, or the DEL of `removeChannel`.
  pub data Hindered : List ChannelCall → Epoller kernel → Channel → Type 0 where
    in_call :
        {k : ChannelCall} {ks : List ChannelCall} {ep : Epoller kernel} {c : Channel}
        → fails ep.state (asks kernel (wanted k c).index (is_none_event (wanted k c))) c.fd
          ≡ some other
        → Hindered (k ∷ ks) ep c
    at_removal :
        {ep : Epoller kernel} {c : Channel}
        → c.index ≡ added
        → fails ep.state del c.fd ≡ some other
        → Hindered [] ep c
    later :
        {k : ChannelCall} {ks : List ChannelCall} {ep ep' : Epoller kernel} {c c' : Channel}
        → call k ep c ≡ some (ep', c')
        → Hindered ks ep' c'
        → Hindered (k ∷ ks) ep c

  remove_unregistered :
      (ep : Epoller kernel) (c : Channel)
      → (c.index ≡ new) ⊎ (c.index ≡ deleted)
      → interest ep.state c.fd ≡ none
      → Removed ep c (remove_channel kernel ep c)
  unfolding remove_channel
  remove_unregistered ep c i e = record {
    poller = record ep { channels = erase ep.channels c.fd };
    channel = record c { index = new };
    returned = elim i [ inl fresh ↦ rw fresh | inr gone ↦ rw gone ];
    unregistered = e;
    unmapped = ground (arith, lookup-erase ep.channels c.fd c.fd);
    fresh_again = refl;
    untouched = λ g ne. (refl, ground (arith, lookup-erase ep.channels c.fd g));
  }

  remove_registered :
      (ep : Epoller kernel) (c : Channel)
      → c.index ≡ added
      → fails ep.state del c.fd ≡ none
      → Removed ep c (remove_channel kernel ep c)
  unfolding remove_channel
  remove_registered ep c i ok =
      let ep₁ : Epoller kernel = record ep { channels = erase ep.channels c.fd } in
      record {
        poller = record ep₁ { state = ctl ep.state del c.fd c.events };
        channel = record c { index = new };
        returned = rw i (ground (arith, update_accepted kernel ep₁ del c ok));
        unregistered = interest_self kernel ep.state del c.fd c.events ok;
        unmapped = ground (arith, lookup-erase ep.channels c.fd c.fd);
        fresh_again = refl;
        untouched = λ g ne. (
          interest_other kernel ep.state del c.fd c.events g ok ne,
          ground (arith, lookup-erase ep.channels c.fd g),
        );
      }

  -- `removeChannel` leaves nothing of a channel whose registration agrees with its index, unless its
  -- DEL fails.
  pub remove_channel-Removed :
      (ep : Epoller kernel) (c : Channel)
      → Tracked kernel ep c
      → Removed ep c (remove_channel kernel ep c)
        ⊎ ((c.index ≡ added) × (fails ep.state del c.fd ≡ some other))
  remove_channel-Removed ep c t = elim (Index-cases c.index) [
    | inl i ↦ inl (remove_unregistered ep c (inl i) (rw i at t.registered))
    | inr (inr i) ↦ inl (remove_unregistered ep c (inr i) (rw i at t.registered))
    | inr (inl i) ↦
        let (m, h) = registered_as i in
        elim (fitting kernel ep.state del c.fd (accepts_del kernel h)) [
          | inl ok ↦ inl (remove_registered ep c i ok)
          | inr failed ↦ inr (i, failed)
        ]
  ]
    where
      registered_as : c.index ≡ added → (m : Mask) × (interest ep.state c.fd ≡ some m)
      registered_as i = rw i at t.registered

  index_known : (i : Index) (e : Mask) {m : Option Mask} → m ≡ expected i e → Agrees i m
  index_known new e h = h
  index_known added e h = (e, h)
  index_known deleted e h = h

  still_known : {ep : Epoller kernel} {c : Channel} → Synced kernel ep c → Tracked kernel ep c
  still_known {ep} {c} s = record {
    registered = index_known c.index c.events s.waits;
    mapped = λ _. s.known;
  }

  call-Updated :
      (k : ChannelCall) (ep : Epoller kernel) (c : Channel)
      → Tracked kernel ep c
      → Answered kernel ep (wanted k c) (call k ep c)
  unfolding call set_reading set_writing clear_writing clear_all
  call-Updated reading ep c t =
      update_channel-Updated kernel ep (set_reading c)
        (record { registered = t.registered; mapped = t.mapped })
  call-Updated writing ep c t =
      update_channel-Updated kernel ep (set_writing c)
        (record { registered = t.registered; mapped = t.mapped })
  call-Updated not_writing ep c t =
      update_channel-Updated kernel ep (clear_writing c)
        (record { registered = t.registered; mapped = t.mapped })
  call-Updated nothing ep c t =
      update_channel-Updated kernel ep (clear_all c)
        (record { registered = t.registered; mapped = t.mapped })

  fd-wanted : (k : ChannelCall) (c : Channel) → (wanted k c).fd ≡ c.fd
  unfolding set_reading set_writing clear_writing clear_all
  fd-wanted reading c = refl
  fd-wanted writing c = refl
  fd-wanted not_writing c = refl
  fd-wanted nothing c = refl

  Removed-later :
      (k : ChannelCall) (ks : List ChannelCall) (ep : Epoller kernel) (c : Channel)
      (u : Updated kernel ep (wanted k c) (call k ep c))
      → Removed u.poller u.channel (calls ks u.poller u.channel)
      → Removed ep c (calls (k ∷ ks) ep c)
  unfolding calls
  Removed-later k ks ep c u rest =
      let same : u.channel.fd ≡ c.fd = u.same_fd ∙ fd-wanted k c in
      record {
        poller = rest.poller;
        channel = rest.channel;
        returned = rw (u.returned, calls) rest.returned;
        unregistered = rw same at rest.unregistered;
        unmapped = rw same at rest.unmapped;
        fresh_again = rest.fresh_again;
        untouched = λ g ne.
            let first = u.untouched g (λ e. ne (e ∙ fd-wanted k c)) in
            let later_on = rest.untouched g (λ e. ne (e ∙ same)) in
            (later_on.0 ∙ first.0, later_on.1 ∙ first.1);
      }

  asked_now :
      (k : ChannelCall) (c : Channel) (ep : Epoller kernel)
      → let op = asks kernel (wanted k c).index (is_none_event (wanted k c)) in
        fails ep.state op (wanted k c).fd ≡ some other → fails ep.state op c.fd ≡ some other
  asked_now k c ep e =
      ap (fails ep.state (asks kernel (wanted k c).index (is_none_event (wanted k c))))
        (sym (fd-wanted k c))
      ∙ e

  -- Any calls in any order on a channel whose registration agrees with its index, and then
  -- `removeChannel`: the process does not abort, the descriptor is neither registered nor in
  -- `channels_`, the channel is as new, and no other descriptor is touched; unless on the way a call
  -- of epoll_ctl fails with an errno that is neither EEXIST nor ENOENT.
  pub calls-Removed :
      (ks : List ChannelCall) (ep : Epoller kernel) (c : Channel)
      → Tracked kernel ep c
      → Removed ep c (calls ks ep c) ⊎ Hindered ks ep c
  unfolding calls Answered
  calls-Removed [] ep c t = elim (remove_channel-Removed ep c t) [
    | inl removed ↦ inl removed
    | inr (i, failed) ↦ inr (at_removal i failed)
  ]
  calls-Removed (k ∷ ks) ep c t = elim (call-Updated k ep c t) [
    | inr (failed, end) ↦ inr (in_call (asked_now k c ep failed))
    | inl (ok, u) ↦ elim (calls-Removed ks u.poller u.channel (still_known u.synced)) [
      | inl rest ↦ inl (Removed-later k ks ep c u rest)
      | inr hindered ↦ inr (later u.returned hindered)
    ]
  ]
