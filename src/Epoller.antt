-- ===== src/Epoller.antt =====
-- netlib/reactor/Epoller.cc: the descriptors that a loop waits for, kept in the kernel's interest
-- list by `epoll_ctl`. A `none` is the process aborted by LOG_SYSFATAL.
pub mod Kernel
pub mod Agreement
pub mod Registration
pub mod Lifetime
mod Tests
use weee_chatroom.Common.{
  ℕ, ◌*◌, Bool, true, false, List, [], ◌∷◌, Option, none, some, ◌==◌, if◌then◌else◌,
}
use weee_chatroom.Channel.{
  Channel, Mask, Index, new, added, deleted, is_none_event, set_reading, set_writing, clear_writing,
  clear_all,
}
use Kernel.{Epoll, Operation, add, mod_, del}

-- `kInitEventListSize`
abbrev pub init_event_list_size : ℕ
init_event_list_size = 16

-- `channels_`: the channel's address for each descriptor.
abbrev pub ChannelMap : Type 0
ChannelMap = List (ℕ × ℕ)

pub lookup : ChannelMap → ℕ → Option ℕ
lookup [] fd = none
lookup ((k, c) ∷ m) fd = if k == fd then some c else lookup m fd

-- `channels_[fd] = channel`
pub assign : ChannelMap → ℕ → ℕ → ChannelMap
assign [] fd c = (fd, c) ∷ []
assign ((k, d) ∷ m) fd c = if k == fd then (k, c) ∷ m else (k, d) ∷ assign m fd c

-- `channels_.erase(fd)`
pub erase : ChannelMap → ℕ → ChannelMap
erase [] fd = []
erase ((k, d) ∷ m) fd = if k == fd then erase m fd else (k, d) ∷ erase m fd

module _ (kernel : Epoll) where
  open kernel use {State, ctl, fails}

  pub record Epoller : Type 0 where
    pub state : State
    pub channels : ChannelMap
    pub event_list_size : ℕ

  -- `Epoller::update`
  pub update : Epoller → Operation → Channel → Option Epoller
  update ep op c =
      let done = record ep { state = ctl ep.state op c.fd c.events } in
      elim (fails ep.state op c.fd) [
        | none ↦ some done
        | some failure ↦ elim op [ del ↦ some done | _ ↦ none ]
      ]

  with_channel : Option Epoller → Channel → Option (Epoller × Channel)
  with_channel none c = none
  with_channel (some ep) c = some (ep, c)

  -- `updateChannel` by the channel's index: -1 or 2 registers the descriptor, 1 changes what it is
  -- registered for, or takes it out where nothing is left to wait for.
  update_channel_at : Index → Epoller → Channel → Option (Epoller × Channel)
  unfolding with_channel
  update_channel_at new ep c =
      let c' = record c { index = added } in
      with_channel (update (record ep { channels = assign ep.channels c.fd c.self }) add c') c'
  update_channel_at deleted ep c =
      let c' = record c { index = added } in with_channel (update ep add c') c'
  update_channel_at added ep c =
      if is_none_event c
      then with_channel (update ep del c) (record c { index = deleted })
      else with_channel (update ep mod_ c) c

  -- `Channel::update`, through `EventLoop::updateChannel`.
  pub update_channel : Epoller → Channel → Option (Epoller × Channel)
  unfolding update_channel_at
  update_channel ep c = update_channel_at c.index ep c

  remove_channel_at : Index → Epoller → Channel → Option (Epoller × Channel)
  unfolding with_channel
  remove_channel_at added ep c =
      with_channel (update (record ep { channels = erase ep.channels c.fd }) del c)
        (record c { index = new })
  remove_channel_at _ ep c =
      some (record ep { channels = erase ep.channels c.fd }, record c { index = new })

  pub remove_channel : Epoller → Channel → Option (Epoller × Channel)
  unfolding remove_channel_at
  remove_channel ep c = remove_channel_at c.index ep c

  pub enable_reading : Epoller → Channel → Option (Epoller × Channel)
  enable_reading ep c = update_channel ep (set_reading c)

  pub enable_writing : Epoller → Channel → Option (Epoller × Channel)
  enable_writing ep c = update_channel ep (set_writing c)

  pub disable_writing : Epoller → Channel → Option (Epoller × Channel)
  disable_writing ep c = update_channel ep (clear_writing c)

  pub disable_all : Epoller → Channel → Option (Epoller × Channel)
  disable_all ep c = update_channel ep (clear_all c)

  -- `poll`, behind `epoll_wait`: with as many events as the list holds it is doubled.
  pub poll_returned : Epoller → ℕ → Epoller
  poll_returned ep num_events =
      if num_events == ep.event_list_size
      then record ep { event_list_size = ep.event_list_size * 2 }
      else ep
