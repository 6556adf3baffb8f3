-- ===== src/Channel.antt =====
-- netlib/reactor/Channel.h and Channel.cc: the events that one descriptor waits for, and the
-- dispatch of those that came. A mask of poll flags is the record of its bits, and a callback the
-- fact that it is set.
use weee_chatroom.Common.{
  ◌≡◌, refl, ◌⊎◌, inl, inr, ℕ, Bool, true, false, ◌&&◌, ◌||◌, not, List, [], ◌∷◌, ◌++◌,
  if◌then◌else◌,
}

pub record Mask : Type 0 where
  pub pollin : Bool
  pub pollpri : Bool
  pub pollout : Bool
  pub pollrdhup : Bool
  pub pollerr : Bool
  pub pollhup : Bool
  pub pollnval : Bool

-- `kNoneEvent`
abbrev pub none_event : Mask
none_event = record {
  pollin = false;
  pollpri = false;
  pollout = false;
  pollrdhup = false;
  pollerr = false;
  pollhup = false;
  pollnval = false;
}

-- `index_`: -1, 1 and 2 in Epoller.cc.
pub data Index : Type 0 where
  new added deleted : Index

pub Index-cases : (i : Index) → (i ≡ new) ⊎ ((i ≡ added) ⊎ (i ≡ deleted))
Index-cases new = inl refl
Index-cases added = inr (inl refl)
Index-cases deleted = inr (inr refl)

pub record Channel : Type 0 where
  -- the channel's address
  pub self : ℕ
  pub fd : ℕ
  pub events : Mask
  pub revents : Mask
  pub index : Index
  pub event_handling : Bool
  pub read_callback : Bool
  pub write_callback : Bool
  pub error_callback : Bool
  pub close_callback : Bool

-- The constructor.
unfoldable pub new_channel : ℕ → ℕ → Channel
new_channel self fd = record {
  self = self;
  fd = fd;
  events = none_event;
  revents = none_event;
  index = new;
  event_handling = false;
  read_callback = false;
  write_callback = false;
  error_callback = false;
  close_callback = false;
}

-- `events_ == kNoneEvent`
unfoldable pub is_none_event : Channel → Bool
is_none_event c = not (
    c.events.pollin || c.events.pollpri || c.events.pollout || c.events.pollrdhup
    || c.events.pollerr || c.events.pollhup || c.events.pollnval)

-- `events_ & kWriteEvent`
unfoldable pub is_writing : Channel → Bool
is_writing c = c.events.pollout

-- What `enableReading`, `enableWriting`, `disableWriting` and `disableAll` do to `events_`.
unfoldable pub set_reading : Channel → Channel
set_reading c = record c { events = record (c.events) { pollin = true; pollpri = true } }

unfoldable pub set_writing : Channel → Channel
set_writing c = record c { events = record (c.events) { pollout = true } }

unfoldable pub clear_writing : Channel → Channel
clear_writing c = record c { events = record (c.events) { pollout = false } }

unfoldable pub clear_all : Channel → Channel
clear_all c = record c { events = none_event }

-- The callbacks that `handleEvent` may call.
pub data Callback : Type 0 where
  on_close on_error on_read on_write : Callback

abbrev call_if : Bool → Callback → List Callback
call_if b c = if b then c ∷ [] else []

-- `handleEvent`: the callbacks in the order of their calls. They see `eventHandling_` set; when the
-- last has returned it is clear again.
pub handle_event : Channel → List Callback × Channel
handle_event c =
    let r = c.revents in
    (
      call_if (r.pollhup && not r.pollin && c.close_callback) on_close
          ++ (call_if ((r.pollerr || r.pollnval) && c.error_callback) on_error
              ++ (call_if ((r.pollin || r.pollpri || r.pollrdhup) && c.read_callback) on_read
                  ++ call_if (r.pollout && c.write_callback) on_write)),
      record c { event_handling = false },
    )
