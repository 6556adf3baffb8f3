-- ===== src/Connector/Sockets.antt =====
-- Every socket that the connector makes is closed, handed over or being connected, and retries wait
-- between half a second and half a minute: the parts of an attempt.
use weee_chatroom.Common.{
  ℕ, ◌+◌, ◌*◌, ◌≤◌, ◌≡◌, refl, Bool, true, false, List, [], ◌∷◌, Option, none, some, min, ◌==◌,
  if◌then◌else◌, arith, Bool-cases,
}
use weee_chatroom.Connector.{
  connected, Errno, success, einprogress, eintr, eisconn, eagain, eaddrinuse, eaddrnotavail,
  econnrefused, enetunreach, eacces, eperm, eafnosupport, ealready, ebadf, efault, enotsock,
  unexpected, Connector, close, retry, begin_connecting, by_errno, connect, start_in_loop,
  finish_connecting,
}

abbrev pub count : ℕ → List ℕ → ℕ
count fd [] = 0
count fd (x ∷ xs) = (if fd == x then 1 else 0) + count fd xs

abbrev pub in_flight : ℕ → Option ℕ → ℕ
in_flight fd none = 0
in_flight fd (some x) = if fd == x then 1 else 0

-- The delays of timers.
pub data Bounded : List ℕ → Type 0 where
  no_delay : Bounded []
  one_delay : {d : ℕ} {ds : List ℕ} → 500 ≤ d → d ≤ 30000 → Bounded ds → Bounded (d ∷ ds)

pub record IsAccounted (c : Connector) : Type 0 where
  pub balance :
      (fd : ℕ) → count fd c.opened ≡ count fd c.closed + count fd c.handed + in_flight fd c.channel
  pub delay_low : 500 ≤ c.retry_delay_ms
  pub delay_high : c.retry_delay_ms ≤ 30000
  pub delays : Bounded c.timers

-- A socket is the caller's: made, and neither closed nor handed over nor in the channel.
pub record Holds (sockfd : ℕ) (c : Connector) : Type 0 where
  balance :
      (fd : ℕ)
      → count fd c.opened
        ≡ (if fd == sockfd then 1 else 0) + (count fd c.closed + count fd c.handed)
  pub empty : c.channel ≡ none
  pub delay_low : 500 ≤ c.retry_delay_ms
  pub delay_high : c.retry_delay_ms ≤ 30000
  pub delays : Bounded c.timers

if_Bounded : (b : Bool) (xs ys : List ℕ) → Bounded xs → Bounded ys → Bounded (if b then xs else ys)
if_Bounded true xs ys p q = p
if_Bounded false xs ys p q = q

-- What `retry` does, field by field.
retry-timers :
    (sockfd : ℕ) (c : Connector)
    → (retry sockfd c).timers ≡ (if c.wanted then c.retry_delay_ms ∷ c.timers else c.timers)
unfolding retry
retry-timers sockfd c = ground (arith, Bool-cases c.wanted)

retry-sockets :
    (sockfd : ℕ) (c : Connector)
    → ((retry sockfd c).opened ≡ c.opened)
      × ((retry sockfd c).closed ≡ sockfd ∷ c.closed)
      × ((retry sockfd c).handed ≡ c.handed)
      × ((retry sockfd c).channel ≡ c.channel)
unfolding retry
retry-sockets sockfd c = (
  ground (arith, Bool-cases c.wanted),
  ground (arith, Bool-cases c.wanted),
  ground (arith, Bool-cases c.wanted),
  ground (arith, Bool-cases c.wanted),
)

retry-delay :
    (sockfd : ℕ) (c : Connector)
    → (retry sockfd c).retry_delay_ms
      ≡ (if c.wanted then min (c.retry_delay_ms * 2) 30000 else c.retry_delay_ms)
unfolding retry
retry-delay sockfd c = ground (arith, Bool-cases c.wanted)

pub retry-IsAccounted : (sockfd : ℕ) (c : Connector) → Holds sockfd c → IsAccounted (retry sockfd c)
retry-IsAccounted sockfd c h =
    let (o, cl, ha, ch) = retry-sockets sockfd c in
    record {
      balance = λ fd. rw (o, cl, ha, ch, h.empty) (ground (arith, h.balance fd));
      delay_low = ground (arith, retry-delay sockfd c, h.delay_low, Bool-cases c.wanted);
      delay_high = ground (arith, retry-delay sockfd c, h.delay_high, Bool-cases c.wanted);
      delays = rw (retry-timers sockfd c) (
          if_Bounded c.wanted (c.retry_delay_ms ∷ c.timers) c.timers
            (one_delay h.delay_low h.delay_high h.delays) h.delays);
    }

close-IsAccounted : (sockfd : ℕ) (c : Connector) → Holds sockfd c → IsAccounted (close sockfd c)
close-IsAccounted sockfd c h = record {
  balance = λ fd. rw h.empty (ground (arith, h.balance fd));
  delay_low = h.delay_low;
  delay_high = h.delay_high;
  delays = h.delays;
}

begin-IsAccounted :
    (sockfd : ℕ) (c : Connector) → Holds sockfd c → IsAccounted (begin_connecting sockfd c)
unfolding begin_connecting
begin-IsAccounted sockfd c h = record {
  balance = λ fd. ground (arith, h.balance fd);
  delay_low = h.delay_low;
  delay_high = h.delay_high;
  delays = h.delays;
}

by_errno-IsAccounted :
    (e : Errno) (sockfd : ℕ) (c : Connector) → Holds sockfd c → IsAccounted (by_errno e sockfd c)
unfolding by_errno
by_errno-IsAccounted success sockfd c h = begin-IsAccounted sockfd c h
by_errno-IsAccounted einprogress sockfd c h = begin-IsAccounted sockfd c h
by_errno-IsAccounted eintr sockfd c h = begin-IsAccounted sockfd c h
by_errno-IsAccounted eisconn sockfd c h = begin-IsAccounted sockfd c h
by_errno-IsAccounted eagain sockfd c h = retry-IsAccounted sockfd c h
by_errno-IsAccounted eaddrinuse sockfd c h = retry-IsAccounted sockfd c h
by_errno-IsAccounted eaddrnotavail sockfd c h = retry-IsAccounted sockfd c h
by_errno-IsAccounted econnrefused sockfd c h = retry-IsAccounted sockfd c h
by_errno-IsAccounted enetunreach sockfd c h = retry-IsAccounted sockfd c h
by_errno-IsAccounted eacces sockfd c h = close-IsAccounted sockfd c h
by_errno-IsAccounted eperm sockfd c h = close-IsAccounted sockfd c h
by_errno-IsAccounted eafnosupport sockfd c h = close-IsAccounted sockfd c h
by_errno-IsAccounted ealready sockfd c h = close-IsAccounted sockfd c h
by_errno-IsAccounted ebadf sockfd c h = close-IsAccounted sockfd c h
by_errno-IsAccounted efault sockfd c h = close-IsAccounted sockfd c h
by_errno-IsAccounted enotsock sockfd c h = close-IsAccounted sockfd c h
by_errno-IsAccounted unexpected sockfd c h = close-IsAccounted sockfd c h

pub start_in_loop-IsAccounted :
    (e : Errno) (sockfd : ℕ) (c : Connector)
    → c.channel ≡ none
    → IsAccounted c
    → IsAccounted (start_in_loop e sockfd c)
unfolding start_in_loop connect
start_in_loop-IsAccounted e sockfd c idle a = go c.wanted
  where
    made : Connector
    made = record c { opened = sockfd ∷ c.opened }

    go : (b : Bool) → IsAccounted (if b then by_errno e sockfd made else c)
    go false = a
    go true = by_errno-IsAccounted e sockfd made (record {
      balance = λ fd. ground (arith, a.balance fd, idle);
      empty = idle;
      delay_low = a.delay_low;
      delay_high = a.delay_high;
      delays = a.delays;
    })

pub without_channel :
    (c : Connector) (sockfd : ℕ)
    → c.channel ≡ some sockfd
    → IsAccounted c
    → Holds sockfd (record c { channel = none })
without_channel c sockfd e a = record {
  balance = λ fd. ground (arith, a.balance fd, e);
  empty = refl;
  delay_low = a.delay_low;
  delay_high = a.delay_high;
  delays = a.delays;
}

pub finish_connecting-IsAccounted :
    (err self_connect : Bool) (sockfd : ℕ) (c : Connector)
    → Holds sockfd c
    → IsAccounted (finish_connecting err self_connect sockfd c)
unfolding finish_connecting
finish_connecting-IsAccounted true s sockfd c h = retry-IsAccounted sockfd c h
finish_connecting-IsAccounted false true sockfd c h = retry-IsAccounted sockfd c h
finish_connecting-IsAccounted false false sockfd c h = go c.wanted
  where
    go :
        (b : Bool)
        → IsAccounted (
            if b
            then record c { state = connected; handed = sockfd ∷ c.handed }
            else record (close sockfd c) { state = connected })
    go true = record {
      balance = λ fd. rw h.empty (ground (arith, h.balance fd));
      delay_low = h.delay_low;
      delay_high = h.delay_high;
      delays = h.delays;
    }
    go false = record {
      balance = λ fd. rw h.empty (ground (arith, h.balance fd));
      delay_low = h.delay_low;
      delay_high = h.delay_high;
      delays = h.delays;
    }
