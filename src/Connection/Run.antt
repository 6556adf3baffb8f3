-- ===== src/Connection/Run.antt =====
-- Any events in any order on an established connection.
use weee_chatroom.Common.{
  ◌≡◌, sym, ap, ◌∙◌, true, List, [], ◌∷◌, ◌++◌, append_assoc, append-nil, length-eq-zero,
}
use weee_chatroom.Buffer.Contents.{contents}
use weee_chatroom.Connection.{Connection}
use weee_chatroom.Connection.Output.{sent, stream}
use weee_chatroom.Connection.Shutdown.{
  Event, sends, writable, shuts_down, step, accepted, Allowed, run, all_accepted, AllAllowed,
  has_shut, IsOrderly, Steps, step_sends, step_shuts_down,
}
use weee_chatroom.Connection.Draining.{step_writable}

pub step-IsOrderly :
    (e : Event) (c : Connection) → IsOrderly c → Allowed e c → Steps c (accepted e c) (step e c)
step-IsOrderly (sends w m) c o a = step_sends w m c o a
step-IsOrderly (writable w) c o a = step_writable w c o a
step-IsOrderly shuts_down c o a = step_shuts_down c o

-- Whatever messages, writable events and shutdowns come, and however much `::write` takes each time:
-- what went out and what is still buffered is, byte by byte, what was there before and every
-- message that was accepted, in order; and the connection stays orderly, so that its write half is
-- shut down exactly if a shutdown was asked for and nothing is left to write.
pub run-IsOrderly :
    (es : List Event) (c : Connection)
    → IsOrderly c
    → AllAllowed es c
    → Steps c (all_accepted es c) (run es c)
unfolding run
run-IsOrderly [] c o a = (sym (append-nil (stream c)), o)
run-IsOrderly (e ∷ es) c o a =
    let (now, o') = step-IsOrderly e c o a.0 in
    let (later, o'') = run-IsOrderly es (step e c) o' a.1 in
    (
      later
          ∙ ap (λ s. s ++ all_accepted es (step e c)) now
          ∙ append_assoc (stream c) (accepted e c) (all_accepted es (step e c)),
      o'',
    )

-- When the write half has been shut down, every byte of every accepted message has gone out.
pub shut_after_all :
    (es : List Event) (c : Connection)
    → IsOrderly c
    → AllAllowed es c
    → has_shut (run es c).effects ≡ true
    → sent (run es c).effects ≡ stream c ++ all_accepted es c
shut_after_all es c o a h =
    let (all, o') = run-IsOrderly es c o a in
    let empty = length-eq-zero (contents (run es c).output_buffer) (o'.shut_late h).1 in
    sym (append-nil (sent (run es c).effects))
    ∙ ap (◌++◌ (sent (run es c).effects)) (sym empty)
    ∙ all
