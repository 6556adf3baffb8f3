-- ===== src/Connection/Tests.antt =====
-- An established connection that sends one message of three bytes.
use weee_chatroom.Common.{
  ◌≡◌, refl, true, false, List, [], ◌∷◌, arith, ◌++◌, write_at, copy_forward,
}
use weee_chatroom.Buffer.{
  Buffer, append, ensure_writable_bytes, readable_bytes, writable_bytes, make_space, resize,
  retrieve, peek,
}
use weee_chatroom.Channel.{new_channel, set_reading, set_writing, clear_writing, is_writing}
use weee_chatroom.Connection.{
  Connection, connected, written, send_in_loop, keep_rest, shutdown_in_loop, after_write, wrote_out,
  when_drained,
}
use weee_chatroom.Connection.Output.{sent, stream, IsFlowing, send_in_loop-stream}
use weee_chatroom.Connection.Shutdown.{
  Event, sends, writable, shuts_down, run, step, AllAllowed, all_accepted, has_shut, IsOrderly,
  Steps,
}
use weee_chatroom.Connection.Run.{run-IsOrderly, shut_after_all}

abbrev small : Buffer
small = record {
  bytes = 0 ∷ 0 ∷ 0 ∷ 0 ∷ 0 ∷ 0 ∷ 0 ∷ 0 ∷ 0 ∷ 0 ∷ [];
  reader_index = 8;
  writer_index = 8;
}

abbrev open_connection : Connection
open_connection = record {
  state = connected;
  channel = set_reading (new_channel 100 5);
  input_buffer = small;
  output_buffer = small;
  connection_callback = true;
  write_complete_callback = false;
  write_callback = false;
  is_set_readable_callback = false;
  effects = [];
}

open_connection-IsOrderly : IsOrderly open_connection
unfolding set_reading new_channel weee_chatroom.Channel.is_writing
open_connection-IsOrderly = record {
  flows = record { valid = omega arith; waits = refl };
  plain = refl;
  shut_late = λ h. cc;
  shut_soon = λ h. cc;
}

send_in_loop-stream_example :
    (stream (send_in_loop (written 2) (1 ∷ 2 ∷ 3 ∷ []) open_connection) ≡ 1 ∷ 2 ∷ 3 ∷ [])
    × IsFlowing (send_in_loop (written 2) (1 ∷ 2 ∷ 3 ∷ []) open_connection)
send_in_loop-stream_example =
    send_in_loop-stream (written 2) (1 ∷ 2 ∷ 3 ∷ []) open_connection open_connection-IsOrderly.flows
      (omega arith) (omega arith)

-- One byte goes out at once; the shutdown waits for the other one.
abbrev events : List Event
events = sends (written 1) (1 ∷ 2 ∷ []) ∷ shuts_down ∷ writable (written 1) ∷ []

run_shuts : has_shut (run events open_connection).effects ≡ true
unfolding run step send_in_loop keep_rest shutdown_in_loop after_write wrote_out when_drained append
    ensure_writable_bytes readable_bytes writable_bytes make_space resize retrieve peek write_at
    copy_forward set_reading set_writing clear_writing is_writing new_channel
run_shuts = refl

events-AllAllowed : AllAllowed events open_connection
unfolding step send_in_loop keep_rest shutdown_in_loop after_write wrote_out when_drained append
    ensure_writable_bytes readable_bytes writable_bytes make_space resize retrieve peek write_at
    copy_forward set_reading set_writing clear_writing is_writing new_channel
events-AllAllowed = omega arith

run-IsOrderly_example :
    Steps open_connection (all_accepted events open_connection) (run events open_connection)
run-IsOrderly_example =
    run-IsOrderly events open_connection open_connection-IsOrderly events-AllAllowed

shut_after_all_example :
    sent (run events open_connection).effects
    ≡ stream open_connection ++ all_accepted events open_connection
shut_after_all_example =
    shut_after_all events open_connection open_connection-IsOrderly events-AllAllowed run_shuts
