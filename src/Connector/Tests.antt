-- ===== src/Connector/Tests.antt =====
-- A connection that is refused once and then set up.
use weee_chatroom.Common.{◌≡◌, refl, none}
use weee_chatroom.Connector.{
  new_connector, econnrefused, einprogress, start, start_in_loop, connect, by_errno, retry,
}
use weee_chatroom.Connector.Sockets.{IsAccounted}
use weee_chatroom.Connector.Reach.{
  Reachable, at_first, later, starts, timer_runs, Reachable-IsAccounted,
}

twice_tried : Reachable (start_in_loop einprogress 8 (start econnrefused 7 new_connector))
unfolding start start_in_loop connect by_errno retry
twice_tried =
    later (later at_first (starts econnrefused 7 new_connector refl))
      (timer_runs einprogress 8 (start econnrefused 7 new_connector) idle)
  where
    idle : (start econnrefused 7 new_connector).channel ≡ none
    idle = refl

Reachable-IsAccounted_example :
    IsAccounted (start_in_loop einprogress 8 (start econnrefused 7 new_connector))
Reachable-IsAccounted_example =
    Reachable-IsAccounted (start_in_loop einprogress 8 (start econnrefused 7 new_connector))
      twice_tried
