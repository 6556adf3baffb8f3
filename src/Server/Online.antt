-- ===== src/Server/Online.antt =====
-- server/Service.cc: the map of users who are online, when a connection is lost, and the check of the
-- heartbeats. The order of the list is the order in which the map is gone through.
pub mod Sessions
use Prim.Native.String.{String}
use text.Mathlib.Text.{◌==◌}
use weee_chatroom.Common.{
  ℕ, ◌-◌, ◌*◌, List, [], ◌∷◌, Option, none, some, ltb, if◌then◌else◌, ◌==◌ as same_conn,
}
use weee_chatroom.Server.Services.{Services}
use weee_chatroom.Server.World.{World}

-- `onlineUsers_[user_id] = conn`
unfoldable pub set_user : String → ℕ → List (String × ℕ) → List (String × ℕ)
set_user user_id conn [] = (user_id, conn) ∷ []
set_user user_id conn ((k, c) ∷ m) =
    if k == user_id then (k, conn) ∷ m else (k, c) ∷ set_user user_id conn m

-- The loop that erases the first entry of a connection.
unfoldable pub erase_conn : ℕ → List (String × ℕ) → List (String × ℕ)
erase_conn conn [] = []
erase_conn conn ((k, c) ∷ m) = if same_conn c conn then m else (k, c) ∷ erase_conn conn m

-- The loop of `getUserid`.
unfoldable pub find_conn : List (String × ℕ) → ℕ → Option String
find_conn [] conn = none
find_conn ((k, c) ∷ m) conn = if same_conn c conn then some k else find_conn m conn

module _ (services : Services) where
  -- `getUserid`
  unfoldable pub get_userid : ℕ → World services → String
  get_userid conn w = elim (find_conn w.online_users conn) [ some id ↦ id | none ↦ "" ]

  -- `onConnection`, for a connection that is down
  unfoldable pub on_disconnection : ℕ → World services → World services
  on_disconnection conn w = record w { online_users = erase_conn conn w.online_users }

-- The connections with their contexts: the time of the last heartbeat, in microseconds.
abbrev pub Contexts : Type 0
Contexts = List (ℕ × ℕ)

-- `handleHeartBeat`, and `onConnection` for a connection that is up
unfoldable pub handle_heart_beat : ℕ → ℕ → Contexts → Contexts
handle_heart_beat conn time [] = (conn, time) ∷ []
handle_heart_beat conn time ((c, t) ∷ cs) =
    if same_conn c conn then (c, time) ∷ cs else (c, t) ∷ handle_heart_beat conn time cs

-- `heartBeatCheck`: the connections that are closed by force.
unfoldable pub heart_beat_check : ℕ → Contexts → List ℕ
heart_beat_check now [] = []
heart_beat_check now ((c, last) ∷ cs) =
    let rest = heart_beat_check now cs in
    if ltb (30 * 1000 * 1000) (now - last) then c ∷ rest else rest
