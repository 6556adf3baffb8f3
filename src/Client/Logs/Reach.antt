-- ===== src/Client/Logs/Reach.antt =====
-- The states that the services of the client lead to, with what the terminal interface
-- (client/Controller.cc) asks of them: it loads the logs of a conversation 20 messages at a time.
use Prim.Native.String.{String}
use text.Mathlib.Text.{◌==◌}
use weee_chatroom.Common.{
  ℕ, ◌≤◌, ◌≡◌, refl, sym, subst, ◌∙◌, inl, inr, Bool, true, false, List, [], some, arith, length,
  Bool-cases, Option-cases,
}
use mathlib.Core.Option.{some-injective, none-ne-some}
use weee_chatroom.Server.Services.{JsonLibrary}
use weee_chatroom.Server.World.{>>=-some}
use weee_chatroom.Client.{Client, ChatLogs, find, send_json, show}
use weee_chatroom.Client.Chat.{
  logs_at, get_log_path, store_chat_log, send_checked, send_message, receive_message,
  handle_message, is_chat_friend, is_chat_group, send_group_checked, send_group_message,
  receive_group_message, handle_group_message,
}
use weee_chatroom.Client.Logs.{
  load_chat_logs, put_logs, load_init_chat_logs, load_more_chat_logs, get_chat_logs,
}
use weee_chatroom.Client.Logs.Bounds.{
  AreShort, add_log-AreShort, put-AreShort, length-load_chat_logs,
}

module _ (json : JsonLibrary) (text : List ℕ → String) where
  -- A call of the service that returns.
  pub data Call : Client json → Client json → Type 0 where
    sends :
        (content : List ℕ) (time : String) (c : Client json)
        → Call c (send_message json text content time c).1
    sends_to_group :
        (content : List ℕ) (time : String) (c : Client json)
        → Call c (send_group_message json text content time c).1
    receives :
        (js : json.Json) (c c' : Client json) → handle_message json text js c ≡ some c' → Call c c'
    receives_from_group :
        (js : json.Json) (c c' : Client json)
        → handle_group_message json text js c ≡ some c'
        → Call c c'
    opens :
        (peer_id : String) (is_group : Bool) (c c' : Client json)
        → load_init_chat_logs json peer_id 20 is_group c ≡ some c'
        → Call c c'
    turns_to :
        (peer_id : String) (offset : ℕ) (is_group : Bool) (c c' : Client json)
        → load_more_chat_logs json peer_id 20 offset is_group c ≡ some c'
        → Call c c'
    asks : (is_group : Bool) (c : Client json) → Call c (get_chat_logs json is_group c)

  -- The client starts without logs; other parts of the program may change all but the logs.
  pub data Reachable : Client json → Type 0 where
    starts : (c : Client json) → c.chat_logs ≡ [] → c.group_chat_logs ≡ [] → Reachable c
    calls : (c c' : Client json) → Reachable c → Call c c' → Reachable c'
    changes :
        (c c' : Client json)
        → Reachable c
        → c'.chat_logs ≡ c.chat_logs
        → c'.group_chat_logs ≡ c.group_chat_logs
        → Reachable c'

  abbrev pub BothShort : Client json → Type 0
  BothShort c = AreShort c.chat_logs × AreShort c.group_chat_logs

  send_message-BothShort :
      (content : List ℕ) (time : String) (c : Client json)
      → BothShort c
      → BothShort (send_message json text content time c).1
  unfolding send_message send_checked store_chat_log send_json
  send_message-BothShort content time c (mine, theirs) =
      elim (Option-cases (find c.friend_list c.current_friend.id)) [
        | inl stranger ↦ rw (send_message, stranger) (mine, theirs)
        | inr (friend, known) ↦ elim (Bool-cases friend.is_blocked) [
          | inl blocked ↦ rw (send_message, known, blocked) (mine, theirs)
          | inr open_to ↦
              rw (send_message, known, open_to)
                (add_log-AreShort c.current_friend.id _ c.chat_logs mine, theirs)
        ]
      ]

  send_group_message-BothShort :
      (content : List ℕ) (time : String) (c : Client json)
      → BothShort c
      → BothShort (send_group_message json text content time c).1
  unfolding send_group_message send_group_checked store_chat_log send_json
  send_group_message-BothShort content time c (mine, theirs) =
      elim (Option-cases (find c.group_list c.current_group_id)) [
        | inl gone ↦ rw (send_group_message, gone) (mine, theirs)
        | inr (name, known) ↦
            rw (send_group_message, known)
              (mine, add_log-AreShort c.current_group_id _ c.group_chat_logs theirs)
      ]

  -- The rest of `handleMessage` touches no logs.
  receive_message-BothShort :
      (friend_id content time nickname : String) (js : json.Json) (c : Client json)
      → BothShort c
      → BothShort (receive_message json text friend_id content time nickname js c)
  unfolding receive_message store_chat_log show
  receive_message-BothShort friend_id content time nickname js c (mine, theirs) =
      elim (Bool-cases (is_chat_friend c.state)) [
        | inr elsewhere ↦ rw (receive_message, elsewhere) (mine, theirs)
        | inl chatting ↦ elim (Bool-cases (friend_id == c.current_friend.id)) [
          | inl here ↦
              rw (receive_message, chatting, here)
                (add_log-AreShort c.current_friend.id _ c.chat_logs mine, theirs)
          | inr there ↦
              rw (receive_message, chatting, there)
                (add_log-AreShort c.current_friend.id _ c.chat_logs mine, theirs)
        ]
      ]

  receive_group_message-BothShort :
      (group_id content sender_id time group_name : String) (js : json.Json) (c : Client json)
      → BothShort c
      → BothShort (receive_group_message json text group_id content sender_id time group_name js c)
  unfolding receive_group_message store_chat_log show
  receive_group_message-BothShort group_id content sender_id time group_name js c (mine, theirs) =
      elim (Bool-cases (is_chat_group c.state)) [
        | inr elsewhere ↦ rw (receive_group_message, elsewhere) (mine, theirs)
        | inl chatting ↦ elim (Bool-cases (group_id == c.current_group_id)) [
          | inl here ↦
              rw (receive_group_message, chatting, here)
                (mine, add_log-AreShort group_id _ c.group_chat_logs theirs)
          | inr there ↦
              rw (receive_group_message, chatting, there)
                (mine, add_log-AreShort group_id _ c.group_chat_logs theirs)
        ]
      ]

  put_logs-BothShort :
      (peer_id : String) (is_group : Bool) (logs : ChatLogs) (c : Client json)
      → length logs ≤ 20
      → BothShort c
      → BothShort (put_logs json peer_id is_group logs c)
  unfolding put_logs
  put_logs-BothShort peer_id true logs c short (mine, theirs) =
      (mine, put-AreShort peer_id logs c.group_chat_logs short theirs)
  put_logs-BothShort peer_id false logs c short (mine, theirs) =
      (put-AreShort peer_id logs c.chat_logs short mine, theirs)

  load-BothShort :
      (peer_id : String) (offset : ℕ) (is_group : Bool) (c c' : Client json)
      → load_more_chat_logs json peer_id 20 offset is_group c ≡ some c'
      → BothShort c
      → BothShort c'
  unfolding load_more_chat_logs
  load-BothShort peer_id offset is_group c c' e short =
      elim (Option-cases (load_chat_logs json peer_id 20 offset is_group c)) [
        | inl bad ↦ absurd (none-ne-some c' (rw (load_more_chat_logs, bad) at e))
        | inr (logs, good) ↦
            subst BothShort
              (some-injective (put_logs json peer_id is_group logs c) c'
                (rw (load_more_chat_logs, good) at e))
              (put_logs-BothShort peer_id is_group logs c
                (length-load_chat_logs json peer_id offset is_group c logs good) short)
      ]

  handle_message-BothShort :
      (js : json.Json) (c c' : Client json)
      → handle_message json text js c ≡ some c'
      → BothShort c
      → BothShort c'
  unfolding handle_message
  handle_message-BothShort js c c' e short =
      let (friend_id, _, e₁) = >>=-some (json.get js "sender_id") _ c' e in
      let (content, _, e₂) = >>=-some (json.get js "content") _ c' e₁ in
      let (time, _, e₃) = >>=-some (json.get js "timestamp") _ c' e₂ in
      let (nickname, _, e₄) = >>=-some (json.get js "nickname") _ c' e₃ in
      subst BothShort (some-injective _ c' e₄)
        (receive_message-BothShort friend_id content time nickname js c short)

  handle_group_message-BothShort :
      (js : json.Json) (c c' : Client json)
      → handle_group_message json text js c ≡ some c'
      → BothShort c
      → BothShort c'
  unfolding handle_group_message
  handle_group_message-BothShort js c c' e short =
      let (group_id, _, e₁) = >>=-some (json.get js "group_id") _ c' e in
      let (content, _, e₂) = >>=-some (json.get js "content") _ c' e₁ in
      let (sender_id, _, e₃) = >>=-some (json.get js "sender_id") _ c' e₂ in
      let (time, _, e₄) = >>=-some (json.get js "timestamp") _ c' e₃ in
      let (group_name, _, e₅) = >>=-some (json.get js "group_name") _ c' e₄ in
      subst BothShort (some-injective _ c' e₅)
        (receive_group_message-BothShort group_id content sender_id time group_name js c short)

  get_chat_logs-BothShort :
      (is_group : Bool) (c : Client json) → BothShort c → BothShort (get_chat_logs json is_group c)
  unfolding get_chat_logs send_json
  get_chat_logs-BothShort true c short =
      elim (Option-cases (find c.files (get_log_path c.user_id c.current_group_id true))) [
        | inl missing ↦ rw (get_chat_logs, missing) short
        | inr (lines, there) ↦ rw (get_chat_logs, there) short
      ]
  get_chat_logs-BothShort false c short =
      elim (Option-cases (find c.files (get_log_path c.user_id c.current_friend.id false))) [
        | inl missing ↦ rw (get_chat_logs, missing) short
        | inr (lines, there) ↦ rw (get_chat_logs, there) short
      ]

  load_init_chat_logs-load_more_chat_logs :
      (peer_id : String) (is_group : Bool) (c : Client json)
      → load_init_chat_logs json peer_id 20 is_group c
        ≡ load_more_chat_logs json peer_id 20 0 is_group c
  unfolding load_init_chat_logs load_more_chat_logs
  load_init_chat_logs-load_more_chat_logs peer_id is_group c = refl

  none-AreShort : AreShort []
  unfolding AreShort logs_at
  none-AreShort id = omega arith

  Call-BothShort : (c c' : Client json) → Call c c' → BothShort c → BothShort c'
  Call-BothShort c c' (sends content time c₀) short = send_message-BothShort content time c short
  Call-BothShort c c' (sends_to_group content time c₀) short =
      send_group_message-BothShort content time c short
  Call-BothShort c c' (receives js c₀ c₁ e) short = handle_message-BothShort js c c' e short
  Call-BothShort c c' (receives_from_group js c₀ c₁ e) short =
      handle_group_message-BothShort js c c' e short
  Call-BothShort c c' (opens peer_id is_group c₀ c₁ e) short =
      load-BothShort peer_id 0 is_group c c'
        (sym (load_init_chat_logs-load_more_chat_logs peer_id is_group c) ∙ e) short
  Call-BothShort c c' (turns_to peer_id offset is_group c₀ c₁ e) short =
      load-BothShort peer_id offset is_group c c' e short
  Call-BothShort c c' (asks is_group c₀) short = get_chat_logs-BothShort is_group c short

  Reachable-BothShort : (c : Client json) → Reachable c → BothShort c
  Reachable-BothShort c (starts c₀ mine theirs) =
      (subst AreShort (sym mine) none-AreShort, subst AreShort (sym theirs) none-AreShort)
  Reachable-BothShort c (calls c₀ c₁ r call) = Call-BothShort c₀ c call (Reachable-BothShort c₀ r)
  Reachable-BothShort c (changes c₀ c₁ r mine theirs) =
      let (short, group_short) = Reachable-BothShort c₀ r in
      (subst AreShort (sym mine) short, subst AreShort (sym theirs) group_short)

  -- In every state that the client gets to, no conversation has more than 20 messages in memory,
  -- neither with a friend nor in a group.
  pub Reachable-IsShort :
      (c : Client json) (id : String)
      → Reachable c
      → (length (logs_at c.chat_logs id) ≤ 20) × (length (logs_at c.group_chat_logs id) ≤ 20)
  unfolding AreShort
  Reachable-IsShort c id r = let (mine, theirs) = Reachable-BothShort c r in (mine id, theirs id)
