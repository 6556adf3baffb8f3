-- ===== src/Client/Chat.antt =====
-- client/service/ChatService.cc. The bytes that a user enters become the text `text bytes` of a JSON
-- value; `time` is the time as text. A member of a JSON value that is missing or no text is a fault.
use Prim.Native.String.{String}
use Prim.Native.String as Text
use weee_chatroom.Common.{
  ℕ, Bool, true, false, ◌&&◌, List, [], ◌∷◌, ◌++◌, Option, none, some, if◌then◌else◌, length, drop,
  ltb,
}
use text.Mathlib.Text.{◌==◌}
use weee_chatroom.Server.Services.{JsonLibrary}
use weee_chatroom.Server.World.{◌>>=◌}
use weee_chatroom.Client.{
  find, put, State, chat_friend, chat_group, ChatMessage, ChatLogs, flush_logs, flush_group_logs,
  friend_notice, group_notice, Client, send_json, show,
}
use weee_chatroom.Client.Utf8.{fix_invalid_utf8}

-- `logs.push_back(msg)`, with `logs.pop_front()` where there are more than 10
unfoldable pub push_log : ChatMessage → ChatLogs → ChatLogs
push_log msg logs =
    let more = logs ++ msg ∷ [] in if ltb 10 (length more) then drop 1 more else more

-- `chatLogs_[id]`, which makes an entry
unfoldable pub logs_at : List (String × ChatLogs) → String → ChatLogs
logs_at m id = elim (find m id) [ some logs ↦ logs | none ↦ [] ]

unfoldable pub add_log : String → ChatMessage → List (String × ChatLogs) → List (String × ChatLogs)
add_log id msg m = put id (push_log msg (logs_at m id)) m

-- `getLogPath`
unfoldable pub get_log_path : String → String → Bool → String
get_log_path user_id friend_id is_group =
    let name = Text.◌++◌ user_id (Text.◌++◌ "_" (Text.◌++◌ friend_id ".log")) in
    Text.◌++◌ "/tmp/chatclient/chat_logs/" (if is_group then Text.◌++◌ "g_" name else name)

unfoldable pub is_chat_friend : State → Bool
is_chat_friend chat_friend = true
is_chat_friend s = false

unfoldable pub is_chat_group : State → Bool
is_chat_group chat_group = true
is_chat_group s = false

-- The numbers of CHAT_MSG, CHAT_GROUP_MSG and GET_LOGS.
abbrev pub msg_of_friend : ℕ
msg_of_friend = 8

abbrev pub msg_of_group : ℕ
msg_of_group = 10

abbrev pub msg_of_logs : ℕ
msg_of_logs = 37

module _ (json : JsonLibrary) (text : List ℕ → String) where
  -- `storeChatLog`
  unfoldable pub store_chat_log : String → String → json.Json → Bool → Client json → Client json
  store_chat_log user_id peer_id js is_group c =
      let path = get_log_path user_id peer_id is_group in
      let lines : List String = elim (find c.files path) [ some lines ↦ lines | none ↦ [] ] in
      record c { files = put path (lines ++ json.dump js ∷ []) c.files }

  -- The JSON value of `sendMessage`.
  unfoldable pub message_json : List ℕ → String → Client json → json.Json
  message_json content time c =
      json.assign
        (json.assign
          (json.assign
            (json.assign
              (json.assign (json.assign_number json.null "msgid" msg_of_friend) "sender_id"
                c.user_id)
              "nickname" c.nickname)
            "receiver_id" c.current_friend.id)
          "content" (text (fix_invalid_utf8 content)))
        "timestamp" time

  -- `sendMessage` behind its tests
  unfoldable pub send_checked : List ℕ → String → Client json → Client json
  send_checked content time c =
      let js = message_json content time c in
      let msg : ChatMessage = record {
        sender_id = c.user_id;
        content = text content;
        timestamp = time;
        user_id = c.user_id;
      } in
      let logged = record c { chat_logs = add_log c.current_friend.id msg c.chat_logs } in
      store_chat_log c.user_id c.current_friend.id js false (send_json json js logged)

  -- `sendMessage`: 1 to somebody who is no friend any more, 2 to a friend who is blocked
  unfoldable pub send_message : List ℕ → String → Client json → ℕ × Client json
  send_message content time c = elim (find c.friend_list c.current_friend.id) [
    | none ↦ (1, c)
    | some friend ↦ if friend.is_blocked then (2, c) else (0, send_checked content time c)
  ]

  -- `handleMessage`, with the fields that it takes from the message
  unfoldable pub receive_message :
      String → String → String → String → json.Json → Client json → Client json
  receive_message friend_id content time nickname js c =
      let msg : ChatMessage = record {
        sender_id = friend_id;
        content = content;
        timestamp = time;
        user_id = c.user_id;
      } in
      let logged =
        if is_chat_friend c.state
        then record c { chat_logs = add_log c.current_friend.id msg c.chat_logs }
        else c in
      let filed = store_chat_log c.user_id friend_id js false logged in
      if is_chat_friend c.state && (friend_id == c.current_friend.id)
      then show json flush_logs filed
      else show json (friend_notice nickname)
          (record filed { is_read_map = put friend_id true filed.is_read_map })

  -- `handleMessage`
  unfoldable pub handle_message : json.Json → Client json → Option (Client json)
  handle_message js c = json.get js "sender_id" >>= λ friend_id.
      (json.get js "content" >>= λ content.
      (json.get js "timestamp" >>= λ time.
      (json.get js "nickname" >>= λ nickname.
      some (receive_message friend_id content time nickname js c))))

  unfoldable pub group_message_json : List ℕ → String → Client json → json.Json
  group_message_json content time c =
      json.assign
        (json.assign
          (json.assign
            (json.assign
              (json.assign (json.assign_number json.null "msgid" msg_of_group) "sender_id"
                c.user_id)
              "group_id" c.current_group_id)
            "content" (text (fix_invalid_utf8 content)))
          "timestamp" time)
        "group_name" c.current_group_name

  unfoldable pub send_group_checked : List ℕ → String → Client json → Client json
  send_group_checked content time c =
      let js = group_message_json content time c in
      let msg : ChatMessage = record {
        sender_id = c.user_id;
        content = text content;
        timestamp = time;
        user_id = c.user_id;
      } in
      let logged = record c {
        group_chat_logs = add_log c.current_group_id msg c.group_chat_logs;
      } in
      store_chat_log c.user_id c.current_group_id js true (send_json json js logged)

  -- `sendGroupMessage`: 1 to a group that the user is no longer in
  unfoldable pub send_group_message : List ℕ → String → Client json → ℕ × Client json
  send_group_message content time c = elim (find c.group_list c.current_group_id) [
    | none ↦ (1, c)
    | some name ↦ (0, send_group_checked content time c)
  ]

  unfoldable pub receive_group_message :
      String → String → String → String → String → json.Json → Client json → Client json
  receive_group_message group_id content sender_id time group_name js c =
      let msg : ChatMessage = record {
        sender_id = sender_id;
        content = content;
        timestamp = time;
        user_id = c.user_id;
      } in
      let logged =
        if is_chat_group c.state
        then record c { group_chat_logs = add_log group_id msg c.group_chat_logs }
        else c in
      let filed = store_chat_log c.user_id group_id js true logged in
      if is_chat_group c.state && (group_id == c.current_group_id)
      then show json flush_group_logs filed
      else show json (group_notice group_name)
          (record filed { is_read_group_map = put group_id true filed.is_read_group_map })

  -- `handleGroupMessage`
  unfoldable pub handle_group_message : json.Json → Client json → Option (Client json)
  handle_group_message js c = json.get js "group_id" >>= λ group_id.
      (json.get js "content" >>= λ content.
      (json.get js "sender_id" >>= λ sender_id.
      (json.get js "timestamp" >>= λ time.
      (json.get js "group_name" >>= λ group_name.
      some (receive_group_message group_id content sender_id time group_name js c)))))
