-- ===== src/Client/Logs.antt =====
-- client/service/ChatService.cc: the part of a log file that is loaded, and when the logs are asked of
-- the server. An index loop over lines is a loop over the slice of them. The sum of a count
-- and an offset is below 2 ^ 64.
pub mod Window
pub mod Bounds
pub mod Reach
use Prim.Native.String.{String}
use weee_chatroom.Common.{
  ℕ, ◌+◌, ◌-◌, Bool, true, false, List, [], ◌∷◌, ◌++◌, Option, none, some, if◌then◌else◌, length,
  take, drop, ltb, leb,
}
use weee_chatroom.Server.Services.{JsonLibrary}
use weee_chatroom.Server.World.{◌>>=◌}
use weee_chatroom.Client.{find, put, ChatMessage, ChatLogs, Client, send_json}
use weee_chatroom.Client.Chat.{get_log_path, msg_of_logs}

module _ (json : JsonLibrary) where
  -- A line of a log file.
  unfoldable pub parse_line : String → String → Option ChatMessage
  parse_line user_id line = json.parse line >>= λ js.
      (json.get js "content" >>= λ content.
      (json.get js "timestamp" >>= λ time.
      (json.get js "sender_id" >>= λ sender_id.
      some (record {
        sender_id = sender_id;
        content = content;
        timestamp = time;
        user_id = user_id;
      }))))

  unfoldable pub parse_lines : String → List String → Option ChatLogs
  parse_lines user_id [] = some []
  parse_lines user_id (line ∷ lines) =
      parse_line user_id line >>= λ log. (parse_lines user_id lines >>= λ logs. some (log ∷ logs))

  -- `loadChatLogs` behind the reading of the lines
  unfoldable pub load_lines : String → List String → ℕ → ℕ → Option ChatLogs
  load_lines user_id lines count offset =
      let total = length lines in
      if leb total offset
      then some []
      else let start = if ltb (offset + count) total then total - offset - count else 0 in
        let end = total - offset in parse_lines user_id (take (end - start) (drop start lines))

  -- `loadChatLogs`
  unfoldable pub load_chat_logs : String → ℕ → ℕ → Bool → Client json → Option ChatLogs
  load_chat_logs peer_id count offset is_group c =
      elim (find c.files (get_log_path c.user_id peer_id is_group)) [
        | none ↦ some []
        | some lines ↦ load_lines c.user_id lines count offset
      ]

  unfoldable pub put_logs : String → Bool → ChatLogs → Client json → Client json
  put_logs peer_id is_group logs c =
      if is_group
      then record c { group_chat_logs = put peer_id logs c.group_chat_logs }
      else record c { chat_logs = put peer_id logs c.chat_logs }

  -- `loadInitChatLogs`, which does not use its count
  unfoldable pub load_init_chat_logs : String → ℕ → Bool → Client json → Option (Client json)
  load_init_chat_logs peer_id count is_group c =
      load_chat_logs peer_id 20 0 is_group c >>= λ logs. some (put_logs peer_id is_group logs c)

  -- `loadMoreChatLogs`
  unfoldable pub load_more_chat_logs : String → ℕ → ℕ → Bool → Client json → Option (Client json)
  load_more_chat_logs peer_id count offset is_group c =
      load_chat_logs peer_id count offset is_group c >>= λ logs.
      some (put_logs peer_id is_group logs c)

  -- `getChatLogs`
  unfoldable pub get_chat_logs : Bool → Client json → Client json
  get_chat_logs is_group c =
      let peer_id = if is_group then c.current_group_id else c.current_friend.id in
      elim (find c.files (get_log_path c.user_id peer_id is_group)) [
        | some lines ↦ c
        | none ↦
            send_json json
              (json.assign
                (json.assign
                  (json.assign_bool (json.assign_number json.null "msgid" msg_of_logs) "is_group"
                    is_group)
                  "peer_id" peer_id)
                "user_id" c.user_id)
              c
      ]
