-- ===== src/Client/Tests.antt =====
-- The services of the client on small inputs.
use Prim.Native.String.{String}
use weee_chatroom.Common.{none, ℕ, ◌≤◌, ◌≡◌, refl, List, [], ◌∷◌, length, false, true}
use weee_chatroom.Server.Local.{local}
use weee_chatroom.Client.{Client, Friend, chat_friend}
use weee_chatroom.Client.Utf8.{
  lead_length, all_continue, keep, fix_from, fix_invalid_utf8, IsUtf8, fix_invalid_utf8_lem,
}
use weee_chatroom.Client.Chat.{logs_at, send_message}
use weee_chatroom.Client.Logs.{load_chat_logs, parse_lines}
use weee_chatroom.Client.Logs.Window.{latest, but_latest, log_lines, load_chat_logs_lem}
use weee_chatroom.Client.Logs.Reach.{starts, calls, sends, Reachable-IsShort}

-- A lone first byte is left out; the bytes C0 80 stay, which are no UTF-8.
overlong : fix_invalid_utf8 (192 ∷ 65 ∷ 192 ∷ 128 ∷ []) ≡ 192 ∷ 128 ∷ []
unfolding fix_invalid_utf8 fix_from keep lead_length all_continue
overlong = refl

fix_invalid_utf8_lem_example :
    IsUtf8 (fix_invalid_utf8 (65 ∷ 200 ∷ []))
    × (length (fix_invalid_utf8 (65 ∷ 200 ∷ [])) ≤ 2)
    × (fix_invalid_utf8 (fix_invalid_utf8 (65 ∷ 200 ∷ [])) ≡ fix_invalid_utf8 (65 ∷ 200 ∷ []))
fix_invalid_utf8_lem_example = fix_invalid_utf8_lem (65 ∷ 200 ∷ [])

abbrev friend_bob : Friend
friend_bob = record { id = "3"; nickname = "Bob"; is_online = true; is_blocked = false }

abbrev fresh : Client local.json
fresh = record {
  state = chat_friend;
  user_id = "2";
  nickname = "Ann";
  friend_list = ("3", friend_bob) ∷ [];
  group_list = [];
  current_friend = friend_bob;
  current_group_id = "";
  current_group_name = "";
  chat_logs = [];
  group_chat_logs = [];
  is_read_map = [];
  is_read_group_map = [];
  user_email = "";
  friend_requests = [];
  group_requests = [];
  group_members = [];
  waiters = λ a. none;
  files = ("/tmp/chatclient/chat_logs/2_3.log", "one" ∷ "two" ∷ "three" ∷ []) ∷ [];
  sent = [];
  shown = [];
}

load_chat_logs_lem_example :
    load_chat_logs local.json "3" 1 1 false fresh
    ≡ parse_lines local.json "2" (latest 1 (but_latest 1 (log_lines local.json "3" false fresh)))
load_chat_logs_lem_example = load_chat_logs_lem local.json "3" 1 1 false fresh

abbrev as_text : List ℕ → String
as_text bytes = "hello"

abbrev after : Client local.json
after = (send_message local.json as_text (65 ∷ []) "now" fresh).1

Reachable-IsShort_example :
    (length (logs_at after.chat_logs "3") ≤ 20) × (length (logs_at after.group_chat_logs "3") ≤ 20)
Reachable-IsShort_example =
    Reachable-IsShort local.json as_text after "3"
      (calls fresh after (starts fresh refl refl) (sends (65 ∷ []) "now" fresh))
