-- ===== src/Client/Logs/Bounds.antt =====
-- How many messages the client keeps of each conversation.
use Prim.Native.String.{String}
use text.Mathlib.Text.{◌==◌}
use text.Mathlib.TextPositions.{eq_refl}
use text.Mathlib.TextEquality.{eq_iff}
use weee_chatroom.Common.{
  ℕ, suc, ◌≤◌, ◌≡◌, refl, sym, ap, ◌∙◌, inl, inr, Bool, false, List, [], ◌∷◌, ◌++◌, some, arith,
  length, ltb, Bool-cases, Option-cases, if◌then◌else◌, length-append, length-drop,
}
use weee_chatroom.Server.Services.{JsonLibrary}
use weee_chatroom.Client.{Client, ChatLogs, ChatMessage, find, put}
use weee_chatroom.Client.Chat.{push_log, logs_at, add_log}
use mathlib.Core.Option.{some-injective, none-ne-some}
use weee_chatroom.Client.Logs.Window.{
  latest, but_latest, log_lines, load_chat_logs_lem, length-latest,
}
use weee_chatroom.Client.Logs.{parse_line, parse_lines, load_chat_logs}

-- Each conversation has at most 20 messages.
unfoldable pub AreShort : List (String × ChatLogs) → Type 0
AreShort m = (id : String) → length (logs_at m id) ≤ 20

find-put :
    {A : Type 0} (key : String) (a : A) (m : List (String × A)) (other : String)
    → find (put key a m) other ≡ (if key == other then some a else find m other)
find-put key a [] other = refl
find-put key a ((k, b) ∷ m) other = elim (Bool-cases (k == key)) [
  | inl same ↦
      rw (same, (eq_iff k key).0 same)
        elim (Bool-cases (key == other)) [ inl here ↦ rw here refl | inr there ↦ rw there refl ]
  | inr differ ↦ elim (Bool-cases (k == other)) [
    | inl here ↦
        let apart : (key == other) ≡ false = ground (
          arith,
          differ,
          (eq_iff k other).0 here,
          eq_refl k,
          eq_iff key other,
          Bool-cases (key == other),
        ) in
        rw (differ, here, apart) refl
    | inr there ↦ rw (differ, there) (find-put key a m other)
  ]
]

-- `chatLogs_[key] = logs`, read back.
logs_at-put :
    (key : String) (logs : ChatLogs) (m : List (String × ChatLogs)) (other : String)
    → logs_at (put key logs m) other ≡ (if key == other then logs else logs_at m other)
unfolding logs_at
logs_at-put key logs m other = elim (Bool-cases (key == other)) [
  | inl here ↦ rw (logs_at, find-put key logs m other, here) refl
  | inr there ↦ rw (logs_at, find-put key logs m other, there) refl
]

pub put-AreShort :
    (id : String) (logs : ChatLogs) (m : List (String × ChatLogs))
    → length logs ≤ 20
    → AreShort m
    → AreShort (put id logs m)
unfolding AreShort
put-AreShort id logs m short all other = elim (Bool-cases (id == other)) [
  | inl here ↦ rw (logs_at-put id logs m other, here) short
  | inr there ↦ rw (logs_at-put id logs m other, there) (all other)
]

length-push_log :
    (msg : ChatMessage) (logs : ChatLogs) → length logs ≤ 20 → length (push_log msg logs) ≤ 20
unfolding push_log
length-push_log msg logs h = ground (
  arith,
  length-append logs (msg ∷ []),
  length-drop 1 (logs ++ msg ∷ []),
  Bool-cases (ltb 10 (length (logs ++ msg ∷ []))),
)

pub add_log-AreShort :
    (id : String) (msg : ChatMessage) (m : List (String × ChatLogs))
    → AreShort m
    → AreShort (add_log id msg m)
unfolding add_log AreShort
add_log-AreShort id msg m all =
    put-AreShort id (push_log msg (logs_at m id)) m (length-push_log msg (logs_at m id) (all id))
      all

length-parse_lines :
    (json : JsonLibrary) (user_id : String) (lines : List String) (logs : ChatLogs)
    → parse_lines json user_id lines ≡ some logs
    → length logs ≡ length lines
unfolding parse_lines
length-parse_lines json user_id [] logs e = sym (ap length (some-injective [] logs e))
length-parse_lines json user_id (line ∷ lines) logs e =
    elim (Option-cases (parse_line json user_id line)) [
      | inl bad ↦ absurd (none-ne-some logs (rw bad at e))
      | inr (log, good) ↦ elim (Option-cases (parse_lines json user_id lines)) [
        | inl worse ↦ absurd (none-ne-some logs (rw (good, worse) at e))
        | inr (rest, all) ↦
            sym (ap length (some-injective (log ∷ rest) logs (rw (good, all) at e)))
            ∙ ap suc (length-parse_lines json user_id lines rest all)
      ]
    ]

pub length-load_chat_logs :
    (json : JsonLibrary) (peer_id : String) (offset : ℕ) (is_group : Bool) (c : Client json)
    (logs : ChatLogs)
    → load_chat_logs json peer_id 20 offset is_group c ≡ some logs
    → length logs ≤ 20
length-load_chat_logs json peer_id offset is_group c logs e =
    let wanted = latest 20 (but_latest offset (log_lines json peer_id is_group c)) in
    let same =
      length-parse_lines json c.user_id wanted logs
        (sym (load_chat_logs_lem json peer_id 20 offset is_group c) ∙ e) in
    omega (arith, same, length-latest 20 (but_latest offset (log_lines json peer_id is_group c)))
