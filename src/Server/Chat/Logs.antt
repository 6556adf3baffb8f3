-- ===== src/Server/Chat/Logs.antt =====
-- server/handler/Chat.cc: `LogsLister`, which sends the messages that are stored.
use Prim.Native.String.{String}
use text.Mathlib.Text.{◌==◌}
use weee_chatroom.Common.{
  ℕ, ◌≡◌, refl, ◌∙◌, Bool, true, false, List, [], ◌∷◌, ◌++◌, map, Option, some, arith, Option-cases,
  Bool-cases, ap, inl, inr, append_assoc, append-nil, sym,
}
use weee_chatroom.Server.Services.{
  Services, Fields, at, all_at, messages_table, group_messages_table,
}
use weee_chatroom.Server.World.{World, Message, stored, ◌>>=◌, entry, send_json, select, select_or}

-- The loop over the rows.
unfoldable pub send_logs :
    (services : Services) → ℕ → List Fields → World services → Option (World services)
send_logs services conn [] w = some w
send_logs services conn (row ∷ rows) w =
    at row "json" >>= λ json. send_logs services conn rows (send_json services conn (stored json) w)

-- The rows that are asked for.
unfoldable pub log_rows :
    (services : Services) → Bool → String → String → World services → List Fields
log_rows services true user_id peer_id w =
    select services w group_messages_table (("group_id", peer_id) ∷ [])
log_rows services false user_id peer_id w =
    select_or services w messages_table (("sender_id", user_id) ∷ ("receiver_id", user_id) ∷ [])

-- `LogsLister::handle`
unfoldable pub logs_lister :
    (services : Services) → ℕ → Bool → String → String → World services → Option (World services)
logs_lister services conn is_group user_id peer_id w =
    send_logs services conn (log_rows services is_group user_id peer_id w) w

-- The stored texts, to one connection.
pub logs_of : (services : Services) → ℕ → List Fields → List (ℕ × Message services)
logs_of services conn rows = map (λ row. (conn, stored (entry row "json"))) rows

entry-at : (row : Fields) (k v : String) → at row k ≡ some v → entry row k ≡ v
unfolding entry
entry-at [] k v e = ground (arith, e)
entry-at ((j, u) ∷ row) k v e = elim (Bool-cases (j == k)) [
  | inl here ↦ ground (arith, here, e)
  | inr there ↦ rw there (entry-at row k v (rw there at e))
]

pub send_logs_lem :
    (services : Services) (conn : ℕ) (rows : List Fields) (w : World services)
    → all_at rows "json" ≡ true
    → send_logs services conn rows w
      ≡ some (record w { outbox = w.outbox ++ logs_of services conn rows })
unfolding send_logs send_json logs_of
send_logs_lem services conn [] w h =
    ap (λ o. some (record w { outbox = o })) (sym (append-nil w.outbox))
send_logs_lem services conn (row ∷ rows) w h = elim (Option-cases (at row "json")) [
  | inl missing ↦ ground (arith, missing, h)
  | inr (v, e) ↦
      let next = send_json services conn (stored v) w in
      rw e (
        send_logs_lem services conn rows next (ground (arith, e, h))
        ∙ ap (λ o. some (record w { outbox = o }))
            (append_assoc w.outbox ((conn, stored v) ∷ []) (logs_of services conn rows)
              ∙ ap (λ u. w.outbox ++ (conn, stored u) ∷ logs_of services conn rows)
                  (sym (entry-at row "json" v e))))
]

log_rows-all_at :
    (services : Services) (is_group : Bool) (user_id peer_id : String) (w : World services)
    → all_at (log_rows services is_group user_id peer_id w) "json" ≡ true
unfolding log_rows select select_or
log_rows-all_at services true user_id peer_id w =
    services.database.select_columns w.tables group_messages_table (("group_id", peer_id) ∷ []) []
      [] "json" refl
log_rows-all_at services false user_id peer_id w =
    services.database.select_columns w.tables messages_table [] []
      (("sender_id", user_id) ∷ ("receiver_id", user_id) ∷ []) "json" refl

-- `LogsLister` always returns, and sends stored texts to the connection that asked, one for each row,
-- in the order of the rows, and does nothing else. For a group the rows are those of the messages of
-- the group; else they are those of the messages that the user has sent or received, with anybody.
pub logs_lister_lem :
    (services : Services) (conn : ℕ) (user_id peer_id : String) (w : World services)
    → (logs_lister services conn true user_id peer_id w
        ≡ some (record w {
          outbox =
              w.outbox
              ++ logs_of services conn (
                  services.database.select w.tables group_messages_table
                    (("group_id", peer_id) ∷ [])
                    []
                    []);
        }))
      × (logs_lister services conn false user_id peer_id w
          ≡ some (record w {
            outbox =
                w.outbox
                ++ logs_of services conn (
                    services.database.select w.tables messages_table [] []
                      (("sender_id", user_id) ∷ ("receiver_id", user_id) ∷ []));
          }))
unfolding logs_lister log_rows select select_or
logs_lister_lem services conn user_id peer_id w = (
  send_logs_lem services conn (log_rows services true user_id peer_id w) w
      (log_rows-all_at services true user_id peer_id w),
  send_logs_lem services conn (log_rows services false user_id peer_id w) w
      (log_rows-all_at services false user_id peer_id w),
)
