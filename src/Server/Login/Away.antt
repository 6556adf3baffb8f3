-- ===== src/Server/Login/Away.antt =====
-- What waits for a user who is away, and what a login sends of it.
use Prim.Native.String.{String}
use mathlib.Core.List.{reverse, reverse-cons}
use weee_chatroom.Common.{
  ℕ, zero, suc, ◌<◌, ◌≡◌, refl, sym, ◌∙◌, Bool, true, List, [], ◌∷◌, ◌++◌, map, length, some, arith,
  Option-cases, inl, inr, append_assoc, append-nil,
}
use weee_chatroom.Server.Services.{Services, offline_messages, Fields, all_at, at}
use weee_chatroom.Server.World.{World, Message, stored, get_connection_ptr, send_json}
use weee_chatroom.Server.Chat.Logs.{send_logs, send_logs_lem, logs_of}
use weee_chatroom.Server.Chat.Delivery.{offline}
use weee_chatroom.Server.Login.{send_requests, rpop, send_message_offline}

module _ (services : Services) where
  open services use {redis}

  -- Stored texts, as they are sent to one connection.
  pub stored_on : ℕ → List String → List (ℕ × Message services)
  stored_on conn vs = map (λ v. (conn, stored v)) vs

  pub same_user :
      (user_id : String) (w w' : World services)
      → w'.online_users ≡ w.online_users
      → get_connection_ptr services w' user_id ≡ get_connection_ptr services w user_id
  unfolding get_connection_ptr
  same_user user_id w w' e = ground (arith, e)

  -- To a user who is online the loop over the requests sends them all.
  send_requests-send_logs :
      (rows : List Fields) (to_user_id : String) (conn target : ℕ) (w : World services)
      → get_connection_ptr services w to_user_id ≡ some target
      → send_requests services rows to_user_id conn w ≡ send_logs services conn rows w
  unfolding send_requests send_logs send_json
  send_requests-send_logs [] to_user_id conn target w on = refl
  send_requests-send_logs (row ∷ rows) to_user_id conn target w on =
      rw (send_requests, on)
        (elim (Option-cases (at row "json")) [
          | inl missing ↦ rw missing refl
          | inr (v, e) ↦
              let next = send_json services conn (stored v) w in
              rw e (
                send_requests-send_logs rows to_user_id conn target next
                  (same_user to_user_id w next refl ∙ on))
        ])

  pub send_requests_lem :
      (rows : List Fields) (to_user_id : String) (conn target : ℕ) (w : World services)
      → get_connection_ptr services w to_user_id ≡ some target
      → all_at rows "json" ≡ true
      → send_requests services rows to_user_id conn w
        ≡ some (record w { outbox = w.outbox ++ logs_of services conn rows })
  send_requests_lem rows to_user_id conn target w on h =
      send_requests-send_logs rows to_user_id conn target w on
      ∙ send_logs_lem services conn rows w h

  -- The loop has ended, has sent the texts, and none waits any more.
  pub record Caught (user_id : String) (conn : ℕ) (vs : List String) (w : World services)
      (r : World services × Bool) : Type 0 where
    pub ended : r.1 ≡ true
    pub sent : r.0.outbox ≡ w.outbox ++ stored_on conn vs
    pub none_waits : offline services r.0 user_id ≡ []
    pub same_users : r.0.online_users ≡ w.online_users
    pub same_tables : r.0.tables ≡ w.tables

  pub send_message_offline_lem :
      (fuel : ℕ) (vs : List String) (user_id : String) (conn target : ℕ) (w : World services)
      → get_connection_ptr services w user_id ≡ some target
      → offline services w user_id ≡ reverse vs
      → length vs < fuel
      → Caught user_id conn vs w (send_message_offline services fuel user_id conn w)
  unfolding send_message_offline rpop send_json stored_on
  send_message_offline_lem zero vs user_id conn target w on waiting h = absurd (omega arith)
  send_message_offline_lem (suc fuel) [] user_id conn target w on waiting h =
      let (reply, left) = redis.rpop_empty w.cache (offline_messages user_id) waiting in
      rw (send_message_offline, on, rpop, reply)
        (record {
          ended = refl;
          sent = sym (append-nil w.outbox);
          none_waits = left;
          same_users = refl;
          same_tables = refl;
        })
  send_message_offline_lem (suc fuel) (v ∷ vs) user_id conn target w on waiting h =
      let (reply, left) =
        redis.rpop_last w.cache (offline_messages user_id) (reverse vs) v
          (waiting ∙ reverse-cons v vs) in
      let next : World services = record w {
        cache = (redis.rpop w.cache (offline_messages user_id)).1;
        outbox = w.outbox ++ (conn, stored v) ∷ [];
      } in
      let rest =
        send_message_offline_lem fuel vs user_id conn target next
          (same_user user_id w next refl ∙ on) left (omega arith) in
      rw (send_message_offline, on, rpop, reply)
        (record {
          ended = rest.ended;
          sent = rest.sent ∙ append_assoc w.outbox ((conn, stored v) ∷ []) (stored_on conn vs);
          none_waits = rest.none_waits;
          same_users = rest.same_users;
          same_tables = rest.same_tables;
        })
