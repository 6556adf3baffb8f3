-- ===== src/Server/Chat.antt =====
-- server/handler/Chat.cc: messages to a friend and to a group. A user or group id, a content and a
-- stored JSON value are texts. A handler first converts three members of its request to texts, which is a
-- fault where one is missing or no text. The loop over a group takes the members as SMEMBERS gives
-- them; the source puts them into a `std::unordered_set` before, whose order is not specified.
pub mod Delivery
pub mod GroupDelivery
pub mod Logs
use Prim.Native.String.{String}
use text.Mathlib.Text.{◌==◌}
use weee_chatroom.Common.{
  ℕ, Bool, true, false, not, List, [], ◌∷◌, Option, none, some, if◌then◌else◌,
}
use weee_chatroom.Server.Services.{
  Services, Key, friends, group, offline_messages, messages, group_messages,
}
use weee_chatroom.Server.World.{
  World, Message, relay, get_connection_ptr, send_json, sismember, lpush, rpush, ◌>>=◌,
}

module _ (services : Services) where
  open services use {redis, json}

  -- What `Chatter` converts of a CHAT_MSG, and the JSON value itself.
  pub record ChatRequest : Type 0 where
    pub sender_id : String
    pub receiver_id : String
    pub content : String
    pub js : json.Json

  -- A message goes to the user's connection, or into the list of offline messages.
  unfoldable pub deliver : String → json.Json → World services → World services
  deliver user_id js w = elim (get_connection_ptr services w user_id) [
    | some target ↦ send_json services target (relay js) w
    | none ↦ lpush services (offline_messages user_id) (json.dump js) w
  ]

  -- `Chatter::handle` behind the conversions
  unfoldable pub chatter : ChatRequest → World services → World services
  chatter r w =
      if sismember services w (friends r.sender_id) r.receiver_id
      then (if sismember services w (friends r.receiver_id) r.sender_id
          then rpush services messages (json.dump r.js) (deliver r.receiver_id r.js w)
          else w)
      else w

  -- The conversions of `Chatter::handle`: `js["content"]` is converted, and not used.
  unfoldable pub chat_request : json.Json → Option ChatRequest
  chat_request js = json.get js "sender_id" >>= λ sender_id.
      (json.get js "receiver_id" >>= λ receiver_id.
      (json.get js "content" >>= λ content.
      some
        (record { sender_id = sender_id; receiver_id = receiver_id; content = content; js = js })))

  -- `Chatter::handle`
  unfoldable pub handle_chat : json.Json → World services → Option (World services)
  handle_chat js w = chat_request js >>= λ r. some (chatter r w)

  -- What `GroupChatter` converts of a CHAT_GROUP_MSG, and the JSON value itself.
  pub record GroupChatRequest : Type 0 where
    pub sender_id : String
    pub group_id : String
    pub content : String
    pub js : json.Json

  -- The body of the loop over the members: everyone but the sender gets the message, and it is
  -- stored at each turn.
  unfoldable pub to_member : GroupChatRequest → String → World services → World services
  to_member r member_id w =
      let told = if not (member_id == r.sender_id) then deliver member_id r.js w else w in
      rpush services group_messages (json.dump r.js) told

  unfoldable pub to_members : GroupChatRequest → List String → World services → World services
  to_members r [] w = w
  to_members r (member_id ∷ members) w = to_members r members (to_member r member_id w)

  -- `GroupChatter::handle` behind the conversions
  unfoldable pub group_chatter : GroupChatRequest → World services → World services
  group_chatter r w =
      if sismember services w (group r.group_id) r.sender_id
      then to_members r (redis.smembers w.cache (group r.group_id)) w
      else w

  -- The conversions of `GroupChatter::handle`.
  unfoldable pub group_chat_request : json.Json → Option GroupChatRequest
  group_chat_request js = json.get js "sender_id" >>= λ sender_id.
      (json.get js "group_id" >>= λ group_id.
      (json.get js "content" >>= λ content.
      some (record { sender_id = sender_id; group_id = group_id; content = content; js = js })))

  -- `GroupChatter::handle`
  unfoldable pub handle_group_chat : json.Json → World services → Option (World services)
  handle_group_chat js w = group_chat_request js >>= λ r. some (group_chatter r w)
