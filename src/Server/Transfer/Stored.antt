-- ===== src/Server/Transfer/Stored.antt =====
-- A CHAT_MSG or CHAT_GROUP_MSG that its handler takes has what `insertFromRedis` reads of its text later.
use weee_chatroom.Common.{◌≡◌, refl, some}
use weee_chatroom.Server.Services.{Services, Fields}
use weee_chatroom.Server.World.{World, >>=-some}
use weee_chatroom.Server.Chat.{chat_request, handle_chat, group_chat_request, handle_group_chat}
use weee_chatroom.Server.Transfer.Rows.{IsRead}

module _ (services : Services) where
  open services use {json}

  -- The three members are texts in the value, and so in what is parsed of its dump.
  pub handle_chat-IsRead :
      (js : json.Json) (w w' : World services)
      → handle_chat services js w ≡ some w'
      → (row : Fields) × IsRead services "sender_id" "receiver_id" "content" (json.dump js) row
  unfolding handle_chat chat_request
  handle_chat-IsRead js w w' e =
      let (r, made, _) = >>=-some (chat_request services js) _ w' e in
      let (sender_id, f, e₁) = >>=-some (json.get js "sender_id") _ r made in
      let (receiver_id, g, e₂) = >>=-some (json.get js "receiver_id") _ r e₁ in
      let (content, h, _) = >>=-some (json.get js "content") _ r e₂ in
      (
        _,
        record {
          msg = js;
          x = sender_id;
          y = receiver_id;
          z = content;
          parsed = json.parse-dump js;
          first = f;
          second = g;
          third = h;
          made = refl;
        },
      )

  pub handle_group_chat-IsRead :
      (js : json.Json) (w w' : World services)
      → handle_group_chat services js w ≡ some w'
      → (row : Fields) × IsRead services "group_id" "sender_id" "content" (json.dump js) row
  unfolding handle_group_chat group_chat_request
  handle_group_chat-IsRead js w w' e =
      let (r, made, _) = >>=-some (group_chat_request services js) _ w' e in
      let (sender_id, f, e₁) = >>=-some (json.get js "sender_id") _ r made in
      let (group_id, g, e₂) = >>=-some (json.get js "group_id") _ r e₁ in
      let (content, h, _) = >>=-some (json.get js "content") _ r e₂ in
      (
        _,
        record {
          msg = js;
          x = group_id;
          y = sender_id;
          z = content;
          parsed = json.parse-dump js;
          first = g;
          second = f;
          third = h;
          made = refl;
        },
      )
