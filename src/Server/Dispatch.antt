-- ===== src/Server/Dispatch.antt =====
-- server/Service.cc: the table of handlers, and where `handleMessage` takes a text. A fault is a text that is
-- no JSON, or has no number as its msgid.
use Prim.Native.String.{String}
use weee_chatroom.Common.{ℕ, ◌≡◌, refl, List, [], ◌∷◌, Option, none, some, if◌then◌else◌, ◌==◌}
use weee_chatroom.Server.Services.{Services}
use weee_chatroom.Server.World.{◌>>=◌}

pub data Handler : Type 0 where
  register register_acker loginer friend_lister chatter friend_adder friend_deleter
        friend_add_responser group_creater group_adder group_lister group_add_responser
        group_chatter group_info_sender group_exiter member_kicker admin_adder admin_remover
        password_finder password_find_acker file_uploader file_lister friend_blocker account_killer
        friend_unblocker logs_lister :
      Handler

-- `handlers_`, as the constructor of `Service` fills it, by the numbers of `MsgType`
unfoldable pub handlers : List (ℕ × Handler)
handlers =
    (1, register)
    ∷ (2, register_acker)
    ∷ (3, loginer)
    ∷ (7, friend_lister)
    ∷ (8, chatter)
    ∷ (12, friend_adder)
    ∷ (14, friend_deleter)
    ∷ (15, friend_add_responser)
    ∷ (16, group_creater)
    ∷ (17, group_adder)
    ∷ (20, group_lister)
    ∷ (19, group_add_responser)
    ∷ (10, group_chatter)
    ∷ (22, group_info_sender)
    ∷ (23, group_exiter)
    ∷ (24, member_kicker)
    ∷ (25, admin_adder)
    ∷ (26, admin_remover)
    ∷ (5, password_finder)
    ∷ (6, password_find_acker)
    ∷ (27, file_uploader)
    ∷ (28, file_lister)
    ∷ (32, friend_blocker)
    ∷ (36, account_killer)
    ∷ (34, friend_unblocker)
    ∷ (37, logs_lister)
    ∷ []

-- `handlers_.find(msgid)`
unfoldable pub find_handler : List (ℕ × Handler) → ℕ → Option Handler
find_handler [] msgid = none
find_handler ((k, h) ∷ m) msgid = if k == msgid then some h else find_handler m msgid

-- A task of the pool for chat messages, a call of a handler, or an unknown number.
pub data Route : Type 0 where
  to_chat_pool : Route
  handled : Handler → Route
  unknown : ℕ → Route

unfoldable pub route : ℕ → Route
route msgid =
    if msgid == 8
    then to_chat_pool
    else elim (find_handler handlers msgid) [ some h ↦ handled h | none ↦ unknown msgid ]

-- `handleMessage`
unfoldable pub handle_message_text : Services → String → Option Route
handle_message_text services json_str = services.json.parse json_str >>= λ js.
    (services.json.get_number js "msgid" >>= λ msgid. some (route msgid))

-- A text that was dumped goes where the number in the value says.
pub handle_message_text-dump :
    (services : Services) (js : services.json.Json) (msgid : ℕ)
    → services.json.get_number js "msgid" ≡ some msgid
    → handle_message_text services (services.json.dump js) ≡ some (route msgid)
unfolding handle_message_text
handle_message_text-dump services js msgid e =
    rw (handle_message_text, services.json.parse-dump js, e) refl

-- The client's messages between friends go to the pool of their own; 4 is the number of an answer.
routes : (route 8 ≡ to_chat_pool) × (route 37 ≡ handled logs_lister) × (route 4 ≡ unknown 4)
unfolding route handlers find_handler
routes = (refl, refl, refl)
