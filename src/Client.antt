-- ===== src/Client.antt =====
-- client/: the state of the client (Client.h) that its services change. What it has sent is in
-- order, and so is what it shows. A log file is the list of its lines, since `dump` writes a JSON
-- value without a line break; a file that does not exist is missing from the map.
pub mod Utf8
pub mod Chat
pub mod Contacts
pub mod Groups
pub mod Logs
mod Tests
use Prim.Native.String.{String}
use text.Mathlib.Text.{◌==◌}
use weee_chatroom.Common.{
  ℕ, Bool, List, [], ◌∷◌, ◌++◌, Option, none, some, if◌then◌else◌, ◌==◌ as same_number,
}
use weee_chatroom.Server.Services.{JsonLibrary}

-- `std::unordered_map<std::string, …>`: find, and `m[key] = value`
module _ {A : Type 0} where
  abbrev pub find : List (String × A) → String → Option A
  find [] key = none
  find ((k, a) ∷ m) key = if k == key then some a else find m key

  abbrev pub put : String → A → List (String × A) → List (String × A)
  put key a [] = (key, a) ∷ []
  put key a ((k, b) ∷ m) = if k == key then (k, a) ∷ m else (k, b) ∷ put key a m

-- `State` of client/include/Controller.h
pub data State : Type 0 where
  init registering logining main_menu friend_menu group_menu chat_panel show_friends show_groups
        chat_friend chat_group adding_friend handling_friend_request creating_group adding_group
        handling_group_request show_members exiting_group destroying_group adding_admin
        finding_password file_friend file_group friend_panel group_panel destroying_account
        log_or_reg log_history :
      State

pub record Friend : Type 0 where
  pub id : String
  pub nickname : String
  pub is_online : Bool
  pub is_blocked : Bool

pub record ChatMessage : Type 0 where
  pub sender_id : String
  pub content : String
  pub timestamp : String
  pub user_id : String

abbrev pub ChatLogs : Type 0
ChatLogs = List ChatMessage

-- What is shown: the logs of the friend or of the group, or a notice with a name.
pub data Shown : Type 0 where
  flush_logs : Shown
  flush_group_logs : Shown
  friend_notice : String → Shown
  group_notice : String → Shown

pub record FriendRequest : Type 0 where
  pub from_user_id : String
  pub nickname : String
  pub timestamp : String
  pub user_id : String

pub record GroupAddRequest : Type 0 where
  pub from_user_id : String
  pub group_id : String
  pub nickname : String
  pub group_name : String
  pub timestamp : String
  pub user_id : String

pub record GroupMember : Type 0 where
  pub id : String
  pub nickname : String
  pub role : String

-- `Waiter` of client/include/base.h: its result, if it is ready. A number is an errno.
abbrev pub Waiter : Type 0
Waiter = Option ℕ

-- The waiters of the services.
pub data Awaited : Type 0 where
  friend_added friend_blocked friend_unblocked friends_listed groups_listed group_added group_shown
        registered logged_in password_found :
      Awaited

abbrev pub number : Awaited → ℕ
number friend_added = 0
number friend_blocked = 1
number friend_unblocked = 2
number friends_listed = 3
number groups_listed = 4
number group_added = 5
number group_shown = 6
number registered = 7
number logged_in = 8
number password_found = 9

module _ (json : JsonLibrary) where
  pub record Client : Type 0 where
    pub state : State
    pub user_id : String
    pub nickname : String
    pub friend_list : List (String × Friend)
    -- names of groups
    pub group_list : List (String × String)
    pub current_friend : Friend
    pub current_group_id : String
    pub current_group_name : String
    pub chat_logs : List (String × ChatLogs)
    pub group_chat_logs : List (String × ChatLogs)
    pub is_read_map : List (String × Bool)
    pub is_read_group_map : List (String × Bool)
    pub user_email : String
    pub friend_requests : List FriendRequest
    pub group_requests : List GroupAddRequest
    -- the members of the current group
    pub group_members : List (String × GroupMember)
    pub waiters : Awaited → Waiter
    pub files : List (String × List String)
    pub sent : List json.Json
    pub shown : List Shown

  -- `neter_->sendJson(js)`
  unfoldable pub send_json : json.Json → Client → Client
  send_json js c = record c { sent = c.sent ++ js ∷ [] }

  unfoldable pub show : Shown → Client → Client
  show s c = record c { shown = c.shown ++ s ∷ [] }

  -- `Waiter::notify`
  unfoldable pub notify : Awaited → ℕ → Client → Client
  notify a res c = record c {
    waiters = λ b. if same_number (number a) (number b) then some res else c.waiters b;
  }

  -- `Waiter::getResult` behind `wait`, which blocks until the waiter is ready
  unfoldable pub get_result : Awaited → Client → Option (ℕ × Client)
  get_result a c = elim (c.waiters a) [
    | none ↦ none
    | some res ↦ some (
      res,
      record c { waiters = λ b. if same_number (number a) (number b) then none else c.waiters b },
    )
  ]
