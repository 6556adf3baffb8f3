-- ===== src/Server/Tests.antt =====
-- The handlers on a small server: the users 2 and 3 are friends, 3 is online on connection 7, and the
-- group 5 has the members 2, 3 and 4.
use Prim.Native.String.{String}
use weee_chatroom.Common.{
  ◌≡◌, refl, ◌⊎◌, true, false, Bool, List, [], ◌∷◌, ◌++◌, some, none, replicate,
}
use weee_chatroom.Server.Services.{
  Key, friends, group, messages, group_messages, groups, group_members, messages_table,
  group_messages_table,
}
use weee_chatroom.Server.World.{World, first_row, sismember, select, block_friend_ack}
use weee_chatroom.Server.Local.{local}
use weee_chatroom.Server.Chat.{ChatRequest, GroupChatRequest, chatter, group_chatter}
use weee_chatroom.Server.Chat.Delivery.{Reached, are_friends, chatter_lem}
use weee_chatroom.Server.Chat.GroupDelivery.{notices, group_chatter_lem}
use weee_chatroom.Server.Chat.Logs.{logs_of, logs_lister, logs_lister_lem}
use weee_chatroom.Server.Group.{member_rows, role_of, member_kicker, group_exiter}
use weee_chatroom.Server.Group.Members.{
  kicks, member_kicker_lem, member_kicker_fault, group_exiter_owner,
}
use weee_chatroom.Server.Group.Requests.{JoinAnswer, group_add_responser}
use weee_chatroom.Server.Group.Joining.{is_admin, joined, group_add_responser_accept}
use weee_chatroom.Server.Friend.{Answer, friend_add_responser, friend_deleter, friend_blocker}
use weee_chatroom.Server.Friend.Relations.{
  Befriended, friend_add_responser_accept, backwards, friend_deleter_lem,
}
use weee_chatroom.Server.Friend.Blocking.{Marked, friend_blocker_lem}

abbrev pub members_of : Key → List String
members_of (friends id) = "2" ∷ "3" ∷ []
members_of (group id) = "2" ∷ "3" ∷ "4" ∷ []
members_of k = []

abbrev pub small : World local
small = record {
  cache = record { sets = members_of; queues = λ k. []; codes = λ k. none };
  tables = false;
  online_users = ("3", 7) ∷ [];
  outbox = [];
}

abbrev hello : ChatRequest local
hello = record { sender_id = "2"; receiver_id = "3"; content = "hello"; js = "hello" }

abbrev hello_all : GroupChatRequest local
hello_all = record { sender_id = "2"; group_id = "5"; content = "hello"; js = "hello" }

chatter_lem_example :
    ((are_friends local small "2" "3" ≡ true)
      × Reached local "3" "hello" small (chatter local hello small)
      × (local.redis.items (chatter local hello small).cache messages
          ≡ local.redis.items small.cache messages ++ "hello" ∷ []))
    ⊎ ((are_friends local small "2" "3" ≡ false) × (chatter local hello small ≡ small))
chatter_lem_example = chatter_lem local hello small

group_chatter_lem_example :
    ((sismember local small (group "5") "2" ≡ true)
      × ((group_chatter local hello_all small).outbox
          ≡ small.outbox ++ notices local hello_all small ("2" ∷ "3" ∷ "4" ∷ []))
      × (local.redis.items (group_chatter local hello_all small).cache group_messages
          ≡ local.redis.items small.cache group_messages ++ replicate 3 "hello"))
    ⊎ ((sismember local small (group "5") "2" ≡ false)
        × (group_chatter local hello_all small ≡ small))
group_chatter_lem_example = group_chatter_lem local hello_all small

abbrev yes : Answer local
yes = record { response = "accept"; from_user_id = "8"; to_user_id = "3"; timestamp = "" }

friend_add_responser_accept_example :
    (w' : World local) × (friend_add_responser local yes small ≡ some w')
    × Befriended local "8" "3" small w'
friend_add_responser_accept_example = friend_add_responser_accept local yes small refl

friend_deleter_lem_example :
    (w' : World local) × (friend_deleter local "2" "3" small ≡ some w')
    × (are_friends local w' "2" "3" ≡ false)
    × (chatter local hello w' ≡ w')
    × (chatter local (backwards hello) w' ≡ w')
friend_deleter_lem_example = friend_deleter_lem local hello small

friend_blocker_lem_example :
    (w' : World local) × (friend_blocker local 4 "2" "3" small ≡ some w')
    × Marked local 4 block_friend_ack 0 "2" "3" true small w'
unfolding sismember
friend_blocker_lem_example = friend_blocker_lem local 4 "2" "3" small

abbrev from_bob : GroupChatRequest local
from_bob = record { sender_id = "3"; group_id = "5"; content = "hello"; js = "hello" }

-- The DELETE of a member's row.
abbrev deleted : String → Bool × Bool
deleted user_id =
    local.database.del small.tables group_members (("group_id", "5") ∷ ("user_id", user_id) ∷ [])

member_kicker_lem_example :
    ((kicks "3" "2" "owner" "owner" ≡ true)
      × ((w' : World local) × (member_kicker local "3" "2" "5" small ≡ some w')
          × (sismember local w' (group "5") "3" ≡ false)
          × (w'.tables ≡ (deleted "3").1)
          × (((deleted "3").0 ≡ false) ⊎ (member_rows local w' "5" "3" ≡ []))
          × (group_chatter local from_bob w' ≡ w')))
    ⊎ ((kicks "3" "2" "owner" "owner" ≡ false)
        × (member_kicker local "3" "2" "5" small ≡ some small))
unfolding member_rows role_of select first_row
member_kicker_lem_example = member_kicker_lem local from_bob "2" "owner" "owner" small refl refl

member_kicker_fault_example : member_kicker local "9" "2" "5" small ≡ none
unfolding member_rows role_of select first_row
member_kicker_fault_example = member_kicker_fault local "9" "2" "5" "owner" small refl refl refl

group_exiter_owner_example :
    (w' : World local) × (group_exiter local "5" "2" small ≡ some w')
    × ((v : String) → sismember local w' (group "5") v ≡ false)
    × (w'.tables ≡ (local.database.del true groups (("id", "5") ∷ [])).1)
    × (group_chatter local hello_all w' ≡ w')
unfolding member_rows role_of select first_row
group_exiter_owner_example = group_exiter_owner local hello_all "2" small refl

abbrev welcome : JoinAnswer local
welcome = record {
  response = "accept";
  from_user_id = "8";
  group_id = "5";
  user_id = "2";
  timestamp = "";
}

group_add_responser_accept_example :
    (w' : World local) × (group_add_responser local welcome small ≡ some w')
    × (((is_admin local (member_rows local small "5" "2") ≡ true)
          × (sismember local w' (group "5") "8" ≡ true)
          × (w'.tables ≡ joined local welcome small))
        ⊎ ((is_admin local (member_rows local small "5" "2") ≡ false) × (w' ≡ small)))
group_add_responser_accept_example = group_add_responser_accept local welcome small refl

logs_lister_lem_example :
    (logs_lister local 4 true "2" "5" small
      ≡ some (record small {
        outbox =
            logs_of local 4
              (local.database.select false group_messages_table (("group_id", "5") ∷ []) [] []);
      }))
    × (logs_lister local 4 false "2" "5" small
        ≡ some (record small {
          outbox = logs_of local 4 (
              local.database.select false messages_table [] []
                (("sender_id", "2") ∷ ("receiver_id", "2") ∷ []));
        }))
logs_lister_lem_example = logs_lister_lem local 4 "2" "5" small
