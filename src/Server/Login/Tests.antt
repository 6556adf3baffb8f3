-- ===== src/Server/Login/Tests.antt =====
-- Logins, the loss of a connection, a lost password, a removed account and the transfer to MySQL on a small server: the
-- user 3 has the account bob@mail and the password "secret".
use Prim.Native.String.{String}
use weee_chatroom.Common.{◌≡◌, ◌≢◌, ◌⊎◌, refl, List, [], ◌∷◌, ◌++◌, some, none, arith}
use weee_chatroom.Server.World.{
  World, get_connection_ptr, find_user, select, entry, column_by_id, first_row,
}
use weee_chatroom.Server.Local.{local}
use weee_chatroom.Server.Tests.{small}
use weee_chatroom.Server.Chat.Delivery.{offline}
use weee_chatroom.Server.Online.{find_conn, on_disconnection}
use weee_chatroom.Server.Online.Sessions.{AreApart, and_user, nobody, on_disconnection_lem}
use weee_chatroom.Server.Login.{accounts, verify_account, loginer}
use weee_chatroom.Server.Login.Account.{Verified, verify_account_lem}
use weee_chatroom.Server.Login.Waiting.{welcome, waiting_for}
use weee_chatroom.Server.Login.Whole.{deliver_all, loginer_lem}
use weee_chatroom.Server.Transfer.{insert_from_redis}
use weee_chatroom.Server.Transfer.Batches.{Transferred, insert_from_redis_lem}
use weee_chatroom.Server.Chat.{ChatRequest, chatter}
use weee_chatroom.Server.Removal.{remove_user}
use weee_chatroom.Server.Removal.Silence.{remove_user_lem}
use weee_chatroom.Server.Register.{password_find_acker}
use weee_chatroom.Server.Register.Passwords.{Outcome, password_find_acker_lem}

-- Nobody is online.
abbrev quiet : World local
quiet = record small { online_users = [] }

verify_account_lem_example :
    Verified local "bob@mail" "secret" 9 quiet (verify_account local "bob@mail" "secret" 9 quiet)
verify_account_lem_example = verify_account_lem local "bob@mail" "secret" 9 quiet

abbrev bob : List (String × String)
bob =
    ("id", "3")
    ∷ ("email", "bob@mail")
    ∷ ("nickname", "Bob")
    ∷ ("password", "secret")
    ∷ ("state", "alive")
    ∷ []

loginer_lem_example :
    (w' : World local) × (loginer local 5 "bob@mail" "secret" 9
        (deliver_all local "3" ("hello" ∷ "bye" ∷ []) quiet)
      ≡ some w')
    × (w'.outbox
        ≡ []
          ++ welcome local "bob@mail" "3" "Bob" 9
            ∷ waiting_for local 9 "3" ("hello" ∷ "bye" ∷ []) quiet)
    × (offline local w' "3" ≡ [])
    × (get_connection_ptr local w' "3" ≡ some 9)
unfolding accounts select entry get_connection_ptr find_user find_conn column_by_id first_row
loginer_lem_example =
    loginer_lem local 5 ("hello" ∷ "bye" ∷ []) "bob@mail" "secret" "Bob" bob [] 9 quiet refl refl
      refl refl refl refl (omega arith)

small-AreApart : AreApart local small.online_users
unfolding find_user find_conn
small-AreApart = and_user refl refl nobody

on_disconnection_lem_example :
    (((get_connection_ptr local small "3" ≡ some 7)
        × (get_connection_ptr local (on_disconnection local 7 small) "3" ≡ none))
      ⊎ ((get_connection_ptr local small "3" ≢ some 7)
          × (get_connection_ptr local (on_disconnection local 7 small) "3"
              ≡ get_connection_ptr local small "3")))
    × (on_disconnection local 7 small
        ≡ record small { online_users = (on_disconnection local 7 small).online_users })
on_disconnection_lem_example = on_disconnection_lem local 7 "3" small small-AreApart

abbrev with_code : World local
with_code = record small { cache = record small.cache { codes = λ k. some "123456" } }

password_find_acker_lem_example :
    Outcome local "bob@mail" "123456" "new" 7 with_code
      (password_find_acker local "bob@mail" "123456" "new" 7 with_code)
password_find_acker_lem_example =
    password_find_acker_lem local "bob@mail" "123456" "new" 7 with_code small-AreApart

abbrev stored_two : World local
stored_two = record small { cache = record small.cache { queues = λ k. "hello" ∷ "bye" ∷ [] } }

insert_from_redis_lem_example : Transferred local stored_two (insert_from_redis local stored_two)
insert_from_redis_lem_example = insert_from_redis_lem local stored_two

abbrev from_bob : ChatRequest local
from_bob = record { sender_id = "3"; receiver_id = "2"; content = "hello"; js = "hello" }

remove_user_lem_example :
    (w' : World local) × (remove_user local "3" small ≡ some w')
    × (chatter local (record from_bob { sender_id = "3" }) w' ≡ w')
    × (chatter local (record from_bob { receiver_id = "3" }) w' ≡ w')
remove_user_lem_example = remove_user_lem local from_bob "3" small
