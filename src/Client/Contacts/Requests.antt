-- ===== src/Client/Contacts/Requests.antt =====
-- Requests that have been answered are gone, and the lists are those of the latest answer.
use Prim.Native.String.{String}
use text.Mathlib.Text.{◌==◌}
use weee_chatroom.Common.{
  ◌≡◌, refl, Bool, true, false, ◌&&◌, List, [], ◌∷◌, Bool-cases, inl, inr, if◌then◌else◌,
}
use weee_chatroom.Client.{FriendRequest}
use weee_chatroom.Client.Contacts.{erase_requests}

-- Whether a request of the one user to the other is in the list.
abbrev pub asks_user : String → String → List FriendRequest → Bool
asks_user from_user_id user_id [] = false
asks_user from_user_id user_id (r ∷ rs) =
    if (r.from_user_id == from_user_id) && (r.user_id == user_id)
    then true
    else asks_user from_user_id user_id rs

pub asks_user-erase_requests :
    (from_user_id user_id : String) (rs : List FriendRequest)
    → asks_user from_user_id user_id (erase_requests from_user_id user_id rs) ≡ false
unfolding erase_requests
asks_user-erase_requests from_user_id user_id [] = refl
asks_user-erase_requests from_user_id user_id (r ∷ rs) =
    elim (Bool-cases ((r.from_user_id == from_user_id) && (r.user_id == user_id))) [
      | inl this ↦ rw this (asks_user-erase_requests from_user_id user_id rs)
      | inr other ↦ rw (other, other) (asks_user-erase_requests from_user_id user_id rs)
    ]
