-- ===== src/Match/Entity.antt =====
-- services/match_app/service/entity.go, param.go and helper.go.
use brain_blitz.Prelude.{ℕ, String, Bool, true, false, List, [], ◌∷◌, map, str_eq, if◌then◌else◌}
use brain_blitz.Contract.{AddToWaitingListMsg, MatchedUsersMsg}

pub data Category : Type 0 where
  sport music tech unknown : Category

-- `string(category)`
unfoldable pub to_string : Category → String
to_string sport = "SPORT"
to_string music = "MUSIC"
to_string tech = "TECH"
to_string unknown = "UNKNOWN"

unfoldable pub get_categories : List Category
get_categories = sport ∷ music ∷ tech ∷ []

unfoldable pub map_to_category : String → Category
map_to_category category =
    if str_eq category "SPORT"
    then sport
    else if str_eq category "MUSIC"
    then music
    else if str_eq category "TECH"
    then tech
    else unknown

-- Go compares the strings; two of the four constants are equal only if they are the same one.
unfoldable pub same_category : Category → Category → Bool
same_category sport sport = true
same_category music music = true
same_category tech tech = true
same_category unknown unknown = true
same_category _ _ = false

pub record WaitingMember : Type 0 where
  pub user_id : ℕ  -- uint, 64 bits
  pub time_stamp : ℕ  -- int64, microseconds; never negative
  pub category : Category

pub record MatchedUsers : Type 0 where
  pub id : String
  pub category : List Category
  pub user_id : List ℕ  -- uint64

pub record AddToWaitingListRequest : Type 0 where
  pub category : String
  pub user_id : String

matched_users_msg : MatchedUsers → MatchedUsersMsg
unfolding to_string
matched_users_msg user = record {
  match_id = user.id;
  category = map to_string user.category;
  user_id = user.user_id;
}

unfoldable pub map_from_entity_to_proto_message : List MatchedUsers → List MatchedUsersMsg
unfolding matched_users_msg
map_from_entity_to_proto_message = map matched_users_msg

unfoldable pub map_from_add_to_waiting_list_proto_to_entity : AddToWaitingListMsg → ℕ × Category
unfolding map_to_category
map_from_add_to_waiting_list_proto_to_entity message =
    (message.user_id, map_to_category message.category)
