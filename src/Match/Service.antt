-- ===== src/Match/Service.antt =====
-- services/match_app/service/service.go and validator.go. The service's dependencies are
-- interfaces in the source, and records of functions on a state `S` here: the repository, the
-- broker, the protobuf library, the ULID generator and the validation library's `Required`.
pub mod Laws
pub mod Rounds
use brain_blitz.Prelude.{
  ℕ, zero, suc, ◌+◌, String, Bool, true, false, Option, none, some, List, [], ◌∷◌, ◌++◌, ltb,
  if◌then◌else◌, push, length, map,
}
use brain_blitz.Errors.{GoError, app, text, wrap, err_invalid_input, err_internal}
use brain_blitz.Contract.{AddToWaitingListMsg, MatchedUsersMsg, Wire, match_v1_match_users}
use brain_blitz.Match.Entity.{
  Category, unknown, same_category, get_categories, map_to_category, WaitingMember, MatchedUsers,
  AddToWaitingListRequest, map_from_entity_to_proto_message,
  map_from_add_to_waiting_list_proto_to_entity,
}
use brain_blitz.Match.Grouping.{make_matches}

-- `type Repository interface`. The result of reading a list is the list that is left in the
-- variable, with the error beside it. A user id is a text here.
pub record Repository (S : Type 0) : Type 0 where
  pub add_to_waiting_list : Category → String → S → Option GoError × S
  pub get_waiting_list_by_category : Category → S → List WaitingMember × Option GoError × S
  pub remove_waiting_member : List WaitingMember → S → Option GoError × S

-- `type Broker interface`, and what the service takes from other libraries: the ULIDs in the order
-- they are made, `validation.Required` on a string, and strconv.FormatUint.
pub record Environment (S : Type 0) (Bytes : Type 0) : Type 0 where
  pub repository : Repository S
  pub publish : String → Bytes → S → Option GoError × S
  pub ulid : ℕ → String
  pub made : S → ℕ
  pub required : String → Option GoError
  pub format_uint : ℕ → String

pub record Config : Type 0 where
  pub waiting_timeout : ℕ
  pub least_presence : ℕ

-- What the first loop of `MatchWaitUsers` makes of a waiting member and of an error.
abbrev pub label : Category → WaitingMember → WaitingMember
label category res = record res { category = category }

abbrev pub keep_error : Option GoError → Option GoError → Option GoError
keep_error err r_err = elim err [
  | none ↦ r_err
  | some e ↦ some (app (wrap "matchMakingHandler.MatchWaitUsers" (some e) err_internal))
]

-- `user.Category[0]`: a match always has one.
abbrev pub first_category : List Category → Category
first_category [] = unknown
first_category (c ∷ cs) = c

abbrev pub members_of : Category → List ℕ → List WaitingMember
members_of c [] = []
members_of c (u ∷ us) = record { user_id = u; time_stamp = 0; category = c } ∷ members_of c us

unfoldable pub waiting_members_of : List MatchedUsers → List WaitingMember
waiting_members_of [] = []
waiting_members_of (user ∷ users) =
    members_of (first_category user.category) user.user_id ++ waiting_members_of users

module _ {S Bytes : Type 0} (env : Environment S Bytes) where
  pub validate_add_to_waiting_list_request : AddToWaitingListRequest → Option GoError
  unfolding map_to_category same_category
  validate_add_to_waiting_list_request req = elim (env.required req.category) [
    | some err ↦ some err
    | none ↦
        if same_category (map_to_category req.category) unknown
        then some (text "invalid category")
        else none
  ]

  -- The response is its `Timeout`.
  unfoldable pub add_to_waiting_list : Config → AddToWaitingListRequest → S → ℕ × Option GoError × S
  unfolding validate_add_to_waiting_list_request map_to_category
  add_to_waiting_list config request s = elim (validate_add_to_waiting_list_request request) [
    | some err ↦
        (0, some (app (wrap "matchMakingHandler.AddToWaitingList" (some err) err_invalid_input)), s)
    | none ↦
        let (err, s') =
          env.repository.add_to_waiting_list (map_to_category request.category) request.user_id s in
        elim err [
          | some err ↦ (
            0,
            some (app (wrap "matchMakingHandler.AddToWaitingList" (some err) err_internal)),
            s',
          )
          | none ↦ (config.waiting_timeout, none, s')
        ]
  ]

  -- The first loop of `MatchWaitUsers`. A list that was read with an error is taken too, and
  -- the last error is the one that is returned.
  unfoldable pub collect_waiting :
      List Category
      → List WaitingMember
      → Option GoError
      → S
      → List WaitingMember × Option GoError × S
  collect_waiting [] waiting_members r_err s = (waiting_members, r_err, s)
  collect_waiting (category ∷ categories) waiting_members r_err s =
      let (result, err, s') = env.repository.get_waiting_list_by_category category s in
      collect_waiting categories (waiting_members ++ map (label category) result)
        (keep_error err r_err) s'

  -- A message that cannot be marshalled is published as the nil slice, and the members are
  -- removed whatever the broker answered.
  unfoldable pub publish_final_users : Wire Bytes (List MatchedUsersMsg) → List MatchedUsers → S → S
  unfolding waiting_members_of
  publish_final_users wire users s =
      let buff : Bytes = elim (wire.marshal (map_from_entity_to_proto_message users)) [
        | some b ↦ b
        | none ↦ wire.nil
      ] in
      let (_, s') = env.publish match_v1_match_users buff s in
      (env.repository.remove_waiting_member (waiting_members_of users) s').1

  unfoldable pub match_wait_users : Wire Bytes (List MatchedUsersMsg) → S → Option GoError × S
  match_wait_users wire s =
      let (waiting_members, r_err, s') = collect_waiting get_categories [] none s in
      let users = make_matches env.ulid (env.made s') waiting_members in
      if ltb 0 (length users) then (r_err, publish_final_users wire users s') else (r_err, s')

  unfoldable pub consume_join_match_queue_request :
      Wire Bytes AddToWaitingListMsg → GoError → Bytes → S → Option GoError × S
  consume_join_match_queue_request wire bad_message message s = elim (wire.unmarshal message) [
    | none ↦ (some bad_message, s)
    | some m ↦
        let (user_id, category) = map_from_add_to_waiting_list_proto_to_entity m in
        if same_category category unknown
        then (none, s)
        else env.repository.add_to_waiting_list category (env.format_uint user_id) s
  ]
