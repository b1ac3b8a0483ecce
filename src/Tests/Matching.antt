-- ===== src/Tests/Matching.antt =====
-- The matching service and the error values at concrete inputs.
use mathlib.Core.List.{Perm}
use brain_blitz.Prelude.{
  ℕ, List, ◌++◌, ◌%◌, ◌≤◌, length, ◌≡◌, refl, Bool, true, false, none, some, [], ◌∷◌, All, arith,
  eq_iff,
}
use brain_blitz.Errors.{GoError, to_http_json, status_bad_request}
use brain_blitz.Contract.{AddToWaitingListMsg}
use brain_blitz.Match.Entity.{Category, WaitingMember, sport, map_to_category, same_category}
use brain_blitz.Match.Grouping.{even_part, sort_waiting, make_matches}
use brain_blitz.Match.Grouping.Laws.{waiting_for, users_of}
use brain_blitz.Match.Grouping.Matches.{
  IsMatch, IsInOrder, users_of-make_matches, make_matches_users, make_matches-IsMatch,
}
use brain_blitz.Match.Service.{Environment, Config, add_to_waiting_list, waiting_members_of}
use brain_blitz.Match.Service.Laws.{PassesNonempty, add_to_waiting_list_rejects, removed_eq_matched}
use brain_blitz.Tests.Fixtures.{waiting_list, ids, lists, environment}

-- Of three users who wait for SPORT the two who wait the longest are matched.
two_are_matched : users_of sport (make_matches ids 0 waiting_list) ≡ 3 ∷ 1 ∷ []
unfolding sort_waiting even_part same_category
two_are_matched = users_of-make_matches sport ids 0 waiting_list

make_matches_users_example :
    (queue : List WaitingMember) × Perm queue waiting_list
    × IsInOrder queue
    × ((c : Category)
        → (left : List ℕ) × (users_of c (make_matches ids 0 waiting_list) ++ left
            ≡ waiting_for c queue)
          × (length (users_of c (make_matches ids 0 waiting_list)) % 2 ≡ 0)
          × (length left ≤ 1))
make_matches_users_example = make_matches_users ids 0 waiting_list

make_matches-IsMatch_example : All IsMatch (make_matches ids 0 waiting_list)
make_matches-IsMatch_example = make_matches-IsMatch ids 0 waiting_list

removed_eq_matched_example :
    waiting_for sport (waiting_members_of (make_matches ids 0 waiting_list)) ≡ 3 ∷ 1 ∷ []
unfolding sort_waiting even_part same_category
removed_eq_matched_example = removed_eq_matched (environment lists) sport 0 waiting_list

required_passes : PassesNonempty (environment lists).required
required_passes s nonempty = ground (arith, eq_iff s "")

abbrev service_config : Config
service_config = record { waiting_timeout = 30; least_presence = 10 }

add_to_waiting_list_rejects_example :
    let (timeout, err, s') =
      add_to_waiting_list
        (environment lists)
        service_config
        (record { category = "CHESS"; user_id = "7" })
        false in
    (s' ≡ false) × ((e : GoError) × (err ≡ some e) × ((to_http_json e).1 ≡ status_bad_request))
unfolding map_to_category
add_to_waiting_list_rejects_example =
    add_to_waiting_list_rejects (environment lists) required_passes service_config
      (record { category = "CHESS"; user_id = "7" }) false refl

abbrev join : AddToWaitingListMsg
join = record { user_id = 7; category = "TECH" }

-- The same service with bytes that are join requests; the state is whether the list was written.
abbrev environment_of_joins : Environment Bool AddToWaitingListMsg
environment_of_joins = record {
  repository = record {
    add_to_waiting_list = λ c u s. (none, true);
    get_waiting_list_by_category = λ c s. ([], none, s);
    remove_waiting_member = λ ms s. (none, s);
  };
  publish = λ topic b s. (none, s);
  ulid = ids;
  made = λ s. 0;
  required = λ s. none;
  format_uint = λ n. "7";
}
