-- ===== src/Tests/Waiting.antt =====
-- The repository of the waiting lists, and rounds on it, on a server in memory.
use brain_blitz.Prelude.{ℕ, ◌≤◌, String, ◌≡◌, refl, none, some, List, [], ◌∷◌, arith}
use brain_blitz.Prelude.Int.{negsuc}
use brain_blitz.Contract.{MatchedUsersMsg}
use brain_blitz.Game.Time.{add}
use brain_blitz.Redis.Behaviour.{IsLater}
use brain_blitz.Match.Entity.{sport, get_categories, same_category, to_string}
use brain_blitz.Match.Grouping.{make_matches}
use brain_blitz.Match.Service.{
  Environment, collect_waiting, publish_final_users, match_wait_users, waiting_members_of,
}
use brain_blitz.Match.Repository.{
  Config, add_to_waiting_list, remove_waiting_member, list_key, new_repository,
}
use brain_blitz.Match.Repository.Room.{
  room_of, join, leave, add_to_waiting_list-join, remove_waiting_member-leave,
}
use brain_blitz.Match.Repository.Rounds.{
  service, room, round_reads, round_matches, match_wait_users-none, match_wait_users-leave,
}
use brain_blitz.Match.Repository.Rounds.Window.{match_wait_users_leaves_one}
use brain_blitz.Tests.Fixtures.{waiting_list, plain, ids}
use brain_blitz.Tests.Server.{Server, client, out, tally, written, scores, now, sets, outside}

-- The prefix of the deployed configuration, and a window of 20 microseconds.
abbrev config : Config
config = record {
  waiting_list_prefix = "waiting_users";
  min_time_waiting_list_selection = negsuc 19999;
}

abbrev nobody : Server
nobody = record { entries = []; time = 30000 }

add_to_waiting_list-join_example :
    let (err, s') = add_to_waiting_list config client out sport (tally 3) nobody in
    (err ≡ none)
    × (room_of config client out tally written scores now sets outside s'
        ≡ join sport 3 30 (room_of config client out tally written scores now sets outside nobody))
add_to_waiting_list-join_example =
    add_to_waiting_list-join config client out tally written scores now sets outside sport 3 nobody

remove_waiting_member-leave_example :
    let (err, s') = remove_waiting_member config client out waiting_list nobody in
    (err ≡ none)
    × (room_of config client out tally written scores now sets outside s'
        ≡ leave waiting_list
            (room_of config client out tally written scores now sets outside nobody))
remove_waiting_member-leave_example =
    remove_waiting_member-leave config client out tally written scores now sets outside waiting_list
      nobody

-- Users 1, 2 and 3 wait for SPORT since 21, 22 and 23.
abbrev three_wait : Server
three_wait = record {
  entries =
      record { key = "waiting_users:SPORT"; member = tally 1; score = some 21 }
      ∷ record { key = "waiting_users:SPORT"; member = tally 2; score = some 22 }
      ∷ record { key = "waiting_users:SPORT"; member = tally 3; score = some 23 }
      ∷ [];
  time = 30000;
}

abbrev base : Environment Server (List MatchedUsersMsg)
base = record {
  repository = new_repository config client out;
  publish = λ topic b s. (none, s);
  ulid = ids;
  made = λ s. 0;
  required = λ s. none;
  format_uint = tally;
}

publish_is_later :
    (topic : String) (b : List MatchedUsersMsg) (s : Server)
    → IsLater scores now s (base.publish topic b s).1
publish_is_later topic b s = record { same = λ k m. refl; later = omega arith }

abbrev after_round : Server
after_round = (match_wait_users (service base config client out) (plain []) three_wait).1

three_left : scores after_round "waiting_users:SPORT" (tally 3) ≡ some 23
unfolding match_wait_users collect_waiting get_categories make_matches publish_final_users
    new_repository
three_left = refl

two_left : scores after_round "waiting_users:SPORT" (tally 2) ≡ none
unfolding match_wait_users collect_waiting get_categories make_matches publish_final_users
    new_repository
two_left = refl

match_wait_users-none_example :
    (match_wait_users (service base config client out) (plain []) three_wait).0 ≡ none
match_wait_users-none_example = match_wait_users-none base config client out (plain []) three_wait

match_wait_users-leave_example :
    let (err, s') = match_wait_users (service base config client out) (plain []) three_wait in
    (err ≡ none)
    × (room base config client out tally written scores now sets outside publish_is_later s'
        ≡ leave (waiting_members_of (round_matches base config client out three_wait)) (
            room base config client out tally written scores now sets outside publish_is_later
              three_wait))
    × (now (round_reads base config client out three_wait).1 ≤ now s')
match_wait_users-leave_example =
    match_wait_users-leave base config client out tally written scores now sets outside
      publish_is_later (plain []) three_wait

-- The one who is left is the last who came.
match_wait_users_leaves_one_example : ◌≡◌ {A = ℕ} 3 3
unfolding match_wait_users collect_waiting get_categories make_matches publish_final_users
    new_repository same_category add to_string list_key
match_wait_users_leaves_one_example =
    match_wait_users_leaves_one base config client out tally written scores now sets outside
      publish_is_later (plain []) three_wait sport 3 3 23 23 refl (omega arith) (omega arith) refl
      (omega arith, omega arith) refl (omega arith, omega arith)
