-- ===== src/Game/Repository/LeaderBoards.antt =====
-- `GetLeaderBoard` of services/game_app/repository/game.go. The map from the player's id to the
-- points is an association list in the order of insertion; `iteration` is the order in which Go
-- walks it, which the language leaves open.
pub mod Laws
use brain_blitz.Prelude.{
  ℕ, String, Bool, true, false, ◌&&◌, Option, none, some, List, [], ◌∷◌, str_eq, if◌then◌else◌,
  push, keep, map,
}
use brain_blitz.Prelude.Int.{ℤ, pos, ltb_ℤ, add_int, signed64}
use brain_blitz.Prelude.Sort.{sort_slice}
use brain_blitz.Errors.{GoError, text}
use brain_blitz.Game.Entity.{
  PlayerId, Game, PlayerAnswer, QuestionCorrectness, PlayerPoint, LeaderBoard,
}
use brain_blitz.Game.World.{World, Outside, Action, pure, raise, gets, or_raise, ◌>>=◌, ◌>>◌, call}
use brain_blitz.Game.Repository.Ready.{eq_int}
use brain_blitz.Game.Repository.Questions.{find_game}

abbrev pub is_correct : PlayerAnswer → Bool
is_correct ans = ltb_ℤ (pos 0) ans.time_diff && ltb_ℤ (pos 0) ans.point

abbrev pub correctness_of : PlayerAnswer → QuestionCorrectness
correctness_of ans = record {
  player_choice = ans.player_choice;
  correct_choice = ans.correct_choice;
  is_correct = is_correct ans;
}

abbrev pub add_points : PlayerPoint → PlayerAnswer → PlayerPoint
add_points player ans = record player {
  point = add_int player.point ans.point;
  question_correctness = push player.question_correctness (correctness_of ans);
}

abbrev pub first_points : PlayerAnswer → PlayerPoint
first_points ans = record {
  player_id = ans.player_id;
  point = ans.point;
  question_correctness = correctness_of ans ∷ [];
}

-- One answer: the entry of its player is updated, or made.
unfoldable pub add_answer : PlayerAnswer → List PlayerPoint → List PlayerPoint
add_answer ans [] = first_points ans ∷ []
add_answer ans (player ∷ players) =
    let later = add_answer ans players in
    if eq_int player.player_id ans.player_id
    then add_points player ans ∷ players
    else player ∷ later

unfoldable pub add_answers : List PlayerAnswer → List PlayerPoint → List PlayerPoint
unfolding add_answer
add_answers [] points = points
add_answers (ans ∷ answers) points = add_answers answers (add_answer ans points)

abbrev pub no_points : PlayerId → PlayerPoint
no_points player = record { player_id = player; point = pos 0; question_correctness = [] }

-- One player of the game: an entry with no points, if there is none.
unfoldable pub add_player : PlayerId → List PlayerPoint → List PlayerPoint
add_player player [] = no_points player ∷ []
add_player player (p ∷ players) =
    let later = add_player player players in
    if eq_int p.player_id player then p ∷ players else p ∷ later

-- `strconv.FormatInt(int64(player), 10)` of a uint64.
unfoldable pub add_players : List ℕ → List PlayerPoint → List PlayerPoint
unfolding add_player
add_players [] points = points
add_players (player ∷ players) points = add_players players (add_player (signed64 player) points)

unfoldable pub more_points : PlayerPoint → PlayerPoint → Bool
more_points a b = ltb_ℤ b.point a.point

abbrev pub of_game : String → PlayerAnswer → Bool
of_game game_id ans = str_eq ans.game_id game_id

unfoldable pub player_points :
    (List PlayerPoint → List PlayerPoint) → List PlayerAnswer → List ℕ → List PlayerPoint
unfolding add_answers add_players sort_slice more_points
player_points iteration answers players =
    sort_slice more_points (iteration (add_players players (add_answers answers [])))

unfoldable pub get_leader_board :
    (List PlayerPoint → List PlayerPoint) → Outside → String → Action LeaderBoard
unfolding find_game player_points
get_leader_board iteration out game_id = elim (out.object_id_from_hex game_id) [
  | some e ↦ raise e
  | none ↦ do
    call out
    game ← or_raise (← gets (λ w. find_game game_id w.games)) (text "mongo: no documents in result")
    call out
    answers ← gets (λ w. keep (of_game game_id) w.player_answers)
    call out
    pure
        (record { game_id = game_id; players_point = player_points iteration answers game.players })
]
