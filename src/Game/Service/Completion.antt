-- ===== src/Game/Service/Completion.antt =====
-- services/game_app/service/game_completion.go: the handler of the task "game:completed".
pub mod Laws
use brain_blitz.Prelude.{
  ℕ, String, Bool, true, false, Option, none, some, List, [], ◌∷◌, ltb, leb, if◌then◌else◌, ◌-◌,
}
use brain_blitz.Prelude.Int.{ℤ, pos, negsuc, int_min_abs, uint64_mod}
use brain_blitz.Errors.{GoError, text}
use brain_blitz.Game.Entity.{PlayerId, Game}
use brain_blitz.Game.Messages.{
  ProcessGameMessageResponse, ProcessGamePlayerPoint, ProcessGameLeaderBoard, completed, response,
  Payload, message_payload,
}
use brain_blitz.Game.World.{World, Outside, Action, pure, raise, crash, gets, attempt, ◌>>=◌, ◌>>◌}
use brain_blitz.Game.Repository.Questions.{get_game}
use brain_blitz.Game.Repository.LeaderBoards.{get_leader_board}
use brain_blitz.Game.Service.Connections.{Front, write_server_data, disconnect, close}
use brain_blitz.Game.Service.Answers.{leader_board_result}

-- `strconv.ParseInt(playerId, 10, 64)` and the conversion of the result to uint64.
unfoldable pub parse_player_id : PlayerId → Option ℕ
parse_player_id (pos n) = if ltb n int_min_abs then some n else none
parse_player_id (negsuc n) = if ltb n int_min_abs then some (uint64_mod - 1 - n) else none

unfoldable pub completed_message : String → ProcessGameLeaderBoard → ProcessGameMessageResponse
completed_message game_id leader_board = record {
  success = true;
  event = completed;
  message = "game completed";
  meta_data = record { game_id = game_id; questions = []; answer = leader_board };
}

-- `conn.Close()`, which panics where the connection is nil.
abbrev pub close_connection : Option ℕ → Action (Unit {0})
close_connection none = crash
close_connection (some conn) = close conn

module _ {Bytes : Type 0} (front : Front Bytes) where
  -- The loop where there is no leader board.
  unfoldable pub report_failure : List ℕ → Action (Unit {0})
  unfolding write_server_data
  report_failure [] = pure tt
  report_failure (player_id ∷ players) = do
    conn ← gets (λ w. w.connections player_id)
    write_server_data front conn
        (message_payload (response false completed "internal server error" ""))
    report_failure players

  -- The loop over the entries of the leader board.
  unfoldable pub deliver : Payload → List ProcessGamePlayerPoint → Action (Unit {0})
  unfolding write_server_data parse_player_id
  deliver payload [] = pure tt
  deliver payload (player_point ∷ player_points) = elim (parse_player_id player_point.player_id) [
    | none ↦ raise (text "strconv.ParseInt: value out of range")
    | some player_id ↦ do
      conn ← gets (λ w. w.connections player_id)
      write_server_data front conn payload
      disconnect player_id
      close_connection conn
      deliver payload player_points
  ]

  -- Where there is no leader board, the error that is returned at the end is the inner one of
  -- `GetGame`, which is nil there.
  unfoldable pub process_game_completion : Outside → String → Action (Unit {0})
  unfolding get_leader_board get_game report_failure deliver leader_board_result completed_message
  process_game_completion out game_id = do
    leader_board ← attempt (get_leader_board front.iteration out game_id)
    elim leader_board [
      | none ↦ do game_info ← get_game out game_id; report_failure game_info.players
      | some board ↦ do
        let result = leader_board_result game_id board
        deliver (message_payload (completed_message game_id result)) result.player_point
    ]
