-- ===== src/Game/Service/Answers.antt =====
-- services/game_app/service/answer_processor.go.
use brain_blitz.Prelude.{ℕ, String, true, List, [], ◌∷◌, map}
use brain_blitz.Prelude.Int.{pos}
use brain_blitz.Game.Entity.{
  Time, Question, PlayerAnswer, unknown, QuestionCorrectness, PlayerPoint, LeaderBoard,
}
use brain_blitz.Game.Score.{Floats}
use brain_blitz.Game.Messages.{
  ProcessGameQuestion, ProcessGameMessageResponse, ProcessGameAnswer, ProcessGameAnswerResult,
  ProcessGamePlayerPoint, ProcessGameLeaderBoard, new_question, no_leader_board, Payload,
  message_payload,
}
use brain_blitz.Game.World.{
  Outside, Config, Action, pure, gets, attempt, ◌>>=◌, ◌>>◌, time_now, get_game_questions,
}
use brain_blitz.Game.Repository.Answers.{save_player_answer}
use brain_blitz.Game.Repository.LeaderBoards.{get_leader_board}
use brain_blitz.Game.Service.Connections.{Front, write_server_data}

abbrev pub question_response : Question → ProcessGameQuestion
question_response question = record {
  id = question.id;
  content = question.content;
  choices = question.choices;
  difficulty = question.difficulty;
  ttl = question.valid_answer_time;
}

unfoldable pub questions_message : String → List Question → ProcessGameMessageResponse
questions_message game_id questions = record {
  success = true;
  event = new_question;
  message = "new question";
  meta_data = record {
    game_id = game_id;
    questions = map question_response questions;
    answer = no_leader_board;
  };
}

-- The id of the question is the one of the entity, which is never set.
abbrev pub answer_result : QuestionCorrectness → ProcessGameAnswerResult
answer_result question_answers = record {
  question_id = "";
  correct_answer = question_answers.correct_choice;
  player_answer = question_answers.player_choice;
  is_correct = question_answers.is_correct;
}

abbrev pub player_point_result : PlayerPoint → ProcessGamePlayerPoint
player_point_result player_point = record {
  player_id = player_point.player_id;
  point = player_point.point;
  answers = map answer_result player_point.question_correctness;
}

unfoldable pub leader_board_result : String → LeaderBoard → ProcessGameLeaderBoard
leader_board_result game_id leader_board = record {
  game_id = game_id;
  player_point = map player_point_result leader_board.players_point;
}

-- An answer as it arrives: what the repository fills in is zero.
unfoldable pub answer_received : ℕ → ProcessGameAnswer → Time → PlayerAnswer
answer_received player_id answer now = record {
  game_id = answer.game_id;
  question_id = answer.question_id;
  player_id = pos player_id;
  player_choice = answer.answer;
  correct_choice = "";
  answer_time = now;
  valid_time_to_answer = 0;
  time_diff = pos 0;
  options = [];
  point = pos 0;
  category = unknown;
}

module _ {Bytes : Type 0} (front : Front Bytes) where
  -- The loop over the players: a write that fails is logged.
  unfoldable pub send_to_players : List ℕ → Payload → Action (Unit {0})
  unfolding write_server_data
  send_to_players [] payload = pure tt
  send_to_players (player_id ∷ players) payload = do
    conn ← gets (λ w. w.connections player_id)
    attempt (write_server_data front conn payload)
    send_to_players players payload

  module _ (out : Outside) where
    unfoldable pub send_question_to_player : String → Action (Unit {0})
    unfolding get_game_questions send_to_players questions_message
    send_question_to_player game_id = do
      game_questions ← get_game_questions out game_id
      send_to_players game_questions.players
          (message_payload (questions_message game_id game_questions.questions))

    -- `savePlayerAnswer`
    unfoldable pub save_answer :
        Floats → Config → ℕ → ProcessGameAnswer → Action ProcessGameLeaderBoard
    unfolding answer_received save_player_answer get_leader_board leader_board_result
    save_answer f config player_id answer = do
      now ← time_now out
      save_player_answer f out config answer.game_id (answer_received player_id answer now)
      leader_board ← get_leader_board front.iteration out answer.game_id
      pure (leader_board_result answer.game_id leader_board)
