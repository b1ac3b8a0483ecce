-- ===== src/Tests/Questions.antt =====
-- The question service at concrete inputs.
use brain_blitz.Prelude.{◌≡◌, [], ◌∷◌}
use brain_blitz.Game.Entity.{map_from_proto_message_to_questions_entity}
use brain_blitz.Question.Service.{Question, tech, easy, map_questions_to_proto_message}
use brain_blitz.Question.Service.Laws.{game_question, questions_reach_game}

abbrev pub question : Question
question = record {
  id = "q1";
  content = "2 + 2?";
  correct_answer = "4";
  choices = "3" ∷ "4" ∷ [];
  category = tech;
  difficulty = easy;
}

questions_reach_game_example :
    map_from_proto_message_to_questions_entity
      (map_questions_to_proto_message "match" (question ∷ []))
    ≡ (game_question question ∷ [], "match")
questions_reach_game_example = questions_reach_game "match" (question ∷ [])
