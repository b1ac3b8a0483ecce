-- ===== src/Question/Service.antt =====
-- services/question_app/service: service.go, helper.go and entity.go. The repository (PostgreSQL),
-- the broker and the protobuf library are parameters.
pub mod Laws
use brain_blitz.Prelude.{ℕ, String, Option, none, some, List, [], ◌∷◌, map, str_eq, if◌then◌else◌}
use brain_blitz.Errors.{GoError}
use brain_blitz.Contract.{MatchedUsersMsg, QuestionMsg, QuestionsMsg, Wire, question_v1_questions}

-- A text: one of the constants, or what else a column of the database holds.
pub data Category : Type 0 where
  sport music tech : Category
  other_category : String → Category

unfoldable pub category_text : Category → String
category_text sport = "SPORT"
category_text music = "MUSIC"
category_text tech = "TECH"
category_text (other_category s) = s

-- A text, in the same way.
pub data Difficulty : Type 0 where
  easy medium hard : Difficulty
  other_difficulty : String → Difficulty

unfoldable pub difficulty_text : Difficulty → String
difficulty_text easy = "EASY"
difficulty_text medium = "MEDIUM"
difficulty_text hard = "HARD"
difficulty_text (other_difficulty s) = s

-- An unknown text is MUSIC.
unfoldable pub map_to_category : String → Category
map_to_category category =
    if str_eq category "MUSIC"
    then music
    else if str_eq category "SPORT"
    then sport
    else if str_eq category "TECH"
    then tech
    else music

pub record MatchedUsers : Type 0 where
  pub match_id : String
  pub category : List Category
  pub user_id : List ℕ

pub record Question : Type 0 where
  pub id : String
  pub content : String
  pub correct_answer : String
  pub choices : List String
  pub category : Category
  pub difficulty : Difficulty

abbrev pub matched_users_of : MatchedUsersMsg → MatchedUsers
unfolding map_to_category
matched_users_of user = record {
  match_id = user.match_id;
  category = map map_to_category user.category;
  user_id = user.user_id;
}

unfoldable pub map_from_proto_message_to_entity : List MatchedUsersMsg → List MatchedUsers
unfolding matched_users_of
map_from_proto_message_to_entity = map matched_users_of

question_msg : Question → QuestionMsg
unfolding category_text difficulty_text
question_msg question = record {
  question_id = question.id;
  content = question.content;
  correct_answer = question.correct_answer;
  choices = question.choices;
  category = category_text question.category;
  difficulty = difficulty_text question.difficulty;
}

unfoldable pub map_questions_to_proto_message : String → List Question → QuestionsMsg
unfolding question_msg
map_questions_to_proto_message match_id questions = record {
  match_id = match_id;
  questions = map question_msg questions;
}

-- The repository's answer is the list that is left in the variable, with the error beside it.
pub record Environment (S : Type 0) (Bytes : Type 0) : Type 0 where
  pub get_random_questions : List Category → Difficulty → ℕ → S → List Question × Option GoError × S
  pub publish : String → Bytes → S → Option GoError × S

module _ {S Bytes : Type 0} (env : Environment S Bytes) (wire : Wire Bytes QuestionsMsg) where
  -- The loop over the matches: an error is logged, and the questions that there are, none where the
  -- repository failed, are published all the same.
  unfoldable pub publish_questions : List MatchedUsers → S → S
  unfolding map_questions_to_proto_message question_v1_questions
  publish_questions [] s = s
  publish_questions (matched_user ∷ matched_users) s =
      let (questions, _, s') = env.get_random_questions matched_user.category easy 10 s in
      let buff : Bytes =
        elim (wire.marshal (map_questions_to_proto_message matched_user.match_id questions)) [
          | some b ↦ b
          | none ↦ wire.nil
        ] in
      publish_questions matched_users (env.publish question_v1_questions buff s').1

  unfoldable pub consume_match_created :
      Wire Bytes (List MatchedUsersMsg) → GoError → Bytes → S → Option GoError × S
  unfolding publish_questions map_from_proto_message_to_entity
  consume_match_created users_wire bad_message message s = elim (users_wire.unmarshal message) [
    | none ↦ (some bad_message, s)
    | some users ↦ (none, publish_questions (map_from_proto_message_to_entity users) s)
  ]
