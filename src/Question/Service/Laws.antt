-- ===== src/Question/Service/Laws.antt =====
-- What the game service gets of the questions.
use brain_blitz.Prelude.{ℕ, ◌+◌, String, ◌≡◌, refl, none, some, List, [], ◌∷◌, map, length, arith}
use brain_blitz.Errors.{GoError}
use brain_blitz.Contract.{MatchedUsersMsg, QuestionsMsg, Wire, question_v1_questions}
use brain_blitz.Game.Entity
use brain_blitz.Game.Entity.{map_from_proto_message_to_questions_entity}
use brain_blitz.Question.Service
use brain_blitz.Question.Service.{
  Category, Difficulty, Question, MatchedUsers, Environment, sport, music, tech, other_category,
  easy, medium, hard, other_difficulty, map_questions_to_proto_message,
  map_from_proto_message_to_entity, publish_questions, consume_match_created,
}

-- A text that is no constant of the question service is read by the game service as its own.
abbrev pub game_category : Category → Entity.Category
game_category sport = Entity.sport
game_category music = Entity.music
game_category tech = Entity.tech
game_category (other_category s) = Entity.map_to_category s

abbrev pub game_difficulty : Difficulty → Entity.Difficulty
game_difficulty easy = Entity.easy
game_difficulty medium = Entity.medium
game_difficulty hard = Entity.hard
game_difficulty (other_difficulty s) = Entity.map_to_difficulty s

-- The game's question that a question stands for, before it has a validity time.
abbrev pub game_question : Question → Entity.Question
game_question q = record {
  id = q.id;
  content = q.content;
  correct_answer = q.correct_answer;
  status = "";
  choices = q.choices;
  category = game_category q.category;
  valid_answer_time = 0;
  difficulty = game_difficulty q.difficulty;
}

category_read : (c : Category) → Entity.map_to_category (Service.category_text c) ≡ game_category c
unfolding Entity.map_to_category Service.category_text
category_read sport = refl
category_read music = refl
category_read tech = refl
category_read (other_category s) = refl

difficulty_read :
    (d : Difficulty) → Entity.map_to_difficulty (Service.difficulty_text d) ≡ game_difficulty d
unfolding Entity.map_to_difficulty Service.difficulty_text
difficulty_read easy = refl
difficulty_read medium = refl
difficulty_read hard = refl
difficulty_read (other_difficulty s) = refl

-- The questions that the question service sends for a match are the ones that the game service
-- reads, each with its text, choices, right answer, category and difficulty, in order, for the same
-- match.
pub questions_reach_game :
    (match_id : String) (qs : List Question)
    → map_from_proto_message_to_questions_entity (map_questions_to_proto_message match_id qs)
      ≡ (map game_question qs, match_id)
unfolding map_from_proto_message_to_questions_entity map_questions_to_proto_message
questions_reach_game match_id [] = refl
questions_reach_game match_id (q ∷ qs) = λ i. (
  record (game_question q) {
    category = category_read q.category i;
    difficulty = difficulty_read q.difficulty i;
  }
      ∷ (questions_reach_game match_id qs i).0,
  match_id,
)

length-map {ℓ κ} :
    {A : Type ℓ} {B : Type κ} (f : A → B) (xs : List A) → length (map f xs) ≡ length xs
length-map f [] = refl
length-map f (x ∷ xs) = omega (arith, length-map f xs)

module _ {S Bytes : Type 0} (env : Environment S Bytes) (wire : Wire Bytes QuestionsMsg)
    (published : S → ℕ)
    (publishes : (topic : String) (b : Bytes) (s : S)
      → published (env.publish topic b s).1 ≡ published s + 1)
    (reads : (cs : List Category) (d : Difficulty) (n : ℕ) (s : S)
      → published (env.get_random_questions cs d n s).2 ≡ published s) where
  publish_questions_count :
      (ms : List MatchedUsers) (s : S)
      → published (publish_questions env wire ms s) ≡ published s + length ms
  unfolding publish_questions
  publish_questions_count [] s = omega arith
  publish_questions_count (m ∷ ms) s =
      let (questions, _, s') = env.get_random_questions m.category easy 10 s in
      let buff : Bytes = elim (wire.marshal (map_questions_to_proto_message m.match_id questions)) [
        | some b ↦ b
        | none ↦ wire.nil
      ] in
      omega (
        arith,
        publish_questions_count ms (env.publish question_v1_questions buff s').1,
        publishes question_v1_questions buff s',
        reads m.category easy 10 s,
      )

  -- Where the broker counts the messages that it is given, and reading counts none, a message of
  -- matches leads to exactly one message of questions for each of them, whatever else fails.
  pub consume_match_created_count :
      (users_wire : Wire Bytes (List MatchedUsersMsg)) (bad_message : GoError)
      (users : List MatchedUsersMsg) {b : Bytes} (s : S)
      → users_wire.marshal users ≡ some b
      → let (e, s') = consume_match_created env wire users_wire bad_message b s in
        (e ≡ none) × (published s' ≡ published s + length users)
  unfolding consume_match_created map_from_proto_message_to_entity
  consume_match_created_count users_wire bad_message users s sent =
      rw (users_wire.round_trip users _ sent, consume_match_created)
        (
          refl,
          omega (
            arith,
            publish_questions_count (map_from_proto_message_to_entity users) s,
            length-map Service.matched_users_of users,
          ),
        )
