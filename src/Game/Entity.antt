-- ===== src/Game/Entity.antt =====
-- services/game_app/service/entity.go and helper.go, and repository/param.go.
pub mod Laws
use brain_blitz.Prelude.{
  ℕ, String, Bool, true, false, Option, none, List, [], ◌∷◌, map, str_eq, if◌then◌else◌,
}
use brain_blitz.Prelude.Int.{ℤ}
use brain_blitz.Contract.{AddToWaitingListMsg, MatchedUsersMsg, QuestionMsg, QuestionsMsg}

pub data GameStatus : Type 0 where
  initialized pending created started finished unknown_status : GameStatus

-- `string(status)`
unfoldable pub status_string : GameStatus → String
status_string initialized = "INITIALIZED"
status_string pending = "PENDING"
status_string created = "CREATED"
status_string started = "STARTED"
status_string finished = "FINISHED"
status_string unknown_status = "UNKNOWN"

unfoldable pub get_game_status : List GameStatus
get_game_status = created ∷ pending ∷ started ∷ finished ∷ []

unfoldable pub map_to_game_status : String → GameStatus
map_to_game_status status =
    if str_eq status "PENDING"
    then pending
    else if str_eq status "CREATED"
    then created
    else if str_eq status "STARTED"
    then started
    else if str_eq status "FINISHED"
    then finished
    else unknown_status

pub data Category : Type 0 where
  sport music tech unknown : Category

unfoldable pub category_string : Category → String
category_string sport = "SPORT"
category_string music = "MUSIC"
category_string tech = "TECH"
category_string unknown = "UNKNOWN"

unfoldable pub get_categories : List Category
get_categories = sport ∷ music ∷ tech ∷ []

unfoldable pub map_to_category : String → Category
map_to_category category =
    if str_eq category "SPORT"
    then sport
    else if str_eq category "MUSIC"
    then music
    else if str_eq category "TECH"
    then tech
    else unknown

unfoldable pub map_from_categories : List Category → List String
unfolding category_string
map_from_categories = map category_string

pub data Difficulty : Type 0 where
  easy medium hard unknown_difficulty : Difficulty

unfoldable pub difficulty_string : Difficulty → String
difficulty_string easy = "EASY"
difficulty_string medium = "MEDIUM"
difficulty_string hard = "HARD"
difficulty_string unknown_difficulty = "UNKNOWN"

unfoldable pub map_to_difficulty : String → Difficulty
map_to_difficulty difficulty =
    if str_eq difficulty "EASY"
    then easy
    else if str_eq difficulty "MEDIUM"
    then medium
    else if str_eq difficulty "HARD"
    then hard
    else unknown_difficulty

-- A `time.Time`: nanoseconds since Go's zero time, the start of year 1.
abbrev pub Time : Type 0
Time = ℕ

-- A `time.Duration`: nanoseconds, 64 bits.
abbrev pub Duration : Type 0
Duration = ℤ

-- The decimal text of an integer, which the source uses as a player's id: it is only written by
-- strconv, compared, and read back by strconv, so the integer stands for it.
abbrev pub PlayerId : Type 0
PlayerId = ℤ

pub record Question : Type 0 where
  pub id : String
  pub content : String
  pub correct_answer : String
  pub status : String
  pub choices : List String
  pub category : Category
  pub valid_answer_time : Time
  pub difficulty : Difficulty

pub record GameQuestions : Type 0 where
  pub questions : List Question
  pub players : List ℕ  -- uint64
  pub current_question_index : ℕ

pub record Game : Type 0 where
  pub players : List ℕ  -- uint64
  pub match_id : String
  pub category : List Category
  pub status : GameStatus
  pub question : Option (List Question)
  pub created_at : Time
  pub updated_at : Time

pub record PlayerAnswer : Type 0 where
  pub game_id : String
  pub question_id : String
  pub player_id : PlayerId
  pub player_choice : String
  pub correct_choice : String
  pub answer_time : Time
  pub valid_time_to_answer : Time
  pub time_diff : Duration
  pub options : List String
  pub point : ℤ  -- int, 64 bits
  pub category : Category

-- Its `QuestionId` is never set.
pub record QuestionCorrectness : Type 0 where
  pub player_choice : String
  pub correct_choice : String
  pub is_correct : Bool

pub record PlayerPoint : Type 0 where
  pub player_id : PlayerId
  pub point : ℤ
  pub question_correctness : List QuestionCorrectness

pub record LeaderBoard : Type 0 where
  pub game_id : String
  pub players_point : List PlayerPoint

pub record MatchedUsers : Type 0 where
  pub match_id : String
  pub game_id : String
  pub category : List Category
  pub user_id : List ℕ

-- repository/param.go: `gameStatus`, the players who are ready.
pub record ReadyPlayers : Type 0 where
  pub expected_number_of_players : ℕ
  pub players : List ℤ  -- int, 64 bits

matched_users_entity : MatchedUsersMsg → MatchedUsers
unfolding map_to_category
matched_users_entity user = record {
  match_id = user.match_id;
  game_id = "";
  category = map map_to_category user.category;
  user_id = user.user_id;
}

unfoldable pub map_from_proto_message_to_entity : List MatchedUsersMsg → List MatchedUsers
unfolding matched_users_entity
map_from_proto_message_to_entity = map matched_users_entity

-- The validity time of a question that has just been received is the zero time.
question_entity : QuestionMsg → Question
unfolding map_to_category map_to_difficulty
question_entity question = record {
  id = question.question_id;
  content = question.content;
  correct_answer = question.correct_answer;
  status = "";
  choices = question.choices;
  category = map_to_category question.category;
  valid_answer_time = 0;
  difficulty = map_to_difficulty question.difficulty;
}

unfoldable pub map_from_proto_message_to_questions_entity : QuestionsMsg → List Question × String
unfolding question_entity
map_from_proto_message_to_questions_entity questions =
    (map question_entity questions.questions, questions.match_id)

unfoldable pub map_waiting_list_request_to_proto_message : ℕ → String → AddToWaitingListMsg
map_waiting_list_request_to_proto_message user_id category = record {
  user_id = user_id;
  category = category;
}
