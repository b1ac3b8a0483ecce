-- ===== src/Contract.antt =====
-- contract/: the topics (contract/event/events.go) and the messages of the generated protobuf
-- packages that the services exchange, with the fields that the services read. The protobuf
-- library and the generated marshalling are a parameter, `Wire`.
use brain_blitz.Prelude.{ℕ, String, ◌≡◌, Option, some, List}

-- contract/event/events.go
unfoldable pub game_v1_join_match_queue_requested : String
game_v1_join_match_queue_requested = "GAME_V1_JOIN_MATCH_QUEUE_REQUESTED"

unfoldable pub match_v1_match_users : String
match_v1_match_users = "matchMaking_v1_matchUsers"

unfoldable pub question_v1_questions : String
question_v1_questions = "question_v1_questions"

-- match.AddToWaitingList
pub record AddToWaitingListMsg : Type 0 where
  pub user_id : ℕ  -- uint64
  pub category : String

-- match.MatchedUsers, and match.AllMatchedUsers as the list of them.
pub record MatchedUsersMsg : Type 0 where
  pub match_id : String
  pub category : List String
  pub user_id : List ℕ  -- uint64

-- question.Question and question.Questions
pub record QuestionMsg : Type 0 where
  pub question_id : String
  pub content : String
  pub correct_answer : String
  pub choices : List String
  pub category : String
  pub difficulty : String

pub record QuestionsMsg : Type 0 where
  pub match_id : String
  pub questions : List QuestionMsg

-- Marshalling of a message type `M` to bytes: `none` is an error. What was marshalled is read
-- back as it was. `nil` is the empty byte slice that a failed `Marshal` leaves in its variable.
pub record Wire (Bytes : Type 0) (M : Type 0) : Type 0 where
  pub nil : Bytes
  pub marshal : M → Option Bytes
  pub unmarshal : Bytes → Option M
  pub round_trip : (m : M) (b : Bytes) → marshal m ≡ some b → unmarshal b ≡ some m
