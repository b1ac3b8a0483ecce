-- ===== src/Game/Messages.antt =====
-- services/game_app/service/param.go: what a player and the server send each other.
use brain_blitz.Prelude.{ℕ, String, Bool, List, []}
use brain_blitz.Prelude.Int.{ℤ}
use brain_blitz.Game.Entity.{Difficulty, PlayerId, Time}

-- The commands of the source; any other text is `other`.
pub data Command : Type 0 where
  ready answer unknown_command get_categories add_to_waiting_list : Command
  other : String → Command

pub data Event : Type 0 where
  error match_created answer_accepted new_question added_to_waiting_list completed : Event

pub record GameInitResponse : Type 0 where
  pub categories : List String
  pub number_of_players : List ℕ

pub record ProcessGameAnswer : Type 0 where
  pub game_id : String
  pub question_id : String
  pub answer : String

pub record ProcessGameMessageRequest : Type 0 where
  pub match_id : String
  pub game_id : String
  pub command : Command
  pub category : String
  pub number_of_players : ℤ
  pub game_answer : ProcessGameAnswer

pub record ProcessGameAnswerResult : Type 0 where
  pub question_id : String
  pub correct_answer : String
  pub player_answer : String
  pub is_correct : Bool

pub record ProcessGamePlayerPoint : Type 0 where
  pub player_id : PlayerId
  pub point : ℤ
  pub answers : List ProcessGameAnswerResult

pub record ProcessGameLeaderBoard : Type 0 where
  pub game_id : String
  pub player_point : List ProcessGamePlayerPoint

pub record ProcessGameQuestion : Type 0 where
  pub id : String
  pub content : String
  pub choices : List String
  pub difficulty : Difficulty
  pub ttl : Time

pub record ProcessGameMetaDataResponse : Type 0 where
  pub game_id : String
  pub questions : List ProcessGameQuestion
  pub answer : ProcessGameLeaderBoard

pub record ProcessGameMessageResponse : Type 0 where
  pub success : Bool
  pub event : Event
  pub message : String
  pub meta_data : ProcessGameMetaDataResponse

abbrev pub no_leader_board : ProcessGameLeaderBoard
no_leader_board = record { game_id = ""; player_point = [] }

abbrev pub meta_of_game : String → ProcessGameMetaDataResponse
meta_of_game game_id = record { game_id = game_id; questions = []; answer = no_leader_board }

-- A response with no metadata but the id of a game, which is empty in most.
abbrev pub response : Bool → Event → String → String → ProcessGameMessageResponse
response success event message game_id = record {
  success = success;
  event = event;
  message = message;
  meta_data = meta_of_game game_id;
}

-- A text that is written to a connection, by the value that its JSON stands for.
pub data Payload : Type 0 where
  message_payload : ProcessGameMessageResponse → Payload
  categories_payload : GameInitResponse → Payload
