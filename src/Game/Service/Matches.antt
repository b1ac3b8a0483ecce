-- ===== src/Game/Service/Matches.antt =====
-- services/game_app/service/match_consumer.go and question_consumer.go.
pub mod Laws
pub mod Announcements
use brain_blitz.Prelude.{ℕ, String, true, false, Option, none, some, List, [], ◌∷◌, push, length}
use brain_blitz.Errors.{GoError, text}
use brain_blitz.Game.Entity.{
  Time, Game, MatchedUsers, pending, map_from_proto_message_to_entity,
  map_from_proto_message_to_questions_entity,
}
use brain_blitz.Game.Messages.{match_created, response}
use brain_blitz.Game.World.{
  Outside, Action, pure, raise, attempt, ◌>>=◌, ◌>>◌, time_now, spawn, save_game_status,
}
use brain_blitz.Game.Entity.{pending}
use brain_blitz.Game.Repository.Questions.{create_game, save_questions_by_match_id}
use brain_blitz.Game.Service.Connections.{Front, save_users_game_status, write_message}

abbrev pub game_of : MatchedUsers → Time → Time → Game
game_of matched_user created updated = record {
  players = matched_user.user_id;
  match_id = matched_user.match_id;
  category = matched_user.category;
  status = pending;
  question = none;
  created_at = created;
  updated_at = updated;
}

module _ {Bytes : Type 0} (front : Front Bytes) (out : Outside) where
  -- The first loop: a game for each match, and the matches whose game was made.
  unfoldable pub create_games : List MatchedUsers → List MatchedUsers → Action (List MatchedUsers)
  unfolding create_game
  create_games [] created_matches = pure created_matches
  create_games (matched_user ∷ matched_users) created_matches = do
    created ← time_now out
    updated ← time_now out
    result ← attempt (create_game out (game_of matched_user created updated))
    create_games matched_users (elim result [
      | none ↦ created_matches
      | some game_id ↦ push created_matches (record matched_user { game_id = game_id })
    ])

  -- The second loop. The goroutine that saves the users' status only starts one for each of them.
  unfoldable pub announce_matches : List MatchedUsers → Action (Unit {0})
  unfolding save_users_game_status write_message
  announce_matches [] = pure tt
  announce_matches (created_match ∷ created_matches) = do
    save_users_game_status created_match.user_id pending
    spawn (save_game_status created_match.game_id none (some (length created_match.user_id)))
    attempt (
        write_message front created_match.user_id
          (response true match_created "match created" created_match.game_id))
    announce_matches created_matches

  unfoldable pub consume_match_created : Bytes → Action (Unit {0})
  unfolding create_games announce_matches map_from_proto_message_to_entity
  consume_match_created message = elim (front.decode_matched_users message) [
    | none ↦ raise (text "proto: cannot parse invalid wire-format data")
    | some users ↦ do
      created_matches ← create_games (map_from_proto_message_to_entity users) []
      announce_matches created_matches
  ]

  unfoldable pub consume_questions : Bytes → Action (Unit {0})
  unfolding save_questions_by_match_id map_from_proto_message_to_questions_entity
  consume_questions message = elim (front.decode_questions message) [
    | none ↦ raise (text "proto: cannot parse invalid wire-format data")
    | some questions ↦ do
      let (stored, match_id) = map_from_proto_message_to_questions_entity questions
      attempt (save_questions_by_match_id out match_id stored)
      pure tt
  ]
