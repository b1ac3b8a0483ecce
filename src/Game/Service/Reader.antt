-- ===== src/Game/Service/Reader.antt =====
-- services/game_app/service/websocket_handler.go: the handshake, one message of a player, and the
-- loop that reads them.
pub mod Laws
pub mod Commands
pub mod Start
use brain_blitz.Prelude.{
  ℕ, String, Bool, true, false, Option, none, some, List, [], ◌∷◌, ◌+◌, if◌then◌else◌, push,
}
use brain_blitz.Prelude.Int.{pos}
use brain_blitz.Errors.{GoError, app, text, wrap, err_internal, error_text}
use brain_blitz.Contract.{AddToWaitingListMsg, game_v1_join_match_queue_requested}
use brain_blitz.Game.Entity.{
  Category, Duration, unknown, map_to_category, initialized, unknown_status,
  map_waiting_list_request_to_proto_message,
}
use brain_blitz.Game.Score.{Floats}
use brain_blitz.Game.Messages.{
  Command, ready, answer, get_categories, add_to_waiting_list, ProcessGameMessageRequest,
  ProcessGameMessageResponse, ProcessGameLeaderBoard, error, answer_accepted, added_to_waiting_list,
  response, message_payload, categories_payload,
}
use brain_blitz.Game.World.{
  World, Outside, Config, Action, pure, raise, gets, attempt, handle, ◌>>=◌, ◌>>◌, modify, call,
}
use brain_blitz.Game.Repository.Questions.{set_valid_answer_time_for_questions}
use brain_blitz.Game.Service.Connections.{
  Front, connect, disconnect, close, write_server_data, initial_response, save_users_game_status,
  save_game_status, get_users_game_status,
}
use brain_blitz.Game.Service.Answers.{send_question_to_player, save_answer}

abbrev pub is_unknown : Category → Bool
is_unknown c = elim c [ unknown ↦ true | _ ↦ false ]

unfoldable pub accepted_message : String → ProcessGameLeaderBoard → ProcessGameMessageResponse
accepted_message game_id leader_board = record {
  success = true;
  event = answer_accepted;
  message = "answer accepted";
  meta_data = record { game_id = game_id; questions = []; answer = leader_board };
}

module _ {Bytes : Type 0} (front : Front Bytes) (out : Outside) (f : Floats) (config : Config) where
  abbrev pub reply : ℕ → ProcessGameMessageResponse → Action (Unit {0})
  reply conn r = write_server_data front (some conn) (message_payload r)

  -- What reaches the broker: a message that cannot be marshalled is the nil slice.
  abbrev pub publish : String → AddToWaitingListMsg → Action (Unit {0})
  publish topic msg = do
    call out
    modify (λ w. record w {
      published = push w.published (topic, if front.can_marshal msg then some msg else none);
    })

  -- `case CommandAddToWaitingList`: an error that was reported does not end it.
  unfoldable pub on_add_to_waiting_list : ℕ → ℕ → String → Action (Unit {0})
  unfolding write_server_data map_to_category save_users_game_status
      map_waiting_list_request_to_proto_message
  on_add_to_waiting_list id conn category = do
    if is_unknown (map_to_category category)
        then reply conn (response false error "invalid category" "")
        else pure tt
    save_users_game_status (id ∷ []) initialized
    published ← attempt (
        publish game_v1_join_match_queue_requested
          (map_waiting_list_request_to_proto_message id category))
    elim published [
      | none ↦ reply conn (response false error "internal server error" "")
      | some _ ↦ pure tt
    ]
    reply conn (response true added_to_waiting_list "added to waiting list successfully" "")

  -- The task that completes the game: an error of the task queue is logged.
  unfoldable pub schedule : String → Option Duration → Action (Unit {0})
  schedule game_id ttl = do
    attempt (
        call out
        >> modify (λ w. record w {
          scheduled =
              push w.scheduled
                ("game:completed", game_id, elim ttl [ none ↦ pos 0 | some final_ttl ↦ final_ttl ]);
        }))
    pure tt

  -- `case CommandReady` once the game is ready: the time that goes with an error is 0.
  unfoldable pub start_game : ℕ → String → Action (Unit {0})
  unfolding set_valid_answer_time_for_questions send_question_to_player write_server_data schedule
  start_game conn game_id = do
    ttl ← attempt (set_valid_answer_time_for_questions out config game_id)
    elim ttl [
      | none ↦ reply conn (response false error "internal server error" "")
      | some _ ↦ pure tt
    ]
    attempt (send_question_to_player front out game_id)
    schedule game_id ttl

  -- `case CommandReady`
  unfoldable pub on_ready : ℕ → ℕ → String → Action (Unit {0})
  unfolding save_game_status start_game
  on_ready id conn game_id = do
    is_game_ready ← save_game_status out game_id (some id) none
    if is_game_ready then start_game conn game_id else pure tt

  -- `case CommandAnswer`
  unfoldable pub on_answer : ℕ → ℕ → ProcessGameMessageRequest → Action (Unit {0})
  unfolding save_answer write_server_data accepted_message error_text
  on_answer id conn req =
      handle (save_answer front out f config id req.game_answer)
        (λ e. reply conn (response false error (error_text e) ""))
        (λ player_response. reply conn (accepted_message req.game_id player_response))

  unfoldable pub read_message : ℕ → ℕ → String → Action (Unit {0})
  unfolding on_add_to_waiting_list on_ready on_answer write_server_data
  read_message id conn message = elim (front.decode_request message) [
    | none ↦ raise (text "invalid character in JSON")
    | some req ↦ elim req.command [
      | add_to_waiting_list ↦ on_add_to_waiting_list id conn req.category
      | ready ↦ on_ready id conn req.game_id
      | get_categories ↦ pure tt
      | answer ↦ on_answer id conn req
      | _ ↦ reply conn (response false error "invalid command" "")
    ]
  ]

  -- The goroutine of a connection, on the messages that come before the read that fails. An error
  -- of a message is logged; at the end the connection is closed and forgotten.
  unfoldable pub serve : ℕ → ℕ → List String → Action (Unit {0})
  unfolding read_message
  serve id conn [] = do close conn; disconnect id
  serve id conn (message ∷ messages) = do
    attempt (read_message id conn message)
    serve id conn messages

  -- `ProcessGame` up to the start of that goroutine: `connection` is the upgraded connection.
  unfoldable pub process_game : Option ℕ → String → Action (Unit {0})
  unfolding get_users_game_status write_server_data initial_response
  process_game connection request_id = elim connection [
    | none ↦ raise (app (wrap "game.processGame" none err_internal))
    | some conn ↦ elim (front.parse_uint request_id) [
      | none ↦ raise (app (wrap "game.processGame" none err_internal))
      | some id ↦ do
        connect id conn
        status ← get_users_game_status out id
        elim status [
          | unknown_status ↦ do
            initial_conn ← gets (λ w. w.connections id)
            written ←
                attempt (write_server_data front initial_conn (categories_payload initial_response))
            elim written [
              | none ↦ raise (app (wrap "game.processGame" none err_internal))
              | some _ ↦ pure tt
            ]
          | _ ↦ pure tt
        ]
    ]
  ]
