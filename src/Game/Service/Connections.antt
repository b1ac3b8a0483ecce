-- ===== src/Game/Service/Connections.antt =====
-- The connections of services/game_app/service: writeMessage and getCategories of
-- websocket_handler.go, and game_lifecycle.go. `Front` is what the process does not decide at this
-- level: the websocket library's writes, and the decoding of what arrives.
use brain_blitz.Prelude.{
  ℕ, ◌+◌, String, Bool, false, Option, none, some, List, [], ◌∷◌, push, ◌==◌, if◌then◌else◌,
}
use brain_blitz.Prelude.Int.{ℤ, signed64}
use brain_blitz.Errors.{text}
use brain_blitz.Contract.{AddToWaitingListMsg, MatchedUsersMsg, QuestionsMsg}
use brain_blitz.Game.Entity.{
  GameStatus, PlayerPoint, unknown_status, get_categories, map_from_categories,
}
use brain_blitz.Game.Messages.{
  GameInitResponse, ProcessGameMessageRequest, ProcessGameMessageResponse, Payload, message_payload,
}
use brain_blitz.Game.World.{
  Outside, Result, Action, ok, err, panic, pure, raise, gets, attempt, ◌>>=◌, ◌>>◌, modify, spawn,
  save_user_status,
}
use brain_blitz.Game.Repository.Ready.{get_user_status, upsert_ready_player}

-- The result of the n-th call as a write to a connection, and the decoding of the texts and the
-- bytes that arrive: `none` is an error. `can_marshal` says which messages protobuf encodes.
pub record Front (Bytes : Type 0) : Type 0 where
  pub write : Option ℕ → ℕ → Result (Unit {0})
  pub decode_request : String → Option ProcessGameMessageRequest
  pub parse_uint : String → Option ℕ
  pub decode_matched_users : Bytes → Option (List MatchedUsersMsg)
  pub decode_questions : Bytes → Option QuestionsMsg
  pub can_marshal : AddToWaitingListMsg → Bool
  -- The order in which Go walks the map of a leader board.
  pub iteration : List PlayerPoint → List PlayerPoint

abbrev pub with_connection : (ℕ → Option ℕ) → ℕ → Option ℕ → ℕ → Option ℕ
with_connection connections id conn j = if j == id then conn else connections j

abbrev pub connect : ℕ → ℕ → Action (Unit {0})
connect id conn =
    modify (λ w. record w { connections = with_connection w.connections id (some conn) })

-- `delete(svc.connections, id)`
abbrev pub disconnect : ℕ → Action (Unit {0})
disconnect id = modify (λ w. record w { connections = with_connection w.connections id none })

abbrev pub close : ℕ → Action (Unit {0})
close conn = modify (λ w. record w { closed = push w.closed conn })

module _ {Bytes : Type 0} (front : Front Bytes) where
  -- `svc.webSocket.WriteServerData`: what was written is seen only where it succeeds.
  unfoldable pub write_server_data : Option ℕ → Payload → Action (Unit {0})
  write_server_data conn payload w = elim (front.write conn w.tick) [
    | ok _ ↦ (ok tt, record w { tick = w.tick + 1; sent = push w.sent (conn, payload) })
    | err e ↦ (err e, record w { tick = w.tick + 1 })
    | panic ↦ (panic, record w { tick = w.tick + 1 })
  ]

  -- A player without a connection ends the loop.
  unfoldable pub write_message : List ℕ → ProcessGameMessageResponse → Action (Unit {0})
  unfolding write_server_data
  write_message [] msg = pure tt
  write_message (id ∷ ids) msg = do
    connection ← gets (λ w. w.connections id)
    elim connection [
      | none ↦ raise (text "id not found")
      | some conn ↦ do
        attempt (write_server_data (some conn) (message_payload msg))
        write_message ids msg
    ]

unfoldable pub initial_response : GameInitResponse
unfolding get_categories map_from_categories
initial_response = record {
  categories = map_from_categories get_categories;
  number_of_players = 2 ∷ [];
}

-- One goroutine for each user.
unfoldable pub save_users_game_status : List ℕ → GameStatus → Action (Unit {0})
save_users_game_status [] status = pure tt
save_users_game_status (id ∷ user_id) status = do
  spawn (save_user_status id status)
  save_users_game_status user_id status

abbrev pub int_of : Option ℕ → Option ℤ
int_of none = none
int_of (some id) = some (signed64 id)

module _ (out : Outside) where
  -- The result that goes with an error is false.
  unfoldable pub save_game_status : String → Option ℕ → Option ℕ → Action Bool
  unfolding upsert_ready_player
  save_game_status game_id user_id number_of_players = do
    ready ← attempt (upsert_ready_player out game_id (int_of user_id) number_of_players)
    elim ready [ none ↦ pure false | some is_ready ↦ pure is_ready ]

  unfoldable pub get_users_game_status : ℕ → Action GameStatus
  unfolding get_user_status
  get_users_game_status user_id = do
    status ← attempt (get_user_status out user_id)
    elim status [ none ↦ pure unknown_status | some s ↦ pure s ]
