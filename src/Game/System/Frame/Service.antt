-- ===== src/Game/System/Frame/Service.antt =====
-- What the handlers of services/game_app/service keep.
use brain_blitz.Prelude.{ℕ, String, Bool, false, Option, none, some, List, [], ◌∷◌, arith}
use brain_blitz.Errors.{text}
use brain_blitz.Game.Entity.{GameStatus, LeaderBoard, unknown_status}
use brain_blitz.Game.Messages.{
  ProcessGameMessageResponse, ProcessGamePlayerPoint, Payload, completed, response, message_payload,
}
use brain_blitz.Game.World.{
  World, Outside, Action, pure, raise, gets, attempt, ◌>>=◌, ◌>>◌, save_user_status,
}
use brain_blitz.Game.Repository.Questions.{get_game}
use brain_blitz.Game.Repository.Ready.{upsert_ready_player, get_user_status}
use brain_blitz.Game.Repository.LeaderBoards.{get_leader_board}
use brain_blitz.Game.Service.Connections.{
  Front, int_of, disconnect, write_server_data, write_message, save_users_game_status,
  save_game_status, get_users_game_status,
}
use brain_blitz.Game.Service.Answers.{leader_board_result, send_to_players, send_question_to_player}
use brain_blitz.Game.Service.Completion.{
  parse_player_id, completed_message, report_failure, deliver, process_game_completion,
  close_connection,
}
use brain_blitz.Game.System.Frame.{
  IsFrame, Keeps, keeps_rules, Keeps-bind, Keeps-then, Keeps-attempt, Keeps-spawn,
}
use brain_blitz.Game.System.Frame.Repository.{
  store_rules, Keeps-get_user_status, Keeps-upsert_ready_player, Keeps-get_game,
  Keeps-get_leader_board,
}

pub Keeps-save_users_game_status :
    {R : World → World → Type 0} (frame : IsFrame R) (ids : List ℕ) (status : GameStatus)
    → Keeps R (save_users_game_status ids status)
unfolding save_users_game_status
Keeps-save_users_game_status frame [] status = search keeps_rules
Keeps-save_users_game_status frame (id ∷ ids) status =
    Keeps-then frame (Keeps-spawn frame (save_user_status id status))
      (Keeps-save_users_game_status frame ids status)

module _ {R : World → World → Type 0} (frame : IsFrame R) {Bytes : Type 0}
    (front : Front Bytes) where
  pub Keeps-write_server_data :
      (conn : Option ℕ) (payload : Payload) → Keeps R (write_server_data front conn payload)
  unfolding write_server_data
  Keeps-write_server_data conn payload = record {
    at = λ w. frame.aside w _ (ground arith) (ground arith);
  }

  pub Keeps-write_message :
      (ids : List ℕ) (msg : ProcessGameMessageResponse) → Keeps R (write_message front ids msg)
  unfolding write_message
  Keeps-write_message [] msg = search keeps_rules
  Keeps-write_message (id ∷ ids) msg =
      Keeps-bind frame {m = gets (λ w. w.connections id)} (search keeps_rules)
        (written (Keeps-write_message ids msg))
    where
      written :
          Keeps R (write_message front ids msg)
          → (connection : Option ℕ)
          → Keeps {A = Unit {0}} R (elim connection [
            | none ↦ raise (text "id not found")
            | some conn ↦ do
              attempt (write_server_data front (some conn) (message_payload msg))
              write_message front ids msg
          ])
      written rest none = search keeps_rules
      written rest (some conn) =
          Keeps-then frame
            (Keeps-attempt frame (Keeps-write_server_data (some conn) (message_payload msg))) rest

  Keeps-send_to_players :
      (ids : List ℕ) (payload : Payload) → Keeps R (send_to_players front ids payload)
  unfolding send_to_players
  Keeps-send_to_players [] payload = search keeps_rules
  Keeps-send_to_players (id ∷ ids) payload =
      Keeps-bind frame {m = gets (λ w. w.connections id)} (search keeps_rules) λ conn.
        Keeps-then frame (Keeps-attempt frame (Keeps-write_server_data conn payload))
          (Keeps-send_to_players ids payload)

  Keeps-report_failure : (players : List ℕ) → Keeps R (report_failure front players)
  unfolding report_failure
  Keeps-report_failure [] = search keeps_rules
  Keeps-report_failure (player ∷ players) =
      Keeps-bind frame {m = gets (λ w. w.connections player)} (search keeps_rules) λ conn.
        Keeps-then frame
          (Keeps-write_server_data conn
            (message_payload (response false completed "internal server error" "")))
          (Keeps-report_failure players)

  Keeps-close_connection : (conn : Option ℕ) → Keeps R (close_connection conn)
  Keeps-close_connection none = search keeps_rules
  Keeps-close_connection (some conn) = search keeps_rules

  pub Keeps-disconnect : (id : ℕ) → Keeps R (disconnect id)
  Keeps-disconnect id = search keeps_rules

  Keeps-deliver :
      (payload : Payload) (points : List ProcessGamePlayerPoint)
      → Keeps R (deliver front payload points)
  unfolding deliver
  Keeps-deliver payload [] = search keeps_rules
  Keeps-deliver payload (point ∷ points) =
      told (Keeps-deliver payload points) (parse_player_id point.player_id)
    where
      told :
          Keeps R (deliver front payload points)
          → (parsed : Option ℕ)
          → Keeps {A = Unit {0}} R (elim parsed [
            | none ↦ raise (text "strconv.ParseInt: value out of range")
            | some player_id ↦ do
              conn ← gets (λ w. w.connections player_id)
              write_server_data front conn payload
              disconnect player_id
              close_connection conn
              deliver front payload points
          ])
      told rest none = search keeps_rules
      told rest (some player_id) =
          Keeps-bind frame {m = gets (λ w. w.connections player_id)} (search keeps_rules) λ conn.
            Keeps-then frame (Keeps-write_server_data conn payload) (
              Keeps-then frame (Keeps-disconnect player_id)
                (Keeps-then frame (Keeps-close_connection conn) rest))

  module _ (out : Outside) where
    pub Keeps-save_game_status :
        (game_id : String) (user_id n : Option ℕ) → Keeps R (save_game_status out game_id user_id n)
    unfolding save_game_status
    Keeps-save_game_status game_id user_id n =
        Keeps-bind frame {m = attempt (upsert_ready_player out game_id (int_of user_id) n)}
          (search (keeps_rules, Keeps-upsert_ready_player)) λ ready. known ready
      where
        known :
            (ready : Option Bool)
            → Keeps R (elim ready as (λ _. Action Bool) [ none ↦ pure false | some b ↦ pure b ])
        known none = search keeps_rules
        known (some b) = search keeps_rules

    pub Keeps-get_users_game_status : (user_id : ℕ) → Keeps R (get_users_game_status out user_id)
    unfolding get_users_game_status
    Keeps-get_users_game_status user_id =
        Keeps-bind frame {m = attempt (get_user_status out user_id)}
          (search (keeps_rules, Keeps-get_user_status)) λ status. known status
      where
        known :
            (status : Option GameStatus)
            → Keeps R (elim status as (λ _. Action GameStatus) [
              | none ↦ pure unknown_status
              | some s ↦ pure s
            ])
        known none = search keeps_rules
        known (some s) = search keeps_rules

    pub Keeps-send_question_to_player :
        (game_id : String) → Keeps R (send_question_to_player front out game_id)
    unfolding send_question_to_player
    Keeps-send_question_to_player game_id = search (store_rules, Keeps-send_to_players)

    pub Keeps-process_game_completion :
        (game_id : String) → Keeps R (process_game_completion front out game_id)
    unfolding process_game_completion
    Keeps-process_game_completion game_id =
        Keeps-bind frame {m = attempt (get_leader_board front.iteration out game_id)}
          (search (keeps_rules, Keeps-get_leader_board)) λ board. reported board
      where
        reported :
            (leader_board : Option LeaderBoard)
            → Keeps {A = Unit {0}} R (elim leader_board [
              | none ↦ do game_info ← get_game out game_id; report_failure front game_info.players
              | some board ↦ do
                let result = leader_board_result game_id board
                deliver front
                    (message_payload (completed_message game_id result))
                    result.player_point
            ])
        reported none = search (keeps_rules, Keeps-get_game, Keeps-report_failure)
        reported (some board) = search Keeps-deliver
