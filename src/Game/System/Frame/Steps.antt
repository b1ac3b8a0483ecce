-- ===== src/Game/System/Frame/Steps.antt =====
-- What every step of services/game_app keeps.
use brain_blitz.Prelude.{
  ℕ, String, false, refl, Option, none, some, List, [], ◌∷◌, ◌++◌, push, arith,
}
use brain_blitz.Errors.{text}
use brain_blitz.Contract.{MatchedUsersMsg, QuestionsMsg, game_v1_join_match_queue_requested}
use brain_blitz.Game.Entity.{
  Time, Duration, Question, Game, PlayerAnswer, ReadyPlayers, MatchedUsers, pending, initialized,
  map_to_category, map_waiting_list_request_to_proto_message, map_from_proto_message_to_entity,
  map_from_proto_message_to_questions_entity,
}
use brain_blitz.Game.Score.{Floats}
use brain_blitz.Game.Messages.{
  Command, add_to_waiting_list, ready, get_categories, answer, ProcessGameMessageResponse,
  ProcessGameMessageRequest, ProcessGameAnswer, response, error, message_payload,
}
use brain_blitz.Game.World.{
  World, Outside, Config, Task, cache_game_questions, save_user_status, save_game_status, pure,
  raise, attempt, ◌>>=◌, ◌>>◌, get_status_text, time_now, get_game_questions, get_game_status,
  set_game_status,
}
use brain_blitz.Game.Repository.Questions.{
  update_match, create_game, save_questions_by_match_id, set_valid_answer_time_for_questions,
}
use brain_blitz.Prelude.Int.{ℤ}
use brain_blitz.Game.Repository.Ready.{get_user_status, add_ready_player}
use brain_blitz.Game.Repository.Answers.Races.{look_up, insert_answer}
use brain_blitz.Game.Repository.Ready.Races.{read_ready, finish_ready}
use brain_blitz.Game.Repository.Answers.{save_player_answer}
use brain_blitz.Game.Service.Connections.{Front, get_users_game_status, write_server_data}
use brain_blitz.Game.Service.Answers.{save_answer}
use brain_blitz.Game.Service.Matches.{
  game_of, create_games, announce_matches, consume_match_created, consume_questions,
}
use brain_blitz.Game.Service.Reader.{
  is_unknown, publish, on_add_to_waiting_list, schedule, start_game, on_ready, on_answer,
  read_message, serve, process_game, reply,
}
use brain_blitz.Game.System.{
  run_task, Step, Reach, handshake, reads, hang_up, consumes_matches, consumes_questions, completes,
  runs, looks_up, inserts_answer, reads_ready, finishes_ready, here, next,
}
use brain_blitz.Game.System.Frame.{
  IsFrame, Keeps, keeps_rules, Keeps-bind, Keeps-then, Keeps-attempt, Keeps-spawn, Keeps-pure,
  Keeps-if,
}
use brain_blitz.Game.System.Frame.Repository.{
  Keeps-upsert_user_status, Keeps-upsert_ready_player, Keeps-get_leader_board,
  Keeps-run_cache_game_questions, Keeps-set_valid_answer_time_for_questions, Keeps-create_game,
  Keeps-save_questions_by_match_id,
}
use brain_blitz.Game.System.Frame.Service.{
  Keeps-write_server_data, Keeps-write_message, Keeps-save_users_game_status,
  Keeps-save_game_status, Keeps-send_question_to_player, Keeps-process_game_completion,
}

-- A frame that also holds of the three writes to the collections.
pub record IsStepFrame (R : World → World → Type 0) (out : Outside) (f : Floats) (config : Config)
    : Type 0 where
  pub frame : IsFrame R
  pub inserts :
      (w : World) (id : String) (stored : Game)
      → R w (record w { games = push w.games (id, stored) })
  pub updates :
      (w : World) (match_id : String) (questions : List Question) (now : Time)
      → R w (record w { games = (update_match match_id questions now w.games).0 })
  pub answers :
      (w : World) (game_id : String) (given : PlayerAnswer)
      → R w (save_player_answer f out config game_id given w).1
  pub insertions :
      (w : World) (game_id : String) (looked : PlayerAnswer × Option PlayerAnswer)
      → R w (insert_answer f out config game_id looked w).1

module _ {R : World → World → Type 0} {out : Outside} {f : Floats} {config : Config}
    (keeps : IsStepFrame R out f config) {Bytes : Type 0} (front : Front Bytes) where
  frame : IsFrame R
  frame = keeps.frame

  Keeps-create_games :
      (users made : List MatchedUsers) → Keeps R (create_games front out users made)
  unfolding create_games
  Keeps-create_games [] made = search keeps_rules
  Keeps-create_games (user ∷ users) made =
      Keeps-bind frame {m = time_now out} (search keeps_rules) λ created.
        Keeps-bind frame {m = time_now out} (search keeps_rules) λ updated.
          Keeps-bind frame {m = attempt (create_game out (game_of user created updated))}
            (Keeps-attempt frame (
              Keeps-create_game frame keeps.inserts keeps.updates out
                (game_of user created updated)))
            λ result. Keeps-create_games users (elim result [
              | none ↦ made
              | some game_id ↦ push made (record user { game_id = game_id })
            ])

  Keeps-announce_matches : (made : List MatchedUsers) → Keeps R (announce_matches front out made)
  unfolding announce_matches
  Keeps-announce_matches [] = search keeps_rules
  Keeps-announce_matches (m ∷ made) =
      Keeps-then frame (Keeps-save_users_game_status frame m.user_id pending) (
        Keeps-then frame (Keeps-spawn frame _) (
          Keeps-then frame (Keeps-attempt frame (Keeps-write_message frame front m.user_id _))
            (Keeps-announce_matches made)))

  Keeps-consume_match_created : (bytes : Bytes) → Keeps R (consume_match_created front out bytes)
  unfolding consume_match_created
  Keeps-consume_match_created bytes = parsed (front.decode_matched_users bytes)
    where
      parsed :
          (o : Option (List MatchedUsersMsg))
          → Keeps {A = Unit {0}} R (elim o [
            | none ↦ raise (text "proto: cannot parse invalid wire-format data")
            | some users ↦ do
              created_matches ← create_games front out (map_from_proto_message_to_entity users) []
              announce_matches front out created_matches
          ])
      parsed none = search keeps_rules
      parsed (some users) = search (keeps_rules, Keeps-create_games, Keeps-announce_matches)

  Keeps-schedule :
      (game_id : String) (ttl : Option Duration) → Keeps R (schedule front out f config game_id ttl)
  unfolding schedule
  Keeps-schedule game_id ttl = search keeps_rules

  Keeps-save_player_answer :
      (game_id : String) (given : PlayerAnswer)
      → Keeps R (save_player_answer f out config game_id given)
  Keeps-save_player_answer game_id given = record { at = λ w. keeps.answers w game_id given }

  Keeps-save_answer :
      (player_id : ℕ) (given : ProcessGameAnswer)
      → Keeps R (save_answer front out f config player_id given)
  unfolding save_answer
  Keeps-save_answer player_id given =
      search (keeps_rules, Keeps-save_player_answer, Keeps-get_leader_board)

  Keeps-write :
      (conn : ℕ) (r : ProcessGameMessageResponse) → Keeps R (reply front out f config conn r)
  Keeps-write conn r = Keeps-write_server_data frame front (some conn) (message_payload r)

  Keeps-consume_questions : (bytes : Bytes) → Keeps R (consume_questions front out bytes)
  unfolding consume_questions
  Keeps-consume_questions bytes = parsed (front.decode_questions bytes)
    where
      parsed :
          (o : Option QuestionsMsg)
          → Keeps {A = Unit {0}} R (elim o [
            | none ↦ raise (text "proto: cannot parse invalid wire-format data")
            | some questions ↦ do
              let (stored, match_id) = map_from_proto_message_to_questions_entity questions
              attempt (save_questions_by_match_id out match_id stored)
              pure tt
          ])
      parsed none = search keeps_rules
      parsed (some questions) =
          Keeps-then frame
            (Keeps-attempt frame
              (Keeps-save_questions_by_match_id frame keeps.inserts keeps.updates out _ _))
            (Keeps-pure frame tt)

  Keeps-on_add_to_waiting_list :
      (id conn : ℕ) (category : String)
      → Keeps R (on_add_to_waiting_list front out f config id conn category)
  unfolding on_add_to_waiting_list
  Keeps-on_add_to_waiting_list id conn category =
      Keeps-then frame
        (Keeps-if frame (is_unknown (map_to_category category)) (Keeps-write conn _)
          (Keeps-pure frame tt))
        (Keeps-then frame (Keeps-save_users_game_status frame (id ∷ []) initialized) (
          Keeps-bind frame
            {m = attempt (
              publish front out f config game_v1_join_match_queue_requested
                (map_waiting_list_request_to_proto_message id category))}
            (search keeps_rules)
            λ published. Keeps-then frame (reported published) (Keeps-write conn _)))
    where
      reported :
          (published : Option (Unit {0}))
          → Keeps {A = Unit {0}} R (elim published [
            | none ↦ reply front out f config conn (response false error "internal server error" "")
            | some _ ↦ pure tt
          ])
      reported none = Keeps-write conn _
      reported (some _) = search keeps_rules

  Keeps-start_game :
      (conn : ℕ) (game_id : String) → Keeps R (start_game front out f config conn game_id)
  unfolding start_game
  Keeps-start_game conn game_id =
      Keeps-bind frame {m = attempt (set_valid_answer_time_for_questions out config game_id)}
        (search (keeps_rules, Keeps-set_valid_answer_time_for_questions))
        λ ttl. Keeps-then frame (reported ttl) (
          Keeps-then frame
            (Keeps-attempt frame (Keeps-send_question_to_player frame front out game_id))
            (Keeps-schedule game_id ttl))
    where
      reported :
          (ttl : Option Duration)
          → Keeps {A = Unit {0}} R (elim ttl [
            | none ↦ reply front out f config conn (response false error "internal server error" "")
            | some _ ↦ pure tt
          ])
      reported none = Keeps-write conn _
      reported (some _) = search keeps_rules

  Keeps-on_ready :
      (id conn : ℕ) (game_id : String) → Keeps R (on_ready front out f config id conn game_id)
  unfolding on_ready
  Keeps-on_ready id conn game_id =
      search (keeps_rules, Keeps-save_game_status frame front out, Keeps-start_game)

  Keeps-on_answer :
      (id conn : ℕ) (req : ProcessGameMessageRequest)
      → Keeps R (on_answer front out f config id conn req)
  unfolding on_answer
  Keeps-on_answer id conn req = search (keeps_rules, Keeps-save_answer, Keeps-write)

  Keeps-read_message :
      (id conn : ℕ) (message : String) → Keeps R (read_message front out f config id conn message)
  unfolding read_message
  Keeps-read_message id conn message = parsed (front.decode_request message)
    where
      obeyed :
          (command : Command) (req : ProcessGameMessageRequest)
          → Keeps {A = Unit {0}} R (elim command [
            | add_to_waiting_list ↦ on_add_to_waiting_list front out f config id conn req.category
            | ready ↦ on_ready front out f config id conn req.game_id
            | get_categories ↦ pure tt
            | answer ↦ on_answer front out f config id conn req
            | _ ↦ reply front out f config conn (response false error "invalid command" "")
          ])
      obeyed add_to_waiting_list req = Keeps-on_add_to_waiting_list id conn req.category
      obeyed ready req = Keeps-on_ready id conn req.game_id
      obeyed get_categories req = search keeps_rules
      obeyed answer req = Keeps-on_answer id conn req
      obeyed _ req = Keeps-write conn _

      parsed :
          (o : Option ProcessGameMessageRequest)
          → Keeps {A = Unit {0}} R (elim o [
            | none ↦ raise (text "invalid character in JSON")
            | some req ↦ elim req.command [
              | add_to_waiting_list ↦ on_add_to_waiting_list front out f config id conn req.category
              | ready ↦ on_ready front out f config id conn req.game_id
              | get_categories ↦ pure tt
              | answer ↦ on_answer front out f config id conn req
              | _ ↦ reply front out f config conn (response false error "invalid command" "")
            ]
          ])
      parsed none = search keeps_rules
      parsed (some req) = obeyed req.command req

  Keeps-hang_up : (id conn : ℕ) → Keeps R (serve front out f config id conn [])
  unfolding serve
  Keeps-hang_up id conn = search keeps_rules

  Keeps-process_game :
      (connection : Option ℕ) (request_id : String)
      → Keeps R (process_game front out f config connection request_id)
  unfolding process_game get_users_game_status get_user_status get_status_text write_server_data
  Keeps-process_game none request_id = search keeps_rules
  Keeps-process_game (some conn) request_id = record {
    at = λ w. frame.aside w _ (ground arith) (ground arith);
  }

  Keeps-run_task : (task : Task) → Keeps R (run_task front out f config task)
  unfolding run_task
  Keeps-run_task (cache_game_questions game_id game) =
      Keeps-run_cache_game_questions frame out game_id game
  Keeps-run_task (save_user_status user_id status) = search (keeps_rules, Keeps-upsert_user_status)
  Keeps-run_task (save_game_status game_id user_id n) =
      search (keeps_rules, Keeps-upsert_ready_player)

  Keeps-look_up :
      (game_id : String) (given : PlayerAnswer) → Keeps R (look_up f out config game_id given)
  unfolding look_up get_game_questions
  Keeps-look_up game_id given = record { at = λ w. frame.aside w _ (ground arith) (ground arith) }

  Keeps-read_ready : (game_id : String) → Keeps R (read_ready out game_id)
  unfolding read_ready get_game_status
  Keeps-read_ready game_id = record { at = λ w. frame.aside w _ (ground arith) (ground arith) }

  Keeps-finish_ready :
      (game_id : String) (player : Option ℤ) (n : Option ℕ) (value : Option ReadyPlayers)
      → Keeps R (finish_ready out game_id player n value)
  unfolding finish_ready add_ready_player set_game_status
  Keeps-finish_ready game_id player n value = record {
    at = λ w. frame.aside w _ (ground arith) (ground arith);
  }

  pub Step-keeps : {v w : World} → Step front out f config v w → R v w
  Step-keeps {v} (handshake connection request_id) = (Keeps-process_game connection request_id).at v
  Step-keeps {v} (reads id conn received) = (Keeps-read_message id conn received).at v
  Step-keeps {v} (hang_up id conn) = (Keeps-hang_up id conn).at v
  Step-keeps {v} (consumes_matches bytes) = (Keeps-consume_match_created bytes).at v
  Step-keeps {v} (consumes_questions bytes) = (Keeps-consume_questions bytes).at v
  Step-keeps {v} (completes game_id) = (Keeps-process_game_completion frame front out game_id).at v
  Step-keeps {v} (runs before later task e) =
      let started = record v { tasks = before ++ later } in
      frame.trans v started _ (frame.aside v started refl refl) ((Keeps-run_task task).at started)
  Step-keeps {v} (looks_up game_id given) = (Keeps-look_up game_id given).at v
  Step-keeps {v} (inserts_answer game_id looked) = keeps.insertions v game_id looked
  Step-keeps {v} (reads_ready game_id) = (Keeps-read_ready game_id).at v
  Step-keeps {v} (finishes_ready game_id player n value) =
      (Keeps-finish_ready game_id player n value).at v

  pub Reach-keeps : {v w : World} → Reach front out f config v w → R v w
  Reach-keeps {v} here = frame.aside v v refl refl
  Reach-keeps (next r s) = frame.trans _ _ _ (Reach-keeps r) (Step-keeps s)
