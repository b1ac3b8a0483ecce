-- ===== src/Game/System.antt =====
-- services/game_app as a whole: what its goroutines do, one after the other in any order. A step is
-- one handshake, one message of a player, the end of a connection, one message of the broker
-- (services/game_app/service/match_consumer.go and question_consumer.go), one task of the queue, or
-- one goroutine that was started before. Of what two handlers do at the same time, the other calls
-- between the two halves of SavePlayerAnswer and of UpsertReadyPlayer are modelled, by a step for each
-- half.
pub mod Frame
pub mod History
pub mod Starts
use brain_blitz.Prelude.{ℕ, String, Option, none, List, [], ◌∷◌, ◌++◌, ◌≡◌}
use brain_blitz.Prelude.Int.{ℤ}
use brain_blitz.Game.Entity.{PlayerAnswer, ReadyPlayers}
use brain_blitz.Game.Repository.Answers.Races.{look_up, insert_answer}
use brain_blitz.Game.Repository.Ready.Races.{read_ready, finish_ready}
use brain_blitz.Game.Score.{Floats}
use brain_blitz.Game.World.{
  World, Outside, Config, Action, Task, cache_game_questions, save_user_status, save_game_status,
  pure, attempt, ◌>>=◌, ◌>>◌,
}
use brain_blitz.Game.Repository.Ready.{upsert_user_status, upsert_ready_player}
use brain_blitz.Game.Repository.Questions.{run_cache_game_questions}
use brain_blitz.Game.Service.Connections
use brain_blitz.Game.Service.Connections.{Front, int_of}
use brain_blitz.Game.Service.Matches.{consume_match_created, consume_questions}
use brain_blitz.Game.Service.Completion.{process_game_completion}
use brain_blitz.Game.Service.Reader.{read_message, process_game, serve}

module _ {Bytes : Type 0} (front : Front Bytes) (out : Outside) (f : Floats) (config : Config) where
  -- The body of a goroutine.
  unfoldable pub run_task : Task → Action (Unit {0})
  unfolding run_cache_game_questions upsert_user_status upsert_ready_player
  run_task (cache_game_questions game_id game) = run_cache_game_questions out game_id game
  run_task (save_user_status user_id status) = do
    attempt (upsert_user_status out user_id status)
    pure tt
  run_task (save_game_status game_id user_id number_of_players) = do
    attempt (upsert_ready_player out game_id user_id number_of_players)
    pure tt

  -- The world after a step. A handler that panics leaves what it had written before.
  pub data Step (w : World) : World → Type 0 where
    handshake :
        (connection : Option ℕ) (request_id : String)
        → Step w (process_game front out f config connection request_id w).1
    reads :
        (id conn : ℕ) (received : String)
        → Step w (read_message front out f config id conn received w).1
    hang_up : (id conn : ℕ) → Step w (serve front out f config id conn [] w).1
    consumes_matches : (bytes : Bytes) → Step w (consume_match_created front out bytes w).1
    consumes_questions : (bytes : Bytes) → Step w (consume_questions front out bytes w).1
    completes : (game_id : String) → Step w (process_game_completion front out game_id w).1
    runs :
        (before later : List Task) (task : Task)
        → w.tasks ≡ before ++ (task ∷ later)
        → Step w (run_task task (record w { tasks = before ++ later })).1
    looks_up :
        (game_id : String) (given : PlayerAnswer) → Step w (look_up f out config game_id given w).1
    -- After any lookup, which other steps may have followed.
    inserts_answer :
        (game_id : String) (looked : PlayerAnswer × Option PlayerAnswer)
        → Step w (insert_answer f out config game_id looked w).1
    reads_ready : (game_id : String) → Step w (read_ready out game_id w).1
    -- After any read, in the same way.
    finishes_ready :
        (game_id : String) (player_id : Option ℤ) (number_of_players : Option ℕ)
        (value : Option ReadyPlayers)
        → Step w (finish_ready out game_id player_id number_of_players value w).1

  pub data Reach (w : World) : World → Type 0 where
    here : Reach w w
    next : {u v : World} → Reach w u → Step u v → Reach w v
