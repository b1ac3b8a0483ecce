-- ===== src/Game/System/Frame/Repository.antt =====
-- What the methods of services/game_app/repository/game.go keep.
use brain_blitz.Prelude.{ℕ, String, Option, List, length, push, arith, Option-cases, inl, inr, ◌+◌}
use brain_blitz.Prelude.Int.{ℤ}
use brain_blitz.Game.Entity.{Time, Question, Game, GameStatus, ReadyPlayers, PlayerPoint}
use brain_blitz.Game.World.{
  World, get_game_status, set_game_questions, set_game_status, Outside, Config,
}
use brain_blitz.Game.Repository.Ready.{
  upsert_user_status, get_user_status, add_ready_player, upsert_ready_player,
}
use brain_blitz.Game.Repository.Questions.{
  update_match, insert_game, create_game, get_game, run_cache_game_questions, store_questions,
  save_questions_by_match_id, set_valid_answer_time_for_questions,
}
use brain_blitz.Game.Repository.LeaderBoards.{get_leader_board}
use brain_blitz.Game.System.Frame.{
  IsFrame, Keeps, keeps_rules, Keeps-pure, Keeps-crash, Keeps-raise, Keeps-attempt, Keeps-bind,
  Keeps-then, Keeps-modify, Keeps-if, Keeps-gets, Keeps-call, Keeps-get_game_questions,
  Keeps-get_status_text, Keeps-get_game_status, Keeps-set_game_questions, Keeps-set_game_status,
}

pub ruleset store_rules = (
  keeps_rules, Keeps-get_game_questions, Keeps-get_status_text, Keeps-get_game_status,
  Keeps-set_game_questions, Keeps-set_game_status,
)

module _ {R : World → World → Type 0} (frame : IsFrame R) (out : Outside) where
  pub Keeps-upsert_user_status :
      (user_id : ℕ) (status : GameStatus) → Keeps R (upsert_user_status out user_id status)
  unfolding upsert_user_status
  Keeps-upsert_user_status user_id status = search store_rules

  pub Keeps-get_user_status : (user_id : ℕ) → Keeps R (get_user_status out user_id)
  unfolding get_user_status
  Keeps-get_user_status user_id = search store_rules

  Keeps-add_ready_player :
      (game_id : String) (player : Option ℤ) (gs : ReadyPlayers)
      → Keeps R (add_ready_player out game_id player gs)
  unfolding add_ready_player set_game_status
  Keeps-add_ready_player game_id player gs = record {
    at = λ w. frame.aside w _ (ground arith) (ground arith);
  }

  pub Keeps-upsert_ready_player :
      (game_id : String) (player : Option ℤ) (n : Option ℕ)
      → Keeps R (upsert_ready_player out game_id player n)
  unfolding upsert_ready_player get_game_status set_game_status add_ready_player
  Keeps-upsert_ready_player game_id player n = record {
    at = λ w. frame.aside w _ (ground arith) (ground arith);
  }

  pub Keeps-get_game : (game_id : String) → Keeps R (get_game out game_id)
  unfolding get_game
  Keeps-get_game game_id = record { at = λ w. frame.aside w _ (ground arith) (ground arith) }

  pub Keeps-get_leader_board :
      (iteration : List PlayerPoint → List PlayerPoint) (game_id : String)
      → Keeps R (get_leader_board iteration out game_id)
  unfolding get_leader_board
  Keeps-get_leader_board iteration game_id = record {
    at = λ w. frame.aside w _ (ground arith) (ground arith);
  }

  pub Keeps-run_cache_game_questions :
      (game_id : String) (game : Game) → Keeps R (run_cache_game_questions out game_id game)
  unfolding run_cache_game_questions set_game_questions
  Keeps-run_cache_game_questions game_id game = record {
    at = λ w. frame.aside w _ (ground arith) (ground arith);
  }

  pub Keeps-set_valid_answer_time_for_questions :
      (config : Config) (game_id : String)
      → Keeps R (set_valid_answer_time_for_questions out config game_id)
  unfolding set_valid_answer_time_for_questions
  Keeps-set_valid_answer_time_for_questions config game_id = search store_rules

-- The writes to the collection of games.
module _ {R : World → World → Type 0} (frame : IsFrame R)
    (inserts : (w : World) (id : String) (stored : Game)
      → R w (record w { games = push w.games (id, stored) }))
    (updates : (w : World) (match_id : String) (questions : List Question) (now : Time)
      → R w (record w { games = (update_match match_id questions now w.games).0 }))
    (out : Outside) where
  Keeps-insert_game : (stored : Game) → Keeps R (insert_game out stored)
  unfolding insert_game
  Keeps-insert_game stored = record {
    at = λ w. elim (Option-cases (out.fault w.tick)) [
      | inr (e, failed) ↦ frame.aside w _ (ground (arith, failed)) (ground (arith, failed))
      | inl done ↦
          let id = out.object_id_hex (length w.games) in
          frame.trans w (record w { games = push w.games (id, stored) }) _ (inserts w id stored)
            (frame.aside _ _ (ground (arith, done)) (ground (arith, done)))
    ];
  }

  pub Keeps-create_game : (game : Game) → Keeps R (create_game out game)
  unfolding create_game
  Keeps-create_game game = search (store_rules, Keeps-insert_game)

  Keeps-store_questions :
      (match_id : String) (questions : List Question)
      → Keeps R (store_questions out match_id questions)
  unfolding store_questions set_game_questions
  Keeps-store_questions match_id questions = record {
    at = λ w. elim (Option-cases (out.fault (w.tick + 1))) [
      | inr (e, failed) ↦ frame.aside w _ (ground (arith, failed)) (ground (arith, failed))
      | inl done ↦
          let now = out.now w.tick in
          frame.trans w (record w { games = (update_match match_id questions now w.games).0 }) _
            (updates w match_id questions now)
            (frame.aside _ _ (ground (arith, done)) (ground (arith, done)))
    ];
  }

  pub Keeps-save_questions_by_match_id :
      (match_id : String) (questions : List Question)
      → Keeps R (save_questions_by_match_id out match_id questions)
  unfolding save_questions_by_match_id
  Keeps-save_questions_by_match_id match_id questions = search (store_rules, Keeps-store_questions)
