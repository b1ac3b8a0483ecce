-- ===== src/Game/System/Starts.antt =====
-- The goroutine that records the number of players of a new game (services/game_app/service/
-- match_consumer.go), against the players' command "ready" (websocket_handler.go).
use brain_blitz.Prelude.{
  ℕ, ◌+◌, String, ◌≡◌, refl, none, some, arith, length, List, [], ◌∷◌, ◌==◌, false, str_eq_refl,
}
use brain_blitz.Prelude.Int.{ℤ, signed64}
use brain_blitz.Game.Entity.{ReadyPlayers}
use brain_blitz.Game.Score.{Floats}
use brain_blitz.Game.World.{
  World, Outside, Config, panic, save_game_status, get_game_status, set_game_status,
}
use brain_blitz.Game.Repository.Ready.{expected, is_member, add_ready_player, upsert_ready_player}
use brain_blitz.Game.Repository.Ready.Laws.{IsReliable}
use brain_blitz.Game.Service.Connections
use brain_blitz.Game.Service.Connections.{Front}
use brain_blitz.Game.Service.Reader.{on_ready}
use brain_blitz.Game.System.{run_task}

module _ {Bytes : Type 0} (front : Front Bytes) (out : Outside) (f : Floats) (config : Config) where
  late :
      (reliable : IsReliable out) (game_id : String) (n : ℕ) (w : World) (gs : ReadyPlayers) (p : ℤ)
      (ps : List ℤ)
      → w.game_status game_id ≡ some gs
      → gs.players ≡ p ∷ ps
      → (gs.expected_number_of_players == length gs.players) ≡ false
      → (run_task front out f config (save_game_status game_id none (some n)) w).0 ≡ panic
  unfolding run_task upsert_ready_player get_game_status add_ready_player is_member
  late reliable game_id n w gs p ps found players waiting =
      ground (arith, reliable w.tick, reliable (w.tick + 1), players, found, waiting)

  first_ready :
      (reliable : IsReliable out) (id conn : ℕ) (game_id : String) (w : World)
      → w.game_status game_id ≡ none
      → (on_ready front out f config id conn game_id w).1.game_status game_id
        ≡ some (record { expected_number_of_players = 2; players = [] })
  unfolding on_ready Connections.save_game_status upsert_ready_player get_game_status
      set_game_status expected
  first_ready reliable id conn game_id w new =
      ground (arith, reliable w.tick, reliable (w.tick + 1), new, str_eq_refl game_id)

  second_ready :
      (reliable : IsReliable out) (id conn : ℕ) (game_id : String) (w : World)
      → w.game_status game_id ≡ some (record { expected_number_of_players = 2; players = [] })
      → (on_ready front out f config id conn game_id w).1.game_status game_id
        ≡ some (record { expected_number_of_players = 2; players = signed64 id ∷ [] })
  unfolding on_ready Connections.save_game_status upsert_ready_player get_game_status
      set_game_status add_ready_player is_member
  second_ready reliable id conn game_id w found =
      ground (arith, reliable w.tick, reliable (w.tick + 1), found, str_eq_refl game_id)

  -- Where every call succeeds, two commands "ready" for a new game that are read before the goroutine
  -- that records its number of players has run make that goroutine panic, whatever the number is.
  pub record_after_ready_panics :
      (reliable : IsReliable out) (first second conn₁ conn₂ n : ℕ) (game_id : String) (w : World)
      → w.game_status game_id ≡ none
      → let w₁ = (on_ready front out f config first conn₁ game_id w).1 in
        let w₂ = (on_ready front out f config second conn₂ game_id w₁).1 in
        (run_task front out f config (save_game_status game_id none (some n)) w₂).0 ≡ panic
  record_after_ready_panics reliable first second conn₁ conn₂ n game_id w new =
      let w₁ = (on_ready front out f config first conn₁ game_id w).1 in
      let w₂ = (on_ready front out f config second conn₂ game_id w₁).1 in
      late reliable game_id n w₂
        (record { expected_number_of_players = 2; players = signed64 second ∷ [] })
        (signed64 second) []
        (second_ready reliable second conn₂ game_id w₁
          (first_ready reliable first conn₁ game_id w new))
        refl refl
