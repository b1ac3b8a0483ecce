-- ===== src/Game/Repository/Ready/Races.antt =====
-- Two READY messages at the same time: `UpsertReadyPlayer` of services/game_app/repository/game.go
-- reads the record and writes it back in two calls of Redis, and each player's connection has its own
-- goroutine.
use brain_blitz.Prelude.{
  ℕ, ◌+◌, ◌≤◌, String, ◌≡◌, refl, ◌∙◌, ap, true, false, Option, none, some, List, [], ◌∷◌, ◌==◌,
  push, length, any, arith, str_eq_refl, length-push, if◌then◌else◌, Bool,
}
use brain_blitz.Prelude.Int.{ℤ}
use brain_blitz.Game.Entity.{ReadyPlayers}
use brain_blitz.Game.World.{
  World, Outside, Action, ok, pure, attempt, ◌>>=◌, ◌>>◌, get_game_status, set_game_status,
}
use brain_blitz.Game.Interleaving.{Caller, other, begun, returned, run_turns, overlap}
use brain_blitz.Game.Repository.Ready.{eq_int, add_ready_player, expected, upsert_ready_player}
use brain_blitz.Game.Repository.Ready.Laws.{IsReliable, is_member-some, with_status, ready_record}

any-push :
    {A : Type 0} (p : A → Bool) (xs : List A) (x : A)
    → any p xs ≡ false
    → p x ≡ false
    → any p (push xs x) ≡ false
any-push p [] x absent other = ground (arith, other)
any-push p (y ∷ xs) x absent other = ground (arith, absent, any-push p xs x, other)

module _ (out : Outside) (game_id : String) where
  unfoldable pub read_ready : Action (Option ReadyPlayers)
  unfolding get_game_status
  read_ready = attempt (get_game_status out game_id)

  -- The method after its read.
  unfoldable pub finish_ready : Option ℤ → Option ℕ → Option ReadyPlayers → Action Bool
  unfolding add_ready_player expected set_game_status
  finish_ready player_id number_of_players value = elim value [
    | none ↦ do
      set_game_status out game_id
          (record { expected_number_of_players = expected number_of_players; players = [] })
      pure false
    | some gs ↦
        if gs.expected_number_of_players == length gs.players
        then pure true
        else add_ready_player out game_id player_id gs
  ]

  -- The method is its read and then the rest.
  upsert_in_two :
      (player_id : Option ℤ) (number : Option ℕ) (w : World)
      → upsert_ready_player out game_id player_id number w
        ≡ (read_ready >>= finish_ready player_id number) w
  unfolding upsert_ready_player read_ready finish_ready
  upsert_in_two player_id number w = refl

  read_ready_lem :
      (reliable : IsReliable out) (gs : ReadyPlayers) (w : World)
      → w.game_status game_id ≡ some gs
      → read_ready w ≡ (ok (some gs), record w { tick = w.tick + 1 })
  unfolding read_ready get_game_status
  read_ready_lem reliable gs w found = ground (arith, reliable w.tick, found)

  finish_ready_lem :
      (reliable : IsReliable out) (player : ℤ) (n : ℕ) (done : List ℤ) (w : World)
      → length done + 2 ≤ n
      → any (λ id. eq_int id player) done ≡ false
      → finish_ready (some player) none (some (ready_record n done)) w
        ≡ (ok false, with_status w game_id (ready_record n (push done player)) (w.tick + 1))
  unfolding finish_ready add_ready_player set_game_status
  finish_ready_lem reliable player n done w room new =
      ground
        (arith, room, new, reliable w.tick, is_member-some player done, length-push done player)

  -- Where no call fails, two different players are not ready yet, and at least two are missing: if both
  -- calls read the record before either has written it, the record ends with the player whose call
  -- writes last, the other is not in it, and both are told that the game is not complete.
  pub overlapping_ready_loses_one :
      (reliable : IsReliable out) (player : Caller → ℤ) (n : ℕ) (done : List ℤ)
      (reader writer : Caller) (w : World)
      → w.game_status game_id ≡ some (ready_record n done)
      → length done + 2 ≤ n
      → ((c : Caller) → any (λ id. eq_int id (player c)) done ≡ false)
      → ((c : Caller) → eq_int (player c) (player (other c)) ≡ false)
      → let race =
          run_turns
            (λ c. read_ready)
            (λ c. finish_ready (some (player c)) none)
            (reader ∷ other reader ∷ other writer ∷ writer ∷ [])
            (record { world = w; phase = λ c. begun }) in
        (race.world.game_status game_id ≡ some (ready_record n (push done (player writer))))
        × (any (λ id. eq_int id (player (other writer))) (push done (player writer)) ≡ false)
        × ((c : Caller) → race.phase c ≡ returned (ok false))
  overlapping_ready_loses_one reliable player n done reader writer w found room new differ =
      let gs = ready_record n done in
      let w1 : World = record w { tick = w.tick + 1 } in
      let w2 : World = record w1 { tick = w1.tick + 1 } in
      let w3 =
        with_status w2 game_id (ready_record n (push done (player (other writer)))) (w2.tick + 1) in
      let w4 = with_status w3 game_id (ready_record n (push done (player writer))) (w3.tick + 1) in
      let (ends, told) =
        overlap (λ c. read_ready) (λ c. finish_ready (some (player c)) none) (λ c. some gs)
          (λ c. ok false) reader writer w w1 w2 w3 w4 (read_ready_lem reliable gs w found)
          (read_ready_lem reliable gs w1 found)
          (finish_ready_lem reliable (player (other writer)) n done w2 room (new (other writer)))
          (finish_ready_lem reliable (player writer) n done w3 room (new writer)) in
      (
        ap (λ v. v.game_status game_id) ends
            ∙ ap
                (λ b.
                  if b
                  then some (ready_record n (push done (player writer)))
                  else w3.game_status game_id)
                (str_eq_refl game_id),
        any-push (λ id. eq_int id (player (other writer))) done (player writer) (new (other writer))
            (differ writer),
        told,
      )
