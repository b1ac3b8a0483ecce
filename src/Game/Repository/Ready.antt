-- ===== src/Game/Repository/Ready.antt =====
-- `UpsertReadyPlayer`, `UpsertUserStatus` and `GetUserStatus` of
-- services/game_app/repository/game.go.
pub mod Laws
pub mod Races
use brain_blitz.Prelude.{
  ℕ, ◌-◌, String, Bool, true, false, Option, none, some, List, [], ◌∷◌, ◌&&◌, ◌==◌, if◌then◌else◌,
  push, length, any,
}
use brain_blitz.Prelude.Int.{ℤ, pos_part, neg_part}
use brain_blitz.Errors.{GoError, text}
use brain_blitz.Game.Entity.{GameStatus, status_string, map_to_game_status, ReadyPlayers}
use brain_blitz.Game.World.{
  World, Outside, Result, Action, ok, err, panic, pure, raise, crash, gets, attempt, ◌>>=◌, ◌>>◌,
  modify, call, get_status_text, get_game_status, set_game_status,
}

abbrev pub eq_int : ℤ → ℤ → Bool
eq_int a b = pos_part a == pos_part b && neg_part a == neg_part b

-- The loop over the players: `*playerId` is read for each of them, so a nil pointer panics as
-- soon as there is one.
unfoldable pub is_member : Option ℤ → List ℤ → Result Bool
is_member player_id [] = ok false
is_member none (id ∷ ids) = panic
is_member (some player) (id ∷ ids) =
    let rest = is_member (some player) ids in if eq_int id player then ok true else rest

-- The players after the `append`.
abbrev pub with_player : Option ℤ → List ℤ → List ℤ
with_player none players = players
with_player (some player) players = push players player

unfoldable pub expected : Option ℕ → ℕ
expected none = 2
expected (some n) = n

module _ (out : Outside) where
  unfoldable pub upsert_user_status : ℕ → GameStatus → Action (Unit {0})
  upsert_user_status user_id status = do
    call out
    modify (λ w. record w {
      user_status = λ id. if id == user_id then some (status_string status) else w.user_status id;
    })

  unfoldable pub get_user_status : ℕ → Action GameStatus
  unfolding get_status_text
  get_user_status user_id = do value ← get_status_text out user_id; pure (map_to_game_status value)

  -- The rest of the method once the record was read and is not full.
  unfoldable pub add_ready_player : String → Option ℤ → ReadyPlayers → Action Bool
  unfolding is_member set_game_status
  add_ready_player game_id player_id gs = elim (is_member player_id gs.players) [
    | ok true ↦ raise (text "player is already member of ready players")
    | ok false ↦ do
      let players = with_player player_id gs.players
      set_game_status out game_id (record gs { players = players })
      pure (length players == gs.expected_number_of_players)
    | err e ↦ raise e
    | panic ↦ crash
  ]

  unfoldable pub upsert_ready_player : String → Option ℤ → Option ℕ → Action Bool
  unfolding add_ready_player expected get_game_status set_game_status
  upsert_ready_player game_id player_id number_of_players = do
    value ← attempt (get_game_status out game_id)
    elim value [
      | none ↦ do
        set_game_status out game_id
            (record { expected_number_of_players = expected number_of_players; players = [] })
        pure false
      | some gs ↦
          if gs.expected_number_of_players == length gs.players
          then pure true
          else add_ready_player game_id player_id gs
    ]
