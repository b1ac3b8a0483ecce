-- ===== src/Game/Repository/Ready/Laws.antt =====
-- The players who are ready for a game.
use mathlib.Core.List.{append-nil, append_assoc}
use brain_blitz.Prelude.{
  ℕ, suc, ◌+◌, ◌≤◌, ◌<◌, String, ◌≡◌, refl, ap, ◌∙◌, Bool, true, false, Option, none, some, List,
  [], ◌∷◌, ◌++◌, ◌==◌, push, length, length-push, any, arith, str_eq_refl,
}
use brain_blitz.Prelude.Int.{ℤ, pos, negsuc}
use brain_blitz.Errors.{text}
use brain_blitz.Game.Entity.{ReadyPlayers}
use brain_blitz.Game.World.{
  World, Outside, Result, ok, err, panic, update, get_game_status, set_game_status,
}
use brain_blitz.Game.Repository.Ready.{eq_int, is_member, add_ready_player, upsert_ready_player}

-- No call fails.
abbrev pub IsReliable : Outside → Type 0
IsReliable out = (n : ℕ) → out.fault n ≡ none

pub eq_int_self : (a : ℤ) → eq_int a a ≡ true
eq_int_self (pos n) = ground arith
eq_int_self (negsuc n) = ground arith

-- The store after the record of a game was written.
abbrev pub with_status : World → String → ReadyPlayers → ℕ → World
with_status w game_id gs tick = record w {
  game_status = update w.game_status game_id (some gs);
  tick = tick;
}

pub is_member-some :
    (p : ℤ) (ids : List ℤ) → is_member (some p) ids ≡ ok (any (λ id. eq_int id p) ids)
unfolding is_member
is_member-some p [] = refl
is_member-some p (id ∷ ids) = ground (arith, is_member-some p ids)

module _ (out : Outside) where
  -- A record that is full answers every further call with true and stays as it is: a player who
  -- is not of the game, or who was ready before, starts the game again.
  pub upsert_full :
      (reliable : IsReliable out) (game_id : String) (player : Option ℤ) (number : Option ℕ)
      (gs : ReadyPlayers) (w : World)
      → w.game_status game_id ≡ some gs
      → length gs.players ≡ gs.expected_number_of_players
      → upsert_ready_player out game_id player number w ≡ (ok true, record w { tick = w.tick + 1 })
  unfolding upsert_ready_player get_game_status
  upsert_full reliable game_id player number gs w found full = ground (arith, reliable w.tick)

  -- A player who is not ready yet is added at the end of a record that is not full, and the answer
  -- is whether the record is full now.
  pub upsert_next :
      (reliable : IsReliable out) (game_id : String) (player : ℤ) (number : Option ℕ)
      (gs : ReadyPlayers) (w : World)
      → w.game_status game_id ≡ some gs
      → length gs.players < gs.expected_number_of_players
      → any (λ id. eq_int id player) gs.players ≡ false
      → upsert_ready_player out game_id (some player) number w ≡ (
        ok (suc (length gs.players) == gs.expected_number_of_players),
        with_status w game_id (record gs { players = push gs.players player }) (w.tick + 1 + 1),
      )
  unfolding upsert_ready_player get_game_status add_ready_player set_game_status
  upsert_next reliable game_id player number gs w found open_seat fresh = ground (
    arith,
    reliable w.tick,
    reliable (w.tick + 1),
    is_member-some player gs.players,
    length-push gs.players player,
  )

  -- A player who is ready already is refused, and the record stays as it is.
  pub upsert_again :
      (reliable : IsReliable out) (game_id : String) (player : ℤ) (number : Option ℕ)
      (gs : ReadyPlayers) (w : World)
      → w.game_status game_id ≡ some gs
      → length gs.players < gs.expected_number_of_players
      → any (λ id. eq_int id player) gs.players ≡ true
      → upsert_ready_player out game_id (some player) number w
        ≡ (err (text "player is already member of ready players"), record w { tick = w.tick + 1 })
  unfolding upsert_ready_player get_game_status add_ready_player
  upsert_again reliable game_id player number gs w found open_seat again =
      ground (arith, reliable w.tick, is_member-some player gs.players)

  -- Where there is no record yet, a record with no player is written: the player who made the call
  -- is not in it, and has to send READY once more.
  pub upsert_missing :
      (reliable : IsReliable out) (game_id : String) (player : Option ℤ) (n : ℕ) (w : World)
      → w.game_status game_id ≡ none
      → upsert_ready_player out game_id player (some n) w ≡ (
        ok false,
        with_status w game_id
            (record { expected_number_of_players = n; players = [] })
            (w.tick + 1 + 1),
      )
  unfolding upsert_ready_player get_game_status set_game_status
  upsert_missing reliable game_id player n w missing =
      ground (arith, reliable w.tick, reliable (w.tick + 1))

  -- The call with no player, which a created match makes, panics on a record in which some player
  -- is ready and some is not.
  pub upsert_nil_panics :
      (reliable : IsReliable out) (game_id : String) (number : Option ℕ) (first : ℤ) (rest : List ℤ)
      (gs : ReadyPlayers) (w : World)
      → w.game_status game_id ≡ some gs
      → gs.players ≡ first ∷ rest
      → length gs.players < gs.expected_number_of_players
      → (upsert_ready_player out game_id none number w).0 ≡ panic
  unfolding upsert_ready_player get_game_status add_ready_player is_member
  upsert_nil_panics reliable game_id number first rest gs w found some_ready open_seat =
      ground (arith, reliable w.tick)

-- The READY messages of several players, one after the other, with the answer to each.
pub ready_all : Outside → String → List ℤ → World → List (Result Bool) × World
ready_all out game_id [] w = ([], w)
ready_all out game_id (p ∷ ps) w =
    let (r, w') = upsert_ready_player out game_id (some p) none w in
    let (rs, w'') = ready_all out game_id ps w' in (r ∷ rs, w'')

-- The answers to players who make the record's count go up from `k`: true at `n` only.
abbrev pub count_up : ℕ → ℕ → List ℤ → List (Result Bool)
count_up n k [] = []
count_up n k (p ∷ ps) = ok (suc k == n) ∷ count_up n (suc k) ps

-- Players who differ from one another and from those who are ready.
abbrev pub AreNew : List ℤ → List ℤ → Type 0
AreNew done [] = Unit
AreNew done (p ∷ ps) = (any (λ id. eq_int id p) done ≡ false) × AreNew (push done p) ps

abbrev pub ready_record : ℕ → List ℤ → ReadyPlayers
ready_record n players = record { expected_number_of_players = n; players = players }

-- While the calls succeed, new players who send READY to a game of `n` are added in their order,
-- and each is told whether the record is complete: with as many players as seats that is the last
-- one, and nobody before.
pub ready_all_lem :
    (out : Outside) (reliable : IsReliable out) (game_id : String) (n : ℕ) (ps done : List ℤ)
    (w : World)
    → w.game_status game_id ≡ some (ready_record n done)
    → AreNew done ps
    → length done + length ps ≤ n
    → ((ready_all out game_id ps w).0 ≡ count_up n (length done) ps)
      × ((ready_all out game_id ps w).1.game_status game_id ≡ some (ready_record n (done ++ ps)))
unfolding ready_all
ready_all_lem out reliable game_id n [] done w found new fits = (refl, rw append-nil found)
ready_all_lem out reliable game_id n (p ∷ ps) done w found new fits =
    let w' = with_status w game_id (ready_record n (push done p)) (w.tick + 1 + 1) in
    let step =
      upsert_next out reliable game_id p none (ready_record n done) w found (omega arith) new.0 in
    let (told, kept) =
      ready_all_lem out reliable game_id n ps (push done p) w' (rw str_eq_refl refl) new.1
        (omega (arith, length-push done p)) in
    rw step (
      ap (λ rs. ok (suc (length done) == n) ∷ rs)
          (told ∙ ap (λ k. count_up n k ps) (length-push done p)),
      kept ∙ ap (λ l. some (ready_record n l)) (append_assoc done (p ∷ []) ps),
    )
