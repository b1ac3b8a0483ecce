-- ===== src/Game/Repository/Answers/Races.antt =====
-- Two answers of a player to one question at the same time: `SavePlayerAnswer` of
-- services/game_app/repository/game.go looks for a stored answer and inserts one in two calls of
-- MongoDB, whose collection has no unique index, and a player may have two connections.
use mathlib.Core.Path.{subst}
use brain_blitz.Prelude.{
  ◌+◌, String, ◌≡◌, ◌∙◌, ap, true, Option, none, some, List, [], ◌∷◌, push, arith,
}
use brain_blitz.Errors.{app, text, wrap, err_internal}
use brain_blitz.Game.Entity.{GameQuestions, PlayerAnswer}
use brain_blitz.Game.Score.{Floats}
use brain_blitz.Game.World.{
  World, Outside, Config, Action, ok, pure, raise, gets, attempt, ◌>>=◌, modify, call,
  get_game_questions,
}
use brain_blitz.Game.Interleaving.{Caller, other, begun, returned, run_turns, overlap}
use brain_blitz.Game.Repository.Answers.{same_key, find_answer, judge, lift, save_player_answer}
use brain_blitz.Game.Repository.Answers.Laws.{AreDistinct, same_key_comm}
use brain_blitz.Game.Repository.Ready.Laws.{IsReliable}

-- A list with two answers of one key at its end.
two_of_a_key :
    (a b : PlayerAnswer) (answers : List PlayerAnswer)
    → same_key a b ≡ true
    → ¬ AreDistinct (push (push answers a) b)
unfolding find_answer
two_of_a_key a b [] same distinct = absurd (ground (arith, same_key_comm a b, same, distinct.0))
two_of_a_key a b (c ∷ answers) same distinct = two_of_a_key a b answers same distinct.1

module _ (f : Floats) (out : Outside) (config : Config) (game_id : String) where
  -- SavePlayerAnswer until its lookup: the answer with its score, and what was found.
  unfoldable pub look_up : PlayerAnswer → Action (PlayerAnswer × Option PlayerAnswer)
  unfolding get_game_questions find_answer judge
  look_up player_answer = do
    gq ← get_game_questions out game_id
    answer ← lift f out config (judge f out config gq.questions player_answer)
    looked ← attempt (call out)
    stored ← gets (λ w. elim looked [ none ↦ none | some _ ↦ find_answer answer w.player_answers ])
    pure (answer, stored)

  -- The rest of it.
  unfoldable pub insert_answer : PlayerAnswer × Option PlayerAnswer → Action (Unit {0})
  insert_answer (answer, stored) = elim stored [
    | some _ ↦ raise (text "player already answered this question")
    | none ↦ do
      inserted ← attempt (call out)
      elim inserted [
        | none ↦ raise (app (wrap "game.SavePlayerAnswer" none err_internal))
        | some _ ↦ modify (λ w. record w { player_answers = push w.player_answers answer })
      ]
  ]

  -- The method is its lookup and then the rest.
  save_in_two :
      (given : PlayerAnswer) (w : World)
      → save_player_answer f out config game_id given w ≡ (look_up given >>= insert_answer) w
  unfolding save_player_answer look_up insert_answer
  save_in_two given w = ground arith

  look_up_lem :
      (reliable : IsReliable out) (given judged : PlayerAnswer) (gq : GameQuestions) (w : World)
      → w.game_questions game_id ≡ some gq
      → judge f out config gq.questions given ≡ ok judged
      → find_answer judged w.player_answers ≡ none
      → look_up given w ≡ (ok (judged, none), record w { tick = w.tick + 1 + 1 })
  unfolding look_up get_game_questions
  look_up_lem reliable given judged gq w found is_judged absent =
      ground (arith, reliable w.tick, reliable (w.tick + 1), found, is_judged, absent)

  insert_answer_lem :
      (reliable : IsReliable out) (answer : PlayerAnswer) (w : World)
      → insert_answer (answer, none) w
        ≡ (ok tt, record w { tick = w.tick + 1; player_answers = push w.player_answers answer })
  unfolding insert_answer
  insert_answer_lem reliable answer w = ground (arith, reliable w.tick)

  -- Where no call fails, two answers of a player to one question, which is of the game, are in time and
  -- none is stored: if both calls look before either has inserted its answer, both are stored, each
  -- with its own score, and both calls succeed, so that the store has two answers to the question.
  pub overlapping_answers_both_stored :
      (reliable : IsReliable out) (given judged : Caller → PlayerAnswer) (gq : GameQuestions)
      (reader writer : Caller) (w : World)
      → w.game_questions game_id ≡ some gq
      → ((c : Caller) → judge f out config gq.questions (given c) ≡ ok (judged c))
      → ((c : Caller) → find_answer (judged c) w.player_answers ≡ none)
      → ((c : Caller) → same_key (judged c) (judged (other c)) ≡ true)
      → let race =
          run_turns
            (λ c. look_up (given c))
            (λ c. insert_answer)
            (reader ∷ other reader ∷ other writer ∷ writer ∷ [])
            (record { world = w; phase = λ c. begun }) in
        (race.world.player_answers
          ≡ push (push w.player_answers (judged (other writer))) (judged writer))
        × ((c : Caller) → race.phase c ≡ returned (ok tt))
        × (¬ AreDistinct race.world.player_answers)
  overlapping_answers_both_stored reliable given judged gq reader writer w found in_time absent
        same =
      let w1 : World = record w { tick = w.tick + 1 + 1 } in
      let w2 : World = record w1 { tick = w1.tick + 1 + 1 } in
      let w3 : World = record w2 {
        tick = w2.tick + 1;
        player_answers = push w.player_answers (judged (other writer));
      } in
      let w4 : World = record w3 {
        tick = w3.tick + 1;
        player_answers = push w3.player_answers (judged writer);
      } in
      let (ends, told) =
        overlap (λ c. look_up (given c)) (λ c. insert_answer) (λ c. (judged c, none)) (λ c. ok tt)
          reader writer w w1 w2 w3 w4
          (look_up_lem reliable (given reader) (judged reader) gq w found (in_time reader)
            (absent reader))
          (look_up_lem reliable (given (other reader)) (judged (other reader)) gq w1 found
            (in_time (other reader)) (absent (other reader)))
          (insert_answer_lem reliable (judged (other writer)) w2)
          (insert_answer_lem reliable (judged writer) w3) in
      let stored = ap (λ v. v.player_answers) ends in
      (
        stored,
        told,
        λ distinct.
            two_of_a_key (judged (other writer)) (judged writer) w.player_answers
              (same_key_comm (judged (other writer)) (judged writer) ∙ same writer)
              (subst AreDistinct stored distinct),
      )
