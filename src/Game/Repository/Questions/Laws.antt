-- ===== src/Game/Repository/Questions/Laws.antt =====
-- The times that `SetValidAnswerTimeForQuestions` gives to the questions.
use mathlib.Core.Option
use brain_blitz.Prelude.{
  ℕ, zero, suc, ◌+◌, ◌*◌, ◌≤◌, ◌<◌, String, ◌≡◌, refl, ap, ◌∙◌, some, List, [], ◌∷◌, length,
  get_elem?, arith, str_eq_refl,
}
use brain_blitz.Prelude.Int.{pos, pos_part, add_int, add_int_exact, int_min_abs, wrap64}
use brain_blitz.Game.Entity.{Time, Duration, Question, GameQuestions}
use brain_blitz.Game.Time.{add, times}
use brain_blitz.Game.World.{
  World, Outside, Config, ok, update, get_game_questions, set_game_questions,
}
use brain_blitz.Game.Repository.Ready.Laws.{IsReliable}
use brain_blitz.Game.Repository.Questions.{stamp_questions, set_valid_answer_time_for_questions}

times_exact : (t n : ℕ) → t * n < int_min_abs → times (pos t) n ≡ pos (t * n)
unfolding times wrap64
times_exact t n h = ground arith

add_pos : (t n : ℕ) → add t (pos n) ≡ t + n
unfolding add
add_pos t n = omega arith

-- 1 + 2 + ... from `i + 1`, `n` terms.
abbrev pub sum_from : ℕ → ℕ → ℕ
sum_from i zero = 0
sum_from i (suc n) = (i + 1) + sum_from (suc i) n

sum_from-ge : (i n : ℕ) → n ≤ sum_from i n
sum_from-ge i zero = omega arith
sum_from-ge i (suc n) = omega (arith, sum_from-ge (suc i) n)

-- A question with the time until which it can be answered.
abbrev pub stamped : Question → Time → Question
stamped q t = record q { valid_answer_time = t }

module _ (out : Outside) (config : Config) where
  abbrev pub restamped : GameQuestions → ℕ → GameQuestions
  restamped gq tick = record gq {
    questions = (stamp_questions out config 0 gq.questions (pos 0) tick).0;
  }

  pub set_valid_answer_time_run :
      (reliable : IsReliable out) (game_id : String) (gq : GameQuestions) (w : World)
      → w.game_questions game_id ≡ some gq
      → set_valid_answer_time_for_questions out config game_id w ≡ (
        ok (stamp_questions out config 0 gq.questions (pos 0) (w.tick + 1)).1,
        record w {
          game_questions = update w.game_questions game_id (some (restamped gq (w.tick + 1)));
          tick = w.tick + 1 + length gq.questions + 1;
        },
      )
  unfolding set_valid_answer_time_for_questions get_game_questions set_game_questions
  set_valid_answer_time_run reliable game_id gq w found =
      ground (arith, reliable w.tick, reliable (w.tick + 1 + length gq.questions))

module _ (out : Outside) (config : Config) (t : ℕ)
    (ttl_is : config.valid_answer_time_out ≡ pos t) where
  ttl_exact : (n : ℕ) → t * n < int_min_abs → times config.valid_answer_time_out n ≡ pos (t * n)
  ttl_exact n h = ap (λ d. times d n) ttl_is ∙ times_exact t n h

  deadline_eq : (a b c d : ℕ) → a ≡ b → c ≡ d → out.now a + c ≡ out.now b + d
  deadline_eq a b c d p q = cc

  stamp_total :
      (i : ℕ) (qs : List Question) (total tick : ℕ)
      → total + t * sum_from i (length qs) < int_min_abs
      → (stamp_questions out config i qs (pos total) tick).1
        ≡ pos (total + t * sum_from i (length qs))
  unfolding stamp_questions
  stamp_total i [] total tick h = ap pos (omega arith)
  stamp_total i (q ∷ qs) total tick h =
      rw (ttl_exact (i + 1) (omega arith), add_int_exact total (t * (i + 1)) (omega arith))
        (stamp_total (suc i) qs (total + t * (i + 1)) (tick + 1) (omega arith)
          ∙ ap pos (omega arith))

  stamp_nth :
      (i : ℕ) (qs : List Question) (total : Duration) (tick j : ℕ)
      → t * (i + length qs) < int_min_abs
      → get_elem? (stamp_questions out config i qs total tick).0 j
        ≡ Option.map (λ q. stamped q (out.now (tick + j) + t * (i + j + 1))) (get_elem? qs j)
  unfolding stamp_questions
  stamp_nth i [] total tick j h = refl
  stamp_nth i (q ∷ qs) total tick zero h =
      ap (λ time. some (stamped q time))
        (ap (add (out.now tick)) (ttl_exact (i + 1) (omega arith))
          ∙ add_pos (out.now tick) (t * (i + 1))
          ∙ deadline_eq tick (tick + 0) (t * (i + 1)) (t * (i + 0 + 1)) (omega arith) (omega arith))
  stamp_nth i (q ∷ qs) total tick (suc j) h =
      stamp_nth (suc i) qs (add_int total (times config.valid_answer_time_out (i + 1))) (tick + 1) j
        (omega arith)
      ∙ ap (λ time. Option.map (λ q. stamped q time) (get_elem? qs j))
          (deadline_eq (tick + 1 + j) (tick + suc j) (t * (suc i + j + 1)) (t * (i + suc j + 1))
            (omega arith) (omega arith))

  -- While the calls succeed, the questions of a game are stored again with their validity times
  -- alone changed: question `j` can be answered until `j + 1` answer times after the reading of the
  -- clock for it. The time until the game is completed is the sum 1 + 2 + ... + n of answer times
  -- for `n` questions.
  pub set_valid_answer_time_for_questions_lem :
      (reliable : IsReliable out) (game_id : String) (gq : GameQuestions) (w : World)
      → w.game_questions game_id ≡ some gq
      → t * (length gq.questions + sum_from 0 (length gq.questions)) < int_min_abs
      → (gq' : GameQuestions) × ((set_valid_answer_time_for_questions out config game_id w).0
          ≡ ok (pos (t * sum_from 0 (length gq.questions))))
        × ((set_valid_answer_time_for_questions out config game_id w).1.game_questions game_id
            ≡ some gq')
        × (gq'.players ≡ gq.players)
        × ((j : ℕ)
            → get_elem? gq'.questions j
              ≡ Option.map
                  (λ q. stamped q (out.now (w.tick + 1 + j) + t * (j + 1)))
                  (get_elem? gq.questions j))
  set_valid_answer_time_for_questions_lem reliable game_id gq w found small =
      rw (set_valid_answer_time_run out config reliable game_id gq w found) (
        restamped out config gq (w.tick + 1),
        ap ok (stamp_total 0 gq.questions 0 (w.tick + 1) (omega arith) ∙ ap pos (omega arith)),
        rw str_eq_refl refl,
        refl,
        λ j.
            stamp_nth 0 gq.questions (pos 0) (w.tick + 1) j (omega arith)
            ∙ ap (λ time. Option.map (λ q. stamped q time) (get_elem? gq.questions j))
                (deadline_eq (w.tick + 1 + j) (w.tick + 1 + j) (t * (0 + j + 1)) (t * (j + 1)) refl
                  (omega arith)),
      )

  -- The game is completed no earlier than its last question can be answered.
  pub completion_after_last :
      (qs : List Question) (tick : ℕ)
      → t * (length qs + sum_from 0 (length qs)) < int_min_abs
      → t * length qs ≤ pos_part (stamp_questions out config 0 qs (pos 0) tick).1
  completion_after_last qs tick small =
      rw (stamp_total 0 qs 0 tick (omega arith)) (grind (arith, sum_from-ge 0 (length qs)))
