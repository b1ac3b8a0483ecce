-- ===== src/Game/Repository/Answers/Judging.antt =====
-- How an answer is judged by the questions of its game, and when it scores.
use brain_blitz.Prelude.{
  ℕ, ◌+◌, ◌-◌, ◌≤◌, ◌<◌, String, ◌≡◌, ◌≢◌, refl, ap, ◌∙◌, inl, inr, true, false, Option, none, some,
  List, [], ◌∷◌, arith, str_eq, if◌then◌else◌, Bool-cases,
}
use brain_blitz.Prelude.Int.{pos, int_min_abs}
use brain_blitz.Game.Entity.{Question, PlayerAnswer}
use brain_blitz.Game.Time.{sub}
use brain_blitz.Game.Score.{Floats, calculate_score}
use brain_blitz.Game.World.{Outside, Config, ok, err}
use brain_blitz.Game.Repository.Answers.{invalid_answer, too_early, scored, judge}

-- The question that an answer is for.
abbrev pub find_question : String → List Question → Option Question
find_question id [] = none
find_question id (q ∷ qs) =
    let later = find_question id qs in if str_eq id q.id then some q else later

module _ (f : Floats) (config : Config) (out : Outside) where
  -- The answer is judged by the first question with its id: it is refused if it is too early, and
  -- else scored by that question. One to a question that is not there is kept as it came.
  pub judge_lem :
      (qs : List Question) (answer : PlayerAnswer)
      → judge f out config qs answer ≡ elim (find_question answer.question_id qs) [
        | none ↦ ok answer
        | some q ↦
            if too_early f out config q answer
            then err invalid_answer
            else ok (scored f out config q answer)
      ]
  unfolding judge
  judge_lem [] answer = refl
  judge_lem (q ∷ qs) answer = elim (Bool-cases (str_eq answer.question_id q.id)) [
    | inl own ↦ rw own
    | inr other ↦ rw other (judge_lem qs answer)
  ]

  too_early_window :
      (t : ℕ) (q : Question) (answer : PlayerAnswer)
      → config.valid_answer_time_out ≡ pos t
      → q.valid_answer_time - answer.answer_time < int_min_abs
      → too_early f out config q answer ≡ false
      → q.valid_answer_time < answer.answer_time + t + 1000000
  unfolding sub
  too_early_window t q answer ttl small accepted = ground arith

  score_needs :
      (q : Question) (answer : PlayerAnswer)
      → (scored f out config q answer).point ≢ pos 0
      → (str_eq answer.player_choice q.correct_answer ≡ true)
        × (answer.answer_time ≤ q.valid_answer_time)
  unfolding calculate_score
  score_needs q answer scores = ground arith

  judged_scored :
      (qs : List Question) (q : Question) (answer b : PlayerAnswer)
      → find_question answer.question_id qs ≡ some q
      → too_early f out config q answer ≡ false
      → judge f out config qs answer ≡ ok b
      → b ≡ scored f out config q answer
  judged_scored qs q answer b found accepted judged =
      let whole : judge f out config qs answer ≡ ok (scored f out config q answer) =
        judge_lem qs answer ∙ rw found (rw accepted refl) in
      cc

  -- An answer that scores has the right choice, and was given in the answer time of its question:
  -- until the question's validity time, and after the start of that time less a millisecond.
  pub scored_window :
      (t : ℕ) (qs : List Question) (q : Question) (answer b : PlayerAnswer)
      → config.valid_answer_time_out ≡ pos t
      → find_question answer.question_id qs ≡ some q
      → q.valid_answer_time - answer.answer_time < int_min_abs
      → judge f out config qs answer ≡ ok b
      → b.point ≢ pos 0
      → (str_eq answer.player_choice q.correct_answer ≡ true)
        × (answer.answer_time ≤ q.valid_answer_time)
        × (q.valid_answer_time < answer.answer_time + t + 1000000)
  scored_window t qs q answer b ttl found small judged scores =
      elim (Bool-cases (too_early f out config q answer)) [
        | inl early ↦ absurd (ground (arith, judge_lem qs answer))
        | inr accepted ↦
            let is_scored : b ≡ scored f out config q answer =
              judged_scored qs q answer b found accepted judged in
            let (right, in_time) =
              score_needs q answer
                (λ zero_point. scores (ap (λ a. a.point) is_scored ∙ zero_point)) in
            (right, in_time, too_early_window t q answer ttl small accepted)
      ]
