-- ===== src/Game/Repository/Answers/Laws.antt =====
-- What is stored of the answers.
use brain_blitz.Prelude.{
  ◌+◌, String, ◌≡◌, ◌≢◌, refl, ap, ◌∙◌, ◌⊎◌, inl, inr, true, none, some, List, [], ◌∷◌, push, arith,
  str_eq_refl, eq_iff, if◌then◌else◌, Option-cases,
}
use brain_blitz.Game.Entity.{Question, GameQuestions, PlayerAnswer}
use brain_blitz.Game.Score.{Floats}
use brain_blitz.Game.World.{
  World, Outside, Config, Result, Result-cases, ok, err, panic, get_game_questions,
}
use brain_blitz.Game.Repository.Ready.Laws.{IsReliable, eq_int_self}
use brain_blitz.Game.Repository.Answers.{same_key, find_answer, judge, save_player_answer}

-- The key of an answer does not change when it is scored.
same_key_self : (a : PlayerAnswer) → same_key a a ≡ true
same_key_self a =
    ground (arith, str_eq_refl a.game_id, str_eq_refl a.question_id, eq_int_self a.player_id)

pub find_answer-push :
    (a b : PlayerAnswer) (answers : List PlayerAnswer)
    → find_answer a answers ≡ none
    → find_answer a (push answers b) ≡ (if same_key b a then some b else none)
unfolding find_answer
find_answer-push a b [] absent = refl
find_answer-push a b (c ∷ answers) absent = ground (arith, find_answer-push a b answers)

-- No two stored answers are of one player to one question of one game.
abbrev pub AreDistinct : List PlayerAnswer → Type 0
AreDistinct [] = Unit
AreDistinct (a ∷ answers) = (find_answer a answers ≡ none) × AreDistinct answers

pub same_key_comm : (a b : PlayerAnswer) → same_key a b ≡ same_key b a
same_key_comm a b = ground (
  arith,
  eq_iff a.game_id b.game_id,
  eq_iff b.game_id a.game_id,
  eq_iff a.question_id b.question_id,
  eq_iff b.question_id a.question_id,
)

find_answer-none-push :
    (a b : PlayerAnswer) (answers : List PlayerAnswer)
    → find_answer b (a ∷ answers) ≡ none
    → find_answer a answers ≡ none
    → find_answer a (push answers b) ≡ none
unfolding find_answer
find_answer-none-push a b answers fresh absent =
    rw (find_answer-push a b answers absent, same_key_comm b a) (ground arith)

AreDistinct-push :
    (b : PlayerAnswer) (answers : List PlayerAnswer)
    → AreDistinct answers
    → find_answer b answers ≡ none
    → AreDistinct (push answers b)
unfolding find_answer
AreDistinct-push b [] h fresh = (refl, tt)
AreDistinct-push b (a ∷ answers) h fresh =
    (find_answer-none-push a b answers fresh h.0, AreDistinct-push b answers h.1 (ground arith))

-- Two answers of one player to one question of one game.
abbrev pub SameKey : PlayerAnswer → PlayerAnswer → Type 0
SameKey a b =
    (a.game_id ≡ b.game_id) × (a.player_id ≡ b.player_id) × (a.question_id ≡ b.question_id)

same_key_key : (c a b : PlayerAnswer) → SameKey a b → same_key c a ≡ same_key c b
same_key_key c a b (g, p, q) = cc

find_answer_key :
    (a b : PlayerAnswer) (answers : List PlayerAnswer)
    → SameKey a b
    → find_answer a answers ≡ find_answer b answers
unfolding find_answer
find_answer_key a b [] keys = refl
find_answer_key a b (c ∷ answers) keys =
    ap (λ found. if found then some c else find_answer a answers) (same_key_key c a b keys)
    ∙ ap (λ later. if same_key c b then some c else later) (find_answer_key a b answers keys)

module _ (f : Floats) (config : Config) (out : Outside) where
  judged_ok :
      (game_id : String) (answer : PlayerAnswer) (gq : GameQuestions) (w : World)
      → w.game_questions game_id ≡ some gq
      → ((b : PlayerAnswer) → judge f out config gq.questions answer ≢ ok b)
      → (save_player_answer f out config game_id answer w).0 ≢ ok tt
  unfolding save_player_answer get_game_questions
  judged_ok game_id answer gq w found refused stored =
      go (judge f out config gq.questions answer) refl
    where
      go : (r : Result PlayerAnswer) → judge f out config gq.questions answer ≡ r → ⊥
      go (ok b) e = refused b e
      go (err x) e = ground arith
      go panic e = ground arith

  save_player_answer_effect :
      (game_id : String) (answer : PlayerAnswer) (w : World)
      → let (r, w') = save_player_answer f out config game_id answer w in
        (w'.game_questions ≡ w.game_questions)
        × ((r ≢ ok tt) → w'.player_answers ≡ w.player_answers)
        × ((r ≡ ok tt)
            → (gq : GameQuestions) × (b : PlayerAnswer) × (w.game_questions game_id ≡ some gq)
              × (judge f out config gq.questions answer ≡ ok b)
              × (w'.player_answers ≡ push w.player_answers b))
  unfolding save_player_answer get_game_questions
  save_player_answer_effect game_id answer w = (
    ground arith,
    λ failed. ground arith,
    λ stored. elim (Option-cases (w.game_questions game_id)) [
      | inl missing ↦ absurd (ground arith)
      | inr (gq, found) ↦ elim (Result-cases (judge f out config gq.questions answer)) [
        | inl (b, judged) ↦ (gq, b, found, judged, ground arith)
        | inr refused ↦ absurd (judged_ok game_id answer gq w found refused stored)
      ]
    ],
  )

  -- A refused or failed call stores nothing. A call that succeeds stores one answer at the end, the
  -- one that the questions of the game judge right, whatever else of the calls failed. The
  -- questions stay as they are.
  pub save_player_answer_cases :
      (game_id : String) (answer : PlayerAnswer) (w : World)
      → let (r, w') = save_player_answer f out config game_id answer w in
        (w'.game_questions ≡ w.game_questions)
        × (((r ≢ ok tt) × (w'.player_answers ≡ w.player_answers))
            ⊎ ((r ≡ ok tt)
                × ((gq : GameQuestions) × (b : PlayerAnswer) × (w.game_questions game_id ≡ some gq)
                    × (judge f out config gq.questions answer ≡ ok b)
                    × (w'.player_answers ≡ push w.player_answers b))))
  save_player_answer_cases game_id answer w =
      let (same, kept, added) = save_player_answer_effect game_id answer w in
      elim (Result-cases (save_player_answer f out config game_id answer w).0) [
        | inl (_, done) ↦ (same, inr (done, added done))
        | inr failed ↦ (same, inl (failed tt, kept (failed tt)))
      ]

  refused_of_old :
      (reliable : IsReliable out) (game_id : String) (answer b stored : PlayerAnswer)
      (gq : GameQuestions) (w : World)
      → w.game_questions game_id ≡ some gq
      → judge f out config gq.questions answer ≡ ok b
      → find_answer b w.player_answers ≡ some stored
      → (save_player_answer f out config game_id answer w).0 ≢ ok tt
  unfolding save_player_answer get_game_questions
  refused_of_old reliable game_id answer b stored gq w found judged old done =
      ground (arith, reliable w.tick, reliable (w.tick + 1), reliable (w.tick + 1 + 1))

  fresh_of_ok :
      (reliable : IsReliable out) (game_id : String) (answer b : PlayerAnswer) (gq : GameQuestions)
      (w : World)
      → w.game_questions game_id ≡ some gq
      → judge f out config gq.questions answer ≡ ok b
      → (save_player_answer f out config game_id answer w).0 ≡ ok tt
      → find_answer b w.player_answers ≡ none
  fresh_of_ok reliable game_id answer b gq w found judged done =
      elim (Option-cases (find_answer b w.player_answers)) [
        | inl fresh ↦ fresh
        | inr (stored, old) ↦
            absurd (refused_of_old reliable game_id answer b stored gq w found judged old done)
      ]

  judge_key :
      (qs : List Question) (answer b : PlayerAnswer)
      → judge f out config qs answer ≡ ok b
      → SameKey b answer
  unfolding judge
  judge_key [] answer b e = ground arith
  judge_key (q ∷ qs) answer b e = ground (arith, judge_key qs answer b)

  -- While the calls succeed, a call that no other one interrupts stores no second answer of a player to
  -- a question of a game.
  pub save_player_answer-AreDistinct :
      (reliable : IsReliable out) (game_id : String) (answer : PlayerAnswer) (w : World)
      → AreDistinct w.player_answers
      → AreDistinct (save_player_answer f out config game_id answer w).1.player_answers
  save_player_answer-AreDistinct reliable game_id answer w distinct =
      let (_, kept, added) = save_player_answer_effect game_id answer w in
      elim (Result-cases (save_player_answer f out config game_id answer w).0) [
        | inr failed ↦ rw (kept (failed tt)) distinct
        | inl (_, done) ↦
            let (gq, b, found, judged, pushed) = added done in
            rw pushed (
              AreDistinct-push b w.player_answers distinct
                (fresh_of_ok reliable game_id answer b gq w found judged done))
      ]

  -- While the calls succeed, a player who has an answer to a question of a game in the store gets
  -- an error for every further one, and the store keeps what it had.
  pub save_player_answer_again :
      (reliable : IsReliable out) (game_id : String) (answer stored : PlayerAnswer) (w : World)
      → find_answer answer w.player_answers ≡ some stored
      → let (r, w') = save_player_answer f out config game_id answer w in
        (r ≢ ok tt) × (w'.player_answers ≡ w.player_answers)
  save_player_answer_again reliable game_id answer stored w old =
      let (_, kept, added) = save_player_answer_effect game_id answer w in
      let refused : (save_player_answer f out config game_id answer w).0 ≢ ok tt = λ done.
        let (gq, b, found, judged, _) = added done in
        refused_of_old reliable game_id answer b stored gq w found judged
          (find_answer_key b answer w.player_answers (judge_key gq.questions answer b judged) ∙ old)
          done in
      (refused, kept refused)
