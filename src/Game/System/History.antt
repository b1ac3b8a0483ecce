-- ===== src/Game/System/History.antt =====
-- What stays as it is in the collections of services/game_app, whatever steps are made.
use mathlib.Core.List.{append_assoc}
use brain_blitz.Prelude.{
  String, ◌≡◌, refl, ap, ◌∙◌, inl, inr, Option-cases, Option, none, some, List, [], ◌∷◌, ◌++◌, map,
  push, str_eq, append_nil, arith, Bool-cases,
}
use brain_blitz.Game.Entity.{Time, Question, Game, PlayerAnswer}
use brain_blitz.Game.Score.{Floats}
use brain_blitz.Game.World.{World, Outside, Config, get_game_questions}
use brain_blitz.Game.Repository.Questions.{update_match}
use brain_blitz.Game.Repository.Answers.{find_answer, save_player_answer}
use brain_blitz.Game.Repository.Answers.Races.{insert_answer}
use brain_blitz.Game.Repository.Answers.Laws.{save_player_answer_cases}
use brain_blitz.Game.Service.Connections.{Front}
use brain_blitz.Game.System.{Reach}
use brain_blitz.Game.System.Frame.Steps.{Reach-keeps}

-- The first list is the beginning of the second.
abbrev pub Extends {ℓ} : {A : Type ℓ} → List A → List A → Type ℓ
Extends {A} xs ys = (rest : List A) × (ys ≡ xs ++ rest)

module _ {ℓ} {A : Type ℓ} where
  Extends-same : {xs ys : List A} → ys ≡ xs → Extends xs ys
  Extends-same {xs} e = ([], e ∙ append_nil xs)

  Extends-trans : (xs ys zs : List A) → Extends xs ys → Extends ys zs → Extends xs zs
  Extends-trans xs ys zs (rest, e) (more, h) =
      (rest ++ more, h ∙ ap (λ l. l ++ more) e ∙ append_assoc xs rest more)

-- All of a game but its questions and the time of its last change.
abbrev pub frozen : String × Game → String × Game
frozen (id, game) = (id, record game { question = none; updated_at = 0 })

map-push {ℓ κ} :
    {A : Type ℓ} {B : Type κ} (f : A → B) (xs : List A) (x : A)
    → map f (push xs x) ≡ map f xs ++ (f x ∷ [])
map-push f [] x = refl
map-push f (y ∷ xs) x = ap (◌∷◌ (f y)) (map-push f xs x)

map-update_match :
    (match_id : String) (questions : List Question) (now : Time) (games : List (String × Game))
    → map frozen (update_match match_id questions now games).0 ≡ map frozen games
unfolding update_match
map-update_match match_id questions now [] = refl
map-update_match match_id questions now ((id, game) ∷ games) =
    elim (Bool-cases (str_eq game.match_id match_id)) [
      | inl own ↦ rw own refl
      | inr other ↦
          rw other (ap (◌∷◌ (frozen (id, game))) (map-update_match match_id questions now games))
    ]

find_answer-append :
    (a stored : PlayerAnswer) (xs ys : List PlayerAnswer)
    → find_answer a xs ≡ some stored
    → find_answer a (xs ++ ys) ≡ some stored
unfolding find_answer
find_answer-append a stored [] ys h = absurd (ground arith)
find_answer-append a stored (x ∷ xs) ys h = ground (arith, find_answer-append a stored xs ys)

save_player_answer-games :
    (f : Floats) (config : Config) (out : Outside) (game_id : String) (given : PlayerAnswer)
    (w : World)
    → (save_player_answer f out config game_id given w).1.games ≡ w.games
unfolding save_player_answer get_game_questions
save_player_answer-games f config out game_id given w = ground arith

module _ (f : Floats) (config : Config) (out : Outside) (game_id : String) where
  insert_answer-Extends :
      (looked : PlayerAnswer × Option PlayerAnswer) (w : World)
      → Extends w.player_answers (insert_answer f out config game_id looked w).1.player_answers
  unfolding insert_answer
  insert_answer-Extends (answer, some stored) w = Extends-same refl
  insert_answer-Extends (answer, none) w = elim (Option-cases (out.fault w.tick)) [
    | inl good ↦ (answer ∷ [], ground (arith, good))
    | inr (e, bad) ↦ Extends-same (ground (arith, bad))
  ]

  insert_answer-games :
      (looked : PlayerAnswer × Option PlayerAnswer) (w : World)
      → (insert_answer f out config game_id looked w).1.games ≡ w.games
  unfolding insert_answer
  insert_answer-games (answer, stored) w = ground arith

module _ {Bytes : Type 0} (front : Front Bytes) (out : Outside) (f : Floats) (config : Config) where
  answers_extend :
      {v w : World} → Reach front out f config v w → Extends v.player_answers w.player_answers
  answers_extend =
      Reach-keeps {R = λ v w. Extends v.player_answers w.player_answers}
        (record {
          frame = record {
            aside = λ v w games answers. Extends-same answers;
            trans = λ u v w. Extends-trans u.player_answers v.player_answers w.player_answers;
          };
          inserts = λ w id stored. Extends-same refl;
          updates = λ w match_id questions now. Extends-same refl;
          answers = λ w game_id given.
              elim (save_player_answer_cases f config out game_id given w).1 [
                | inl (refused, kept) ↦ Extends-same kept
                | inr (done, (gq, b, found, judged, pushed)) ↦ (b ∷ [], pushed)
              ];
          insertions = λ w game_id looked. insert_answer-Extends f config out game_id looked w;
        })
        front

  -- Whatever steps the service makes and whichever of its calls fail, the first answer of a player
  -- to a question of a game stands: a lookup finds it for ever, as it was stored.
  pub first_answer_stands :
      {v w : World}
      → Reach front out f config v w
      → (given stored : PlayerAnswer) → find_answer given v.player_answers ≡ some stored
      → find_answer given w.player_answers ≡ some stored
  first_answer_stands {v} r given stored found =
      let (rest, e) = answers_extend r in
      ap (find_answer given) e ∙ find_answer-append given stored v.player_answers rest found

  -- Whatever steps the service makes and whichever of its calls fail, no game is lost, none changes
  -- its id, and of each only the questions and the time of its last change are ever written.
  pub games_extend :
      {v w : World}
      → Reach front out f config v w
      → Extends (map frozen v.games) (map frozen w.games)
  games_extend =
      Reach-keeps {R = λ v w. Extends (map frozen v.games) (map frozen w.games)}
        (record {
          frame = record {
            aside = λ v w games answers. Extends-same (ap (map frozen) games);
            trans = λ u v w.
                Extends-trans (map frozen u.games) (map frozen v.games) (map frozen w.games);
          };
          inserts = λ w id stored. (frozen (id, stored) ∷ [], map-push frozen w.games (id, stored));
          updates = λ w match_id questions now.
              Extends-same (map-update_match match_id questions now w.games);
          answers = λ w game_id given.
              Extends-same
                (ap (map frozen) (save_player_answer-games f config out game_id given w));
          insertions = λ w game_id looked.
              Extends-same (ap (map frozen) (insert_answer-games f config out game_id looked w));
        })
        front
