-- ===== src/Game/Repository/Answers.antt =====
-- `SavePlayerAnswer` of services/game_app/repository/game.go.
pub mod Laws
pub mod Judging
pub mod Races
use brain_blitz.Prelude.{
  ℕ, String, Bool, true, false, ◌&&◌, Option, none, some, List, [], ◌∷◌, str_eq, if◌then◌else◌,
  push,
}
use brain_blitz.Prelude.Int.{ℤ, pos, ltb_ℤ}
use brain_blitz.Errors.{
  GoError, app, text, new, wrap, err_internal, status_bad_request, codes_invalid_argument,
}
use brain_blitz.Game.Entity.{Time, Duration, Question, GameQuestions, PlayerAnswer}
use brain_blitz.Game.Time.{sub, milliseconds}
use brain_blitz.Game.Score.{Floats, calculate_score}
use brain_blitz.Game.World.{
  World, Outside, Config, Result, Action, ok, err, panic, pure, raise, gets, attempt, ◌>>=◌, ◌>>◌,
  modify, call, get_game_questions,
}
use brain_blitz.Game.Repository.Ready.{eq_int}

unfoldable pub invalid_answer : GoError
invalid_answer = app (
    new "game.SavePlayerAnswer" "INVALID_ANSWER" "answered to question quickly" status_bad_request
      codes_invalid_argument)

-- The documents that the lookup before the insertion asks for.
abbrev pub same_key : PlayerAnswer → PlayerAnswer → Bool
same_key stored answer =
    (str_eq stored.game_id answer.game_id && eq_int stored.player_id answer.player_id)
    && str_eq stored.question_id answer.question_id

-- FindOne: of several documents the oldest one here; the method only asks whether there is one.
unfoldable pub find_answer : PlayerAnswer → List PlayerAnswer → Option PlayerAnswer
find_answer answer [] = none
find_answer answer (stored ∷ rest) =
    if same_key stored answer then some stored else find_answer answer rest

module _ (f : Floats) (out : Outside) (config : Config) where
  -- `time.Duration(d.Seconds())`: the number of seconds, as that many nanoseconds.
  abbrev pub time_diff_of : Question → PlayerAnswer → Duration
  time_diff_of question answer =
      f.trunc (f.seconds (sub question.valid_answer_time answer.answer_time))

  -- The answer is earlier than the time that is allowed for the question.
  abbrev pub too_early : Question → PlayerAnswer → Bool
  too_early question answer =
      ltb_ℤ (milliseconds config.valid_answer_time_out)
        (milliseconds (sub question.valid_answer_time answer.answer_time))

  abbrev pub scored : Question → PlayerAnswer → PlayerAnswer
  scored question answer = record answer {
    correct_choice = question.correct_answer;
    options = question.choices;
    category = question.category;
    valid_time_to_answer = question.valid_answer_time;
    time_diff = time_diff_of question answer;
    point =
        calculate_score f config.score_config (str_eq answer.player_choice question.correct_answer)
          answer.answer_time question.valid_answer_time;
  }

  -- The loop over the questions: the first one with the answer's id decides.
  unfoldable pub judge : List Question → PlayerAnswer → Result PlayerAnswer
  unfolding invalid_answer
  judge [] answer = ok answer
  judge (question ∷ questions) answer =
      let later = judge questions answer in
      if str_eq answer.question_id question.id
      then (if too_early question answer then err invalid_answer else ok (scored question answer))
      else later

  abbrev pub lift : {A : Type 0} → Result A → Action A
  lift r w = (r, w)

  -- `gameId` is the answer's own game in the only call. An answer that is not found leaves the
  -- zero value, whose player id is the empty text, which no player has; so does a lookup that fails.
  unfoldable pub save_player_answer : String → PlayerAnswer → Action (Unit {0})
  unfolding get_game_questions
  save_player_answer game_id player_answer = do
    gq ← get_game_questions out game_id
    answer ← lift (judge gq.questions player_answer)
    looked ← attempt (call out)
    stored ← gets (λ w. elim looked [ none ↦ none | some _ ↦ find_answer answer w.player_answers ])
    elim stored [
      | some _ ↦ raise (text "player already answered this question")
      | none ↦ do
        inserted ← attempt (call out)
        elim inserted [
          | none ↦ raise (app (wrap "game.SavePlayerAnswer" none err_internal))
          | some _ ↦ modify (λ w. record w { player_answers = push w.player_answers answer })
        ]
    ]
