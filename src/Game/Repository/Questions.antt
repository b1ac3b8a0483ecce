-- ===== src/Game/Repository/Questions.antt =====
-- The methods of services/game_app/repository/game.go on games and on their questions.
-- A JSON encoding never fails on these values; the logging is left out, but for the call of
-- `Error` on a nil error, which panics.
pub mod Laws
pub mod Orders
use brain_blitz.Prelude.{
  ℕ, suc, ◌+◌, ◌<◌, String, Bool, true, false, Option, none, some, List, [], ◌∷◌, ◌++◌, str_eq,
  if◌then◌else◌, push, length, get_elem?, set,
}
use brain_blitz.Prelude.Int.{ℤ, pos, add_int}
use brain_blitz.Errors.{GoError, app, text, wrap, err_internal}
use brain_blitz.Game.Entity.{Time, Duration, Question, GameQuestions, Game}
use brain_blitz.Game.Time.{add, times}
use brain_blitz.Game.World.{
  World, Outside, Config, Result, Action, Task, cache_game_questions, ok, err, panic, pure, raise,
  crash, gets, attempt, or_raise, ◌>>=◌, ◌>>◌, modify, spawn, call, time_now, get_game_questions,
  set_game_questions,
}

abbrev pub with_question : Game → Option (List Question) → Game
with_question game question = record game { question = question }

-- The first document that has the key.
unfoldable pub find_game : String → List (String × Game) → Option Game
find_game id [] = none
find_game id ((j, game) ∷ games) = if str_eq j id then some game else find_game id games

unfoldable pub find_match : String → List (String × Game) → Option (String × Game)
find_match match_id [] = none
find_match match_id ((j, game) ∷ games) =
    if str_eq game.match_id match_id then some (j, game) else find_match match_id games

-- `UpdateOne`: the questions of the first game of the match, and whether there was one.
unfoldable pub update_match :
    String → List Question → Time → List (String × Game) → List (String × Game) × Bool
update_match match_id questions now [] = ([], false)
update_match match_id questions now ((j, game) ∷ games) =
    let (rest, matched) = update_match match_id questions now games in
    if str_eq game.match_id match_id
    then ((j, record game { question = some questions; updated_at = now }) ∷ games, true)
    else ((j, game) ∷ rest, matched)

-- `primitive.ObjectID{}.Hex()`
abbrev pub zero_object_id : String
zero_object_id = "000000000000000000000000"

-- What is left in `selectResult`.
abbrev pub selected : Option (Option (String × Game)) → String × List ℕ
selected (some (some (id, game))) = (id, game.players)
selected (some none) = (zero_object_id, [])
selected none = (zero_object_id, [])

abbrev pub game_questions_of : List Question → List ℕ → GameQuestions
game_questions_of questions players = record {
  questions = questions;
  players = players;
  current_question_index = 0;
}

-- `Questions[i].ValidAnswerTime = t`, which panics where there is no such question.
unfoldable pub set_valid_answer_time : List Question → ℕ → Time → Option (List Question)
set_valid_answer_time questions i t = elim (get_elem? questions i) [
  | none ↦ none
  | some q ↦ some (set questions i (record q { valid_answer_time = t }))
]

module _ (out : Outside) where
  -- `InsertOne` of `CreateGame`, and the id of the game.
  unfoldable pub insert_game : Game → Action String
  insert_game stored = do
    inserted ← attempt (call out)
    elim inserted [
      | none ↦ raise (app (wrap "game.CreateGame" none err_internal))
      | some _ ↦ do
        id ← gets (λ w. out.object_id_hex (length w.games))
        modify (λ w. record w { games = push w.games (id, stored) })
        pure id
    ]

  unfoldable pub create_game : Game → Action String
  unfolding get_game_questions insert_game
  create_game game = do
    questions ← attempt (get_game_questions out game.match_id)
    insert_game
        (with_question game (elim questions [ none ↦ game.question | some gq ↦ some gq.questions ]))

  unfoldable pub get_game : String → Action Game
  unfolding find_game
  get_game game_id = elim (out.object_id_from_hex game_id) [
    | some e ↦ raise e
    | none ↦ do
      call out
      game ←
          or_raise (← gets (λ w. find_game game_id w.games)) (text "mongo: no documents in result")
      spawn (cache_game_questions game_id game)
      pure game
  ]

  -- The goroutine that `GetGame` starts: it reads `*game.Question`.
  unfoldable pub run_cache_game_questions : String → Game → Action (Unit {0})
  unfolding set_game_questions
  run_cache_game_questions game_id game = elim game.question [
    | none ↦ crash
    | some questions ↦ do
      attempt (set_game_questions out game_id (game_questions_of questions game.players))
      pure tt
  ]

  -- The write of the update, and what is done where it does not reach a game. The third branch
  -- logs `err.Error()` of the outer error, which is nil there.
  unfoldable pub store_questions : String → List Question → Action (Unit {0})
  unfolding set_game_questions
  store_questions match_id questions = do
    now ← time_now out
    updated ← attempt (call out)
    elim updated [
      | none ↦ do
        attempt (set_game_questions out match_id (game_questions_of questions []))
        pure tt
      | some _ ↦ do
        matched ← gets (λ w. (update_match match_id questions now w.games).1)
        modify (λ w. record w { games = (update_match match_id questions now w.games).0 })
        if matched then pure tt else do
          saved ← attempt (set_game_questions out match_id (game_questions_of questions []))
          elim saved [ none ↦ crash | some _ ↦ pure tt ]
    ]

  unfoldable pub save_questions_by_match_id : String → List Question → Action (Unit {0})
  unfolding store_questions set_game_questions
  save_questions_by_match_id match_id questions = do
    store_questions match_id questions
    found ← attempt (call out >> gets (λ w. find_match match_id w.games))
    let (id, players) = selected found
    set_game_questions out id (game_questions_of questions players)

module _ (out : Outside) (config : Config) where
  unfoldable pub increase_game_question_current_index : String → Action (Unit {0})
  unfolding get_game_questions set_game_questions set_valid_answer_time
  increase_game_question_current_index game_id = do
    gq ← get_game_questions out game_id
    now ← time_now out
    elim (set_valid_answer_time gq.questions gq.current_question_index
        (add now config.valid_answer_time_out)) [
          | none ↦ crash
          | some questions ↦ set_game_questions out game_id (record gq {
            questions = questions;
            current_question_index = suc gq.current_question_index;
          })
        ]

  -- The loop over the questions from index `i` on, with a reading of the clock for each.
  unfoldable pub stamp_questions : ℕ → List Question → Duration → ℕ → List Question × Duration
  stamp_questions i [] final_ttl tick = ([], final_ttl)
  stamp_questions i (q ∷ qs) final_ttl tick =
      let ttl = times config.valid_answer_time_out (i + 1) in
      let (rest, total) = stamp_questions (suc i) qs (add_int final_ttl ttl) (tick + 1) in
      (record q { valid_answer_time = add (out.now tick) ttl } ∷ rest, total)

  unfoldable pub set_valid_answer_time_for_questions : String → Action Duration
  unfolding get_game_questions set_game_questions
  set_valid_answer_time_for_questions game_id = do
    gq ← get_game_questions out game_id
    tick ← gets (λ w. w.tick)
    let (questions, final_ttl) = stamp_questions 0 gq.questions (pos 0) tick
    modify (λ w. record w { tick = w.tick + length gq.questions })
    set_game_questions out game_id (record gq { questions = questions })
    pure final_ttl
