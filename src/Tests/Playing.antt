-- ===== src/Tests/Playing.antt =====
-- The repository of the games at concrete inputs.
use mathlib.Core.List.{Perm}
use mathlib.Core.List.Perm
use brain_blitz.Prelude.{
  ℕ, ◌+◌, ◌*◌, ◌≤◌, ◌<◌, ◌≡◌, ◌≢◌, ◌⊎◌, refl, true, false, none, some, List, [], ◌∷◌, get_elem?,
  arith, str_eq,
}
use brain_blitz.Prelude.Int.{pos, add_int, ◌≤ℤ◌}
use mathlib.Core.Option
use brain_blitz.Game.Entity.{GameQuestions, Game, PlayerAnswer, PlayerPoint}
use brain_blitz.Game.Score.{bonus_of, calculate_score}
use brain_blitz.Game.Time.{sub}
use brain_blitz.Game.Score.Laws.{IsScoreConfig, calculate_score_range, calculate_score_mono}
use brain_blitz.Game.World.{World, ok}
use brain_blitz.Game.Repository.Ready.Laws.{IsReliable, ready_all, ready_all_lem, ready_record}
use brain_blitz.Game.Repository.Questions.{
  find_match, set_valid_answer_time_for_questions, create_game, save_questions_by_match_id,
  game_questions_of,
}
use brain_blitz.Game.Repository.Questions.Laws.{stamped, set_valid_answer_time_for_questions_lem}
use brain_blitz.Game.Repository.Questions.Orders.{game_gets_questions, only_game_first_caches}
use brain_blitz.Game.Repository.Answers.{judge, scored, save_player_answer}
use brain_blitz.Game.Repository.Answers.Laws.{save_player_answer_cases}
use brain_blitz.Game.Repository.Answers.Judging.{scored_window}
use brain_blitz.Game.Repository.LeaderBoards.{player_points}
use brain_blitz.Game.Repository.LeaderBoards.Laws.{scored_by, leader_board_points}
use brain_blitz.Tests.Numbers.{fixed, fixed-IsFloat64}
use brain_blitz.Tests.Fixtures.{
  second, steady, config, questions, first_question, right_answer, new_game, empty_world,
  waiting_world,
}

steady-IsReliable : IsReliable steady
steady-IsReliable n = refl

score_config-IsScoreConfig : IsScoreConfig config.score_config 10 5
score_config-IsScoreConfig = record { base_is = refl; max_is = refl; exact = omega arith }

calculate_score_range_example :
    let score = calculate_score fixed config.score_config true (1005 * second) (1010 * second) in
    (calculate_score fixed config.score_config false (1005 * second) (1010 * second) ≡ pos 0)
    × (pos 10 ≤ℤ score)
    × (score ≤ℤ pos 15)
calculate_score_range_example =
    calculate_score_range fixed fixed-IsFloat64 config.score_config 10 5 score_config-IsScoreConfig
      (1005 * second) (1010 * second) (omega arith) (omega arith)

calculate_score_mono_example :
    calculate_score fixed config.score_config true (1009 * second) (1010 * second)
    ≤ℤ calculate_score fixed config.score_config true (1002 * second) (1010 * second)
calculate_score_mono_example =
    calculate_score_mono fixed fixed-IsFloat64 config.score_config 10 5 score_config-IsScoreConfig
      (1002 * second) (1009 * second) (1010 * second) (omega arith) (omega arith) (omega arith)

-- The second of two players makes the game ready.
ready_all_lem_example :
    ((ready_all steady "game" (pos 8 ∷ []) waiting_world).0 ≡ ok true ∷ [])
    × ((ready_all steady "game" (pos 8 ∷ []) waiting_world).1.game_status "game"
        ≡ some (ready_record 2 (pos 7 ∷ pos 8 ∷ [])))
ready_all_lem_example =
    ready_all_lem steady steady-IsReliable "game" 2 (pos 8 ∷ []) (pos 7 ∷ []) waiting_world refl
      (refl, tt) (omega arith)

save_player_answer_cases_example :
    let (r, w') = save_player_answer fixed steady config "game" right_answer waiting_world in
    (w'.game_questions ≡ waiting_world.game_questions)
    × (((r ≢ ok tt) × (w'.player_answers ≡ []))
        ⊎ ((r ≡ ok tt)
            × ((gq : GameQuestions) × (b : PlayerAnswer) × (waiting_world.game_questions "game"
                  ≡ some gq)
                × (judge fixed steady config gq.questions right_answer ≡ ok b)
                × (w'.player_answers ≡ b ∷ []))))
save_player_answer_cases_example =
    save_player_answer_cases fixed config steady "game" right_answer waiting_world

abbrev answered_world : World
answered_world = record waiting_world { player_answers = right_answer ∷ [] }

-- Five of the ten seconds of the bonus are left: half of the bonus, rounded down.
scored_window_example :
    (str_eq "4" "4" ≡ true)
    × (1005 * second ≤ 1010 * second)
    × (1010 * second < 1005 * second + 15 * second + 1000000)
unfolding judge calculate_score sub bonus_of add_int
scored_window_example =
    scored_window fixed config steady (15 * second) questions.questions first_question right_answer
      (scored fixed steady config first_question right_answer) refl refl (omega arith) refl
      (λ e. cc)

set_valid_answer_time_for_questions_lem_example :
    let (r, w') = set_valid_answer_time_for_questions steady config "game" waiting_world in
    (gq' : GameQuestions) × (r ≡ ok (pos (45 * second)))
    × (w'.game_questions "game" ≡ some gq')
    × (gq'.players ≡ 7 ∷ 8 ∷ [])
    × ((j : ℕ)
        → get_elem? gq'.questions j
          ≡ Option.map
              (λ q. stamped q (steady.now (waiting_world.tick + 1 + j) + 15 * second * (j + 1)))
              (get_elem? questions.questions j))
set_valid_answer_time_for_questions_lem_example =
    set_valid_answer_time_for_questions_lem steady config (15 * second) refl steady-IsReliable
      "game" questions waiting_world refl (omega arith)

game_gets_questions_example :
    let qs = questions.questions in
    let questions_first =
      (create_game steady new_game
        (save_questions_by_match_id steady "match" qs empty_world).1).1 in
    let game_first =
      (save_questions_by_match_id steady "match" qs
        (create_game steady new_game empty_world).1).1 in
    ((g : Game) × (find_match "match" questions_first.games ≡ some ("game", g))
      × (g.question ≡ some qs))
    × ((g : Game) × (find_match "match" game_first.games ≡ some ("game", g))
        × (g.question ≡ some qs))
unfolding find_match
game_gets_questions_example =
    game_gets_questions steady steady-IsReliable questions.questions new_game empty_world refl

only_game_first_caches_example :
    let qs = questions.questions in
    ((create_game steady new_game
          (save_questions_by_match_id steady "match" qs empty_world).1).1.game_questions
        "game"
      ≡ none)
    × ((save_questions_by_match_id steady "match" qs
            (create_game steady new_game empty_world).1).1.game_questions
          "game"
        ≡ some (game_questions_of qs (7 ∷ 8 ∷ [])))
unfolding find_match
only_game_first_caches_example =
    only_game_first_caches steady steady-IsReliable questions.questions new_game empty_world refl
      (λ e. cc) (λ e. cc)

abbrev answers : List PlayerAnswer
answers =
    record right_answer { point = pos 12 }
    ∷ record right_answer { player_id = pos 8; point = pos 15 }
    ∷ record right_answer { question_id = "q2"; point = pos 10 }
    ∷ []

as_it_is : (l : List PlayerPoint) → Perm l l
as_it_is l = Perm.refl l

leader_board_points_example :
    scored_by (pos 7) (player_points (λ l. l) answers (7 ∷ 8 ∷ 9 ∷ [])) ≡ 22
leader_board_points_example =
    leader_board_points (λ l. l) as_it_is answers (7 ∷ 8 ∷ 9 ∷ []) (refl, (refl, (refl, tt)))
      (omega arith) (pos 7)
