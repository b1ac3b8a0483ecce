-- ===== src/Tests/Systems.antt =====
-- Steps of the whole game service at concrete inputs.
use brain_blitz.Prelude.{arith, true, any, false, ◌≡◌, refl, none, some, List, [], ◌∷◌, map}
use brain_blitz.Prelude.Int.{ℤ, pos}
use brain_blitz.Game.Repository.Ready.{eq_int}
use brain_blitz.Contract.{MatchedUsersMsg}
use brain_blitz.Game.Messages.{answer}
use brain_blitz.Game.World.{World, ok, panic, save_game_status}
use brain_blitz.Game.Repository.Answers.{find_answer, judge, scored, same_key}
use brain_blitz.Game.Time.{sub}
use brain_blitz.Game.Entity.{PlayerAnswer}
use brain_blitz.Game.Repository.Answers.Races.{
  look_up, insert_answer, overlapping_answers_both_stored,
}
use brain_blitz.Game.Repository.Answers.Laws.{AreDistinct}
use brain_blitz.Game.Repository.Ready.Laws.{IsReliable, ready_record}
use brain_blitz.Game.Interleaving.{Caller, first, second, other, begun, returned, run_turns}
use brain_blitz.Game.Repository.Ready.Races.{read_ready, finish_ready, overlapping_ready_loses_one}
use brain_blitz.Game.Service.Connections.{Front}
use brain_blitz.Game.Service.Matches.{consume_match_created}
use brain_blitz.Game.Service.Reader.{read_message, on_ready}
use brain_blitz.Game.System.{run_task, Reach, here, next, consumes_matches, reads}
use brain_blitz.Game.System.History.{Extends, frozen, first_answer_stands, games_extend}
use brain_blitz.Game.System.Starts.{record_after_ready_panics}
use brain_blitz.Tests.Numbers.{fixed}
use brain_blitz.Tests.Fixtures.{
  questions, first_question, steady, config, front, right_answer, waiting_world, empty_world,
}

steady-IsReliable : IsReliable steady
steady-IsReliable n = refl

-- Every text is an answer to the question that player 7 has answered.
abbrev answering : Front (List MatchedUsersMsg)
answering = record front {
  decode_request = λ s. some (record {
    command = answer;
    category = "";
    game_id = "game";
    match_id = "";
    number_of_players = pos 0;
    game_answer = record { game_id = "game"; question_id = "q1"; answer = s };
  });
}

abbrev answered : World
answered = record waiting_world { player_answers = right_answer ∷ [] }

abbrev new_match : MatchedUsersMsg
new_match = record { match_id = "match"; category = "TECH" ∷ []; user_id = 7 ∷ 8 ∷ [] }

abbrev after_answer : World
after_answer = (read_message answering steady fixed config 7 70 "3" answered).1

abbrev after_match : World
after_match = (consume_match_created answering steady (new_match ∷ []) after_answer).1

run : Reach answering steady fixed config answered after_match
run = next (next here (reads 7 70 "3")) (consumes_matches (new_match ∷ []))

first_answer_stands_example :
    find_answer right_answer after_match.player_answers ≡ some right_answer
unfolding find_answer
first_answer_stands_example =
    first_answer_stands answering steady fixed config run right_answer right_answer refl

games_extend_example : Extends (map frozen answered.games) (map frozen after_match.games)
games_extend_example = games_extend answering steady fixed config run

record_after_ready_panics_example :
    (run_task front steady fixed config
      (save_game_status "game" none (some 2))
      (on_ready front steady fixed config 8 80 "game"
        (on_ready front steady fixed config 7 70 "game" empty_world).1).1).0
    ≡ panic
record_after_ready_panics_example =
    record_after_ready_panics front steady fixed config steady-IsReliable 7 8 70 80 2 "game"
      empty_world refl

abbrev player_of : Caller → ℤ
player_of first = pos 1
player_of second = pos 2

no_player_yet : (c : Caller) → any (λ id. eq_int id (player_of c)) [] ≡ false
no_player_yet c = refl

they_differ : (c : Caller) → eq_int (player_of c) (player_of (other c)) ≡ false
they_differ first = refl
they_differ second = refl

-- Players 1 and 2 of a game for two are ready at the same time.
overlapping_ready_loses_one_example :
    let race =
      run_turns
        (λ c. read_ready steady "game")
        (λ c. finish_ready steady "game" (some (player_of c)) none)
        (first ∷ second ∷ first ∷ second ∷ [])
        (record {
          world = record empty_world { game_status = λ id. some (ready_record 2 []) };
          phase = λ c. begun;
        }) in
    (race.world.game_status "game" ≡ some (ready_record 2 (pos 2 ∷ [])))
    × (any (λ id. eq_int id (pos 1)) (pos 2 ∷ []) ≡ false)
    × ((c : Caller) → race.phase c ≡ returned (ok false))
overlapping_ready_loses_one_example =
    overlapping_ready_loses_one steady "game" steady-IsReliable player_of 2 [] first second
      (record empty_world { game_status = λ id. some (ready_record 2 []) }) refl (omega arith)
      no_player_yet they_differ

-- Player 7 answers the question on two connections at the same time, differently.
abbrev two_answers : Caller → PlayerAnswer
two_answers first = right_answer
two_answers second = record right_answer { player_choice = "3" }

abbrev two_scored : Caller → PlayerAnswer
two_scored c = scored fixed steady config first_question (two_answers c)

two_in_time :
    (c : Caller) → judge fixed steady config questions.questions (two_answers c) ≡ ok (two_scored c)
unfolding judge sub
two_in_time first = refl
two_in_time second = refl

two_same_key : (c : Caller) → same_key (two_scored c) (two_scored (other c)) ≡ true
two_same_key first = refl
two_same_key second = refl

overlapping_answers_both_stored_example :
    let race =
      run_turns
        (λ c. look_up fixed steady config "game" (two_answers c))
        (λ c. insert_answer fixed steady config "game")
        (first ∷ second ∷ second ∷ first ∷ [])
        (record { world = waiting_world; phase = λ c. begun }) in
    (race.world.player_answers ≡ two_scored second ∷ two_scored first ∷ [])
    × ((c : Caller) → race.phase c ≡ returned (ok tt))
    × (¬ AreDistinct race.world.player_answers)
unfolding find_answer
overlapping_answers_both_stored_example =
    overlapping_answers_both_stored fixed steady config "game" steady-IsReliable two_answers
      two_scored questions first first waiting_world refl two_in_time (λ c. refl) two_same_key
