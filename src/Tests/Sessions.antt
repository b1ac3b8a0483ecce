-- ===== src/Tests/Sessions.antt =====
-- The service of the games at concrete inputs.
use brain_blitz.Prelude.{String, ◌++◌, map, ◌≡◌, refl, true, false, some, List, [], ◌∷◌}
use brain_blitz.Prelude.Int.{pos}
use brain_blitz.Game.Entity
use brain_blitz.Game.Entity.{
  Game, initialized, map_to_category, map_waiting_list_request_to_proto_message,
}
use brain_blitz.Game.Messages.{
  Payload, message_payload, ProcessGamePlayerPoint, response, completed,
}
use brain_blitz.Game.World.{ok, save_user_status}
use brain_blitz.Contract.{game_v1_join_match_queue_requested}
use brain_blitz.Game.Repository.Ready.Laws.{IsReliable}
use brain_blitz.Game.Repository.Questions.{stamp_questions}
use brain_blitz.Game.Service.Answers.{questions_message}
use brain_blitz.Game.Service.Matches.{consume_match_created}
use brain_blitz.Game.Service.Matches.Laws.{stored, about_game, IsPicked}
use brain_blitz.Game.Service.Matches.Announcements.{
  announcements, status_tasks, consume_match_created_announces,
}
use brain_blitz.Contract.{MatchedUsersMsg}
use brain_blitz.Game.Service.Completion.{deliver}
use brain_blitz.Game.Service.Completion.Laws.{deliver_lem, without}
use brain_blitz.Game.Service.Reader.{serve, on_ready, on_add_to_waiting_list}
use brain_blitz.Game.Service.Reader.Laws.{IsOver, serve_cleans_up}
use brain_blitz.Game.Service.Reader.Commands.{join_replies, join_always_succeeds}
use brain_blitz.Game.Service.Reader.Start.{to_all, last_ready_starts}
use brain_blitz.Tests.Numbers.{fixed}
use brain_blitz.Tests.Fixtures.{steady, config, questions, empty_world, waiting_world, front}

abbrev game_over : Payload
game_over = message_payload (response true completed "game completed" "game")

abbrev entries : List ProcessGamePlayerPoint
entries =
    record { player_id = pos 8; point = pos 15; answers = [] }
    ∷ record { player_id = pos 7; point = pos 12; answers = [] }
    ∷ []

deliver_lem_example :
    let (r, w') = deliver front game_over entries waiting_world in
    (r ≡ ok tt)
    × (w'.sent ≡ (some 80, game_over) ∷ (some 70, game_over) ∷ [])
    × (w'.closed ≡ 80 ∷ 70 ∷ [])
    × (w'.connections ≡ without ((8, 80) ∷ (7, 70) ∷ []) waiting_world.connections)
deliver_lem_example =
    deliver_lem front (λ c n. refl) game_over entries ((8, 80) ∷ (7, 70) ∷ [])
      (refl, refl, (refl, refl, tt)) waiting_world (refl, (refl, tt), (refl, tt, tt))

abbrev matched : List MatchedUsersMsg
matched = record { match_id = "match"; category = "TECH" ∷ []; user_id = 7 ∷ 8 ∷ [] } ∷ []

consume_match_created_announces_example :
    let (r, w') = consume_match_created front steady matched waiting_world in
    (new : List (String × Game)) × (r ≡ ok tt)
    × (w'.games ≡ waiting_world.games ++ new)
    × IsPicked (map about_game new) ((7 ∷ 8 ∷ [], "match") ∷ [])
    × (w'.sent ≡ waiting_world.sent ++ announcements waiting_world.connections (map stored new))
    × (w'.tasks ≡ waiting_world.tasks ++ status_tasks (map stored new))
unfolding Entity.map_from_proto_message_to_entity
consume_match_created_announces_example =
    consume_match_created_announces front steady (λ c n. refl) matched matched waiting_world refl

serve_cleans_up_example :
    IsOver 7 70 (serve front steady fixed config 7 70 ("not JSON" ∷ []) waiting_world)
serve_cleans_up_example =
    serve_cleans_up front steady fixed config 7 70 ("not JSON" ∷ []) waiting_world

-- A category that does not exist is refused, joined, and reported as joined.
join_always_succeeds_example :
    let request = map_waiting_list_request_to_proto_message 7 "CHESS" in
    let (r, w') = on_add_to_waiting_list front steady fixed config 7 70 "CHESS" empty_world in
    (r ≡ ok tt)
    × (w'.sent ≡ join_replies 70 true false)
    × (w'.published ≡ (game_v1_join_match_queue_requested, some request) ∷ [])
    × (w'.tasks ≡ save_user_status 7 initialized ∷ [])
unfolding map_to_category
join_always_succeeds_example =
    join_always_succeeds front steady fixed config (λ c n. refl) 7 70 "CHESS" empty_world

steady_calls : IsReliable steady
steady_calls n = refl

last_ready_starts_example :
    let (stamped, total) = stamp_questions steady config 0 questions.questions (pos 0) 3 in
    let (r, w') = on_ready front steady fixed config 8 80 "game" waiting_world in
    (r ≡ ok tt)
    × (w'.sent ≡ to_all (message_payload (questions_message "game" stamped)) (70 ∷ 80 ∷ []))
    × (w'.scheduled ≡ ("game:completed", "game", total) ∷ [])
last_ready_starts_example =
    last_ready_starts front steady fixed config steady_calls (λ c n. refl) 8 80 "game"
      (record { expected_number_of_players = 2; players = pos 7 ∷ [] }) questions (70 ∷ 80 ∷ [])
      waiting_world refl refl refl refl (refl, (refl, tt))
