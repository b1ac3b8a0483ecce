-- ===== src/Game/Service/Matches/Announcements.antt =====
-- What ConsumeMatchCreated of services/game_app/service/match_consumer.go makes known.
use mathlib.Core.List.{append_assoc}
use brain_blitz.Prelude.{
  ℕ, ◌+◌, String, ◌≡◌, sym, ◌∙◌, ap, inl, inr, true, Option, none, some, List, [], ◌∷◌, ◌++◌, arith,
  push, push-append, append_nil, length, map, Option-cases,
}
use brain_blitz.Errors.{text}
use brain_blitz.Game.Entity.{
  map_from_proto_message_to_entity, Game, MatchedUsers, GameStatus, pending,
}
use brain_blitz.Game.Messages.{
  Payload, ProcessGameMessageResponse, message_payload, response, match_created,
}
use brain_blitz.Game.World.{
  World, Outside, Task, ok, err, attempt, ◌>>=◌, ◌>>◌, save_user_status, save_game_status,
}
use brain_blitz.Game.Service.Connections.{
  Front, write_message, write_server_data, save_users_game_status,
}
use brain_blitz.Contract.{MatchedUsersMsg}
use brain_blitz.Game.Service.Matches.Laws.{
  announced, stored, about_game, about_match, IsPicked, create_games_lem,
}
use brain_blitz.Game.Service.Matches.{create_games, announce_matches, consume_match_created}

-- The connections of the users before the first one who has none.
abbrev pub reached : (ℕ → Option ℕ) → List ℕ → List ℕ
reached connections [] = []
reached connections (id ∷ ids) =
    let rest = reached connections ids in
    elim (connections id) [ none ↦ [] | some conn ↦ conn ∷ rest ]

abbrev pub to_each : Payload → List ℕ → List (Option ℕ × Payload)
to_each payload [] = []
to_each payload (conn ∷ conns) = (some conn, payload) ∷ to_each payload conns

abbrev pub announcement : String → Payload
announcement game_id = message_payload (response true match_created "match created" game_id)

-- The messages to the players of these games, and the goroutines that are started for them.
abbrev pub announcements :
    (ℕ → Option ℕ) → List (String × List ℕ × String) → List (Option ℕ × Payload)
announcements connections [] = []
announcements connections ((id, players, match_id) ∷ games) =
    to_each (announcement id) (reached connections players) ++ announcements connections games

abbrev pub status_tasks : List (String × List ℕ × String) → List Task
status_tasks [] = []
status_tasks ((id, players, match_id) ∷ games) =
    map (λ player. save_user_status player pending) players
    ++ (save_game_status id none (some (length players)) ∷ status_tasks games)

-- A world that differs in what was sent, in the tasks and in the number of calls.
abbrev heard : World → List (Option ℕ × Payload) → List Task → ℕ → World
heard w sent tasks tick = record w { sent = sent; tasks = tasks; tick = tick }

reached-none :
    (connections : ℕ → Option ℕ) (id : ℕ) (ids : List ℕ)
    → connections id ≡ none
    → reached connections (id ∷ ids) ≡ []
reached-none connections id ids offline = ground (arith, offline)

reached-some :
    (connections : ℕ → Option ℕ) (id c : ℕ) (ids : List ℕ)
    → connections id ≡ some c
    → reached connections (id ∷ ids) ≡ c ∷ reached connections ids
reached-some connections id c ids online = ground (arith, online)

module _ {Bytes : Type 0} (front : Front Bytes) (out : Outside)
    (writes : (c n : ℕ) → front.write (some c) n ≡ ok tt) where
  write_none :
      (id : ℕ) (ids : List ℕ) (msg : ProcessGameMessageResponse) (w : World)
      → w.connections id ≡ none
      → write_message front (id ∷ ids) msg w ≡ (err (text "id not found"), w)
  unfolding write_message
  write_none id ids msg w offline = ground (arith, offline)

  write_one :
      (id c : ℕ) (ids : List ℕ) (msg : ProcessGameMessageResponse) (w : World)
      → w.connections id ≡ some c
      → write_message front (id ∷ ids) msg w
        ≡ write_message front ids msg
            (heard w (push w.sent (some c, message_payload msg)) w.tasks (w.tick + 1))
  unfolding write_message write_server_data
  write_one id c ids msg w online = ground (arith, online, writes c w.tick)

  -- Whatever the result, it is no panic, and the players who are reached have the message.
  write_message_lem :
      (ids : List ℕ) (msg : ProcessGameMessageResponse) (w : World)
      → (o : Option (Unit {0})) × (tick : ℕ) × (attempt (write_message front ids msg) w ≡ (
        ok o,
        heard w (w.sent ++ to_each (message_payload msg) (reached w.connections ids)) w.tasks tick,
      ))
  unfolding write_message
  write_message_lem [] msg w =
      (some tt, w.tick, ap (λ s. (ok (some tt), heard w s w.tasks w.tick)) (append_nil w.sent))
  write_message_lem (id ∷ ids) msg w = elim (Option-cases (w.connections id)) [
    | inl offline ↦ (
      none,
      w.tick,
      ap (λ x. attempt (λ u. x) w) (write_none id ids msg w offline)
          ∙ ap (λ s. (ok none, heard w s w.tasks w.tick))
              (append_nil w.sent
                ∙ ap (λ conns. w.sent ++ to_each (message_payload msg) conns)
                    (sym (reached-none w.connections id ids offline))),
    )
    | inr (c, online) ↦
        let payload = message_payload msg in
        let v = heard w (push w.sent (some c, payload)) w.tasks (w.tick + 1) in
        let (o, tick, run) = write_message_lem ids msg v in
        (
          o,
          tick,
          ap (λ x. attempt (λ u. x) w) (write_one id c ids msg w online)
              ∙ run
              ∙ ap (λ s. (ok o, heard w s w.tasks tick))
                  (push-append w.sent (some c, payload)
                      (to_each payload (reached w.connections ids))
                    ∙ ap (λ conns. w.sent ++ to_each payload conns)
                        (sym (reached-some w.connections id c ids online))),
        )
  ]

  save_users_game_status_lem :
      (ids : List ℕ) (status : GameStatus) (w : World)
      → save_users_game_status ids status w
        ≡ (ok tt, heard w w.sent (w.tasks ++ map (λ id. save_user_status id status) ids) w.tick)
  unfolding save_users_game_status
  save_users_game_status_lem [] status w =
      ap (λ t. (ok tt, heard w w.sent t w.tick)) (append_nil w.tasks)
  save_users_game_status_lem (id ∷ ids) status w =
      save_users_game_status_lem ids status
        (heard w w.sent (w.tasks ++ (save_user_status id status ∷ [])) w.tick)
      ∙ ap (λ t. (ok tt, heard w w.sent t w.tick))
          (append_assoc w.tasks (save_user_status id status ∷ [])
            (map (λ i. save_user_status i status) ids))

  announce_one :
      (m : MatchedUsers) (ms : List MatchedUsers) (w : World)
      → (tick : ℕ) × (announce_matches front out (m ∷ ms) w
          ≡ announce_matches front out ms (
              heard w
                (w.sent ++ to_each (announcement m.game_id) (reached w.connections m.user_id))
                ((w.tasks ++ map (λ player. save_user_status player pending) m.user_id)
                  ++ (save_game_status m.game_id none (some (length m.user_id)) ∷ []))
                tick))
  unfolding announce_matches
  announce_one m ms w =
      let tasks = w.tasks ++ map (λ player. save_user_status player pending) m.user_id in
      let v =
        heard w w.sent (tasks ++ (save_game_status m.game_id none (some (length m.user_id)) ∷ []))
          w.tick in
      let msg = response true match_created "match created" m.game_id in
      let (o, tick, run) = write_message_lem m.user_id msg v in
      (
        tick,
        ap
              (λ x.
                ((λ u. x) >>= λ saved.
                ((λ w. (
                  ok tt,
                  record w {
                    tasks =
                        w.tasks ++ (save_game_status m.game_id none (some (length m.user_id)) ∷ []);
                  },
                ))
                  >> (attempt (write_message front m.user_id msg)
                      >> announce_matches front out ms)))
                  w)
              (save_users_game_status_lem m.user_id pending w)
            ∙ ap (λ x. ((λ u. x) >>= λ written. announce_matches front out ms) v) run,
      )

  announce_matches_lem :
      (ms : List MatchedUsers) (w : World)
      → (tick : ℕ) × (announce_matches front out ms w ≡ (
        ok tt,
        heard w
            (w.sent ++ announcements w.connections (map announced ms))
            (w.tasks ++ status_tasks (map announced ms))
            tick,
      ))
  unfolding announce_matches
  announce_matches_lem [] w =
      (w.tick, λ i. (ok tt, heard w (append_nil w.sent i) (append_nil w.tasks i) w.tick))
  announce_matches_lem (m ∷ ms) w =
      let (t, one) = announce_one m ms w in
      let statuses = map (λ player. save_user_status player pending) m.user_id in
      let started = save_game_status m.game_id none (some (length m.user_id)) in
      let told = to_each (announcement m.game_id) (reached w.connections m.user_id) in
      let (tick, rest) =
        announce_matches_lem ms
          (heard w (w.sent ++ told) ((w.tasks ++ statuses) ++ (started ∷ [])) t) in
      let games = map announced ms in
      (
        tick,
        one ∙ rest ∙ λ i. (
          ok tt,
          heard w (append_assoc w.sent told (announcements w.connections games) i)
              ((append_assoc (w.tasks ++ statuses) (started ∷ []) (status_tasks games)
                  ∙ append_assoc w.tasks statuses (started ∷ status_tasks games))
                i)
              tick,
        ),
      )

  -- Where a call that fails changes no store and the connections take every write, a message of matches
  -- makes games for some of its matches, in order, with their players: exactly the new games are
  -- announced, each under its id, to its players up to the first who is not connected, and the
  -- goroutines that are started are, for each new game, one for the status of each player, and one for
  -- the game with the number of its players.
  pub consume_match_created_announces :
      (message : Bytes) (users : List MatchedUsersMsg) (w : World)
      → front.decode_matched_users message ≡ some users
      → let (r, w') = consume_match_created front out message w in
        (new : List (String × Game)) × (r ≡ ok tt)
        × (w'.games ≡ w.games ++ new)
        × IsPicked (map about_game new) (map about_match (map_from_proto_message_to_entity users))
        × (w'.sent ≡ w.sent ++ announcements w.connections (map stored new))
        × (w'.tasks ≡ w.tasks ++ status_tasks (map stored new))
  unfolding consume_match_created
  consume_match_created_announces message users w decoded =
      let matched = map_from_proto_message_to_entity users in
      let (more, new, made, games, same, picked, (tasks, sent, online)) =
        create_games_lem front out matched [] w in
      let v = (create_games front out matched [] w).1 in
      let (tick, run) = announce_matches_lem more v in
      let ended : consume_match_created front out message w ≡ (
        ok tt,
        heard v (v.sent ++ announcements v.connections (map announced more))
            (v.tasks ++ status_tasks (map announced more)) tick,
      ) =
        rw (consume_match_created, decoded)
          (ap (λ r. ((λ u. (r, v)) >>= announce_matches front out) w) made ∙ run) in
      (
        new,
        ap (λ x. x.0) ended,
        ap (λ x. x.1.games) ended ∙ games,
        picked,
        ap (λ x. x.1.sent) ended ∙ λ i. sent i ++ announcements (online i) (same i),
        ap (λ x. x.1.tasks) ended ∙ λ i. tasks i ++ status_tasks (same i),
      )
