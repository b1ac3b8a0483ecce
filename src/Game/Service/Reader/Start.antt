-- ===== src/Game/Service/Reader/Start.antt =====
-- How a game starts: the READY of the player who is the last to be waited for.
use brain_blitz.Prelude.{
  ℕ, suc, ◌+◌, String, ◌≡◌, refl, ◌∙◌, ap, Bool, true, false, Option, none, some, List, [], ◌∷◌,
  ◌++◌, arith, push, push-append, append_nil, length, any, if◌then◌else◌, ==_self, str_eq_refl,
}
use brain_blitz.Prelude.Int.{pos, signed64}
use brain_blitz.Game.Entity.{GameQuestions, ReadyPlayers, Duration}
use brain_blitz.Game.Messages.{Payload, message_payload, response, error}
use brain_blitz.Game.Score.{Floats}
use brain_blitz.Game.World.{
  World, Outside, Config, Result, ok, Action, pure, attempt, ◌>>=◌, ◌>>◌, update,
  get_game_questions,
}
use brain_blitz.Game.Repository.Ready.{eq_int}
use brain_blitz.Game.Repository.Ready.Laws.{IsReliable, upsert_next, with_status}
use brain_blitz.Game.Repository.Questions.{stamp_questions, set_valid_answer_time_for_questions}
use brain_blitz.Game.Repository.Questions.Laws.{set_valid_answer_time_run, restamped}
use brain_blitz.Game.Service.Connections.{Front, write_server_data, save_game_status}
use brain_blitz.Game.Service.Answers.{questions_message, send_to_players, send_question_to_player}
use brain_blitz.Game.Service.Reader.{reply, schedule, start_game, on_ready}

-- The players have these connections.
abbrev pub AreOnline : (ℕ → Option ℕ) → List ℕ → List ℕ → Type 0
AreOnline connections [] [] = Unit
AreOnline connections [] (c ∷ conns) = ⊥
AreOnline connections (p ∷ players) [] = ⊥
AreOnline connections (p ∷ players) (c ∷ conns) =
    (connections p ≡ some c) × AreOnline connections players conns

abbrev pub to_all : Payload → List ℕ → List (Option ℕ × Payload)
to_all payload [] = []
to_all payload (c ∷ conns) = (some c, payload) ∷ to_all payload conns

abbrev heard : World → Payload → List ℕ → World
heard w payload conns = record w {
  tick = w.tick + length conns;
  sent = w.sent ++ to_all payload conns;
}

module _ {Bytes : Type 0} (front : Front Bytes)
    (writes : (c n : ℕ) → front.write (some c) n ≡ ok tt) where
  heard_eq :
      (w : World) (m n : ℕ) (xs ys : List (Option ℕ × Payload))
      → m ≡ n
      → xs ≡ ys
      → record w { tick = m; sent = xs } ≡ record w { tick = n; sent = ys }
  heard_eq w m n xs ys e q = λ i. record w { tick = e i; sent = q i }

  send_one :
      (p c : ℕ) (players : List ℕ) (payload : Payload) (w : World)
      → w.connections p ≡ some c
      → send_to_players front (p ∷ players) payload w
        ≡ send_to_players front players payload (heard w payload (c ∷ []))
  unfolding send_to_players write_server_data
  send_one p c players payload w online = ground (arith, online, writes c w.tick)

  send_to_players_run :
      (players conns : List ℕ) (payload : Payload) (w : World)
      → AreOnline w.connections players conns
      → send_to_players front players payload w ≡ (ok tt, heard w payload conns)
  unfolding send_to_players write_server_data
  send_to_players_run [] [] payload w online =
      ap (λ v. (ok tt, v))
        (heard_eq w w.tick (w.tick + 0) w.sent (w.sent ++ []) (omega arith) (append_nil w.sent))
  send_to_players_run [] (c ∷ conns) payload w online = absurd online
  send_to_players_run (p ∷ players) [] payload w online = absurd online
  send_to_players_run (p ∷ players) (c ∷ conns) payload w online =
      send_one p c players payload w online.0
      ∙ send_to_players_run players conns payload (heard w payload (c ∷ [])) online.1
      ∙ ap (λ v. (ok tt, v))
          (heard_eq w (w.tick + 1 + length conns) (w.tick + length (c ∷ conns))
            (push w.sent (some c, payload) ++ to_all payload conns)
            (w.sent ++ to_all payload (c ∷ conns)) (omega arith)
            (push-append w.sent (some c, payload) (to_all payload conns)))

module _ {Bytes : Type 0} (front : Front Bytes) (out : Outside) (f : Floats) (config : Config) where
  abbrev is_ready_or_false : Option Bool → Action Bool
  is_ready_or_false ready = elim ready [ none ↦ pure false | some is_ready ↦ pure is_ready ]

  abbrev attempted : {A : Type 0} → Result A × World → Result (Option A) × World
  attempted (r, w) = attempt (λ _. (r, w)) w

  last_is_ready :
      (reliable : IsReliable out) (id : ℕ) (game_id : String) (gs : ReadyPlayers) (w : World)
      → w.game_status game_id ≡ some gs
      → suc (length gs.players) ≡ gs.expected_number_of_players
      → any (λ player. eq_int player (signed64 id)) gs.players ≡ false
      → save_game_status out game_id (some id) none w ≡ (
        ok true,
        with_status w game_id
            (record gs { players = push gs.players (signed64 id) })
            (w.tick + 1 + 1),
      )
  unfolding save_game_status
  last_is_ready reliable id game_id gs w found last fresh =
      ap (λ p. ((λ _. p) >>= is_ready_or_false) w)
        (ap attempted (
          upsert_next out reliable game_id (signed64 id) none gs w found (omega (arith, last))
            fresh))
      ∙ ap (λ b. (ok b, w1)) (rw last (==_self gs.expected_number_of_players))
    where
      w1 : World
      w1 =
          with_status w game_id (record gs { players = push gs.players (signed64 id) })
            (w.tick + 1 + 1)

  questions_read :
      (reliable : IsReliable out) (game_id : String) (gq : GameQuestions) (w : World)
      → w.game_questions game_id ≡ some gq
      → get_game_questions out game_id w ≡ (ok gq, record w { tick = w.tick + 1 })
  unfolding get_game_questions
  questions_read reliable game_id gq w has = ground (arith, reliable w.tick, has)

  questions_sent :
      (reliable : IsReliable out) (writes : (c n : ℕ) → front.write (some c) n ≡ ok tt)
      (game_id : String) (gq : GameQuestions) (conns : List ℕ) (w : World)
      → w.game_questions game_id ≡ some gq
      → AreOnline w.connections gq.players conns
      → send_question_to_player front out game_id w ≡ (
        ok tt,
        heard
            (record w { tick = w.tick + 1 })
            (message_payload (questions_message game_id gq.questions))
            conns,
      )
  unfolding send_question_to_player get_game_questions
  questions_sent reliable writes game_id gq conns w has online =
      ap
        (λ p.
          ((λ _. p) >>= λ questions.
          send_to_players front questions.players
            (message_payload (questions_message game_id questions.questions)))
            w)
        (questions_read reliable game_id gq w has)
      ∙ send_to_players_run front writes gq.players conns
          (message_payload (questions_message game_id gq.questions))
          (record w { tick = w.tick + 1 }) online

  scheduled_run :
      (reliable : IsReliable out) (game_id : String) (total : Duration) (w : World)
      → schedule front out f config game_id (some total) w ≡ (
        ok tt,
        record w {
          tick = w.tick + 1;
          scheduled = push w.scheduled ("game:completed", game_id, total);
        },
      )
  unfolding schedule
  scheduled_run reliable game_id total w = ground (arith, reliable w.tick)

  last_is_ready_step :
      (id conn : ℕ) (game_id : String) (w w1 : World)
      → save_game_status out game_id (some id) none w ≡ (ok true, w1)
      → on_ready front out f config id conn game_id w
        ≡ start_game front out f config conn game_id w1
  unfolding on_ready
  last_is_ready_step id conn game_id w w1 e =
      ap
        (λ p.
          ((λ _. p) >>= λ is_game_ready.
          if is_game_ready then start_game front out f config conn game_id else pure tt)
            w)
        e

  start_game_steps :
      (reliable : IsReliable out) (conn : ℕ) (game_id : String) (total : Duration)
      (w1 w2 w3 : World)
      → set_valid_answer_time_for_questions out config game_id w1 ≡ (ok total, w2)
      → send_question_to_player front out game_id w2 ≡ (ok tt, w3)
      → start_game front out f config conn game_id w1 ≡ (
        ok tt,
        record w3 {
          tick = w3.tick + 1;
          scheduled = push w3.scheduled ("game:completed", game_id, total);
        },
      )
  unfolding start_game
  start_game_steps reliable conn game_id total w1 w2 w3 stamping sending =
      ap
        (λ p.
          ((λ _. p) >>= λ ttl. do
            elim ttl [
              | none ↦
                  reply front out f config conn (response false error "internal server error" "")
              | some _ ↦ pure tt
            ]
            attempt (send_question_to_player front out game_id)
            schedule front out f config game_id ttl)
            w1)
        (ap attempted stamping)
      ∙ ap (λ p. ((λ _. p) >> schedule front out f config game_id (some total)) w2)
          (ap attempted sending)
      ∙ scheduled_run reliable game_id total w3

  -- Where no call fails and the writes succeed, the READY of the one player who is still waited
  -- for starts the game: every player gets the questions once, with the times until which they can
  -- be answered, and the completion of the game is put into the task queue once, after the sum of
  -- these times.
  pub last_ready_starts :
      (reliable : IsReliable out) (writes : (c n : ℕ) → front.write (some c) n ≡ ok tt)
      (id conn : ℕ) (game_id : String) (gs : ReadyPlayers) (gq : GameQuestions) (conns : List ℕ)
      (w : World)
      → w.game_status game_id ≡ some gs
      → suc (length gs.players) ≡ gs.expected_number_of_players
      → any (λ player. eq_int player (signed64 id)) gs.players ≡ false
      → w.game_questions game_id ≡ some gq
      → AreOnline w.connections gq.players conns
      → let (questions, total) =
          stamp_questions out config 0 gq.questions (pos 0) (w.tick + 1 + 1 + 1) in
        let (r, w') = on_ready front out f config id conn game_id w in
        (r ≡ ok tt)
        × (w'.sent ≡ w.sent ++ to_all (message_payload (questions_message game_id questions)) conns)
        × (w'.scheduled ≡ push w.scheduled ("game:completed", game_id, total))
  unfolding on_ready
  last_ready_starts reliable writes id conn game_id gs gq conns w found last fresh has online =
      let w1 =
        with_status w game_id (record gs { players = push gs.players (signed64 id) })
          (w.tick + 1 + 1) in
      let gq' = restamped out config gq (w.tick + 1 + 1 + 1) in
      let total = (stamp_questions out config 0 gq.questions (pos 0) (w.tick + 1 + 1 + 1)).1 in
      let w2 = record w1 {
        game_questions = update w1.game_questions game_id (some gq');
        tick = w.tick + 1 + 1 + 1 + length gq.questions + 1;
      } in
      rw
        (last_is_ready_step id conn game_id w w1
            (last_is_ready reliable id game_id gs w found last fresh)
          ∙ start_game_steps reliable conn game_id total w1 w2
              (heard (record w2 { tick = w2.tick + 1 })
                (message_payload (questions_message game_id gq'.questions)) conns)
              (set_valid_answer_time_run out config reliable game_id gq w1 has)
              (questions_sent reliable writes game_id gq' conns w2 (rw str_eq_refl refl) online))
        (refl, refl, refl)
