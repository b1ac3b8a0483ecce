-- ===== src/Game/Repository/Questions/Orders.antt =====
-- The two orders in which a game and the questions of its match can arrive.
use brain_blitz.Prelude.{
  ◌+◌, String, ◌≡◌, ◌≢◌, refl, ap, ◌∙◌, true, false, Option, none, some, List, [], ◌∷◌, push,
  length, arith, str_eq_refl, eq_iff,
}
use brain_blitz.Game.Entity.{Time, Question, GameQuestions, Game}
use brain_blitz.Game.World.{World, Outside, ok, update, get_game_questions, set_game_questions}
use brain_blitz.Game.Repository.Ready.Laws.{IsReliable}
use brain_blitz.Game.Repository.Questions.{
  with_question, find_match, update_match, zero_object_id, game_questions_of, create_game,
  store_questions, save_questions_by_match_id,
}

find_match-push :
    (m : String) (games : List (String × Game)) (id : String) (game : Game)
    → find_match m games ≡ none
    → game.match_id ≡ m
    → find_match m (push games (id, game)) ≡ some (id, game)
unfolding find_match
find_match-push m [] id game absent own = ground (arith, eq_iff game.match_id m)
find_match-push m ((j, g) ∷ games) id game absent own =
    ground (arith, find_match-push m games id game)

update_match_absent :
    (m : String) (qs : List Question) (now : Time) (games : List (String × Game))
    → find_match m games ≡ none
    → update_match m qs now games ≡ (games, false)
unfolding find_match update_match
update_match_absent m qs now [] absent = refl
update_match_absent m qs now ((j, g) ∷ games) absent =
    ground (arith, update_match_absent m qs now games)

abbrev pub updated : Game → List Question → Time → Game
updated game qs now = record game { question = some qs; updated_at = now }

update_match_found :
    (m : String) (qs : List Question) (now : Time) (games : List (String × Game)) (id : String)
    (game : Game)
    → find_match m games ≡ some (id, game)
    → ((update_match m qs now games).1 ≡ true)
      × (find_match m (update_match m qs now games).0 ≡ some (id, updated game qs now))
unfolding find_match update_match
update_match_found m qs now [] id game found = cc
update_match_found m qs now ((j, g) ∷ games) id game found =
    ground (arith, update_match_found m qs now games id game)

cached_questions :
    (m : String) (qs : List Question) (cache : String → Option GameQuestions)
    (old : Option (List Question))
    → (elim (update
        (update cache m (some (game_questions_of qs [])))
        zero_object_id
        (some (game_questions_of qs []))
        m) [ none ↦ old | some gq ↦ some gq.questions ])
      ≡ some qs
cached_questions m qs cache old = ground (arith, str_eq_refl m)

module _ (out : Outside) (reliable : IsReliable out) where
  -- `CreateGame` where the questions of the match are stored already, and where they are not.
  create_game_run :
      (game : Game) (w : World)
      → create_game out game w ≡ (
        ok (out.object_id_hex (length w.games)),
        record w {
          games = push w.games (
            out.object_id_hex (length w.games),
            with_question game (elim (w.game_questions game.match_id) [
              | none ↦ game.question
              | some gq ↦ some gq.questions
            ]),
          );
          tick = w.tick + 1 + 1;
        },
      )
  unfolding create_game get_game_questions
  create_game_run game w = ground (arith, reliable w.tick, reliable (w.tick + 1))

  -- `SaveQuestionsByMatchId` before the game is there.
  save_absent_run :
      (m : String) (qs : List Question) (w : World)
      → find_match m w.games ≡ none
      → save_questions_by_match_id out m qs w ≡ (
        ok tt,
        record w {
          game_questions =
              update
                (update w.game_questions m (some (game_questions_of qs [])))
                zero_object_id
                (some (game_questions_of qs []));
          tick = w.tick + 1 + 1 + 1 + 1 + 1;
        },
      )
  unfolding save_questions_by_match_id store_questions set_game_questions
  save_absent_run m qs w absent = ground (
    arith,
    reliable (w.tick + 1),
    reliable (w.tick + 1 + 1),
    reliable (w.tick + 1 + 1 + 1),
    reliable (w.tick + 1 + 1 + 1 + 1),
    update_match_absent m qs (out.now w.tick) w.games,
  )

  -- `SaveQuestionsByMatchId` for the first game of the match.
  save_found_run :
      (m : String) (qs : List Question) (id : String) (game : Game) (w : World)
      → find_match m w.games ≡ some (id, game)
      → save_questions_by_match_id out m qs w ≡ (
        ok tt,
        record w {
          games = (update_match m qs (out.now w.tick) w.games).0;
          game_questions = update w.game_questions id (some (game_questions_of qs game.players));
          tick = w.tick + 1 + 1 + 1 + 1;
        },
      )
  unfolding save_questions_by_match_id store_questions set_game_questions
  save_found_run m qs id game w found =
      let (matched, now_in) = update_match_found m qs (out.now w.tick) w.games id game found in
      ground
        (arith, reliable (w.tick + 1), reliable (w.tick + 1 + 1), reliable (w.tick + 1 + 1 + 1))

  -- The store after `CreateGame`.
  abbrev created : Game → World → World
  created game w = record w {
    games = push w.games (
      out.object_id_hex (length w.games),
      with_question game (elim (w.game_questions game.match_id) [
        | none ↦ game.question
        | some gq ↦ some gq.questions
      ]),
    );
    tick = w.tick + 1 + 1;
  }

  -- While the calls succeed: a game of a match that has none yet, and the questions of the match, in either order: the
  -- stored game of the match has the questions.
  pub game_gets_questions :
      (qs : List Question) (game : Game) (w : World)
      → find_match game.match_id w.games ≡ none
      → let m = game.match_id in
        let id = out.object_id_hex (length w.games) in
        let questions_first = (create_game out game (save_questions_by_match_id out m qs w).1).1 in
        let game_first = (save_questions_by_match_id out m qs (create_game out game w).1).1 in
        ((g : Game) × (find_match m questions_first.games ≡ some (id, g)) × (g.question ≡ some qs))
        × ((g : Game) × (find_match m game_first.games ≡ some (id, g)) × (g.question ≡ some qs))
  game_gets_questions qs game w absent =
      let m = game.match_id in
      let id = out.object_id_hex (length w.games) in
      (
        rw (save_absent_run m qs w absent, create_game_run game)
            (
              with_question game (some qs),
              find_match-push m w.games id _ absent refl
                  ∙ ap (λ stored. some (id, with_question game stored))
                      (cached_questions m qs w.game_questions game.question),
              refl,
            ),
        let stored =
              with_question game (elim (w.game_questions m) [
                | none ↦ game.question
                | some gq ↦ some gq.questions
              ]) in
            let here = find_match-push m w.games id stored absent refl in
            rw (create_game_run game w) (
              rw (save_found_run m qs id stored (created game w) here) (
                updated stored qs (out.now (w.tick + 1 + 1)),
                (update_match_found m qs (out.now (w.tick + 1 + 1)) (push w.games (id, stored)) id
                    stored here).1,
                refl,
              )),
      )

  -- Only one of the orders serves the players: where the game was there first, its questions and
  -- players are cached under its id. Where the questions were first, nothing is cached under
  -- the game's id, unless that is the match's id or the zero id.
  pub only_game_first_caches :
      (qs : List Question) (game : Game) (w : World)
      → find_match game.match_id w.games ≡ none
      → out.object_id_hex (length w.games) ≢ game.match_id
      → out.object_id_hex (length w.games) ≢ zero_object_id
      → let m = game.match_id in
        let id = out.object_id_hex (length w.games) in
        ((create_game out game (save_questions_by_match_id out m qs w).1).1.game_questions id
          ≡ w.game_questions id)
        × ((save_questions_by_match_id out m qs (create_game out game w).1).1.game_questions id
            ≡ some (game_questions_of qs game.players))
  only_game_first_caches qs game w absent other nonzero =
      let m = game.match_id in
      let id = out.object_id_hex (length w.games) in
      let stored =
        with_question game
          (elim (w.game_questions m) [ none ↦ game.question | some gq ↦ some gq.questions ]) in
      (
        rw (save_absent_run m qs w absent, create_game_run game)
            (ground (arith, eq_iff id m, eq_iff id zero_object_id)),
        rw (create_game_run game w) (
            rw
              (save_found_run m qs id stored (created game w)
                (find_match-push m w.games id stored absent refl))
              (rw str_eq_refl refl)),
      )
