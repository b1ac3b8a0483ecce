-- ===== src/Game/Service/Matches/Laws.antt =====
-- Which matches are announced to their players.
use mathlib.Core.Path.{subst}
use brain_blitz.Prelude.{
  ℕ, ◌+◌, String, ◌≡◌, refl, sym, ◌∙◌, ap, ◌⊎◌, inl, inr, Option, none, some, List, [], ◌∷◌, ◌++◌,
  arith, push, push-append, append_nil, length, map, Option-cases,
}
use brain_blitz.Errors.{GoError, app, wrap, err_internal}
use brain_blitz.Game.Entity.{Time, GameQuestions, Question, Game, MatchedUsers}
use brain_blitz.Game.World.{
  World, Outside, Result, ok, err, Action, attempt, ◌>>=◌, get_game_questions,
}
use brain_blitz.Game.Repository.Questions.{with_question, insert_game, create_game}
use brain_blitz.Game.Service.Connections.{Front}
use brain_blitz.Game.Service.Matches.{game_of, create_games}

-- What a match and a stored game have in common.
abbrev pub announced : MatchedUsers → String × List ℕ × String
announced m = (m.game_id, m.user_id, m.match_id)

abbrev pub stored : String × Game → String × List ℕ × String
stored (id, game) = (id, game.players, game.match_id)

-- The players and the match of a game, and of a match.
abbrev pub about_game : String × Game → List ℕ × String
about_game (id, game) = (game.players, game.match_id)

abbrev pub about_match : MatchedUsers → List ℕ × String
about_match m = (m.user_id, m.match_id)

-- The first list is some of the second, in order.
abbrev pub IsPicked : {A : Type 0} → List A → List A → Type 0
IsPicked [] ys = Unit
IsPicked (x ∷ xs) [] = ⊥
IsPicked (x ∷ xs) (y ∷ ys) = ((x ≡ y) × IsPicked xs ys) ⊎ IsPicked (x ∷ xs) ys

IsPicked-skip :
    {A : Type 0} (xs : List A) (y : A) (ys : List A) → IsPicked xs ys → IsPicked xs (y ∷ ys)
IsPicked-skip [] y ys picked = tt
IsPicked-skip (x ∷ xs) y ys picked = inr picked

-- Nothing is sent or started.
abbrev pub IsQuiet : World → World → Type 0
IsQuiet w w' = (w'.tasks ≡ w.tasks) × (w'.sent ≡ w.sent) × (w'.connections ≡ w.connections)

IsQuiet-trans : (u v w : World) → IsQuiet u v → IsQuiet v w → IsQuiet u w
IsQuiet-trans u v w (t, s, c) (t', s', c') = (t' ∙ t, s' ∙ s, c' ∙ c)

-- A game is stored, or the error leaves the games as they are, and nothing is sent or started.
StoredOrNot : Game → World → Result String × World → Type 0
StoredOrNot game w (r, w') =
    IsQuiet w w'
    × (((id : String) × (question : Option (List Question)) × (r ≡ ok id)
          × (w'.games ≡ push w.games (id, with_question game question)))
        ⊎ ((e : GoError) × (r ≡ err e) × (w'.games ≡ w.games)))

abbrev attempted : {A : Type 0} → Result A × World → Result (Option A) × World
attempted (r, w) = attempt (λ _. (r, w)) w

module _ (out : Outside) where
  insert_game_cases :
      (game : Game) (question : Option (List Question)) (w : World)
      → StoredOrNot game w (insert_game out (with_question game question) w)
  unfolding StoredOrNot insert_game
  insert_game_cases game question w = elim (Option-cases (out.fault w.tick)) [
    | inl good ↦ (
      (ground (arith, good), ground (arith, good), ground (arith, good)),
      inl (
        out.object_id_hex (length w.games),
        question,
        ground (arith, good),
        ground (arith, good),
      ),
    )
    | inr (e, bad) ↦ (
      (ground (arith, bad), ground (arith, bad), ground (arith, bad)),
      inr (
        app (wrap "game.CreateGame" none err_internal),
        ground (arith, bad),
        ground (arith, bad),
      ),
    )
  ]

  -- A reading never ends an `attempt`, and it leaves the games as they are.
  questions_read :
      (id : String) (w : World)
      → (questions : Option GameQuestions) × (attempted (get_game_questions out id w)
          ≡ (ok questions, record w { tick = w.tick + 1 }))
  unfolding get_game_questions
  questions_read id w = elim (Option-cases (out.fault w.tick)) [
    | inl good ↦ (w.game_questions id, ground (arith, good))
    | inr (e, bad) ↦ (none, ground (arith, bad))
  ]

  create_game_cases : (game : Game) (w : World) → StoredOrNot game w (create_game out game w)
  unfolding StoredOrNot create_game
  create_game_cases game w =
      let (questions, read) = questions_read game.match_id w in
      let question : Option (List Question) = elim questions [
        | none ↦ game.question
        | some gq ↦ some gq.questions
      ] in
      subst (StoredOrNot game w)
        (sym (
          ap
            (λ p.
              ((λ _. p) >>= λ found. insert_game out (
                  with_question game
                    (elim found [ none ↦ game.question | some gq ↦ some gq.questions ])))
                w)
            read))
        (insert_game_cases game question (record w { tick = w.tick + 1 }))

-- `created` and one match for each game that is new, the same match as the game; the games are for
-- some of the matches given, in order; nothing is sent or started.
abbrev pub AreMade :
    List MatchedUsers → List MatchedUsers → World → Result (List MatchedUsers) × World → Type 0
AreMade matched created w (r, w') =
    (more : List MatchedUsers) × (new : List (String × Game)) × (r ≡ ok (created ++ more))
    × (w'.games ≡ w.games ++ new)
    × (map announced more ≡ map stored new)
    × IsPicked (map about_game new) (map about_match matched)
    × IsQuiet w w'

module _ {Bytes : Type 0} (front : Front Bytes) (out : Outside) where
  go_on :
      MatchedUsers
      → List MatchedUsers
      → List MatchedUsers
      → Option String
      → Action (List MatchedUsers)
  unfolding create_games
  go_on m matched created result = create_games front out matched (elim result [
    | none ↦ created
    | some game_id ↦ push created (record m { game_id = game_id })
  ])

  after_game :
      (m : MatchedUsers) (matched created : List MatchedUsers) (t u : Time) (w : World)
      → ((acc : List MatchedUsers) (v : World)
          → AreMade matched acc v (create_games front out matched acc v))
      → (p : Result String × World) → StoredOrNot (game_of m t u) w p
      → AreMade (m ∷ matched) created w (((λ _. attempted p) >>= go_on m matched created) w)
  unfolding StoredOrNot go_on
  after_game m matched created t u w ih (r, w1) (quiet, inl (id, question, is_ok, games)) =
      let m' = record m { game_id = id } in
      let game = with_question (game_of m t u) question in
      let (more, new, made, all_games, same, picked, later) = ih (push created m') w1 in
      rw is_ok (
        m' ∷ more,
        (id, game) ∷ new,
        made ∙ ap ok (push-append created m' more),
        all_games ∙ ap (λ l. l ++ new) games ∙ push-append w.games (id, game) new,
        ap (◌∷◌ (announced m')) same,
        inl (refl, picked),
        IsQuiet-trans w w1 (create_games front out matched (push created m') w1).1 quiet later,
      )
  after_game m matched created t u w ih (r, w1) (quiet, inr (e, is_err, games)) =
      let (more, new, made, all_games, same, picked, later) = ih created w1 in
      rw is_err (
        more,
        new,
        made,
        all_games ∙ ap (λ l. l ++ new) games,
        same,
        IsPicked-skip (map about_game new) (about_match m) (map about_match matched) picked,
        IsQuiet-trans w w1 (create_games front out matched created w1).1 quiet later,
      )

  -- The list of the matches that are to be announced, and the new games, agree.
  pub create_games_lem :
      (matched created : List MatchedUsers) (w : World)
      → AreMade matched created w (create_games front out matched created w)
  unfolding StoredOrNot create_games go_on
  create_games_lem [] created w =
      ([], [], ap ok (append_nil created), append_nil w.games, refl, tt, (refl, refl, refl))
  create_games_lem (m ∷ matched) created w =
      let v = record w { tick = w.tick + 1 + 1 } in
      after_game m matched created (out.now w.tick) (out.now (w.tick + 1)) w
        (create_games_lem matched)
        (create_game out (game_of m (out.now w.tick) (out.now (w.tick + 1))) v)
        (create_game_cases out (game_of m (out.now w.tick) (out.now (w.tick + 1))) v)
