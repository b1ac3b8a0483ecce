-- ===== src/Game/World.antt =====
-- What services/game_app/repository/game.go and the service above it read and write, and the monad
-- of their methods.
-- Redis holds JSON texts under keys of three prefixes, none of which is a prefix of another: a map
-- for each prefix, from the rest of the key to the value that the JSON stands for. MongoDB holds
-- two collections. `tick` counts the calls that leave the process; `Outside` says which of them
-- fail, and what the clock shows. A call that fails leaves the stores as they were.
use brain_blitz.Prelude.{
  ℕ, ◌+◌, String, Option, none, some, List, [], ◌∷◌, ◌++◌, ◌≡◌, ◌≢◌, ◌⊎◌, inl, inr, refl, str_eq,
  if◌then◌else◌,
}
use brain_blitz.Prelude.Int.{ℤ}
use brain_blitz.Errors.{GoError, text}
use brain_blitz.Game.Entity.{
  Time, Duration, Game, GameQuestions, GameStatus, PlayerAnswer, ReadyPlayers,
}
use brain_blitz.Game.Score.{ScoreConfig}
use brain_blitz.Game.Messages.{Payload}
use brain_blitz.Contract.{AddToWaitingListMsg}

-- Repository.Config: the timeouts of the keys are not modelled, a key that has expired is a call
-- that fails.
pub record Config : Type 0 where
  pub valid_answer_time_out : Duration
  pub score_config : ScoreConfig

-- A goroutine that was started and has not run yet.
pub data Task : Type 0 where
  cache_game_questions : String → Game → Task
  save_user_status : ℕ → GameStatus → Task
  save_game_status : String → Option ℤ → Option ℕ → Task

pub record World : Type 0 where
  -- "game_questions_"
  pub game_questions : String → Option GameQuestions
  -- "game_user_status_"
  pub user_status : ℕ → Option String
  -- "game_game_status_"
  pub game_status : String → Option ReadyPlayers
  -- The collection "game": ids in hexadecimal, oldest first.
  pub games : List (String × Game)
  -- The collection "player_answers", oldest first.
  pub player_answers : List PlayerAnswer
  pub tasks : List Task
  pub tick : ℕ
  -- Service.connections: a `net.Conn` is a number, `none` is nil.
  pub connections : ℕ → Option ℕ
  -- What was written to the connections, and which of them the service has closed.
  pub sent : List (Option ℕ × Payload)
  pub closed : List ℕ
  -- What reached the broker (`none` is the nil slice) and the task queue: the kind of task, the
  -- id of its game, and the delay.
  pub published : List (String × Option AddToWaitingListMsg)
  pub scheduled : List (String × String × Duration)

-- What the process does not decide: which calls fail, the clock, the MongoDB driver's ids (the
-- n-th that it makes, and which texts it reads as one), and the order of an iteration over a map.
pub record Outside : Type 0 where
  pub fault : ℕ → Option GoError
  pub now : ℕ → Time
  pub object_id_hex : ℕ → String
  pub object_id_from_hex : String → Option GoError

-- Go's results: a value, an error, or a panic.
pub data Result {ℓ} (A : Type ℓ) : Type ℓ where
  ok : A → Result A
  err : GoError → Result A
  panic : Result A

pub Result-cases {ℓ} : {A : Type ℓ} (r : Result A) → ((a : A) × (r ≡ ok a)) ⊎ ((a : A) → r ≢ ok a)
Result-cases (ok a) = inl (a, refl)
Result-cases (err e) = inr (λ a h. cc)
Result-cases panic = inr (λ a h. cc)

abbrev pub Action : Type 0 → Type 0
Action A = World → Result A × World

module _ {A : Type 0} where
  abbrev pub pure : A → Action A
  pure a w = (ok a, w)

  abbrev pub raise : GoError → Action A
  raise e w = (err e, w)

  abbrev pub crash : Action A
  crash w = (panic, w)

  abbrev pub gets : (World → A) → Action A
  gets f w = (ok (f w), w)

  abbrev pub or_raise : Option A → GoError → Action A
  or_raise none e = raise e
  or_raise (some a) e = pure a

  -- `if err != nil` where the code goes on: `none` is an error.
  abbrev pub attempt : Action A → Action (Option A)
  attempt m w =
      let (r, w') = m w in
      elim r [ ok a ↦ (ok (some a), w') | err e ↦ (ok none, w') | panic ↦ (panic, w') ]

  -- `if err != nil` where the code uses the error.
  abbrev pub handle : {B : Type 0} → Action A → (GoError → Action B) → (A → Action B) → Action B
  handle m on_error f w =
      let (r, w') = m w in elim r [ ok a ↦ f a w' | err e ↦ on_error e w' | panic ↦ (panic, w') ]

infixl 5 ◌>>=◌ ◌>>◌
abbrev pub ◌>>=◌ : {A B : Type 0} → Action A → (A → Action B) → Action B
◌>>=◌ m f w =
    let (r, w') = m w in elim r [ ok a ↦ f a w' | err e ↦ (err e, w') | panic ↦ (panic, w') ]

abbrev pub ◌>>◌ : {A B : Type 0} → Action A → Action B → Action B
m >> k = m >>= λ _. k

abbrev pub modify : (World → World) → Action (Unit {0})
modify f w = (ok tt, f w)

abbrev pub update {ℓ} : {A : Type ℓ} → (String → A) → String → A → String → A
update f k v j = if str_eq j k then v else f j

abbrev pub spawn : Task → Action (Unit {0})
spawn t = modify (λ w. record w { tasks = w.tasks ++ (t ∷ []) })

module _ (out : Outside) where
  -- A call of Redis or MongoDB.
  abbrev pub call : Action (Unit {0})
  call w =
      (elim (out.fault w.tick) [ none ↦ ok tt | some e ↦ err e ], record w { tick = w.tick + 1 })

  -- `time.Now()`
  abbrev pub time_now : Action Time
  time_now w = (ok (out.now w.tick), record w { tick = w.tick + 1 })

  -- `redisDB.Get` and the decoding of its value, for each kind of key.
  unfoldable pub get_game_questions : String → Action GameQuestions
  get_game_questions id = do call; or_raise (← gets (λ w. w.game_questions id)) (text "redis: nil")

  unfoldable pub get_status_text : ℕ → Action String
  get_status_text id = do call; or_raise (← gets (λ w. w.user_status id)) (text "redis: nil")

  unfoldable pub get_game_status : String → Action ReadyPlayers
  get_game_status id = do call; or_raise (← gets (λ w. w.game_status id)) (text "redis: nil")

  unfoldable pub set_game_questions : String → GameQuestions → Action (Unit {0})
  set_game_questions id v = do
    call
    modify (λ w. record w { game_questions = update w.game_questions id (some v) })

  unfoldable pub set_game_status : String → ReadyPlayers → Action (Unit {0})
  set_game_status id v = do
    call
    modify (λ w. record w { game_status = update w.game_status id (some v) })
