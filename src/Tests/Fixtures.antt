-- ===== src/Tests/Fixtures.antt =====
-- A clock that ticks once a second, stores that never fail, players, questions and a waiting list.
use brain_blitz.Prelude.{
  ℕ, ◌+◌, ◌*◌, String, sym, Bool, true, none, some, List, [], ◌∷◌, ◌==◌, str_eq, if◌then◌else◌,
}
use brain_blitz.Prelude.Int.{pos}
use brain_blitz.Errors.{text}
use brain_blitz.Contract.{Wire, MatchedUsersMsg}
use brain_blitz.Match.Entity.{Category, sport, music, tech, unknown, WaitingMember}
use brain_blitz.Match.Service.{Environment}
use brain_blitz.Game.Entity
use brain_blitz.Game.Entity.{Question, GameQuestions, PlayerAnswer, Game, ReadyPlayers}
use brain_blitz.Game.World.{World, Outside, Config, ok}
use brain_blitz.Game.Service.Connections.{Front}

abbrev pub second : ℕ
second = 1000000000

-- The time 1000 s, and one second for each call.
abbrev pub steady : Outside
steady = record {
  fault = λ n. none;
  now = λ n. (1000 + n) * second;
  object_id_hex = λ n. "game";
  object_id_from_hex = λ s. none;
}

abbrev pub config : Config
config = record {
  valid_answer_time_out = pos (15 * second);
  score_config = record {
    base_score = pos 10;
    max_bonus = pos 5;
    bonus_deadline = pos (10 * second);
  };
}

abbrev pub first_question : Question
first_question = record {
  id = "q1";
  content = "2 + 2?";
  correct_answer = "4";
  status = "";
  choices = "3" ∷ "4" ∷ [];
  category = Entity.tech;
  valid_answer_time = 1010 * second;
  difficulty = Entity.easy;
}

abbrev pub second_question : Question
second_question = record first_question { id = "q2"; valid_answer_time = 1025 * second }

abbrev pub questions : GameQuestions
questions = record {
  questions = first_question ∷ second_question ∷ [];
  players = 7 ∷ 8 ∷ [];
  current_question_index = 0;
}

abbrev pub right_answer : PlayerAnswer
right_answer = record {
  game_id = "game";
  question_id = "q1";
  player_id = pos 7;
  player_choice = "4";
  correct_choice = "";
  answer_time = 1005 * second;
  valid_time_to_answer = 0;
  time_diff = pos 0;
  options = [];
  point = pos 0;
  category = Entity.unknown;
}

abbrev pub new_game : Game
new_game = record {
  players = 7 ∷ 8 ∷ [];
  match_id = "match";
  category = Entity.tech ∷ [];
  status = Entity.pending;
  question = none;
  created_at = 0;
  updated_at = 0;
}

abbrev pub empty_world : World
empty_world = record {
  game_questions = λ id. none;
  user_status = λ id. none;
  game_status = λ id. none;
  games = [];
  player_answers = [];
  tasks = [];
  tick = 0;
  connections = λ id. none;
  sent = [];
  closed = [];
  published = [];
  scheduled = [];
}

-- Players 7 and 8 are connected, and player 7 is ready.
abbrev pub waiting_world : World
waiting_world = record empty_world {
  game_questions = λ id. if str_eq id "game" then some questions else none;
  game_status = λ id.
      if str_eq id "game"
      then some (record { expected_number_of_players = 2; players = pos 7 ∷ [] })
      else none;
  connections = λ id. if id == 7 then some 70 else if id == 8 then some 80 else none;
}

-- Every write succeeds; the bytes of a broker message are the list of its matches.
abbrev pub front : Front (List MatchedUsersMsg)
front = record {
  write = λ conn n. ok tt;
  decode_request = λ s. none;
  parse_uint = λ s. none;
  decode_matched_users = λ b. some b;
  decode_questions = λ b. none;
  can_marshal = λ m. true;
  iteration = λ l. l;
}

abbrev pub member : ℕ → ℕ → WaitingMember
member user_id time_stamp = record { user_id = user_id; time_stamp = time_stamp; category = sport }

-- Three users wait for SPORT, the third and the first the longest, and one for MUSIC.
abbrev pub waiting_list : List WaitingMember
waiting_list =
    member 1 20 ∷ member 2 30 ∷ member 3 10 ∷ record (member 4 15) { category = music } ∷ []

abbrev pub ids : ℕ → String
ids n = "match"

abbrev pub lists : Category → List WaitingMember
lists sport = member 1 20 ∷ member 2 30 ∷ member 3 10 ∷ []
lists music = record (member 4 15) { category = music } ∷ []
lists tech = []
lists unknown = []

abbrev pub short_lists : Category → List WaitingMember
short_lists sport = member 1 20 ∷ []
short_lists music = record (member 4 15) { category = music } ∷ []
short_lists tech = []
short_lists unknown = []

-- A matching service on waiting lists in memory: the state is whether something was published.
abbrev pub environment : (Category → List WaitingMember) → Environment Bool (List MatchedUsersMsg)
environment waiting = record {
  repository = record {
    add_to_waiting_list = λ c u s. (none, s);
    get_waiting_list_by_category = λ c s. (waiting c, none, s);
    remove_waiting_member = λ ms s. (none, s);
  };
  publish = λ topic b s. (none, true);
  ulid = ids;
  made = λ s. 0;
  required = λ s. if str_eq s "" then some (text "cannot be blank") else none;
  format_uint = λ n. "7";
}

-- A wire whose bytes are the messages themselves.
abbrev pub plain : {M : Type 0} → M → Wire M M
plain m = record {
  nil = m;
  marshal = λ m. some m;
  unmarshal = λ b. some b;
  round_trip = λ m b e. sym e;
}
