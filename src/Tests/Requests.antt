-- ===== src/Tests/Requests.antt =====
-- HTTP requests to the match service, and questions from a table.
use brain_blitz.Prelude.{
  ℕ, String, true, false, ◌≡◌, refl, sym, ◌∙◌, ap, Option, none, some, List, [], ◌∷◌, any, ◌==◌,
  Bool-cases, inl, inr, if◌then◌else◌, map,
}
use brain_blitz.Match.Entity.{sport}
use brain_blitz.Match.Service.{Environment, Config, add_to_waiting_list}
use brain_blitz.Match.Delivery.{http_add_to_waiting_list}
use brain_blitz.Match.Delivery.Laws.{body_names_user}
use brain_blitz.Http.{Header, set_header}
use brain_blitz.Question.Service
use brain_blitz.Question.Repository.{
  Database, Rows, Result, ok, err, get_seen, get_proper_questions, scan_rows,
}
use brain_blitz.Question.Repository.Laws.{
  is_seen, row_is_seen, SelectsUnseen, get_proper_questions_lem,
}
use brain_blitz.Tests.Questions.{question}

-- A list of the users who have been put on it.
abbrev environment : Environment (List String) ℕ
environment = record {
  repository = record {
    add_to_waiting_list = λ c id s. (none, id ∷ s);
    get_waiting_list_by_category = λ c s. ([], none, s);
    remove_waiting_member = λ l s. (none, s);
  };
  publish = λ t b s. (none, s);
  ulid = λ n. "ulid";
  made = λ s. 0;
  required = λ s. none;
  format_uint = λ n. "7";
}

abbrev config : Config
config = record { waiting_timeout = 30; least_presence = 10 }

abbrev header : Header
header = set_header "X-User-ID" "7" (λ name. none)

-- The client is 7, and his body says that he is 8.
body_names_user_example :
    let (e, s') = environment.repository.add_to_waiting_list sport "8" [] in
    (e ≡ none)
    × ((http_add_to_waiting_list environment config header
          (λ r. (record { category = "SPORT"; user_id = "8" }, none))
          []).1
        ≡ s')
unfolding http_add_to_waiting_list add_to_waiting_list
body_names_user_example =
    body_names_user environment config header
      (λ r. (record { category = "SPORT"; user_id = "8" }, none)) "SPORT" (some "8") [] (λ r. refl)
      refl

-- The table holds one question, and the first user has seen the question q0.
abbrev answered : Option (List String) → Rows Service.Question
answered none = record { scanned = []; ended = none }
answered (some ids) = record {
  scanned = if is_seen ids question then [] else ok question ∷ [];
  ended = none;
}

abbrev db : Database ℕ
db = record {
  prepare = λ q s. none;
  select_seen = λ q users s. ok (record {
    scanned = map ok (if any (λ u. u == 1) users then "q0" ∷ [] else []);
    ended = none;
  });
  select_proper = λ q cs ids n s. ok (answered ids);
  select_random = λ q cs d n s. ok (record { scanned = ok question ∷ []; ended = none });
}

read : Result (Rows Service.Question) → Rows Service.Question
read (ok rows) = rows
read (err e) = answered none

answered_unseen : (ids : List String) → any (row_is_seen ids) (answered (some ids)).scanned ≡ false
answered_unseen ids = elim (Bool-cases (is_seen ids question)) [
  | inl seen ↦ ap (λ b. any (row_is_seen ids) (if b then [] else ok question ∷ [])) seen
  | inr new ↦
      ap (λ b. any (row_is_seen ids) (if b then [] else ok question ∷ [])) new
      ∙ ap (λ b. if b then true else false) new
]

db-SelectsUnseen : SelectsUnseen db
unfolding read
db-SelectsUnseen = record {
  null = λ cs n s rows same. sym (ap (λ r. (read r).scanned) same);
  unseen = λ cs ids n s rows same.
      ap (λ r. any (row_is_seen ids) (read r).scanned) (sym same) ∙ answered_unseen ids;
}

-- Who has seen q0 gets q1; who has seen nothing would get nothing.
get_proper_questions_lem_example :
    (ids : List String) × (get_seen db (1 ∷ []) 0 ≡ ok ids)
    × (any (is_seen ids) (question ∷ []) ≡ false)
    × (ids ≡ [] → question ∷ [] ≡ [])
unfolding get_proper_questions get_seen scan_rows
get_proper_questions_lem_example =
    get_proper_questions_lem db db-SelectsUnseen (1 ∷ []) (Service.tech ∷ []) 10 0 (question ∷ [])
      refl
