-- ===== src/Question/Repository.antt =====
-- services/question_app/repository/questions.go, over database/sql: the statements are the source's,
-- on one line, and the database that answers them is a parameter on a state `S`, which they do not change.
pub mod Laws
use Prim.Native.String.{◌++◌ as str_append}
use brain_blitz.Prelude.{ℕ, String, Option, none, some, List, [], ◌∷◌, map, push}
use brain_blitz.Errors.{GoError, wrapped, error_text}
use brain_blitz.Question.Service.{
  Category, category_text, Difficulty, difficulty_text, Question, Environment,
}

pub data Result {ℓ} (A : Type ℓ) : Type ℓ where
  ok : A → Result A
  err : GoError → Result A

-- `*sql.Rows`: what `Scan` gives for each row that `Next` finds, and what `Err` is after the last.
pub record Rows (A : Type 0) : Type 0 where
  pub scanned : List (Result A)
  pub ended : Option GoError

-- `*sql.DB`: the queries' answers to their arguments. An array is NULL where it is `none`.
pub record Database (S : Type 0) : Type 0 where
  pub prepare : String → S → Option GoError
  pub select_seen : String → List ℕ → S → Result (Rows String)
  pub select_proper : String → List String → Option (List String) → ℕ → S → Result (Rows Question)
  pub select_random : String → List String → String → ℕ → S → Result (Rows Question)

abbrev pub seen_query : String
seen_query =
    "SELECT DISTINCT question_id FROM user_question_history WHERE user_id = ANY($1) AND seen_at > NOW() - INTERVAL '30 days'"

abbrev pub proper_query : String
proper_query =
    "SELECT id, content, correct_answer, choices, category, difficulty FROM questions WHERE category = ANY($1) AND id != ALL($2) ORDER BY RANDOM() LIMIT $3"

abbrev pub random_query : String
random_query =
    "SELECT id, content, correct_answer, choices, category, difficulty FROM questions WHERE category = ANY($1) AND difficulty = $2 ORDER BY RANDOM() LIMIT $3"

-- `fmt.Errorf(text + ": %w", err)`
abbrev pub failed_to : String → GoError → GoError
unfolding error_text
failed_to what e = wrapped (str_append what (str_append ": " (error_text e))) e

-- The loops over the rows, with what was read before: the first error of `Scan` ends them.
unfoldable pub scan_rows : {A : Type 0} → String → List A → List (Result A) → Result (List A)
unfolding failed_to
scan_rows what done [] = ok done
scan_rows what done (ok a ∷ rows) = scan_rows what (push done a) rows
scan_rows what done (err e ∷ rows) = err (failed_to what e)

-- `pq.Array` of a slice that is nil until a row is appended.
abbrev pub seen_array : List String → Option (List String)
seen_array [] = none
seen_array (id ∷ ids) = some (id ∷ ids)

-- The slice that is returned beside an error is nil.
abbrev pub returned : Result (List Question) → List Question × Option GoError
returned (ok questions) = (questions, none)
returned (err e) = ([], some e)

module _ {S : Type 0} (db : Database S) where
  unfoldable pub get_seen : List ℕ → S → Result (List String)
  unfolding scan_rows failed_to
  get_seen user_ids s = elim (db.prepare seen_query s) [
    | some e ↦ err (failed_to "failed to prepare seenQuery statement" e)
    | none ↦ elim (db.select_seen seen_query user_ids s) [
      | err e ↦ err e
      | ok rows ↦ elim (scan_rows "failed to scan question ID" [] rows.scanned) [
        | err e ↦ err e
        | ok ids ↦ elim rows.ended [ some e ↦ err e | none ↦ ok ids ]
      ]
    ]
  ]

  -- The second loops of the two functions do not read `rows.Err()`.
  abbrev pub read_questions : Result (Rows Question) → Result (List Question)
  unfolding scan_rows failed_to
  read_questions answer = elim answer [
    | err e ↦ err (failed_to "failed to query questions" e)
    | ok rows ↦ scan_rows "failed to scan question row" [] rows.scanned
  ]

  unfoldable pub get_proper_questions :
      List ℕ → List Category → ℕ → S → List Question × Option GoError
  unfolding get_seen read_questions category_text
  get_proper_questions user_ids category limit s = elim (get_seen user_ids s) [
    | err e ↦ ([], some e)
    | ok ids ↦ returned (
        read_questions
          (db.select_proper proper_query (map category_text category) (seen_array ids) limit s))
  ]

  unfoldable pub get_random_questions :
      List Category → Difficulty → ℕ → S → List Question × Option GoError
  unfolding read_questions category_text difficulty_text
  get_random_questions category difficulty limit s = returned (
      read_questions (
        db.select_random random_query (map category_text category) (difficulty_text difficulty)
          limit s))

  -- The service's `Repository` is this one.
  unfoldable pub with_repository : {Bytes : Type 0} → Environment S Bytes → Environment S Bytes
  unfolding get_random_questions
  with_repository env = record env {
    get_random_questions = λ category difficulty limit s.
        let (questions, e) = get_random_questions category difficulty limit s in (questions, e, s);
  }
