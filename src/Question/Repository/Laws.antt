-- ===== src/Question/Repository/Laws.antt =====
-- What the two methods of the question repository return.
use brain_blitz.Prelude.{
  ℕ, String, ◌≡◌, ◌⊎◌, refl, sym, ◌∙◌, ap, append_nil, push-append, any, Bool, true, false,
  if◌then◌else◌, str_eq, inl, inr, none, some, List, [], ◌∷◌, ◌++◌, map, push, arith,
}
use brain_blitz.Errors.{GoError}
use brain_blitz.Question.Service.{Category, category_text, Question}
use brain_blitz.Question.Repository.{
  Result, ok, err, Rows, Database, proper_query, scan_rows, seen_array, returned, read_questions,
  get_seen, get_proper_questions,
}

Result-cases : {A : Type 0} (r : Result A) → ((a : A) × (r ≡ ok a)) ⊎ ((e : GoError) × (r ≡ err e))
Result-cases (ok a) = inl (a, refl)
Result-cases (err e) = inr (e, refl)

-- Rows that were all scanned.
abbrev pub all_ok : {A : Type 0} → List A → List (Result A)
all_ok = map ok

abbrev result_or : {A : Type 0} → A → Result A → A
result_or other (ok a) = a
result_or other (err e) = other

-- Where the loop ends without an error, it gives all the rows, in order, after what was read before.
scan_rows_lem :
    {A : Type 0} (what : String) (done : List A) (rows : List (Result A)) (out : List A)
    → scan_rows what done rows ≡ ok out
    → (read : List A) × (rows ≡ all_ok read) × (out ≡ done ++ read)
unfolding scan_rows
scan_rows_lem what done [] out same = ([], refl, sym (ap (result_or done) same) ∙ append_nil done)
scan_rows_lem what done (err e ∷ rows) out same = absurd (ground arith)
scan_rows_lem what done (ok a ∷ rows) out same =
    let (read, shape, here) = scan_rows_lem what (push done a) rows out same in
    (a ∷ read, (λ i. ok a ∷ shape i), here ∙ push-append done a read)

-- Whether a question's id is one of these, and whether a row's is.
abbrev pub is_seen : List String → Question → Bool
is_seen ids q = any (λ id. str_eq id q.id) ids

abbrev pub row_is_seen : List String → Result Question → Bool
row_is_seen ids (ok q) = is_seen ids q
row_is_seen ids (err e) = false

seen_rows :
    (ids : List String) (qs : List Question)
    → any (row_is_seen ids) (all_ok qs) ≡ any (is_seen ids) qs
seen_rows ids [] = refl
seen_rows ids (q ∷ qs) = ap (λ b. if is_seen ids q then true else b) (seen_rows ids qs)

no_rows : (qs : List Question) → all_ok qs ≡ [] → qs ≡ []
no_rows [] none_left = refl
no_rows (q ∷ qs) none_left = absurd (ground arith)

-- What SQL says of the condition `id != ALL($2)`: no row fulfils it where the array is NULL, and
-- one fulfils it where its id is not in the array.
pub record SelectsUnseen {S : Type 0} (db : Database S) : Type 0 where
  pub null :
      (categories : List String) (limit : ℕ) (s : S) (rows : Rows Question)
      → db.select_proper proper_query categories none limit s ≡ ok rows
      → rows.scanned ≡ []
  pub unseen :
      (categories ids : List String) (limit : ℕ) (s : S) (rows : Rows Question)
      → db.select_proper proper_query categories (some ids) limit s ≡ ok rows
      → any (row_is_seen ids) rows.scanned ≡ false

module _ {S : Type 0} (db : Database S) where
  read_questions_lem :
      (answer : Result (Rows Question)) (questions : List Question)
      → returned (read_questions db answer) ≡ (questions, none)
      → (rows : Rows Question) × (answer ≡ ok rows) × (rows.scanned ≡ all_ok questions)
  unfolding scan_rows read_questions
  read_questions_lem (err e) questions same = absurd (ground arith)
  read_questions_lem (ok rows) questions same =
      let loop = scan_rows "failed to scan question row" [] rows.scanned in
      elim (Result-cases loop) [
        | inr (e, failed) ↦ absurd (ground (arith, failed, same))
        | inl (out, done) ↦
            let (read, shape, here) =
              scan_rows_lem "failed to scan question row" [] rows.scanned out done in
            let all : out ≡ questions = ap (λ p. p.0) (sym (ap returned done) ∙ same) in
            (rows, refl, shape ∙ ap all_ok (sym here ∙ all))
      ]

  after :
      (user_ids : List ℕ) (categories : List Category) (limit : ℕ) (s : S) (ids : List String)
      → get_seen db user_ids s ≡ ok ids
      → get_proper_questions db user_ids categories limit s
        ≡ returned (
            read_questions db (
              db.select_proper proper_query
                (map category_text categories)
                (seen_array ids)
                limit
                s))
  unfolding get_proper_questions
  after user_ids categories limit s ids found = rw (found, get_proper_questions) refl

  -- What GetProperQuestions returns without an error: no question that one of the users has seen, as
  -- far as the first query tells, and where they have seen none, no question at all.
  pub get_proper_questions_lem :
      (sql : SelectsUnseen db) (user_ids : List ℕ) (categories : List Category) (limit : ℕ) (s : S)
      (questions : List Question)
      → get_proper_questions db user_ids categories limit s ≡ (questions, none)
      → (ids : List String) × (get_seen db user_ids s ≡ ok ids)
        × (any (is_seen ids) questions ≡ false)
        × (ids ≡ [] → questions ≡ [])
  unfolding get_proper_questions
  get_proper_questions_lem sql user_ids categories limit s questions same =
      elim (Result-cases (get_seen db user_ids s)) [
        | inr (e, failed) ↦ absurd (ground (arith, failed, same))
        | inl ([], none_seen) ↦
            let (rows, answered, shape) =
              read_questions_lem _ questions
                (sym (after user_ids categories limit s [] none_seen) ∙ same) in
            let none_at_all : questions ≡ [] =
              no_rows questions (sym shape ∙ sql.null _ limit s rows answered) in
            ([], none_seen, ap (any (is_seen [])) none_at_all, λ e. none_at_all)
        | inl (id ∷ ids, some_seen) ↦
            let (rows, answered, shape) =
              read_questions_lem _ questions
                (sym (after user_ids categories limit s (id ∷ ids) some_seen) ∙ same) in
            (
              id ∷ ids,
              some_seen,
              sym (seen_rows (id ∷ ids) questions)
                  ∙ ap (any (row_is_seen (id ∷ ids))) (sym shape)
                  ∙ sql.unseen _ (id ∷ ids) limit s rows answered,
              λ e. absurd (ground arith),
            )
      ]
