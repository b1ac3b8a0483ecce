-- ===== src/Match/Delivery/Laws.antt =====
-- Who is put on the waiting list by a request.
use brain_blitz.Prelude.{
  String, ◌≡◌, refl, sym, ◌∙◌, ap, inl, inr, Option, none, some, arith, str_eq, Option-cases,
  Bool-cases,
}
use brain_blitz.Errors.{
  status_ok, to_http_json, as_app_error, wrap, new, err_invalid_input, err_internal,
}
use brain_blitz.Match.Entity.{AddToWaitingListRequest, map_to_category}
use brain_blitz.Match.Service.{
  Environment, Config, validate_add_to_waiting_list_request, add_to_waiting_list,
}
use brain_blitz.Match.Delivery.{http_add_to_waiting_list, waiting_answer}
use brain_blitz.Http.{Header, Bind, get_header}

-- What the struct's user id is after a body with or without a field UserId.
abbrev pub overridden : Option String → String → String
overridden none id = id
overridden (some user) id = user

module _ {S Bytes : Type 0} (env : Environment S Bytes) where
  joined :
      (config : Config) (req : AddToWaitingListRequest) (s : S)
      → (waiting_answer env (add_to_waiting_list env config req s)).0.status ≡ status_ok
      → let (e, s') =
          env.repository.add_to_waiting_list (map_to_category req.category) req.user_id s in
        (e ≡ none) × ((waiting_answer env (add_to_waiting_list env config req s)).1 ≡ s')
  unfolding add_to_waiting_list to_http_json as_app_error wrap err_invalid_input err_internal new
  joined config req s done = elim (Option-cases (validate_add_to_waiting_list_request env req)) [
    | inr (err, e) ↦ absurd (ground (arith, e, done))
    | inl passed ↦
        elim (Option-cases
          (env.repository.add_to_waiting_list (map_to_category req.category) req.user_id s).0) [
            | inr (err, e) ↦ absurd (ground (arith, passed, e, done))
            | inl kept ↦ (kept, rw (add_to_waiting_list, passed, kept) refl)
          ]
  ]

  -- echo binds the fields that a JSON body has and keeps the others. A request that is answered with
  -- 200 has put the user whom the body names on the waiting list of its category, whoever the header
  -- says that the client is; the header's user is put there only where the body names none.
  pub body_names_user :
      (config : Config) (header : Header) (bind : Bind AddToWaitingListRequest) (category : String)
      (named : Option String) (s : S)
      → ((r : AddToWaitingListRequest)
          → bind r ≡ (record { category = category; user_id = overridden named r.user_id }, none))
      → (http_add_to_waiting_list env config header bind s).0.status ≡ status_ok
      → let user = overridden named (get_header header "X-User-ID") in
        let (e, s') = env.repository.add_to_waiting_list (map_to_category category) user s in
        (e ≡ none) × ((http_add_to_waiting_list env config header bind s).1 ≡ s')
  unfolding http_add_to_waiting_list
  body_names_user config header bind category named s bound done =
      elim (Bool-cases (str_eq (get_header header "X-User-ID") "")) [
        | inl empty ↦ absurd (ground (arith, empty, done))
        | inr present ↦
            let req : AddToWaitingListRequest = record {
              category = category;
              user_id = overridden named (get_header header "X-User-ID");
            } in
            let b = bound (record { category = ""; user_id = get_header header "X-User-ID" }) in
            let answered : http_add_to_waiting_list env config header bind s
                ≡ waiting_answer env (add_to_waiting_list env config req s) =
              rw (http_add_to_waiting_list, present, ap (λ p. p.1) b)
                (ap (λ r. waiting_answer env (add_to_waiting_list env config r s))
                  (ap (λ p. p.0) b)) in
            let (kept, after) = joined config req s (sym (ap (λ a. a.0.status) answered) ∙ done) in
            (kept, ap (λ a. a.1) answered ∙ after)
      ]
