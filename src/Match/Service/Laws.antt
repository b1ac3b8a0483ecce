-- ===== src/Match/Service/Laws.antt =====
-- What the match service does with its repository and its broker.
use brain_blitz.Prelude.{
  ℕ, String, ◌≡◌, ◌≢◌, ◌↔◌, ◌⊎◌, refl, Option-cases, ap, ◌∙◌, inl, inr, true, Option, none, some,
  List, [], ◌∷◌, ◌++◌, if◌then◌else◌, All, arith, eq_iff,
}
use brain_blitz.Errors.{GoError, app, wrap, err_invalid_input, to_http_json, status_bad_request}
use brain_blitz.Contract.{AddToWaitingListMsg, Wire}
use brain_blitz.Match.Entity.{
  Category, unknown, sport, music, tech, to_string, same_category, map_to_category, WaitingMember,
  MatchedUsers, AddToWaitingListRequest, map_from_add_to_waiting_list_proto_to_entity,
}
use brain_blitz.Match.Grouping.{sort_waiting, make_matches}
use brain_blitz.Match.Grouping.Laws.{waiting_for, users_of, has_category_single}
use brain_blitz.Match.Grouping.Matches.{
  IsMatch, paired, make_matches-IsMatch, users_of-make_matches,
}
use brain_blitz.Match.Service.{
  Environment, Config, members_of, first_category, waiting_members_of,
  validate_add_to_waiting_list_request, add_to_waiting_list, consume_join_match_queue_request,
}

-- The documented behaviour of `validation.Required` on a string: it passes what is not empty.
abbrev pub PassesNonempty : (String → Option GoError) → Type 0
PassesNonempty required = (s : String) → s ≢ "" → required s ≡ none

map_to_category_empty : map_to_category "" ≡ unknown
unfolding map_to_category
map_to_category_empty = refl

map_to_category_name :
    (s : String) → (map_to_category s ≡ unknown) ⊎ (to_string (map_to_category s) ≡ s)
unfolding map_to_category to_string
map_to_category_name s = ground (arith, eq_iff s "SPORT", eq_iff s "MUSIC", eq_iff s "TECH")

-- Reading a category's name back gives the category, and a text is mapped to the unknown category
-- or is the name of the category that it is mapped to.
pub map_to_category_round_trip :
    (c : Category) (s : String)
    → (map_to_category (to_string c) ≡ c)
      × ((map_to_category s ≡ unknown) ⊎ (to_string (map_to_category s) ≡ s))
map_to_category_round_trip c s = (back c, map_to_category_name s)
  where
    back : (c : Category) → map_to_category (to_string c) ≡ c
    back sport = unfold map_to_category to_string in refl
    back music = unfold map_to_category to_string in refl
    back tech = unfold map_to_category to_string in refl
    back unknown = unfold map_to_category to_string in refl

pub same_category_unknown : (c : Category) → (same_category c unknown ≡ true) ↔ (c ≡ unknown)
unfolding same_category
same_category_unknown c = ground arith

waiting_for-members_of :
    (c d : Category) (us : List ℕ) (ms : List WaitingMember)
    → waiting_for c (members_of d us ++ ms)
      ≡ (if same_category d c then us ++ waiting_for c ms else waiting_for c ms)
waiting_for-members_of c d [] ms = ground arith
waiting_for-members_of c d (u ∷ us) ms = ground (arith, waiting_for-members_of c d us ms)

waiting_for-waiting_members_of :
    (c : Category) (gs : List MatchedUsers)
    → All IsMatch gs
    → waiting_for c (waiting_members_of gs) ≡ users_of c gs
unfolding waiting_members_of
waiting_for-waiting_members_of c [] h = refl
waiting_for-waiting_members_of c (g ∷ gs) h =
    let single = h.0.0.1 in
    waiting_for-members_of c (first_category g.category) g.user_id (waiting_members_of gs)
    ∙ rw (waiting_for-waiting_members_of c gs h.1, has_category_single c h.0.0.0 g single, single)
        refl

module _ {S Bytes : Type 0} (env : Environment S Bytes) where
  -- Where `Required` passes what is not empty, a request passes validation exactly when it names a
  -- known category.
  pub validate_iff :
      (passes : PassesNonempty env.required) (req : AddToWaitingListRequest)
      → (validate_add_to_waiting_list_request env req ≡ none)
        ↔ (map_to_category req.category ≢ unknown)
  unfolding validate_add_to_waiting_list_request
  validate_iff passes req = (
    λ passed is_unknown.
        ground (arith, (same_category_unknown (map_to_category req.category)).1 is_unknown),
    λ known.
        rw
          (
            passes req.category (λ empty. known (ap map_to_category empty ∙ map_to_category_empty)),
            validate_add_to_waiting_list_request,
          )
          (ground (arith, same_category_unknown (map_to_category req.category))),
  )

  -- A request for an unknown category, the empty one included, leaves the waiting lists alone and
  -- is answered as a bad request.
  pub add_to_waiting_list_rejects :
      (passes : PassesNonempty env.required) (config : Config) (req : AddToWaitingListRequest)
      (s : S)
      → map_to_category req.category ≡ unknown
      → let (timeout, err, s') = add_to_waiting_list env config req s in
        (s' ≡ s) × ((e : GoError) × (err ≡ some e) × ((to_http_json e).1 ≡ status_bad_request))
  unfolding add_to_waiting_list to_http_json wrap err_invalid_input
  add_to_waiting_list_rejects passes config req s bad =
      elim (Option-cases (validate_add_to_waiting_list_request env req)) [
        | inl passed ↦ absurd ((validate_iff passes req).0 passed bad)
        | inr (err, e) ↦
            rw (e, add_to_waiting_list)
              (
                refl,
                (
                  app (wrap "matchMakingHandler.AddToWaitingList" (some err) err_invalid_input),
                  refl,
                  refl,
                ),
              )
      ]

  -- What a round of matching removes from the waiting lists is, category by category, exactly who
  -- was matched: the even prefix of the queue.
  pub removed_eq_matched :
      (c : Category) (n : ℕ) (ms : List WaitingMember)
      → waiting_for c (waiting_members_of (make_matches env.ulid n ms))
        ≡ paired (waiting_for c (sort_waiting ms))
  removed_eq_matched c n ms =
      waiting_for-waiting_members_of c (make_matches env.ulid n ms)
        (make_matches-IsMatch env.ulid n ms)
      ∙ users_of-make_matches c env.ulid n ms

  -- A join request read from the broker changes the waiting lists only where its category is known:
  -- then the user's id, in decimal, goes to the list of that category, and the list's own error is
  -- the answer. One of an unknown category is dropped, and reported as done.
  pub consume_join_effect :
      (wire : Wire Bytes AddToWaitingListMsg) (bad_message : GoError) (m : AddToWaitingListMsg)
      {b : Bytes} (s : S)
      → wire.marshal m ≡ some b
      → consume_join_match_queue_request env wire bad_message b s ≡ (
          if same_category (map_to_category m.category) unknown
          then (none, s)
          else env.repository.add_to_waiting_list
              (map_to_category m.category)
              (env.format_uint m.user_id)
              s)
  unfolding consume_join_match_queue_request map_from_add_to_waiting_list_proto_to_entity
  consume_join_effect wire bad_message m s e =
      rw (wire.round_trip m _ e, consume_join_match_queue_request) refl
