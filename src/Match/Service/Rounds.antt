-- ===== src/Match/Service/Rounds.antt =====
-- Whole rounds of `MatchWaitUsers`.
use brain_blitz.Prelude.{
  ℕ, ◌≤◌, ◌+◌, String, ◌≡◌, ◌≢◌, length-take, refl, ap, sym, ◌∙◌, true, false, none, List, [], ◌∷◌,
  ◌++◌, map, ltb, if◌then◌else◌, length, All, arith, length-append,
}
use brain_blitz.Prelude.Sort.{insert_sorted}
use brain_blitz.Contract.{MatchedUsersMsg, Wire}
use brain_blitz.Match.Entity.{
  Category, sport, music, tech, unknown, get_categories, same_category, WaitingMember, MatchedUsers,
}
use brain_blitz.Match.Grouping.{earlier, sort_waiting, has_category, make_matches, even_part}
use brain_blitz.Match.Grouping.Laws.{
  even_part_bounds, waiting_for, users_of, has_category_single, same_category_refl,
}
use brain_blitz.Match.Grouping.Matches.{
  IsMatch, paired, make_matches-IsMatch, users_of-make_matches,
}
use brain_blitz.Match.Service.{
  Environment, label, collect_waiting, publish_final_users, match_wait_users,
}

length-insert_sorted :
    (c : Category) (m : WaitingMember) (ms : List WaitingMember)
    → length (waiting_for c (insert_sorted earlier m ms)) ≡ length (waiting_for c (m ∷ ms))
unfolding insert_sorted
length-insert_sorted c m [] = refl
length-insert_sorted c m (x ∷ ms) = ground (arith, length-insert_sorted c m ms)

length-sort_waiting :
    (c : Category) (ms : List WaitingMember)
    → length (waiting_for c (sort_waiting ms)) ≡ length (waiting_for c ms)
unfolding sort_waiting
length-sort_waiting c [] = refl
length-sort_waiting c (m ∷ ms) =
    length-insert_sorted c m (sort_waiting ms) ∙ ground (arith, length-sort_waiting c ms)

-- No category with two waiting users: no match.
paired_short : (us : List ℕ) → length us ≤ 1 → paired us ≡ []
unfolding even_part
paired_short [] h = refl
paired_short (u ∷ []) h = refl
paired_short (u ∷ v ∷ us) h = absurd (omega arith)

paired_long : (us : List ℕ) → 2 ≤ length us → paired us ≢ []
paired_long us h e =
    omega (arith, ap length e, length-take (even_part (length us)) us, even_part_bounds (length us))

nonempty : (us vs : List ℕ) → 2 ≤ length us → us ++ vs ≡ [] → ⊥
nonempty [] vs h e = omega arith
nonempty (u ∷ us) vs h e = cc

no_matches :
    (gs : List MatchedUsers) → All IsMatch gs → ((c : Category) → users_of c gs ≡ []) → gs ≡ []
no_matches [] h none_in = refl
no_matches (g ∷ gs) h none_in =
    let c = h.0.0.0 in
    let own : has_category c g ≡ true = has_category_single c c g h.0.0.1 ∙ same_category_refl c in
    absurd (nonempty g.user_id (users_of c gs) h.0.2 (rw own at (none_in c)))

pub waiting_for-append :
    (c : Category) (ms ns : List WaitingMember)
    → waiting_for c (ms ++ ns) ≡ waiting_for c ms ++ waiting_for c ns
waiting_for-append c [] ns = refl
waiting_for-append c (m ∷ ms) ns = ground (arith, waiting_for-append c ms ns)

length-waiting_for-label :
    (c d : Category) (ms : List WaitingMember)
    → length (waiting_for c (map (label d) ms)) ≡ (if same_category d c then length ms else 0)
length-waiting_for-label c d [] = ground arith
length-waiting_for-label c d (m ∷ ms) = ground (arith, length-waiting_for-label c d ms)

-- The members of all categories, as the first loop collects them.
abbrev pub all_waiting : (Category → List WaitingMember) → List WaitingMember
all_waiting lists =
    (map (label sport) (lists sport) ++ map (label music) (lists music))
    ++ map (label tech) (lists tech)

length_three :
    (c : Category) (xs ys zs : List WaitingMember)
    → length (
        (waiting_for c (map (label sport) xs) ++ waiting_for c (map (label music) ys))
        ++ waiting_for c (map (label tech) zs))
      ≡ (if same_category sport c then length xs else 0)
        + (if same_category music c then length ys else 0)
        + (if same_category tech c then length zs else 0)
length_three c xs ys zs =
    rw
      (
        length-append (waiting_for c (map (label sport) xs) ++ waiting_for c (map (label music) ys))
            (waiting_for c (map (label tech) zs)),
        length-append (waiting_for c (map (label sport) xs)) (waiting_for c (map (label music) ys)),
        length-waiting_for-label c sport xs,
        length-waiting_for-label c music ys,
        length-waiting_for-label c tech zs,
      )
      refl

own_length :
    (c : Category) (lists : Category → List WaitingMember)
    → (if same_category sport c then length (lists sport) else 0)
        + (if same_category music c then length (lists music) else 0)
        + (if same_category tech c then length (lists tech) else 0)
      ≡ (if same_category c unknown then 0 else length (lists c))
unfolding same_category
own_length sport lists = omega arith
own_length music lists = omega arith
own_length tech lists = omega arith
own_length unknown lists = omega arith

length-all_waiting :
    (c : Category) (lists : Category → List WaitingMember)
    → length (waiting_for c (all_waiting lists))
      ≡ (if same_category c unknown then 0 else length (lists c))
length-all_waiting c lists =
    rw
      (
        waiting_for-append c (map (label sport) (lists sport) ++ map (label music) (lists music))
            (map (label tech) (lists tech)),
        waiting_for-append c (map (label sport) (lists sport)) (map (label music) (lists music)),
      )
      (length_three c (lists sport) (lists music) (lists tech) ∙ own_length c lists)

length_queue :
    (c : Category) (lists : Category → List WaitingMember)
    → length (waiting_for c (sort_waiting (all_waiting lists)))
      ≡ (if same_category c unknown then 0 else length (lists c))
length_queue c lists = length-sort_waiting c (all_waiting lists) ∙ length-all_waiting c lists

no_matches_idle :
    (ulid : ℕ → String) (n : ℕ) (lists : Category → List WaitingMember)
    → ((c : Category) → length (lists c) ≤ 1)
    → make_matches ulid n (all_waiting lists) ≡ []
no_matches_idle ulid n lists short =
    no_matches (make_matches ulid n (all_waiting lists))
      (make_matches-IsMatch ulid n (all_waiting lists))
      λ c.
        users_of-make_matches c ulid n (all_waiting lists)
        ∙ paired_short (waiting_for c (sort_waiting (all_waiting lists)))
            (ground (arith, length_queue c lists, short c))

some_match_busy :
    (ulid : ℕ → String) (n : ℕ) (lists : Category → List WaitingMember) (c : Category)
    → same_category c unknown ≡ false
    → 2 ≤ length (lists c)
    → make_matches ulid n (all_waiting lists) ≢ []
some_match_busy ulid n lists c known many none_made =
    let queue = waiting_for c (sort_waiting (all_waiting lists)) in
    paired_long queue (ground (arith, length_queue c lists))
      (sym (users_of-make_matches c ulid n (all_waiting lists)) ∙ ap (users_of c) none_made)

length_pos {ℓ} : {A : Type ℓ} (xs : List A) → xs ≢ [] → ltb 0 (length xs) ≡ true
length_pos [] h = absurd (h refl)
length_pos (x ∷ xs) h = ground arith

module _ {S Bytes : Type 0} (env : Environment S Bytes) where
  collect_reads :
      (lists : Category → List WaitingMember) (s : S)
      → ((c : Category) → env.repository.get_waiting_list_by_category c s ≡ (lists c, none, s))
      → collect_waiting env get_categories [] none s ≡ (all_waiting lists, none, s)
  unfolding collect_waiting get_categories
  collect_reads lists s reads = rw (reads sport, reads music, reads tech) refl

  pub match_wait_users_lem :
      (wire : Wire Bytes (List MatchedUsersMsg)) (s : S)
      → match_wait_users env wire s ≡ (
          let (waiting_members, r_err, s') = collect_waiting env get_categories [] none s in
          let users = make_matches env.ulid (env.made s') waiting_members in
          if ltb 0 (length users)
          then (r_err, publish_final_users env wire users s')
          else (r_err, s'))
  unfolding match_wait_users
  match_wait_users_lem wire s = refl

  -- A round in which every waiting list can be read and holds at most one user publishes nothing
  -- and removes nobody: the state is the one it began with.
  pub match_wait_users_idle :
      (wire : Wire Bytes (List MatchedUsersMsg)) (lists : Category → List WaitingMember) (s : S)
      → ((c : Category) → env.repository.get_waiting_list_by_category c s ≡ (lists c, none, s))
      → ((c : Category) → length (lists c) ≤ 1)
      → match_wait_users env wire s ≡ (none, s)
  match_wait_users_idle wire lists s reads short =
      rw
        (
          match_wait_users_lem wire s,
          collect_reads lists s reads,
          no_matches_idle env.ulid (env.made s) lists short,
        )
        refl

  -- A round in which the lists can be read and one of a known category holds two users or more
  -- publishes the matches made of all the users read, and removes them, in one call of
  -- `publishFinalUsers`.
  pub match_wait_users_busy :
      (wire : Wire Bytes (List MatchedUsersMsg)) (lists : Category → List WaitingMember) (s : S)
      (c : Category)
      → ((c : Category) → env.repository.get_waiting_list_by_category c s ≡ (lists c, none, s))
      → same_category c unknown ≡ false
      → 2 ≤ length (lists c)
      → match_wait_users env wire s ≡ (
        none,
        publish_final_users env wire (make_matches env.ulid (env.made s) (all_waiting lists)) s,
      )
  match_wait_users_busy wire lists s c reads known many =
      rw
        (
          match_wait_users_lem wire s,
          collect_reads lists s reads,
          length_pos (make_matches env.ulid (env.made s) (all_waiting lists))
              (some_match_busy env.ulid (env.made s) lists c known many),
        )
        refl
