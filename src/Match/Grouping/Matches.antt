-- ===== src/Match/Grouping/Matches.antt =====
-- The matches that `MatchWaitUsers` publishes, against the waiting list.
use mathlib.Core.List.{append-nil, Perm}
use brain_blitz.Prelude.{
  ℕ, suc, ◌%◌, ◌≤◌, String, ◌≡◌, refl, ap, ◌∙◌, inl, inr, true, false, List, [], ◌∷◌, ◌++◌, ltb,
  any, take, drop, All, length, arith, Bool-cases, length-take, length-drop, take-append-drop,
}
use brain_blitz.Prelude.Sort.{IsSorted, sort_slice-perm, sort_slice-IsSorted}
use brain_blitz.Match.Entity.{Category, WaitingMember, MatchedUsers}
use brain_blitz.Match.Grouping.{
  earlier, sort_waiting, has_category, group_members, even_part, final_users, make_matches,
}
use brain_blitz.Match.Grouping.Laws.{
  waiting_for, users_of, IsPartition, users_of_absent, users_of-gone, any_absent, even_part_bounds,
  group_members_by_category,
}

any-final_users :
    (c : Category) (ulid : ℕ → String) (n : ℕ) (gs : List MatchedUsers)
    → any (has_category c) gs ≡ false
    → any (has_category c) (final_users ulid n gs) ≡ false
unfolding final_users has_category
any-final_users c ulid n [] h = refl
any-final_users c ulid n (g ∷ gs) h =
    ground (arith, any-final_users c ulid n gs, any-final_users c ulid (suc n) gs)

even_part_short : (r : ℕ) → ltb r 2 ≡ true → even_part r ≡ 0
unfolding even_part
even_part_short r h = ground arith

-- The match made of a group.
abbrev match_of : String → MatchedUsers → MatchedUsers
match_of id g = record {
  id = id;
  category = g.category;
  user_id = take (even_part (length g.user_id)) g.user_id;
}

has_category-match_of :
    (c : Category) (id : String) (g : MatchedUsers)
    → has_category c (match_of id g) ≡ has_category c g
unfolding has_category
has_category-match_of c id g = refl

-- The match of a group whose category has no other group.
users_of-own :
    (c : Category) (ulid : ℕ → String) (n : ℕ) (g : MatchedUsers) (gs : List MatchedUsers)
    → has_category c g ≡ true
    → any (has_category c) gs ≡ false
    → users_of c (final_users ulid n (g ∷ gs)) ≡ take (even_part (length g.user_id)) g.user_id
unfolding final_users
users_of-own c ulid n g gs own apart = elim (Bool-cases (ltb (length g.user_id) 2)) [
  | inl short ↦
      rw (short, even_part_short (length g.user_id) short)
        (users_of_absent c (final_users ulid n gs) (any-final_users c ulid n gs apart))
  | inr long ↦
      rw
        (
          long,
          has_category-match_of c (ulid n) g,
          own,
          users_of_absent c (final_users ulid (suc n) gs) (any-final_users c ulid (suc n) gs apart),
        )
        (append-nil _)
]

users_of-other :
    (c : Category) (ulid : ℕ → String) (n : ℕ) (g : MatchedUsers) (gs : List MatchedUsers)
    (us : List ℕ)
    → has_category c g ≡ false
    → ((k : ℕ) → users_of c (final_users ulid k gs) ≡ us)
    → users_of c (final_users ulid n (g ∷ gs)) ≡ us
unfolding final_users
users_of-other c ulid n g gs us other ih = elim (Bool-cases (ltb (length g.user_id) 2)) [
  | inl short ↦ rw short (ih n)
  | inr long ↦ rw (long, has_category-match_of c (ulid n) g, other) (ih (suc n))
]

-- The even prefix of a list of users.
abbrev pub paired : List ℕ → List ℕ
paired us = take (even_part (length us)) us

users_of-final_users :
    (c : Category) (ulid : ℕ → String) (n : ℕ) (gs : List MatchedUsers)
    → IsPartition gs
    → users_of c (final_users ulid n gs) ≡ paired (users_of c gs)
users_of-final_users c ulid n [] h = unfold final_users even_part in refl
users_of-final_users c ulid n (g ∷ gs) h = elim (Bool-cases (has_category c g)) [
  | inl own ↦
      let gone = users_of-gone c h.0.0 g gs h.0.1 h.0.2 own in
      rw
        (
          users_of-own c ulid n g gs own (any_absent c h.0.0 g gs h.0.1 h.0.2 own),
          own,
          gone,
          append-nil,
        )
        refl
  | inr other ↦ rw other (
      users_of-other c ulid n g gs (paired (users_of c gs)) other
        (λ k. users_of-final_users c ulid k gs h.1))
]

-- For every category, the users matched are the even prefix of those who wait for it in the sorted
-- list.
pub users_of-make_matches :
    (c : Category) (ulid : ℕ → String) (n : ℕ) (ms : List WaitingMember)
    → users_of c (make_matches ulid n ms) ≡ paired (waiting_for c (sort_waiting ms))
unfolding make_matches
users_of-make_matches c ulid n ms =
    let (partition, users) = group_members_by_category (sort_waiting ms) in
    users_of-final_users c ulid n (group_members [] (sort_waiting ms)) partition
    ∙ ap paired (users c)

-- The queue that the matches are made from is in order of the time stamps.
pub sort_waiting-IsSorted : (ms : List WaitingMember) → IsSorted earlier (sort_waiting ms)
unfolding sort_waiting earlier
sort_waiting-IsSorted ms =
    sort_slice-IsSorted earlier (λ x y h. ground arith) (λ x y z h k. ground arith) ms

pub length-drop_paired : (us : List ℕ) → length (drop (even_part (length us)) us) ≤ 1
length-drop_paired us =
    omega (arith, length-drop (even_part (length us)) us, even_part_bounds (length us))

length-paired : (us : List ℕ) → length (paired us) % 2 ≡ 0
length-paired us =
    omega (arith, length-take (even_part (length us)) us, even_part_bounds (length us))

not_ltb : (a b : ℕ) → ltb a b ≡ false → b ≤ a
not_ltb a b h = ground arith

-- Nobody is lost: the users matched and at most one user left waiting make up the queue of the
-- category.
pub make_matches_leftover :
    (c : Category) (ulid : ℕ → String) (n : ℕ) (ms : List WaitingMember)
    → let queue = waiting_for c (sort_waiting ms) in
      let left = drop (even_part (length queue)) queue in
      (users_of c (make_matches ulid n ms) ++ left ≡ queue) × (length left ≤ 1)
make_matches_leftover c ulid n ms =
    let queue = waiting_for c (sort_waiting ms) in
    let left = drop (even_part (length queue)) queue in
    let whole =
      ap (λ us. us ++ left) (users_of-make_matches c ulid n ms)
      ∙ take-append-drop (even_part (length queue)) queue in
    (whole, length-drop_paired queue)

-- Each has waited at least as long as all who come after: the time stamps never go down.
abbrev pub IsInOrder : List WaitingMember → Type 0
IsInOrder [] = Unit
IsInOrder (m ∷ ms) = All (λ later. m.time_stamp ≤ later.time_stamp) ms × IsInOrder ms

not_earlier :
    (m : WaitingMember) (ms : List WaitingMember)
    → All (λ later. earlier later m ≡ false) ms
    → All (λ later. m.time_stamp ≤ later.time_stamp) ms
unfolding earlier
not_earlier m [] none_is = tt
not_earlier m (k ∷ ms) none_is =
    (not_ltb k.time_stamp m.time_stamp none_is.0, not_earlier m ms none_is.1)

IsSorted-IsInOrder : (ms : List WaitingMember) → IsSorted earlier ms → IsInOrder ms
IsSorted-IsInOrder [] sorted = tt
IsSorted-IsInOrder (m ∷ ms) sorted = (not_earlier m ms sorted.0, IsSorted-IsInOrder ms sorted.1)

-- Those who wait can be put in a queue by their time stamps, such that in every category the users who
-- are matched are the first of the queue, in its order, an even number of them, and one user is left
-- at most.
pub make_matches_users :
    (ulid : ℕ → String) (n : ℕ) (ms : List WaitingMember)
    → (queue : List WaitingMember) × Perm queue ms
      × IsInOrder queue
      × ((c : Category)
          → (left : List ℕ) × (users_of c (make_matches ulid n ms) ++ left ≡ waiting_for c queue)
            × (length (users_of c (make_matches ulid n ms)) % 2 ≡ 0)
            × (length left ≤ 1))
unfolding sort_waiting
make_matches_users ulid n ms = (
  sort_waiting ms,
  sort_slice-perm earlier ms,
  IsSorted-IsInOrder (sort_waiting ms) (sort_waiting-IsSorted ms),
  λ c.
      let queue = waiting_for c (sort_waiting ms) in
      let (whole, short) = make_matches_leftover c ulid n ms in
      (
        drop (even_part (length queue)) queue,
        whole,
        ap (λ us. length us % 2) (users_of-make_matches c ulid n ms) ∙ length-paired queue,
        short,
      ),
)

-- What a published match is: one category, an even number of users, at least two.
abbrev pub IsMatch : MatchedUsers → Type 0
IsMatch g =
    ((c : Category) × (g.category ≡ c ∷ [])) × (length g.user_id % 2 ≡ 0) × (2 ≤ length g.user_id)

ge-two : (r : ℕ) → ltb r 2 ≡ false → 2 ≤ r
ge-two r h = ground arith

match_of-IsMatch :
    (id : String) (c : Category) (g : MatchedUsers)
    → g.category ≡ c ∷ []
    → ltb (length g.user_id) 2 ≡ false
    → IsMatch (match_of id g)
match_of-IsMatch id c g single long = (
  (c, single),
  omega (
    arith,
    length-take (even_part (length g.user_id)) g.user_id,
    even_part_bounds (length g.user_id),
  ),
  omega (
    arith,
    length-take (even_part (length g.user_id)) g.user_id,
    even_part_bounds (length g.user_id),
    ge-two (length g.user_id) long,
  ),
)

final_users-IsMatch :
    (ulid : ℕ → String) (n : ℕ) (gs : List MatchedUsers)
    → IsPartition gs
    → All IsMatch (final_users ulid n gs)
unfolding final_users
final_users-IsMatch ulid n [] h = tt
final_users-IsMatch ulid n (g ∷ gs) h = elim (Bool-cases (ltb (length g.user_id) 2)) [
  | inl short ↦ rw short (final_users-IsMatch ulid n gs h.1)
  | inr long ↦
      rw long
        (match_of-IsMatch (ulid n) h.0.0 g h.0.1 long, final_users-IsMatch ulid (suc n) gs h.1)
]

-- Every match has one category and an even number of users, two at least.
pub make_matches-IsMatch :
    (ulid : ℕ → String) (n : ℕ) (ms : List WaitingMember) → All IsMatch (make_matches ulid n ms)
unfolding make_matches
make_matches-IsMatch ulid n ms =
    final_users-IsMatch ulid n (group_members [] (sort_waiting ms))
      (group_members_by_category (sort_waiting ms)).0
