-- ===== src/Match/Grouping/Laws.antt =====
-- What the groups and the matches hold, against a filter over the sorted waiting list.
use brain_blitz.Prelude.{
  ℕ, ◌+◌, ◌%◌, ◌≤◌, ◌≡◌, refl, ap, sym, ◌∙◌, inl, inr, true, false, List, [], ◌∷◌, ◌++◌,
  if◌then◌else◌, any, push, arith, Bool-cases,
}
use mathlib.Core.List.{append-nil, append_assoc}
use brain_blitz.Match.Entity.{Category, same_category, WaitingMember, MatchedUsers}
use brain_blitz.Match.Grouping.{has_category, add_member, group_members, even_part}

-- The users who wait for a category, in the order of the list.
abbrev pub waiting_for : Category → List WaitingMember → List ℕ
waiting_for c [] = []
waiting_for c (m ∷ ms) =
    let rest = waiting_for c ms in if same_category m.category c then m.user_id ∷ rest else rest

-- The users in the groups of a category.
abbrev pub users_of : Category → List MatchedUsers → List ℕ
users_of c [] = []
users_of c (g ∷ gs) = if has_category c g then g.user_id ++ users_of c gs else users_of c gs

-- Groups as the loop makes them: one category each, no category twice.
abbrev pub IsPartition : List MatchedUsers → Type 0
IsPartition [] = Unit
IsPartition (g ∷ gs) =
    ((c : Category) × (g.category ≡ c ∷ []) × (any (has_category c) gs ≡ false)) × IsPartition gs

pub same_category_lem : (c d : Category) → same_category c d ≡ true → c ≡ d
unfolding same_category
same_category_lem c d h = ground arith

pub same_category_sym : (c d : Category) → same_category c d ≡ same_category d c
unfolding same_category
same_category_sym c d = ground arith

pub same_category_refl : (c : Category) → same_category c c ≡ true
unfolding same_category
same_category_refl c = ground arith

pub even_part_bounds : (r : ℕ) → (even_part r % 2 ≡ 0) × (even_part r ≤ r) × (r ≤ even_part r + 1)
unfolding even_part
even_part_bounds r = ground arith

pub has_category_single :
    (c d : Category) (g : MatchedUsers) → g.category ≡ d ∷ [] → has_category c g ≡ same_category d c
unfolding has_category
has_category_single c d g e = rw e (ground arith)

pub users_of_absent :
    (c : Category) (gs : List MatchedUsers) → any (has_category c) gs ≡ false → users_of c gs ≡ []
users_of_absent c [] h = refl
users_of_absent c (g ∷ gs) h = ground (arith, users_of_absent c gs)

-- A member of another category adds no group of the category.
any-add_member :
    (c : Category) (gs : List MatchedUsers) (m : WaitingMember)
    → same_category m.category c ≡ false
    → any (has_category c) (add_member gs m) ≡ any (has_category c) gs
unfolding add_member has_category
any-add_member c [] m h = ground arith
any-add_member c (g ∷ gs) m h = ground (arith, any-add_member c gs m h)

pub add_member-IsPartition :
    (gs : List MatchedUsers) (m : WaitingMember) → IsPartition gs → IsPartition (add_member gs m)
unfolding add_member
add_member-IsPartition [] m h = ((m.category, refl, refl), tt)
add_member-IsPartition (g ∷ gs) m h = elim (Bool-cases (has_category m.category g)) [
  | inl e ↦ rw e h
  | inr e ↦ rw e (
    (
      h.0.0,
      h.0.1,
      any-add_member h.0.0 gs m (
            ground (
              arith,
              has_category_single m.category h.0.0 g h.0.1,
              same_category_sym m.category h.0.0,
            ))
          ∙ h.0.2,
    ),
    add_member-IsPartition gs m h.1,
  )
]

has_category-push :
    (c : Category) (g : MatchedUsers) (u : ℕ)
    → has_category c (record g { user_id = push g.user_id u }) ≡ has_category c g
unfolding has_category
has_category-push c g u = refl

-- A group that has both categories shows that they are one.
has_category_both :
    (c d c0 : Category) (g : MatchedUsers)
    → g.category ≡ c0 ∷ []
    → has_category d g ≡ true
    → same_category d c ≡ has_category c g
unfolding has_category same_category
has_category_both c d c0 g single e = ground arith

pub any_absent :
    (c c0 : Category) (g : MatchedUsers) (gs : List MatchedUsers)
    → g.category ≡ c0 ∷ []
    → any (has_category c0) gs ≡ false
    → has_category c g ≡ true
    → any (has_category c) gs ≡ false
any_absent c c0 g gs single apart own =
    ap (λ d. any (has_category d) gs)
      (sym (same_category_lem c0 c (sym (has_category_single c c0 g single) ∙ own)))
    ∙ apart

pub users_of-gone :
    (c c0 : Category) (g : MatchedUsers) (gs : List MatchedUsers)
    → g.category ≡ c0 ∷ []
    → any (has_category c0) gs ≡ false
    → has_category c g ≡ true
    → users_of c gs ≡ []
users_of-gone c c0 g gs single apart own =
    users_of_absent c gs (any_absent c c0 g gs single apart own)

-- The member's own group gets the user at its end.
users_of-hit :
    (c : Category) (g : MatchedUsers) (gs : List MatchedUsers) (m : WaitingMember)
    → IsPartition (g ∷ gs)
    → has_category m.category g ≡ true
    → users_of c (record g { user_id = push g.user_id m.user_id } ∷ gs)
      ≡ users_of c (g ∷ gs) ++ waiting_for c (m ∷ [])
users_of-hit c g gs m ((c0, single, apart), rest) e = elim (Bool-cases (has_category c g)) [
  | inl own ↦
      rw
        (
          has_category-push c g m.user_id,
          has_category_both c m.category c0 g single e,
          own,
          users_of-gone c c0 g gs single apart own,
        )
        (simp (append-nil))
  | inr other ↦
      rw (has_category-push c g m.user_id, has_category_both c m.category c0 g single e, other)
        (simp (append-nil))
]

pub users_of-add_member :
    (c : Category) (gs : List MatchedUsers) (m : WaitingMember)
    → IsPartition gs
    → users_of c (add_member gs m) ≡ users_of c gs ++ waiting_for c (m ∷ [])
unfolding add_member
users_of-add_member c [] m h = elim (Bool-cases (same_category m.category c)) [
  | inl e ↦ unfold has_category in rw e refl
  | inr e ↦ unfold has_category in rw e refl
]
users_of-add_member c (g ∷ gs) m h = elim (Bool-cases (has_category m.category g)) [
  | inl e ↦ rw e (users_of-hit c g gs m h e)
  | inr e ↦
      rw (e, users_of-add_member c gs m h.1)
        (elim (Bool-cases (has_category c g)) [
          | inl own ↦ rw own (simp append_assoc)
          | inr other ↦ rw other
        ])
]

group_members-IsPartition :
    (gs : List MatchedUsers) (ms : List WaitingMember)
    → IsPartition gs
    → IsPartition (group_members gs ms)
unfolding group_members
group_members-IsPartition gs [] h = h
group_members-IsPartition gs (m ∷ ms) h =
    group_members-IsPartition (add_member gs m) ms (add_member-IsPartition gs m h)

waiting_for-cons :
    (c : Category) (m : WaitingMember) (ms : List WaitingMember)
    → waiting_for c (m ∷ []) ++ waiting_for c ms ≡ waiting_for c (m ∷ ms)
waiting_for-cons c m ms = elim (Bool-cases (same_category m.category c)) [
  | inl e ↦ rw e
  | inr e ↦ rw e
]

users_of-group_members :
    (c : Category) (gs : List MatchedUsers) (ms : List WaitingMember)
    → IsPartition gs
    → users_of c (group_members gs ms) ≡ users_of c gs ++ waiting_for c ms
unfolding group_members
users_of-group_members c gs [] h = rw append-nil
users_of-group_members c gs (m ∷ ms) h =
    users_of-group_members c (add_member gs m) ms (add_member-IsPartition gs m h)
    ∙ ap (λ us. us ++ waiting_for c ms) (users_of-add_member c gs m h)
    ∙ append_assoc (users_of c gs) (waiting_for c (m ∷ [])) (waiting_for c ms)
    ∙ ap (λ us. users_of c gs ++ us) (waiting_for-cons c m ms)

-- The grouping loop is a partition of the waiting list by category: every group has one
-- category, no category has two groups, and the group of a category holds exactly the users who
-- wait for it, in the order of the list.
pub group_members_by_category :
    (ms : List WaitingMember)
    → IsPartition (group_members [] ms)
      × ((c : Category) → users_of c (group_members [] ms) ≡ waiting_for c ms)
group_members_by_category ms =
    (group_members-IsPartition [] ms tt, λ c. users_of-group_members c [] ms tt)
