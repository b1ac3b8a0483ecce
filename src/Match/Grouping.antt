-- ===== src/Match/Grouping.antt =====
-- The loops of `MatchWaitUsers` (services/match_app/service/service.go) between reading the
-- waiting lists and publishing.
pub mod Laws
pub mod Matches
use brain_blitz.Prelude.{
  ℕ, zero, suc, ◌-◌, ◌%◌, String, Bool, true, false, List, [], ◌∷◌, ltb, ◌==◌, if◌then◌else◌, any,
  push, take, length,
}
use brain_blitz.Prelude.Sort.{sort_slice}
use brain_blitz.Match.Entity.{Category, same_category, WaitingMember, MatchedUsers}

-- The comparison of `sort.Slice`.
unfoldable pub earlier : WaitingMember → WaitingMember → Bool
earlier a b = ltb a.time_stamp b.time_stamp

unfoldable pub sort_waiting : List WaitingMember → List WaitingMember
unfolding sort_slice earlier
sort_waiting = sort_slice earlier

unfoldable pub has_category : Category → MatchedUsers → Bool
unfolding same_category
has_category c users = any (λ category. same_category category c) users.category

-- One round of the loop over the members: the first group with the member's category gets the
-- user, and where there is none a new group is appended. `IndexOf` and the write at that index
-- are one walk here.
unfoldable pub add_member : List MatchedUsers → WaitingMember → List MatchedUsers
unfolding has_category
add_member [] member =
    record { id = ""; category = member.category ∷ []; user_id = member.user_id ∷ [] } ∷ []
add_member (users ∷ rest) member =
    let later = add_member rest member in
    if has_category member.category users
    then record users { user_id = push users.user_id member.user_id } ∷ rest
    else users ∷ later

unfoldable pub group_members : List MatchedUsers → List WaitingMember → List MatchedUsers
unfolding add_member
group_members ready_users [] = ready_users
group_members ready_users (member ∷ members) = group_members (add_member ready_users member) members

-- `r` after `if r%2 != 0 { r-- }`
unfoldable pub even_part : ℕ → ℕ
even_part r = if r % 2 == 0 then r else r - 1

-- The loop over the groups. The ids come from the ULID library: the n-th one made is `ulid n`.
unfoldable pub final_users : (ℕ → String) → ℕ → List MatchedUsers → List MatchedUsers
unfolding even_part
final_users ulid n [] = []
final_users ulid n (ready_user ∷ rest) =
    let r = length ready_user.user_id in
    let skip = final_users ulid n rest in
    let more = final_users ulid (suc n) rest in
    if ltb r 2
    then skip
    else record {
      id = ulid n;
      category = ready_user.category;
      user_id = take (even_part r) ready_user.user_id;
    }
      ∷ more

-- From the waiting members of all categories to the matches.
unfoldable pub make_matches : (ℕ → String) → ℕ → List WaitingMember → List MatchedUsers
unfolding sort_waiting group_members final_users
make_matches ulid n waiting_members =
    final_users ulid n (group_members [] (sort_waiting waiting_members))
