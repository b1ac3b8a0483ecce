-- ===== src/Match/Repository/Rounds.antt =====
-- A round of `MatchWaitUsers` (services/match_app/service/service.go) on the repository of
-- services/match_app/repository/match.go: what it leaves in the waiting lists.
pub mod Window
use brain_blitz.Prelude.{
  ℕ, ◌≤◌, ◌<◌, String, Bool, true, false, ◌≡◌, refl, ap, sym, ◌∙◌, inl, inr, Option, none, some,
  List, [], ◌∷◌, length, ltb, if◌then◌else◌, Bool-cases, arith,
}
use brain_blitz.Prelude.Int.{int_min_abs}
use brain_blitz.Errors.{GoError}
use brain_blitz.Contract.{match_v1_match_users, MatchedUsersMsg, Wire}
use brain_blitz.Game.Entity.{Time}
use brain_blitz.Game.Time.{add}
use brain_blitz.Redis.{Client}
use brain_blitz.Redis.Behaviour.{Scores, z_range-none, IsLater, IsSortedSets}
use brain_blitz.Match.Entity.{
  Category, sport, music, tech, unknown, get_categories, same_category, WaitingMember, MatchedUsers,
}
use brain_blitz.Match.Grouping.{sort_waiting, make_matches}
use brain_blitz.Match.Grouping.Laws.{waiting_for}
use brain_blitz.Match.Grouping.Matches.{paired}
use brain_blitz.Match.Service.{
  Environment, keep_error, waiting_members_of, collect_waiting, publish_final_users,
  match_wait_users,
}
use brain_blitz.Match.Service.Laws.{removed_eq_matched}
use brain_blitz.Match.Service.Rounds.{all_waiting, match_wait_users_lem}
use brain_blitz.Match.Repository.{
  Config, Member, Outside, unix_micro, list_key, get_waiting_list_by_category,
  remove_waiting_member, new_repository,
}
use brain_blitz.Match.Repository.Room.{
  Room, leave, IsOutside, room_of, remove_waiting_member-leave, remove_waiting_member-later,
}
use brain_blitz.Match.Repository.Reading.{has_user, add_mono, get_waiting_list_by_category-now}
use brain_blitz.Match.Repository.Queues.{
  lists_of, leave_lem, contains, contains-sort_waiting, contains-all_waiting, same_left,
}

pair_if {ℓ κ} :
    {A : Type ℓ} {B : Type κ} (b : Bool) (a : A) (x y : B)
    → ◌≡◌ {A = A × B} (if b then (a, x) else (a, y)) (a, if b then x else y)
pair_if true a x y = refl
pair_if false a x y = refl

empty : (users : List MatchedUsers) → ltb 0 (length users) ≡ false → users ≡ []
empty [] h = refl
empty (u ∷ users) h = absurd (ground arith)

module _ {S Bytes : Type 0} (env : Environment S Bytes) (config : Config) (client : Client S Member)
    (out : Outside S) where
  -- The service on this repository.
  abbrev pub service : Environment S Bytes
  service = record env { repository = new_repository config client out }

  -- What a round has read, and the state after it.
  abbrev pub round_reads : S → (Category → List WaitingMember) × S
  round_reads s =
      let (xs, err₁, s₁) = get_waiting_list_by_category config client out sport s in
      let (ys, err₂, s₂) = get_waiting_list_by_category config client out music s₁ in
      let (zs, err₃, s₃) = get_waiting_list_by_category config client out tech s₂ in
      (lists_of xs ys zs, s₃)

  abbrev pub round_matches : S → List MatchedUsers
  round_matches s =
      make_matches env.ulid (env.made (round_reads s).1) (all_waiting (round_reads s).0)

  get-none : (c : Category) (s : S) → (get_waiting_list_by_category config client out c s).1 ≡ none
  unfolding get_waiting_list_by_category
  get-none c s =
      let clocked = (out.time_now (out.time_now s).1).1 in
      let start = unix_micro (add (out.time_now s).0 config.min_time_waiting_list_selection) in
      let stop = unix_micro (out.time_now (out.time_now s).1).0 in
      rw (get_waiting_list_by_category, z_range-none client (list_key config c) start stop clocked)
        refl

  collect-none :
      (cs : List Category) (ms : List WaitingMember) (r_err : Option GoError) (s : S)
      → r_err ≡ none
      → (collect_waiting service cs ms r_err s).1 ≡ none
  unfolding collect_waiting new_repository
  collect-none [] ms r_err s h = h
  collect-none (c ∷ cs) ms r_err s h =
      collect-none cs _ _ _ (ap (λ err. keep_error err r_err) (get-none c s) ∙ h)

  -- Whatever Redis answers, a round reports no error: one of reading a list is dropped by the adapter,
  -- and one of removing a member is logged only.
  pub match_wait_users-none :
      (wire : Wire Bytes (List MatchedUsersMsg)) (s : S)
      → (match_wait_users service wire s).0 ≡ none
  match_wait_users-none wire s =
      rw (match_wait_users_lem service wire s, collect-none get_categories [] none s refl)
        (ap (λ r. r.0) (pair_if (ltb 0 (length (make_matches env.ulid _ _))) none _ _))

  module _ (format_uint : ℕ → String) (written : Member → String) (scores : S → Scores)
      (now : S → Time) (sets : IsSortedSets client written scores now)
      (outside : IsOutside out format_uint written scores now)
      (publishes : (topic : String) (b : Bytes) (s : S)
        → IsLater scores now s (env.publish topic b s).1) where
    abbrev pub room : S → Room
    room = room_of config client out format_uint written scores now sets outside

    reads_ok :
        (c : Category) (s : S) → (get_waiting_list_by_category config client out c s).1 ≡ none
    reads_ok c s =
        (get_waiting_list_by_category-now config client out format_uint written scores now sets
          outside c s).0

    pub reads_later :
        (c : Category) (s : S)
        → IsLater scores now s (get_waiting_list_by_category config client out c s).2
    reads_later c s =
        (get_waiting_list_by_category-now config client out format_uint written scores now sets
          outside c s).1

    collect_lem :
        (s : S)
        → collect_waiting service get_categories [] none s
          ≡ (all_waiting (round_reads s).0, none, (round_reads s).1)
    unfolding collect_waiting get_categories new_repository
    collect_lem s = rw (reads_ok sport s, reads_ok music _, reads_ok tech _) refl

    round_reads-IsLater : (s : S) → IsLater scores now s (round_reads s).1
    round_reads-IsLater s =
        let s₁ = (get_waiting_list_by_category config client out sport s).2 in
        let s₂ = (get_waiting_list_by_category config client out music s₁).2 in
        let first = reads_later sport s in
        let second = reads_later music s₁ in
        let third = reads_later tech s₂ in
        record {
          same = λ k m. third.same k m ∙ second.same k m ∙ first.same k m;
          later = omega (arith, first.later, second.later, third.later);
        }

    room-same : (s t : S) → IsLater scores now s t → room t ≡ room s
    room-same s t later i c u = later.same (list_key config c) (format_uint u) i

    removed_after :
        (topic : String) (b : Bytes) (ms : List WaitingMember) (s : S)
        → let s' = (remove_waiting_member config client out ms (env.publish topic b s).1).1 in
          (room s' ≡ leave ms (room s)) × (now s ≤ now s')
    removed_after topic b ms s =
        let s₁ = (env.publish topic b s).1 in
        let published = publishes topic b s in
        (
          (remove_waiting_member-leave config client out format_uint written scores now sets outside
                ms s₁).1
              ∙ ap (leave ms) (room-same s s₁ published),
          omega (
            arith,
            published.later,
            remove_waiting_member-later config client out format_uint written scores now sets
                outside ms s₁,
          ),
        )

    publish_final_users-leave :
        (wire : Wire Bytes (List MatchedUsersMsg)) (users : List MatchedUsers) (s : S)
        → let s' = publish_final_users service wire users s in
          (room s' ≡ leave (waiting_members_of users) (room s)) × (now s ≤ now s')
    unfolding publish_final_users new_repository
    publish_final_users-leave wire users s =
        removed_after match_v1_match_users _ (waiting_members_of users) s

    round_lem :
        (wire : Wire Bytes (List MatchedUsersMsg)) (s : S)
        → match_wait_users service wire s ≡ (
          none,
          (if ltb 0 (length (round_matches s))
              then publish_final_users service wire (round_matches s) (round_reads s).1
              else (round_reads s).1),
        )
    round_lem wire s =
        rw (match_wait_users_lem service wire s, collect_lem s)
          (pair_if (ltb 0 (length (round_matches s))) none _ _)

    -- A round on a server that answers every command reports no error, and its effect on the waiting
    -- lists is that the members of the matches made of what was read leave them.
    pub match_wait_users-leave :
        (wire : Wire Bytes (List MatchedUsersMsg)) (s : S)
        → let (err, s') = match_wait_users service wire s in
          (err ≡ none)
          × (room s' ≡ leave (waiting_members_of (round_matches s)) (room s))
          × (now (round_reads s).1 ≤ now s')
    unfolding waiting_members_of leave
    match_wait_users-leave wire s =
        let read = round_reads-IsLater s in
        let unread = room-same s (round_reads s).1 read in
        elim (Bool-cases (ltb 0 (length (round_matches s)))) [
          | inl some_made ↦
              let (left, later) =
                publish_final_users-leave wire (round_matches s) (round_reads s).1 in
              rw (round_lem wire s, some_made)
                (refl, left ∙ ap (leave (waiting_members_of (round_matches s))) unread, later)
          | inr none_made ↦
              rw (round_lem wire s, none_made, empty (round_matches s) none_made)
                (refl, unread, omega arith)
        ]
