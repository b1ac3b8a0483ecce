-- ===== src/Match/Repository/Reading.antt =====
-- `GetWaitingListByCategory` of services/match_app/repository/match.go, against the room.
use brain_blitz.Prelude.{
  ℕ, ◌≤◌, ◌<◌, String, Bool, true, ◌≡◌, refl, ap, ◌∙◌, inl, inr, Option, none, some, List, [], ◌∷◌,
  push, any, str_eq, eq_iff, ◌==◌, if◌then◌else◌, Bool-cases, arith,
}
use brain_blitz.Errors.{GoError}
use brain_blitz.Prelude.Int.{pos, int_min_abs}
use brain_blitz.Game.Entity.{Time, Duration}
use brain_blitz.Game.Time.{add}
use brain_blitz.Redis.{Z, Client}
use brain_blitz.Redis.Behaviour.{Scores, has_member, z_range_lem, IsLater, IsSortedSets}
use brain_blitz.Match.Entity.{Category, WaitingMember}
use brain_blitz.Match.Repository.{
  Config, Member, Outside, unix_micro, list_key, waiting_member, waiting_members,
  get_waiting_list_by_category, to_uint,
}
use brain_blitz.Match.Repository.Room.{IsOutside, room_of}

-- Some member of the list is this user.
abbrev pub has_user : ℕ → List WaitingMember → Bool
has_user u = any (λ m. m.user_id == u)

has_user-push :
    (u : ℕ) (ms : List WaitingMember) (m : WaitingMember)
    → has_user u (push ms m) ≡ (if has_user u ms then true else m.user_id == u)
has_user-push u [] m = ground arith
has_user-push u (x ∷ ms) m = ground (arith, has_user-push u ms m)

pub add_mono : (d : Duration) (t u : Time) → t ≤ u → add t d ≤ add u d
unfolding add
add_mono d t u h = omega arith

module _ {S : Type 0} (config : Config) (client : Client S Member) (out : Outside S) where
  kept :
      (c : Category) (u : ℕ) (zs : List (Z String)) (ms : List WaitingMember)
      → has_user u ms ≡ true
      → has_user u (waiting_members config client out c ms zs) ≡ true
  unfolding waiting_members
  kept c u [] ms h = h
  kept c u (z ∷ zs) ms h =
      let m = waiting_member config client out c z in
      kept c u zs (push ms m) (has_user-push u ms m ∙ rw h refl)

  found :
      (c : Category) (u x : ℕ) (member : String) (zs : List (Z String)) (ms : List WaitingMember)
      → out.atoi member ≡ pos u
      → has_member member x zs ≡ true
      → has_user u (waiting_members config client out c ms zs) ≡ true
  unfolding waiting_members
  found c u x member [] ms read h = absurd (ground arith)
  found c u x member (z ∷ zs) ms read h =
      let m = waiting_member config client out c z in
      elim (Bool-cases (str_eq z.member member)) [
        | inl own ↦
            let id : m.user_id ≡ u =
              ap (λ a. to_uint (out.atoi a)) ((eq_iff z.member member).0 own) ∙ ap to_uint read in
            kept c u zs (push ms m) (has_user-push u ms m ∙ ground (arith, id))
        | inr other ↦ found c u x member zs (push ms m) read (ground (arith, other))
      ]

  module _ (format_uint : ℕ → String) (written : Member → String) (scores : S → Scores)
      (now : S → Time) (sets : IsSortedSets client written scores now)
      (outside : IsOutside out format_uint written scores now) where
    -- What the source passes to Redis, and the answer.
    abbrev start : S → ℕ
    start s = unix_micro (add (out.time_now s).0 config.min_time_waiting_list_selection)

    abbrev clocked : S → S
    clocked s = (out.time_now (out.time_now s).1).1

    abbrev stop : S → ℕ
    stop s = unix_micro (out.time_now (out.time_now s).1).0

    abbrev reply : Category → S → List (Z String) × Option GoError × S
    reply c s =
        client.z_range_by_score_with_scores (list_key config c) (client.itoa (start s))
          (client.itoa (stop s)) (clocked s)

    get_lem :
        (c : Category) (s : S)
        → get_waiting_list_by_category config client out c s
          ≡ (waiting_members config client out c [] (reply c s).0, none, (reply c s).2)
    unfolding get_waiting_list_by_category
    get_lem c s =
        let ranged =
          z_range_lem client (list_key config c) (start s) (stop s) (clocked s)
            (sets.range_ok (list_key config c) (start s) (stop s) (clocked s)) in
        rw (get_waiting_list_by_category, ranged, ranged) refl

    -- A list is read without an error, writes nothing, and holds every user who waits since a time
    -- from the start of the window, at the end of the reading, to the moment before the reading.
    pub get_waiting_list_by_category-now :
        (c : Category) (s : S)
        → let (list, err, s') = get_waiting_list_by_category config client out c s in
          (err ≡ none)
          × IsLater scores now s s'
          × ((u x : ℕ)
              → u < int_min_abs
              → room_of config client out format_uint written scores now sets outside s c u ≡ some x
              → unix_micro (add (now s') config.min_time_waiting_list_selection) ≤ x
              → x ≤ unix_micro (now s)
              → has_user u list ≡ true)
    get_waiting_list_by_category-now c s = rw (get_lem c s) (
      refl,
      record {
        same = λ k m. third.same k m ∙ second.same k m ∙ first.same k m;
        later = omega (arith, first.later, second.later, third.later);
      },
      present,
    )
      where
        first : IsLater scores now s (out.time_now s).1
        first = outside.time_same s

        second : IsLater scores now (out.time_now s).1 (clocked s)
        second = outside.time_same (out.time_now s).1

        third : IsLater scores now (clocked s) (reply c s).2
        third = sets.range_later (list_key config c) (start s) (stop s) (clocked s)

        early :
            start s ≤ unix_micro (add (now (reply c s).2) config.min_time_waiting_list_selection)
        early =
            let mono =
              add_mono config.min_time_waiting_list_selection (out.time_now s).0 (now (reply c s).2)
                (omega (arith, outside.time_before s, second.later, third.later)) in
            omega arith

        present :
            (u x : ℕ)
            → u < int_min_abs
            → scores s (list_key config c) (format_uint u) ≡ some x
            → unix_micro (add (now (reply c s).2) config.min_time_waiting_list_selection) ≤ x
            → x ≤ unix_micro (now s)
            → has_user u (waiting_members config client out c [] (reply c s).0) ≡ true
        present u x small waits from until =
            found c u x (format_uint u) (reply c s).0 [] (outside.atoi_numeral u small) (
              (sets.range_members (list_key config c) (start s) (stop s) (clocked s) (format_uint u)
                  x).1
                (
                  second.same _ _ ∙ first.same _ _ ∙ waits,
                  omega (arith, early),
                  omega (arith, outside.time_after (out.time_now s).1, first.later),
                ))
