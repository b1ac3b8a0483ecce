-- ===== src/Match/Repository/Rounds/Window.antt =====
-- Who still waits after a round of `MatchWaitUsers` (services/match_app/service/service.go) on the
-- repository of services/match_app/repository/match.go.
use brain_blitz.Prelude.{
  ℕ, ◌≤◌, ◌<◌, String, Bool, true, false, ◌≡◌, refl, ap, sym, ◌∙◌, Option, none, some, List,
  if◌then◌else◌, arith,
}
use brain_blitz.Prelude.Int.{int_min_abs}
use brain_blitz.Contract.{MatchedUsersMsg, Wire}
use brain_blitz.Game.Entity.{Time}
use brain_blitz.Game.Time.{add}
use brain_blitz.Redis.{Client}
use brain_blitz.Redis.Behaviour.{Scores, IsLater, IsSortedSets}
use brain_blitz.Match.Entity.{Category, sport, music, tech, unknown, same_category, WaitingMember}
use brain_blitz.Match.Grouping.{sort_waiting}
use brain_blitz.Match.Grouping.Laws.{waiting_for}
use brain_blitz.Match.Grouping.Matches.{paired}
use brain_blitz.Match.Service.{Environment, waiting_members_of, match_wait_users}
use brain_blitz.Match.Service.Laws.{removed_eq_matched}
use brain_blitz.Match.Service.Rounds.{all_waiting}
use brain_blitz.Match.Repository.{
  Config, Member, Outside, unix_micro, list_key, get_waiting_list_by_category,
}
use brain_blitz.Match.Repository.Room.{Room, leave, IsOutside, room_of}
use brain_blitz.Match.Repository.Reading.{has_user, add_mono, get_waiting_list_by_category-now}
use brain_blitz.Match.Repository.Rounds.{
  service, round_reads, round_matches, match_wait_users-leave, reads_later,
}
use brain_blitz.Match.Repository.Queues.{
  leave_lem, contains, contains-sort_waiting, contains-all_waiting, same_left,
}

stays :
    {b : Bool} (d : Bool) (o : Option ℕ) (x : ℕ)
    → d ≡ b
    → (if d then none else o) ≡ some x
    → (b ≡ false) × (o ≡ some x)
stays d o x e h = ground arith

queued_of :
    (lists : Category → List WaitingMember) (c : Category)
    → same_category c unknown ≡ false
    → (u : ℕ) → has_user u (lists c) ≡ true
    → contains u (waiting_for c (sort_waiting (all_waiting lists))) ≡ true
queued_of lists c known u present =
    contains-sort_waiting c u (all_waiting lists) ∙ contains-all_waiting lists c u known present

module _ {S Bytes : Type 0} (env : Environment S Bytes) (config : Config) (client : Client S Member)
    (out : Outside S) (format_uint : ℕ → String) (written : Member → String) (scores : S → Scores)
    (now : S → Time) (sets : IsSortedSets client written scores now)
    (outside : IsOutside out format_uint written scores now)
    (publishes : (topic : String) (b : Bytes) (s : S)
      → IsLater scores now s (env.publish topic b s).1) where
  -- The round, the room, and what the round does.
  abbrev pub round : Wire Bytes (List MatchedUsersMsg) → S → S
  round wire s = (match_wait_users (service env config client out) wire s).1

  abbrev pub waiting : S → Room
  waiting = room_of config client out format_uint written scores now sets outside

  abbrev lists_read : S → Category → List WaitingMember
  lists_read s = (round_reads env config client out s).0

  effect :
      (wire : Wire Bytes (List MatchedUsersMsg)) (s : S)
      → (waiting (round wire s)
          ≡ leave (waiting_members_of (round_matches env config client out s)) (waiting s))
        × (now (round_reads env config client out s).1 ≤ now (round wire s))
  effect wire s =
      let whole =
        match_wait_users-leave env config client out format_uint written scores now sets outside
          publishes wire s in
      (whole.1, whole.2)

  later_by :
      (c : Category) (s : S)
      → IsLater scores now s (get_waiting_list_by_category config client out c s).2
  later_by = reads_later env config client out format_uint written scores now sets outside publishes

  -- Who waits after a round was not matched in it, and waited before.
  still_waiting :
      (wire : Wire Bytes (List MatchedUsersMsg)) (s : S) (c : Category) (u x : ℕ)
      → waiting (round wire s) c u ≡ some x
      → (contains u (paired (waiting_for c (sort_waiting (all_waiting (lists_read s))))) ≡ false)
        × (waiting s c u ≡ some x)
  still_waiting wire s c u x waits =
      let ms = waiting_members_of (round_matches env config client out s) in
      let after : leave ms (waiting s) c u ≡ some x =
        sym (ap (λ r. r c u) (effect wire s).0) ∙ waits in
      let removed =
        removed_eq_matched env c (env.made (round_reads env config client out s).1)
          (all_waiting (lists_read s)) in
      stays (contains u (waiting_for c ms)) (waiting s c u) x (ap (contains u) removed)
        (sym (leave_lem ms (waiting s) c u) ∙ after)

  read_has :
      (c : Category) (s a t : S) (u x : ℕ)
      → u < int_min_abs
      → waiting s c u ≡ some x
      → IsLater scores now s a
      → now (get_waiting_list_by_category config client out c a).2 ≤ now t
      → unix_micro (add (now t) config.min_time_waiting_list_selection) ≤ x
      → x ≤ unix_micro (now s)
      → has_user u (get_waiting_list_by_category config client out c a).0 ≡ true
  read_has c s a t u x small waits before after from until =
      let mono =
        add_mono config.min_time_waiting_list_selection
          (now (get_waiting_list_by_category config client out c a).2) (now t) after in
      (get_waiting_list_by_category-now config client out format_uint written scores now sets
          outside c a).2
        u x small (before.same (list_key config c) (format_uint u) ∙ waits) (omega (arith, mono))
        (omega (arith, before.later))

  -- Who waits in the window is in the list of his category.
  in_list :
      (c : Category) (s t : S) (u x : ℕ)
      → u < int_min_abs
      → waiting s c u ≡ some x
      → same_category c unknown ≡ false
      → now (round_reads env config client out s).1 ≤ now t
      → unix_micro (add (now t) config.min_time_waiting_list_selection) ≤ x
      → x ≤ unix_micro (now s)
      → has_user u ((lists_read s) c) ≡ true
  in_list c s t u x small waits known later from until = go c small waits known
    where
      s₁ : S
      s₁ = (get_waiting_list_by_category config client out sport s).2

      s₂ : S
      s₂ = (get_waiting_list_by_category config client out music s₁).2

      first : IsLater scores now s s₁
      first = later_by sport s

      second : IsLater scores now s₁ s₂
      second = later_by music s₁

      third : IsLater scores now s₂ (round_reads env config client out s).1
      third = later_by tech s₂

      go :
          (c : Category)
          → u < int_min_abs
          → waiting s c u ≡ some x
          → same_category c unknown ≡ false
          → has_user u ((lists_read s) c) ≡ true
      go sport small waits known =
          read_has sport s s t u x small waits (record { same = λ k m. refl; later = omega arith })
            (omega (arith, second.later, third.later)) from until
      go music small waits known =
          read_has music s s₁ t u x small waits first (omega (arith, third.later)) from until
      go tech small waits known =
          read_has tech s s₂ t u x small waits
            (record {
              same = λ k m. second.same k m ∙ first.same k m;
              later = omega (arith, first.later, second.later);
            })
            later from until
      go unknown small waits known = unfold same_category in absurd (ground arith)

  -- After a round on a server that answers every command, of all the users who wait in a category,
  -- since a time from the start of the window, as it is after the round, to the moment before the
  -- round, there is one at most.
  pub match_wait_users_leaves_one :
      (wire : Wire Bytes (List MatchedUsersMsg)) (s : S) (c : Category) (u v x y : ℕ)
      → same_category c unknown ≡ false
      → u < int_min_abs
      → v < int_min_abs
      → let s' = round wire s in
        let from = unix_micro (add (now s') config.min_time_waiting_list_selection) in
        let until = unix_micro (now s) in
        waiting s' c u ≡ some x
        → (from ≤ x) × (x ≤ until)
        → waiting s' c v ≡ some y
        → (from ≤ y) × (y ≤ until)
        → u ≡ v
  match_wait_users_leaves_one wire s c u v x y known small_u small_v waits_u window_u waits_v
        window_v =
      let s' = round wire s in
      let later = (effect wire s).1 in
      let lists = (lists_read s) in
      let (left_u, before_u) = still_waiting wire s c u x waits_u in
      let (left_v, before_v) = still_waiting wire s c v y waits_v in
      let queued = queued_of lists c known in
      same_left c (all_waiting lists) u v
        (queued u (in_list c s s' u x small_u before_u known later window_u.0 window_u.1))
        (queued v (in_list c s s' v y small_v before_v known later window_v.0 window_v.1)) left_u
        left_v
