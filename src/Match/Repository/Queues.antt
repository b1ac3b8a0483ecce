-- ===== src/Match/Repository/Queues.antt =====
-- Who is in the queues that a round of `MatchWaitUsers` (services/match_app/service/service.go) makes
-- of the lists that it has read.
use brain_blitz.Prelude.{
  ℕ, ◌≤◌, Bool, true, false, ◌≡◌, refl, ap, ◌∙◌, none, List, [], ◌∷◌, ◌++◌, map, any, length, drop,
  ◌==◌, if◌then◌else◌, arith, take-append-drop,
}
use brain_blitz.Prelude.Sort.{insert_sorted}
use brain_blitz.Match.Entity.{Category, sport, music, tech, unknown, same_category, WaitingMember}
use brain_blitz.Match.Grouping.{earlier, sort_waiting, even_part}
use brain_blitz.Match.Grouping.Laws.{waiting_for, same_category_sym}
use brain_blitz.Match.Grouping.Matches.{paired, length-drop_paired}
use brain_blitz.Match.Service.{label}
use brain_blitz.Match.Service.Rounds.{all_waiting, waiting_for-append}
use brain_blitz.Match.Repository.Room.{Room, leave, without}
use brain_blitz.Match.Repository.Reading.{has_user}

abbrev pub contains : ℕ → List ℕ → Bool
contains u = any (λ v. v == u)

contains-append :
    (u : ℕ) (us vs : List ℕ)
    → contains u (us ++ vs) ≡ (if contains u us then true else contains u vs)
contains-append u [] vs = refl
contains-append u (v ∷ us) vs = ground (arith, contains-append u us vs)

-- Who is in the queue of a category is not changed by sorting.
contains-insert_sorted :
    (c : Category) (u : ℕ) (m : WaitingMember) (ms : List WaitingMember)
    → contains u (waiting_for c (insert_sorted earlier m ms)) ≡ contains u (waiting_for c (m ∷ ms))
unfolding insert_sorted
contains-insert_sorted c u m [] = refl
contains-insert_sorted c u m (x ∷ ms) = ground (arith, contains-insert_sorted c u m ms)

pub contains-sort_waiting :
    (c : Category) (u : ℕ) (ms : List WaitingMember)
    → contains u (waiting_for c (sort_waiting ms)) ≡ contains u (waiting_for c ms)
unfolding sort_waiting
contains-sort_waiting c u [] = refl
contains-sort_waiting c u (m ∷ ms) =
    contains-insert_sorted c u m (sort_waiting ms) ∙ ground (arith, contains-sort_waiting c u ms)

contains-label :
    (c : Category) (u : ℕ) (ms : List WaitingMember)
    → same_category c c ≡ true
    → contains u (waiting_for c (map (label c) ms)) ≡ has_user u ms
contains-label c u [] h = refl
contains-label c u (m ∷ ms) h = ground (arith, h, contains-label c u ms)

pub leave_lem :
    (ms : List WaitingMember) (room : Room) (c : Category) (u : ℕ)
    → leave ms room c u ≡ (if contains u (waiting_for c ms) then none else room c u)
unfolding leave without
leave_lem [] room c u = refl
leave_lem (m ∷ ms) room c u =
    leave_lem ms (without m.category m.user_id room) c u
    ∙ ground (arith, same_category_sym c m.category)

one_left :
    (u v : ℕ) (us : List ℕ) → length us ≤ 1 → contains u us ≡ true → contains v us ≡ true → u ≡ v
one_left u v [] h hu hv = absurd (ground arith)
one_left u v (w ∷ []) h hu hv = ground arith
one_left u v (w ∷ x ∷ us) h hu hv = absurd (omega arith)

-- The lists as a round reads them.
abbrev pub lists_of :
    List WaitingMember → List WaitingMember → List WaitingMember → Category → List WaitingMember
lists_of xs ys zs sport = xs
lists_of xs ys zs music = ys
lists_of xs ys zs tech = zs
lists_of xs ys zs unknown = []

contains-all :
    (lists : Category → List WaitingMember) (c : Category) (u : ℕ)
    → contains u (waiting_for c (all_waiting lists)) ≡ (
        if contains u (waiting_for c (map (label sport) (lists sport)))
        then true
        else if contains u (waiting_for c (map (label music) (lists music)))
        then true
        else contains u (waiting_for c (map (label tech) (lists tech))))
contains-all lists c u =
    rw
      (
        waiting_for-append c (map (label sport) (lists sport) ++ map (label music) (lists music))
            (map (label tech) (lists tech)),
        waiting_for-append c (map (label sport) (lists sport)) (map (label music) (lists music)),
        contains-append u
            (waiting_for c (map (label sport) (lists sport))
              ++ waiting_for c (map (label music) (lists music)))
            (waiting_for c (map (label tech) (lists tech))),
        contains-append u (waiting_for c (map (label sport) (lists sport)))
            (waiting_for c (map (label music) (lists music))),
      )
      (ground arith)

pub contains-all_waiting :
    (lists : Category → List WaitingMember) (c : Category) (u : ℕ)
    → same_category c unknown ≡ false
    → has_user u (lists c) ≡ true
    → contains u (waiting_for c (all_waiting lists)) ≡ true
unfolding same_category
contains-all_waiting lists sport u known present =
    ground (arith, contains-all lists sport u, contains-label sport u (lists sport), present)
contains-all_waiting lists music u known present =
    ground (arith, contains-all lists music u, contains-label music u (lists music))
contains-all_waiting lists tech u known present =
    ground (arith, contains-all lists tech u, contains-label tech u (lists tech))
contains-all_waiting lists unknown u known present = absurd (ground arith)

-- Of the users who are in the queue and not among the matched, there is one at most.
pub same_left :
    (c : Category) (ms : List WaitingMember) (u v : ℕ)
    → let queue = waiting_for c (sort_waiting ms) in
      contains u queue ≡ true
      → contains v queue ≡ true
      → contains u (paired queue) ≡ false
      → contains v (paired queue) ≡ false
      → u ≡ v
same_left c ms u v here there out_u out_v =
    one_left u v left (length-drop_paired queue) (stays u here out_u) (stays v there out_v)
  where
    queue : List ℕ
    queue = waiting_for c (sort_waiting ms)

    left : List ℕ
    left = drop (even_part (length queue)) queue

    stays :
        (w : ℕ)
        → contains w queue ≡ true
        → contains w (paired queue) ≡ false
        → contains w left ≡ true
    stays w in_queue unmatched = ground (
      arith,
      contains-append w (paired queue) left,
      ap (contains w) (take-append-drop (even_part (length queue)) queue),
    )
