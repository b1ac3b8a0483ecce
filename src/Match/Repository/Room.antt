-- ===== src/Match/Repository/Room.antt =====
-- The waiting lists of services/match_app/repository/match.go as one map, from a category and a
-- user to the time since when the user waits.
use text.Mathlib.TextLemmas.{append_cancel_left}
use brain_blitz.Prelude.{
  ℕ, ◌≤◌, ◌<◌, String, true, ◌≡◌, refl, ap, sym, ◌∙◌, inl, inr, Option, none, some, List, [], ◌∷◌,
  str_eq, str_eq_refl, eq_iff, ◌==◌, if◌then◌else◌, Bool-cases, arith,
}
use brain_blitz.Prelude.Int.{pos, int_min_abs}
use brain_blitz.Game.Entity.{Time}
use brain_blitz.Redis.{Client, z_add, z_delete}
use brain_blitz.Redis.Behaviour.{Scores, IsLater, IsSortedSets}
use brain_blitz.Match.Service.Laws.{map_to_category_round_trip}
use brain_blitz.Match.Entity.{Category, map_to_category, to_string, same_category, WaitingMember}
use brain_blitz.Match.Grouping.Laws.{same_category_lem, same_category_refl}
use brain_blitz.Match.Repository.{
  Config, Member, text_member, uint_member, Outside, unix_micro, list_key, add_to_waiting_list,
  remove_waiting_member,
}

abbrev pub Room : Type 0
Room = Category → ℕ → Option ℕ

unfoldable pub join : Category → ℕ → ℕ → Room → Room
unfolding same_category
join c u time room d v =
    if same_category d c then (if u == v then some time else room d v) else room d v

unfoldable pub without : Category → ℕ → Room → Room
unfolding same_category
without c u room d v = if same_category d c then (if u == v then none else room d v) else room d v

-- The members leave, one after the other.
unfoldable pub leave : List WaitingMember → Room → Room
unfolding without
leave [] room = room
leave (m ∷ ms) room = leave ms (without m.category m.user_id room)

-- The documented behaviour of the clock, of strconv and of go-redis: a time that is read lies between
-- the times before and after, decimal numerals are different for different numbers and are read
-- back as an `int`, and a member is written as its text or its numeral.
pub record IsOutside {S : Type 0} (out : Outside S) (format_uint : ℕ → String)
    (written : Member → String) (scores : S → Scores) (now : S → Time) : Type 0 where
  pub time_same : (s : S) → IsLater scores now s (out.time_now s).1
  pub time_after : (s : S) → now s ≤ (out.time_now s).0
  pub time_before : (s : S) → (out.time_now s).0 ≤ now (out.time_now s).1
  pub numeral_eq : (m n : ℕ) → str_eq (format_uint m) (format_uint n) ≡ (m == n)
  pub atoi_numeral : (n : ℕ) → n < int_min_abs → out.atoi (format_uint n) ≡ pos n
  pub written_text : (a : String) → written (text_member a) ≡ a
  pub written_uint : (n : ℕ) → written (uint_member n) ≡ format_uint n

to_string_eq : (c d : Category) → to_string c ≡ to_string d → c ≡ d
to_string_eq c d h =
    sym (map_to_category_round_trip c "").0
    ∙ ap map_to_category h
    ∙ (map_to_category_round_trip d "").0

pub list_key_eq :
    (config : Config) (c d : Category)
    → str_eq (list_key config c) (list_key config d) ≡ same_category c d
list_key_eq config c d = elim (Bool-cases (same_category c d)) [
  | inl same ↦ rw (same, same_category_lem c d same) (str_eq_refl (list_key config d))
  | inr other ↦ elim (Bool-cases (str_eq (list_key config c) (list_key config d))) [
    | inr differ ↦ differ ∙ sym other
    | inl eq ↦
        let keys = (eq_iff (list_key config c) (list_key config d)).0 eq in
        let names =
          to_string_eq c d
            (unfold list_key in append_cancel_left _ (to_string c) (to_string d) keys) in
        let own : same_category c d ≡ true =
          ap (λ e. same_category e d) names ∙ same_category_refl d in
        eq ∙ sym own
  ]
]

module _ {S : Type 0} (config : Config) (client : Client S Member) (out : Outside S)
    (format_uint : ℕ → String) (written : Member → String) (scores : S → Scores) (now : S → Time)
    (sets : IsSortedSets client written scores now)
    (outside : IsOutside out format_uint written scores now) where
  -- What a server's sorted sets say of the users.
  abbrev pub room_of : S → Room
  room_of s c u = scores s (list_key config c) (format_uint u)

  -- On a server that answers every command, adding a user to the list of a category is done without an
  -- error, and is, of the map from a category and a user to the time since when he waits, the entry of
  -- that user with the time that the clock shows; every other entry stays.
  pub add_to_waiting_list-join :
      (c : Category) (u : ℕ) (s : S)
      → let (err, s') = add_to_waiting_list config client out c (format_uint u) s in
        (err ≡ none) × (room_of s' ≡ join c u (unix_micro (out.time_now s).0) (room_of s))
  unfolding add_to_waiting_list z_add join same_category
  add_to_waiting_list-join c u s = (sets.add_ok _ _ _, λ i d v. entry d v i)
    where
      entry :
          (d : Category) (v : ℕ)
          → room_of (add_to_waiting_list config client out c (format_uint u) s).1 d v
            ≡ join c u (unix_micro (out.time_now s).0) (room_of s) d v
      entry d v =
          rw
            (
              sets.add_scores _ _ (out.time_now s).1 (list_key config d) (format_uint v),
              list_key_eq config d c,
              outside.written_text (format_uint u),
              outside.numeral_eq u v,
              (outside.time_same s).same (list_key config d) (format_uint v),
            )
            refl

  remove_one :
      (m : WaitingMember) (s : S)
      → room_of
          (z_delete client
            (list_key config m.category)
            (record { score = 0; member = uint_member m.user_id } ∷ [])
            s).1
        ≡ without m.category m.user_id (room_of s)
  unfolding z_delete without same_category
  remove_one m s i d v = entry d v i
    where
      entry :
          (d : Category) (v : ℕ)
          → scores
              (client.z_rem (list_key config m.category) (uint_member m.user_id ∷ []) s).1
              (list_key config d)
              (format_uint v)
            ≡ without m.category m.user_id (room_of s) d v
      entry d v =
          rw
            (
              sets.rem_scores _ _ s (list_key config d) (format_uint v),
              list_key_eq config d m.category,
              outside.written_uint m.user_id,
              outside.numeral_eq m.user_id v,
            )
            refl

  -- On a server that answers every command, removing members is done without an error, and is, of that
  -- map, the removal of the entry of each of them from the list of his category, and of no other.
  pub remove_waiting_member-leave :
      (ms : List WaitingMember) (s : S)
      → let (err, s') = remove_waiting_member config client out ms s in
        (err ≡ none) × (room_of s' ≡ leave ms (room_of s))
  unfolding remove_waiting_member leave
  remove_waiting_member-leave [] s = (refl, refl)
  remove_waiting_member-leave (m ∷ ms) s =
      let (done, rest) = remove_waiting_member-leave ms _ in
      (done, rest ∙ ap (leave ms) (remove_one m s))

  pub remove_waiting_member-later :
      (ms : List WaitingMember) (s : S)
      → now s ≤ now (remove_waiting_member config client out ms s).1
  unfolding remove_waiting_member z_delete
  remove_waiting_member-later [] s = omega arith
  remove_waiting_member-later (m ∷ ms) s = omega (
    arith,
    sets.rem_later (list_key config m.category) (uint_member m.user_id ∷ []) s,
    remove_waiting_member-later ms
        (z_delete client (list_key config m.category)
          (record { score = 0; member = uint_member m.user_id } ∷ []) s).1,
  )
