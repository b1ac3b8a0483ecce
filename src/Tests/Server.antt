-- ===== src/Tests/Server.antt =====
-- A server with sorted sets in memory, numerals that are tallies, and a clock that ticks.
use Prim.Native.String.{String}
use brain_blitz.Prelude.{
  ℕ, zero, suc, ◌+◌, ◌≤◌, true, ◌≡◌, refl, ap, ◌∙◌, inl, inr, Option, none, some, List, [], ◌∷◌,
  str_eq, eq_iff, leb, ◌==◌, if◌then◌else◌, Bool-cases, Option-cases, arith,
}
use brain_blitz.Prelude.Int.{pos}
use brain_blitz.Game.Entity.{Time}
use brain_blitz.Redis.{Z, Client}
use brain_blitz.Redis.Behaviour.{Scores, added, removed, has_member, IsSortedSets}
use brain_blitz.Match.Repository.{Member, text_member, uint_member, Outside}
use brain_blitz.Match.Repository.Room.{IsOutside}

abbrev pub tally : ℕ → String
tally zero = ""
tally (suc n) = String.◌∷◌ "1" (tally n)

abbrev pub count : String → ℕ
count String.[] = 0
count (String.◌∷◌ c s) = suc (count s)

count-tally : (n : ℕ) → count (tally n) ≡ n
count-tally zero = refl
count-tally (suc n) = ap suc (count-tally n)

tally_eq : (m n : ℕ) → str_eq (tally m) (tally n) ≡ (m == n)
tally_eq m n = ground (arith, eq_iff (tally m) (tally n), count-tally m, count-tally n, ap count)

abbrev pub written : Member → String
written (text_member a) = a
written (uint_member n) = tally n

-- A member of a set; of two for one member the first counts.
pub record Entry : Type 0 where
  pub key : String
  pub member : String
  pub score : Option ℕ  -- `none`: removed

pub record Server : Type 0 where
  pub entries : List Entry
  pub time : Time

abbrev pub lookup : List Entry → String → String → Option ℕ
lookup [] key member = none
lookup (e ∷ es) key member =
    let rest = lookup es key member in
    if str_eq key e.key then (if str_eq e.member member then e.score else rest) else rest

abbrev pub scores : Server → Scores
scores s = lookup s.entries

abbrev pub now : Server → Time
now s = s.time

abbrev put : String → String → Option ℕ → Server → Server
put key member score s = record {
  entries = record { key = key; member = member; score = score } ∷ s.entries;
  time = s.time + 1;
}

abbrev add_all : String → List (Z Member) → Server → Server
add_all key [] s = s
add_all key (z ∷ zs) s = add_all key zs (put key (written z.member) (some z.score) s)

abbrev remove_all : String → List Member → Server → Server
remove_all key [] s = s
remove_all key (m ∷ ms) s = remove_all key ms (put key (written m) none s)

-- What the entries of a key show in a range, where they are not hidden.
abbrev in_range : (String → Option ℕ) → ℕ → ℕ → String → List Entry → List (Z String)
in_range current a b key [] = []
in_range current a b key (e ∷ es) =
    let rest = in_range current a b key es in
    if str_eq key e.key
    then elim (current e.member) [
      | none ↦ rest
      | some x ↦
          if leb a x
          then (if leb x b then record { score = x; member = e.member } ∷ rest else rest)
          else rest
    ]
    else rest

-- A bound is read back from its tally.
abbrev pub client : Client Server Member
client = record {
  z_add = λ key zs s. (none, add_all key zs s);
  z_rem = λ key ms s. (none, remove_all key ms s);
  z_range_by_score_with_scores =
      λ key a b s. (in_range (lookup s.entries key) (count a) (count b) key s.entries, none, s);
  z_range = λ key a b s. ([], none, s);
  itoa = tally;
}

abbrev pub out : Outside Server
out = record { time_now = λ s. (s.time, record s { time = s.time + 1 }); atoi = λ a. pos (count a) }

pub outside : IsOutside out tally written scores now
outside = record {
  time_same = λ s. record { same = λ k m. refl; later = omega arith };
  time_after = λ s. omega arith;
  time_before = λ s. omega arith;
  numeral_eq = tally_eq;
  atoi_numeral = λ n small. ap pos (count-tally n);
  written_text = λ a. refl;
  written_uint = λ n. refl;
}

scores-add_all :
    (key : String) (zs : List (Z Member)) (s : Server) (k m : String)
    → scores (add_all key zs s) k m
      ≡ (if str_eq k key then added written zs m (scores s k m) else scores s k m)
scores-add_all key [] s k m = ground arith
scores-add_all key (z ∷ zs) s k m = elim (Bool-cases (str_eq k key)) [
  | inl own ↦ scores-add_all key zs (put key (written z.member) (some z.score) s) k m ∙ rw own refl
  | inr other ↦
      scores-add_all key zs (put key (written z.member) (some z.score) s) k m ∙ rw other refl
]

add_all_later : (key : String) (zs : List (Z Member)) (s : Server) → now s ≤ now (add_all key zs s)
add_all_later key [] s = omega arith
add_all_later key (z ∷ zs) s =
    omega (arith, add_all_later key zs (put key (written z.member) (some z.score) s))

scores-remove_all :
    (key : String) (ms : List Member) (s : Server) (k m : String)
    → scores (remove_all key ms s) k m
      ≡ (if str_eq k key then removed written ms m (scores s k m) else scores s k m)
scores-remove_all key [] s k m = ground arith
scores-remove_all key (z ∷ zs) s k m = elim (Bool-cases (str_eq k key)) [
  | inl own ↦ scores-remove_all key zs (put key (written z) none s) k m ∙ rw own refl
  | inr other ↦ scores-remove_all key zs (put key (written z) none s) k m ∙ rw other refl
]

remove_all_later :
    (key : String) (ms : List Member) (s : Server) → now s ≤ now (remove_all key ms s)
remove_all_later key [] s = omega arith
remove_all_later key (m ∷ ms) s =
    omega (arith, remove_all_later key ms (put key (written m) none s))

-- What is in a range is a current score within it, and every such score of an entry is there.
range_sound :
    (current : String → Option ℕ) (a b : ℕ) (key : String) (es : List Entry) (m : String) (x : ℕ)
    → has_member m x (in_range current a b key es) ≡ true
    → (current m ≡ some x) × (a ≤ x) × (x ≤ b)
range_sound current a b key [] m x h = absurd (ground arith)
range_sound current a b key (e ∷ es) m x h =
    let rest = range_sound current a b key es m x in
    elim (Bool-cases (str_eq key e.key)) [
      | inr other ↦ rest (ground (arith, other))
      | inl own ↦ elim (Option-cases (current e.member)) [
        | inl gone ↦ rest (ground (arith, own, gone))
        | inr (z, now_z) ↦ ground (
          arith,
          own,
          now_z,
          rest,
          λ (p : str_eq e.member m ≡ true). ap current ((eq_iff e.member m).0 p),
        )
      ]
    ]

range_complete :
    (current : String → Option ℕ) (a b : ℕ) (key : String) (es : List Entry) (m : String) (x y : ℕ)
    → current m ≡ some x
    → a ≤ x
    → x ≤ b
    → lookup es key m ≡ some y
    → has_member m x (in_range current a b key es) ≡ true
range_complete current a b key [] m x y h from until there = absurd (ground arith)
range_complete current a b key (e ∷ es) m x y h from until there =
    let rest = range_complete current a b key es m x y h from until in
    elim (Bool-cases (str_eq key e.key)) [
      | inr other ↦ ground (arith, other, rest)
      | inl own ↦ elim (Bool-cases (str_eq e.member m)) [
        | inl same ↦
            let here : current e.member ≡ some x = ap current ((eq_iff e.member m).0 same) ∙ h in
            ground (arith, own, same, here)
        | inr differ ↦ elim (Option-cases (current e.member)) [
          | inl gone ↦ ground (arith, own, differ, gone, rest)
          | inr (z, now_z) ↦ ground (arith, own, differ, now_z, rest)
        ]
      ]
    ]

pub sets : IsSortedSets client written scores now
sets = record {
  add_ok = λ key zs s. refl;
  add_scores = scores-add_all;
  add_later = add_all_later;
  rem_ok = λ key ms s. refl;
  rem_scores = scores-remove_all;
  rem_later = remove_all_later;
  range_ok = λ key a b s. refl;
  range_members = λ key a b s m x. (
    λ h.
        rw (← count-tally a, ← count-tally b)
          (range_sound (lookup s.entries key) (count (tally a)) (count (tally b)) key s.entries m x
            h),
    λ h.
        range_complete (lookup s.entries key) (count (tally a)) (count (tally b)) key s.entries m x
          x h.0 (rw (count-tally a) h.1) (rw (count-tally b) h.2) h.0,
  );
  range_later = λ key a b s. record { same = λ k m. refl; later = omega arith };
}
