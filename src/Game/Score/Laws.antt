-- ===== src/Game/Score/Laws.antt =====
-- The range and the order of the scores.
use brain_blitz.Prelude.{ℕ, ◌+◌, ◌-◌, ◌≤◌, ◌<◌, ◌≡◌, inl, inr, Bool, true, false, arith, Bool-cases}
use brain_blitz.Prelude.Int.{ℤ, pos, negsuc, ◌≤ℤ◌, add_int, add_int_exact, int_min_abs}
use brain_blitz.Game.Entity.{Time}
use brain_blitz.Game.Time.{sub}
use brain_blitz.Game.Score.{Floats, IsFloat64, ScoreConfig, bonus_of, calculate_score}

-- A configuration of the service: non-negative scores far below 2 ^ 53.
pub record IsScoreConfig (config : ScoreConfig) (base max : ℕ) : Type 0 where
  pub base_is : config.base_score ≡ pos base
  pub max_is : config.max_bonus ≡ pos max
  pub exact : base + max < 9007199254740992

-- Where the answer is not late, the time left is a duration of zero or more.
pub sub_left :
    (valid answer : Time)
    → answer ≤ valid
    → valid - answer < int_min_abs
    → sub valid answer ≡ pos (valid - answer)
unfolding sub
sub_left valid answer h k = ground arith

module _ (f : Floats) (laws : IsFloat64 f) (max : ℕ) (exact : max < 9007199254740992) where
  abbrev IsFraction : f.Float → Type 0
  IsFraction q = (f.geb q (f.of_int (pos 0)) ≡ true) × (f.geb (f.of_int (pos 1)) q ≡ true)

  abbrev share : f.Float → f.Float
  share q = f.mul (f.of_int (pos max)) q

  share_nonneg : (q : f.Float) → IsFraction q → f.geb (share q) (f.of_int (pos 0)) ≡ true
  share_nonneg q (low, high) =
      laws.geb_trans (share q) (share (f.of_int (pos 0))) (f.of_int (pos 0))
        (laws.mul_mono max q (f.of_int (pos 0)) high low (laws.of_int_mono 0 0 (omega arith)))
        (laws.mul_zero max)

  share_le_max : (q : f.Float) → IsFraction q → f.geb (f.of_int (pos max)) (share q) ≡ true
  share_le_max q (low, high) =
      laws.geb_trans (f.of_int (pos max)) (share (f.of_int (pos 1))) (share q) (laws.mul_one max)
        (laws.mul_mono max (f.of_int (pos 1)) q (laws.of_int_mono 1 1 (omega arith)) high low)

  -- The bonus of a fraction of the deadline.
  trunc_share_range :
      (q : f.Float) → IsFraction q → (pos 0 ≤ℤ f.trunc (share q)) × (f.trunc (share q) ≤ℤ pos max)
  trunc_share_range q h = (
    rw (laws.trunc_of_int 0 (omega arith)) at (
        laws.trunc_mono max (share q) (f.of_int (pos 0)) exact (share_le_max q h) (share_nonneg q h)
          (laws.of_int_mono 0 0 (omega arith))),
    rw (laws.trunc_of_int max exact) at (
        laws.trunc_mono max (f.of_int (pos max)) (share q) exact
          (laws.of_int_mono max max (omega arith)) (share_le_max q h) (share_nonneg q h)),
  )

  trunc_share_mono :
      (p q : f.Float)
      → IsFraction p
      → IsFraction q
      → f.geb p q ≡ true
      → f.trunc (share q) ≤ℤ f.trunc (share p)
  trunc_share_mono p q hp hq pq =
      laws.trunc_mono max (share p) (share q) exact (share_le_max p hp)
        (laws.mul_mono max p q hp.1 pq hq.0) (share_nonneg q hq)

  module _ (config : ScoreConfig) (max_is : config.max_bonus ≡ pos max) where
    fraction :
        (n : ℕ)
        → f.geb (f.seconds (pos n)) (f.seconds config.bonus_deadline) ≡ false
        → IsFraction (f.div (f.seconds (pos n)) (f.seconds config.bonus_deadline))
    fraction n late =
        laws.div_range (f.seconds (pos n)) (f.seconds config.bonus_deadline) (laws.seconds_nonneg n)
          late (laws.seconds_total (pos n) config.bonus_deadline late)

    abbrev is_early : ℕ → Bool
    is_early n = f.geb (f.seconds (pos n)) (f.seconds config.bonus_deadline)

    bonus_full : (n : ℕ) → is_early n ≡ true → bonus_of f config (pos n) ≡ pos max
    unfolding bonus_of
    bonus_full n early = rw (early, max_is)

    bonus_part :
        (n : ℕ)
        → is_early n ≡ false
        → bonus_of f config (pos n)
          ≡ f.trunc (share (f.div (f.seconds (pos n)) (f.seconds config.bonus_deadline)))
    unfolding bonus_of
    bonus_part n late = rw (late, max_is)

    pub bonus_range :
        (n : ℕ) → (pos 0 ≤ℤ bonus_of f config (pos n)) × (bonus_of f config (pos n) ≤ℤ pos max)
    bonus_range n = elim (Bool-cases (is_early n)) [
      | inl early ↦ rw (bonus_full n early) (omega arith)
      | inr late ↦ rw (bonus_part n late) (trunc_share_range _ (fraction n late))
    ]

    -- With less time left the full bonus is not reached later.
    late_before : (m n : ℕ) → m ≤ n → is_early n ≡ false → is_early m ≡ false
    late_before m n le late = elim (Bool-cases (is_early m)) [
      | inl early ↦ cc (
          laws.geb_trans (f.seconds (pos n)) (f.seconds (pos m)) (f.seconds config.bonus_deadline)
            (laws.seconds_mono m n le) early)
      | inr also ↦ also
    ]

    -- More time left, no smaller bonus.
    pub bonus_mono : (m n : ℕ) → m ≤ n → bonus_of f config (pos m) ≤ℤ bonus_of f config (pos n)
    bonus_mono m n le = elim (Bool-cases (is_early n)) [
      | inl early ↦ rw (bonus_full n early) (bonus_range m).1
      | inr late ↦
          let late_m = late_before m n le late in
          rw (bonus_part n late, bonus_part m late_m)
            (trunc_share_mono _ _ (fraction n late) (fraction m late_m) (
              laws.div_mono (f.seconds (pos n)) (f.seconds (pos m))
                (f.seconds config.bonus_deadline) (laws.seconds_mono m n le) (laws.seconds_nonneg m)
                late (laws.seconds_total (pos n) config.bonus_deadline late)))
    ]

small_sum : (base b : ℕ) → base + b < 9007199254740992 → add_int (pos base) (pos b) ≡ pos (base + b)
small_sum base b h = add_int_exact base b (omega arith)

add_range :
    (base max : ℕ) (b : ℤ)
    → base + max < 9007199254740992
    → pos 0 ≤ℤ b
    → b ≤ℤ pos max
    → (pos base ≤ℤ add_int (pos base) b) × (add_int (pos base) b ≤ℤ pos (base + max))
add_range base max (pos n) exact low high = rw (small_sum base n (omega arith)) (omega arith)
add_range base max (negsuc n) exact low high = absurd (omega arith)

add_mono :
    (base max : ℕ) (b c : ℤ)
    → base + max < 9007199254740992
    → pos 0 ≤ℤ b
    → b ≤ℤ c
    → c ≤ℤ pos max
    → add_int (pos base) b ≤ℤ add_int (pos base) c
add_mono base max (pos m) (pos n) exact low le high =
    rw (small_sum base m (omega arith), small_sum base n (omega arith)) (omega arith)
add_mono base max (negsuc m) c exact low le high = absurd (omega arith)
add_mono base max (pos m) (negsuc n) exact low le high = absurd (omega arith)

score_in_time :
    (f : Floats) (config : ScoreConfig) (answer valid : Time)
    → answer ≤ valid
    → calculate_score f config true answer valid
      ≡ add_int config.base_score (bonus_of f config (sub valid answer))
unfolding calculate_score
score_in_time f config answer valid h = ground arith

-- An answer in time scores nothing if it is wrong. If it is right it scores the base score at least,
-- and at most the base score and the whole bonus.
pub calculate_score_range :
    (f : Floats) (laws : IsFloat64 f) (config : ScoreConfig) (base max : ℕ)
    (ok : IsScoreConfig config base max) (answer valid : Time)
    → valid - answer < int_min_abs
    → answer ≤ valid
    → let score = calculate_score f config true answer valid in
      (calculate_score f config false answer valid ≡ pos 0)
      × (pos base ≤ℤ score)
      × (score ≤ℤ pos (base + max))
unfolding bonus_of
calculate_score_range f laws config base max ok answer valid small in_time =
    let (low, high) =
      bonus_range f laws max (omega (arith, ok.exact)) config ok.max_is (valid - answer) in
    let range : (pos base ≤ℤ calculate_score f config true answer valid)
        × (calculate_score f config true answer valid ≤ℤ pos (base + max)) =
      rw
        (
          score_in_time f config answer valid in_time,
          sub_left valid answer in_time small,
          ok.base_is,
        )
        (add_range base max (bonus_of f config (pos (valid - answer))) ok.exact low high) in
    (unfold calculate_score in ground arith, range.0, range.1)

-- Of two right answers in time to a question, the earlier one scores no less.
pub calculate_score_mono :
    (f : Floats) (laws : IsFloat64 f) (config : ScoreConfig) (base max : ℕ)
    (ok : IsScoreConfig config base max) (earlier later valid : Time)
    → valid - earlier < int_min_abs
    → earlier ≤ later
    → later ≤ valid
    → calculate_score f config true later valid ≤ℤ calculate_score f config true earlier valid
unfolding bonus_of
calculate_score_mono f laws config base max ok earlier later valid small le in_time =
    let left = valid - later in
    let more = valid - earlier in
    let exact : max < 9007199254740992 = omega (arith, ok.exact) in
    rw
      (
        score_in_time f config later valid in_time,
        score_in_time f config earlier valid (omega arith),
        sub_left valid later in_time (omega arith),
        sub_left valid earlier (omega arith) small,
        ok.base_is,
      )
      (add_mono base max (bonus_of f config (pos left)) (bonus_of f config (pos more)) ok.exact
        (bonus_range f laws max exact config ok.max_is left).0
        (bonus_mono f laws max exact config ok.max_is left more (omega arith))
        (bonus_range f laws max exact config ok.max_is more).1)
