-- ===== src/Game/Score.antt =====
-- `CalculateScore` of services/game_app/repository/game.go. Go's float64 is a parameter: its
-- type, the operations that the code uses, and in `IsFloat64` the laws of IEEE 754 on them.
pub mod Laws
use brain_blitz.Prelude.{ℕ, ◌≡◌, ◌≤◌, Bool, true, false, not, ◌||◌, if◌then◌else◌, ◌<◌}
use brain_blitz.Prelude.Int.{ℤ, pos, add_int, ◌≤ℤ◌}
use brain_blitz.Game.Entity.{Time, Duration}
use brain_blitz.Game.Time.{after, sub}

pub record Floats : Type 1 where
  pub Float : Type 0
  pub of_int : ℤ → Float
  -- `d.Seconds()`
  pub seconds : Duration → Float
  pub mul : Float → Float → Float
  pub div : Float → Float → Float
  -- `a >= b`
  pub geb : Float → Float → Bool
  -- The conversion to an integer, which drops the fraction.
  pub trunc : Float → ℤ

-- Correctly rounded operations are monotone, and keep the order of the exact result to a float;
-- every integer below 2 ^ 53 is a float. The laws speak of ordered values, never of NaN, and of
-- factors and quotients between 0 and 1.
pub record IsFloat64 (f : Floats) : Type 0 where
  pub geb_trans : (x y z : f.Float) → f.geb x y ≡ true → f.geb y z ≡ true → f.geb x z ≡ true
  pub of_int_mono : (m n : ℕ) → m ≤ n → f.geb (f.of_int (pos n)) (f.of_int (pos m)) ≡ true
  pub seconds_mono : (m n : ℕ) → m ≤ n → f.geb (f.seconds (pos n)) (f.seconds (pos m)) ≡ true
  pub seconds_nonneg : (n : ℕ) → f.geb (f.seconds (pos n)) (f.of_int (pos 0)) ≡ true
  pub seconds_total :
      (d e : Duration)
      → f.geb (f.seconds d) (f.seconds e) ≡ false
      → f.geb (f.seconds e) (f.seconds d) ≡ true
  pub div_mono :
      (x y d : f.Float)
      → f.geb x y ≡ true
      → f.geb y (f.of_int (pos 0)) ≡ true
      → f.geb x d ≡ false
      → f.geb d x ≡ true
      → f.geb (f.div x d) (f.div y d) ≡ true
  pub div_range :
      (x d : f.Float)
      → f.geb x (f.of_int (pos 0)) ≡ true
      → f.geb x d ≡ false
      → f.geb d x ≡ true
      → (f.geb (f.div x d) (f.of_int (pos 0)) ≡ true)
        × (f.geb (f.of_int (pos 1)) (f.div x d) ≡ true)
  pub mul_mono :
      (n : ℕ) (x y : f.Float)
      → f.geb (f.of_int (pos 1)) x ≡ true
      → f.geb x y ≡ true
      → f.geb y (f.of_int (pos 0)) ≡ true
      → f.geb (f.mul (f.of_int (pos n)) x) (f.mul (f.of_int (pos n)) y) ≡ true
  pub mul_zero :
      (n : ℕ) → f.geb (f.mul (f.of_int (pos n)) (f.of_int (pos 0))) (f.of_int (pos 0)) ≡ true
  pub mul_one :
      (n : ℕ) → f.geb (f.of_int (pos n)) (f.mul (f.of_int (pos n)) (f.of_int (pos 1))) ≡ true
  pub trunc_mono :
      (n : ℕ) (x y : f.Float)
      → n < 9007199254740992
      → f.geb (f.of_int (pos n)) x ≡ true
      → f.geb x y ≡ true
      → f.geb y (f.of_int (pos 0)) ≡ true
      → f.trunc y ≤ℤ f.trunc x
  pub trunc_of_int : (n : ℕ) → n < 9007199254740992 → f.trunc (f.of_int (pos n)) ≡ pos n

pub record ScoreConfig : Type 0 where
  pub base_score : ℤ
  pub max_bonus : ℤ
  pub bonus_deadline : Duration

module _ (f : Floats) where
  unfoldable pub bonus_of : ScoreConfig → Duration → ℤ
  bonus_of config diff =
      let time_diff = f.seconds diff in
      let deadline = f.seconds config.bonus_deadline in
      if f.geb time_diff deadline
      then config.max_bonus
      else f.trunc (f.mul (f.of_int config.max_bonus) (f.div time_diff deadline))

  unfoldable pub calculate_score : ScoreConfig → Bool → Time → Time → ℤ
  calculate_score config is_correct answer_time valid_answer_time =
      if not is_correct || after answer_time valid_answer_time
      then pos 0
      else add_int config.base_score (bonus_of config (sub valid_answer_time answer_time))
