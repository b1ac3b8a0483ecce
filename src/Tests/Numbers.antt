-- ===== src/Tests/Numbers.antt =====
-- Fixed-point numbers with nine decimals in the place of float64: they keep its laws.
use native.Mathlib.Nat.{div-mul-le_self, le-div_iff_mul-le, div-zero}
use Prim.Native.Nat.{min}
use brain_blitz.Prelude.{ℕ, zero, suc, ◌*◌, ◌/◌, ◌≤◌, ◌≡◌, ap, true, arith, leb, leb→le}
use brain_blitz.Prelude.Int.{pos, pos_part}
use brain_blitz.Game.Score.{Floats, IsFloat64}

abbrev one : ℕ
one = 1000000000

abbrev pub fixed : Floats
fixed = record {
  Float = ℕ;
  of_int = λ n. pos_part n * one;
  seconds = λ d. pos_part d;
  mul = λ x y. x * y / one;
  div = λ x d. min one (x * one / d);
  geb = λ x y. leb y x;
  trunc = λ x. pos (x / one);
}

leb_of : (a b : ℕ) → a ≤ b → leb a b ≡ true
leb_of a b h = ground arith

div_le : (x y d : ℕ) → x ≤ y → x / d ≤ y / d
div_le x y zero h = omega (arith, div-zero x, div-zero y)
div_le x y (suc d) h =
    (le-div_iff_mul-le (omega arith)).1 (omega (arith, div-mul-le_self x (suc d), h))

pub fixed-IsFloat64 : IsFloat64 fixed
fixed-IsFloat64 = record {
  geb_trans = λ x y z h k. ground arith;
  of_int_mono = λ m n h. leb_of (m * one) (n * one) (omega arith);
  seconds_mono = λ m n h. leb_of m n h;
  seconds_nonneg = λ n. leb_of 0 n (omega arith);
  seconds_total = λ d e h. ground arith;
  div_mono = λ x y d h _ _ _.
      leb_of (min one (y * one / d)) (min one (x * one / d))
        (omega (arith, div_le (y * one) (x * one) d (omega (arith, leb→le y x h))));
  div_range = λ x d _ _ _. (
    leb_of 0 (min one (x * one / d)) (omega arith),
    leb_of (min one (x * one / d)) one (omega arith),
  );
  mul_mono = λ n x y _ h _.
      leb_of (n * one * y / one) (n * one * x / one)
        (div_le (n * one * y) (n * one * x) one (grind (arith, leb→le y x h)));
  mul_zero = λ n. leb_of 0 (n * one * 0 / one) (omega arith);
  mul_one = λ n. leb_of (n * one * one / one) (n * one) (omega arith);
  trunc_mono = λ n x y _ _ h _. omega (arith, div_le y x one (leb→le y x h));
  trunc_of_int = λ n _. ap pos (omega arith);
}
