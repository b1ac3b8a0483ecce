-- ===== src/Prelude/Int.antt =====
-- Signed integers over the native numbers, and Go's 64-bit `int`, which wraps around.
use Prim.Native.Nat.{ℕ, suc, ◌+◌, ◌-◌, ◌/◌, ◌%◌, ◌≤◌, ◌<◌}
use mathlib.Core.Path.{◌≡◌}
use mathlib.Core.Bool.{Bool}
use native.Mathlib.Omega.{arith}
use brain_blitz.Prelude.Tests.{ltb, leb, if◌then◌else◌}

-- `negsuc n` is -(n + 1).
pub data ℤ : Type 0 where
  pos : ℕ → ℤ
  negsuc : ℕ → ℤ

abbrev pub pos_part : ℤ → ℕ
pos_part (pos n) = n
pos_part (negsuc n) = 0

abbrev pub neg_part : ℤ → ℕ
neg_part (pos n) = 0
neg_part (negsuc n) = suc n

-- a - b, as an integer.
abbrev pub sub_ℕ : ℕ → ℕ → ℤ
sub_ℕ a b = if leb b a then pos (a - b) else negsuc (b - a - 1)

abbrev pub ltb_ℤ : ℤ → ℤ → Bool
ltb_ℤ a b = ltb (pos_part a + neg_part b) (pos_part b + neg_part a)

abbrev pub leb_ℤ : ℤ → ℤ → Bool
leb_ℤ a b = leb (pos_part a + neg_part b) (pos_part b + neg_part a)

infix 50 ◌≤ℤ◌
abbrev pub ◌≤ℤ◌ : ℤ → ℤ → Type 0
a ≤ℤ b = pos_part a + neg_part b ≤ pos_part b + neg_part a

-- 2 ^ 63 and 2 ^ 64.
abbrev pub int_min_abs : ℕ
int_min_abs = 9223372036854775808

abbrev pub uint64_mod : ℕ
uint64_mod = 18446744073709551616

-- The `int64` that a bit pattern below 2 ^ 64 stands for.
abbrev pub signed64 : ℕ → ℤ
signed64 p = if ltb p int_min_abs then pos p else negsuc (uint64_mod - 1 - p)

-- An exact result put back into 64 bits.
unfoldable pub wrap64 : ℤ → ℤ
wrap64 z = signed64 ((pos_part z + (uint64_mod - neg_part z % uint64_mod)) % uint64_mod)

-- `a + b` on Go's 64-bit `int`.
infixl 65 ◌+ℤ◌
unfoldable pub ◌+ℤ◌ : ℤ → ℤ → ℤ
a +ℤ b = sub_ℕ (pos_part a + pos_part b) (neg_part a + neg_part b)

unfoldable pub add_int : ℤ → ℤ → ℤ
unfolding wrap64 ◌+ℤ◌
add_int a b = wrap64 (a +ℤ b)

-- A sum below 2 ^ 63 does not wrap.
pub add_int_exact : (a b : ℕ) → a + b < int_min_abs → add_int (pos a) (pos b) ≡ pos (a + b)
unfolding add_int
add_int_exact a b h = ground arith

-- `x / k` on a signed integer: it truncates towards zero.
abbrev pub quot_ℤ : ℤ → ℕ → ℤ
quot_ℤ (pos n) k = pos (n / k)
quot_ℤ (negsuc n) k = sub_ℕ 0 (suc n / k)
