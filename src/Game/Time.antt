-- ===== src/Game/Time.antt =====
-- The operations of Go's package time that services/game_app uses, on nanoseconds.
use brain_blitz.Prelude.{ℕ, ◌+◌, ◌-◌, ◌*◌, Bool, ltb, if◌then◌else◌}
use brain_blitz.Prelude.Int.{ℤ, pos, negsuc, pos_part, neg_part, sub_ℕ, int_min_abs, wrap64, quot_ℤ}
use brain_blitz.Game.Entity.{Time, Duration}

-- `t.After(u)`
abbrev pub after : Time → Time → Bool
after t u = ltb u t

-- `t.Add(d)`
unfoldable pub add : Time → Duration → Time
add t d = t + pos_part d - neg_part d

-- `t.Sub(u)`, which stops at the ends of the 64-bit range.
saturate : ℤ → Duration
saturate (pos n) = if ltb n int_min_abs then pos n else pos (int_min_abs - 1)
saturate (negsuc n) = if ltb n int_min_abs then negsuc n else negsuc (int_min_abs - 1)

unfoldable pub sub : Time → Time → Duration
unfolding saturate
sub t u = saturate (sub_ℕ t u)

-- `d.Milliseconds()`
abbrev pub milliseconds : Duration → ℤ
milliseconds d = quot_ℤ d 1000000

-- `d * time.Duration(n)`
unfoldable pub times : Duration → ℕ → Duration
unfolding wrap64
times (pos d) n = wrap64 (pos (d * n))
times (negsuc d) n = wrap64 (sub_ℕ 0 ((d + 1) * n))
