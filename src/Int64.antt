-- ===== src/Int64.antt =====
-- Go's `int64` as its 64-bit pattern, with the wrap-around of its operations.
use keva.Prelude.{ℕ, ◌+◌, ◌-◌, ◌%◌, ◌^◌, ◌<◌, ◌≡◌, arith, Bool, ltb}

-- `int64(n)` of an `int` that is no longer than memory, and so fits
abbrev pub int64 : ℕ → ℕ
int64 n = n % 2 ^ 64

unfoldable pub add64 : ℕ → ℕ → ℕ
add64 a b = (a + b) % 2 ^ 64

unfoldable pub sub64 : ℕ → ℕ → ℕ
sub64 a b = (a + 2 ^ 64 - b) % 2 ^ 64

-- `a > b` on signed values: the patterns compare as numbers once the sign bit is flipped.
unfoldable pub gt64 : ℕ → ℕ → Bool
gt64 a b = ltb ((b + 2 ^ 63) % 2 ^ 64) ((a + 2 ^ 63) % 2 ^ 64)

-- On values that are not negative it is the order of the numbers.
pub gt64-ltb : (a b : ℕ) → a < 2 ^ 63 → b < 2 ^ 63 → gt64 a b ≡ ltb b a
unfolding gt64
gt64-ltb a b h k = ground arith

-- A counter kept modulo 2 ^ 64 stays the sum that it counts.
pub add64-counts : (c n s : ℕ) → c ≡ s % 2 ^ 64 → add64 c (int64 n) ≡ (s + n) % 2 ^ 64
unfolding add64
add64-counts c n s e = omega arith

pub sub64-counts : (c n s t : ℕ) → c ≡ s % 2 ^ 64 → t + n ≡ s → sub64 c (int64 n) ≡ t % 2 ^ 64
unfolding sub64
sub64-counts c n s t e h = omega arith
