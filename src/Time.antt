-- ===== src/Time.antt =====
-- Go's `time.Time` as far as the program uses it: nanoseconds since the zero `Time`, midnight of
-- January 1 of the year 1. A `time.Duration` is an `int64`, kept as its 64-bit pattern.
use keva.Prelude.{
  ℕ, ◌+◌, ◌-◌, ◌*◌, ◌%◌, ◌^◌, ◌≤◌, ◌<◌, ◌≡◌, arith, Bool, ◌||◌, ltb, leb, ◌==◌, if◌then◌else◌,
}

abbrev pub Time : Type 0
Time = ℕ

-- The Unix epoch is 62135596800 seconds after the zero `Time`.
abbrev pub unix_epoch : Time
unix_epoch = 62135596800 * 1000000000

abbrev pub before : Time → Time → Bool
before t u = ltb t u

abbrev pub after : Time → Time → Bool
after t u = ltb u t

-- `uint64(t.UnixNano())`: the 64-bit pattern of the nanoseconds since the epoch. 4 * 2 ^ 64 is above
-- the epoch, so the difference is not cut off at 0.
unfoldable pub unix_nano : Time → ℕ
unix_nano t = (t + 4 * 2 ^ 64 - unix_epoch) % 2 ^ 64

-- `time.Unix(0, int64(n))`: a pattern with the top bit set is a time before the epoch.
unfoldable pub time_unix : ℕ → Time
time_unix n = if ltb n (2 ^ 63) then unix_epoch + n else unix_epoch + n - 2 ^ 64

-- The times whose `UnixNano` is defined: those that an `int64` of nanoseconds reaches.
pub record InUnixRange (t : Time) : Type 0 where
  pub from : unix_epoch ≤ t + 2 ^ 63
  pub to : t < unix_epoch + 2 ^ 63

pub unix_nano-lt : (t : Time) → unix_nano t < 2 ^ 64
unfolding unix_nano
unix_nano-lt t = omega arith

pub time_unix-unix_nano : (t : Time) → InUnixRange t → time_unix (unix_nano t) ≡ t
unfolding time_unix unix_nano
time_unix-unix_nano t h = ground arith

-- `ttl <= 0` on the pattern of an `int64`
abbrev pub is_nonpositive : ℕ → Bool
is_nonpositive d = d == 0 || leb (2 ^ 63) d

-- `t.Add(d)`
unfoldable pub add_duration : Time → ℕ → Time
add_duration t d = if ltb d (2 ^ 63) then t + d else t + d - 2 ^ 64
