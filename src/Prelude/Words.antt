-- ===== src/Prelude/Words.antt =====
-- Big-endian words (`encoding/binary`'s `BigEndian`). A `w`-bit word is a number below 2 ^ w.
use Prim.Native.Nat.{ℕ, ◌+◌, ◌*◌, ◌/◌, ◌%◌, ◌^◌, ◌≤◌, ◌<◌}
use mathlib.Core.Path.{◌≡◌}
use mathlib.Core.List.{[], ◌∷◌}
use native.Mathlib.Omega.{arith}
use keva.Prelude.Tests.{Bytes}
use keva.Prelude.Lists.{length, All}

-- `BigEndian.PutUintN` on N / 8 bytes
unfoldable pub put_uint16 : ℕ → Bytes
put_uint16 n = (n / 256 % 256) ∷ (n % 256) ∷ []

unfoldable pub put_uint32 : ℕ → Bytes
put_uint32 n = (n / 2 ^ 24 % 256) ∷ (n / 2 ^ 16 % 256) ∷ (n / 2 ^ 8 % 256) ∷ (n % 256) ∷ []

unfoldable pub put_uint64 : ℕ → Bytes
put_uint64 n =
    (n / 2 ^ 56 % 256)
    ∷ (n / 2 ^ 48 % 256)
    ∷ (n / 2 ^ 40 % 256)
    ∷ (n / 2 ^ 32 % 256)
    ∷ (n / 2 ^ 24 % 256)
    ∷ (n / 2 ^ 16 % 256)
    ∷ (n / 2 ^ 8 % 256)
    ∷ (n % 256)
    ∷ []

-- `BigEndian.UintN`: the bytes from the highest on
unfoldable pub uint_from : ℕ → Bytes → ℕ
uint_from acc [] = acc
uint_from acc (b ∷ bs) = uint_from (acc * 256 + b) bs

unfoldable pub uint : Bytes → ℕ
unfolding uint_from
uint = uint_from 0

pub uint-put_uint16 : (n : ℕ) → n < 2 ^ 16 → uint (put_uint16 n) ≡ n
unfolding uint put_uint16
uint-put_uint16 n h = omega arith

pub uint-put_uint32 : (n : ℕ) → n < 2 ^ 32 → uint (put_uint32 n) ≡ n
unfolding uint put_uint32
uint-put_uint32 n h = omega arith

pub uint-put_uint64 : (n : ℕ) → n < 2 ^ 64 → uint (put_uint64 n) ≡ n
unfolding uint put_uint64
uint-put_uint64 n h = omega arith

abbrev pub IsByte : ℕ → Type 0
IsByte b = b < 256

pub uint_two_bytes : (s : Bytes) → All IsByte s → length s ≤ 2 → uint s < 2 ^ 16
unfolding uint
uint_two_bytes [] bytes h = omega arith
uint_two_bytes (a ∷ []) bytes h = omega arith
uint_two_bytes (a ∷ b ∷ []) bytes h = omega arith
uint_two_bytes (a ∷ b ∷ c ∷ s) bytes h = absurd (omega arith)

pub uint_four_bytes : (s : Bytes) → All IsByte s → length s ≤ 4 → uint s < 2 ^ 32
unfolding uint
uint_four_bytes [] bytes h = omega arith
uint_four_bytes (a ∷ []) bytes h = omega arith
uint_four_bytes (a ∷ b ∷ []) bytes h = omega arith
uint_four_bytes (a ∷ b ∷ c ∷ []) bytes h = omega arith
uint_four_bytes (a ∷ b ∷ c ∷ d ∷ []) bytes h = omega arith
uint_four_bytes (a ∷ b ∷ c ∷ d ∷ e ∷ s) bytes h = absurd (omega arith)
