-- ===== src/Prelude/Fields.antt =====
-- Reading a byte or a big-endian word out of a slice.
use Prim.Native.Nat.{◌-◌, ℕ, zero, suc, ◌+◌, ◌^◌, ◌≤◌, ◌<◌}
use mathlib.Core.Path.{◌≡◌, refl}
use mathlib.Core.List.{[], ◌∷◌, ◌++◌}
use native.Mathlib.Omega.{arith}
use mathlib.Core.Bool.{Bool, true, false}
use keva.Prelude.Tests.{Bytes, ◌==◌}
use keva.Prelude.Lists.{drop, length, take}
use keva.Prelude.Failures.{Outcome, ok, panic, ◌>>=◌}
use keva.Prelude.Slices.{slice_in_range, slice, slice-part, slice-take}
use keva.Prelude.Words.{
  put_uint16, put_uint32, put_uint64, uint, uint-put_uint16, uint-put_uint32, uint-put_uint64,
}

-- `s[i]`, and a word read from `s[lo:hi]`
unfoldable pub byte_at : {E : Type 0} → Bytes → ℕ → Outcome E ℕ
byte_at [] i = panic
byte_at (b ∷ bs) zero = ok b
byte_at (b ∷ bs) (suc i) = byte_at bs i

unfoldable pub uint_at : {E : Type 0} → Bytes → ℕ → ℕ → Outcome E ℕ
uint_at s lo hi = do w ← slice s lo hi; ok (uint w)

module _ {E : Type 0} where
  pub byte_at-part :
      (pre : Bytes) (b : ℕ) (post : Bytes) (i : ℕ)
      → i ≡ length pre
      → byte_at {E = E} (pre ++ (b ∷ post)) i ≡ ok b
  unfolding byte_at
  byte_at-part [] b post i e = rw e
  byte_at-part (a ∷ pre) b post i e = rw e (byte_at-part pre b post (length pre) refl)

  pub byte_at-take : (s : Bytes) (n i : ℕ) → i < n → byte_at {E = E} (take n s) i ≡ byte_at s i
  unfolding byte_at take
  byte_at-take s zero i h = absurd (omega arith)
  byte_at-take [] (suc n) i h = refl
  byte_at-take (a ∷ s) (suc n) zero h = refl
  byte_at-take (a ∷ s) (suc n) (suc i) h = byte_at-take s n i (omega arith)

  pub uint_at-take :
      (s : Bytes) (n lo hi : ℕ)
      → lo ≤ hi
      → hi ≤ n
      → n ≤ length s
      → uint_at {E = E} (take n s) lo hi ≡ uint_at s lo hi
  unfolding uint_at
  uint_at-take s n lo hi a b c = rw (slice-take {E = E} s n lo hi a b c)

  pub uint16_at-part :
      (pre : Bytes) (n : ℕ) (post : Bytes) (lo hi : ℕ)
      → n < 2 ^ 16
      → lo ≡ length pre
      → hi ≡ lo + 2
      → uint_at {E = E} (pre ++ (put_uint16 n ++ post)) lo hi ≡ ok n
  unfolding uint_at
  uint16_at-part pre n post lo hi h a b = rw (
    slice-part {E = E} pre (put_uint16 n) post lo hi a (unfold put_uint16 in b),
    uint-put_uint16 n h,
  )

  pub uint32_at-part :
      (pre : Bytes) (n : ℕ) (post : Bytes) (lo hi : ℕ)
      → n < 2 ^ 32
      → lo ≡ length pre
      → hi ≡ lo + 4
      → uint_at {E = E} (pre ++ (put_uint32 n ++ post)) lo hi ≡ ok n
  unfolding uint_at
  uint32_at-part pre n post lo hi h a b = rw (
    slice-part {E = E} pre (put_uint32 n) post lo hi a (unfold put_uint32 in b),
    uint-put_uint32 n h,
  )

  pub uint64_at-part :
      (pre : Bytes) (n : ℕ) (post : Bytes) (lo hi : ℕ)
      → n < 2 ^ 64
      → lo ≡ length pre
      → hi ≡ lo + 8
      → uint_at {E = E} (pre ++ (put_uint64 n ++ post)) lo hi ≡ ok n
  unfolding uint_at
  uint64_at-part pre n post lo hi h a b = rw (
    slice-part {E = E} pre (put_uint64 n) post lo hi a (unfold put_uint64 in b),
    uint-put_uint64 n h,
  )

-- `if b { buf[i] = 0x01 }` on a fresh buffer
abbrev pub bool_byte : Bool → ℕ
bool_byte true = 0x01
bool_byte false = 0x00

pub bool_byte-eq-one : (b : Bool) → (bool_byte b == 0x01) ≡ b
bool_byte-eq-one true = refl
bool_byte-eq-one false = refl

module _ {E : Type 0} where
  pub uint_at_in_range :
      (s : Bytes) (lo hi : ℕ)
      → lo ≤ hi
      → hi ≤ length s
      → uint_at {E = E} s lo hi ≡ ok (uint (take (hi - lo) (drop lo s)))
  unfolding uint_at
  uint_at_in_range s lo hi h k = rw (slice_in_range {E = E} s lo hi h k)

  -- the byte at `i`, where there is one
  pub byte_at_in_range : (s : Bytes) (i : ℕ) → i < length s → (b : ℕ) × (byte_at {E = E} s i ≡ ok b)
  unfolding byte_at
  byte_at_in_range [] i h = absurd (omega arith)
  byte_at_in_range (b ∷ s) zero h = (b, refl)
  byte_at_in_range (b ∷ s) (suc i) h = byte_at_in_range s i (omega arith)
