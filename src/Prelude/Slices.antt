-- ===== src/Prelude/Slices.antt =====
-- Go's slice expression `s[lo:hi]` with its bounds check, on a slice whose capacity is its length.
use Prim.Native.Nat.{ℕ, ◌+◌, ◌-◌, ◌≤◌, ◌<◌}
use mathlib.Core.Path.{◌≡◌, ap, ◌∙◌}
use mathlib.Core.Bool.{◌&&◌}
use mathlib.Core.List.{[], ◌++◌, append-nil}
use native.Mathlib.Omega.{arith}
use keva.Prelude.Tests.{leb, if◌then◌else◌, le→leb, lt→leb_false, Bytes}
use keva.Prelude.Lists.{
  length, take, drop, length-append, length-take, take-append, drop-append, drop-take, take-take,
}
use keva.Prelude.Failures.{◌>>=◌, Outcome, ok, panic}

unfoldable pub slice : {E : Type 0} → Bytes → ℕ → ℕ → Outcome E Bytes
slice s lo hi = if leb lo hi && leb hi (length s) then ok (take (hi - lo) (drop lo s)) else panic

module _ {E : Type 0} where
  pub slice_in_range :
      (s : Bytes) (lo hi : ℕ)
      → lo ≤ hi
      → hi ≤ length s
      → slice {E = E} s lo hi ≡ ok (take (hi - lo) (drop lo s))
  unfolding slice
  slice_in_range s lo hi h k = rw (le→leb lo hi h, le→leb hi (length s) k)

  pub slice_reversed : (s : Bytes) (lo hi : ℕ) → hi < lo → slice {E = E} s lo hi ≡ panic
  unfolding slice
  slice_reversed s lo hi h = rw (lt→leb_false lo hi h)

  -- A slice that falls on a part of a concatenation is that part.
  pub slice-part :
      (pre mid post : Bytes) (lo hi : ℕ)
      → lo ≡ length pre
      → hi ≡ lo + length mid
      → slice {E = E} (pre ++ (mid ++ post)) lo hi ≡ ok mid
  slice-part pre mid post lo hi a b =
      slice_in_range _ lo hi (omega arith)
        (rw (length-append pre (mid ++ post), length-append mid post) (omega arith))
      ∙ ap ok (cut (hi - lo) (omega arith))
    where
      cut : (n : ℕ) → n ≡ length mid → take n (drop lo (pre ++ (mid ++ post))) ≡ mid
      cut n e = rw (e, a, drop-append pre (mid ++ post), take-append mid post)

  -- The same for the last part.
  pub slice-tail :
      (pre mid : Bytes) (lo hi : ℕ)
      → lo ≡ length pre
      → hi ≡ lo + length mid
      → slice {E = E} (pre ++ mid) lo hi ≡ ok mid
  slice-tail pre mid lo hi a b = rw (append-nil mid) at (slice-part pre mid [] lo hi a b)

  -- Cutting the data behind the slice changes nothing.
  pub slice-take :
      (s : Bytes) (n lo hi : ℕ)
      → lo ≤ hi
      → hi ≤ n
      → n ≤ length s
      → slice {E = E} (take n s) lo hi ≡ slice s lo hi
  slice-take s n lo hi a b c = rw (
    slice_in_range (take n s) lo hi a (rw (length-take n s) (omega arith)),
    slice_in_range s lo hi a (omega arith),
    drop-take lo n s (omega arith),
    take-take (hi - lo) (n - lo) (drop lo s) (omega arith),
  )

-- A slice panics only out of range.
pub slice_panic :
    {E B : Type 0} (s : Bytes) (lo hi : ℕ) (f : Bytes → Outcome E B)
    → lo ≤ hi
    → hi ≤ length s
    → (slice {E = E} s lo hi >>= f) ≡ panic
    → f (take (hi - lo) (drop lo s)) ≡ panic
slice_panic {E} s lo hi f a b h = rw (slice_in_range {E = E} s lo hi a b) at h
