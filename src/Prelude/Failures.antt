-- ===== src/Prelude/Failures.antt =====
-- What a Go function that may fail gives: a value, an error, or a run-time panic.
use Prim.Native.Nat.{ℕ, ◌≤◌, ◌<◌}
use mathlib.Core.Path.{◌≡◌}
use keva.Prelude.Tests.{Bool-cases, ltb_false→le, ltb, lt→ltb, le→ltb_false}
use mathlib.Core.Logic.{inl, inr}
use mathlib.Core.Bool.{Bool, true, false}

pub data Outcome {ℓ} (E A : Type ℓ) : Type ℓ where
  ok : A → Outcome E A
  err : E → Outcome E A
  panic : Outcome E A

infixl 5 ◌>>=◌ ◌>>◌
abbrev pub ◌>>=◌ {ℓ} : {E A B : Type ℓ} → Outcome E A → (A → Outcome E B) → Outcome E B
ok a >>= f = f a
err e >>= f = err e
panic >>= f = panic

abbrev pub ◌>>◌ {ℓ} : {E B : Type ℓ} → Outcome E (Unit {ℓ}) → Outcome E B → Outcome E B
m >> k = m >>= λ _. k

-- `if bad { return e }`
abbrev pub reject_if {ℓ} : {E : Type ℓ} → Bool → E → Outcome E (Unit {ℓ})
reject_if true e = err e
reject_if false e = ok tt

abbrev pub map_err {ℓ} : {E F A : Type ℓ} → (E → F) → Outcome E A → Outcome F A
map_err f (ok a) = ok a
map_err f (err e) = err (f e)
map_err f panic = panic

module _ {ℓ} {E A B : Type ℓ} where
  -- One step of a chain that goes on, and one at which it stops.
  pub bind_ok :
      {m : Outcome E A} (f : A → Outcome E B) {a : A} {r : Outcome E B}
      → m ≡ ok a
      → f a ≡ r
      → (m >>= f) ≡ r
  bind_ok f h k = rw h k

  pub bind_err : {m : Outcome E A} (f : A → Outcome E B) {e : E} → m ≡ err e → (m >>= f) ≡ err e
  bind_err f h = rw h

  pub bind_panic : {m : Outcome E A} (f : A → Outcome E B) → m ≡ panic → (m >>= f) ≡ panic
  bind_panic f h = rw h

module _ {ℓ} {E : Type ℓ} where
  -- The length test of a decoder, passed and failed.
  pub long_enough : (a b : ℕ) (e : E) → b ≤ a → reject_if (ltb a b) e ≡ ok tt
  long_enough a b e h = rw (le→ltb_false a b h)

  pub too_short : (a b : ℕ) (e : E) → a < b → reject_if (ltb a b) e ≡ err e
  too_short a b e h = rw (lt→ltb a b h)

-- A length test that fails with `e`, or passes on to what fails with `e`.
pub too_short_or {ℓ} :
    {E B : Type ℓ} (a b : ℕ) (e : E) (k : Outcome E B)
    → (b ≤ a → k ≡ err e)
    → (reject_if (ltb a b) e >> k) ≡ err e
too_short_or a b e k h = elim (Bool-cases (ltb a b)) [
  | inl short ↦ rw short
  | inr long ↦ rw long (h (ltb_false→le a b long))
]

-- Where a chain panics: not at a test that it passes, nor at a step that gives a value.
module _ {ℓ} {E : Type ℓ} where
  pub panic_after_test :
      {B : Type ℓ} (a b : ℕ) (e : E) (k : Outcome E B)
      → (reject_if (ltb a b) e >> k) ≡ panic
      → (b ≤ a) × (k ≡ panic)
  panic_after_test a b e k h = elim (Bool-cases (ltb a b)) [
    | inl short ↦ absurd (cc (rw short at h))
    | inr long ↦ (ltb_false→le a b long, rw long at h)
  ]

  pub panic_after_ok :
      {A B : Type ℓ} {m : Outcome E A} (f : A → Outcome E B) {a : A}
      → m ≡ ok a
      → (m >>= f) ≡ panic
      → f a ≡ panic
  panic_after_ok f e h = rw e at h
