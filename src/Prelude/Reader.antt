-- ===== src/Prelude/Reader.antt =====
-- An `io.Reader` whose source is a byte string: the state is what it has yet to give before its end.
use Prim.Native.Nat.{ℕ, ◌<◌}
use mathlib.Core.Path.{◌≡◌}
use mathlib.Core.Bool.{Bool, true, false}
use mathlib.Core.List.{[], ◌++◌}
use native.Mathlib.Omega.{arith}
use keva.Prelude.Tests.{Bytes, leb, ◌==◌, if◌then◌else◌, le→leb, lt→leb_false}
use keva.Prelude.Lists.{length, take, drop, length-append, take-append, drop-append}
use keva.Prelude.Failures.{Outcome, ok, err, panic}

-- `io.EOF` and `io.ErrUnexpectedEOF`
pub data IoError : Type 0 where
  eof unexpected_eof : IoError

-- A result, and what is left of the stream.
abbrev pub Read : Type 0 → Type 0 → Type 0
Read E A = Bytes → Outcome E A × Bytes

abbrev pub continue : {E A B : Type 0} → Outcome E A → (A → Read E B) → Read E B
continue (ok a) f s = f a s
continue (err e) f s = (err e, s)
continue panic f s = (panic, s)

infixl 5 ◌>>=◌ ◌>>◌
abbrev pub ◌>>=◌ : {E A B : Type 0} → Read E A → (A → Read E B) → Read E B
◌>>=◌ m f s = continue (m s).0 f (m s).1

abbrev pub ◌>>◌ : {E B : Type 0} → Read E Unit → Read E B → Read E B
m >> k = m >>= λ _. k

abbrev pub return : {E A : Type 0} → Outcome E A → Read E A
return r s = (r, s)

abbrev pub fail_if : {E : Type 0} → Bool → E → Read E Unit
fail_if true e s = (err e, s)
fail_if false e s = (ok tt, s)

-- `io.ReadFull` into a buffer of `n` bytes; the caller wraps its error by `wrap`.
unfoldable pub read_full : {E : Type 0} → (IoError → E) → ℕ → Read E Bytes
read_full wrap n s =
    if leb n (length s)
    then (ok (take n s), drop n s)
    else (err (wrap (if length s == 0 then eof else unexpected_eof)), [])

module _ {E : Type 0} (wrap : IoError → E) where
  pub read_full-append :
      (s rest : Bytes) (n : ℕ) → n ≡ length s → read_full wrap n (s ++ rest) ≡ (ok s, rest)
  unfolding read_full
  read_full-append s rest n e = rw (
    e,
    le→leb (length s) (length (s ++ rest)) (omega (arith, length-append s rest)),
    take-append s rest,
    drop-append s rest,
  )

  pub read_full_short :
      (s : Bytes) (n : ℕ)
      → length s < n
      → read_full wrap n s ≡ (err (wrap (if length s == 0 then eof else unexpected_eof)), [])
  unfolding read_full
  read_full_short s n h = rw (lt→leb_false n (length s) h)
