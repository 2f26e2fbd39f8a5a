-- ===== src/Wal/Replay.antt =====
-- Replaying a log: all of what was appended, in order, and an error at a record that is cut.
use keva.Prelude.{
  ℕ, zero, suc, ◌-◌, ◌*◌, ◌≤◌, ◌<◌, ◌≡◌, refl, ap, sym, ◌∙◌, some, List, [], ◌∷◌, ◌++◌,
  append_assoc, append-nil, map, arith, Bytes, length, take, All, ◌==◌, false, length-append,
}
use keva.Prelude.Reader.{unexpected_eof, read_full}
use keva.Wal.{Record, encode, read_record, finished, failed, replay_loop, replay}
use keva.Wal.Codec.{IsLoggable, logged, read_record-encode, read_record-truncated, length-encode}

-- What the appends of `rs` have put into the file.
abbrev pub encode_all : List Record → Bytes
encode_all [] = []
encode_all (r ∷ rs) = encode r ++ encode_all rs

module _ {S : Type 0} (apply : S → Record → S) where
  abbrev pub apply_all : S → List Record → S
  apply_all st [] = st
  apply_all st (r ∷ rs) = apply_all (apply st r) rs

  replay_loop_step :
      (fuel : ℕ) (st : S) (r : Record) (rest : Bytes)
      → IsLoggable r
      → replay_loop apply (suc fuel) st (encode r ++ rest)
        ≡ replay_loop apply fuel (apply st (logged r)) rest
  unfolding replay_loop
  replay_loop_step fuel st r rest h = rw (read_record-encode r rest h)

  replay_loop-encode_all :
      (rs : List Record) (fuel : ℕ) (st : S) (tail : Bytes)
      → All IsLoggable rs
      → length rs ≤ fuel
      → replay_loop apply fuel st (encode_all rs ++ tail)
        ≡ replay_loop apply (fuel - length rs) (apply_all st (map logged rs)) tail
  replay_loop-encode_all [] fuel st tail h enough = let e : fuel - 0 ≡ fuel = omega arith in rw e
  replay_loop-encode_all (r ∷ rs) zero st tail h enough = absurd (omega arith)
  replay_loop-encode_all (r ∷ rs) (suc fuel) st tail h enough =
      let e : suc fuel - suc (length rs) ≡ fuel - length rs = omega arith in
      rw (append_assoc (encode r) (encode_all rs) tail, e)
        (replay_loop_step fuel st r (encode_all rs ++ tail) h.0
          ∙ replay_loop-encode_all rs fuel (apply st (logged r)) tail h.1 (omega arith))

  length-encode_all : (rs : List Record) → 15 * length rs ≤ length (encode_all rs)
  length-encode_all [] = omega arith
  length-encode_all (r ∷ rs) =
      omega (arith, length-encode_all rs, length-append (encode r) (encode_all rs), length-encode r)

  -- The end of the log, once the records in front of it are replayed.
  replay-tail :
      (rs : List Record) (st : S) (tail : Bytes)
      → All IsLoggable rs
      → (fuel : ℕ) × (replay apply (some (encode_all rs ++ tail)) st
          ≡ replay_loop apply (suc fuel) (apply_all st (map logged rs)) tail)
  unfolding replay
  replay-tail rs st tail h = (
    length (encode_all rs ++ tail) - length rs,
    replay_loop-encode_all rs (suc (length (encode_all rs ++ tail))) st tail h (omega (arith, room))
        ∙ ap (λ k. replay_loop apply k (apply_all st (map logged rs)) tail) one_more,
  )
    where
      room : length rs ≤ length (encode_all rs ++ tail)
      room = omega (arith, length-encode_all rs, length-append (encode_all rs) tail)

      one_more :
          suc (length (encode_all rs ++ tail)) - length rs
          ≡ suc (length (encode_all rs ++ tail) - length rs)
      one_more = omega (arith, room)

  -- A log of loggable records is replayed whole and in order, each as it is read back.
  pub replay-encode_all :
      (rs : List Record) (st : S)
      → All IsLoggable rs
      → replay apply (some (encode_all rs)) st ≡ (apply_all st (map logged rs), finished)
  replay-encode_all rs st h =
      let (fuel, e) = replay-tail rs st [] h in
      ap (λ s. replay apply (some s) st) (sym (append-nil (encode_all rs)))
      ∙ e
      ∙ clean_end fuel (apply_all st (map logged rs))
    where
      clean_end : (fuel : ℕ) (st : S) → replay_loop apply (suc fuel) st [] ≡ (st, finished)
      clean_end fuel st = unfold replay_loop read_record read_full in refl

  -- A log that ends inside a record: the records in front of it have been applied, and `Replay`
  -- reports an unexpected end, so that the store does not start.
  pub replay-torn :
      (rs : List Record) (r : Record) (n : ℕ) (st : S)
      → All IsLoggable rs
      → IsLoggable r
      → 0 < n
      → n < length (encode r)
      → replay apply (some (encode_all rs ++ take n (encode r))) st
        ≡ (apply_all st (map logged rs), failed unexpected_eof)
  replay-torn rs r n st h hr pos cut =
      let (fuel, e) = replay-tail rs st (take n (encode r)) h in
      e ∙ torn fuel (apply_all st (map logged rs))
    where
      not_empty : (n == 0) ≡ false
      not_empty = ground arith

      torn :
          (fuel : ℕ) (st : S)
          → replay_loop apply (suc fuel) st (take n (encode r)) ≡ (st, failed unexpected_eof)
      torn fuel st = unfold replay_loop in rw (read_record-truncated r n hr cut, not_empty)

-- The records one after the other.
pub apply_all-append :
    {S : Type 0} (f : S → Record → S) (st : S) (xs ys : List Record)
    → apply_all f st (xs ++ ys) ≡ apply_all f (apply_all f st xs) ys
apply_all-append f st [] ys = refl
apply_all-append f st (x ∷ xs) ys = apply_all-append f (f st x) xs ys
