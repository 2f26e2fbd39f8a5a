-- ===== src/Wal/Total.antt =====
-- `Replay` ends on every file, well formed or not, and never by a panic.
use keva.Prelude.{
  ℕ, zero, suc, ◌+◌, ◌≤◌, ◌<◌, ◌≡◌, ◌⊎◌, inl, inr, refl, Option, none, some, [], arith, Bytes,
  length, take, drop, ltb, Bool-cases, ◌==◌, Outcome, ok, err, byte_at, uint_at, byte_at_in_range,
  uint_at_in_range, uint, length-drop, ltb→lt, ltb_false→le, length-take_of_le, le→leb,
}
use keva.Prelude.Reader.{IoError, eof, unexpected_eof, ◌>>=◌, return, read_full, read_full_short}
use keva.Time.{time_unix}
use keva.Wal.{
  Record, op_set, inside_record, read_value, read_record, finished, failed, replay_loop, replay,
}

-- A read that fails, or gives a value and leaves no more than it found less `n` bytes.
abbrev Reads : {A : Type 0} → ℕ → Bytes → Outcome IoError A × Bytes → Type 0
Reads {A} n s r =
    ((a : A) × (s' : Bytes) × (r ≡ (ok a, s')) × (length s' + n ≤ length s))
    ⊎ ((e : IoError) × (s' : Bytes) × (r ≡ (err e, s')))

Reads-read_full :
    (wrap : IoError → IoError) (n : ℕ) (s : Bytes)
    → ((n ≤ length s) × (read_full wrap n s ≡ (ok (take n s), drop n s)))
      ⊎ ((e : IoError) × (read_full wrap n s ≡ (err e, [])))
unfolding read_full
Reads-read_full wrap n s = elim (Bool-cases (ltb (length s) n)) [
  | inl short ↦ inr (_, read_full_short wrap s n (ltb→lt _ _ short))
  | inr long ↦ let h : n ≤ length s = ltb_false→le _ _ long in inl (h, rw (le→leb n (length s) h))
]

Reads-read_value : (op n : ℕ) (s : Bytes) → Reads 0 s (read_value op n s)
unfolding read_value
Reads-read_value op n s = elim (Bool-cases (op == op_set)) [
  | inl e ↦ rw e (elim (Reads-read_full inside_record n s) [
    | inl (h, r) ↦ inl (take n s, drop n s, r, omega (arith, length-drop n s))
    | inr (x, r) ↦ inr (x, [], r)
  ])
  | inr e ↦ rw e (inl ([], s, refl, omega arith))
]

-- `readRecord` never panics, and a record that it gives has taken 15 bytes at least.
pub Reads-read_record : (s : Bytes) → Reads 15 s (read_record s)
unfolding read_record
Reads-read_record s = elim (Reads-read_full (λ e. e) 15 s) [
  | inr (x, r) ↦ inr (x, [], rw r)
  | inl (long, r) ↦
      rw r (
        body (take 15 s) (length-take_of_le 15 s long) (drop 15 s)
          (omega (arith, length-drop 15 s)))
]
  where
    body :
        (header : Bytes)
        → length header ≡ 15
        → (t : Bytes) → length t + 15 ≤ length s
        → Reads {A = Record} 15 s (
            (do
              op ← return (byte_at header 0)
              key_len ← return (uint_at header 1 3)
              val_len ← return (uint_at header 3 7)
              expires_at ← return (uint_at header 7 15)
              key ← read_full inside_record key_len
              value ← read_value op val_len
              return (
                  ok (record {
                    op = op;
                    key = key;
                    value = value;
                    expires_at = time_unix expires_at;
                  })))
              t)
    body header e t le =
        let (op, op_e) = byte_at_in_range {E = IoError} header 0 (omega arith) in
        rw
          (
            op_e,
            uint_at_in_range {E = IoError} header 1 3 (omega arith) (omega arith),
            uint_at_in_range {E = IoError} header 3 7 (omega arith) (omega arith),
            uint_at_in_range {E = IoError} header 7 15 (omega arith) (omega arith),
          )
          (elim (Reads-read_full inside_record (uint (take 2 (drop 1 header))) t) [
            | inr (x, r) ↦ inr (x, [], rw r)
            | inl (h, r) ↦
                let k : ℕ = uint (take 2 (drop 1 header)) in
                rw r (elim (Reads-read_value op (uint (take 4 (drop 3 header))) (drop k t)) [
                  | inr (x, s', q) ↦ inr (x, s', rw q)
                  | inl (v, s', q, room) ↦ inl (
                    record {
                      op = op;
                      key = take k t;
                      value = v;
                      expires_at = time_unix (uint (take 8 (drop 7 header)));
                    },
                    s',
                    rw q,
                    omega (arith, length-drop k t),
                  )
                ])
          ])

module _ {S : Type 0} (apply : S → Record → S) where
  replay_loop_ends :
      (fuel : ℕ) (st : S) (s : Bytes)
      → length s < fuel
      → ((replay_loop apply fuel st s).1 ≡ finished)
        ⊎ ((replay_loop apply fuel st s).1 ≡ failed unexpected_eof)
  unfolding replay_loop
  replay_loop_ends zero st s h = absurd (omega arith)
  replay_loop_ends (suc fuel) st s h = elim (Reads-read_record s) [
    | inl (rec, s', e, shorter) ↦ rw e (replay_loop_ends fuel (apply st rec) s' (omega arith))
    | inr (eof, s', e) ↦ inl (rw e)
    | inr (unexpected_eof, s', e) ↦ inr (rw e)
  ]

  -- Replaying any file, well formed or not, ends: at the end of the log or with an unexpected end.
  -- The loop neither runs forever nor panics.
  pub replay_ends :
      (file : Option Bytes) (st : S)
      → ((replay apply file st).1 ≡ finished) ⊎ ((replay apply file st).1 ≡ failed unexpected_eof)
  unfolding replay
  replay_ends none st = inl refl
  replay_ends (some contents) st =
      replay_loop_ends (suc (length contents)) st contents (omega arith)
