-- ===== src/Wal/Codec.antt =====
-- A record that is written is read back; a record that is cut is an unexpected end.
use keva.Prelude.{
  ℕ, ◌+◌, ◌-◌, ◌%◌, ◌^◌, ◌≤◌, ◌<◌, ◌≡◌, inl, inr, refl, ap, sym, ◌∙◌, [], ◌∷◌, ◌++◌, append_assoc,
  arith, Bytes, length, take, ltb, Bool, true, false, Bool-cases, ltb→lt, ltb_false→le, ◌==◌,
  if◌then◌else◌, Outcome, ok, err, byte_at, byte_at-part, uint_at, uint16_at-part, uint32_at-part,
  uint64_at-part, put_uint16, put_uint32, put_uint64, length-append, length-take_of_le,
  take-append_ge,
}
use keva.Prelude.Reader.{
  IoError, eof, unexpected_eof, ◌>>=◌, return, read_full, read_full-append, read_full_short,
}
use keva.Time.{InUnixRange, unix_nano, unix_nano-lt, time_unix, time_unix-unix_nano, unix_epoch}
use keva.Wal.{Record, op_set, op_delete, encode, inside_record, read_value, read_record}

-- The records that `AppendSet` and `AppendDelete` write, with lengths that fit their words.
pub data IsLoggable (r : Record) : Type 0 where
  a_set :
      r.op ≡ op_set
      → length r.key < 2 ^ 16
      → length r.value < 2 ^ 32
      → InUnixRange r.expires_at
      → IsLoggable r
  a_delete : r.op ≡ op_delete → length r.key < 2 ^ 16 → r.value ≡ [] → IsLoggable r

-- What a record is read back as: the expiry of a delete is not on disk.
unfoldable pub logged : Record → Record
logged r = if r.op == op_set then r else record r { expires_at = unix_epoch }

module _ (r : Record) where
  abbrev expiry : ℕ
  expiry = if r.op == op_set then unix_nano r.expires_at else 0

  abbrev header : Bytes
  header =
      r.op
      ∷ (put_uint16 (length r.key % 2 ^ 16)
          ++ (put_uint32 (length r.value % 2 ^ 32) ++ put_uint64 expiry))

  encode-header : encode r ≡ header ++ (r.key ++ r.value)
  unfolding encode put_uint16 put_uint32 put_uint64
  encode-header = refl

  length-header : length header ≡ 15
  unfolding put_uint16 put_uint32 put_uint64
  length-header = refl

  pub length-encode : length (encode r) ≡ 15 + length r.key + length r.value
  length-encode = rw encode-header (
      omega (
        arith,
        length-header,
        length-append header (r.key ++ r.value),
        length-append r.key r.value,
      ))

  op_at : byte_at {E = IoError} header 0 ≡ ok r.op
  op_at = byte_at-part [] r.op _ 0 refl

  key_len_at : uint_at {E = IoError} header 1 3 ≡ ok (length r.key % 2 ^ 16)
  key_len_at = uint16_at-part (r.op ∷ []) (length r.key % 2 ^ 16) _ 1 3 (omega arith) refl refl

  val_len_at : uint_at {E = IoError} header 3 7 ≡ ok (length r.value % 2 ^ 32)
  unfolding put_uint16
  val_len_at =
      uint32_at-part (r.op ∷ put_uint16 (length r.key % 2 ^ 16)) (length r.value % 2 ^ 32) _ 3 7
        (omega arith) refl refl

  expiry-lt : expiry < 2 ^ 64
  expiry-lt = elim (Bool-cases (r.op == op_set)) [
    | inl e ↦ rw e (unix_nano-lt r.expires_at)
    | inr e ↦ rw e (omega arith)
  ]

  expires_at_at : uint_at {E = IoError} header 7 15 ≡ ok expiry
  unfolding put_uint16 put_uint32 put_uint64
  expires_at_at =
      uint64_at-part
        (r.op ∷ (put_uint16 (length r.key % 2 ^ 16) ++ put_uint32 (length r.value % 2 ^ 32))) expiry
        [] 7 15 expiry-lt refl refl

  -- What `readRecord` does behind a whole header.
  read_record-header :
      (s : Bytes)
      → read_record (header ++ s)
        ≡ (do
          key ← read_full inside_record (length r.key % 2 ^ 16)
          value ← read_value r.op (length r.value % 2 ^ 32)
          return
              (ok (record { op = r.op; key = key; value = value; expires_at = time_unix expiry })))
            s
  unfolding read_record
  read_record-header s = rw (
    read_full-append (λ (e : IoError). e) header s 15 (sym length-header),
    op_at,
    key_len_at,
    val_len_at,
    expires_at_at,
  )

  abbrev after_header : Bytes → Outcome IoError Record × Bytes
  after_header = do
    key ← read_full inside_record (length r.key % 2 ^ 16)
    value ← read_value r.op (length r.value % 2 ^ 32)
    return (ok (record { op = r.op; key = key; value = value; expires_at = time_unix expiry }))

  -- The expiry that is read, on both operations.
  read_expiry : IsLoggable r → record r { expires_at = time_unix expiry } ≡ logged r
  unfolding logged
  read_expiry (a_set e k v t) =
      let set : (r.op == op_set) ≡ true = rw e in
      rw set (ap (λ t. record r { expires_at = t }) (time_unix-unix_nano r.expires_at t))
  read_expiry (a_delete e k v) =
      let unset : (r.op == op_set) ≡ false = rw e in rw unset (unfold time_unix in refl)

  read_value-encode :
      (rest : Bytes)
      → IsLoggable r
      → read_value r.op (length r.value % 2 ^ 32) (r.value ++ rest) ≡ (ok r.value, rest)
  unfolding read_value
  read_value-encode rest (a_set e k v t) =
      rw e (read_full-append inside_record r.value rest (length r.value % 2 ^ 32) (omega arith))
  read_value-encode rest (a_delete e k v) = rw (e, v)

  key_fits : IsLoggable r → length r.key % 2 ^ 16 ≡ length r.key
  key_fits (a_set e k v t) = omega arith
  key_fits (a_delete e k v) = omega arith

  -- A loggable record at the front of a log is read back, and the log behind it is left.
  pub read_record-encode :
      (rest : Bytes) → IsLoggable r → read_record (encode r ++ rest) ≡ (ok (logged r), rest)
  read_record-encode rest h =
      ap read_record shape
      ∙ read_record-header (r.key ++ (r.value ++ rest))
      ∙ rw
          (
            read_full-append inside_record r.key (r.value ++ rest) (length r.key % 2 ^ 16)
                (key_fits h),
            read_value-encode rest h,
          )
          (ap (λ x. (ok x, rest)) (read_expiry h))
    where
      shape : encode r ++ rest ≡ header ++ (r.key ++ (r.value ++ rest))
      shape = rw (
        encode-header,
        append_assoc header (r.key ++ r.value) rest,
        append_assoc r.key r.value rest,
      )

  inside_record_lem :
      (b : Bool) → inside_record (if b then eof else unexpected_eof) ≡ unexpected_eof
  inside_record_lem true = refl
  inside_record_lem false = refl

  short_inside :
      (s : Bytes) (n : ℕ) → length s < n → read_full inside_record n s ≡ (err unexpected_eof, [])
  short_inside s n h = read_full_short inside_record s n h ∙ rw (inside_record_lem (length s == 0))

  read_value-truncated :
      (m : ℕ)
      → IsLoggable r
      → m < length r.value
      → read_value r.op (length r.value % 2 ^ 32) (take m r.value) ≡ (err unexpected_eof, [])
  unfolding read_value
  read_value-truncated m (a_set e k v t) cut = rw e (
      short_inside (take m r.value) (length r.value % 2 ^ 32)
        (omega (arith, length-take_of_le m r.value (omega arith))))
  read_value-truncated m (a_delete e k v) cut = absurd (omega (arith, ap (length {A = ℕ}) v))

  -- The record cut behind its header.
  after_header-truncated :
      (m : ℕ)
      → IsLoggable r
      → m < length (r.key ++ r.value)
      → after_header (take m (r.key ++ r.value)) ≡ (err unexpected_eof, [])
  after_header-truncated m h cut = elim (Bool-cases (ltb m (length r.key))) [
    | inl near ↦
        let kept : length (take m (r.key ++ r.value)) ≡ m = length-take_of_le m _ (omega arith) in
        rw (
          short_inside (take m (r.key ++ r.value)) (length r.key % 2 ^ 16)
            (omega (arith, kept, key_fits h, ltb→lt _ _ near)))
    | inr far ↦ rw (
      take-append_ge m r.key r.value (ltb_false→le _ _ far),
      read_full-append inside_record r.key (take (m - length r.key) r.value) (length r.key % 2 ^ 16)
          (key_fits h),
      read_value-truncated (m - length r.key) h
          (omega (arith, ltb_false→le _ _ far, length-append r.key r.value)),
    )
  ]

  -- A loggable record that is cut anywhere is no record: the clean end of a log if nothing of it is
  -- there, and an unexpected end otherwise.
  pub read_record-truncated :
      (n : ℕ)
      → IsLoggable r
      → n < length (encode r)
      → read_record (take n (encode r)) ≡ (err (if n == 0 then eof else unexpected_eof), [])
  read_record-truncated n h cut = elim (Bool-cases (ltb n 15)) [
    | inl near ↦ in_header (ltb→lt _ _ near)
    | inr far ↦ behind_header (ltb_false→le _ _ far)
  ]
    where
      kept : length (take n (encode r)) ≡ n
      kept = length-take_of_le n (encode r) (omega arith)

      in_header :
          n < 15
          → read_record (take n (encode r)) ≡ (err (if n == 0 then eof else unexpected_eof), [])
      in_header short =
          unfold read_record in
          rw (
            read_full_short (λ (e : IoError). e) (take n (encode r)) 15 (omega (arith, kept)),
            kept,
          )

      split : 15 ≤ n → take n (encode r) ≡ header ++ take (n - 15) (r.key ++ r.value)
      split long =
          ap (take n) encode-header
          ∙ take-append_ge n header (r.key ++ r.value) (omega (arith, length-header))
          ∙ ap (λ k. header ++ take (n - k) (r.key ++ r.value)) length-header

      not_empty : 15 ≤ n → (n == 0) ≡ false
      not_empty long = ground arith

      behind_header :
          15 ≤ n
          → read_record (take n (encode r)) ≡ (err (if n == 0 then eof else unexpected_eof), [])
      behind_header long =
          ap read_record (split long)
          ∙ read_record-header (take (n - 15) (r.key ++ r.value))
          ∙ after_header-truncated (n - 15) h
              (omega (arith, cut, length-encode, length-append r.key r.value))
          ∙ rw (not_empty long)
