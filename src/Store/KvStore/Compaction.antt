-- ===== src/Store/KvStore/Compaction.antt =====
-- A log that `Compact` has rewritten, read by a later recovery.
use keva.Prelude.{
  ℕ, zero, suc, ◌%◌, ◌^◌, ◌<◌, ◌≡◌, ◌≢◌, ◌==◌, List, ◌++◌, map, map-append, arith, All, length, ok,
  inl, inr, refl, ap, sym, ◌∙◌, true, false, Bool-cases, Option, none, some, [], ◌∷◌, Bytes,
  bytes_eq, bytes_eq→eq, if◌then◌else◌,
}
use keva.Map.{Map, lookup, IsDistinct}
use keva.Time.{Time, before, after}
use keva.Shard.{Record, RangeOrder}
use keva.Wal
use keva.Wal.{op_set}
use keva.Wal.Replay.{apply_all, apply_all-append, encode_all}
use keva.Eviction.Sampling.{IsRange}
use keva.Store.{Shard}
use keva.Store.Soundness.{IsSound}
use keva.Store.KvStore.{KvStore, hash, live_records, snapshot, recover}
use keva.Store.KvStore.Sharding.{IsReady, nth, entry_in, index, find}
use keva.Store.KvStore.Recovery.{IsEmpty, recorded, recover-encode_all}
use keva.Wal.Codec.{IsLoggable, logged}

-- What a recovery at the time `later` makes of an entry that a compaction at `now` has seen.
abbrev pub survives : Time → Time → Option Record → Option Record
survives now later none = none
survives now later (some r) =
    if after now r.expired_at
    then none
    else if before later r.expired_at
    then some (record { value = r.value; created_at = later; expired_at = r.expired_at })
    else none

-- the record that `Compact` writes for an entry
abbrev written : Bytes → Record → Wal.Record
written k r = record { op = op_set; key = k; value = r.value; expires_at = r.expired_at }

recorded-written_other :
    (later : Time) (j k : Bytes) (r : Record) (x : Option Record)
    → bytes_eq k j ≡ false
    → recorded later j x (written k r) ≡ x
recorded-written_other later j k r x q = rw q refl

-- the records of entries with other keys say nothing of a key
others_keep :
    (now later : Time) (j : Bytes) (es : Map Record) (x : Option Record)
    → lookup j es ≡ none
    → apply_all (recorded later j) x (live_records now es) ≡ x
unfolding live_records
others_keep now later j [] x h = refl
others_keep now later j ((k, r) ∷ es) x h = elim (Bool-cases (bytes_eq k j)) [
  | inl q ↦
      let here : lookup j ((k, r) ∷ es) ≡ some r = unfold lookup in rw q refl in
      absurd (cc (h, here))
  | inr q ↦
      let rest : lookup j es ≡ none = unfold lookup in rw q at h in
      elim (Bool-cases (after now r.expired_at)) [
        | inl dead ↦ rw dead (others_keep now later j es x rest)
        | inr live ↦ rw live (
            ap (λ y. apply_all (recorded later j) y (live_records now es))
              (recorded-written_other later j k r x q)
            ∙ others_keep now later j es x rest)
      ]
]

entries_survive :
    (now later : Time) (j : Bytes) (es : Map Record)
    → IsDistinct es
    → apply_all (recorded later j) none (live_records now es) ≡ survives now later (lookup j es)
unfolding live_records
entries_survive now later j [] d = unfold lookup in refl
entries_survive now later j ((k, r) ∷ es) d = elim (Bool-cases (bytes_eq k j)) [
  | inl q ↦
      let gone : lookup j es ≡ none = ap (λ x. lookup x es) (sym (bytes_eq→eq k j q)) ∙ d.0 in
      let here : lookup j ((k, r) ∷ es) ≡ some r = unfold lookup in rw q refl in
      head q gone ∙ ap (survives now later) (sym here)
  | inr q ↦
      let behind : lookup j ((k, r) ∷ es) ≡ lookup j es = unfold lookup in rw q refl in
      rest q (entries_survive now later j es d.1) ∙ ap (survives now later) (sym behind)
]
  where
    head :
        bytes_eq k j ≡ true
        → lookup j es ≡ none
        → apply_all (recorded later j) none (live_records now ((k, r) ∷ es))
          ≡ survives now later (some r)
    head q gone =
        unfold live_records in
        elim (Bool-cases (after now r.expired_at)) [
          | inl dead ↦ rw dead (others_keep now later j es none gone)
          | inr live ↦ rw live (others_keep now later j es _ gone ∙ rw q refl)
        ]

    rest :
        bytes_eq k j ≡ false
        → apply_all (recorded later j) none (live_records now es) ≡ survives now later (lookup j es)
        → apply_all (recorded later j) none (live_records now ((k, r) ∷ es))
          ≡ survives now later (lookup j es)
    rest q e =
        unfold live_records in
        elim (Bool-cases (after now r.expired_at)) [
          | inl dead ↦ rw dead e
          | inr live ↦ rw live (
              ap (λ y. apply_all (recorded later j) y (live_records now es))
                (recorded-written_other later j k r none q)
              ∙ e)
        ]

recorded-live_records :
    (range : RangeOrder) (now later : Time) (sh : Shard) (j : Bytes)
    → IsRange range
    → IsSound sh
    → apply_all (recorded later j) none (live_records now (range sh.memory.records))
      ≡ survives now later (lookup j sh.memory.records)
recorded-live_records range now later sh j v h =
    entries_survive now later j (range sh.memory.records)
      (v.once sh.memory.records h.exact.distinct)
    ∙ ap (survives now later) (v.visits sh.memory.records h.exact.distinct j)

module _ (range : RangeOrder) (v : IsRange range) (now later : Time) (j : Bytes) where
  absent_shard :
      (sh : Shard) (x : Option Record)
      → IsSound sh
      → lookup j sh.memory.records ≡ none
      → apply_all (recorded later j) x (live_records now (range sh.memory.records)) ≡ x
  absent_shard sh x h gone =
      others_keep now later j (range sh.memory.records) x
        (v.visits sh.memory.records h.exact.distinct j ∙ gone)

  -- shards without the key say nothing of it
  absent_shards :
      (l : List Shard) (x : Option Record)
      → All IsSound l
      → ((i : ℕ) → entry_in j (nth i l) ≡ none)
      → apply_all (recorded later j) x (snapshot range now l) ≡ x
  unfolding snapshot
  absent_shards [] x h gone = refl
  absent_shards (sh ∷ l) x h gone =
      apply_all-append (recorded later j) x (live_records now (range sh.memory.records))
        (snapshot range now l)
      ∙ ap (λ y. apply_all (recorded later j) y (snapshot range now l))
          (absent_shard sh x h.0 (gone 0))
      ∙ absent_shards l x h.1 (λ i. gone (suc i))

  -- The records of all shards, of which one may hold the key.
  recorded-snapshot :
      (l : List Shard) (i : ℕ)
      → All IsSound l
      → ((k : ℕ) → (k == i) ≡ false → entry_in j (nth k l) ≡ none)
      → apply_all (recorded later j) none (snapshot range now l)
        ≡ survives now later (entry_in j (nth i l))
  unfolding snapshot
  recorded-snapshot [] i h gone = refl
  recorded-snapshot (sh ∷ l) zero h gone =
      apply_all-append (recorded later j) none (live_records now (range sh.memory.records))
        (snapshot range now l)
      ∙ absent_shards l _ h.1 (λ k. gone (suc k) (ground arith))
      ∙ recorded-live_records range now later sh j v h.0
  recorded-snapshot (sh ∷ l) (suc i) h gone =
      apply_all-append (recorded later j) none (live_records now (range sh.memory.records))
        (snapshot range now l)
      ∙ ap (λ y. apply_all (recorded later j) y (snapshot range now l))
          (absent_shard sh none h.0 (gone 0 (ground arith)))
      ∙ recorded-snapshot l i h.1 (λ k e. gone (suc k) (ground (arith, e)))

logged-live_records :
    (now : Time) (es : Map Record) → map logged (live_records now es) ≡ live_records now es
unfolding live_records logged
logged-live_records now [] = refl
logged-live_records now ((k, r) ∷ es) = elim (Bool-cases (after now r.expired_at)) [
  | inl dead ↦ rw dead (logged-live_records now es)
  | inr live ↦ rw live (ap (λ l. written k r ∷ l) (logged-live_records now es))
]

logged-snapshot :
    (range : RangeOrder) (now : Time) (l : List Shard)
    → map logged (snapshot range now l) ≡ snapshot range now l
unfolding snapshot
logged-snapshot range now [] = refl
logged-snapshot range now (sh ∷ l) =
    map-append logged (live_records now (range sh.memory.records)) (snapshot range now l)
    ∙ ap (λ x. x ++ map logged (snapshot range now l))
        (logged-live_records now (range sh.memory.records))
    ∙ ap (λ x. live_records now (range sh.memory.records) ++ x) (logged-snapshot range now l)

-- From the records that Compact writes for a store in order, if they are loggable, a later
-- recovery into new shards, of which there is one at least and fewer than 2 ^ 32, succeeds, for a
-- Range that visits each entry once; and a key that no shard but its own holds has the entry that
-- the store had, if that had not expired at the compaction and still has not at the recovery, and
-- none otherwise.
pub recover-snapshot :
    (range : RangeOrder) (now later : Time) (kv : KvStore) (shards : List Shard) (j : Bytes)
    → IsRange range
    → IsReady kv
    → ((i : ℕ) → (i == index j kv) ≡ false → entry_in j (nth i kv.shards) ≡ none)
    → All IsLoggable (snapshot range now kv.shards)
    → length shards ≢ 0
    → length shards < 2 ^ 32
    → All IsEmpty shards
    → let count = length shards % 2 ^ 32 in
      (t : List Shard) × (recover range later
          (some (encode_all (snapshot range now kv.shards)))
          count
          shards
        ≡ ok t)
      × All IsSound t
      × (entry_in j (nth (hash j % count) t) ≡ survives now later (find j kv))
recover-snapshot range now later kv shards j v ready alone loggable some_shards small empty =
    let rs = snapshot range now kv.shards in
    let (t, is, sound, len, entries) =
      recover-encode_all range later shards rs v some_shards small empty loggable in
    (
      t,
      is,
      sound,
      entries j
          ∙ ap (apply_all (recorded later j) none) (logged-snapshot range now kv.shards)
          ∙ recorded-snapshot range v now later j kv.shards (index j kv) ready.sound alone,
    )
