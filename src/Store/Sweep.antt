-- ===== src/Store/Sweep.antt =====
-- The sweeper: the expired entries go, the others stay.
use keva.Prelude.{
  ◌≡◌, inl, inr, refl, sym, ap, ◌∙◌, false, Bool-cases, Option, none, some, List, [], ◌∷◌, Bytes,
  bytes_eq, bytes_eq→eq, if◌then◌else◌,
}
use keva.Map.{lookup, lookup-remove, lookup-head, IsDistinct}
use keva.Time.{Time, after}
use keva.Shard.{Record, RangeOrder, drop_record}
use keva.Eviction.Sampling.{IsRange}
use keva.Store.{Shard, drop_entry, sweep_entries, shard_sweep}
use keva.Store.Soundness.{IsSound, drop_entry-IsSound}
use keva.Store.Contents.{live}

-- An entry that is visited stays if it is live; one that is not visited stays.
abbrev swept : Time → Option Record → Option Record → Option Record
swept now none current = current
swept now (some r) current = live now (some r)

-- `es` are entries of the shard.
abbrev Visits : List (Bytes × Record) → Shard → Type 0
Visits es sh = (k : Bytes) (r : Record) → lookup k es ≡ some r → lookup k sh.memory.records ≡ some r

lookup-sweep_step :
    (now : Time) (k j : Bytes) (r : Record) (sh : Shard)
    → lookup k sh.memory.records ≡ some r
    → lookup j (if after now r.expired_at then drop_entry k r sh else sh).memory.records
      ≡ (if bytes_eq k j then live now (some r) else lookup j sh.memory.records)
unfolding drop_entry drop_record
lookup-sweep_step now k j r sh e = elim (Bool-cases (after now r.expired_at)) [
  | inl late ↦ rw late (lookup-remove k j sh.memory.records)
  | inr early ↦ rw early (elim (Bool-cases (bytes_eq k j)) [
    | inl q ↦ rw q (ap (λ x. lookup x sh.memory.records) (sym (bytes_eq→eq k j q)) ∙ e)
    | inr q ↦ rw q
  ])
]

IsSound-sweep_step :
    (now : Time) (k : Bytes) (r : Record) (sh : Shard)
    → lookup k sh.memory.records ≡ some r
    → IsSound sh
    → IsSound (if after now r.expired_at then drop_entry k r sh else sh)
IsSound-sweep_step now k r sh e h = elim (Bool-cases (after now r.expired_at)) [
  | inl late ↦ rw late (drop_entry-IsSound k r sh e h)
  | inr early ↦ rw early h
]

-- A key behind a first entry is another one, where the keys are distinct.
other_key :
    (k j : Bytes) (r q : Record) (es : List (Bytes × Record))
    → IsDistinct ((k, r) ∷ es)
    → lookup j es ≡ some q
    → bytes_eq k j ≡ false
other_key k j r q es d e = elim (Bool-cases (bytes_eq k j)) [
  | inl same ↦ absurd (cc (bytes_eq→eq k j same, d.0, e))
  | inr other ↦ other
]

Visits-sweep_step :
    (now : Time) (k : Bytes) (r : Record) (es : List (Bytes × Record)) (sh : Shard)
    → IsDistinct ((k, r) ∷ es)
    → Visits ((k, r) ∷ es) sh
    → Visits es (if after now r.expired_at then drop_entry k r sh else sh)
Visits-sweep_step now k r es sh d v j q e =
    let other = other_key k j r q es d e in
    let here : lookup k sh.memory.records ≡ some r = v k r (lookup-head k r es) in
    let there : lookup j sh.memory.records ≡ some q = v j q (unfold lookup in rw other e) in
    lookup-sweep_step now k j r sh here ∙ rw other there

sweep_entries-lem :
    (now : Time) (es : List (Bytes × Record)) (sh : Shard)
    → IsDistinct es
    → Visits es sh
    → IsSound sh
    → IsSound (sweep_entries now es sh)
      × ((j : Bytes)
          → lookup j (sweep_entries now es sh).memory.records
            ≡ swept now (lookup j es) (lookup j sh.memory.records))
unfolding sweep_entries
sweep_entries-lem now [] sh d v h = (h, λ j. unfold lookup in refl)
sweep_entries-lem now ((k, r) ∷ es) sh d v h =
    let here : lookup k sh.memory.records ≡ some r = v k r (lookup-head k r es) in
    let sh' : Shard = if after now r.expired_at then drop_entry k r sh else sh in
    let (sound, found) =
      sweep_entries-lem now es sh' d.1 (Visits-sweep_step now k r es sh d v)
        (IsSound-sweep_step now k r sh here h) in
    (sound, λ j. found j ∙ first sh' j (lookup-sweep_step now k j r sh here))
  where
    first :
        (sh' : Shard) (j : Bytes)
        → lookup j sh'.memory.records
          ≡ (if bytes_eq k j then live now (some r) else lookup j sh.memory.records)
        → swept now (lookup j es) (lookup j sh'.memory.records)
          ≡ swept now (lookup j ((k, r) ∷ es)) (lookup j sh.memory.records)
    first sh' j e =
        unfold lookup in
        elim (Bool-cases (bytes_eq k j)) [
          | inl q ↦
              let gone : lookup j es ≡ none =
                ap (λ x. lookup x es) (sym (bytes_eq→eq k j q)) ∙ d.0 in
              rw (e, gone, q)
          | inr q ↦ rw (e, q)
        ]

-- After a sweep of a sound shard, in whatever order it visits the entries, a key has its entry if
-- that has not expired, and none otherwise; and the shard is sound.
pub shard_sweep-lookup :
    (range : RangeOrder) (now : Time) (sh : Shard)
    → IsRange range
    → IsSound sh
    → IsSound (shard_sweep range now sh)
      × ((j : Bytes)
          → lookup j (shard_sweep range now sh).memory.records
            ≡ live now (lookup j sh.memory.records))
unfolding shard_sweep
shard_sweep-lookup range now sh v h =
    let (sound, found) =
      sweep_entries-lem now (range sh.memory.records) sh (v.once sh.memory.records h.exact.distinct)
        (λ k r e. sym (v.visits sh.memory.records h.exact.distinct k) ∙ e) h in
    (
      sound,
      λ j.
          found j
          ∙ rw (v.visits sh.memory.records h.exact.distinct j)
              (all_visited (lookup j sh.memory.records)),
    )
  where
    all_visited : (x : Option Record) → swept now x x ≡ live now x
    all_visited none = refl
    all_visited (some r) = refl
