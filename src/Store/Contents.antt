-- ===== src/Store/Contents.antt =====
-- What the operations on a shard do to its entries.
use keva.Prelude.{
  ◌≡◌, ◌⊎◌, inl, inr, refl, ◌∙◌, Bool, true, false, Bool-cases, Option, none, some, Option-cases,
  arith, Bytes, bytes_eq, bytes_eq_refl, bytes_eq_iff, if◌then◌else◌, Outcome, ok, err,
}
use keva.Map.{lookup, lookup-insert, lookup-remove}
use keva.Time.{Time, after}
use keva.Shard.{Record, Memory, RangeOrder, entry_size, drop_record, put_record, evict}
use keva.Shard.Accounting.{lookup-evict}
use keva.Eviction.{Policy}
use keva.Store.{
  Shard, StoreError, key_not_found, memory_full, restore, finish_set, shard_set, shard_get,
  drop_entry, shard_delete,
}
use keva.Store.Soundness.{IsSound, Prepared, before_write-Prepared}

-- What a write has done to the entries, by the result that it returns.
pub record Wrote (key : Bytes) (rec : Record) (sh : Shard) (r : Outcome StoreError Unit) (t : Shard)
    : Type 0 where
  pub result : (r ≡ ok tt) ⊎ (r ≡ err memory_full)
  pub written : r ≡ ok tt → lookup key t.memory.records ≡ some rec
  pub rejected :
      r ≡ err memory_full → (j : Bytes) → lookup j t.memory.records ≡ lookup j sh.memory.records
  pub others :
      (j : Bytes)
      → bytes_eq key j ≡ false
      → (lookup j t.memory.records ≡ lookup j sh.memory.records)
        ⊎ (lookup j t.memory.records ≡ none)

lookup-restore :
    (key j : Bytes) (s : Memory)
    → lookup j (restore key (lookup key s.records) (evict key s)).records ≡ lookup j s.records
unfolding restore
lookup-restore key j s = elim (Option-cases (lookup key s.records)) [
  | inl e ↦ rw (e, lookup-evict key j s) (back_out e)
  | inr (old, e) ↦
      unfold put_record in
      rw (e, lookup-insert key j old (evict key s).records, lookup-evict key j s) (put_back old e)
]
  where
    back_out :
        lookup key s.records ≡ none
        → (if bytes_eq key j then none else lookup j s.records) ≡ lookup j s.records
    back_out e = ground (arith, bytes_eq_iff key j)

    put_back :
        (old : Record)
        → lookup key s.records ≡ some old
        → (if bytes_eq key j then some old else if bytes_eq key j then none else lookup j s.records)
          ≡ lookup j s.records
    put_back old e = ground (arith, bytes_eq_iff key j)

-- A write returns nil and the key has the entry, or the memory error and no entry has changed. The
-- other entries stay, or are evicted.
pub shard_set-Wrote :
    (range : RangeOrder) (key : Bytes) (rec : Record) (sh : Shard)
    → IsSound sh
    → Wrote key rec sh (shard_set range key rec sh).0 (shard_set range key rec sh).1
unfolding shard_set
shard_set-Wrote range key rec sh h = dispatch _ _ _ (
    before_write-Prepared range key (entry_size key rec.value) sh.policy sh.memory h.exact
      h.follows)
  where
    unwritten :
        (t : Memory)
        → t ≡ evict key sh.memory
        → (j : Bytes)
        → lookup j (restore key (lookup key sh.memory.records) t).records
          ≡ lookup j sh.memory.records
    unwritten t e j = rw e (lookup-restore key j sh.memory)

    kept :
        (t : Memory) (j : Bytes)
        → bytes_eq key j ≡ false
        → (lookup j t.records ≡ lookup j (evict key sh.memory).records)
          ⊎ (lookup j t.records ≡ none)
        → (lookup j (put_record key rec t).records ≡ lookup j sh.memory.records)
          ⊎ (lookup j (put_record key rec t).records ≡ none)
    kept t j other k =
        unfold put_record in
        rw (lookup-insert key j rec t.records, other)
          (elim k [ inl e ↦ inl (e ∙ rw (lookup-evict key j sh.memory, other)) | inr e ↦ inr e ])

    dispatch :
        (b : Bool) (p : Policy) (t : Memory)
        → Prepared key sh.memory b p t
        → let r = finish_set key rec (lookup key sh.memory.records) (b, p, t) in
          Wrote key rec sh r.0 r.1
    dispatch false p t r =
        unfold finish_set in
        record {
          result = inr refl;
          written = λ e. absurd (cc e);
          rejected = λ e. unwritten t (r.rejected refl).1;
          others = λ j other. inl (unwritten t (r.rejected refl).1 j);
        }
    dispatch true p t r =
        unfold finish_set in
        record {
          result = inl refl;
          written =
              λ e. unfold put_record in rw (lookup-insert key key rec t.records, bytes_eq_refl key);
          rejected = λ e. absurd (cc e);
          others = λ j other. kept t j other (r.shrunk.kept j);
        }

-- What a read returns, by the entry of the key.
abbrev pub reply : Time → Option Record → Outcome StoreError Bytes
reply now none = err key_not_found
reply now (some rec) = if after now rec.expired_at then err key_not_found else ok rec.value

-- A read returns the value of an entry that has not expired, and changes no entry.
pub shard_get-reply :
    (now : Time) (key : Bytes) (sh : Shard)
    → ((shard_get now key sh).0 ≡ reply now (lookup key sh.memory.records))
      × ((shard_get now key sh).1.memory ≡ sh.memory)
unfolding shard_get
shard_get-reply now key sh = elim (Option-cases (lookup key sh.memory.records)) [
  | inl e ↦ rw e (refl, refl)
  | inr (rec, e) ↦ elim (Bool-cases (after now rec.expired_at)) [
    | inl late ↦ rw (e, late) (refl, refl)
    | inr early ↦ rw (e, early) (refl, refl)
  ]
]

-- What a delete returns, by the entry of the key.
abbrev pub deleted : Option Record → Outcome StoreError Unit
deleted none = err key_not_found
deleted (some rec) = ok tt

-- A delete takes out the entry of its key, and no other; without an entry it is an error.
pub shard_delete-lookup :
    (key : Bytes) (sh : Shard)
    → ((shard_delete key sh).0 ≡ deleted (lookup key sh.memory.records))
      × ((j : Bytes)
          → lookup j (shard_delete key sh).1.memory.records
            ≡ (if bytes_eq key j then none else lookup j sh.memory.records))
unfolding shard_delete drop_entry drop_record
shard_delete-lookup key sh = elim (Option-cases (lookup key sh.memory.records)) [
  | inl e ↦ rw e (refl, λ j. ground (arith, bytes_eq_iff key j))
  | inr (rec, e) ↦ rw e (refl, λ j. lookup-remove key j sh.memory.records)
]

-- The entry of a key, if it has not expired.
abbrev pub live : Time → Option Record → Option Record
live now none = none
live now (some rec) = if after now rec.expired_at then none else some rec
