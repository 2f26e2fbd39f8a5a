-- ===== src/Shard/Accounting.antt =====
-- The byte counter of a shard against the entries that it counts.
use keva.Prelude.{
  ℕ, ◌+◌, ◌%◌, ◌^◌, ◌≡◌, inl, inr, arith, none, some, Option-cases, Bytes, length, bytes_eq,
  if◌then◌else◌,
}
use keva.Map.{
  lookup, total, total-remove, total-insert, IsDistinct, IsDistinct-remove, IsDistinct-insert,
  lookup-remove, remove_absent,
}
use keva.Int64.{add64-counts, sub64-counts}
use keva.Shard.{Record, Memory, drop_record, put_record, evict}

-- The bytes of an entry, and of all entries.
abbrev pub bytes_of : Bytes → Record → ℕ
bytes_of key rec = length key + length rec.value

unfoldable pub used : Memory → ℕ
used s = total bytes_of s.records

-- The counter is the number of bytes stored, modulo 2 ^ 64.
pub record IsExact (s : Memory) : Type 0 where
  pub distinct : IsDistinct s.records
  pub counted : s.bytes ≡ used s % 2 ^ 64

module _ (key : Bytes) (rec : Record) (s : Memory) (found : lookup key s.records ≡ some rec) where
  pub used-drop_record : IsExact s → used (drop_record key rec s) + bytes_of key rec ≡ used s
  unfolding used drop_record
  used-drop_record x = total-remove bytes_of key rec s.records x.distinct found

  pub drop_record-IsExact : IsExact s → IsExact (drop_record key rec s)
  drop_record-IsExact x = record {
    distinct = unfold drop_record in IsDistinct-remove key s.records x.distinct;
    counted =
        unfold drop_record in
        sub64-counts s.bytes (bytes_of key rec) (used s) _ x.counted (used-drop_record x);
  }

module _ (key : Bytes) (rec : Record) (s : Memory) (absent : lookup key s.records ≡ none) where
  pub used-put_record : used (put_record key rec s) ≡ used s + bytes_of key rec
  unfolding used put_record
  used-put_record = total-insert bytes_of key rec s.records absent

  pub put_record-IsExact : IsExact s → IsExact (put_record key rec s)
  put_record-IsExact x = record {
    distinct = unfold put_record in IsDistinct-insert key rec s.records x.distinct;
    counted =
        rw used-put_record
          (unfold put_record in add64-counts s.bytes (bytes_of key rec) (used s) x.counted);
  }

pub evict-IsExact : (key : Bytes) (s : Memory) → IsExact s → IsExact (evict key s)
unfolding evict
evict-IsExact key s x = elim (Option-cases (lookup key s.records)) [
  | inl e ↦ rw e x
  | inr (rec, e) ↦ rw e (drop_record-IsExact key rec s e x)
]

pub put_record-IsDistinct :
    (key : Bytes) (rec : Record) (s : Memory)
    → IsDistinct s.records
    → IsDistinct (put_record key rec s).records
unfolding put_record
put_record-IsDistinct key rec s d = IsDistinct-insert key rec s.records d

pub lookup-evict :
    (key j : Bytes) (s : Memory)
    → lookup j (evict key s).records ≡ (if bytes_eq key j then none else lookup j s.records)
unfolding evict
lookup-evict key j s = elim (Option-cases (lookup key s.records)) [
  | inl e ↦ rw e (absent e)
  | inr (rec, e) ↦ rw e (lookup-remove key j s.records)
]
  where
    absent :
        lookup key s.records ≡ none
        → lookup j s.records ≡ (if bytes_eq key j then none else lookup j s.records)
    absent e = rw (remove_absent key s.records e) at (lookup-remove key j s.records)

pub budget-evict : (key : Bytes) (s : Memory) → (evict key s).budget ≡ s.budget
unfolding evict
budget-evict key s = ground arith
