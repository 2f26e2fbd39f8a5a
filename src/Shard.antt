-- ===== src/Shard.antt =====
-- storage/store/shard.go, and the view of a shard that storage/eviction/shard_view.go gives a policy.
pub mod Accounting
use keva.Prelude.{ℕ, ◌+◌, ◌≡◌, Option, none, some, List, [], ◌∷◌, Bytes, length, Bool}
use keva.Map.{Map, lookup, insert, remove}
use keva.Time.{Time}
use keva.Int64.{int64, add64, sub64}

pub record Record : Type 0 where
  pub value : Bytes
  pub created_at : Time
  pub expired_at : Time

-- What a policy sees of a `Shard`: its fields but `mu` and `policy`.
pub record Memory : Type 0 where
  pub records : Map Record
  pub bytes : ℕ
  pub budget : ℕ

-- `int64(len(key) + len(value))`
abbrev pub entry_size : Bytes → Bytes → ℕ
entry_size key value = int64 (length key + length value)

-- `Len`
abbrev pub len : Memory → ℕ
len s = length s.records

-- `s.bytes -= …; delete(s.data, key)` on an entry that is there
unfoldable pub drop_record : Bytes → Record → Memory → Memory
drop_record key rec s = record s {
  records = remove key s.records;
  bytes = sub64 s.bytes (entry_size key rec.value);
}

-- `s.data[key] = rec; s.bytes += …`
unfoldable pub put_record : Bytes → Record → Memory → Memory
put_record key rec s = record s {
  records = insert key rec s.records;
  bytes = add64 s.bytes (entry_size key rec.value);
}

unfoldable pub evict_found : Bytes → Option Record → Memory → Memory
unfolding drop_record
evict_found key none s = s
evict_found key (some rec) s = drop_record key rec s

-- `Evict`
unfoldable pub evict : Bytes → Memory → Memory
unfolding evict_found
evict key s = evict_found key (lookup key s.records) s

-- `Range`: the entries in the order in which Go's `range` visits them, which is an argument.
abbrev pub RangeOrder : Type 0
RangeOrder = Map Record → List (Bytes × Record)
