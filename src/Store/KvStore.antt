-- ===== src/Store/KvStore.antt =====
-- storage/store/kv_store.go: `KVStore`, which logs a write and then makes it in the key's shard.
pub mod Sharding
pub mod Reads
pub mod Recovery
pub mod Compaction
pub mod Deletes
pub mod Plain
pub mod Logged
pub mod Opening
pub mod History
pub mod Restart
use keva.Prelude.{
  ℕ, zero, suc, ◌*◌, ◌%◌, ◌^◌, Bool, true, false, Option, none, some, List, [], ◌∷◌, ◌++◌, length,
  Bytes, ◌==◌, if◌then◌else◌, Outcome, ok, err, panic,
}
use Prim.Native.Nat.{bit_xor}
use keva.Map.{Map, insert, remove}
use keva.Time.{Time, before, after, add_duration}
use keva.Int64.{add64}
use keva.Shard.{Record, RangeOrder}
use keva.Wal.{op_set, op_delete, replay, Ending, finished, failed, crashed, out_of_fuel}
use keva.Wal
use keva.Prelude.Reader.{IoError}
use keva.Wal.Writer.{Wal, WalError, Disk, append_set, append_delete}
use keva.Store.{
  StoreError, wal_error, Shard, shard_set, shard_get, shard_delete, shard_sweep, account,
}

pub record KvStore : Type 0 where
  pub shards : List Shard
  pub wal : Wal
  pub shard_count : ℕ
  pub default_ttl : ℕ

-- `fnv.New32a`
abbrev pub offset32 : ℕ
offset32 = 2166136261

abbrev pub prime32 : ℕ
prime32 = 16777619

unfoldable pub hash_from : ℕ → Bytes → ℕ
hash_from h [] = h
hash_from h (b ∷ bs) = hash_from (bit_xor h b * prime32 % 2 ^ 32) bs

unfoldable pub hash : Bytes → ℕ
unfolding hash_from
hash key = hash_from offset32 key

-- `f` on the shard with index `i`; an index out of range panics.
unfoldable pub at_index :
    {A : Type 0}
    → (Shard → Outcome StoreError A × Shard)
    → ℕ
    → List Shard
    → Outcome StoreError A × List Shard
at_index f i [] = (panic, [])
at_index f zero (sh ∷ l) = let (r, t) = f sh in (r, t ∷ l)
at_index f (suc i) (sh ∷ l) = let (r, rest) = at_index f i l in (r, sh ∷ rest)

-- `f` on `getShard(key)`; a division by zero panics.
unfoldable pub at_shard :
    {A : Type 0}
    → Bytes
    → (Shard → Outcome StoreError A × Shard)
    → KvStore
    → Outcome StoreError A × KvStore
unfolding at_index hash
at_shard key f kv =
    if kv.shard_count == 0
    then (panic, kv)
    else let (r, l) = at_index f (hash key % kv.shard_count) kv.shards in
      (r, record kv { shards = l })

-- A write goes on if the log took it.
unfoldable pub after_log :
    {A : Type 0}
    → (KvStore → Outcome StoreError A × KvStore)
    → KvStore
    → Outcome WalError Unit × Wal
    → Outcome StoreError A × KvStore
after_log f kv (ok u, w) = f (record kv { wal = w })
after_log f kv (err e, w) = (err (wal_error e), record kv { wal = w })
after_log f kv (panic, w) = (panic, record kv { wal = w })

unfoldable pub set_with_expiry :
    Disk → RangeOrder → Time → Bytes → Bytes → Time → KvStore → Outcome StoreError Unit × KvStore
unfolding after_log at_shard
set_with_expiry disk range now key value expired_at kv =
    after_log
      (at_shard key
        (shard_set range key (record { value = value; created_at = now; expired_at = expired_at })))
      kv (append_set disk key value expired_at kv.wal)

-- `Set`, which reads the clock for the expiry and then for the record
unfoldable pub set :
    Disk → RangeOrder → Time → Time → Bytes → Bytes → KvStore → Outcome StoreError Unit × KvStore
unfolding set_with_expiry
set disk range now later key value kv =
    set_with_expiry disk range later key value (add_duration now kv.default_ttl) kv

-- `Get`
unfoldable pub get : Time → Bytes → KvStore → Outcome StoreError Bytes × KvStore
unfolding at_shard
get now key kv = at_shard key (shard_get now key) kv

-- `Delete`
unfoldable pub delete : Disk → Bytes → KvStore → Outcome StoreError Unit × KvStore
unfolding after_log at_shard
delete disk key kv = after_log (at_shard key (shard_delete key)) kv (append_delete disk key kv.wal)

-- One tick of `startTTLSweeper`
unfoldable pub sweep_shards : RangeOrder → Time → List Shard → List Shard
sweep_shards range now [] = []
sweep_shards range now (sh ∷ l) = shard_sweep range now sh ∷ sweep_shards range now l

-- What `recover` does with a record of the log, on the shard's map: a value that has expired still
-- replaces what was there.
unfoldable pub apply_record : Time → Wal.Record → Map Record → Map Record
apply_record now r m =
    if r.op == op_set
    then if before now r.expires_at
      then insert r.key (record { value = r.value; created_at = now; expired_at = r.expires_at }) m
      else remove r.key m
    else if r.op == op_delete
    then remove r.key m
    else m

unfoldable pub load_shard : Time → Wal.Record → Shard → Outcome StoreError Unit × Shard
unfolding apply_record
load_shard now r sh = (
  ok tt,
  record sh { memory = record sh.memory { records = apply_record now r sh.memory.records } },
)

-- What is left of the shards, unless there was a panic.
unfoldable pub unless_panic : Outcome StoreError Unit × List Shard → Option (List Shard)
unless_panic (ok u, l) = some l
unless_panic (err e, l) = some l
unless_panic (panic, l) = none

-- The callback of `recover`, on the shard that `getShard` gives: `count` is the store's
-- `shardCount`, and a division by it panics if it is 0. After a panic there are no shards.
unfoldable pub load : Time → ℕ → Option (List Shard) → Wal.Record → Option (List Shard)
unfolding unless_panic at_index hash load_shard
load now count none r = none
load now count (some shards) r =
    if count == 0
    then none
    else unless_panic (at_index (load_shard now r) (hash r.key % count) shards)

unfoldable pub account_all : RangeOrder → List Shard → List Shard
account_all range [] = []
account_all range (sh ∷ l) = account (range sh.memory.records) sh ∷ account_all range l

-- The error of `recover`. `unfinished` is no outcome of the program's.
pub data RecoveryError : Type 0 where
  not_read : IoError → RecoveryError
  unfinished : RecoveryError

unfoldable pub after_replay :
    RangeOrder → Option (List Shard) × Ending → Outcome RecoveryError (List Shard)
unfolding account_all
after_replay range (none, e) = panic
after_replay range (some shards, finished) = ok (account_all range shards)
after_replay range (some shards, failed e) = err (not_read e)
after_replay range (some shards, crashed) = panic
after_replay range (some shards, out_of_fuel) = err unfinished

-- `recover` on the contents of the log, for a store with the `shardCount` given
unfoldable pub recover :
    RangeOrder → Time → Option Bytes → ℕ → List Shard → Outcome RecoveryError (List Shard)
unfolding after_replay load
recover range now contents count shards =
    after_replay range (replay (load now count) contents (some shards))

-- The records that `Compact` writes for one shard: its entries that have not expired.
unfoldable pub live_records : Time → List (Bytes × Record) → List Wal.Record
live_records now [] = []
live_records now ((k, r) ∷ es) =
    let rest = live_records now es in
    if after now r.expired_at
    then rest
    else record { op = op_set; key = k; value = r.value; expires_at = r.expired_at } ∷ rest

unfoldable pub snapshot : RangeOrder → Time → List Shard → List Wal.Record
unfolding live_records
snapshot range now [] = []
snapshot range now (sh ∷ l) = live_records now (range sh.memory.records) ++ snapshot range now l
