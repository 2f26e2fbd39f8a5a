-- ===== src/Store.antt =====
-- storage/store/kv_store.go and kv_store_util.go: the sharded store. This file: the operations on a
-- shard, which the store runs under the shard's lock.
pub mod KvStore
pub mod Soundness
pub mod Contents
pub mod Sweep
pub mod Limits
pub mod Recovery
use keva.Prelude.{
  Bool, true, false, Option, none, some, List, [], ◌∷◌, Bytes, if◌then◌else◌, Outcome, ok, err,
}
use keva.Map.{lookup, insert, remove}
use keva.Time.{Time, after}
use keva.Int64.{add64}
use keva.Shard.{Record, Memory, RangeOrder, entry_size, drop_record, put_record, evict}
use keva.Eviction.{Policy, before_write, after_write, after_read, after_delete}
use keva.Wal.Writer.{WalError}

-- The store's errors, and the log's, which it passes on.
pub data StoreError : Type 0 where
  key_not_found memory_full : StoreError
  wal_error : WalError → StoreError

pub record Shard : Type 0 where
  pub memory : Memory
  pub policy : Policy

-- `SetWithExpiry` on the shard: a rejected write puts the old value back.
unfoldable pub restore : Bytes → Option Record → Memory → Memory
restore key none s = s
restore key (some old) s = put_record key old s

unfoldable pub finish_set :
    Bytes → Record → Option Record → Bool × Policy × Memory → Outcome StoreError Unit × Shard
unfolding restore
finish_set key rec old (false, p, s) =
    (err memory_full, record { memory = restore key old s; policy = p })
finish_set key rec old (true, p, s) =
    (ok tt, record { memory = put_record key rec s; policy = after_write key p })

-- The old entry is taken out by the same statements as those of `Evict`.
unfoldable pub shard_set : RangeOrder → Bytes → Record → Shard → Outcome StoreError Unit × Shard
unfolding finish_set
shard_set range key rec sh =
    finish_set key rec (lookup key sh.memory.records)
      (before_write range key (entry_size key rec.value) sh.policy (evict key sh.memory))

-- `Get`: an expired entry is left to the sweeper.
unfoldable pub get_found : Time → Bytes → Option Record → Shard → Outcome StoreError Bytes × Shard
get_found now key none sh = (err key_not_found, sh)
get_found now key (some rec) sh =
    if after now rec.expired_at
    then (err key_not_found, sh)
    else (ok rec.value, record sh { policy = after_read key sh.policy })

unfoldable pub shard_get : Time → Bytes → Shard → Outcome StoreError Bytes × Shard
unfolding get_found
shard_get now key sh = get_found now key (lookup key sh.memory.records) sh

-- The entry taken out by `Delete`, and by the sweeper.
unfoldable pub drop_entry : Bytes → Record → Shard → Shard
drop_entry key rec sh = record {
  memory = drop_record key rec sh.memory;
  policy = after_delete key sh.policy;
}

unfoldable pub delete_found : Bytes → Option Record → Shard → Outcome StoreError Unit × Shard
unfolding drop_entry
delete_found key none sh = (err key_not_found, sh)
delete_found key (some rec) sh = (ok tt, drop_entry key rec sh)

unfoldable pub shard_delete : Bytes → Shard → Outcome StoreError Unit × Shard
unfolding delete_found
shard_delete key sh = delete_found key (lookup key sh.memory.records) sh

-- The sweeper's loop over the entries of a shard, in the order in which `range` visits them.
unfoldable pub sweep_entries : Time → List (Bytes × Record) → Shard → Shard
unfolding drop_entry
sweep_entries now [] sh = sh
sweep_entries now ((k, r) ∷ es) sh =
    sweep_entries now es (if after now r.expired_at then drop_entry k r sh else sh)

unfoldable pub shard_sweep : RangeOrder → Time → Shard → Shard
unfolding sweep_entries
shard_sweep range now sh = sweep_entries now (range sh.memory.records) sh

-- The second loop of `recover`: the byte counter and the policy's bookkeeping.
unfoldable pub account : List (Bytes × Record) → Shard → Shard
account [] sh = sh
account ((k, r) ∷ es) sh = account es (record {
  memory = record sh.memory { bytes = add64 sh.memory.bytes (entry_size k r.value) };
  policy = after_write k sh.policy;
})
