-- ===== src/Examples/Histories.antt =====
-- Histories of a store, and its start, at concrete inputs.
use keva.Prelude.{
  ℕ, ◌+◌, ◌/◌, ◌%◌, ◌≤◌, ◌<◌, ◌≡◌, ◌↔◌, refl, true, none, some, List, [], ◌∷◌, arith, All, Bytes,
  ok, put_uint16, put_uint32, put_uint64,
}
use keva.Time.{unix_epoch}
use keva.Eviction.{no_evict}
use keva.Map.{lookup, total}
use keva.Shard.Accounting.{used}
use keva.Wal.{encode}
use keva.Wal.Codec.{IsLoggable, a_set, a_delete}
use keva.Wal.Writer.{Disk, sync_always}
use keva.Store.KvStore.{KvStore, get, hash}
use keva.Store.KvStore.Sharding.{IsReady}
use keva.Store.KvStore.Opening.{
  Options, WalOptions, new_kv_store, new_shards, policy_of, shard_budget, budgets,
  shard_budget-bound,
}
use keva.Store.KvStore.History.{
  Op, put, del, read, Holds, DiskTakes, Served, log_of_all, performs, performs-promises,
}
use keva.Store.KvStore.Restart.{IsUsable, get-new_kv_store}
use keva.Examples.Stores.{range, range-IsRange, key, value}

abbrev pub fresh_store : KvStore
fresh_store = record {
  shards =
      record { memory = record { records = []; bytes = 0; budget = 0 }; policy = no_evict } ∷ [];
  wal = record {
    mode = sync_always;
    max_batch_size = 1;
    file = [];
    synced = [];
    queue = [];
    batch = [];
    running = true;
  };
  shard_count = 1;
  default_ttl = 5;
}

pub fresh_store-IsReady : IsReady fresh_store
fresh_store-IsReady = record {
  some_shards = λ e. omega (arith, e);
  all_there = refl;
  sound = (
    record { exact = record { distinct = tt; counted = unfold used total in refl }; follows = tt },
    tt,
  );
}

pub fresh_store-Holds : Holds fresh_store (λ j. none)
fresh_store-Holds = record {
  plain_store = record {
    ready = fresh_store-IsReady;
    plain = (record { no_policy = refl; no_budget = refl }, tt);
  };
  direct = λ e. cc e;
  holds = λ j. let e : hash j % 1 ≡ 0 = omega arith in rw e (unfold lookup in refl);
}

abbrev history : List Op
history =
    put unix_epoch key value (unix_epoch + 100)
    ∷ read (unix_epoch + 1) key
    ∷ del (9 ∷ [])
    ∷ del key
    ∷ put (unix_epoch + 2) key (5 ∷ []) (unix_epoch + 200)
    ∷ []

abbrev pub big_disk : Disk
big_disk = record { written = 1000; sync_ok = true }

history-DiskTakes : DiskTakes big_disk history
unfolding encode put_uint16 put_uint32 put_uint64
history-DiskTakes = record {
  room = (omega arith, (omega arith, (omega arith, (omega arith, tt))));
  syncs = refl;
}

performs-promises_example : Served big_disk range history fresh_store (λ j. none)
performs-promises_example =
    performs-promises big_disk range history fresh_store (λ j. none) fresh_store-Holds
      history-DiskTakes

abbrev wal_options : WalOptions
wal_options = record { mode = sync_always; max_batch_size = 1 }

-- four shards, and so another place for each key
abbrev options : Options
options = record { shard_count = 4; default_ttl = 5; max_memory_bytes = 0; new_eviction = none }

history-IsLoggable : All IsLoggable (log_of_all history)
history-IsLoggable = (
  a_set refl (omega arith) (omega arith) (record { from = omega arith; to = omega arith }),
  (
    a_delete refl (omega arith) refl,
    (
      a_delete refl (omega arith) refl,
      (
        a_set refl (omega arith) (omega arith) (record { from = omega arith; to = omega arith }),
        tt,
      ),
    ),
  ),
)

options-IsUsable : IsUsable options
options-IsUsable = record {
  some_shards = λ e. omega (arith, e);
  counted = omega arith;
  memory = omega arith;
  new = unfold policy_of in tt;
}

get-new_kv_store_example :
    let kv1 = (performs big_disk range history fresh_store).1 in
    (kv2 : KvStore) × (new_kv_store range
        (unix_epoch + 3)
        true
        wal_options
        options
        (some kv1.wal.file)
      ≡ ok kv2)
    × IsReady kv2
    × ((later : ℕ) (j : Bytes) → unix_epoch + 3 < later → (get later j kv2).0 ≡ (get later j kv1).0)
get-new_kv_store_example =
    get-new_kv_store big_disk range history fresh_store (unix_epoch + 3) wal_options options
      range-IsRange fresh_store-Holds refl history-IsLoggable history-DiskTakes options-IsUsable

shard_budget-bound_example :
    let b = 1000 / 3 in
    let o : Options = record {
      shard_count = 3;
      default_ttl = 5;
      max_memory_bytes = 1000;
      new_eviction = none;
    } in
    (shard_budget o ≡ ok b)
    × (budgets (new_shards 3 b (policy_of none)) ≤ 1000)
    × ((b ≡ 0) ↔ (1000 < 3))
shard_budget-bound_example =
    shard_budget-bound
      (record { shard_count = 3; default_ttl = 5; max_memory_bytes = 1000; new_eviction = none })
      (λ e. omega (arith, e)) (omega arith)
