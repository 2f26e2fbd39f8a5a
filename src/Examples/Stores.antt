-- ===== src/Examples/Stores.antt =====
-- The store and its policies at concrete inputs.
use keva.Prelude.{
  ℕ, ◌+◌, ◌^◌, ◌%◌, ◌≤◌, ◌<◌, ◌≡◌, ◌==◌, ==_refl, zero, suc, ◌≢◌, ◌⊎◌, inl, inr, refl, true, false,
  none, some, List, [], ◌∷◌, ◌++◌, map, arith, Bytes, length, take, ltb, bytes_eq, if◌then◌else◌,
  Bool-cases, put_uint16, put_uint32, put_uint64, ok, err, All,
}
use keva.Map.{lookup, insert, total}
use keva.Time.{unix_epoch}
use keva.Int64.{gt64, add64, sub64}
use keva.Shard.{Record, Memory, RangeOrder, evict}
use keva.Shard.Accounting.{used, bytes_of, IsExact}
use keva.Eviction.{
  Policy, no_evict, before_write, lru_evict, new_lru, Lru, push_front, lru_make_room,
  sample_make_room, over_budget,
}
use keva.Eviction.Consistency.{IsConsistent, IsConsistent-new_lru, push_front-IsConsistent}
use keva.Eviction.Room.{Tracks, MadeRoom, lru_make_room-MadeRoom}
use keva.Eviction.Sampling.{IsRange, sample_make_room-fits}
use keva.Wal
use keva.Wal.{op_set, encode}
use keva.Wal.Codec.{IsLoggable, logged}
use keva.Wal.Replay.{encode_all, apply_all}
use keva.Wal.Writer.{Wal, Disk, sync_none, append_set, append_delete}
use keva.Store.{Shard, shard_delete, memory_full, shard_set, shard_sweep}
use keva.Store.Soundness.{IsSound}
use keva.Store.Contents.{live}
use keva.Store.Sweep.{shard_sweep-lookup}
use keva.Store.Limits.{no_evict-shard_set, no_evict-bound, evicting-bound}
use keva.Store.KvStore.{
  live_records, snapshot, KvStore, hash, set_with_expiry, get, delete, recover, not_read,
}
use keva.Prelude.Reader.{unexpected_eof}
use keva.Store.KvStore.Sharding.{IsReady, nth, entry_in, index, find}
use keva.Store.KvStore.Reads.{SetOutcome, set_with_expiry-SetOutcome, get-set_with_expiry}
use keva.Store.KvStore.Deletes.{DeleteOutcome, delete-DeleteOutcome}
use keva.Store.KvStore.Compaction.{survives, recover-snapshot}
use keva.Store.KvStore.Recovery.{IsEmpty, recorded, recover-encode_all, recover-torn}

abbrev pub range : RangeOrder
range = λ m. m

pub range-IsRange : IsRange range
range-IsRange = record { visits = λ m d k. refl; once = λ m d. d }

abbrev pub key : Bytes
key = 1 ∷ 2 ∷ []

abbrev other : Bytes
other = 3 ∷ []

abbrev pub value : Bytes
value = 7 ∷ 8 ∷ []

abbrev rec : Record
rec = record { value = value; created_at = 10; expired_at = 100 }

abbrev empty_memory : ℕ → Memory
empty_memory budget = record { records = []; bytes = 0; budget = budget }

abbrev empty : Policy → Shard
empty p = record { memory = empty_memory 20; policy = p }

empty_memory-IsExact : (budget : ℕ) → IsExact (empty_memory budget)
empty_memory-IsExact budget = record { distinct = tt; counted = unfold used total in refl }

empty-IsSound : IsSound (empty no_evict)
empty-IsSound = record { exact = empty_memory-IsExact 20; follows = tt }

-- a shard that holds `key`
abbrev one_memory : Memory
one_memory = record { records = (key, rec) ∷ []; bytes = 4; budget = 5 }

abbrev one_entry : Shard
one_entry = record { memory = one_memory; policy = no_evict }

one_memory-IsExact : IsExact one_memory
one_memory-IsExact = record {
  distinct = (unfold lookup in refl, tt);
  counted = unfold used total in refl;
}

one_entry-IsSound : IsSound one_entry
one_entry-IsSound = record { exact = one_memory-IsExact; follows = tt }

-- the same under the policy "strict"
abbrev one_lru : Lru
one_lru = record { order = (0, key) ∷ []; elems = (key, 0) ∷ []; next = 1 }

one_lru-IsConsistent : IsConsistent one_lru
one_lru-IsConsistent =
    unfold push_front insert in
    push_front-IsConsistent key new_lru (unfold lookup in refl) IsConsistent-new_lru

one_lru-Tracks : Tracks one_lru one_memory
one_lru-Tracks k =
    unfold lookup in
    elim (Bool-cases (bytes_eq key k)) [
      | inl e ↦ rw e (λ h. absurd (cc h), λ h. absurd (cc h))
      | inr e ↦ rw e (λ h. refl, λ h. refl)
    ]

abbrev strict : Shard
strict = record { memory = one_memory; policy = lru_evict one_lru }

strict-IsSound : IsSound strict
strict-IsSound = record {
  exact = one_memory-IsExact;
  follows = (one_lru-IsConsistent, one_lru-Tracks);
}

one_memory-small : used one_memory + bytes_of other rec < 2 ^ 63
one_memory-small = unfold used total in omega arith

one_memory-within : used one_memory ≤ 5
one_memory-within = unfold used total in omega arith

limited : one_memory.budget ≢ 0
limited = λ e. absurd (omega (arith, e))

-- the entry of `other` takes 3 bytes, and 5 are allowed
no_evict-shard_set_example :
    (shard_set range other rec one_entry).0
    ≡ (if ltb 5 (used (evict other one_memory) + 3) then err memory_full else ok tt)
no_evict-shard_set_example =
    no_evict-shard_set range other rec one_entry refl one_entry-IsSound limited (omega arith)
      one_memory-small

no_evict-bound_example : used (shard_set range other rec one_entry).1.memory ≤ 5
no_evict-bound_example =
    no_evict-bound range other rec one_entry refl one_entry-IsSound limited (omega arith)
      one_memory-small one_memory-within

evicting-bound_example :
    ((shard_set range other rec strict).0 ≡ ok tt)
    × ((used (shard_set range other rec strict).1.memory ≤ 5)
        ⊎ ((shard_set range other rec strict).1.memory.records ≡ (other, rec) ∷ []))
evicting-bound_example =
    evicting-bound range other rec strict (λ e. absurd (cc e)) range-IsRange strict-IsSound limited
      (omega arith) one_memory-small

lru_make_room-MadeRoom_example :
    MadeRoom 3 one_lru one_memory
      (lru_make_room 1 3 one_lru one_memory).0
      (lru_make_room 1 3 one_lru one_memory).1
lru_make_room-MadeRoom_example =
    lru_make_room-MadeRoom 1 3 one_lru one_memory (omega arith) one_lru-IsConsistent one_lru-Tracks
      one_memory-IsExact

sample_make_room-fits_example :
    (over_budget 3 (sample_make_room 1 range 3 one_memory) ≡ false)
    ⊎ ((sample_make_room 1 range 3 one_memory).records ≡ [])
sample_make_room-fits_example =
    sample_make_room-fits range range-IsRange 1 3 one_memory one_memory-IsExact (omega arith)

shard_sweep-lookup_example :
    IsSound (shard_sweep range 101 strict)
    × ((j : Bytes)
        → lookup j (shard_sweep range 101 strict).memory.records
          ≡ live 101 (lookup j one_memory.records))
shard_sweep-lookup_example = shard_sweep-lookup range 101 strict range-IsRange strict-IsSound

abbrev pub disk : Disk
disk = record { written = 100; sync_ok = true }

abbrev log : Wal
log = record {
  mode = sync_none;
  max_batch_size = 10;
  file = [];
  synced = [];
  queue = [];
  batch = [];
  running = false;
}

abbrev pub store : KvStore
store = record {
  shards = one_entry ∷ empty no_evict ∷ [];
  wal = log;
  shard_count = 2;
  default_ttl = 5;
}

pub store-IsReady : IsReady store
store-IsReady = record {
  some_shards = λ e. absurd (omega (arith, e));
  all_there = refl;
  sound = (one_entry-IsSound, (empty-IsSound, tt));
}

set_with_expiry-SetOutcome_example :
    let q = set_with_expiry disk range 10 key value 100 store in
    IsReady q.1
    × SetOutcome key (record { value = value; created_at = 10; expired_at = 100 }) store q.0 q.1
set_with_expiry-SetOutcome_example =
    set_with_expiry-SetOutcome disk range 10 key value 100 store store-IsReady

pub set_ok : (set_with_expiry disk range 10 key value 100 store).0 ≡ ok tt
unfolding set_with_expiry append_set encode put_uint16 put_uint32 put_uint64 shard_set before_write
    evict lookup insert bytes_eq over_budget gt64 add64 sub64
set_ok = refl

get-set_with_expiry_example :
    (get 50 key (set_with_expiry disk range 10 key value 100 store).1).0 ≡ ok value
get-set_with_expiry_example =
    get-set_with_expiry disk range 10 key value 100 store store-IsReady 50 set_ok refl

delete-DeleteOutcome_example :
    let q = delete disk key store in IsReady q.1 × DeleteOutcome key store q.0 q.1
delete-DeleteOutcome_example = delete-DeleteOutcome disk key store store-IsReady

delete_ok : (delete disk key store).0 ≡ ok tt
unfolding delete append_delete encode put_uint16 put_uint32 put_uint64 shard_delete lookup bytes_eq
delete_ok = refl

abbrev epoch_rec : Wal.Record
epoch_rec = record { op = op_set; key = key; value = value; expires_at = unix_epoch + 100 }

epoch_rec-IsLoggable : IsLoggable epoch_rec
epoch_rec-IsLoggable =
    IsLoggable.a_set refl (omega arith) (omega arith)
      (record { from = omega arith; to = omega arith })

abbrev new_shards : List Shard
new_shards = empty no_evict ∷ empty (lru_evict new_lru) ∷ []

new_shards-IsEmpty : All IsEmpty new_shards
new_shards-IsEmpty = (
  record { nothing = refl; uncounted = refl; new = tt },
  (record { nothing = refl; uncounted = refl; new = refl }, tt),
)

recover-encode_all_example :
    (t : List Shard) × (recover range 10 (some (encode_all (epoch_rec ∷ []))) 2 new_shards ≡ ok t)
    × All IsSound t
    × (length t ≡ 2)
    × ((j : Bytes)
        → entry_in j (nth (hash j % 2) t)
          ≡ apply_all (recorded 10 j) none (map logged (epoch_rec ∷ [])))
recover-encode_all_example =
    recover-encode_all range 10 new_shards (epoch_rec ∷ []) range-IsRange
      (λ e. absurd (omega (arith, e))) (omega arith) new_shards-IsEmpty (epoch_rec-IsLoggable, tt)

recover-torn_example :
    recover range 10 (some (encode_all (epoch_rec ∷ []) ++ take 16 (encode epoch_rec))) 2 new_shards
    ≡ err (not_read unexpected_eof)
recover-torn_example =
    recover-torn range 10 new_shards (epoch_rec ∷ []) epoch_rec 16 (λ e. absurd (omega (arith, e)))
      (omega arith) new_shards-IsEmpty (epoch_rec-IsLoggable, tt) epoch_rec-IsLoggable (omega arith)
      (unfold encode put_uint16 put_uint32 put_uint64 in omega arith)

-- a store whose value does not expire before the year 1970
abbrev saved_memory : Memory
saved_memory = record {
  records = (key, record { value = value; created_at = 10; expired_at = unix_epoch + 100 }) ∷ [];
  bytes = 4;
  budget = 5;
}

abbrev saved : KvStore
saved = record store {
  shards = record { memory = saved_memory; policy = no_evict } ∷ empty no_evict ∷ [];
}

saved-IsReady : IsReady saved
saved-IsReady = record {
  some_shards = λ e. absurd (omega (arith, e));
  all_there = refl;
  sound = (
    record {
      exact = record {
        distinct = (unfold lookup in refl, tt);
        counted = unfold used total in refl;
      };
      follows = tt;
    },
    (empty-IsSound, tt),
  );
}

saved-alone : (i : ℕ) → (i == index key saved) ≡ false → entry_in key (nth i saved.shards) ≡ none
unfolding hash lookup
saved-alone zero e = absurd (cc (e, ==_refl 0))
saved-alone (suc zero) e = refl
saved-alone (suc (suc i)) e = refl

saved-IsLoggable : All IsLoggable (snapshot range 50 saved.shards)
unfolding snapshot live_records
saved-IsLoggable = (epoch_rec-IsLoggable, tt)

recover-snapshot_example :
    (t : List Shard) × (recover range 60
        (some (encode_all (snapshot range 50 saved.shards)))
        2
        new_shards
      ≡ ok t)
    × All IsSound t
    × (entry_in key (nth (hash key % 2) t) ≡ survives 50 60 (find key saved))
recover-snapshot_example =
    recover-snapshot range 50 60 saved new_shards key range-IsRange saved-IsReady saved-alone
      saved-IsLoggable (λ e. absurd (omega (arith, e))) (omega arith) new_shards-IsEmpty
