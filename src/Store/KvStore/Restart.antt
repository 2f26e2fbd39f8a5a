-- ===== src/Store/KvStore/Restart.antt =====
-- A store that is started again on the log of another: its readers see no difference.
use keva.Prelude.{
  ◌<◌, ◌%◌, ◌^◌, ◌/◌, ◌≡◌, ◌≢◌, refl, sym, ap, ◌∙◌, true, false, Bool-cases, inl, inr, Option, none,
  some, List, [], ◌∷◌, ◌++◌, map, arith, All, Bytes, bytes_eq, length, ltb_false→le, lt→ltb, ◌==◌,
  if◌then◌else◌, Outcome, ok,
}
use keva.Time.{Time, before}
use keva.Shard.{Record, RangeOrder}
use keva.Eviction.Sampling.{IsRange}
use keva.Wal.{op_set, op_delete, encode}
use keva.Wal
use keva.Wal.Codec.{IsLoggable, a_set, a_delete, logged}
use keva.Wal.Replay.{encode_all, apply_all, apply_all-append}
use keva.Wal.Writer.{Disk}
use keva.Store.{Shard}
use keva.Store.Recovery.{IsNew}
use keva.Store.Contents.{reply}
use keva.Store.KvStore.{KvStore, get, hash}
use keva.Store.KvStore.Sharding.{IsReady, find, nth, entry_in}
use keva.Store.KvStore.Reads.{get-reply}
use keva.Store.KvStore.Recovery.{recorded, recover-encode_all}
use keva.Store.KvStore.Opening.{
  WalOptions, Options, StartError, new_kv_store, with_budget, after_recover, finish_open, open_wal,
  new_shards, policy_of, file_of, length-new_shards, new_shards-IsEmpty, shard_budget-bound,
}
use keva.Store.KvStore.History.{
  Op, put, del, read, Contents, promise, promises, performs, log_of, log_of_all, Holds, DiskTakes,
  performs-promises, answer_read, reply-seen,
}

-- What the log says about a key, whatever the time.
abbrev told : Bytes → Option (Bytes × Time) → Wal.Record → Option (Bytes × Time)
told j y r =
    if bytes_eq r.key j then if r.op == op_set then some (r.value, r.expires_at) else none else y

-- What of it is still worth having at the time of recovery.
abbrev fresh : Time → Option (Bytes × Time) → Option Record
fresh now none = none
fresh now (some (value, expires)) =
    if before now expires
    then some (record { value = value; created_at = now; expired_at = expires })
    else none

module _ (now : Time) (j : Bytes) where
  recorded-logged :
      (r : Wal.Record) (y : Option (Bytes × Time))
      → IsLoggable r
      → recorded now j (fresh now y) (logged r) ≡ fresh now (told j y r)
  unfolding logged
  recorded-logged r y (a_set e k v t) =
      let set : (r.op == op_set) ≡ true = rw e refl in
      rw set (elim (Bool-cases (bytes_eq r.key j)) [ inl q ↦ rw (q, set) refl | inr q ↦ rw q refl ])
  recorded-logged r y (a_delete e k v) =
      let unset : (r.op == op_set) ≡ false = rw e refl in
      let gone : (r.op == op_delete) ≡ true = rw e refl in
      rw unset (elim (Bool-cases (bytes_eq r.key j)) [
        | inl q ↦ rw (q, unset, gone) refl
        | inr q ↦ rw q refl
      ])

  recorded-log :
      (rs : List Wal.Record) (y : Option (Bytes × Time))
      → All IsLoggable rs
      → apply_all (recorded now j) (fresh now y) (map logged rs)
        ≡ fresh now (apply_all (told j) y rs)
  recorded-log [] y h = refl
  recorded-log (r ∷ rs) y h =
      ap (λ x. apply_all (recorded now j) x (map logged rs)) (recorded-logged r y h.0)
      ∙ recorded-log rs (told j y r) h.1

  -- A read later than the recovery does not tell them apart.
  reply-fresh :
      (later : Time) (y : Option (Bytes × Time))
      → now < later
      → reply later (fresh now y) ≡ answer_read later y
  reply-fresh later none h = refl
  reply-fresh later (some (value, expires)) h = elim (Bool-cases (before now expires)) [
    | inl e ↦ rw e refl
    | inr e ↦ rw (e, lt→ltb expires later (omega (arith, h, ltb_false→le now expires e))) refl
  ]

-- The log of a history says what the map promises.
told-promise :
    (j : Bytes) (o : Op) (m : Contents) → apply_all (told j) (m j) (log_of o) ≡ (promise o m).1 j
told-promise j (put now key value expires) m = refl
told-promise j (del key) m = refl
told-promise j (read now key) m = refl

told-promises :
    (j : Bytes) (os : List Op) (m : Contents)
    → apply_all (told j) (m j) (log_of_all os) ≡ (promises os m).1 j
told-promises j [] m = refl
told-promises j (o ∷ os) m =
    apply_all-append (told j) (m j) (log_of o) (log_of_all os)
    ∙ ap (λ y. apply_all (told j) y (log_of_all os)) (told-promise j o m)
    ∙ told-promises j os (promise o m).1

-- Options with which a store starts: shards that a `uint32` counts, and a new policy.
pub record IsUsable (o : Options) : Type 0 where
  pub some_shards : o.shard_count ≢ 0
  pub counted : o.shard_count < 2 ^ 32
  pub memory : o.max_memory_bytes < 2 ^ 63
  pub new : IsNew (policy_of o.new_eviction)

module _ (range : RangeOrder) (v : IsRange range) (now : Time) (w : WalOptions) (o : Options)
    (usable : IsUsable o) (rs : List Wal.Record) (loggable : All IsLoggable rs) where
  abbrev shards : List Shard
  shards = new_shards o.shard_count (o.max_memory_bytes / o.shard_count) (policy_of o.new_eviction)

  -- The store that starts on a log, and its entries.
  pub record Started (result : Outcome StartError KvStore) : Type 0 where
    pub store : KvStore
    pub is : result ≡ ok store
    pub ready : IsReady store
    pub entries : (j : Bytes) → find j store ≡ fresh now (apply_all (told j) none rs)

  new_kv_store-Started : Started (new_kv_store range now true w o (some (encode_all rs)))
  unfolding new_kv_store with_budget after_recover finish_open open_wal
  new_kv_store-Started =
      let budget = shard_budget-bound o usable.some_shards usable.memory in
      let len : length shards ≡ o.shard_count = length-new_shards o.shard_count _ _ in
      let filled =
        recover-encode_all range now shards rs v (λ e. usable.some_shards (sym len ∙ e))
          (omega (arith, len, usable.counted)) (new_shards-IsEmpty o.shard_count _ _ usable.new)
          loggable in
      let count : o.shard_count % 2 ^ 32 ≡ o.shard_count = omega (arith, usable.counted) in
      rw (budget.0, rw len at filled.1)
        (record {
          store = record {
            shards = filled.0;
            wal = record {
              mode = w.mode;
              max_batch_size = w.max_batch_size;
              file = encode_all rs;
              synced = encode_all rs;
              queue = [];
              batch = [];
              running = true;
            };
            shard_count = o.shard_count % 2 ^ 32;
            default_ttl = o.default_ttl;
          };
          is = unfold file_of in refl;
          ready = record {
            some_shards = λ e. usable.some_shards (sym count ∙ e);
            all_there = filled.3 ∙ len ∙ sym count;
            sound = filled.2;
          };
          entries = λ j.
              ap (λ n. entry_in j (nth (hash j % (n % 2 ^ 32)) filled.0)) (sym len)
              ∙ filled.4 j
              ∙ recorded-log now j rs none loggable;
        })

-- After any history of sets, deletes and reads whose records are loggable (keys shorter than 2 ^
-- 16 and values than 2 ^ 32 bytes, expiries that an int64 of nanoseconds since 1970 reaches), on a
-- store that was empty with an empty log, has neither eviction policy nor memory limit and writes
-- each record of its log at once, to a disk that takes it, NewKVStore on that log succeeds, for a
-- number of shards from 1 below 2 ^ 32, a memory limit below 2 ^ 63, a new policy of any kind, and
-- a Range that visits each entry once; and every read at a time later than the start gives on the
-- new store what it gives on the old one.
pub get-new_kv_store :
    (disk : Disk) (range : RangeOrder) (os : List Op) (kv : KvStore) (now : Time) (w : WalOptions)
    (o : Options)
    → IsRange range
    → Holds kv (λ j. none)
    → kv.wal.file ≡ []
    → All IsLoggable (log_of_all os)
    → DiskTakes disk os
    → IsUsable o
    → let kv1 = (performs disk range os kv).1 in
      (kv2 : KvStore) × (new_kv_store range now true w o (some kv1.wal.file) ≡ ok kv2)
      × IsReady kv2
      × ((later : Time) (j : Bytes) → now < later → (get later j kv2).0 ≡ (get later j kv1).0)
get-new_kv_store disk range os kv now w o v h empty loggable takes usable =
    let s = performs-promises disk range os kv (λ j. none) h takes in
    let kv1 = (performs disk range os kv).1 in
    let file : kv1.wal.file ≡ encode_all (log_of_all os) =
      s.logs ∙ ap (λ x. x ++ encode_all (log_of_all os)) empty in
    let t = new_kv_store-Started range v now w o usable (log_of_all os) loggable in
    (
      t.store,
      ap (λ x. new_kv_store range now true w o (some x)) file ∙ t.is,
      t.ready,
      λ later j lt.
          get-reply later j t.store t.ready
          ∙ ap (reply later) (t.entries j)
          ∙ reply-fresh now j later (apply_all (told j) none (log_of_all os)) lt
          ∙ ap (answer_read later) (told-promises j os (λ i. none) ∙ sym (s.holds.holds j))
          ∙ sym (reply-seen later (find j kv1))
          ∙ sym (get-reply later j kv1 s.holds.plain_store.ready),
    )
