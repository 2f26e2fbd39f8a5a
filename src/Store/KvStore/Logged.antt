-- ===== src/Store/KvStore/Logged.antt =====
-- The operations of a store without a memory limit whose log takes every record.
use keva.Prelude.{
  ℕ, zero, suc, ◌≤◌, ◌≡◌, ◌≢◌, inl, inr, refl, ap, ◌∙◌, true, Bool-cases, none, some, [], ◌∷◌, ◌++◌,
  arith, Bytes, length, take, ◌==◌, bytes_eq, if◌then◌else◌, Outcome, ok, err, panic, le→ltb_false,
}
use keva.Map.{lookup}
use keva.Time.{Time}
use keva.Shard.{Record, RangeOrder}
use keva.Wal.{encode, op_set, op_delete}
use keva.Wal
use keva.Wal.Writer.{
  SyncMode, sync_always, sync_interval, sync_none, Wal, WalError, Disk, append, append_by_mode,
  write_direct, finish_write, sync_file, append_set, append_delete,
}
use keva.Store.{Shard, StoreError, shard_set, shard_get, shard_delete}
use keva.Store.Contents.{reply, deleted}
use keva.Store.Soundness.{IsSound}
use keva.Store.KvStore.{KvStore, at_shard, after_log, set_with_expiry, get, delete}
use keva.Store.KvStore.Reads.{with_wal}
use keva.Store.KvStore.Sharding.{find}
use keva.Store.KvStore.Plain.{
  IsPlain, IsPlainStore, shard_set-IsPlain, shard_get-IsPlain, shard_delete-IsPlain,
  IsPlainStore-at_shard, find-at_plain, result-at_plain,
}
use keva.Store.Soundness.{shard_set-IsSound, shard_get-IsSound, shard_delete-IsSound}
use keva.Store.Contents.{shard_get-reply, shard_delete-lookup}
use keva.Store.KvStore.Reads.{get-reply}

-- A log that writes each record at once, on a disk that takes it.
pub record Takes (disk : Disk) (r : Wal.Record) (w : Wal) : Type 0 where
  pub direct : w.mode ≢ sync_interval
  pub room : length (encode r) ≤ disk.written
  pub syncs : disk.sync_ok ≡ true

take_all : (n : ℕ) (s : Bytes) → length s ≤ n → take n s ≡ s
unfolding take
take_all zero [] h = refl
take_all zero (x ∷ s) h = absurd (omega arith)
take_all (suc n) [] h = refl
take_all (suc n) (x ∷ s) h = ap (◌∷◌ x) (take_all n s (omega arith))

append-Takes :
    (disk : Disk) (r : Wal.Record) (w : Wal)
    → Takes disk r w
    → ((append disk r w).0 ≡ ok tt)
      × ((append disk r w).1.file ≡ w.file ++ encode r)
      × ((append disk r w).1.mode ≡ w.mode)
unfolding append append_by_mode write_direct finish_write sync_file
append-Takes disk r w t = by_mode w.mode refl
  where
    whole : take disk.written (encode r) ≡ encode r
    whole = take_all disk.written (encode r) t.room

    by_mode :
        (m : SyncMode)
        → w.mode ≡ m
        → let q = append_by_mode disk (encode r) m w in
          (q.0 ≡ ok tt) × (q.1.file ≡ w.file ++ encode r) × (q.1.mode ≡ w.mode)
    by_mode sync_interval e = absurd (t.direct e)
    by_mode sync_always e =
        rw (le→ltb_false disk.written (length (encode r)) t.room, whole, e, t.syncs)
          (refl, refl, refl)
    by_mode sync_none e =
        rw (le→ltb_false disk.written (length (encode r)) t.room, whole, e) (refl, refl, refl)

-- What an operation that logs `r` does to a plain store, besides the entries.
pub record Logs (r : Wal.Record) (kv kv' : KvStore) : Type 0 where
  pub plain_store : IsPlainStore kv'
  pub file : kv'.wal.file ≡ kv.wal.file ++ encode r
  pub mode : kv'.wal.mode ≡ kv.wal.mode

with_plain_wal : (w : Wal) (kv : KvStore) → IsPlainStore kv → IsPlainStore (record kv { wal = w })
with_plain_wal w kv h = record { ready = with_wal w kv h.ready; plain = h.plain }

log-at_shard :
    {A : Type 0} (key : Bytes) (f : Shard → Outcome StoreError A × Shard) (kv : KvStore)
    → (at_shard key f kv).1.wal ≡ kv.wal
unfolding at_shard
log-at_shard key f kv = elim (Bool-cases (kv.shard_count == 0)) [
  | inl e ↦ rw e refl
  | inr e ↦ rw e refl
]

-- The rest of a write, once the log has taken its record.
Logs-at_shard :
    (r : Wal.Record) (key : Bytes) (f : Shard → Outcome StoreError Unit × Shard)
    → ((sh : Shard) → IsSound sh → IsSound (f sh).1)
    → ((sh : Shard) → IsPlain sh → IsPlain (f sh).1)
    → (kv : KvStore) (w : Wal) → IsPlainStore kv
    → w.file ≡ kv.wal.file ++ encode r
    → w.mode ≡ kv.wal.mode
    → Logs r kv (at_shard key f (record kv { wal = w })).1
Logs-at_shard r key f sound plain kv w h e m = record {
  plain_store = IsPlainStore-at_shard key f sound plain _ (with_plain_wal w kv h);
  file = ap (λ x. x.file) (log-at_shard key f (record kv { wal = w })) ∙ e;
  mode = ap (λ x. x.mode) (log-at_shard key f (record kv { wal = w })) ∙ m;
}

after_log_ok :
    {A : Type 0} (f : KvStore → Outcome StoreError A × KvStore) (kv : KvStore)
    (q : Outcome WalError Unit × Wal)
    → q.0 ≡ ok tt
    → after_log f kv q ≡ f (record kv { wal = q.1 })
unfolding after_log
after_log_ok f kv (ok tt, w) e = refl
after_log_ok f kv (err x, w) e = absurd (cc e)
after_log_ok f kv (panic, w) e = absurd (cc e)

-- The records of the two writes.
abbrev pub set_record : Bytes → Bytes → Time → Wal.Record
set_record key value expired_at = record {
  op = op_set;
  key = key;
  value = value;
  expires_at = expired_at;
}

abbrev pub delete_record : Bytes → Wal.Record
delete_record key = record { op = op_delete; key = key; value = []; expires_at = 0 }

module _ (disk : Disk) (kv : KvStore) (h : IsPlainStore kv) where
  module _ (range : RangeOrder) (now : Time) (key value : Bytes) (expired_at : Time) where
    abbrev written : Record
    written = record { value = value; created_at = now; expired_at = expired_at }

    -- A set is made: nothing refuses it, and no other entry is lost.
    pub set-Logs :
        Takes disk (set_record key value expired_at) kv.wal
        → let q = set_with_expiry disk range now key value expired_at kv in
          (q.0 ≡ ok tt)
          × Logs (set_record key value expired_at) kv q.1
          × ((j : Bytes) → find j q.1 ≡ (if bytes_eq key j then some written else find j kv))
    unfolding set_with_expiry append_set
    set-Logs t =
        let a = append-Takes disk (set_record key value expired_at) kv.wal t in
        let w = (append disk (set_record key value expired_at) kv.wal).1 in
        let f = shard_set range key written in
        let sound = λ (sh : Shard) (s : IsSound sh). shard_set-IsSound range key written sh s in
        let plain = λ (sh : Shard) (p : IsPlain sh). (shard_set-IsPlain range key written sh p).1 in
        rw
          (after_log_ok (at_shard key f) kv (append disk (set_record key value expired_at) kv.wal)
            a.0)
          (
            result-at_plain key f sound plain (record kv { wal = w }) (with_plain_wal w kv h)
                (λ x r y. r ≡ ok tt) (λ sh p. (shard_set-IsPlain range key written sh p).0),
            Logs-at_shard (set_record key value expired_at) key f sound plain kv w h a.1 a.2,
            λ j.
                find-at_plain key f sound plain (record kv { wal = w }) (with_plain_wal w kv h)
                  (λ x r y. y ≡ (if bytes_eq key j then some written else x)) j (λ d x r. rw d refl)
                  (λ sh p. (shard_set-IsPlain range key written sh p).2 j),
          )

  module _ (key : Bytes) where
    pub delete-Logs :
        Takes disk (delete_record key) kv.wal
        → let q = delete disk key kv in
          (q.0 ≡ deleted (find key kv))
          × Logs (delete_record key) kv q.1
          × ((j : Bytes) → find j q.1 ≡ (if bytes_eq key j then none else find j kv))
    unfolding delete append_delete
    delete-Logs t =
        let a = append-Takes disk (delete_record key) kv.wal t in
        let w = (append disk (delete_record key) kv.wal).1 in
        let f = shard_delete key in
        let sound = shard_delete-IsSound key in
        let plain = shard_delete-IsPlain key in
        rw (after_log_ok (at_shard key f) kv (append disk (delete_record key) kv.wal) a.0) (
          result-at_plain key f sound plain (record kv { wal = w }) (with_plain_wal w kv h)
              (λ x r y. r ≡ deleted x) (λ sh p. (shard_delete-lookup key sh).0),
          Logs-at_shard (delete_record key) key f sound plain kv w h a.1 a.2,
          λ j.
              find-at_plain key f sound plain (record kv { wal = w }) (with_plain_wal w kv h)
                (λ x r y. y ≡ (if bytes_eq key j then none else x)) j (λ d x r. rw d refl)
                (λ sh p. (shard_delete-lookup key sh).1 j),
        )

    -- A read answers by the entry, and leaves the store and its log as they were.
    pub get-Logs :
        (now : Time)
        → let q = get now key kv in
          (q.0 ≡ reply now (find key kv))
          × IsPlainStore q.1
          × (q.1.wal ≡ kv.wal)
          × ((j : Bytes) → find j q.1 ≡ find j kv)
    unfolding get
    get-Logs now =
        let f = shard_get now key in
        let sound = shard_get-IsSound now key in
        let plain = shard_get-IsPlain now key in
        (
          get-reply now key kv h.ready,
          IsPlainStore-at_shard key f sound plain kv h,
          log-at_shard key f kv,
          λ j.
              find-at_plain key f sound plain kv h (λ x r y. y ≡ x) j (λ d x r. refl)
                (λ sh p. ap (λ m. lookup j m.records) (shard_get-reply now key sh).1),
        )
