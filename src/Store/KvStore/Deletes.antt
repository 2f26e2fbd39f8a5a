-- ===== src/Store/KvStore/Deletes.antt =====
-- Deletes, and reads after them.
use keva.Shard.{Record}
use keva.Prelude.{
  some, sym, Bool-cases, bytes_eq→eq, ◌≡◌, ◌≢◌, ◌⊎◌, inl, inr, refl, ap, ◌∙◌, false, Option-cases,
  none, Bytes, bytes_eq, bytes_eq_refl, bytes_eq_iff, arith, if◌then◌else◌, Outcome, ok, err, panic,
}
use keva.Map.{lookup}
use keva.Time.{Time}
use keva.Wal.Writer.{Wal, WalError, Disk, append_delete}
use keva.Store.{Shard, StoreError, key_not_found, wal_error, shard_delete}
use keva.Store.Soundness.{shard_delete-IsSound}
use keva.Store.Contents.{deleted, reply, shard_delete-lookup}
use keva.Store.KvStore.{KvStore, at_shard, after_log, get, delete}
use keva.Store.KvStore.Sharding.{IsReady, find, IsReady-at_shard, find-at_shard, result-at_shard}
use keva.Store.KvStore.Reads.{with_wal, append-no_panic, get-reply}

-- What a delete does to the store.
pub record Deleted (key : Bytes) (kv : KvStore) (r : Outcome StoreError Unit) (kv' : KvStore)
    : Type 0 where
  pub ready : IsReady kv'
  pub result : (r ≡ deleted (find key kv)) ⊎ ((e : WalError) × (r ≡ err (wal_error e)))
  pub gone : r ≡ ok tt → find key kv' ≡ none
  pub unchanged : r ≢ ok tt → (j : Bytes) → find j kv' ≡ find j kv
  pub others : (j : Bytes) → bytes_eq key j ≡ false → find j kv' ≡ find j kv

-- A delete by its result.
pub data DeleteOutcome (key : Bytes) (kv : KvStore) (r : Outcome StoreError Unit) (kv' : KvStore)
    : Type 0 where
  removed :
      (rec : Record)
      → find key kv ≡ some rec
      → r ≡ ok tt
      → ((j : Bytes) → find j kv' ≡ (if bytes_eq key j then none else find j kv))
      → DeleteOutcome key kv r kv'
  missing :
      find key kv ≡ none
      → r ≡ err key_not_found
      → ((j : Bytes) → find j kv' ≡ find j kv)
      → DeleteOutcome key kv r kv'
  unlogged :
      (e : WalError)
      → r ≡ err (wal_error e)
      → ((j : Bytes) → find j kv' ≡ find j kv)
      → DeleteOutcome key kv r kv'

outcome-Deleted :
    {key : Bytes} {kv kv' : KvStore} {r : Outcome StoreError Unit}
    → Deleted key kv r kv'
    → DeleteOutcome key kv r kv'
outcome-Deleted {key} {kv} {kv'} {r} d = elim d.result [
  | inr (e, q) ↦ unlogged e q (d.unchanged (λ h. cc (q, h)))
  | inl q ↦ elim (Option-cases (find key kv)) [
    | inl none_there ↦
        let f : r ≡ err key_not_found = q ∙ ap deleted none_there in
        missing none_there f (d.unchanged (λ h. cc (f, h)))
    | inr (rec, there) ↦
        let f : r ≡ ok tt = q ∙ ap deleted there in
        removed rec there f λ j. elim (Bool-cases (bytes_eq key j)) [
          | inl e ↦ rw e (ap (λ x. find x kv') (sym (bytes_eq→eq key j e)) ∙ d.gone f)
          | inr e ↦ rw e (d.others j e)
        ]
  ]
]

-- an entry that is not there is not there after it is taken out
not_there :
    (key j : Bytes) (sh : Shard)
    → deleted (lookup key sh.memory.records) ≢ ok tt
    → (if bytes_eq key j then none else lookup j sh.memory.records) ≡ lookup j sh.memory.records
not_there key j sh n = elim (Option-cases (lookup key sh.memory.records)) [
  | inl e ↦ ground (arith, bytes_eq_iff key j, e)
  | inr (rec, e) ↦ absurd (n (rw e refl))
]

module _ (key : Bytes) where
  Deleted-at_shard :
      (kv : KvStore)
      → IsReady kv
      → let r = at_shard key (shard_delete key) kv in Deleted key kv r.0 r.1
  Deleted-at_shard kv h = record {
    ready = IsReady-at_shard f key kv h (shard_delete-IsSound key);
    result = inl (
        result-at_shard f key kv h (λ x r y. r ≡ deleted x) λ sh s. (shard_delete-lookup key sh).0);
    gone = λ e.
        result-at_shard f key kv h (λ x r y. y ≡ none)
          λ sh s. (shard_delete-lookup key sh).1 key ∙ rw (bytes_eq_refl key) refl;
    unchanged = λ n j.
        find-at_shard f key kv h (λ x r y. r ≢ ok tt → y ≡ x) j (λ x r k. refl)
          (λ sh s k.
            (shard_delete-lookup key sh).1 j
            ∙ not_there key j sh (λ q. k ((shard_delete-lookup key sh).0 ∙ q)))
          n;
    others = λ j other.
        find-at_shard f key kv h (λ x r y. y ≡ x) j (λ x r. refl)
          λ sh s. (shard_delete-lookup key sh).1 j ∙ rw other refl;
  }
    where
      f : Shard → Outcome StoreError Unit × Shard
      f = shard_delete key

  Deleted-after_log :
      (kv : KvStore) (r : Outcome WalError Unit) (w : Wal)
      → r ≢ panic
      → IsReady kv
      → let q = after_log (at_shard key (shard_delete key)) kv (r, w) in Deleted key kv q.0 q.1
  unfolding after_log
  Deleted-after_log kv (ok tt) w n h =
      let x = Deleted-at_shard (record kv { wal = w }) (with_wal w kv h) in
      record {
        ready = x.ready;
        result = x.result;
        gone = x.gone;
        unchanged = x.unchanged;
        others = x.others;
      }
  Deleted-after_log kv (err e) w n h = record {
    ready = with_wal w kv h;
    result = inr (e, refl);
    gone = λ p. absurd (cc p);
    unchanged = λ p j. refl;
    others = λ j other. refl;
  }
  Deleted-after_log kv panic w n h = absurd (n refl)

module _ (disk : Disk) (key : Bytes) (kv : KvStore) (ready : IsReady kv) where
  -- The result, and the entries by it.
  pub delete-Deleted : Deleted key kv (delete disk key kv).0 (delete disk key kv).1
  unfolding delete append_delete
  delete-Deleted = Deleted-after_log key kv _ _ (append-no_panic disk _ kv.wal) ready

  -- Delete on a store in order leaves one in order. It returns nil for a key that has an entry,
  -- expired or not, and takes out that entry and no other; it returns the error for a missing key
  -- without one, or the log's error, and then changes no entry. It does not panic.
  pub delete-DeleteOutcome :
      let q = delete disk key kv in IsReady q.1 × DeleteOutcome key kv q.0 q.1
  delete-DeleteOutcome = (delete-Deleted.ready, outcome-Deleted delete-Deleted)

  -- On a store in order, a key whose delete returned nil is not found.
  pub get-delete :
      (later : Time)
      → (delete disk key kv).0 ≡ ok tt
      → (get later key (delete disk key kv).1).0 ≡ err key_not_found
  get-delete later e =
      get-reply later key _ delete-Deleted.ready ∙ ap (reply later) (delete-Deleted.gone e)
