-- ===== src/Store/KvStore/Reads.antt =====
-- Reads after writes and deletes.
use keva.Prelude.{
  if◌then◌else◌, subst, bytes_eq→eq, ◌≡◌, ◌≢◌, ◌⊎◌, inl, inr, refl, ap, sym, ◌∙◌, false, Bool-cases,
  none, some, Bytes, bytes_eq, length, ltb, Outcome, ok, err, panic,
}
use keva.Map.{lookup}
use keva.Time.{Time, after}
use keva.Shard.{Record, RangeOrder}
use keva.Wal.{encode}
use keva.Wal
use keva.Wal.Writer.{
  SyncMode, sync_always, sync_interval, sync_none, append_by_mode, Wal, WalError, Disk, append,
  write_direct, finish_write, sync_file, append_set,
}
use keva.Store.{Shard, StoreError, key_not_found, memory_full, shard_set, shard_get}
use keva.Store.Soundness.{shard_set-IsSound, shard_get-IsSound}
use keva.Store.Contents.{Wrote, shard_set-Wrote, reply, shard_get-reply}
use keva.Store.KvStore.{KvStore, at_shard, after_log, set_with_expiry, get}
use keva.Store.KvStore.Sharding.{IsReady, find, IsReady-at_shard, find-at_shard, result-at_shard}

-- `Get` returns the value of the key's entry, if that has not expired.
pub get-reply :
    (now : Time) (key : Bytes) (kv : KvStore)
    → IsReady kv
    → (get now key kv).0 ≡ reply now (find key kv)
unfolding get
get-reply now key kv h =
    result-at_shard (shard_get now key) key kv h (λ x r y. r ≡ reply now x)
      (λ sh s. (shard_get-reply now key sh).0)

-- `Get` leaves a store in order.
pub get-IsReady :
    (now : Time) (key : Bytes) (kv : KvStore) → IsReady kv → IsReady (get now key kv).1
unfolding get
get-IsReady now key kv h = IsReady-at_shard (shard_get now key) key kv h (shard_get-IsSound now key)

-- What a logged write of `key` does to the store.
pub record Written (key : Bytes) (rec : Record) (kv : KvStore) (r : Outcome StoreError Unit)
    (kv' : KvStore) : Type 0 where
  pub ready : IsReady kv'
  pub no_panic : r ≢ panic
  pub stored : r ≡ ok tt → find key kv' ≡ some rec
  pub unchanged : r ≢ ok tt → (j : Bytes) → find j kv' ≡ find j kv
  pub others : (j : Bytes) → bytes_eq key j ≡ false → (find j kv' ≡ find j kv) ⊎ (find j kv' ≡ none)

-- A write by its result: the other entries, which an eviction policy may have dropped, included.
pub data SetOutcome (key : Bytes) (rec : Record) (kv : KvStore) (r : Outcome StoreError Unit)
    (kv' : KvStore) : Type 0 where
  stored :
      r ≡ ok tt
      → ((j : Bytes)
          → (find j kv' ≡ (if bytes_eq key j then some rec else find j kv))
            ⊎ ((bytes_eq key j ≡ false) × (find j kv' ≡ none)))
      → SetOutcome key rec kv r kv'
  refused :
      (e : StoreError)
      → r ≡ err e
      → ((j : Bytes) → find j kv' ≡ find j kv)
      → SetOutcome key rec kv r kv'

outcome-Written :
    {key : Bytes} {rec : Record} {kv kv' : KvStore} (r : Outcome StoreError Unit)
    → Written key rec kv r kv'
    → SetOutcome key rec kv r kv'
outcome-Written (err e) w = refused e refl (w.unchanged (λ q. cc q))
outcome-Written panic w = absurd (w.no_panic refl)
outcome-Written {key} {rec} {kv} {kv'} (ok tt) w = stored refl λ j.
    elim (Bool-cases (bytes_eq key j)) [
      | inl q ↦
          inl (rw q (subst (λ x. find x kv' ≡ some rec) (bytes_eq→eq key j q) (w.stored refl)))
      | inr q ↦ elim (w.others j q) [ inl kept ↦ inl (rw q kept) | inr gone ↦ inr (q, gone) ]
    ]

-- the store with another state of its log
pub with_wal : (w : Wal) (kv : KvStore) → IsReady kv → IsReady (record kv { wal = w })
with_wal w kv h = record { some_shards = h.some_shards; all_there = h.all_there; sound = h.sound }

module _ (range : RangeOrder) (key : Bytes) (rec : Record) where
  Written-at_shard :
      (kv : KvStore)
      → IsReady kv
      → let r = at_shard key (shard_set range key rec) kv in Written key rec kv r.0 r.1
  Written-at_shard kv h = record {
    ready = IsReady-at_shard f key kv h (λ sh s. shard_set-IsSound range key rec sh s);
    no_panic =
        result-at_shard f key kv h (λ x r y. r ≢ panic)
          λ sh s. not_panic _ (shard_set-Wrote range key rec sh s).result;
    stored =
        result-at_shard f key kv h (λ x r y. r ≡ ok tt → y ≡ some rec)
          λ sh s. (shard_set-Wrote range key rec sh s).written;
    unchanged = λ e j.
        find-at_shard f key kv h (λ x r y. r ≢ ok tt → y ≡ x) j (λ x r n. refl)
          (λ sh s n. not_ok _ (shard_set-Wrote range key rec sh s) n j) e;
    others = λ j other.
        find-at_shard f key kv h (λ x r y. (y ≡ x) ⊎ (y ≡ none)) j (λ x r. inl refl)
          (λ sh s. (shard_set-Wrote range key rec sh s).others j other);
  }
    where
      f : Shard → Outcome StoreError Unit × Shard
      f = shard_set range key rec

      not_panic : (r : Outcome StoreError Unit) → (r ≡ ok tt) ⊎ (r ≡ err memory_full) → r ≢ panic
      not_panic r (inl e) p = cc (e, p)
      not_panic r (inr e) p = cc (e, p)

      not_ok :
          {sh t : Shard} (r : Outcome StoreError Unit)
          → Wrote key rec sh r t
          → r ≢ ok tt
          → (j : Bytes) → lookup j t.memory.records ≡ lookup j sh.memory.records
      not_ok r w n = elim w.result [ inl e ↦ absurd (n e) | inr e ↦ w.rejected e ]

  -- A write that the log does not take changes no entry.
  Written-after_log :
      (kv : KvStore) (r : Outcome WalError Unit) (w : Wal)
      → r ≢ panic
      → IsReady kv
      → let q = after_log (at_shard key (shard_set range key rec)) kv (r, w) in
        Written key rec kv q.0 q.1
  unfolding after_log
  Written-after_log kv (ok tt) w n h =
      let x = Written-at_shard (record kv { wal = w }) (with_wal w kv h) in
      record {
        ready = x.ready;
        no_panic = x.no_panic;
        stored = x.stored;
        unchanged = x.unchanged;
        others = x.others;
      }
  Written-after_log kv (err e) w n h = record {
    ready = with_wal w kv h;
    no_panic = λ p. cc p;
    stored = λ p. absurd (cc p);
    unchanged = λ p j. refl;
    others = λ j other. inl refl;
  }
  Written-after_log kv panic w n h = absurd (n refl)

-- The log does not panic.
finish_write-no_panic : (disk : Disk) (m : SyncMode) (w : Wal) → (finish_write disk m w).0 ≢ panic
unfolding finish_write sync_file
finish_write-no_panic disk sync_always w = elim (Bool-cases disk.sync_ok) [
  | inl e ↦ rw e (λ p. cc p)
  | inr e ↦ rw e (λ p. cc p)
]
finish_write-no_panic disk sync_interval w = λ p. cc p
finish_write-no_panic disk sync_none w = λ p. cc p

write_direct-no_panic : (disk : Disk) (buf : Bytes) (w : Wal) → (write_direct disk buf w).0 ≢ panic
unfolding write_direct
write_direct-no_panic disk buf w = elim (Bool-cases (ltb disk.written (length buf))) [
  | inl e ↦ rw e (λ p. cc p)
  | inr e ↦ rw e (finish_write-no_panic disk w.mode _)
]

append_by_mode-no_panic :
    (disk : Disk) (buf : Bytes) (m : SyncMode) (w : Wal) → (append_by_mode disk buf m w).0 ≢ panic
unfolding append_by_mode
append_by_mode-no_panic disk buf sync_interval w = λ p. cc p
append_by_mode-no_panic disk buf sync_always w = write_direct-no_panic disk buf w
append_by_mode-no_panic disk buf sync_none w = write_direct-no_panic disk buf w

pub append-no_panic : (disk : Disk) (r : Wal.Record) (w : Wal) → (append disk r w).0 ≢ panic
unfolding append
append-no_panic disk r w = append_by_mode-no_panic disk (encode r) w.mode w

module _ (disk : Disk) (range : RangeOrder) (now : Time) (key value : Bytes) (expired_at : Time)
    (kv : KvStore) (ready : IsReady kv) where
  -- The result, and the entries by it.
  pub set_with_expiry-Written :
      Written key
        (record { value = value; created_at = now; expired_at = expired_at })
        kv
        (set_with_expiry disk range now key value expired_at kv).0
        (set_with_expiry disk range now key value expired_at kv).1
  unfolding set_with_expiry append_set
  set_with_expiry-Written =
      Written-after_log range key
        (record { value = value; created_at = now; expired_at = expired_at }) kv _ _
        (append-no_panic disk _ kv.wal) ready

  -- SetWithExpiry on a store in order leaves one in order. It returns nil, and then the key has
  -- the new entry, and another key keeps its entry or has lost it to the eviction policy; or it
  -- returns an error, and no entry has changed. It does not panic.
  pub set_with_expiry-SetOutcome :
      let q = set_with_expiry disk range now key value expired_at kv in
      IsReady q.1
      × SetOutcome key
          (record { value = value; created_at = now; expired_at = expired_at })
          kv
          q.0
          q.1
  set_with_expiry-SetOutcome =
      (set_with_expiry-Written.ready, outcome-Written _ set_with_expiry-Written)

  -- On a store in order, a value whose write returned nil is read back until it expires.
  pub get-set_with_expiry :
      (later : Time)
      → (set_with_expiry disk range now key value expired_at kv).0 ≡ ok tt
      → after later expired_at ≡ false
      → (get later key (set_with_expiry disk range now key value expired_at kv).1).0 ≡ ok value
  get-set_with_expiry later e fresh =
      get-reply later key _ set_with_expiry-Written.ready
      ∙ ap (reply later) (set_with_expiry-Written.stored e)
      ∙ rw fresh refl

  -- On a store in order, a read of another key gives after a write what it gave before, or does
  -- not find the key, which is then evicted.
  pub get-set_with_expiry_other :
      (later : Time) (j : Bytes)
      → bytes_eq key j ≡ false
      → let t = (set_with_expiry disk range now key value expired_at kv).1 in
        ((get later j t).0 ≡ (get later j kv).0) ⊎ ((get later j t).0 ≡ err key_not_found)
  get-set_with_expiry_other later j other =
      let read = get-reply later j _ set_with_expiry-Written.ready in
      elim (set_with_expiry-Written.others j other) [
        | inl e ↦ inl (read ∙ ap (reply later) e ∙ sym (get-reply later j kv ready))
        | inr e ↦ inr (read ∙ ap (reply later) e)
      ]
