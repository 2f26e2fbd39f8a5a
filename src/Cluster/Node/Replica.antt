-- ===== src/Cluster/Node/Replica.antt =====
-- A write on a node, and on the followers that apply its sync.
use keva.Prelude.{
  ◌⊎◌, ℕ, ◌+◌, ◌%◌, ◌^◌, Option, none, some, ltb, if◌then◌else◌, ◌≡◌, ◌≢◌, inl, inr, refl, sym, ap,
  ◌∙◌, Bool, Bool-cases, Bytes, ◌==◌, Outcome, ok, err, panic,
}
use keva.Time.{Time, time_unix, unix_nano}
use keva.Shard.{RangeOrder}
use keva.Wal.{op_set, op_delete}
use keva.Wal.Writer.{Disk}
use keva.Store.{StoreError}
use keva.Store.KvStore.{KvStore, set_with_expiry, get}
use keva.Store.KvStore.Sharding.{IsReady, find}
use keva.Store.KvStore.Reads.{get-reply, set_with_expiry-Written}
use keva.Store.KvStore.Deletes.{delete-Deleted}
use keva.Protocol.Cluster.{ReplicationSync}
use keva.Cluster.Node.{
  Node, Leader, after_write, node_set, node_get, expiry, survived, apply_sync, set_sync, broadcast,
  broadcast_if,
}
use keva.Cluster.Node.Sent.{
  find_follower, sent_to, find_follower-send_all, Deadline, expiry-Deadline,
}
use keva.Store.Contents.{reply, deleted}
use keva.Shard.{Record}
use keva.Wal.Writer.{WalError}
use keva.Store.{key_not_found, wal_error}

-- What the node keeps of an operation on its store, and what it sends.
pub after_write-lem :
    (alive : Bytes → Bool) (make : ℕ → ReplicationSync) (n : Node) (r : Outcome StoreError Unit)
    (kv : KvStore)
    → let (q, m) = after_write alive make n (r, kv) in
      (q ≡ r)
      × (m.db ≡ kv)
      × ((r ≡ ok tt → m.leader ≡ broadcast_if alive make n.leader)
          × (r ≢ ok tt → m.leader ≡ n.leader))
unfolding after_write
after_write-lem alive make n (ok tt) kv = (refl, refl, (λ e. refl, λ e. absurd (e refl)))
after_write-lem alive make n (err x) kv = (refl, refl, (λ e. absurd (cc e), λ e. refl))
after_write-lem alive make n panic kv = (refl, refl, (λ e. absurd (cc e), λ e. refl))

ok_or_not : (r : Outcome StoreError Unit) → (r ≡ ok tt) ⊎ (r ≢ ok tt)
ok_or_not (ok tt) = inl refl
ok_or_not (err e) = inr (λ q. cc q)
ok_or_not panic = inr (λ q. cc q)

module _ (disk : Disk) (range : RangeOrder) (alive : Bytes → Bool) (now later : Time)
    (key value : Bytes) (ttl : ℕ) (n : Node) (t : Time)
    (deadline : Deadline now ttl n.default_ttl t) where
  abbrev done : Outcome StoreError Unit × KvStore
  done = set_with_expiry disk range later key value (expiry now ttl n.default_ttl) n.db

  -- After a set that returned nil, a node whose store was in order reads the value back up to the
  -- deadline, and no value after it: the deadline is the time to live asked for after the set, if
  -- that is positive as an int64, and the default one, which is not negative, after it otherwise.
  pub node_get-node_set :
      (when : Time)
      → IsReady n.db
      → (node_set disk range alive now later key value ttl n).0 ≡ ok tt
      → (node_get when key (node_set disk range alive now later key value ttl n).1).0
        ≡ (if ltb t when then err key_not_found else ok value)
  unfolding node_get node_set
  node_get-node_set when ready e =
      let x = expiry now ttl n.default_ttl in
      let (q, db, sent) = after_write-lem alive (set_sync key value x) n done.0 done.1 in
      let w = set_with_expiry-Written disk range later key value x n.db ready in
      ap (λ kv. (get when key kv).0) db
      ∙ get-reply when key done.1 w.ready
      ∙ ap (reply when) (w.stored (sym q ∙ e))
      ∙ ap (λ u. if ltb u when then err key_not_found else ok value)
          (expiry-Deadline now ttl n.default_ttl t deadline)

  -- the sync of the set, with the next index
  abbrev pub sync_after : Leader → ReplicationSync
  sync_after l = record {
    log_index = (l.log_index + 1) % 2 ^ 64;
    op = op_set;
    key = key;
    value = value;
    expires_at = unix_nano t;
  }

  -- What the leader's part is after a broadcast of the set.
  pub record Broadcasted (l l' : Leader) : Type 0 where
    pub index : l'.log_index ≡ (l.log_index + 1) % 2 ^ 64
    pub reached :
        (addr : Bytes)
        → find_follower addr l'.followers
          ≡ (if alive addr then sent_to (sync_after l) (find_follower addr l.followers) else none)

  broadcast-Broadcasted :
      (l : Leader)
      → Broadcasted l (broadcast alive (set_sync key value (expiry now ttl n.default_ttl)) l)
  unfolding broadcast
  broadcast-Broadcasted l = record {
    index = refl;
    reached = λ addr.
        rw (expiry-Deadline now ttl n.default_ttl t deadline)
          (find_follower-send_all alive (sync_after l) addr l.followers);
  }

  -- A node that leads sends a set to its followers if and only if its own store took it. If it
  -- returns nil, the index has gone up by one, modulo 2 ^ 64, and each follower, wherever it is in
  -- the list, has been written one more sync, with that index, the key, the value and the 64 bits
  -- of the deadline's nanoseconds since 1970, or is no longer there if the write to it failed. If
  -- it does not return nil, the Leader is as it was. The deadline is the time to live asked for
  -- after the set, if that is positive as an int64, and the default one, which is not negative,
  -- after it otherwise.
  pub leader-node_set :
      (l : Leader)
      → n.leader ≡ some l
      → let m = node_set disk range alive now later key value ttl n in
        ((m.0 ≡ ok tt) × (l' : Leader) × (m.1.leader ≡ some l') × Broadcasted l l')
        ⊎ ((m.0 ≢ ok tt) × (m.1.leader ≡ some l))
  unfolding node_set broadcast_if
  leader-node_set l leads =
      let x = expiry now ttl n.default_ttl in
      let (q, db, sent) = after_write-lem alive (set_sync key value x) n done.0 done.1 in
      elim (ok_or_not done.0) [
        | inl e ↦ inl (
          q ∙ e,
          broadcast alive (set_sync key value x) l,
          sent.0 e ∙ ap (broadcast_if alive (set_sync key value x)) leads,
          broadcast-Broadcasted l,
        )
        | inr e ↦ inr (λ g. e (sym q ∙ g), sent.1 e ∙ leads)
      ]

pub survived-no_panic :
    (r : Outcome StoreError Unit) (kv : KvStore) → r ≢ panic → survived (r, kv) ≡ some kv
unfolding survived
survived-no_panic (ok tt) kv n = refl
survived-no_panic (err e) kv n = refl
survived-no_panic panic kv n = absurd (n refl)

-- A sync has been applied without a panic, and the store is in order.
pub record Applied (r : Option KvStore) : Type 0 where
  pub store : KvStore
  pub is : r ≡ some store
  pub ready : IsReady store

no_panic_of : (r s : Outcome StoreError Unit) → s ≢ panic → r ≡ s → r ≢ panic
no_panic_of r s n e p = n (sym e ∙ p)

deleted-no_panic : (x : Option Record) → deleted x ≢ panic
deleted-no_panic none = λ e. cc e
deleted-no_panic (some r) = λ e. cc e

module _ (disk : Disk) (range : RangeOrder) (now : Time) (kv : KvStore) (ready : IsReady kv) where
  -- Whatever sync a follower gets, one with an unknown operation or for a missing key included, a
  -- store in order stays in order.
  pub apply_sync-Applied : (m : ReplicationSync) → Applied (apply_sync disk range now m kv)
  unfolding apply_sync
  apply_sync-Applied m = elim (Bool-cases (m.op == op_set)) [
    | inl set ↦
        let w =
          set_with_expiry-Written disk range now m.key m.value (time_unix m.expires_at) kv ready in
        rw set (record { store = _; is = survived-no_panic _ _ w.no_panic; ready = w.ready })
    | inr not_set ↦ elim (Bool-cases (m.op == op_delete)) [
      | inl del ↦
          let d = delete-Deleted disk m.key kv ready in
          rw (not_set, del)
            (record { store = _; is = survived-no_panic _ _ (fine d.result); ready = d.ready })
      | inr unknown ↦ rw (not_set, unknown) (record { store = kv; is = refl; ready = ready })
    ]
  ]
    where
      fine :
          {r : Outcome StoreError Unit}
          → (r ≡ deleted (find m.key kv)) ⊎ ((e : WalError) × (r ≡ err (wal_error e)))
          → r ≢ panic
      fine {r} (inl e) = no_panic_of r _ (deleted-no_panic (find m.key kv)) e
      fine {r} (inr (x, e)) = no_panic_of r _ (λ q. cc q) e
