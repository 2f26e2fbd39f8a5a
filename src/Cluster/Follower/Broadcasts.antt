-- ===== src/Cluster/Follower/Broadcasts.antt =====
-- One broadcast of a leader: the follower that it reaches, and what its sync does there.
use keva.Prelude.{
  suc, ap, ℕ, ◌+◌, ◌%◌, ◌^◌, ◌≤◌, ◌≡◌, ◌≢◌, refl, subst, ◌∙◌, true, Bool, Bool-cases, inl, inr,
  Option, none, some, [], ◌∷◌, ◌++◌, Bytes, All, length, bytes_eq, bytes_eq→eq, Outcome, ok, err,
  panic,
}
use keva.Time.{Time, InUnixRange, time_unix-unix_nano}
use keva.Wal.{encode}
use keva.Wal.Writer.{Disk}
use keva.Store.{StoreError, key_not_found}
use keva.Store.KvStore.{KvStore, set_with_expiry, delete}
use keva.Store.KvStore.History.{
  answer_delete, Op, put, del, wrote, Contents, promise, log_of, Holds, DiskTakes, perform-Kept,
  All-split,
}
use keva.Protocol.Cluster.{ReplicationSync}
use keva.Cluster.Node.{
  Node, Leader, Follower, after_write, broadcast_if, broadcast, survived, apply_sync, set_sync,
  delete_sync,
}
use keva.Cluster.Node.Sent.{find_follower, find_follower-send_all}
use keva.Cluster.Node.Replica.{survived-no_panic}
use keva.Cluster.Follower.{Local}
use keva.Cluster.Follower.Applied.{apply_syncs}

-- A broadcast reaches the follower with an address, if the connection to it is alive.
pub record Reached (addr : Bytes) (f : Follower) (sync : ReplicationSync) (l' : Option Leader)
    : Type 0 where
  pub leader : Leader
  pub is_leader : l' ≡ some leader
  pub follower : Follower
  pub found : find_follower addr leader.followers ≡ some follower
  pub sent : follower.sent ≡ f.sent ++ (sync ∷ [])

pub broadcast-Reached :
    (alive : Bytes → Bool) (to_sync : ℕ → ReplicationSync) (l : Leader) (addr : Bytes)
    (f : Follower)
    → find_follower addr l.followers ≡ some f
    → alive addr ≡ true
    → Reached addr f (to_sync ((l.log_index + 1) % 2 ^ 64)) (broadcast_if alive to_sync (some l))
unfolding broadcast_if broadcast
broadcast-Reached alive to_sync l addr f e up =
    let sync = to_sync ((l.log_index + 1) % 2 ^ 64) in
    record {
      leader = broadcast alive to_sync l;
      is_leader = refl;
      follower = record f { sent = f.sent ++ (sync ∷ []) };
      found = find_follower-send_all alive sync addr l.followers ∙ rw (up, e) refl;
      sent = refl;
    }

pub default_ttl-after_write :
    (alive : Bytes → Bool) (to_sync : ℕ → ReplicationSync) (n : Node)
    (q : Outcome StoreError Unit × KvStore)
    → (after_write alive to_sync n q).1.default_ttl ≡ n.default_ttl
unfolding after_write
default_ttl-after_write alive to_sync n (ok tt, kv) = refl
default_ttl-after_write alive to_sync n (err e, kv) = refl
default_ttl-after_write alive to_sync n (panic, kv) = refl

pub wrote_ok : (r : Outcome StoreError Unit) → wrote r ≡ wrote (ok tt) → r ≡ ok tt
wrote_ok r e = cc e

pub one_op :
    (disk : Disk) (o : Op)
    → DiskTakes disk (o ∷ [])
    → All (λ r. length (encode r) ≤ disk.written) (log_of o)
one_op disk o d = (All-split _ (log_of o) [] d.room).0

-- A delete of a key that is not there changes nothing.
pub Holds-absent :
    (key : Bytes) (kv : KvStore) (m : Contents)
    → m key ≡ none
    → Holds kv m
    → Holds kv (promise (del key) m).1
Holds-absent key kv m gone h = record {
  plain_store = h.plain_store;
  direct = h.direct;
  holds = λ j. h.holds j ∙ elim (Bool-cases (bytes_eq key j)) [
    | inl e ↦ rw e (subst (λ x. m x ≡ none) (bytes_eq→eq key j e) gone)
    | inr e ↦ rw e refl
  ];
}

pub wrote_missing : (r : Outcome StoreError Unit) → wrote r ≡ wrote (err key_not_found) → r ≢ ok tt
wrote_missing r e q = cc (e, q)

-- A store that has taken syncs without a panic holds a map.
pub record Took (r : Option KvStore) (m : Contents) : Type 0 where
  pub store : KvStore
  pub is : r ≡ some store
  pub holds : Holds store m

answer_no_panic :
    (r : Outcome StoreError Unit) (x : Option (Bytes × Time))
    → wrote r ≡ wrote (answer_delete x)
    → r ≢ panic
answer_no_panic r none e p = cc (e, p)
answer_no_panic r (some y) e p = cc (e, p)

-- A follower's store after the sync of a write.
pub set-applied :
    (loc : Local) (i : ℕ) (kv : KvStore) (key value : Bytes) (later t : Time) (index : ℕ)
    (m : Contents)
    → DiskTakes loc.disk (put later key value t ∷ [])
    → Holds kv m
    → InUnixRange t
    → Took
        (apply_syncs loc i (set_sync key value t index ∷ []) (some kv))
        (promise (put later key value t) m).1
unfolding apply_sync
set-applied loc i kv key value later t index m d g reach =
    let k = perform-Kept loc.disk loc.range (put (loc.now i) key value t) kv m g d.room d.syncs in
    let fine = wrote_ok _ k.same_answer in
    let taken = survived-no_panic _ _ (λ p. cc (fine, p)) in
    record {
      store = (set_with_expiry loc.disk loc.range (loc.now i) key value t kv).1;
      is =
          ap
            (λ x.
              apply_syncs loc (suc i) []
                (survived (set_with_expiry loc.disk loc.range (loc.now i) key value x kv)))
            (time_unix-unix_nano t reach)
          ∙ ap (apply_syncs loc (suc i) []) taken;
      holds = k.holds;
    }

pub delete-applied :
    (loc : Local) (i : ℕ) (kv : KvStore) (key : Bytes) (index : ℕ) (m : Contents)
    → DiskTakes loc.disk (del key ∷ [])
    → Holds kv m
    → Took (apply_syncs loc i (delete_sync key index ∷ []) (some kv)) (promise (del key) m).1
unfolding apply_sync
delete-applied loc i kv key index m d g =
    let k = perform-Kept loc.disk loc.range (del key) kv m g d.room d.syncs in
    record {
      store = (delete loc.disk key kv).1;
      is =
          ap (apply_syncs loc (suc i) [])
            (survived-no_panic _ _ (answer_no_panic _ (m key) k.same_answer));
      holds = k.holds;
    }
