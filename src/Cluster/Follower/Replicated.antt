-- ===== src/Cluster/Follower/Replicated.antt =====
-- A follower that has read what its leader sent holds what the leader holds.
use keva.Prelude.{
  none, Option, ℕ, suc, ◌+◌, ◌%◌, ◌^◌, ◌≤◌, ◌≡◌, refl, sym, ap, subst, ◌∙◌, true, Bool, inl, inr,
  some, List, [], ◌∷◌, ◌++◌, append_assoc, append-nil, map, arith, Bytes, All, length, Outcome,
  Option-cases,
}
use keva.Time.{Time, InUnixRange}
use keva.Shard.{RangeOrder}
use keva.Wal.{encode}
use keva.Wal.Writer.{Disk}
use keva.Store.{StoreError}
use keva.Store.KvStore.{KvStore, set_with_expiry, delete}
use keva.Store.KvStore.History.{
  Op, put, del, Contents, promise, log_of, log_of_all, Holds, DiskTakes, perform-Kept, All-split,
}
use keva.Protocol.Cluster.{ReplicationSync}
use keva.Cluster.Node.{
  Node, Leader, Follower, broadcast_if, node_set, node_delete, expiry, set_sync, delete_sync,
}
use keva.Cluster.Node.Replica.{after_write-lem}
use keva.Cluster.Node.Sent.{find_follower}
use keva.Cluster.Follower.{Local}
use keva.Cluster.Follower.Applied.{apply_syncs}
use keva.Cluster.Follower.Broadcasts.{
  Took, broadcast-Reached, default_ttl-after_write, wrote_ok, one_op, Holds-absent, wrote_missing,
  set-applied, delete-applied,
}

-- A write that a client asks of the leader, with the two readings of its clock.
pub data Write : Type 0 where
  set_key : Time → Time → Bytes → Bytes → ℕ → Write
  delete_key : Bytes → Write

abbrev pub make : Disk → RangeOrder → (Bytes → Bool) → Write → Node → Outcome StoreError Unit × Node
make disk range alive (set_key now later key value ttl) n =
    node_set disk range alive now later key value ttl n
make disk range alive (delete_key key) n = node_delete disk alive key n

abbrev pub make_all : Disk → RangeOrder → (Bytes → Bool) → List Write → Node → Node
make_all disk range alive [] n = n
make_all disk range alive (w ∷ ws) n = make_all disk range alive ws (make disk range alive w n).1

-- The operation on the store that a write becomes.
abbrev pub op_of : ℕ → Write → Op
op_of default_ttl (set_key now later key value ttl) =
    put later key value (expiry now ttl default_ttl)
op_of default_ttl (delete_key key) = del key

-- The expiries are times whose nanoseconds an `int64` reaches.
abbrev pub InReach : Op → Type 0
InReach (put now key value expires) = InUnixRange expires
InReach _ = Unit

-- The syncs that the follower with an address has been sent between two states of the leader, and
-- what they do to a store that held what the leader's did.
pub record Replicated (os : List Op) (addr : Bytes) (f : Follower) (m : Contents) (default_ttl : ℕ)
    (n' : Node) : Type 0 where
  pub same_ttl : n'.default_ttl ≡ default_ttl
  pub contents : Contents
  pub holds : Holds n'.db contents
  pub leader : Leader
  pub is_leader : n'.leader ≡ some leader
  pub follower : Follower
  pub found : find_follower addr leader.followers ≡ some follower
  pub syncs : List ReplicationSync
  pub sent : follower.sent ≡ f.sent ++ syncs
  pub applied :
      (l : Local) (i : ℕ) (kv : KvStore)
      → DiskTakes l.disk os
      → Holds kv m
      → Took (apply_syncs l i syncs (some kv)) contents

module _ (disk : Disk) (range : RangeOrder) (alive : Bytes → Bool) (n : Node) (m : Contents)
    (l : Leader) (addr : Bytes) (f : Follower) (h : Holds n.db m) (leads : n.leader ≡ some l)
    (found : find_follower addr l.followers ≡ some f) (up : alive addr ≡ true) where
  set-Replicated :
      (now later : Time) (key value : Bytes) (ttl : ℕ)
      → let o = put later key value (expiry now ttl n.default_ttl) in
        DiskTakes disk (o ∷ [])
        → InReach o
        → Replicated
            (o ∷ [])
            addr
            f
            m
            n.default_ttl
            (node_set disk range alive now later key value ttl n).1
  unfolding node_set
  set-Replicated now later key value ttl takes reach =
      let t = expiry now ttl n.default_ttl in
      let o = put later key value t in
      let done = set_with_expiry disk range later key value t n.db in
      let k = perform-Kept disk range o n.db m h (one_op disk o takes) takes.syncs in
      let (q, db, sent) = after_write-lem alive (set_sync key value t) n done.0 done.1 in
      let b = broadcast-Reached alive (set_sync key value t) l addr f found up in
      record {
        same_ttl = default_ttl-after_write alive (set_sync key value t) n done;
        contents = (promise o m).1;
        holds = subst (λ kv. Holds kv (promise o m).1) (sym db) k.holds;
        leader = b.leader;
        is_leader =
            sent.0 (wrote_ok done.0 k.same_answer)
            ∙ ap (broadcast_if alive (set_sync key value t)) leads
            ∙ b.is_leader;
        follower = b.follower;
        found = b.found;
        syncs = set_sync key value t ((l.log_index + 1) % 2 ^ 64) ∷ [];
        sent = b.sent;
        applied = λ loc i kv d g. set-applied loc i kv key value later t _ m d g reach;
      }

  delete-Replicated :
      (key : Bytes)
      → DiskTakes disk (del key ∷ [])
      → Replicated (del key ∷ []) addr f m n.default_ttl (node_delete disk alive key n).1
  unfolding node_delete
  delete-Replicated key takes =
      let o = del key in
      let done = delete disk key n.db in
      let k = perform-Kept disk range o n.db m h (one_op disk o takes) takes.syncs in
      let (q, db, sent) = after_write-lem alive (delete_sync key) n done.0 done.1 in
      let after = subst (λ kv. Holds kv (promise o m).1) (sym db) k.holds in
      let ttl = default_ttl-after_write alive (delete_sync key) n done in
      elim (Option-cases (m key)) [
        | inr (e, there) ↦
            let b = broadcast-Reached alive (delete_sync key) l addr f found up in
            record {
              same_ttl = ttl;
              contents = (promise o m).1;
              holds = after;
              leader = b.leader;
              is_leader =
                  sent.0 (wrote_ok done.0 (k.same_answer ∙ rw there refl))
                  ∙ ap (broadcast_if alive (delete_sync key)) leads
                  ∙ b.is_leader;
              follower = b.follower;
              found = b.found;
              syncs = delete_sync key ((l.log_index + 1) % 2 ^ 64) ∷ [];
              sent = b.sent;
              applied = λ loc i kv d g. delete-applied loc i kv key _ m d g;
            }
        | inl gone ↦ record {
          same_ttl = ttl;
          contents = (promise o m).1;
          holds = after;
          leader = l;
          is_leader = sent.1 (wrote_missing done.0 (k.same_answer ∙ rw gone refl)) ∙ leads;
          follower = f;
          found = found;
          syncs = [];
          sent = sym (append-nil f.sent);
          applied = λ loc i kv d g. record {
            store = kv;
            is = refl;
            holds = Holds-absent key kv m gone g;
          };
        }
      ]

apply_syncs-append :
    (loc : Local) (i : ℕ) (xs ys : List ReplicationSync) (r : Option KvStore)
    → apply_syncs loc i (xs ++ ys) r ≡ apply_syncs loc (length xs + i) ys (apply_syncs loc i xs r)
apply_syncs-append loc i xs ys none = refl
apply_syncs-append loc i [] ys (some kv) = let e : 0 + i ≡ i = omega arith in rw e refl
apply_syncs-append loc i (x ∷ xs) ys (some kv) =
    let e : suc (length xs) + i ≡ length xs + suc i = omega arith in
    rw e (apply_syncs-append loc (suc i) xs ys _)

first_takes :
    (disk : Disk) (o : Op) (os : List Op) → DiskTakes disk (o ∷ os) → DiskTakes disk (o ∷ [])
first_takes disk o os d = record {
  room =
      subst (All (λ r. length (encode r) ≤ disk.written)) (sym (append-nil (log_of o)))
        (All-split _ (log_of o) (log_of_all os) d.room).0;
  syncs = d.syncs;
}

rest_takes : (disk : Disk) (o : Op) (os : List Op) → DiskTakes disk (o ∷ os) → DiskTakes disk os
rest_takes disk o os d = record {
  room = (All-split _ (log_of o) (log_of_all os) d.room).1;
  syncs = d.syncs;
}

-- One history after another.
Replicated-trans :
    (o : Op) (os : List Op) (addr : Bytes) (f : Follower) (m : Contents) (ttl : ℕ) (n1 n2 : Node)
    (r : Replicated (o ∷ []) addr f m ttl n1)
    → Replicated os addr r.follower r.contents ttl n2
    → Replicated (o ∷ os) addr f m ttl n2
Replicated-trans o os addr f m ttl n1 n2 r s = record {
  same_ttl = s.same_ttl;
  contents = s.contents;
  holds = s.holds;
  leader = s.leader;
  is_leader = s.is_leader;
  follower = s.follower;
  found = s.found;
  syncs = r.syncs ++ s.syncs;
  sent = s.sent ∙ ap (λ x. x ++ s.syncs) r.sent ∙ append_assoc f.sent r.syncs s.syncs;
  applied = λ loc i kv d g.
      let one = r.applied loc i kv (first_takes loc.disk o os d) g in
      let rest =
        s.applied loc (length r.syncs + i) one.store (rest_takes loc.disk o os d) one.holds in
      record {
        store = rest.store;
        is =
            apply_syncs-append loc i r.syncs s.syncs (some kv)
            ∙ ap (apply_syncs loc (length r.syncs + i) s.syncs) one.is
            ∙ rest.is;
        holds = rest.holds;
      };
}

module _ (disk : Disk) (range : RangeOrder) (alive : Bytes → Bool) where
  make-Replicated :
      (w : Write) (n : Node) (m : Contents) (l : Leader) (addr : Bytes) (f : Follower)
      → Holds n.db m
      → n.leader ≡ some l
      → find_follower addr l.followers ≡ some f
      → alive addr ≡ true
      → DiskTakes disk (op_of n.default_ttl w ∷ [])
      → InReach (op_of n.default_ttl w)
      → Replicated (op_of n.default_ttl w ∷ []) addr f m n.default_ttl (make disk range alive w n).1
  make-Replicated (set_key now later key value ttl) n m l addr f h leads found up takes reach =
      set-Replicated disk range alive n m l addr f h leads found up now later key value ttl takes
        reach
  make-Replicated (delete_key key) n m l addr f h leads found up takes reach =
      delete-Replicated disk range alive n m l addr f h leads found up key takes

  -- Of the writes that clients make on a leader that has neither eviction policy nor memory limit,
  -- whose log takes each at once, a follower of the leader's, wherever it is among the followers,
  -- to which no write fails is sent syncs, after those that it had been sent, such that any store
  -- with neither policy nor limit that holds what the leader held before takes them in order
  -- without a panic and then holds what the leader holds now; for expiries that an int64 of
  -- nanoseconds since 1970 reaches, and a log of the follower's own that takes each record at
  -- once.
  pub make_all-Replicated :
      (ws : List Write) (n : Node) (m : Contents) (l : Leader) (addr : Bytes) (f : Follower)
      → Holds n.db m
      → n.leader ≡ some l
      → find_follower addr l.followers ≡ some f
      → alive addr ≡ true
      → DiskTakes disk (map (op_of n.default_ttl) ws)
      → All InReach (map (op_of n.default_ttl) ws)
      → Replicated
          (map (op_of n.default_ttl) ws)
          addr
          f
          m
          n.default_ttl
          (make_all disk range alive ws n)
  make_all-Replicated [] n m l addr f h leads found up takes reach = record {
    same_ttl = refl;
    contents = m;
    holds = h;
    leader = l;
    is_leader = leads;
    follower = f;
    found = found;
    syncs = [];
    sent = sym (append-nil f.sent);
    applied = λ loc i kv d g. record { store = kv; is = refl; holds = g };
  }
  make_all-Replicated (w ∷ ws) n m l addr f h leads found up takes reach =
      let os = map (op_of n.default_ttl) ws in
      let o = op_of n.default_ttl w in
      let r =
        make-Replicated w n m l addr f h leads found up (first_takes disk o os takes) reach.0 in
      let n1 = (make disk range alive w n).1 in
      let go =
        make_all-Replicated ws n1 r.contents r.leader addr r.follower r.holds r.is_leader r.found up
          (subst (λ t. DiskTakes disk (map (op_of t) ws)) (sym r.same_ttl)
            (rest_takes disk o os takes))
          (subst (λ t. All InReach (map (op_of t) ws)) (sym r.same_ttl) reach.1) in
      Replicated-trans o os addr f m n.default_ttl n1 (make_all disk range alive ws n1) r (
        subst
          (λ t.
            Replicated (map (op_of t) ws) addr r.follower r.contents t
              (make_all disk range alive ws n1))
          r.same_ttl go)
