-- ===== src/Cluster/Node.antt =====
-- cluster/node.go, leader.go and follower.go: what a node does for its clients, the syncs that a
-- leader sends to its followers, and what a follower does with them.
pub mod Replica
pub mod Sent
pub mod Roles
pub mod Callbacks
use keva.Prelude.{
  ℕ, suc, ◌+◌, ◌%◌, ◌^◌, Bool, true, false, Option, none, some, List, [], ◌∷◌, ◌++◌, Bytes, ◌==◌,
  bytes_eq, if◌then◌else◌, Outcome, ok, err, panic,
}
use keva.Time.{Time, add_duration, is_nonpositive, unix_nano, time_unix}
use keva.Shard.{RangeOrder}
use keva.Wal.{op_set, op_delete}
use keva.Wal.Writer.{Disk}
use keva.Store.{StoreError}
use keva.Store.KvStore.{KvStore, set_with_expiry, get, delete}
use keva.Protocol.Client.{NodeInfo, TopologyResponse, topology_role_follower, topology_role_leader}
use keva.Protocol.Cluster.{ReplicationSync}
use keva.Cluster.Raft.{RaftState}

-- A follower's connection: its address, and the syncs written to it, oldest first.
pub record Follower : Type 0 where
  pub addr : Bytes
  pub sent : List ReplicationSync

pub record Leader : Type 0 where
  pub followers : List Follower
  pub log_index : ℕ

abbrev pub new_leader : Leader
new_leader = record { followers = []; log_index = 0 }

pub record Node : Type 0 where
  pub db : KvStore
  pub default_ttl : ℕ
  pub raft : RaftState
  pub leader : Option Leader

-- The loops of `broadcast`: `alive` says whether a write to a follower goes through; one on which it
-- fails is removed.
unfoldable pub send_all : (Bytes → Bool) → ReplicationSync → List Follower → List Follower
send_all alive m [] = []
send_all alive m (f ∷ fs) =
    let rest = send_all alive m fs in
    if alive f.addr then record f { sent = f.sent ++ (m ∷ []) } ∷ rest else rest

-- `AddFollower`: a follower that joins again has a new connection.
unfoldable pub remove_follower : Bytes → List Follower → List Follower
remove_follower addr [] = []
remove_follower addr (f ∷ fs) =
    let rest = remove_follower addr fs in if bytes_eq f.addr addr then rest else f ∷ rest

unfoldable pub add_follower : Bytes → Leader → Leader
unfolding remove_follower
add_follower addr l = record l {
  followers = record { addr = addr; sent = [] } ∷ remove_follower addr l.followers;
}

unfoldable pub broadcast : (Bytes → Bool) → (ℕ → ReplicationSync) → Leader → Leader
unfolding send_all
broadcast alive make l =
    let index = (l.log_index + 1) % 2 ^ 64 in
    record { followers = send_all alive (make index) l.followers; log_index = index }

abbrev pub set_sync : Bytes → Bytes → Time → ℕ → ReplicationSync
set_sync key value expired_at index = record {
  log_index = index;
  op = op_set;
  key = key;
  value = value;
  expires_at = unix_nano expired_at;
}

abbrev pub delete_sync : Bytes → ℕ → ReplicationSync
delete_sync key index = record {
  log_index = index;
  op = op_delete;
  key = key;
  value = [];
  expires_at = 0;
}

unfoldable pub broadcast_if : (Bytes → Bool) → (ℕ → ReplicationSync) → Option Leader → Option Leader
unfolding broadcast
broadcast_if alive make none = none
broadcast_if alive make (some l) = some (broadcast alive make l)

-- What is sent after an operation on the store: nothing if it failed.
unfoldable pub after_write :
    (Bytes → Bool)
    → (ℕ → ReplicationSync)
    → Node
    → Outcome StoreError Unit × KvStore
    → Outcome StoreError Unit × Node
unfolding broadcast_if
after_write alive make n (ok tt, kv) =
    (ok tt, record n { db = kv; leader = broadcast_if alive make n.leader })
after_write alive make n (err e, kv) = (err e, record n { db = kv })
after_write alive make n (panic, kv) = (panic, record n { db = kv })

-- The expiry that `Set` takes; a `ttl` that is not positive asks for the default.
unfoldable pub expiry : Time → ℕ → ℕ → Time
expiry now ttl default_ttl = add_duration now (if is_nonpositive ttl then default_ttl else ttl)

-- `Node.Set`, with the two readings of the clock; the write and the broadcast are one step
unfoldable pub node_set :
    Disk
    → RangeOrder
    → (Bytes → Bool)
    → Time
    → Time
    → Bytes
    → Bytes
    → ℕ
    → Node
    → Outcome StoreError Unit × Node
unfolding after_write expiry set_with_expiry
node_set disk range alive now later key value ttl n =
    let expired_at = expiry now ttl n.default_ttl in
    after_write alive (set_sync key value expired_at) n
      (set_with_expiry disk range later key value expired_at n.db)

unfoldable pub node_get : Time → Bytes → Node → Outcome StoreError Bytes × Node
unfolding get
node_get now key n = let (r, kv) = get now key n.db in (r, record n { db = kv })

unfoldable pub node_delete : Disk → (Bytes → Bool) → Bytes → Node → Outcome StoreError Unit × Node
unfolding after_write delete
node_delete disk alive key n = after_write alive (delete_sync key) n (delete disk key n.db)

-- `becomeLeader` and `ForceLeader`, and `becomeFollower`
unfoldable pub become_leader : Node → Node
become_leader n = record n { leader = some new_leader }

unfoldable pub become_follower : Node → Node
become_follower n = record n { leader = none }

unfoldable pub node_infos : Bytes → List Bytes → List NodeInfo
node_infos leader_addr [] = []
node_infos leader_addr (addr ∷ addrs) =
    record {
      address = addr;
      role = if bytes_eq addr leader_addr then topology_role_leader else topology_role_follower;
      node_id = addr;
    }
    ∷ node_infos leader_addr addrs

unfoldable pub get_topology : Node → TopologyResponse
unfolding node_infos
get_topology n = record {
  leader_addr = n.raft.leader_addr;
  nodes = node_infos n.raft.leader_addr n.raft.peers;
}

-- The store after an operation whose error is printed; none is a panic.
unfoldable pub survived : Outcome StoreError Unit × KvStore → Option KvStore
survived (ok u, kv) = some kv
survived (err e, kv) = some kv
survived (panic, kv) = none

-- `applySync`, which prints the errors and goes on
unfoldable pub apply_sync : Disk → RangeOrder → Time → ReplicationSync → KvStore → Option KvStore
unfolding survived set_with_expiry delete
apply_sync disk range now m kv =
    if m.op == op_set
    then survived (set_with_expiry disk range now m.key m.value (time_unix m.expires_at) kv)
    else if m.op == op_delete
    then survived (delete disk m.key kv)
    else some kv
