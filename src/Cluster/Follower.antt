-- ===== src/Cluster/Follower.antt =====
-- cluster/follower.go: the connection of a follower to its leader, and the choice of a leader.
pub mod Applied
pub mod Broadcasts
pub mod Total
pub mod Replicated
use keva.Prelude.{
  ℕ, zero, suc, ◌+◌, Bool, true, false, ◌||◌, Option, none, some, List, [], ◌∷◌, ◌++◌, Bytes,
  bytes_eq, if◌then◌else◌, Outcome, ok, err, panic,
}
use keva.Time.{Time}
use keva.Shard.{RangeOrder}
use keva.Wal.Writer.{Disk}
use keva.Store.KvStore.{KvStore}
use keva.Protocol.Cluster.{ReplicationSync}
use keva.Protocol.Message.{Message, replication_sync, replication_ack, replication_join}
use keva.Protocol.Frame.{FrameError, frame_too_large, io_error, malformed, encode_frame, read_frame}
use keva.Cluster.Raft.{RaftState, is_leader}
use keva.Cluster.Node.{apply_sync}

-- The leader that a round of `RunFollower` syncs with: none, and it only waits, if it leads itself
-- or knows no other leader.
unfoldable pub leader_to_follow : Bytes → RaftState → Option Bytes
leader_to_follow node_addr r =
    if is_leader r.role
    then none
    else if bytes_eq r.leader_addr [] || bytes_eq r.leader_addr node_addr
    then none
    else some r.leader_addr

-- A connection to the leader: the bytes still to be read, and those written.
pub record Link : Type 0 where
  pub input : Bytes
  pub output : Bytes

-- What the store's log and clock do while the `i`-th frame is handled.
pub record Local : Type 0 where
  pub disk : Disk
  pub range : RangeOrder
  pub now : ℕ → Time

-- How `syncWithLeader` ends: with an error of a read, or a panic of a decoder or
-- of the store.
pub data Break : Type 0 where
  lost : FrameError → Break
  crashed out_of_fuel : Break

unfoldable pub send_frame : Message → Link → Link
send_frame msg c = record c { output = c.output ++ encode_frame msg }

-- What is sent once a sync has been applied, if that did not panic.
unfoldable pub after_apply : ℕ → Link → Option KvStore → Option (KvStore × Link)
unfolding send_frame
after_apply index c none = none
after_apply index c (some kv) =
    some (kv, send_frame (replication_ack (record { last_applied_index = index })) c)

-- A message that is no sync is passed over; none is a panic.
unfoldable pub apply_message : Local → ℕ → Message → KvStore → Link → Option (KvStore × Link)
unfolding apply_sync after_apply
apply_message l i (replication_sync m) kv c =
    after_apply m.log_index c (apply_sync l.disk l.range (l.now i) m kv)
apply_message l i _ kv c = some (kv, c)

-- The rest of the loop, after a message.
unfoldable pub after_handled :
    (KvStore × Link → Break × KvStore × Link)
    → KvStore
    → Link
    → Option (KvStore × Link)
    → Break × KvStore × Link
after_handled more kv c none = (crashed, kv, c)
after_handled more kv c (some st) = more st

-- The body of the loop: a frame that does not decode is passed over.
unfoldable pub after_frame :
    Local
    → ℕ
    → (KvStore × Link → Break × KvStore × Link)
    → KvStore
    → Outcome FrameError Message × Link
    → Break × KvStore × Link
unfolding apply_message after_handled
after_frame l i more kv (ok msg, c) = after_handled more kv c (apply_message l i msg kv c)
after_frame l i more kv (err (malformed e), c) = more (kv, c)
after_frame l i more kv (err frame_too_large, c) = (lost frame_too_large, kv, c)
after_frame l i more kv (err (io_error e), c) = (lost (io_error e), kv, c)
after_frame l i more kv (panic, c) = (crashed, kv, c)

unfoldable pub receive_frame : Link → Outcome FrameError Message × Link
unfolding read_frame
receive_frame c = let (r, rest) = read_frame 0 c.input in (r, record c { input = rest })

unfoldable pub sync_loop : Local → ℕ → ℕ → KvStore × Link → Break × KvStore × Link
unfolding receive_frame after_frame
sync_loop l i zero (kv, c) = (out_of_fuel, kv, c)
sync_loop l i (suc fuel) (kv, c) = after_frame l i (sync_loop l (suc i) fuel) kv (receive_frame c)

-- `syncWithLeader` once it is connected: it joins, and then reads what the leader sends.
unfoldable pub sync_with_leader : Local → Bytes → ℕ → KvStore → Bytes → Break × KvStore × Link
unfolding send_frame sync_loop
sync_with_leader l node_addr fuel kv input = sync_loop l 0 fuel (
  kv,
  send_frame (replication_join (record { node_addr = node_addr }))
      (record { input = input; output = [] }),
)
