-- ===== src/Examples/Followers.antt =====
-- A leader and its follower at concrete inputs.
use keva.Prelude.{
  ◌≡◌, refl, none, some, List, [], ◌∷◌, ◌++◌, map, arith, put_uint16, put_uint32, put_uint64, inl,
  Bytes, Bool, not, bytes_eq,
}
use keva.Prelude.Reader.{eof}
use keva.Time.{unix_epoch, add_duration}
use keva.Wal.{op_set, encode}
use keva.Store.KvStore.{KvStore}
use keva.Store.KvStore.Sharding.{IsReady}
use keva.Store.KvStore.History.{DiskTakes}
use keva.Protocol.Cluster.{ReplicationSync, encode_replication_sync}
use keva.Protocol.Message.{replication_sync, replication_join, encode_message}
use keva.Protocol.Message
use keva.Protocol.Frame.{io_error, encode_frame}
use keva.Protocol.Frame.Stream.{FrameFits, encode_frames}
use keva.Cluster.Node.{Node, Follower, expiry}
use keva.Cluster.Follower.{Local, lost, sync_loop, sync_with_leader}
use keva.Cluster.Follower.Applied.{apply_syncs, acks, sync_with_leader-acks}
use keva.Cluster.Follower.Total.{IsOver, sync_loop-IsOver}
use keva.Cluster.Follower.Replicated.{
  Write, set_key, delete_key, op_of, make_all, Replicated, make_all-Replicated,
}
use keva.Examples.Stores.{range, key, value}
use keva.Examples.Nodes.{raft}
use keva.Examples.Histories.{fresh_store, fresh_store-IsReady, fresh_store-Holds, big_disk}

abbrev local : Local
local = record { disk = big_disk; range = range; now = λ i. unix_epoch }

abbrev a_sync : ReplicationSync
a_sync = record { log_index = 1; op = op_set; key = key; value = value; expires_at = 100 }

a_sync-FrameFits : FrameFits 0 (replication_sync a_sync)
unfolding encode_message Message.encode encode_replication_sync put_uint16 put_uint32 put_uint64
a_sync-FrameFits = ((omega arith, omega arith, omega arith, omega arith), omega arith, inl refl)

sync_with_leader-acks_example :
    (kv : KvStore) × (apply_syncs local 0 (a_sync ∷ []) (some fresh_store) ≡ some kv)
    × IsReady kv
    × (sync_with_leader local
          (1 ∷ [])
          2
          fresh_store
          (encode_frames (map replication_sync (a_sync ∷ [])))
        ≡ (
          lost (io_error eof),
          kv,
          record {
            input = [];
            output =
                encode_frame (replication_join (record { node_addr = 1 ∷ [] }))
                ++ encode_frames (acks (a_sync ∷ []));
          },
        ))
sync_with_leader-acks_example =
    sync_with_leader-acks local (1 ∷ []) (a_sync ∷ []) 0 fresh_store fresh_store-IsReady
      (a_sync-FrameFits, tt)

sync_loop-IsOver_example :
    IsOver (sync_loop local 0 5 (fresh_store, record { input = 0 ∷ 0 ∷ 0 ∷ 9 ∷ []; output = [] }))
sync_loop-IsOver_example =
    sync_loop-IsOver local 5 0 fresh_store (record { input = 0 ∷ 0 ∷ 0 ∷ 9 ∷ []; output = [] })
      (omega arith) fresh_store-IsReady

abbrev follower : Follower
follower = record { addr = 2 ∷ []; sent = [] }

-- a follower in front of it, to which writes fail
abbrev gone : Follower
gone = record { addr = 3 ∷ []; sent = [] }

abbrev alive : Bytes → Bool
alive addr = not (bytes_eq addr (3 ∷ []))

abbrev leading : Node
leading = record {
  db = fresh_store;
  default_ttl = 100;
  raft = raft;
  leader = some (record { followers = gone ∷ follower ∷ []; log_index = 0 });
}

abbrev writes : List Write
writes = set_key unix_epoch unix_epoch key value 0 ∷ delete_key (9 ∷ []) ∷ delete_key key ∷ []

writes-DiskTakes : DiskTakes big_disk (map (op_of 100) writes)
unfolding encode put_uint16 put_uint32 put_uint64
writes-DiskTakes = record { room = (omega arith, (omega arith, (omega arith, tt))); syncs = refl }

make_all-Replicated_example :
    Replicated
      (map (op_of 100) writes)
      (2 ∷ [])
      follower
      (λ j. none)
      100
      (make_all big_disk range alive writes leading)
make_all-Replicated_example =
    make_all-Replicated big_disk range alive writes leading (λ j. none)
      (record { followers = gone ∷ follower ∷ []; log_index = 0 }) (2 ∷ []) follower
      fresh_store-Holds refl (unfold bytes_eq in refl) (unfold bytes_eq in refl) writes-DiskTakes
      (unfold expiry add_duration in
        (record { from = omega arith; to = omega arith }, (tt, (tt, tt))))
