-- ===== src/Cluster/Follower/Applied.antt =====
-- What a follower makes of the syncs that a leader writes to it.
use keva.Prelude.{
  ℕ, suc, Option, none, some, ◌+◌, ◌≡◌, refl, ap, ◌∙◌, List, [], ◌∷◌, ◌++◌, append_assoc,
  append-nil, map, arith, Bytes, All, length,
}
use keva.Prelude.Reader.{eof, read_full}
use keva.Store.KvStore.{KvStore}
use keva.Protocol.Cluster.{ReplicationSync}
use keva.Protocol.Message.{Message, replication_sync, replication_ack, replication_join}
use keva.Protocol.Frame.{io_error, encode_frame, read_frame}
use keva.Protocol.Frame.Stream.{FrameFits, encode_frames, read_frame-encode_frame}
use keva.Cluster.Node.{apply_sync}
use keva.Cluster.Node.Replica.{apply_sync-Applied}
use keva.Store.KvStore.Sharding.{IsReady}
use keva.Cluster.Follower.{
  Link, Break, after_apply, after_handled, Local, lost, send_frame, apply_message, after_frame,
  receive_frame, sync_loop, sync_with_leader,
}

-- The syncs applied one after the other, from the `i`-th frame on; none is a panic.
abbrev pub apply_syncs : Local → ℕ → List ReplicationSync → Option KvStore → Option KvStore
apply_syncs l i ms none = none
apply_syncs l i [] (some kv) = some kv
apply_syncs l i (m ∷ ms) (some kv) =
    apply_syncs l (suc i) ms (apply_sync l.disk l.range (l.now i) m kv)

abbrev pub ack : ReplicationSync → Message
ack m = replication_ack (record { last_applied_index = m.log_index })

abbrev pub acks : List ReplicationSync → List Message
acks ms = map ack ms

-- The store that the syncs leave.
pub record Caught (l : Local) (i : ℕ) (ms : List ReplicationSync) (kv : KvStore) : Type 0 where
  pub store : KvStore
  pub is : apply_syncs l i ms (some kv) ≡ some store
  pub ready : IsReady store

-- How the loop ends when the stream does.
abbrev over : KvStore → Bytes → Break × KvStore × Link
over kv output = (lost (io_error eof), kv, record { input = []; output = output })

caught :
    (l : Local) (i : ℕ) (ms : List ReplicationSync) (kv : KvStore) → IsReady kv → Caught l i ms kv
caught l i [] kv h = record { store = kv; is = refl; ready = h }
caught l i (m ∷ ms) kv h =
    let a = apply_sync-Applied l.disk l.range (l.now i) kv h m in
    let rest = caught l (suc i) ms a.store a.ready in
    record {
      store = rest.store;
      is = ap (apply_syncs l (suc i) ms) a.is ∙ rest.is;
      ready = rest.ready;
    }

sync_loop-encode_frames :
    (l : Local) (i : ℕ) (ms : List ReplicationSync) (extra : ℕ) (kv : KvStore) (output : Bytes)
    (h : IsReady kv)
    → All (FrameFits 0) (map replication_sync ms)
    → sync_loop l i
        (length ms + suc extra)
        (kv, record { input = encode_frames (map replication_sync ms); output = output })
      ≡ over (caught l i ms kv h).store (output ++ encode_frames (acks ms))
unfolding sync_loop receive_frame after_frame apply_message after_apply after_handled send_frame
    read_frame read_full caught
sync_loop-encode_frames l i [] extra kv output h fits =
    let e : 0 + suc extra ≡ suc extra = omega arith in rw (e, append-nil) refl
sync_loop-encode_frames l i (m ∷ ms) extra kv output h fits =
    let e : suc (length ms) + suc extra ≡ suc (length ms + suc extra) = omega arith in
    let a = apply_sync-Applied l.disk l.range (l.now i) kv h m in
    let q =
      read_frame-encode_frame 0 (replication_sync m) (encode_frames (map replication_sync ms))
        fits.0 in
    rw (e, q, a.is)
      (sync_loop-encode_frames l (suc i) ms extra a.store (output ++ encode_frame (ack m)) a.ready
          fits.1
        ∙ ap (over (caught l i (m ∷ ms) kv h).store)
            (append_assoc output (encode_frame (ack m)) (encode_frames (acks ms))))

-- A follower whose store is in order and that reads syncs which fit, until the stream ends, has
-- joined, applied each in order without a panic and acknowledged it with its index, and written
-- nothing else; its store is in order.
pub sync_with_leader-acks :
    (l : Local) (node_addr : Bytes) (ms : List ReplicationSync) (extra : ℕ) (kv : KvStore)
    → IsReady kv
    → All (FrameFits 0) (map replication_sync ms)
    → (kv' : KvStore) × (apply_syncs l 0 ms (some kv) ≡ some kv')
      × IsReady kv'
      × (sync_with_leader l node_addr
            (length ms + suc extra)
            kv
            (encode_frames (map replication_sync ms))
          ≡ (
            lost (io_error eof),
            kv',
            record {
              input = [];
              output =
                  encode_frame (replication_join (record { node_addr = node_addr }))
                  ++ encode_frames (acks ms);
            },
          ))
unfolding sync_with_leader send_frame
sync_with_leader-acks l node_addr ms extra kv h fits =
    let c = caught l 0 ms kv h in
    (c.store, c.is, c.ready, sync_loop-encode_frames l 0 ms extra kv _ h fits)
