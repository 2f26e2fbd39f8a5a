-- ===== src/Protocol/Cluster.antt =====
-- protocol/cluster/: replication, heartbeats and elections. All offsets here are sums of `int`s.
pub mod Panics
pub mod Replication
pub mod Election
use keva.Prelude.{
  ℕ, ◌+◌, ◌%◌, ◌^◌, Bool, [], ◌∷◌, ◌++◌, Bytes, length, ltb, ◌==◌, ok, ◌>>=◌, ◌>>◌, reject_if,
  slice, byte_at, uint_at, bool_byte, put_uint16, put_uint32, put_uint64,
}
use keva.Protocol.Errors.{Decode, payload_too_short}

pub record ReplicationSync : Type 0 where
  pub log_index : ℕ
  pub op : ℕ
  pub key : Bytes
  pub value : Bytes
  pub expires_at : ℕ

unfoldable pub encode_replication_sync : ReplicationSync → Bytes
encode_replication_sync r =
    put_uint64 r.log_index
    ++ (r.op
        ∷ (put_uint16 (length r.key % 2 ^ 16)
            ++ (put_uint32 (length r.value % 2 ^ 32)
                ++ (put_uint64 r.expires_at ++ (r.key ++ r.value)))))

unfoldable pub decode_replication_sync : Bytes → Decode ReplicationSync
decode_replication_sync bytes = do
  reject_if (ltb (length bytes) 23) payload_too_short
  log_index ← uint_at bytes 0 8
  op ← byte_at bytes 8
  key_len ← uint_at bytes 9 11
  val_len ← uint_at bytes 11 15
  expires_at ← uint_at bytes 15 23
  reject_if (ltb (length bytes) (23 + key_len + val_len)) payload_too_short
  key ← slice bytes 23 (23 + key_len)
  value ← slice bytes (23 + key_len) (23 + key_len + val_len)
  ok (record { log_index = log_index; op = op; key = key; value = value; expires_at = expires_at })

pub record ReplicationAck : Type 0 where
  pub last_applied_index : ℕ

unfoldable pub encode_replication_ack : ReplicationAck → Bytes
encode_replication_ack r = put_uint64 r.last_applied_index

unfoldable pub decode_replication_ack : Bytes → Decode ReplicationAck
decode_replication_ack bytes = do
  reject_if (ltb (length bytes) 8) payload_too_short
  last_applied_index ← uint_at bytes 0 8
  ok (record { last_applied_index = last_applied_index })

pub record ReplicationJoin : Type 0 where
  pub node_addr : Bytes

unfoldable pub encode_replication_join : ReplicationJoin → Bytes
encode_replication_join r = put_uint16 (length r.node_addr % 2 ^ 16) ++ r.node_addr

unfoldable pub decode_replication_join : Bytes → Decode ReplicationJoin
decode_replication_join bytes = do
  reject_if (ltb (length bytes) 2) payload_too_short
  addr_len ← uint_at bytes 0 2
  reject_if (ltb (length bytes) (2 + addr_len)) payload_too_short
  node_addr ← slice bytes 2 (2 + addr_len)
  ok (record { node_addr = node_addr })

pub record Heartbeat : Type 0 where
  pub term : ℕ
  pub leader_id : Bytes

unfoldable pub encode_heartbeat : Heartbeat → Bytes
encode_heartbeat r = put_uint64 r.term ++ (put_uint16 (length r.leader_id % 2 ^ 16) ++ r.leader_id)

unfoldable pub decode_heartbeat : Bytes → Decode Heartbeat
decode_heartbeat bytes = do
  reject_if (ltb (length bytes) 10) payload_too_short
  term ← uint_at bytes 0 8
  id_len ← uint_at bytes 8 10
  reject_if (ltb (length bytes) (10 + id_len)) payload_too_short
  leader_id ← slice bytes 10 (10 + id_len)
  ok (record { term = term; leader_id = leader_id })

pub record HeartbeatAck : Type 0 where
  pub term : ℕ
  pub last_applied_index : ℕ

unfoldable pub encode_heartbeat_ack : HeartbeatAck → Bytes
encode_heartbeat_ack r = put_uint64 r.term ++ put_uint64 r.last_applied_index

unfoldable pub decode_heartbeat_ack : Bytes → Decode HeartbeatAck
decode_heartbeat_ack bytes = do
  reject_if (ltb (length bytes) 16) payload_too_short
  term ← uint_at bytes 0 8
  last_applied_index ← uint_at bytes 8 16
  ok (record { term = term; last_applied_index = last_applied_index })

pub record VoteRequest : Type 0 where
  pub term : ℕ
  pub candidate_id : Bytes
  pub last_log_index : ℕ

unfoldable pub encode_vote_request : VoteRequest → Bytes
encode_vote_request r =
    put_uint64 r.term
    ++ (put_uint16 (length r.candidate_id % 2 ^ 16)
        ++ (r.candidate_id ++ put_uint64 r.last_log_index))

unfoldable pub decode_vote_request : Bytes → Decode VoteRequest
decode_vote_request bytes = do
  reject_if (ltb (length bytes) 10) payload_too_short
  term ← uint_at bytes 0 8
  id_len ← uint_at bytes 8 10
  reject_if (ltb (length bytes) (10 + id_len + 8)) payload_too_short
  candidate_id ← slice bytes 10 (10 + id_len)
  last_log_index ← uint_at bytes (10 + id_len) (18 + id_len)
  ok (record { term = term; candidate_id = candidate_id; last_log_index = last_log_index })

pub record VoteResponse : Type 0 where
  pub term : ℕ
  pub granted : Bool

unfoldable pub encode_vote_response : VoteResponse → Bytes
encode_vote_response r = put_uint64 r.term ++ (bool_byte r.granted ∷ [])

unfoldable pub decode_vote_response : Bytes → Decode VoteResponse
decode_vote_response bytes = do
  reject_if (ltb (length bytes) 9) payload_too_short
  term ← uint_at bytes 0 8
  granted ← byte_at bytes 8
  ok (record { term = term; granted = granted == 0x01 })
