-- ===== src/Protocol/Message/RoundTrip.antt =====
-- Whole messages: decoding an encoding gives the message back, and every proper prefix is refused.
use keva.Prelude.{
  ℕ, suc, ◌+◌, ◌^◌, ◌<◌, ◌≡◌, refl, some, arith, length, take, All, ok, err, bind_ok, bind_err,
}
use keva.Protocol.Errors.{payload_too_short, decode_failed}
use keva.Protocol.Errors.RoundTrip.{decode-encode_error_message, decode-truncated_error_message}
use keva.Protocol.Kv.Requests.{
  decode-encode_get_request, decode-truncated_get_request, decode-encode_set_request,
  decode-truncated_set_request, decode-encode_delete_request, decode-truncated_delete_request,
}
use keva.Protocol.Kv.Responses.{
  decode-encode_get_response, decode-truncated_get_response, decode-encode_set_response,
  decode-truncated_set_response, decode-encode_delete_response, decode-truncated_delete_response,
}
use keva.Protocol.Client.{encode_topology_request, decode_topology_request}
use keva.Protocol.Client.Node.{NodeFits}
use keva.Protocol.Client.Topology.{
  decode-encode_topology_response, decode-truncated_topology_response,
}
use keva.Protocol.Cluster.Replication.{
  decode-encode_replication_sync, decode-truncated_replication_sync, decode-encode_replication_ack,
  decode-truncated_replication_ack, decode-encode_replication_join,
  decode-truncated_replication_join,
}
use keva.Protocol.Cluster.Election.{
  decode-encode_heartbeat, decode-truncated_heartbeat, decode-encode_heartbeat_ack,
  decode-truncated_heartbeat_ack, decode-encode_vote_request, decode-truncated_vote_request,
  decode-encode_vote_response, decode-truncated_vote_response,
}
use keva.Protocol.Message.Lookup.{decode_message_lem}
use keva.Protocol.Message.{
  Message, get_request, set_request, delete_request, get_response, set_response, delete_response,
  topology_request, topology_response, replication_sync, replication_ack, replication_join,
  heartbeat, heartbeat_ack, vote_request, vote_response, error_message, Factory, op_code, encode,
  decode, lookup, encode_message, decode_message,
}

-- The fields fit their words on the wire, and the offsets of the decoder do not wrap.
abbrev pub Fits : Message → Type 0
Fits (get_request r) = length r.key + 2 < 2 ^ 16
Fits (set_request r) = (length r.key + 14 < 2 ^ 16) × (length r.value < 2 ^ 32) × (r.ttl < 2 ^ 64)
Fits (delete_request r) = length r.key + 2 < 2 ^ 16
Fits (get_response r) = length r.value + 5 < 2 ^ 32
Fits (set_response r) = length r.message + 3 < 2 ^ 16
Fits (delete_response r) = length r.message + 3 < 2 ^ 16
Fits (topology_request r) = Unit
Fits (topology_response r) =
    (length r.leader_addr < 2 ^ 16) × (length r.nodes < 2 ^ 16) × (All NodeFits r.nodes)
Fits (replication_sync r) =
    (r.log_index < 2 ^ 64)
    × (length r.key < 2 ^ 16)
    × (length r.value < 2 ^ 32)
    × (r.expires_at < 2 ^ 64)
Fits (replication_ack r) = r.last_applied_index < 2 ^ 64
Fits (replication_join r) = length r.node_addr < 2 ^ 16
Fits (heartbeat r) = (r.term < 2 ^ 64) × (length r.leader_id < 2 ^ 16)
Fits (heartbeat_ack r) = (r.term < 2 ^ 64) × (r.last_applied_index < 2 ^ 64)
Fits (vote_request r) =
    (r.term < 2 ^ 64) × (length r.candidate_id < 2 ^ 16) × (r.last_log_index < 2 ^ 64)
Fits (vote_response r) = r.term < 2 ^ 64
Fits (error_message r) = (r.code < 2 ^ 16) × (length r.message < 2 ^ 16)

-- The message that `decode` is asked for.
abbrev factory_of : Message → Factory
factory_of (get_request r) = Factory.new_get_request
factory_of (set_request r) = Factory.new_set_request
factory_of (delete_request r) = Factory.new_delete_request
factory_of (get_response r) = Factory.new_get_response
factory_of (set_response r) = Factory.new_set_response
factory_of (delete_response r) = Factory.new_delete_response
factory_of (topology_request r) = Factory.new_topology_request
factory_of (topology_response r) = Factory.new_topology_response
factory_of (replication_sync r) = Factory.new_replication_sync
factory_of (replication_ack r) = Factory.new_replication_ack
factory_of (replication_join r) = Factory.new_replication_join
factory_of (heartbeat r) = Factory.new_heartbeat
factory_of (heartbeat_ack r) = Factory.new_heartbeat_ack
factory_of (vote_request r) = Factory.new_vote_request
factory_of (vote_response r) = Factory.new_vote_response
factory_of (error_message r) = Factory.new_error_message

lookup-op_code : (m : Message) → lookup (op_code m) ≡ some (factory_of m)
unfolding lookup op_code
lookup-op_code (get_request r) = refl
lookup-op_code (set_request r) = refl
lookup-op_code (delete_request r) = refl
lookup-op_code (get_response r) = refl
lookup-op_code (set_response r) = refl
lookup-op_code (delete_response r) = refl
lookup-op_code (topology_request r) = refl
lookup-op_code (topology_response r) = refl
lookup-op_code (replication_sync r) = refl
lookup-op_code (replication_ack r) = refl
lookup-op_code (replication_join r) = refl
lookup-op_code (heartbeat r) = refl
lookup-op_code (heartbeat_ack r) = refl
lookup-op_code (vote_request r) = refl
lookup-op_code (vote_response r) = refl
lookup-op_code (error_message r) = refl

decode-encode : (m : Message) → Fits m → decode (factory_of m) (encode m) ≡ ok m
unfolding decode encode
decode-encode (get_request r) h = bind_ok _ (decode-encode_get_request r h) refl
decode-encode (set_request r) h = bind_ok _ (decode-encode_set_request r h.0 h.1 h.2) refl
decode-encode (delete_request r) h = bind_ok _ (decode-encode_delete_request r h) refl
decode-encode (get_response r) h = bind_ok _ (decode-encode_get_response r h) refl
decode-encode (set_response r) h = bind_ok _ (decode-encode_set_response r h) refl
decode-encode (delete_response r) h = bind_ok _ (decode-encode_delete_response r h) refl
decode-encode (topology_request r) h = unfold decode_topology_request in refl
decode-encode (topology_response r) h =
    bind_ok _ (decode-encode_topology_response r h.0 h.1 h.2) refl
decode-encode (replication_sync r) h =
    bind_ok _ (decode-encode_replication_sync r h.0 h.1 h.2 h.3) refl
decode-encode (replication_ack r) h = bind_ok _ (decode-encode_replication_ack r h) refl
decode-encode (replication_join r) h = bind_ok _ (decode-encode_replication_join r h) refl
decode-encode (heartbeat r) h = bind_ok _ (decode-encode_heartbeat r h.0 h.1) refl
decode-encode (heartbeat_ack r) h = bind_ok _ (decode-encode_heartbeat_ack r h.0 h.1) refl
decode-encode (vote_request r) h = bind_ok _ (decode-encode_vote_request r h.0 h.1 h.2) refl
decode-encode (vote_response r) h = bind_ok _ (decode-encode_vote_response r h) refl
decode-encode (error_message r) h = bind_ok _ (decode-encode_error_message r h.0 h.1) refl

decode-truncated :
    (m : Message) (n : ℕ)
    → Fits m
    → n < length (encode m)
    → decode (factory_of m) (take n (encode m)) ≡ err payload_too_short
unfolding decode encode
decode-truncated (get_request r) n h cut = bind_err _ (decode-truncated_get_request r n h cut)
decode-truncated (set_request r) n h cut =
    bind_err _ (decode-truncated_set_request r n h.0 h.1 h.2 cut)
decode-truncated (delete_request r) n h cut = bind_err _ (decode-truncated_delete_request r n h cut)
decode-truncated (get_response r) n h cut = bind_err _ (decode-truncated_get_response r n h cut)
decode-truncated (set_response r) n h cut = bind_err _ (decode-truncated_set_response r n h cut)
decode-truncated (delete_response r) n h cut =
    bind_err _ (decode-truncated_delete_response r n h cut)
decode-truncated (topology_request r) n h cut =
    absurd (unfold encode_topology_request in omega arith)
decode-truncated (topology_response r) n h cut =
    bind_err _ (decode-truncated_topology_response r h.0 h.1 n h.2 cut)
decode-truncated (replication_sync r) n h cut =
    bind_err _ (decode-truncated_replication_sync r n h.0 h.1 h.2 h.3 cut)
decode-truncated (replication_ack r) n h cut =
    bind_err _ (decode-truncated_replication_ack r n h cut)
decode-truncated (replication_join r) n h cut =
    bind_err _ (decode-truncated_replication_join r n h cut)
decode-truncated (heartbeat r) n h cut = bind_err _ (decode-truncated_heartbeat r n h.0 h.1 cut)
decode-truncated (heartbeat_ack r) n h cut =
    bind_err _ (decode-truncated_heartbeat_ack r n h.0 h.1 cut)
decode-truncated (vote_request r) n h cut =
    bind_err _ (decode-truncated_vote_request r n h.0 h.1 h.2 cut)
decode-truncated (vote_response r) n h cut = bind_err _ (decode-truncated_vote_response r n h cut)
decode-truncated (error_message r) n h cut =
    bind_err _ (decode-truncated_error_message r n h.0 h.1 cut)

-- A message whose fields fit is read back as it was written.
pub decode_message-encode_message :
    (m : Message) → Fits m → decode_message (encode_message m) ≡ ok m
unfolding encode_message
decode_message-encode_message m h =
    rw (
      decode_message_lem (op_code m) (encode m) (factory_of m) (lookup-op_code m),
      decode-encode m h,
    )

-- Cut anywhere behind its opcode, the encoding of a message whose fields fit is refused as too
-- short; the decoder neither panics nor reads another message.
pub decode_message-truncated :
    (m : Message) (n : ℕ)
    → Fits m
    → n < length (encode m)
    → decode_message (take (suc n) (encode_message m))
      ≡ err (decode_failed (op_code m) payload_too_short)
unfolding encode_message take
decode_message-truncated m n h cut = rw (
  decode_message_lem (op_code m) (take n (encode m)) (factory_of m) (lookup-op_code m),
  decode-truncated m n h cut,
)
