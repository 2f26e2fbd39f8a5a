-- ===== src/Protocol/Message.antt =====
-- protocol/message.go: the message types behind one interface, their registry, and the codec
-- `[OpCode 1B][Payload]`. None of the sixteen encoders returns an error, so `Encode` gives bytes.
pub mod Lookup
pub mod Panics
pub mod RoundTrip
use keva.Prelude.{
  ℕ, zero, suc, ◌≡◌, refl, Option, none, some, List, [], ◌∷◌, ◌++◌, Bytes, length, ltb, ◌==◌,
  if◌then◌else◌, Outcome, ok, err, panic, ◌>>=◌, ◌>>◌, reject_if, map_err, slice, byte_at,
}
use keva.Protocol.Opcodes.{
  op_get, op_set, op_delete, op_get_response, op_set_response, op_delete_response,
  op_topology_request, op_topology_response, op_replication_sync, op_replication_ack,
  op_replication_join, op_heartbeat, op_heartbeat_ack, op_vote_request, op_vote_response, op_error,
}
use keva.Protocol.Errors.{
  DecodeError, payload_too_short, unknown_opcode, decode_failed, Decode, ErrorMessage,
  encode_error_message, decode_error_message,
}
use keva.Protocol.Kv.{
  GetRequest, encode_get_request, decode_get_request, SetRequest, encode_set_request,
  decode_set_request, DeleteRequest, encode_delete_request, decode_delete_request, GetResponse,
  encode_get_response, decode_get_response, SetResponse, encode_set_response, decode_set_response,
  DeleteResponse, encode_delete_response, decode_delete_response,
}
use keva.Protocol.Client.{
  TopologyRequest, encode_topology_request, decode_topology_request, TopologyResponse,
  encode_topology_response, decode_topology_response,
}
use keva.Protocol.Cluster.{
  ReplicationSync, encode_replication_sync, decode_replication_sync, ReplicationAck,
  encode_replication_ack, decode_replication_ack, ReplicationJoin, encode_replication_join,
  decode_replication_join, Heartbeat, encode_heartbeat, decode_heartbeat, HeartbeatAck,
  encode_heartbeat_ack, decode_heartbeat_ack, VoteRequest, encode_vote_request, decode_vote_request,
  VoteResponse, encode_vote_response, decode_vote_response,
}

-- A decoded message: the dynamic types that implement the interface.
pub data Message : Type 0 where
  get_request : GetRequest → Message
  set_request : SetRequest → Message
  delete_request : DeleteRequest → Message
  get_response : GetResponse → Message
  set_response : SetResponse → Message
  delete_response : DeleteResponse → Message
  topology_request : TopologyRequest → Message
  topology_response : TopologyResponse → Message
  replication_sync : ReplicationSync → Message
  replication_ack : ReplicationAck → Message
  replication_join : ReplicationJoin → Message
  heartbeat : Heartbeat → Message
  heartbeat_ack : HeartbeatAck → Message
  vote_request : VoteRequest → Message
  vote_response : VoteResponse → Message
  error_message : ErrorMessage → Message

unfoldable pub op_code : Message → ℕ
op_code (get_request r) = op_get
op_code (set_request r) = op_set
op_code (delete_request r) = op_delete
op_code (get_response r) = op_get_response
op_code (set_response r) = op_set_response
op_code (delete_response r) = op_delete_response
op_code (topology_request r) = op_topology_request
op_code (topology_response r) = op_topology_response
op_code (replication_sync r) = op_replication_sync
op_code (replication_ack r) = op_replication_ack
op_code (replication_join r) = op_replication_join
op_code (heartbeat r) = op_heartbeat
op_code (heartbeat_ack r) = op_heartbeat_ack
op_code (vote_request r) = op_vote_request
op_code (vote_response r) = op_vote_response
op_code (error_message r) = op_error

unfoldable pub encode : Message → Bytes
encode (get_request r) = encode_get_request r
encode (set_request r) = encode_set_request r
encode (delete_request r) = encode_delete_request r
encode (get_response r) = encode_get_response r
encode (set_response r) = encode_set_response r
encode (delete_response r) = encode_delete_response r
encode (topology_request r) = encode_topology_request r
encode (topology_response r) = encode_topology_response r
encode (replication_sync r) = encode_replication_sync r
encode (replication_ack r) = encode_replication_ack r
encode (replication_join r) = encode_replication_join r
encode (heartbeat r) = encode_heartbeat r
encode (heartbeat_ack r) = encode_heartbeat_ack r
encode (vote_request r) = encode_vote_request r
encode (vote_response r) = encode_vote_response r
encode (error_message r) = encode_error_message r

-- A factory makes an empty message of its type, into which `Decode` reads.
pub data Factory : Type 0 where
  new_get_request new_set_request new_delete_request new_get_response new_set_response
        new_delete_response new_topology_request new_topology_response new_replication_sync
        new_replication_ack new_replication_join new_heartbeat new_heartbeat_ack new_vote_request
        new_vote_response new_error_message :
      Factory

unfoldable pub decode : Factory → Bytes → Decode Message
decode new_get_request bytes = do r ← decode_get_request bytes; ok (get_request r)
decode new_set_request bytes = do r ← decode_set_request bytes; ok (set_request r)
decode new_delete_request bytes = do r ← decode_delete_request bytes; ok (delete_request r)
decode new_get_response bytes = do r ← decode_get_response bytes; ok (get_response r)
decode new_set_response bytes = do r ← decode_set_response bytes; ok (set_response r)
decode new_delete_response bytes = do r ← decode_delete_response bytes; ok (delete_response r)
decode new_topology_request bytes = do r ← decode_topology_request bytes; ok (topology_request r)
decode new_topology_response bytes = do r ← decode_topology_response bytes; ok (topology_response r)
decode new_replication_sync bytes = do r ← decode_replication_sync bytes; ok (replication_sync r)
decode new_replication_ack bytes = do r ← decode_replication_ack bytes; ok (replication_ack r)
decode new_replication_join bytes = do r ← decode_replication_join bytes; ok (replication_join r)
decode new_heartbeat bytes = do r ← decode_heartbeat bytes; ok (heartbeat r)
decode new_heartbeat_ack bytes = do r ← decode_heartbeat_ack bytes; ok (heartbeat_ack r)
decode new_vote_request bytes = do r ← decode_vote_request bytes; ok (vote_request r)
decode new_vote_response bytes = do r ← decode_vote_response bytes; ok (vote_response r)
decode new_error_message bytes = do r ← decode_error_message bytes; ok (error_message r)

-- The map from opcodes to factories.
abbrev pub Registry : Type 0
Registry = List (ℕ × Factory)

unfoldable pub lookup_in : Registry → ℕ → Option Factory
lookup_in [] opcode = none
lookup_in ((j, f) ∷ rest) opcode = if j == opcode then some f else lookup_in rest opcode

-- Registering an opcode twice panics.
unfoldable pub register : ℕ → Factory → Registry → Decode Registry
unfolding lookup_in
register opcode factory registry = elim (lookup_in registry opcode) [
  | some f ↦ panic
  | none ↦ ok (registry ++ ((opcode, factory) ∷ []))
]

unfoldable pub register_all : List (ℕ × Factory) → Registry → Decode Registry
unfolding register
register_all [] registry = ok registry
register_all ((opcode, factory) ∷ rest) registry = do
  registry' ← register opcode factory registry
  register_all rest registry'

-- The calls of `Register` in the `init` functions of the packages.
abbrev pub registrations : List (ℕ × Factory)
registrations =
    (op_get, new_get_request)
    ∷ (op_set, new_set_request)
    ∷ (op_delete, new_delete_request)
    ∷ (op_get_response, new_get_response)
    ∷ (op_set_response, new_set_response)
    ∷ (op_delete_response, new_delete_response)
    ∷ (op_topology_request, new_topology_request)
    ∷ (op_topology_response, new_topology_response)
    ∷ (op_replication_sync, new_replication_sync)
    ∷ (op_replication_ack, new_replication_ack)
    ∷ (op_replication_join, new_replication_join)
    ∷ (op_heartbeat, new_heartbeat)
    ∷ (op_heartbeat_ack, new_heartbeat_ack)
    ∷ (op_vote_request, new_vote_request)
    ∷ (op_vote_response, new_vote_response)
    ∷ (op_error, new_error_message)
    ∷ []

-- Started empty, the registry takes all of them.
register_all-registrations : register_all registrations [] ≡ ok registrations
unfolding register_all
register_all-registrations = refl

unfoldable pub lookup : ℕ → Option Factory
unfolding lookup_in
lookup = lookup_in registrations

unfoldable pub encode_message : Message → Bytes
encode_message msg = op_code msg ∷ encode msg

unfoldable pub decode_with : ℕ → Option Factory → Bytes → Decode Message
decode_with opcode none bytes = err (unknown_opcode opcode)
decode_with opcode (some factory) bytes = do
  payload ← slice bytes 1 (length bytes)
  map_err (decode_failed opcode) (decode factory payload)

unfoldable pub decode_message : Bytes → Decode Message
unfolding decode_with
decode_message bytes = do
  reject_if (ltb (length bytes) 1) payload_too_short
  opcode ← byte_at bytes 0
  decode_with opcode (lookup opcode) bytes
