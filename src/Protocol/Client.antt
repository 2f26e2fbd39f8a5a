-- ===== src/Protocol/Client.antt =====
-- protocol/client/: discovery of the cluster's topology. All offsets here are sums of `int`s.
pub mod Panics
pub mod Node
pub mod Topology
use keva.Prelude.{
  ℕ, zero, suc, ◌+◌, ◌%◌, ◌^◌, List, [], ◌∷◌, ◌++◌, Bytes, length, ltb, ok, ◌>>=◌, ◌>>◌, reject_if,
  slice, byte_at, uint_at, put_uint16,
}
use keva.Protocol.Errors.{Decode, payload_too_short}

pub record TopologyRequest : Type 0 where

unfoldable pub encode_topology_request : TopologyRequest → Bytes
encode_topology_request r = []

unfoldable pub decode_topology_request : Bytes → Decode TopologyRequest
decode_topology_request bytes = ok (record {})

abbrev pub topology_role_follower : ℕ
topology_role_follower = 0x00

abbrev pub topology_role_leader : ℕ
topology_role_leader = 0x01

pub record NodeInfo : Type 0 where
  pub address : Bytes
  pub role : ℕ
  pub node_id : Bytes

pub record TopologyResponse : Type 0 where
  pub leader_addr : Bytes
  pub nodes : List NodeInfo

-- The body of `Encode`'s loop over the nodes.
unfoldable pub encode_node : NodeInfo → Bytes
encode_node n =
    put_uint16 (length n.address % 2 ^ 16)
    ++ (n.address ++ ((n.role ∷ []) ++ (put_uint16 (length n.node_id % 2 ^ 16) ++ n.node_id)))

unfoldable pub encode_nodes : List NodeInfo → Bytes
encode_nodes [] = []
encode_nodes (n ∷ ns) = encode_node n ++ encode_nodes ns

unfoldable pub encode_topology_response : TopologyResponse → Bytes
encode_topology_response t =
    put_uint16 (length t.leader_addr % 2 ^ 16)
    ++ (t.leader_addr ++ (put_uint16 (length t.nodes % 2 ^ 16) ++ encode_nodes t.nodes))

-- The body of `Decode`'s loop: the node at `offset`, and the offset behind it.
unfoldable pub decode_node : Bytes → ℕ → Decode (NodeInfo × ℕ)
decode_node bytes offset = do
  reject_if (ltb (length bytes) (offset + 2)) payload_too_short
  addr_len ← uint_at bytes offset (offset + 2)
  reject_if (ltb (length bytes) (offset + 2 + addr_len)) payload_too_short
  address ← slice bytes (offset + 2) (offset + 2 + addr_len)
  reject_if (ltb (length bytes) (offset + 2 + addr_len + 1)) payload_too_short
  role ← byte_at bytes (offset + 2 + addr_len)
  reject_if (ltb (length bytes) (offset + 2 + addr_len + 1 + 2)) payload_too_short
  id_len ← uint_at bytes (offset + 2 + addr_len + 1) (offset + 2 + addr_len + 1 + 2)
  reject_if (ltb (length bytes) (offset + 2 + addr_len + 1 + 2 + id_len)) payload_too_short
  node_id ← slice bytes (offset + 2 + addr_len + 1 + 2) (offset + 2 + addr_len + 1 + 2 + id_len)
  ok (
    record { address = address; role = role; node_id = node_id },
    offset + 2 + addr_len + 1 + 2 + id_len,
  )

-- The loop; the first argument is the number of rounds left.
unfoldable pub decode_nodes : ℕ → Bytes → ℕ → Decode (List NodeInfo)
decode_nodes zero bytes offset = ok []
decode_nodes (suc i) bytes offset = do
  (node, offset') ← decode_node bytes offset
  nodes ← decode_nodes i bytes offset'
  ok (node ∷ nodes)

unfoldable pub decode_topology_response : Bytes → Decode TopologyResponse
decode_topology_response bytes = do
  reject_if (ltb (length bytes) 4) payload_too_short
  leader_len ← uint_at bytes 0 2
  reject_if (ltb (length bytes) (2 + leader_len)) payload_too_short
  leader_addr ← slice bytes 2 (2 + leader_len)
  reject_if (ltb (length bytes) (2 + leader_len + 2)) payload_too_short
  node_count ← uint_at bytes (2 + leader_len) (2 + leader_len + 2)
  nodes ← decode_nodes node_count bytes (2 + leader_len + 2)
  ok (record { leader_addr = leader_addr; nodes = nodes })
