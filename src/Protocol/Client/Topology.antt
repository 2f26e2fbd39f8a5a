-- ===== src/Protocol/Client/Topology.antt =====
-- The topology response: what is decoded from an encoding, whole or cut.
use keva.Prelude.{
  ℕ, ◌+◌, ◌-◌, ◌%◌, ◌^◌, ◌≤◌, ◌<◌, ◌≡◌, refl, ap, sym, suc, ◌∙◌, inl, inr, List, [], ◌∷◌, ◌++◌,
  append_assoc, append-nil, arith, Bytes, length, take, All, ltb, Bool-cases, ltb→lt, ltb_false→le,
  length-append, length-take_of_le, take-append_ge, ok, err, bind_ok, bind_err, long_enough,
  too_short_or, slice, slice-part, slice-take, uint_at, uint_at-take, uint16_at-part, put_uint16,
}
use keva.Protocol.Errors.{DecodeError, payload_too_short}
use keva.Protocol.Client.{
  NodeInfo, TopologyResponse, encode_node, encode_nodes, encode_topology_response, decode_node,
  decode_nodes, decode_topology_response,
}
use keva.Protocol.Client.Node.{NodeFits, decode-encode_node, decode-truncated_node}

nodes_split :
    (n : NodeInfo) (ns : List NodeInfo) (pre post : Bytes)
    → pre ++ (encode_nodes (n ∷ ns) ++ post) ≡ pre ++ (encode_node n ++ (encode_nodes ns ++ post))
unfolding encode_nodes
nodes_split n ns pre post = simp append_assoc

decode-encode_nodes :
    (ns : List NodeInfo) (pre post : Bytes) (o : ℕ)
    → o ≡ length pre
    → All NodeFits ns
    → decode_nodes (length ns) (pre ++ (encode_nodes ns ++ post)) o ≡ ok ns
unfolding decode_nodes
decode-encode_nodes [] pre post o e h = refl
decode-encode_nodes (n ∷ ns) pre post o e h =
    let rest : Bytes = encode_nodes ns ++ post in
    rw (nodes_split n ns pre post) (
      bind_ok _ (decode-encode_node n pre rest o e h.0.0 h.0.1) (
        bind_ok _
          (rw (append_assoc pre (encode_node n) rest) at (
            decode-encode_nodes ns (pre ++ encode_node n) post (o + length (encode_node n))
              (omega (arith, length-append pre (encode_node n))) h.1))
          refl))

-- One round of the loop on a cut payload, given what the other rounds do.
decode-truncated_step :
    (n : NodeInfo) (ns : List NodeInfo) (pre : Bytes) (o n' : ℕ)
    → o ≡ length pre
    → NodeFits n
    → n' ≤ length (pre ++ (encode_node n ++ encode_nodes ns))
    → (length (pre ++ encode_node n) ≤ n'
        → decode_nodes
            (length ns)
            (take n' ((pre ++ encode_node n) ++ encode_nodes ns))
            (o + length (encode_node n))
          ≡ err payload_too_short)
    → decode_nodes (suc (length ns)) (take n' (pre ++ (encode_node n ++ encode_nodes ns))) o
      ≡ err payload_too_short
unfolding decode_nodes
decode-truncated_step n ns pre o n' e h within others = elim (Bool-cases (ltb n' (length front))) [
  | inl near ↦ bind_err _ (
      decode-truncated_node n pre rest o e h.0 n' h.1
        (omega (arith, ltb→lt _ _ near, length-append pre (encode_node n))) within)
  | inr far ↦
      bind_ok _ (whole (ltb_false→le _ _ far))
        (bind_err _ (rw (append_assoc pre (encode_node n) rest) at (others (ltb_false→le _ _ far))))
]
  where
    rest : Bytes
    rest = encode_nodes ns

    front : Bytes
    front = pre ++ encode_node n

    cut_rest : Bytes
    cut_rest = take (n' - length front) rest

    shape :
        length front ≤ n'
        → take n' (pre ++ (encode_node n ++ rest)) ≡ pre ++ (encode_node n ++ cut_rest)
    shape far =
        ap (take n') (sym (append_assoc pre (encode_node n) rest))
        ∙ take-append_ge n' front rest far
        ∙ append_assoc pre (encode_node n) cut_rest

    whole :
        length front ≤ n'
        → decode_node (take n' (pre ++ (encode_node n ++ rest))) o
          ≡ ok (n, o + length (encode_node n))
    whole far = rw (shape far) (decode-encode_node n pre cut_rest o e h.0 h.1)

decode-truncated_nodes :
    (ns : List NodeInfo) (pre : Bytes) (o n' : ℕ)
    → o ≡ length pre
    → All NodeFits ns
    → length pre ≤ n'
    → n' < length (pre ++ encode_nodes ns)
    → decode_nodes (length ns) (take n' (pre ++ encode_nodes ns)) o ≡ err payload_too_short
unfolding encode_nodes
decode-truncated_nodes [] pre o n' e h from cut = absurd (omega (arith, length-append pre []))
decode-truncated_nodes (n ∷ ns) pre o n' e h from cut =
    decode-truncated_step n ns pre o n' e h.0 (omega arith) λ far.
      decode-truncated_nodes ns (pre ++ encode_node n) (o + length (encode_node n)) n'
        (omega (arith, length-append pre (encode_node n))) h.1 far
        (rw (append_assoc pre (encode_node n) (encode_nodes ns)) cut)

module _ (t : TopologyResponse) (leader_fits : length t.leader_addr < 2 ^ 16)
    (count_fits : length t.nodes < 2 ^ 16) where
  abbrev leader_len : ℕ
  leader_len = length t.leader_addr % 2 ^ 16

  abbrev node_count : ℕ
  node_count = length t.nodes % 2 ^ 16

  abbrev wire : Bytes
  wire = encode_topology_response t

  abbrev header : Bytes
  header = put_uint16 leader_len ++ (t.leader_addr ++ put_uint16 node_count)

  wire-header : wire ≡ header ++ encode_nodes t.nodes
  unfolding encode_topology_response
  wire-header = simp append_assoc

  length-header : length header ≡ 4 + length t.leader_addr
  unfolding put_uint16
  length-header = omega (arith, length-append t.leader_addr (put_uint16 node_count))

  length-wire : length wire ≡ 4 + length t.leader_addr + length (encode_nodes t.nodes)
  length-wire =
      rw wire-header (omega (arith, length-header, length-append header (encode_nodes t.nodes)))

  leader_len_at : uint_at {E = DecodeError} wire 0 2 ≡ ok leader_len
  unfolding encode_topology_response
  leader_len_at = uint16_at-part [] leader_len _ 0 2 (omega arith) refl refl

  leader_slice : slice {E = DecodeError} wire 2 (2 + leader_len) ≡ ok t.leader_addr
  unfolding encode_topology_response put_uint16
  leader_slice =
      slice-part (put_uint16 leader_len) t.leader_addr _ 2 (2 + leader_len) refl (omega arith)

  node_count_at :
      uint_at {E = DecodeError} wire (2 + leader_len) (2 + leader_len + 2) ≡ ok node_count
  unfolding encode_topology_response put_uint16
  node_count_at =
      uint16_at-part (put_uint16 leader_len ++ t.leader_addr) node_count _ (2 + leader_len)
        (2 + leader_len + 2) (omega arith) (omega arith) refl

  node_count_exact : node_count ≡ length t.nodes
  node_count_exact = omega arith

  nodes_of_wire :
      All NodeFits t.nodes → decode_nodes node_count wire (2 + leader_len + 2) ≡ ok t.nodes
  nodes_of_wire h =
      rw (node_count_exact, wire-header, ← append-nil (encode_nodes t.nodes))
        (decode-encode_nodes t.nodes header [] (2 + leader_len + 2) (omega (arith, length-header))
          h)

  pub decode-encode_topology_response : All NodeFits t.nodes → decode_topology_response wire ≡ ok t
  unfolding decode_topology_response
  decode-encode_topology_response h =
      bind_ok _ (long_enough L 4 payload_too_short (omega (arith, length-wire))) (
        bind_ok _ leader_len_at (
          bind_ok _ (long_enough L (2 + leader_len) payload_too_short (omega (arith, length-wire)))
            (bind_ok _ leader_slice (
              bind_ok _
                (long_enough L (2 + leader_len + 2) payload_too_short (omega (arith, length-wire)))
                (bind_ok _ node_count_at (bind_ok _ (nodes_of_wire h) refl))))))
    where
      L : ℕ
      L = length wire

  pub decode-truncated_topology_response :
      (n : ℕ)
      → All NodeFits t.nodes
      → n < length wire
      → decode_topology_response (take n wire) ≡ err payload_too_short
  unfolding decode_topology_response
  decode-truncated_topology_response n h cut = too_short_or L 4 _ _ λ a.
      bind_ok _ (uint_at-take wire n 0 2 (omega arith) (omega (arith, kept)) within ∙ leader_len_at)
        (too_short_or L (2 + leader_len) _ _ λ b.
          bind_ok _
            (slice-take wire n 2 (2 + leader_len) (omega arith) (omega (arith, kept)) within
              ∙ leader_slice)
            (too_short_or L (2 + leader_len + 2) _ _ λ c.
              bind_ok _
                (uint_at-take wire n (2 + leader_len) (2 + leader_len + 2) (omega arith)
                    (omega (arith, kept)) within
                  ∙ node_count_at)
                (bind_err _ (cut_nodes c))))
    where
      L : ℕ
      L = length (take n wire)

      within : n ≤ length wire
      within = omega arith

      kept : L ≡ n
      kept = length-take_of_le n wire within

      cut_nodes :
          2 + leader_len + 2 ≤ L
          → decode_nodes node_count (take n wire) (2 + leader_len + 2) ≡ err payload_too_short
      cut_nodes c =
          rw (node_count_exact, wire-header)
            (decode-truncated_nodes t.nodes header (2 + leader_len + 2) n
              (omega (arith, length-header)) h (omega (arith, length-header, kept, c))
              (rw (← wire-header) cut))
