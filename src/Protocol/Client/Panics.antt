-- ===== src/Protocol/Client/Panics.antt =====
-- The decoders of protocol/client/ panic on no payload.
use keva.Prelude.{
  ℕ, zero, suc, ◌+◌, ◌-◌, ◌≤◌, ◌≡◌, ◌⊎◌, inl, inr, refl, arith, Bytes, length, take, drop, ok, err,
  panic, panic_after_test, panic_after_ok, slice_panic, byte_at_in_range, uint_at_in_range, uint,
}
use keva.Protocol.Errors.{DecodeError, Decode, payload_too_short}
use keva.Protocol.Client.{decode_node, decode_nodes, decode_topology_response}

decode_node_panic : (bytes : Bytes) (o : ℕ) → decode_node bytes o ≡ panic → ⊥
unfolding decode_node
decode_node_panic bytes o h =
    let (passed, p0) = panic_after_test (length bytes) (o + 2) payload_too_short _ h in
    let a : o + 2 ≤ length bytes = passed in
    let p1 =
      panic_after_ok _ (uint_at_in_range {E = DecodeError} bytes o (o + 2) (omega arith) a) p0 in
    let A : ℕ = o + 2 + uint (take (o + 2 - o) (drop o bytes)) in
    let (passed, p2) = panic_after_test (length bytes) A payload_too_short _ p1 in
    let b : A ≤ length bytes = passed in
    let p3 = slice_panic bytes (o + 2) A _ (omega arith) b p2 in
    let (passed, p4) = panic_after_test (length bytes) (A + 1) payload_too_short _ p3 in
    let c : A + 1 ≤ length bytes = passed in
    let (role, role_e) = byte_at_in_range {E = DecodeError} bytes A (omega arith) in
    let p5 = panic_after_ok _ role_e p4 in
    let (passed, p6) = panic_after_test (length bytes) (A + 1 + 2) payload_too_short _ p5 in
    let d : A + 1 + 2 ≤ length bytes = passed in
    let p7 =
      panic_after_ok _
        (uint_at_in_range {E = DecodeError} bytes (A + 1) (A + 1 + 2) (omega arith) d) p6 in
    let I : ℕ = A + 1 + 2 + uint (take (A + 1 + 2 - (A + 1)) (drop (A + 1) bytes)) in
    let (passed, p8) = panic_after_test (length bytes) I payload_too_short _ p7 in
    let e : I ≤ length bytes = passed in
    let p9 = slice_panic bytes (A + 1 + 2) I _ (omega arith) e p8 in absurd (cc p9)

Decode-cases :
    {A : Type 0} (r : Decode A)
    → ((a : A) × (r ≡ ok a)) ⊎ ((((e : DecodeError) × (r ≡ err e)) ⊎ (r ≡ panic)))
Decode-cases (ok a) = inl (a, refl)
Decode-cases (err e) = inr (inl (e, refl))
Decode-cases panic = inr (inr refl)

decode_nodes_panic : (i : ℕ) (bytes : Bytes) (o : ℕ) → decode_nodes i bytes o ≡ panic → ⊥
unfolding decode_nodes
decode_nodes_panic zero bytes o h = cc
decode_nodes_panic (suc i) bytes o h = elim (Decode-cases (decode_node bytes o)) [
  | inl ((n, o'), e) ↦ elim (Decode-cases (decode_nodes i bytes o')) [
    | inl (ns, e') ↦ cc (panic_after_ok _ e' (panic_after_ok _ e h))
    | inr (inl (x, e')) ↦ cc (rw e' at (panic_after_ok _ e h))
    | inr (inr e') ↦ decode_nodes_panic i bytes o' e'
  ]
  | inr (inl (x, e)) ↦ cc (rw e at h)
  | inr (inr e) ↦ decode_node_panic bytes o e
]

pub decode_topology_response_panic : (bytes : Bytes) → decode_topology_response bytes ≡ panic → ⊥
unfolding decode_topology_response
decode_topology_response_panic bytes h =
    let (passed, p0) = panic_after_test (length bytes) 4 payload_too_short _ h in
    let a : 4 ≤ length bytes = passed in
    let p1 =
      panic_after_ok _ (uint_at_in_range {E = DecodeError} bytes 0 2 (omega arith) (omega arith))
        p0 in
    let L : ℕ = 2 + uint (take 2 (drop 0 bytes)) in
    let (passed, p2) = panic_after_test (length bytes) L payload_too_short _ p1 in
    let b : L ≤ length bytes = passed in
    let p3 = slice_panic bytes 2 L _ (omega arith) b p2 in
    let (passed, p4) = panic_after_test (length bytes) (L + 2) payload_too_short _ p3 in
    let c : L + 2 ≤ length bytes = passed in
    let p5 =
      panic_after_ok _ (uint_at_in_range {E = DecodeError} bytes L (L + 2) (omega arith) c) p4 in
    let count : ℕ = uint (take (L + 2 - L) (drop L bytes)) in
    elim (Decode-cases (decode_nodes count bytes (L + 2))) [
      | inl (ns, e) ↦ cc (panic_after_ok _ e p5)
      | inr (inl (x, e)) ↦ cc (rw e at p5)
      | inr (inr e) ↦ decode_nodes_panic count bytes (L + 2) e
    ]
