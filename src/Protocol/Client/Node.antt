-- ===== src/Protocol/Client/Node.antt =====
-- One node of a topology, read back at its offset in a longer payload, whole or cut.
use keva.Prelude.{
  ◌≤◌, ◌∙◌, err, take, bind_err, too_short, too_short_or, uint_at-take, slice-take, byte_at-take,
  length-take_of_le, ℕ, ◌+◌, ◌%◌, ◌^◌, ◌<◌, ◌≡◌, refl, ap, [], ◌∷◌, ◌++◌, append_assoc, arith,
  Bytes, length, length-append, ok, bind_ok, long_enough, slice, slice-part, byte_at, byte_at-part,
  uint_at, uint16_at-part, put_uint16,
}
use keva.Protocol.Errors.{DecodeError, payload_too_short}
use keva.Protocol.Client.{NodeInfo, encode_node, decode_node}

abbrev pub NodeFits : NodeInfo → Type 0
NodeFits n = (length n.address < 2 ^ 16) × (length n.node_id < 2 ^ 16)

module _ (n : NodeInfo) where
  pub length-encode_node : length (encode_node n) ≡ 5 + length n.address + length n.node_id
  unfolding encode_node put_uint16
  length-encode_node = omega (
    arith,
    length-append n.address
        ((n.role ∷ []) ++ (put_uint16 (length n.node_id % 2 ^ 16) ++ n.node_id)),
  )

  module _ (pre post : Bytes) where
    abbrev payload : Bytes
    payload = pre ++ (encode_node n ++ post)

    abbrev addr_len : ℕ
    addr_len = length n.address % 2 ^ 16

    abbrev id_len : ℕ
    id_len = length n.node_id % 2 ^ 16

    length-payload :
        length payload ≡ length pre + (5 + length n.address + length n.node_id) + length post
    length-payload = omega (
      arith,
      length-append pre (encode_node n ++ post),
      length-append (encode_node n) post,
      length-encode_node,
    )

    addr_len_at :
        (o : ℕ) → o ≡ length pre → uint_at {E = DecodeError} payload o (o + 2) ≡ ok addr_len
    unfolding encode_node
    addr_len_at o e =
        simp append_assoc (uint16_at-part pre addr_len _ o (o + 2) (omega arith) e refl)

    -- What stands in front of each field.
    abbrev before_address : Bytes
    before_address = pre ++ put_uint16 addr_len

    abbrev before_role : Bytes
    before_role = pre ++ (put_uint16 addr_len ++ n.address)

    abbrev before_id_len : Bytes
    before_id_len = pre ++ (put_uint16 addr_len ++ (n.address ++ (n.role ∷ [])))

    abbrev before_id : Bytes
    before_id = pre ++ (put_uint16 addr_len ++ (n.address ++ (n.role ∷ put_uint16 id_len)))

    length-before_id_len : length before_id_len ≡ length pre + 2 + length n.address + 1
    length-before_id_len =
        unfold put_uint16 in
        omega (
          arith,
          length-append pre (put_uint16 addr_len ++ (n.address ++ (n.role ∷ []))),
          length-append n.address (n.role ∷ []),
        )

    module _ (o : ℕ) (at_node : o ≡ length pre) (address_fits : length n.address < 2 ^ 16) where
      address_slice : slice {E = DecodeError} payload (o + 2) (o + 2 + addr_len) ≡ ok n.address
      unfolding encode_node
      address_slice = simp append_assoc (
          simp append_assoc at (
            slice-part {E = DecodeError} before_address n.address
              (n.role ∷ (put_uint16 id_len ++ (n.node_id ++ post))) (o + 2) (o + 2 + addr_len)
              (unfold put_uint16 in omega (arith, length-append pre (put_uint16 addr_len)))
              (omega arith)))

      role_at : byte_at {E = DecodeError} payload (o + 2 + addr_len) ≡ ok n.role
      unfolding encode_node
      role_at = simp append_assoc (
          simp append_assoc at (
            byte_at-part {E = DecodeError} before_role n.role
              (put_uint16 id_len ++ (n.node_id ++ post)) (o + 2 + addr_len)
              (unfold put_uint16 in
                omega (arith, length-append pre (put_uint16 addr_len ++ n.address)))))

      id_len_at :
          uint_at {E = DecodeError} payload (o + 2 + addr_len + 1) (o + 2 + addr_len + 1 + 2)
          ≡ ok id_len
      unfolding encode_node
      id_len_at = simp append_assoc (
          simp append_assoc at (
            uint16_at-part {E = DecodeError} before_id_len id_len (n.node_id ++ post)
              (o + 2 + addr_len + 1) (o + 2 + addr_len + 1 + 2) (omega arith)
              (omega (arith, length-before_id_len)) refl))

      id_slice :
          length n.node_id < 2 ^ 16
          → slice {E = DecodeError} payload
              (o + 2 + addr_len + 1 + 2)
              (o + 2 + addr_len + 1 + 2 + id_len)
            ≡ ok n.node_id
      unfolding encode_node
      id_slice h = simp append_assoc (
          simp append_assoc at (
            slice-part {E = DecodeError} before_id n.node_id post (o + 2 + addr_len + 1 + 2)
              (o + 2 + addr_len + 1 + 2 + id_len)
              (unfold put_uint16 in
                omega (
                  arith,
                  length-append pre
                      (put_uint16 addr_len ++ (n.address ++ (n.role ∷ put_uint16 id_len))),
                  length-append n.address (n.role ∷ put_uint16 id_len),
                ))
              (omega arith)))

      pub decode-encode_node :
          length n.node_id < 2 ^ 16 → decode_node payload o ≡ ok (n, o + length (encode_node n))
      unfolding decode_node
      decode-encode_node h =
          bind_ok _ (long_enough L (o + 2) payload_too_short (omega (arith, length-payload))) (
            bind_ok _ (addr_len_at o at_node) (
              bind_ok _
                (long_enough L (o + 2 + addr_len) payload_too_short (omega (arith, length-payload)))
                (bind_ok _ address_slice (
                  bind_ok _
                    (long_enough L (o + 2 + addr_len + 1) payload_too_short
                      (omega (arith, length-payload)))
                    (bind_ok _ role_at (
                      bind_ok _
                        (long_enough L (o + 2 + addr_len + 1 + 2) payload_too_short
                          (omega (arith, length-payload)))
                        (bind_ok _ id_len_at (
                          bind_ok _
                            (long_enough L (o + 2 + addr_len + 1 + 2 + id_len) payload_too_short
                              (omega (arith, length-payload)))
                            (bind_ok _ (id_slice h) (ap (λ (x : ℕ). ok (n, x)) end_lem))))))))))
        where
          L : ℕ
          L = length payload

          end_lem : o + 2 + addr_len + 1 + 2 + id_len ≡ o + length (encode_node n)
          end_lem = omega (arith, length-encode_node)

      -- Cut inside the node, the payload is too short for it.
      pub decode-truncated_node :
          (n' : ℕ)
          → length n.node_id < 2 ^ 16
          → n' < length pre + length (encode_node n)
          → n' ≤ length payload
          → decode_node (take n' payload) o ≡ err payload_too_short
      unfolding decode_node
      decode-truncated_node n' h cut within = too_short_or L (o + 2) _ _ λ a.
          bind_ok _
            (uint_at-take payload n' o (o + 2) (omega arith) (omega (arith, kept)) within
              ∙ addr_len_at o at_node)
            (too_short_or L A _ _ λ b.
              bind_ok _
                (slice-take payload n' (o + 2) A (omega arith) (omega (arith, kept)) within
                  ∙ address_slice)
                (too_short_or L (A + 1) _ _ λ c.
                  bind_ok _ (byte_at-take payload n' A (omega (arith, kept)) ∙ role_at) (
                    too_short_or L (A + 1 + 2) _ _ λ d.
                      bind_ok _
                        (uint_at-take payload n' (A + 1) (A + 1 + 2) (omega arith)
                            (omega (arith, kept)) within
                          ∙ id_len_at)
                        (bind_err _ (
                          too_short L (A + 1 + 2 + id_len) payload_too_short
                            (omega (arith, kept, length-encode_node)))))))
        where
          L : ℕ
          L = length (take n' payload)

          kept : L ≡ n'
          kept = length-take_of_le n' payload within

          A : ℕ
          A = o + 2 + addr_len
