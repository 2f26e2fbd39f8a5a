-- ===== src/Protocol/Cluster/Replication.antt =====
-- The replication messages: what is decoded from an encoding, whole or cut.
use keva.Prelude.{
  ℕ, ◌+◌, ◌%◌, ◌^◌, ◌≤◌, ◌<◌, ◌≡◌, refl, ◌∙◌, inl, inr, [], ◌∷◌, ◌++◌, arith, length, take, ltb,
  Bool-cases, ltb→lt, ltb_false→le, length-append, length-take, length-take_of_le, ok, err, bind_ok,
  bind_err, long_enough, too_short, slice, slice-part, slice-tail, byte_at, byte_at-part,
  byte_at-take, uint_at, uint_at-take, uint16_at-part, uint32_at-part, uint64_at-part, put_uint16,
  put_uint32, put_uint64,
}
use keva.Protocol.Errors.{DecodeError, payload_too_short}
use keva.Protocol.Cluster.{
  ReplicationSync, encode_replication_sync, decode_replication_sync, ReplicationAck,
  encode_replication_ack, decode_replication_ack, ReplicationJoin, encode_replication_join,
  decode_replication_join,
}

module _ (r : ReplicationSync) where
  pub length-encode_replication_sync :
      length (encode_replication_sync r) ≡ 23 + length r.key + length r.value
  unfolding encode_replication_sync put_uint16 put_uint32 put_uint64
  length-encode_replication_sync = omega (arith, length-append r.key r.value)

  replication_sync_log_index_at :
      r.log_index < 2 ^ 64
      → uint_at {E = DecodeError} (encode_replication_sync r) 0 8 ≡ ok (r.log_index)
  unfolding encode_replication_sync put_uint16 put_uint32 put_uint64
  replication_sync_log_index_at h = uint64_at-part [] (r.log_index) _ 0 8 h refl refl

  replication_sync_op_at : byte_at {E = DecodeError} (encode_replication_sync r) 8 ≡ ok (r.op)
  unfolding encode_replication_sync put_uint16 put_uint32 put_uint64
  replication_sync_op_at = byte_at-part (put_uint64 r.log_index) (r.op) _ 8 refl

  replication_sync_key_len_at :
      uint_at {E = DecodeError} (encode_replication_sync r) 9 11 ≡ ok (length r.key % 2 ^ 16)
  unfolding encode_replication_sync put_uint16 put_uint32 put_uint64
  replication_sync_key_len_at =
      uint16_at-part (put_uint64 r.log_index ++ (r.op ∷ [])) (length r.key % 2 ^ 16) _ 9 11
        (omega arith) refl refl

  replication_sync_val_len_at :
      uint_at {E = DecodeError} (encode_replication_sync r) 11 15 ≡ ok (length r.value % 2 ^ 32)
  unfolding encode_replication_sync put_uint16 put_uint32 put_uint64
  replication_sync_val_len_at =
      uint32_at-part (put_uint64 r.log_index ++ (r.op ∷ []) ++ put_uint16 (length r.key % 2 ^ 16))
        (length r.value % 2 ^ 32) _ 11 15 (omega arith) refl refl

  replication_sync_expires_at_at :
      r.expires_at < 2 ^ 64
      → uint_at {E = DecodeError} (encode_replication_sync r) 15 23 ≡ ok (r.expires_at)
  unfolding encode_replication_sync put_uint16 put_uint32 put_uint64
  replication_sync_expires_at_at h =
      uint64_at-part
        (put_uint64 r.log_index
          ++ (r.op ∷ [])
          ++ put_uint16 (length r.key % 2 ^ 16)
          ++ put_uint32 (length r.value % 2 ^ 32))
        (r.expires_at) _ 15 23 h refl refl

  replication_sync_key_slice :
      (hi : ℕ)
      → hi ≡ 23 + length r.key
      → slice {E = DecodeError} (encode_replication_sync r) 23 hi ≡ ok r.key
  unfolding encode_replication_sync put_uint16 put_uint32 put_uint64
  replication_sync_key_slice hi e =
      slice-part
        (put_uint64 r.log_index
          ++ (r.op ∷ [])
          ++ put_uint16 (length r.key % 2 ^ 16)
          ++ put_uint32 (length r.value % 2 ^ 32)
          ++ put_uint64 r.expires_at)
        r.key _ 23 hi refl e

  replication_sync_value_slice :
      (lo hi : ℕ)
      → lo ≡ 23 + length r.key
      → hi ≡ lo + length r.value
      → slice {E = DecodeError} (encode_replication_sync r) lo hi ≡ ok r.value
  unfolding encode_replication_sync put_uint16 put_uint32 put_uint64
  replication_sync_value_slice lo hi e e' =
      slice-tail
        ((put_uint64 r.log_index
            ++ (r.op ∷ [])
            ++ put_uint16 (length r.key % 2 ^ 16)
            ++ put_uint32 (length r.value % 2 ^ 32)
            ++ put_uint64 r.expires_at)
          ++ r.key)
        r.value lo hi (omega (arith, e)) e'

  pub decode-encode_replication_sync :
      r.log_index < 2 ^ 64
      → length r.key < 2 ^ 16
      → length r.value < 2 ^ 32
      → r.expires_at < 2 ^ 64
      → decode_replication_sync (encode_replication_sync r) ≡ ok r
  unfolding decode_replication_sync
  decode-encode_replication_sync h_log_index h_key h_value h_expires_at =
      bind_ok _
        (long_enough (length (encode_replication_sync r)) 23 payload_too_short
          (omega (arith, length-encode_replication_sync)))
        (bind_ok _ (replication_sync_log_index_at h_log_index) (
          bind_ok _ replication_sync_op_at (
            bind_ok _ replication_sync_key_len_at (
              bind_ok _ replication_sync_val_len_at (
                bind_ok _ (replication_sync_expires_at_at h_expires_at) (
                  bind_ok _
                    (long_enough (length (encode_replication_sync r))
                      (23 + length r.key % 2 ^ 16 + length r.value % 2 ^ 32) payload_too_short
                      (omega (arith, length-encode_replication_sync)))
                    (bind_ok _
                      (replication_sync_key_slice (23 + length r.key % 2 ^ 16) (omega arith))
                      (bind_ok _
                        (replication_sync_value_slice (23 + length r.key % 2 ^ 16)
                          (23 + length r.key % 2 ^ 16 + length r.value % 2 ^ 32) (omega arith)
                          (omega arith))
                        refl))))))))

  pub decode-truncated_replication_sync :
      (n : ℕ)
      → r.log_index < 2 ^ 64
      → length r.key < 2 ^ 16
      → length r.value < 2 ^ 32
      → r.expires_at < 2 ^ 64
      → n < length (encode_replication_sync r)
      → decode_replication_sync (take n (encode_replication_sync r)) ≡ err payload_too_short
  unfolding decode_replication_sync
  decode-truncated_replication_sync n h_log_index h_key h_value h_expires_at cut =
      let kept : length (take n (encode_replication_sync r)) ≡ n =
        length-take_of_le n (encode_replication_sync r) (omega arith) in
      elim (Bool-cases (ltb n 23)) [
        | inl near ↦ bind_err _ (
            too_short (length (take n (encode_replication_sync r))) 23 payload_too_short
              (omega (arith, kept, ltb→lt n 23 near)))
        | inr beyond ↦
            let far : 23 ≤ n = ltb_false→le n 23 beyond in
            bind_ok _
              (long_enough (length (take n (encode_replication_sync r))) 23 payload_too_short
                (omega (arith, kept, far)))
              (bind_ok _
                (uint_at-take (encode_replication_sync r) n 0 8 (omega arith) (omega (arith, far))
                    (omega arith)
                  ∙ (replication_sync_log_index_at h_log_index))
                (bind_ok _
                  (byte_at-take (encode_replication_sync r) n 8 (omega (arith, far))
                    ∙ replication_sync_op_at)
                  (bind_ok _
                    (uint_at-take (encode_replication_sync r) n 9 11 (omega arith)
                        (omega (arith, far)) (omega arith)
                      ∙ replication_sync_key_len_at)
                    (bind_ok _
                      (uint_at-take (encode_replication_sync r) n 11 15 (omega arith)
                          (omega (arith, far)) (omega arith)
                        ∙ replication_sync_val_len_at)
                      (bind_ok _
                        (uint_at-take (encode_replication_sync r) n 15 23 (omega arith)
                            (omega (arith, far)) (omega arith)
                          ∙ (replication_sync_expires_at_at h_expires_at))
                        (bind_err _ (
                          too_short (length (take n (encode_replication_sync r)))
                            (23 + length r.key % 2 ^ 16 + length r.value % 2 ^ 32) payload_too_short
                            (omega (arith, kept, length-encode_replication_sync)))))))))
      ]

module _ (r : ReplicationAck) where
  pub length-encode_replication_ack : length (encode_replication_ack r) ≡ 8
  unfolding encode_replication_ack put_uint64
  length-encode_replication_ack = omega arith

  replication_ack_last_applied_index_at :
      r.last_applied_index < 2 ^ 64
      → uint_at {E = DecodeError} (encode_replication_ack r) 0 8 ≡ ok (r.last_applied_index)
  unfolding encode_replication_ack put_uint64
  replication_ack_last_applied_index_at h =
      uint64_at-part [] (r.last_applied_index) _ 0 8 h refl refl

  pub decode-encode_replication_ack :
      r.last_applied_index < 2 ^ 64 → decode_replication_ack (encode_replication_ack r) ≡ ok r
  unfolding decode_replication_ack
  decode-encode_replication_ack h_last_applied_index =
      bind_ok _
        (long_enough (length (encode_replication_ack r)) 8 payload_too_short
          (omega (arith, length-encode_replication_ack)))
        (bind_ok _ (replication_ack_last_applied_index_at h_last_applied_index) refl)

  pub decode-truncated_replication_ack :
      (n : ℕ)
      → r.last_applied_index < 2 ^ 64
      → n < length (encode_replication_ack r)
      → decode_replication_ack (take n (encode_replication_ack r)) ≡ err payload_too_short
  unfolding decode_replication_ack
  decode-truncated_replication_ack n h_last_applied_index cut = bind_err _ (
      too_short (length (take n (encode_replication_ack r))) 8 payload_too_short
        (omega (arith, length-encode_replication_ack, length-take n (encode_replication_ack r))))

module _ (r : ReplicationJoin) where
  pub length-encode_replication_join : length (encode_replication_join r) ≡ 2 + length r.node_addr
  unfolding encode_replication_join put_uint16
  length-encode_replication_join = omega arith

  replication_join_addr_len_at :
      uint_at {E = DecodeError} (encode_replication_join r) 0 2 ≡ ok (length r.node_addr % 2 ^ 16)
  unfolding encode_replication_join put_uint16
  replication_join_addr_len_at =
      uint16_at-part [] (length r.node_addr % 2 ^ 16) _ 0 2 (omega arith) refl refl

  replication_join_node_addr_slice :
      (hi : ℕ)
      → hi ≡ 2 + length r.node_addr
      → slice {E = DecodeError} (encode_replication_join r) 2 hi ≡ ok r.node_addr
  unfolding encode_replication_join put_uint16
  replication_join_node_addr_slice hi e =
      slice-tail (put_uint16 (length r.node_addr % 2 ^ 16)) r.node_addr 2 hi refl e

  pub decode-encode_replication_join :
      length r.node_addr < 2 ^ 16 → decode_replication_join (encode_replication_join r) ≡ ok r
  unfolding decode_replication_join
  decode-encode_replication_join h_node_addr =
      bind_ok _
        (long_enough (length (encode_replication_join r)) 2 payload_too_short
          (omega (arith, length-encode_replication_join)))
        (bind_ok _ replication_join_addr_len_at (
          bind_ok _
            (long_enough (length (encode_replication_join r)) (2 + length r.node_addr % 2 ^ 16)
              payload_too_short (omega (arith, length-encode_replication_join)))
            (bind_ok _
              (replication_join_node_addr_slice (2 + length r.node_addr % 2 ^ 16) (omega arith))
              refl)))

  pub decode-truncated_replication_join :
      (n : ℕ)
      → length r.node_addr < 2 ^ 16
      → n < length (encode_replication_join r)
      → decode_replication_join (take n (encode_replication_join r)) ≡ err payload_too_short
  unfolding decode_replication_join
  decode-truncated_replication_join n h_node_addr cut =
      let kept : length (take n (encode_replication_join r)) ≡ n =
        length-take_of_le n (encode_replication_join r) (omega arith) in
      elim (Bool-cases (ltb n 2)) [
        | inl near ↦ bind_err _ (
            too_short (length (take n (encode_replication_join r))) 2 payload_too_short
              (omega (arith, kept, ltb→lt n 2 near)))
        | inr beyond ↦
            let far : 2 ≤ n = ltb_false→le n 2 beyond in
            bind_ok _
              (long_enough (length (take n (encode_replication_join r))) 2 payload_too_short
                (omega (arith, kept, far)))
              (bind_ok _
                (uint_at-take (encode_replication_join r) n 0 2 (omega arith) (omega (arith, far))
                    (omega arith)
                  ∙ replication_join_addr_len_at)
                (bind_err _ (
                  too_short (length (take n (encode_replication_join r)))
                    (2 + length r.node_addr % 2 ^ 16) payload_too_short
                    (omega (arith, kept, length-encode_replication_join)))))
      ]
