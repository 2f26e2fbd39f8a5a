-- ===== src/Protocol/Cluster/Election.antt =====
-- Heartbeats and votes: what is decoded from an encoding, whole or cut.
use keva.Prelude.{
  ℕ, ◌+◌, ◌%◌, ◌^◌, ◌≤◌, ◌<◌, ◌≡◌, refl, ◌∙◌, inl, inr, [], ◌++◌, arith, length, take, ltb,
  Bool-cases, ltb→lt, ltb_false→le, length-append, length-take, length-take_of_le, ok, err, bind_ok,
  bind_err, long_enough, too_short, slice, slice-part, slice-tail, byte_at, byte_at-part, uint_at,
  uint_at-take, uint16_at-part, uint64_at-part, bool_byte, bool_byte-eq-one, put_uint16, put_uint64,
}
use keva.Protocol.Errors.{DecodeError, payload_too_short}
use keva.Protocol.Cluster.{
  Heartbeat, encode_heartbeat, decode_heartbeat, HeartbeatAck, encode_heartbeat_ack,
  decode_heartbeat_ack, VoteRequest, encode_vote_request, decode_vote_request, VoteResponse,
  encode_vote_response, decode_vote_response,
}

module _ (r : Heartbeat) where
  pub length-encode_heartbeat : length (encode_heartbeat r) ≡ 10 + length r.leader_id
  unfolding encode_heartbeat put_uint16 put_uint64
  length-encode_heartbeat = omega arith

  heartbeat_term_at :
      r.term < 2 ^ 64 → uint_at {E = DecodeError} (encode_heartbeat r) 0 8 ≡ ok (r.term)
  unfolding encode_heartbeat put_uint16 put_uint64
  heartbeat_term_at h = uint64_at-part [] (r.term) _ 0 8 h refl refl

  heartbeat_id_len_at :
      uint_at {E = DecodeError} (encode_heartbeat r) 8 10 ≡ ok (length r.leader_id % 2 ^ 16)
  unfolding encode_heartbeat put_uint16 put_uint64
  heartbeat_id_len_at =
      uint16_at-part (put_uint64 r.term) (length r.leader_id % 2 ^ 16) _ 8 10 (omega arith) refl
        refl

  heartbeat_leader_id_slice :
      (hi : ℕ)
      → hi ≡ 10 + length r.leader_id
      → slice {E = DecodeError} (encode_heartbeat r) 10 hi ≡ ok r.leader_id
  unfolding encode_heartbeat put_uint16 put_uint64
  heartbeat_leader_id_slice hi e =
      slice-tail (put_uint64 r.term ++ put_uint16 (length r.leader_id % 2 ^ 16)) r.leader_id 10 hi
        refl e

  pub decode-encode_heartbeat :
      r.term < 2 ^ 64 → length r.leader_id < 2 ^ 16 → decode_heartbeat (encode_heartbeat r) ≡ ok r
  unfolding decode_heartbeat
  decode-encode_heartbeat h_term h_leader_id =
      bind_ok _
        (long_enough (length (encode_heartbeat r)) 10 payload_too_short
          (omega (arith, length-encode_heartbeat)))
        (bind_ok _ (heartbeat_term_at h_term) (
          bind_ok _ heartbeat_id_len_at (
            bind_ok _
              (long_enough (length (encode_heartbeat r)) (10 + length r.leader_id % 2 ^ 16)
                payload_too_short (omega (arith, length-encode_heartbeat)))
              (bind_ok _
                (heartbeat_leader_id_slice (10 + length r.leader_id % 2 ^ 16) (omega arith))
                refl))))

  pub decode-truncated_heartbeat :
      (n : ℕ)
      → r.term < 2 ^ 64
      → length r.leader_id < 2 ^ 16
      → n < length (encode_heartbeat r)
      → decode_heartbeat (take n (encode_heartbeat r)) ≡ err payload_too_short
  unfolding decode_heartbeat
  decode-truncated_heartbeat n h_term h_leader_id cut =
      let kept : length (take n (encode_heartbeat r)) ≡ n =
        length-take_of_le n (encode_heartbeat r) (omega arith) in
      elim (Bool-cases (ltb n 10)) [
        | inl near ↦ bind_err _ (
            too_short (length (take n (encode_heartbeat r))) 10 payload_too_short
              (omega (arith, kept, ltb→lt n 10 near)))
        | inr beyond ↦
            let far : 10 ≤ n = ltb_false→le n 10 beyond in
            bind_ok _
              (long_enough (length (take n (encode_heartbeat r))) 10 payload_too_short
                (omega (arith, kept, far)))
              (bind_ok _
                (uint_at-take (encode_heartbeat r) n 0 8 (omega arith) (omega (arith, far))
                    (omega arith)
                  ∙ (heartbeat_term_at h_term))
                (bind_ok _
                  (uint_at-take (encode_heartbeat r) n 8 10 (omega arith) (omega (arith, far))
                      (omega arith)
                    ∙ heartbeat_id_len_at)
                  (bind_err _ (
                    too_short (length (take n (encode_heartbeat r)))
                      (10 + length r.leader_id % 2 ^ 16) payload_too_short
                      (omega (arith, kept, length-encode_heartbeat))))))
      ]

module _ (r : HeartbeatAck) where
  pub length-encode_heartbeat_ack : length (encode_heartbeat_ack r) ≡ 16
  unfolding encode_heartbeat_ack put_uint64
  length-encode_heartbeat_ack = omega arith

  heartbeat_ack_term_at :
      r.term < 2 ^ 64 → uint_at {E = DecodeError} (encode_heartbeat_ack r) 0 8 ≡ ok (r.term)
  unfolding encode_heartbeat_ack put_uint64
  heartbeat_ack_term_at h = uint64_at-part [] (r.term) _ 0 8 h refl refl

  heartbeat_ack_last_applied_index_at :
      r.last_applied_index < 2 ^ 64
      → uint_at {E = DecodeError} (encode_heartbeat_ack r) 8 16 ≡ ok (r.last_applied_index)
  unfolding encode_heartbeat_ack put_uint64
  heartbeat_ack_last_applied_index_at h =
      uint64_at-part (put_uint64 r.term) (r.last_applied_index) _ 8 16 h refl refl

  pub decode-encode_heartbeat_ack :
      r.term < 2 ^ 64
      → r.last_applied_index < 2 ^ 64
      → decode_heartbeat_ack (encode_heartbeat_ack r) ≡ ok r
  unfolding decode_heartbeat_ack
  decode-encode_heartbeat_ack h_term h_last_applied_index =
      bind_ok _
        (long_enough (length (encode_heartbeat_ack r)) 16 payload_too_short
          (omega (arith, length-encode_heartbeat_ack)))
        (bind_ok _ (heartbeat_ack_term_at h_term)
          (bind_ok _ (heartbeat_ack_last_applied_index_at h_last_applied_index) refl))

  pub decode-truncated_heartbeat_ack :
      (n : ℕ)
      → r.term < 2 ^ 64
      → r.last_applied_index < 2 ^ 64
      → n < length (encode_heartbeat_ack r)
      → decode_heartbeat_ack (take n (encode_heartbeat_ack r)) ≡ err payload_too_short
  unfolding decode_heartbeat_ack
  decode-truncated_heartbeat_ack n h_term h_last_applied_index cut = bind_err _ (
      too_short (length (take n (encode_heartbeat_ack r))) 16 payload_too_short
        (omega (arith, length-encode_heartbeat_ack, length-take n (encode_heartbeat_ack r))))

module _ (r : VoteRequest) where
  pub length-encode_vote_request : length (encode_vote_request r) ≡ 18 + length r.candidate_id
  unfolding encode_vote_request put_uint16 put_uint64
  length-encode_vote_request =
      omega (arith, length-append r.candidate_id (put_uint64 r.last_log_index))

  vote_request_term_at :
      r.term < 2 ^ 64 → uint_at {E = DecodeError} (encode_vote_request r) 0 8 ≡ ok (r.term)
  unfolding encode_vote_request put_uint16 put_uint64
  vote_request_term_at h = uint64_at-part [] (r.term) _ 0 8 h refl refl

  vote_request_id_len_at :
      uint_at {E = DecodeError} (encode_vote_request r) 8 10 ≡ ok (length r.candidate_id % 2 ^ 16)
  unfolding encode_vote_request put_uint16 put_uint64
  vote_request_id_len_at =
      uint16_at-part (put_uint64 r.term) (length r.candidate_id % 2 ^ 16) _ 8 10 (omega arith) refl
        refl

  vote_request_candidate_id_slice :
      (hi : ℕ)
      → hi ≡ 10 + length r.candidate_id
      → slice {E = DecodeError} (encode_vote_request r) 10 hi ≡ ok r.candidate_id
  unfolding encode_vote_request put_uint16 put_uint64
  vote_request_candidate_id_slice hi e =
      slice-part (put_uint64 r.term ++ put_uint16 (length r.candidate_id % 2 ^ 16)) r.candidate_id _
        10 hi refl e

  vote_request_last_log_index_at :
      (lo hi : ℕ)
      → lo ≡ 10 + length r.candidate_id
      → hi ≡ lo + 8
      → r.last_log_index < 2 ^ 64
      → uint_at {E = DecodeError} (encode_vote_request r) lo hi ≡ ok r.last_log_index
  unfolding encode_vote_request put_uint16 put_uint64
  vote_request_last_log_index_at lo hi e e' h =
      uint64_at-part
        ((put_uint64 r.term ++ put_uint16 (length r.candidate_id % 2 ^ 16)) ++ r.candidate_id)
        r.last_log_index [] lo hi h (omega (arith, e)) e'

  pub decode-encode_vote_request :
      r.term < 2 ^ 64
      → length r.candidate_id < 2 ^ 16
      → r.last_log_index < 2 ^ 64
      → decode_vote_request (encode_vote_request r) ≡ ok r
  unfolding decode_vote_request
  decode-encode_vote_request h_term h_candidate_id h_last_log_index =
      bind_ok _
        (long_enough (length (encode_vote_request r)) 10 payload_too_short
          (omega (arith, length-encode_vote_request)))
        (bind_ok _ (vote_request_term_at h_term) (
          bind_ok _ vote_request_id_len_at (
            bind_ok _
              (long_enough (length (encode_vote_request r))
                (10 + length r.candidate_id % 2 ^ 16 + 8) payload_too_short
                (omega (arith, length-encode_vote_request)))
              (bind_ok _
                (vote_request_candidate_id_slice (10 + length r.candidate_id % 2 ^ 16)
                  (omega arith))
                (bind_ok _
                  (vote_request_last_log_index_at (10 + length r.candidate_id % 2 ^ 16)
                    (18 + length r.candidate_id % 2 ^ 16) (omega arith) (omega arith)
                    h_last_log_index)
                  refl)))))

  pub decode-truncated_vote_request :
      (n : ℕ)
      → r.term < 2 ^ 64
      → length r.candidate_id < 2 ^ 16
      → r.last_log_index < 2 ^ 64
      → n < length (encode_vote_request r)
      → decode_vote_request (take n (encode_vote_request r)) ≡ err payload_too_short
  unfolding decode_vote_request
  decode-truncated_vote_request n h_term h_candidate_id h_last_log_index cut =
      let kept : length (take n (encode_vote_request r)) ≡ n =
        length-take_of_le n (encode_vote_request r) (omega arith) in
      elim (Bool-cases (ltb n 10)) [
        | inl near ↦ bind_err _ (
            too_short (length (take n (encode_vote_request r))) 10 payload_too_short
              (omega (arith, kept, ltb→lt n 10 near)))
        | inr beyond ↦
            let far : 10 ≤ n = ltb_false→le n 10 beyond in
            bind_ok _
              (long_enough (length (take n (encode_vote_request r))) 10 payload_too_short
                (omega (arith, kept, far)))
              (bind_ok _
                (uint_at-take (encode_vote_request r) n 0 8 (omega arith) (omega (arith, far))
                    (omega arith)
                  ∙ (vote_request_term_at h_term))
                (bind_ok _
                  (uint_at-take (encode_vote_request r) n 8 10 (omega arith) (omega (arith, far))
                      (omega arith)
                    ∙ vote_request_id_len_at)
                  (bind_err _ (
                    too_short (length (take n (encode_vote_request r)))
                      (10 + length r.candidate_id % 2 ^ 16 + 8) payload_too_short
                      (omega (arith, kept, length-encode_vote_request))))))
      ]

module _ (r : VoteResponse) where
  pub length-encode_vote_response : length (encode_vote_response r) ≡ 9
  unfolding encode_vote_response put_uint64
  length-encode_vote_response = omega arith

  vote_response_term_at :
      r.term < 2 ^ 64 → uint_at {E = DecodeError} (encode_vote_response r) 0 8 ≡ ok (r.term)
  unfolding encode_vote_response put_uint64
  vote_response_term_at h = uint64_at-part [] (r.term) _ 0 8 h refl refl

  vote_response_granted_at :
      byte_at {E = DecodeError} (encode_vote_response r) 8 ≡ ok (bool_byte r.granted)
  unfolding encode_vote_response put_uint64
  vote_response_granted_at = byte_at-part (put_uint64 r.term) (bool_byte r.granted) _ 8 refl

  pub decode-encode_vote_response :
      r.term < 2 ^ 64 → decode_vote_response (encode_vote_response r) ≡ ok r
  unfolding decode_vote_response
  decode-encode_vote_response h_term =
      bind_ok _
        (long_enough (length (encode_vote_response r)) 9 payload_too_short
          (omega (arith, length-encode_vote_response)))
        (bind_ok _ (vote_response_term_at h_term)
          (bind_ok _ vote_response_granted_at (rw (bool_byte-eq-one r.granted))))

  pub decode-truncated_vote_response :
      (n : ℕ)
      → r.term < 2 ^ 64
      → n < length (encode_vote_response r)
      → decode_vote_response (take n (encode_vote_response r)) ≡ err payload_too_short
  unfolding decode_vote_response
  decode-truncated_vote_response n h_term cut = bind_err _ (
      too_short (length (take n (encode_vote_response r))) 9 payload_too_short
        (omega (arith, length-encode_vote_response, length-take n (encode_vote_response r))))
