-- ===== src/Protocol/Cluster/Panics.antt =====
-- The decoders of protocol/cluster/ panic on no payload.
use keva.Prelude.{
  ◌+◌, ◌≤◌, ◌≡◌, arith, Bytes, length, take, drop, panic, panic_after_test, panic_after_ok,
  slice_panic, byte_at_in_range, uint_at_in_range, uint,
}
use keva.Protocol.Errors.{DecodeError, payload_too_short}
use keva.Protocol.Cluster.{
  decode_replication_sync, decode_replication_ack, decode_replication_join, decode_heartbeat,
  decode_heartbeat_ack, decode_vote_request, decode_vote_response,
}

pub decode_replication_sync_panic : (bytes : Bytes) → decode_replication_sync bytes ≡ panic → ⊥
unfolding decode_replication_sync
decode_replication_sync_panic bytes h =
    let (passed, p0) = panic_after_test (length bytes) 23 payload_too_short _ h in
    let a : 23 ≤ length bytes = passed in
    let p1 =
      panic_after_ok _ (uint_at_in_range {E = DecodeError} bytes 0 8 (omega arith) (omega arith))
        p0 in
    let (op, op_e) = byte_at_in_range {E = DecodeError} bytes 8 (omega arith) in
    let p2 = panic_after_ok _ op_e p1 in
    let p3 =
      panic_after_ok _ (uint_at_in_range {E = DecodeError} bytes 9 11 (omega arith) (omega arith))
        p2 in
    let p4 =
      panic_after_ok _ (uint_at_in_range {E = DecodeError} bytes 11 15 (omega arith) (omega arith))
        p3 in
    let p5 =
      panic_after_ok _ (uint_at_in_range {E = DecodeError} bytes 15 23 (omega arith) (omega arith))
        p4 in
    let (passed_too, q0) =
      panic_after_test (length bytes)
        (23 + uint (take 2 (drop 9 bytes)) + uint (take 4 (drop 11 bytes))) payload_too_short _
        p5 in
    let b : 23 + uint (take 2 (drop 9 bytes)) + uint (take 4 (drop 11 bytes)) ≤ length bytes =
      passed_too in
    let q1 =
      slice_panic bytes 23 (23 + uint (take 2 (drop 9 bytes))) _ (omega arith) (omega arith) q0 in
    let q2 =
      slice_panic bytes (23 + uint (take 2 (drop 9 bytes)))
        (23 + uint (take 2 (drop 9 bytes)) + uint (take 4 (drop 11 bytes))) _ (omega arith)
        (omega arith) q1 in
    absurd (cc q2)

pub decode_replication_ack_panic : (bytes : Bytes) → decode_replication_ack bytes ≡ panic → ⊥
unfolding decode_replication_ack
decode_replication_ack_panic bytes h =
    let (passed, p0) = panic_after_test (length bytes) 8 payload_too_short _ h in
    let a : 8 ≤ length bytes = passed in
    let p1 =
      panic_after_ok _ (uint_at_in_range {E = DecodeError} bytes 0 8 (omega arith) (omega arith))
        p0 in
    absurd (cc p1)

pub decode_replication_join_panic : (bytes : Bytes) → decode_replication_join bytes ≡ panic → ⊥
unfolding decode_replication_join
decode_replication_join_panic bytes h =
    let (passed, p0) = panic_after_test (length bytes) 2 payload_too_short _ h in
    let a : 2 ≤ length bytes = passed in
    let p1 =
      panic_after_ok _ (uint_at_in_range {E = DecodeError} bytes 0 2 (omega arith) (omega arith))
        p0 in
    let (passed_too, q0) =
      panic_after_test (length bytes) (2 + uint (take 2 (drop 0 bytes))) payload_too_short _ p1 in
    let b : 2 + uint (take 2 (drop 0 bytes)) ≤ length bytes = passed_too in
    let q1 =
      slice_panic bytes 2 (2 + uint (take 2 (drop 0 bytes))) _ (omega arith) (omega arith) q0 in
    absurd (cc q1)

pub decode_heartbeat_panic : (bytes : Bytes) → decode_heartbeat bytes ≡ panic → ⊥
unfolding decode_heartbeat
decode_heartbeat_panic bytes h =
    let (passed, p0) = panic_after_test (length bytes) 10 payload_too_short _ h in
    let a : 10 ≤ length bytes = passed in
    let p1 =
      panic_after_ok _ (uint_at_in_range {E = DecodeError} bytes 0 8 (omega arith) (omega arith))
        p0 in
    let p2 =
      panic_after_ok _ (uint_at_in_range {E = DecodeError} bytes 8 10 (omega arith) (omega arith))
        p1 in
    let (passed_too, q0) =
      panic_after_test (length bytes) (10 + uint (take 2 (drop 8 bytes))) payload_too_short _ p2 in
    let b : 10 + uint (take 2 (drop 8 bytes)) ≤ length bytes = passed_too in
    let q1 =
      slice_panic bytes 10 (10 + uint (take 2 (drop 8 bytes))) _ (omega arith) (omega arith) q0 in
    absurd (cc q1)

pub decode_heartbeat_ack_panic : (bytes : Bytes) → decode_heartbeat_ack bytes ≡ panic → ⊥
unfolding decode_heartbeat_ack
decode_heartbeat_ack_panic bytes h =
    let (passed, p0) = panic_after_test (length bytes) 16 payload_too_short _ h in
    let a : 16 ≤ length bytes = passed in
    let p1 =
      panic_after_ok _ (uint_at_in_range {E = DecodeError} bytes 0 8 (omega arith) (omega arith))
        p0 in
    let p2 =
      panic_after_ok _ (uint_at_in_range {E = DecodeError} bytes 8 16 (omega arith) (omega arith))
        p1 in
    absurd (cc p2)

pub decode_vote_request_panic : (bytes : Bytes) → decode_vote_request bytes ≡ panic → ⊥
unfolding decode_vote_request
decode_vote_request_panic bytes h =
    let (passed, p0) = panic_after_test (length bytes) 10 payload_too_short _ h in
    let a : 10 ≤ length bytes = passed in
    let p1 =
      panic_after_ok _ (uint_at_in_range {E = DecodeError} bytes 0 8 (omega arith) (omega arith))
        p0 in
    let p2 =
      panic_after_ok _ (uint_at_in_range {E = DecodeError} bytes 8 10 (omega arith) (omega arith))
        p1 in
    let (passed_too, q0) =
      panic_after_test (length bytes) (10 + uint (take 2 (drop 8 bytes)) + 8) payload_too_short _
        p2 in
    let b : 10 + uint (take 2 (drop 8 bytes)) + 8 ≤ length bytes = passed_too in
    let q1 =
      slice_panic bytes 10 (10 + uint (take 2 (drop 8 bytes))) _ (omega arith) (omega arith) q0 in
    let q2 =
      panic_after_ok _
        (uint_at_in_range {E = DecodeError} bytes (10 + uint (take 2 (drop 8 bytes)))
          (18 + uint (take 2 (drop 8 bytes))) (omega arith) (omega arith))
        q1 in
    absurd (cc q2)

pub decode_vote_response_panic : (bytes : Bytes) → decode_vote_response bytes ≡ panic → ⊥
unfolding decode_vote_response
decode_vote_response_panic bytes h =
    let (passed, p0) = panic_after_test (length bytes) 9 payload_too_short _ h in
    let a : 9 ≤ length bytes = passed in
    let p1 =
      panic_after_ok _ (uint_at_in_range {E = DecodeError} bytes 0 8 (omega arith) (omega arith))
        p0 in
    let (granted, granted_e) = byte_at_in_range {E = DecodeError} bytes 8 (omega arith) in
    let p2 = panic_after_ok _ granted_e p1 in absurd (cc p2)
