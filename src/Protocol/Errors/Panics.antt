-- ===== src/Protocol/Errors/Panics.antt =====
-- The decoder of the structured error panics on no payload.
use keva.Prelude.{
  ◌+◌, ◌≤◌, ◌≡◌, arith, Bytes, length, take, drop, panic, panic_after_test, panic_after_ok,
  slice_panic, uint_at_in_range, uint,
}
use keva.Protocol.Errors.{DecodeError, payload_too_short, decode_error_message}

pub decode_error_message_panic : (bytes : Bytes) → decode_error_message bytes ≡ panic → ⊥
unfolding decode_error_message
decode_error_message_panic bytes h =
    let (passed, p0) = panic_after_test (length bytes) 4 payload_too_short _ h in
    let a : 4 ≤ length bytes = passed in
    let p1 =
      panic_after_ok _ (uint_at_in_range {E = DecodeError} bytes 0 2 (omega arith) (omega arith))
        p0 in
    let p2 =
      panic_after_ok _ (uint_at_in_range {E = DecodeError} bytes 2 4 (omega arith) (omega arith))
        p1 in
    let (passed_too, q0) =
      panic_after_test (length bytes) (4 + uint (take 2 (drop 2 bytes))) payload_too_short _ p2 in
    let b : 4 + uint (take 2 (drop 2 bytes)) ≤ length bytes = passed_too in
    let q1 =
      slice_panic bytes 4 (4 + uint (take 2 (drop 2 bytes))) _ (omega arith) (omega arith) q0 in
    absurd (cc q1)
