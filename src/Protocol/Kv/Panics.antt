-- ===== src/Protocol/Kv/Panics.antt =====
-- Which payloads make the decoders of protocol/kv/ panic.
use keva.Prelude.{
  ◌+◌, ◌%◌, ◌^◌, ◌≤◌, ◌<◌, ◌≡◌, inl, inr, arith, Bytes, length, take, drop, ltb, Bool-cases, ltb→lt,
  ltb_false→le, panic, panic_after_test, panic_after_ok, slice_panic, bind_ok, bind_panic,
  long_enough, slice_reversed, byte_at_in_range, uint_at_in_range, uint,
}
use keva.Protocol.Errors.{DecodeError, payload_too_short}
use keva.Protocol.Kv.{
  decode_get_request, decode_set_request, decode_delete_request, decode_get_response,
  decode_set_response, decode_delete_response,
}

-- A length that wraps the offset behind the key, in a payload that is long enough for it.
abbrev pub GetRequestWraps : Bytes → Type 0
GetRequestWraps bytes =
    (2 ^ 16 ≤ 2 + uint (take 2 (drop 0 bytes))) × (2 + uint (take 2 (drop 0 bytes)) ≤ length bytes)

pub decode_get_request_panic :
    (bytes : Bytes) → decode_get_request bytes ≡ panic → GetRequestWraps bytes
unfolding decode_get_request
decode_get_request_panic bytes h =
    let (passed, p0) = panic_after_test (length bytes) 2 payload_too_short _ h in
    let a : 2 ≤ length bytes = passed in
    let p1 =
      panic_after_ok _ (uint_at_in_range {E = DecodeError} bytes 0 2 (omega arith) (omega arith))
        p0 in
    let (passed_too, q0) =
      panic_after_test (length bytes) (2 + uint (take 2 (drop 0 bytes))) payload_too_short _ p1 in
    let b : 2 + uint (take 2 (drop 0 bytes)) ≤ length bytes = passed_too in
    elim (Bool-cases (ltb (2 + uint (take 2 (drop 0 bytes))) (2 ^ 16))) [
      | inl fits ↦
          let small : 2 + uint (take 2 (drop 0 bytes)) < 2 ^ 16 = ltb→lt _ _ fits in
          let q1 =
            slice_panic bytes 2 ((2 + uint (take 2 (drop 0 bytes))) % 2 ^ 16) _ (omega arith)
              (omega arith) q0 in
          absurd (cc q1)
      | inr wraps ↦ (ltb_false→le _ _ wraps, b)
    ]

pub decode_get_request_wraps :
    (bytes : Bytes)
    → uint (take 2 (drop 0 bytes)) < 2 ^ 16
    → GetRequestWraps bytes
    → decode_get_request bytes ≡ panic
unfolding decode_get_request
decode_get_request_wraps bytes word (wraps, enough) =
    bind_ok _ (long_enough (length bytes) 2 payload_too_short (omega arith)) (
      bind_ok _ (uint_at_in_range {E = DecodeError} bytes 0 2 (omega arith) (omega arith)) (
        bind_ok _
          (long_enough (length bytes) (2 + uint (take 2 (drop 0 bytes))) payload_too_short
            (omega arith))
          (bind_panic _
            (slice_reversed bytes 2 ((2 + uint (take 2 (drop 0 bytes))) % 2 ^ 16) (omega arith)))))

-- A length that wraps the offset behind the key, in a payload that is long enough for it.
abbrev pub SetRequestWraps : Bytes → Type 0
SetRequestWraps bytes =
    (2 ^ 16 ≤ 14 + uint (take 2 (drop 0 bytes)))
    × (14 + uint (take 2 (drop 0 bytes)) + uint (take 4 (drop 2 bytes)) ≤ length bytes)

pub decode_set_request_panic :
    (bytes : Bytes) → decode_set_request bytes ≡ panic → SetRequestWraps bytes
unfolding decode_set_request
decode_set_request_panic bytes h =
    let (passed, p0) = panic_after_test (length bytes) 14 payload_too_short _ h in
    let a : 14 ≤ length bytes = passed in
    let p1 =
      panic_after_ok _ (uint_at_in_range {E = DecodeError} bytes 0 2 (omega arith) (omega arith))
        p0 in
    let p2 =
      panic_after_ok _ (uint_at_in_range {E = DecodeError} bytes 2 6 (omega arith) (omega arith))
        p1 in
    let p3 =
      panic_after_ok _ (uint_at_in_range {E = DecodeError} bytes 6 14 (omega arith) (omega arith))
        p2 in
    let (passed_too, q0) =
      panic_after_test (length bytes)
        (14 + uint (take 2 (drop 0 bytes)) + uint (take 4 (drop 2 bytes))) payload_too_short _ p3 in
    let b : 14 + uint (take 2 (drop 0 bytes)) + uint (take 4 (drop 2 bytes)) ≤ length bytes =
      passed_too in
    elim (Bool-cases (ltb (14 + uint (take 2 (drop 0 bytes))) (2 ^ 16))) [
      | inl fits ↦
          let small : 14 + uint (take 2 (drop 0 bytes)) < 2 ^ 16 = ltb→lt _ _ fits in
          let q1 =
            slice_panic bytes 14 ((14 + uint (take 2 (drop 0 bytes))) % 2 ^ 16) _ (omega arith)
              (omega arith) q0 in
          let q2 =
            slice_panic bytes ((14 + uint (take 2 (drop 0 bytes))) % 2 ^ 16)
              (14 + uint (take 2 (drop 0 bytes)) + uint (take 4 (drop 2 bytes))) _ (omega arith)
              (omega arith) q1 in
          absurd (cc q2)
      | inr wraps ↦ (ltb_false→le _ _ wraps, b)
    ]

pub decode_set_request_wraps :
    (bytes : Bytes)
    → uint (take 2 (drop 0 bytes)) < 2 ^ 16
    → SetRequestWraps bytes
    → decode_set_request bytes ≡ panic
unfolding decode_set_request
decode_set_request_wraps bytes word (wraps, enough) =
    bind_ok _ (long_enough (length bytes) 14 payload_too_short (omega arith)) (
      bind_ok _ (uint_at_in_range {E = DecodeError} bytes 0 2 (omega arith) (omega arith)) (
        bind_ok _ (uint_at_in_range {E = DecodeError} bytes 2 6 (omega arith) (omega arith)) (
          bind_ok _ (uint_at_in_range {E = DecodeError} bytes 6 14 (omega arith) (omega arith)) (
            bind_ok _
              (long_enough (length bytes)
                (14 + uint (take 2 (drop 0 bytes)) + uint (take 4 (drop 2 bytes))) payload_too_short
                (omega arith))
              (bind_panic _ (
                slice_reversed bytes 14 ((14 + uint (take 2 (drop 0 bytes))) % 2 ^ 16)
                  (omega arith)))))))

-- A length that wraps the offset behind the key, in a payload that is long enough for it.
abbrev pub DeleteRequestWraps : Bytes → Type 0
DeleteRequestWraps bytes =
    (2 ^ 16 ≤ 2 + uint (take 2 (drop 0 bytes))) × (2 + uint (take 2 (drop 0 bytes)) ≤ length bytes)

pub decode_delete_request_panic :
    (bytes : Bytes) → decode_delete_request bytes ≡ panic → DeleteRequestWraps bytes
unfolding decode_delete_request
decode_delete_request_panic bytes h =
    let (passed, p0) = panic_after_test (length bytes) 2 payload_too_short _ h in
    let a : 2 ≤ length bytes = passed in
    let p1 =
      panic_after_ok _ (uint_at_in_range {E = DecodeError} bytes 0 2 (omega arith) (omega arith))
        p0 in
    let (passed_too, q0) =
      panic_after_test (length bytes) (2 + uint (take 2 (drop 0 bytes))) payload_too_short _ p1 in
    let b : 2 + uint (take 2 (drop 0 bytes)) ≤ length bytes = passed_too in
    elim (Bool-cases (ltb (2 + uint (take 2 (drop 0 bytes))) (2 ^ 16))) [
      | inl fits ↦
          let small : 2 + uint (take 2 (drop 0 bytes)) < 2 ^ 16 = ltb→lt _ _ fits in
          let q1 =
            slice_panic bytes 2 ((2 + uint (take 2 (drop 0 bytes))) % 2 ^ 16) _ (omega arith)
              (omega arith) q0 in
          absurd (cc q1)
      | inr wraps ↦ (ltb_false→le _ _ wraps, b)
    ]

pub decode_delete_request_wraps :
    (bytes : Bytes)
    → uint (take 2 (drop 0 bytes)) < 2 ^ 16
    → DeleteRequestWraps bytes
    → decode_delete_request bytes ≡ panic
unfolding decode_delete_request
decode_delete_request_wraps bytes word (wraps, enough) =
    bind_ok _ (long_enough (length bytes) 2 payload_too_short (omega arith)) (
      bind_ok _ (uint_at_in_range {E = DecodeError} bytes 0 2 (omega arith) (omega arith)) (
        bind_ok _
          (long_enough (length bytes) (2 + uint (take 2 (drop 0 bytes))) payload_too_short
            (omega arith))
          (bind_panic _
            (slice_reversed bytes 2 ((2 + uint (take 2 (drop 0 bytes))) % 2 ^ 16) (omega arith)))))

-- A length that wraps the offset behind the value, in a payload that is long enough for it.
abbrev pub GetResponseWraps : Bytes → Type 0
GetResponseWraps bytes =
    (2 ^ 32 ≤ 5 + uint (take 4 (drop 1 bytes))) × (5 + uint (take 4 (drop 1 bytes)) ≤ length bytes)

pub decode_get_response_panic :
    (bytes : Bytes) → decode_get_response bytes ≡ panic → GetResponseWraps bytes
unfolding decode_get_response
decode_get_response_panic bytes h =
    let (passed, p0) = panic_after_test (length bytes) 5 payload_too_short _ h in
    let a : 5 ≤ length bytes = passed in
    let (found, found_e) = byte_at_in_range {E = DecodeError} bytes 0 (omega arith) in
    let p1 = panic_after_ok _ found_e p0 in
    let p2 =
      panic_after_ok _ (uint_at_in_range {E = DecodeError} bytes 1 5 (omega arith) (omega arith))
        p1 in
    let (passed_too, q0) =
      panic_after_test (length bytes) (5 + uint (take 4 (drop 1 bytes))) payload_too_short _ p2 in
    let b : 5 + uint (take 4 (drop 1 bytes)) ≤ length bytes = passed_too in
    elim (Bool-cases (ltb (5 + uint (take 4 (drop 1 bytes))) (2 ^ 32))) [
      | inl fits ↦
          let small : 5 + uint (take 4 (drop 1 bytes)) < 2 ^ 32 = ltb→lt _ _ fits in
          let q1 =
            slice_panic bytes 5 ((5 + uint (take 4 (drop 1 bytes))) % 2 ^ 32) _ (omega arith)
              (omega arith) q0 in
          absurd (cc q1)
      | inr wraps ↦ (ltb_false→le _ _ wraps, b)
    ]

pub decode_get_response_wraps :
    (bytes : Bytes)
    → uint (take 4 (drop 1 bytes)) < 2 ^ 32
    → GetResponseWraps bytes
    → decode_get_response bytes ≡ panic
unfolding decode_get_response
decode_get_response_wraps bytes word (wraps, enough) =
    let (found, found_e) = byte_at_in_range {E = DecodeError} bytes 0 (omega arith) in
    bind_ok _ (long_enough (length bytes) 5 payload_too_short (omega arith)) (
      bind_ok _ found_e (
        bind_ok _ (uint_at_in_range {E = DecodeError} bytes 1 5 (omega arith) (omega arith)) (
          bind_ok _
            (long_enough (length bytes) (5 + uint (take 4 (drop 1 bytes))) payload_too_short
              (omega arith))
            (bind_panic _ (
              slice_reversed bytes 5 ((5 + uint (take 4 (drop 1 bytes))) % 2 ^ 32)
                (omega arith))))))

-- A length that wraps the offset behind the message, in a payload that is long enough for it.
abbrev pub SetResponseWraps : Bytes → Type 0
SetResponseWraps bytes =
    (2 ^ 16 ≤ 3 + uint (take 2 (drop 1 bytes))) × (3 + uint (take 2 (drop 1 bytes)) ≤ length bytes)

pub decode_set_response_panic :
    (bytes : Bytes) → decode_set_response bytes ≡ panic → SetResponseWraps bytes
unfolding decode_set_response
decode_set_response_panic bytes h =
    let (passed, p0) = panic_after_test (length bytes) 3 payload_too_short _ h in
    let a : 3 ≤ length bytes = passed in
    let (success, success_e) = byte_at_in_range {E = DecodeError} bytes 0 (omega arith) in
    let p1 = panic_after_ok _ success_e p0 in
    let p2 =
      panic_after_ok _ (uint_at_in_range {E = DecodeError} bytes 1 3 (omega arith) (omega arith))
        p1 in
    let (passed_too, q0) =
      panic_after_test (length bytes) (3 + uint (take 2 (drop 1 bytes))) payload_too_short _ p2 in
    let b : 3 + uint (take 2 (drop 1 bytes)) ≤ length bytes = passed_too in
    elim (Bool-cases (ltb (3 + uint (take 2 (drop 1 bytes))) (2 ^ 16))) [
      | inl fits ↦
          let small : 3 + uint (take 2 (drop 1 bytes)) < 2 ^ 16 = ltb→lt _ _ fits in
          let q1 =
            slice_panic bytes 3 ((3 + uint (take 2 (drop 1 bytes))) % 2 ^ 16) _ (omega arith)
              (omega arith) q0 in
          absurd (cc q1)
      | inr wraps ↦ (ltb_false→le _ _ wraps, b)
    ]

pub decode_set_response_wraps :
    (bytes : Bytes)
    → uint (take 2 (drop 1 bytes)) < 2 ^ 16
    → SetResponseWraps bytes
    → decode_set_response bytes ≡ panic
unfolding decode_set_response
decode_set_response_wraps bytes word (wraps, enough) =
    let (success, success_e) = byte_at_in_range {E = DecodeError} bytes 0 (omega arith) in
    bind_ok _ (long_enough (length bytes) 3 payload_too_short (omega arith)) (
      bind_ok _ success_e (
        bind_ok _ (uint_at_in_range {E = DecodeError} bytes 1 3 (omega arith) (omega arith)) (
          bind_ok _
            (long_enough (length bytes) (3 + uint (take 2 (drop 1 bytes))) payload_too_short
              (omega arith))
            (bind_panic _ (
              slice_reversed bytes 3 ((3 + uint (take 2 (drop 1 bytes))) % 2 ^ 16)
                (omega arith))))))

-- A length that wraps the offset behind the message, in a payload that is long enough for it.
abbrev pub DeleteResponseWraps : Bytes → Type 0
DeleteResponseWraps bytes =
    (2 ^ 16 ≤ 3 + uint (take 2 (drop 1 bytes))) × (3 + uint (take 2 (drop 1 bytes)) ≤ length bytes)

pub decode_delete_response_panic :
    (bytes : Bytes) → decode_delete_response bytes ≡ panic → DeleteResponseWraps bytes
unfolding decode_delete_response
decode_delete_response_panic bytes h =
    let (passed, p0) = panic_after_test (length bytes) 3 payload_too_short _ h in
    let a : 3 ≤ length bytes = passed in
    let (success, success_e) = byte_at_in_range {E = DecodeError} bytes 0 (omega arith) in
    let p1 = panic_after_ok _ success_e p0 in
    let p2 =
      panic_after_ok _ (uint_at_in_range {E = DecodeError} bytes 1 3 (omega arith) (omega arith))
        p1 in
    let (passed_too, q0) =
      panic_after_test (length bytes) (3 + uint (take 2 (drop 1 bytes))) payload_too_short _ p2 in
    let b : 3 + uint (take 2 (drop 1 bytes)) ≤ length bytes = passed_too in
    elim (Bool-cases (ltb (3 + uint (take 2 (drop 1 bytes))) (2 ^ 16))) [
      | inl fits ↦
          let small : 3 + uint (take 2 (drop 1 bytes)) < 2 ^ 16 = ltb→lt _ _ fits in
          let q1 =
            slice_panic bytes 3 ((3 + uint (take 2 (drop 1 bytes))) % 2 ^ 16) _ (omega arith)
              (omega arith) q0 in
          absurd (cc q1)
      | inr wraps ↦ (ltb_false→le _ _ wraps, b)
    ]

pub decode_delete_response_wraps :
    (bytes : Bytes)
    → uint (take 2 (drop 1 bytes)) < 2 ^ 16
    → DeleteResponseWraps bytes
    → decode_delete_response bytes ≡ panic
unfolding decode_delete_response
decode_delete_response_wraps bytes word (wraps, enough) =
    let (success, success_e) = byte_at_in_range {E = DecodeError} bytes 0 (omega arith) in
    bind_ok _ (long_enough (length bytes) 3 payload_too_short (omega arith)) (
      bind_ok _ success_e (
        bind_ok _ (uint_at_in_range {E = DecodeError} bytes 1 3 (omega arith) (omega arith)) (
          bind_ok _
            (long_enough (length bytes) (3 + uint (take 2 (drop 1 bytes))) payload_too_short
              (omega arith))
            (bind_panic _ (
              slice_reversed bytes 3 ((3 + uint (take 2 (drop 1 bytes))) % 2 ^ 16)
                (omega arith))))))
