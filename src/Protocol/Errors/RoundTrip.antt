-- ===== src/Protocol/Errors/RoundTrip.antt =====
-- The structured error: what is decoded from an encoding, whole or cut.
use keva.Prelude.{
  ℕ, ◌+◌, ◌%◌, ◌^◌, ◌≤◌, ◌<◌, ◌≡◌, refl, ◌∙◌, inl, inr, [], ◌++◌, arith, length, take, ltb,
  Bool-cases, ltb→lt, ltb_false→le, length-take_of_le, ok, err, bind_ok, bind_err, long_enough,
  too_short, slice, slice-tail, uint_at, uint_at-take, uint16_at-part, put_uint16,
}
use keva.Protocol.Errors.{
  DecodeError, payload_too_short, ErrorMessage, encode_error_message, decode_error_message,
}

module _ (r : ErrorMessage) where
  pub length-encode_error_message : length (encode_error_message r) ≡ 4 + length r.message
  unfolding encode_error_message put_uint16
  length-encode_error_message = omega arith

  error_message_code_at :
      r.code < 2 ^ 16 → uint_at {E = DecodeError} (encode_error_message r) 0 2 ≡ ok (r.code)
  unfolding encode_error_message put_uint16
  error_message_code_at h = uint16_at-part [] (r.code) _ 0 2 h refl refl

  error_message_msg_len_at :
      uint_at {E = DecodeError} (encode_error_message r) 2 4 ≡ ok (length r.message % 2 ^ 16)
  unfolding encode_error_message put_uint16
  error_message_msg_len_at =
      uint16_at-part (put_uint16 r.code) (length r.message % 2 ^ 16) _ 2 4 (omega arith) refl refl

  error_message_message_slice :
      (hi : ℕ)
      → hi ≡ 4 + length r.message
      → slice {E = DecodeError} (encode_error_message r) 4 hi ≡ ok r.message
  unfolding encode_error_message put_uint16
  error_message_message_slice hi e =
      slice-tail (put_uint16 r.code ++ put_uint16 (length r.message % 2 ^ 16)) r.message 4 hi refl e

  pub decode-encode_error_message :
      r.code < 2 ^ 16
      → length r.message < 2 ^ 16
      → decode_error_message (encode_error_message r) ≡ ok r
  unfolding decode_error_message
  decode-encode_error_message h_code h_message =
      bind_ok _
        (long_enough (length (encode_error_message r)) 4 payload_too_short
          (omega (arith, length-encode_error_message)))
        (bind_ok _ (error_message_code_at h_code) (
          bind_ok _ error_message_msg_len_at (
            bind_ok _
              (long_enough (length (encode_error_message r)) (4 + length r.message % 2 ^ 16)
                payload_too_short (omega (arith, length-encode_error_message)))
              (bind_ok _ (error_message_message_slice (4 + length r.message % 2 ^ 16) (omega arith))
                refl))))

  pub decode-truncated_error_message :
      (n : ℕ)
      → r.code < 2 ^ 16
      → length r.message < 2 ^ 16
      → n < length (encode_error_message r)
      → decode_error_message (take n (encode_error_message r)) ≡ err payload_too_short
  unfolding decode_error_message
  decode-truncated_error_message n h_code h_message cut =
      let kept : length (take n (encode_error_message r)) ≡ n =
        length-take_of_le n (encode_error_message r) (omega arith) in
      elim (Bool-cases (ltb n 4)) [
        | inl near ↦ bind_err _ (
            too_short (length (take n (encode_error_message r))) 4 payload_too_short
              (omega (arith, kept, ltb→lt n 4 near)))
        | inr beyond ↦
            let far : 4 ≤ n = ltb_false→le n 4 beyond in
            bind_ok _
              (long_enough (length (take n (encode_error_message r))) 4 payload_too_short
                (omega (arith, kept, far)))
              (bind_ok _
                (uint_at-take (encode_error_message r) n 0 2 (omega arith) (omega (arith, far))
                    (omega arith)
                  ∙ (error_message_code_at h_code))
                (bind_ok _
                  (uint_at-take (encode_error_message r) n 2 4 (omega arith) (omega (arith, far))
                      (omega arith)
                    ∙ error_message_msg_len_at)
                  (bind_err _ (
                    too_short (length (take n (encode_error_message r)))
                      (4 + length r.message % 2 ^ 16) payload_too_short
                      (omega (arith, kept, length-encode_error_message))))))
      ]
