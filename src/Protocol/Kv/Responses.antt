-- ===== src/Protocol/Kv/Responses.antt =====
-- The responses of protocol/kv/: what is decoded from an encoding, whole or cut.
use keva.Prelude.{
  ℕ, ◌+◌, ◌%◌, ◌^◌, ◌≤◌, ◌<◌, ◌≡◌, refl, ◌∙◌, inl, inr, [], ◌∷◌, ◌++◌, arith, length, take, ltb,
  Bool-cases, ltb→lt, ltb_false→le, length-take_of_le, ok, err, panic, bind_ok, bind_err,
  bind_panic, long_enough, too_short, slice, slice-tail, slice_reversed, byte_at, byte_at-part,
  byte_at-take, uint_at, uint_at-take, uint16_at-part, uint32_at-part, bool_byte, bool_byte-eq-one,
  put_uint16, put_uint32,
}
use keva.Protocol.Errors.{DecodeError, payload_too_short}
use keva.Protocol.Kv.{
  GetResponse, encode_get_response, decode_get_response, SetResponse, encode_set_response,
  decode_set_response, DeleteResponse, encode_delete_response, decode_delete_response,
}

module _ (r : GetResponse) where
  pub length-encode_get_response : length (encode_get_response r) ≡ 5 + length r.value
  unfolding encode_get_response put_uint32
  length-encode_get_response = omega arith

  get_response_found_at :
      byte_at {E = DecodeError} (encode_get_response r) 0 ≡ ok (bool_byte r.found)
  unfolding encode_get_response put_uint32
  get_response_found_at = byte_at-part [] (bool_byte r.found) _ 0 refl

  get_response_val_len_at :
      uint_at {E = DecodeError} (encode_get_response r) 1 5 ≡ ok (length r.value % 2 ^ 32)
  unfolding encode_get_response put_uint32
  get_response_val_len_at =
      uint32_at-part (bool_byte r.found ∷ []) (length r.value % 2 ^ 32) _ 1 5 (omega arith) refl
        refl

  get_response_value_slice :
      (hi : ℕ)
      → hi ≡ 5 + length r.value
      → slice {E = DecodeError} (encode_get_response r) 5 hi ≡ ok r.value
  unfolding encode_get_response put_uint32
  get_response_value_slice hi e =
      slice-tail ((bool_byte r.found ∷ []) ++ put_uint32 (length r.value % 2 ^ 32)) r.value 5 hi
        refl e

  pub decode-encode_get_response :
      length r.value + 5 < 2 ^ 32 → decode_get_response (encode_get_response r) ≡ ok r
  unfolding decode_get_response
  decode-encode_get_response h_value =
      bind_ok _
        (long_enough (length (encode_get_response r)) 5 payload_too_short
          (omega (arith, length-encode_get_response)))
        (bind_ok _ get_response_found_at (
          bind_ok _ get_response_val_len_at (
            bind_ok _
              (long_enough (length (encode_get_response r)) (5 + length r.value % 2 ^ 32)
                payload_too_short (omega (arith, length-encode_get_response)))
              (bind_ok _
                (get_response_value_slice ((5 + length r.value % 2 ^ 32) % 2 ^ 32) (omega arith))
                (rw (bool_byte-eq-one r.found))))))

  pub decode-truncated_get_response :
      (n : ℕ)
      → length r.value + 5 < 2 ^ 32
      → n < length (encode_get_response r)
      → decode_get_response (take n (encode_get_response r)) ≡ err payload_too_short
  unfolding decode_get_response
  decode-truncated_get_response n h_value cut =
      let kept : length (take n (encode_get_response r)) ≡ n =
        length-take_of_le n (encode_get_response r) (omega arith) in
      elim (Bool-cases (ltb n 5)) [
        | inl near ↦ bind_err _ (
            too_short (length (take n (encode_get_response r))) 5 payload_too_short
              (omega (arith, kept, ltb→lt n 5 near)))
        | inr beyond ↦
            let far : 5 ≤ n = ltb_false→le n 5 beyond in
            bind_ok _
              (long_enough (length (take n (encode_get_response r))) 5 payload_too_short
                (omega (arith, kept, far)))
              (bind_ok _
                (byte_at-take (encode_get_response r) n 0 (omega (arith, far))
                  ∙ get_response_found_at)
                (bind_ok _
                  (uint_at-take (encode_get_response r) n 1 5 (omega arith) (omega (arith, far))
                      (omega arith)
                    ∙ get_response_val_len_at)
                  (bind_err _ (
                    too_short (length (take n (encode_get_response r)))
                      (5 + length r.value % 2 ^ 32) payload_too_short
                      (omega (arith, kept, length-encode_get_response))))))
      ]

  pub decode-panics_get_response :
      2 ^ 32 ≤ length r.value + 5
      → length r.value < 2 ^ 32
      → decode_get_response (encode_get_response r) ≡ panic
  unfolding decode_get_response
  decode-panics_get_response wraps h_value =
      bind_ok _
        (long_enough (length (encode_get_response r)) 5 payload_too_short
          (omega (arith, length-encode_get_response)))
        (bind_ok _ get_response_found_at (
          bind_ok _ get_response_val_len_at (
            bind_ok _
              (long_enough (length (encode_get_response r)) (5 + length r.value % 2 ^ 32)
                payload_too_short (omega (arith, length-encode_get_response)))
              (bind_panic _ (
                slice_reversed (encode_get_response r) 5 ((5 + length r.value % 2 ^ 32) % 2 ^ 32)
                  (omega arith))))))

module _ (r : SetResponse) where
  pub length-encode_set_response : length (encode_set_response r) ≡ 3 + length r.message
  unfolding encode_set_response put_uint16
  length-encode_set_response = omega arith

  set_response_success_at :
      byte_at {E = DecodeError} (encode_set_response r) 0 ≡ ok (bool_byte r.success)
  unfolding encode_set_response put_uint16
  set_response_success_at = byte_at-part [] (bool_byte r.success) _ 0 refl

  set_response_msg_len_at :
      uint_at {E = DecodeError} (encode_set_response r) 1 3 ≡ ok (length r.message % 2 ^ 16)
  unfolding encode_set_response put_uint16
  set_response_msg_len_at =
      uint16_at-part (bool_byte r.success ∷ []) (length r.message % 2 ^ 16) _ 1 3 (omega arith) refl
        refl

  set_response_message_slice :
      (hi : ℕ)
      → hi ≡ 3 + length r.message
      → slice {E = DecodeError} (encode_set_response r) 3 hi ≡ ok r.message
  unfolding encode_set_response put_uint16
  set_response_message_slice hi e =
      slice-tail ((bool_byte r.success ∷ []) ++ put_uint16 (length r.message % 2 ^ 16)) r.message 3
        hi refl e

  pub decode-encode_set_response :
      length r.message + 3 < 2 ^ 16 → decode_set_response (encode_set_response r) ≡ ok r
  unfolding decode_set_response
  decode-encode_set_response h_message =
      bind_ok _
        (long_enough (length (encode_set_response r)) 3 payload_too_short
          (omega (arith, length-encode_set_response)))
        (bind_ok _ set_response_success_at (
          bind_ok _ set_response_msg_len_at (
            bind_ok _
              (long_enough (length (encode_set_response r)) (3 + length r.message % 2 ^ 16)
                payload_too_short (omega (arith, length-encode_set_response)))
              (bind_ok _
                (set_response_message_slice ((3 + length r.message % 2 ^ 16) % 2 ^ 16)
                  (omega arith))
                (rw (bool_byte-eq-one r.success))))))

  pub decode-truncated_set_response :
      (n : ℕ)
      → length r.message + 3 < 2 ^ 16
      → n < length (encode_set_response r)
      → decode_set_response (take n (encode_set_response r)) ≡ err payload_too_short
  unfolding decode_set_response
  decode-truncated_set_response n h_message cut =
      let kept : length (take n (encode_set_response r)) ≡ n =
        length-take_of_le n (encode_set_response r) (omega arith) in
      elim (Bool-cases (ltb n 3)) [
        | inl near ↦ bind_err _ (
            too_short (length (take n (encode_set_response r))) 3 payload_too_short
              (omega (arith, kept, ltb→lt n 3 near)))
        | inr beyond ↦
            let far : 3 ≤ n = ltb_false→le n 3 beyond in
            bind_ok _
              (long_enough (length (take n (encode_set_response r))) 3 payload_too_short
                (omega (arith, kept, far)))
              (bind_ok _
                (byte_at-take (encode_set_response r) n 0 (omega (arith, far))
                  ∙ set_response_success_at)
                (bind_ok _
                  (uint_at-take (encode_set_response r) n 1 3 (omega arith) (omega (arith, far))
                      (omega arith)
                    ∙ set_response_msg_len_at)
                  (bind_err _ (
                    too_short (length (take n (encode_set_response r)))
                      (3 + length r.message % 2 ^ 16) payload_too_short
                      (omega (arith, kept, length-encode_set_response))))))
      ]

  pub decode-panics_set_response :
      2 ^ 16 ≤ length r.message + 3
      → length r.message < 2 ^ 16
      → decode_set_response (encode_set_response r) ≡ panic
  unfolding decode_set_response
  decode-panics_set_response wraps h_message =
      bind_ok _
        (long_enough (length (encode_set_response r)) 3 payload_too_short
          (omega (arith, length-encode_set_response)))
        (bind_ok _ set_response_success_at (
          bind_ok _ set_response_msg_len_at (
            bind_ok _
              (long_enough (length (encode_set_response r)) (3 + length r.message % 2 ^ 16)
                payload_too_short (omega (arith, length-encode_set_response)))
              (bind_panic _ (
                slice_reversed (encode_set_response r) 3 ((3 + length r.message % 2 ^ 16) % 2 ^ 16)
                  (omega arith))))))

module _ (r : DeleteResponse) where
  pub length-encode_delete_response : length (encode_delete_response r) ≡ 3 + length r.message
  unfolding encode_delete_response put_uint16
  length-encode_delete_response = omega arith

  delete_response_success_at :
      byte_at {E = DecodeError} (encode_delete_response r) 0 ≡ ok (bool_byte r.success)
  unfolding encode_delete_response put_uint16
  delete_response_success_at = byte_at-part [] (bool_byte r.success) _ 0 refl

  delete_response_msg_len_at :
      uint_at {E = DecodeError} (encode_delete_response r) 1 3 ≡ ok (length r.message % 2 ^ 16)
  unfolding encode_delete_response put_uint16
  delete_response_msg_len_at =
      uint16_at-part (bool_byte r.success ∷ []) (length r.message % 2 ^ 16) _ 1 3 (omega arith) refl
        refl

  delete_response_message_slice :
      (hi : ℕ)
      → hi ≡ 3 + length r.message
      → slice {E = DecodeError} (encode_delete_response r) 3 hi ≡ ok r.message
  unfolding encode_delete_response put_uint16
  delete_response_message_slice hi e =
      slice-tail ((bool_byte r.success ∷ []) ++ put_uint16 (length r.message % 2 ^ 16)) r.message 3
        hi refl e

  pub decode-encode_delete_response :
      length r.message + 3 < 2 ^ 16 → decode_delete_response (encode_delete_response r) ≡ ok r
  unfolding decode_delete_response
  decode-encode_delete_response h_message =
      bind_ok _
        (long_enough (length (encode_delete_response r)) 3 payload_too_short
          (omega (arith, length-encode_delete_response)))
        (bind_ok _ delete_response_success_at (
          bind_ok _ delete_response_msg_len_at (
            bind_ok _
              (long_enough (length (encode_delete_response r)) (3 + length r.message % 2 ^ 16)
                payload_too_short (omega (arith, length-encode_delete_response)))
              (bind_ok _
                (delete_response_message_slice ((3 + length r.message % 2 ^ 16) % 2 ^ 16)
                  (omega arith))
                (rw (bool_byte-eq-one r.success))))))

  pub decode-truncated_delete_response :
      (n : ℕ)
      → length r.message + 3 < 2 ^ 16
      → n < length (encode_delete_response r)
      → decode_delete_response (take n (encode_delete_response r)) ≡ err payload_too_short
  unfolding decode_delete_response
  decode-truncated_delete_response n h_message cut =
      let kept : length (take n (encode_delete_response r)) ≡ n =
        length-take_of_le n (encode_delete_response r) (omega arith) in
      elim (Bool-cases (ltb n 3)) [
        | inl near ↦ bind_err _ (
            too_short (length (take n (encode_delete_response r))) 3 payload_too_short
              (omega (arith, kept, ltb→lt n 3 near)))
        | inr beyond ↦
            let far : 3 ≤ n = ltb_false→le n 3 beyond in
            bind_ok _
              (long_enough (length (take n (encode_delete_response r))) 3 payload_too_short
                (omega (arith, kept, far)))
              (bind_ok _
                (byte_at-take (encode_delete_response r) n 0 (omega (arith, far))
                  ∙ delete_response_success_at)
                (bind_ok _
                  (uint_at-take (encode_delete_response r) n 1 3 (omega arith) (omega (arith, far))
                      (omega arith)
                    ∙ delete_response_msg_len_at)
                  (bind_err _ (
                    too_short (length (take n (encode_delete_response r)))
                      (3 + length r.message % 2 ^ 16) payload_too_short
                      (omega (arith, kept, length-encode_delete_response))))))
      ]

  pub decode-panics_delete_response :
      2 ^ 16 ≤ length r.message + 3
      → length r.message < 2 ^ 16
      → decode_delete_response (encode_delete_response r) ≡ panic
  unfolding decode_delete_response
  decode-panics_delete_response wraps h_message =
      bind_ok _
        (long_enough (length (encode_delete_response r)) 3 payload_too_short
          (omega (arith, length-encode_delete_response)))
        (bind_ok _ delete_response_success_at (
          bind_ok _ delete_response_msg_len_at (
            bind_ok _
              (long_enough (length (encode_delete_response r)) (3 + length r.message % 2 ^ 16)
                payload_too_short (omega (arith, length-encode_delete_response)))
              (bind_panic _ (
                slice_reversed (encode_delete_response r) 3
                  ((3 + length r.message % 2 ^ 16) % 2 ^ 16) (omega arith))))))
