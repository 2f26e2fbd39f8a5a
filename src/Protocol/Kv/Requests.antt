-- ===== src/Protocol/Kv/Requests.antt =====
-- The requests of protocol/kv/: what is decoded from an encoding, whole or cut.
use keva.Prelude.{
  ℕ, ◌+◌, ◌%◌, ◌^◌, ◌≤◌, ◌<◌, ◌≡◌, refl, ◌∙◌, inl, inr, [], ◌++◌, arith, length, take, ltb,
  Bool-cases, ltb→lt, ltb_false→le, length-append, length-take_of_le, ok, err, panic, bind_ok,
  bind_err, bind_panic, long_enough, too_short, slice, slice-part, slice-tail, slice_reversed,
  uint_at, uint_at-take, uint16_at-part, uint32_at-part, uint64_at-part, put_uint16, put_uint32,
  put_uint64,
}
use keva.Protocol.Errors.{DecodeError, payload_too_short}
use keva.Protocol.Kv.{
  GetRequest, encode_get_request, decode_get_request, SetRequest, encode_set_request,
  decode_set_request, DeleteRequest, encode_delete_request, decode_delete_request,
}

module _ (r : GetRequest) where
  pub length-encode_get_request : length (encode_get_request r) ≡ 2 + length r.key
  unfolding encode_get_request put_uint16
  length-encode_get_request = omega arith

  get_request_key_len_at :
      uint_at {E = DecodeError} (encode_get_request r) 0 2 ≡ ok (length r.key % 2 ^ 16)
  unfolding encode_get_request put_uint16
  get_request_key_len_at = uint16_at-part [] (length r.key % 2 ^ 16) _ 0 2 (omega arith) refl refl

  get_request_key_slice :
      (hi : ℕ)
      → hi ≡ 2 + length r.key
      → slice {E = DecodeError} (encode_get_request r) 2 hi ≡ ok r.key
  unfolding encode_get_request put_uint16
  get_request_key_slice hi e = slice-tail (put_uint16 (length r.key % 2 ^ 16)) r.key 2 hi refl e

  pub decode-encode_get_request :
      length r.key + 2 < 2 ^ 16 → decode_get_request (encode_get_request r) ≡ ok r
  unfolding decode_get_request
  decode-encode_get_request h_key =
      bind_ok _
        (long_enough (length (encode_get_request r)) 2 payload_too_short
          (omega (arith, length-encode_get_request)))
        (bind_ok _ get_request_key_len_at (
          bind_ok _
            (long_enough (length (encode_get_request r)) (2 + length r.key % 2 ^ 16)
              payload_too_short (omega (arith, length-encode_get_request)))
            (bind_ok _ (get_request_key_slice ((2 + length r.key % 2 ^ 16) % 2 ^ 16) (omega arith))
              refl)))

  pub decode-truncated_get_request :
      (n : ℕ)
      → length r.key + 2 < 2 ^ 16
      → n < length (encode_get_request r)
      → decode_get_request (take n (encode_get_request r)) ≡ err payload_too_short
  unfolding decode_get_request
  decode-truncated_get_request n h_key cut =
      let kept : length (take n (encode_get_request r)) ≡ n =
        length-take_of_le n (encode_get_request r) (omega arith) in
      elim (Bool-cases (ltb n 2)) [
        | inl near ↦ bind_err _ (
            too_short (length (take n (encode_get_request r))) 2 payload_too_short
              (omega (arith, kept, ltb→lt n 2 near)))
        | inr beyond ↦
            let far : 2 ≤ n = ltb_false→le n 2 beyond in
            bind_ok _
              (long_enough (length (take n (encode_get_request r))) 2 payload_too_short
                (omega (arith, kept, far)))
              (bind_ok _
                (uint_at-take (encode_get_request r) n 0 2 (omega arith) (omega (arith, far))
                    (omega arith)
                  ∙ get_request_key_len_at)
                (bind_err _ (
                  too_short (length (take n (encode_get_request r))) (2 + length r.key % 2 ^ 16)
                    payload_too_short (omega (arith, kept, length-encode_get_request)))))
      ]

  pub decode-panics_get_request :
      2 ^ 16 ≤ length r.key + 2
      → length r.key < 2 ^ 16
      → decode_get_request (encode_get_request r) ≡ panic
  unfolding decode_get_request
  decode-panics_get_request wraps h_key =
      bind_ok _
        (long_enough (length (encode_get_request r)) 2 payload_too_short
          (omega (arith, length-encode_get_request)))
        (bind_ok _ get_request_key_len_at (
          bind_ok _
            (long_enough (length (encode_get_request r)) (2 + length r.key % 2 ^ 16)
              payload_too_short (omega (arith, length-encode_get_request)))
            (bind_panic _ (
              slice_reversed (encode_get_request r) 2 ((2 + length r.key % 2 ^ 16) % 2 ^ 16)
                (omega arith)))))

module _ (r : SetRequest) where
  pub length-encode_set_request : length (encode_set_request r) ≡ 14 + length r.key + length r.value
  unfolding encode_set_request put_uint16 put_uint32 put_uint64
  length-encode_set_request = omega (arith, length-append r.key r.value)

  set_request_key_len_at :
      uint_at {E = DecodeError} (encode_set_request r) 0 2 ≡ ok (length r.key % 2 ^ 16)
  unfolding encode_set_request put_uint16 put_uint32 put_uint64
  set_request_key_len_at = uint16_at-part [] (length r.key % 2 ^ 16) _ 0 2 (omega arith) refl refl

  set_request_val_len_at :
      uint_at {E = DecodeError} (encode_set_request r) 2 6 ≡ ok (length r.value % 2 ^ 32)
  unfolding encode_set_request put_uint16 put_uint32 put_uint64
  set_request_val_len_at =
      uint32_at-part (put_uint16 (length r.key % 2 ^ 16)) (length r.value % 2 ^ 32) _ 2 6
        (omega arith) refl refl

  set_request_ttl_at :
      r.ttl < 2 ^ 64 → uint_at {E = DecodeError} (encode_set_request r) 6 14 ≡ ok (r.ttl)
  unfolding encode_set_request put_uint16 put_uint32 put_uint64
  set_request_ttl_at h =
      uint64_at-part (put_uint16 (length r.key % 2 ^ 16) ++ put_uint32 (length r.value % 2 ^ 32))
        (r.ttl) _ 6 14 h refl refl

  set_request_key_slice :
      (hi : ℕ)
      → hi ≡ 14 + length r.key
      → slice {E = DecodeError} (encode_set_request r) 14 hi ≡ ok r.key
  unfolding encode_set_request put_uint16 put_uint32 put_uint64
  set_request_key_slice hi e =
      slice-part
        (put_uint16 (length r.key % 2 ^ 16)
          ++ put_uint32 (length r.value % 2 ^ 32)
          ++ put_uint64 r.ttl)
        r.key _ 14 hi refl e

  set_request_value_slice :
      (lo hi : ℕ)
      → lo ≡ 14 + length r.key
      → hi ≡ lo + length r.value
      → slice {E = DecodeError} (encode_set_request r) lo hi ≡ ok r.value
  unfolding encode_set_request put_uint16 put_uint32 put_uint64
  set_request_value_slice lo hi e e' =
      slice-tail
        ((put_uint16 (length r.key % 2 ^ 16)
            ++ put_uint32 (length r.value % 2 ^ 32)
            ++ put_uint64 r.ttl)
          ++ r.key)
        r.value lo hi (omega (arith, e)) e'

  pub decode-encode_set_request :
      length r.key + 14 < 2 ^ 16
      → length r.value < 2 ^ 32
      → r.ttl < 2 ^ 64
      → decode_set_request (encode_set_request r) ≡ ok r
  unfolding decode_set_request
  decode-encode_set_request h_key h_value h_ttl =
      bind_ok _
        (long_enough (length (encode_set_request r)) 14 payload_too_short
          (omega (arith, length-encode_set_request)))
        (bind_ok _ set_request_key_len_at (
          bind_ok _ set_request_val_len_at (
            bind_ok _ (set_request_ttl_at h_ttl) (
              bind_ok _
                (long_enough (length (encode_set_request r))
                  (14 + length r.key % 2 ^ 16 + length r.value % 2 ^ 32) payload_too_short
                  (omega (arith, length-encode_set_request)))
                (bind_ok _
                  (set_request_key_slice ((14 + length r.key % 2 ^ 16) % 2 ^ 16) (omega arith))
                  (bind_ok _
                    (set_request_value_slice ((14 + length r.key % 2 ^ 16) % 2 ^ 16)
                      (14 + length r.key % 2 ^ 16 + length r.value % 2 ^ 32) (omega arith)
                      (omega arith))
                    refl))))))

  pub decode-truncated_set_request :
      (n : ℕ)
      → length r.key + 14 < 2 ^ 16
      → length r.value < 2 ^ 32
      → r.ttl < 2 ^ 64
      → n < length (encode_set_request r)
      → decode_set_request (take n (encode_set_request r)) ≡ err payload_too_short
  unfolding decode_set_request
  decode-truncated_set_request n h_key h_value h_ttl cut =
      let kept : length (take n (encode_set_request r)) ≡ n =
        length-take_of_le n (encode_set_request r) (omega arith) in
      elim (Bool-cases (ltb n 14)) [
        | inl near ↦ bind_err _ (
            too_short (length (take n (encode_set_request r))) 14 payload_too_short
              (omega (arith, kept, ltb→lt n 14 near)))
        | inr beyond ↦
            let far : 14 ≤ n = ltb_false→le n 14 beyond in
            bind_ok _
              (long_enough (length (take n (encode_set_request r))) 14 payload_too_short
                (omega (arith, kept, far)))
              (bind_ok _
                (uint_at-take (encode_set_request r) n 0 2 (omega arith) (omega (arith, far))
                    (omega arith)
                  ∙ set_request_key_len_at)
                (bind_ok _
                  (uint_at-take (encode_set_request r) n 2 6 (omega arith) (omega (arith, far))
                      (omega arith)
                    ∙ set_request_val_len_at)
                  (bind_ok _
                    (uint_at-take (encode_set_request r) n 6 14 (omega arith) (omega (arith, far))
                        (omega arith)
                      ∙ (set_request_ttl_at h_ttl))
                    (bind_err _ (
                      too_short (length (take n (encode_set_request r)))
                        (14 + length r.key % 2 ^ 16 + length r.value % 2 ^ 32) payload_too_short
                        (omega (arith, kept, length-encode_set_request)))))))
      ]

  pub decode-panics_set_request :
      2 ^ 16 ≤ length r.key + 14
      → length r.key < 2 ^ 16
      → length r.value < 2 ^ 32
      → r.ttl < 2 ^ 64
      → decode_set_request (encode_set_request r) ≡ panic
  unfolding decode_set_request
  decode-panics_set_request wraps h_key h_value h_ttl =
      bind_ok _
        (long_enough (length (encode_set_request r)) 14 payload_too_short
          (omega (arith, length-encode_set_request)))
        (bind_ok _ set_request_key_len_at (
          bind_ok _ set_request_val_len_at (
            bind_ok _ (set_request_ttl_at h_ttl) (
              bind_ok _
                (long_enough (length (encode_set_request r))
                  (14 + length r.key % 2 ^ 16 + length r.value % 2 ^ 32) payload_too_short
                  (omega (arith, length-encode_set_request)))
                (bind_panic _ (
                  slice_reversed (encode_set_request r) 14 ((14 + length r.key % 2 ^ 16) % 2 ^ 16)
                    (omega arith)))))))

module _ (r : DeleteRequest) where
  pub length-encode_delete_request : length (encode_delete_request r) ≡ 2 + length r.key
  unfolding encode_delete_request put_uint16
  length-encode_delete_request = omega arith

  delete_request_key_len_at :
      uint_at {E = DecodeError} (encode_delete_request r) 0 2 ≡ ok (length r.key % 2 ^ 16)
  unfolding encode_delete_request put_uint16
  delete_request_key_len_at =
      uint16_at-part [] (length r.key % 2 ^ 16) _ 0 2 (omega arith) refl refl

  delete_request_key_slice :
      (hi : ℕ)
      → hi ≡ 2 + length r.key
      → slice {E = DecodeError} (encode_delete_request r) 2 hi ≡ ok r.key
  unfolding encode_delete_request put_uint16
  delete_request_key_slice hi e = slice-tail (put_uint16 (length r.key % 2 ^ 16)) r.key 2 hi refl e

  pub decode-encode_delete_request :
      length r.key + 2 < 2 ^ 16 → decode_delete_request (encode_delete_request r) ≡ ok r
  unfolding decode_delete_request
  decode-encode_delete_request h_key =
      bind_ok _
        (long_enough (length (encode_delete_request r)) 2 payload_too_short
          (omega (arith, length-encode_delete_request)))
        (bind_ok _ delete_request_key_len_at (
          bind_ok _
            (long_enough (length (encode_delete_request r)) (2 + length r.key % 2 ^ 16)
              payload_too_short (omega (arith, length-encode_delete_request)))
            (bind_ok _
              (delete_request_key_slice ((2 + length r.key % 2 ^ 16) % 2 ^ 16) (omega arith))
              refl)))

  pub decode-truncated_delete_request :
      (n : ℕ)
      → length r.key + 2 < 2 ^ 16
      → n < length (encode_delete_request r)
      → decode_delete_request (take n (encode_delete_request r)) ≡ err payload_too_short
  unfolding decode_delete_request
  decode-truncated_delete_request n h_key cut =
      let kept : length (take n (encode_delete_request r)) ≡ n =
        length-take_of_le n (encode_delete_request r) (omega arith) in
      elim (Bool-cases (ltb n 2)) [
        | inl near ↦ bind_err _ (
            too_short (length (take n (encode_delete_request r))) 2 payload_too_short
              (omega (arith, kept, ltb→lt n 2 near)))
        | inr beyond ↦
            let far : 2 ≤ n = ltb_false→le n 2 beyond in
            bind_ok _
              (long_enough (length (take n (encode_delete_request r))) 2 payload_too_short
                (omega (arith, kept, far)))
              (bind_ok _
                (uint_at-take (encode_delete_request r) n 0 2 (omega arith) (omega (arith, far))
                    (omega arith)
                  ∙ delete_request_key_len_at)
                (bind_err _ (
                  too_short (length (take n (encode_delete_request r))) (2 + length r.key % 2 ^ 16)
                    payload_too_short (omega (arith, kept, length-encode_delete_request)))))
      ]

  pub decode-panics_delete_request :
      2 ^ 16 ≤ length r.key + 2
      → length r.key < 2 ^ 16
      → decode_delete_request (encode_delete_request r) ≡ panic
  unfolding decode_delete_request
  decode-panics_delete_request wraps h_key =
      bind_ok _
        (long_enough (length (encode_delete_request r)) 2 payload_too_short
          (omega (arith, length-encode_delete_request)))
        (bind_ok _ delete_request_key_len_at (
          bind_ok _
            (long_enough (length (encode_delete_request r)) (2 + length r.key % 2 ^ 16)
              payload_too_short (omega (arith, length-encode_delete_request)))
            (bind_panic _ (
              slice_reversed (encode_delete_request r) 2 ((2 + length r.key % 2 ^ 16) % 2 ^ 16)
                (omega arith)))))
