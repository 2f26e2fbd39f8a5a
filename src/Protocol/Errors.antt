-- ===== src/Protocol/Errors.antt =====
-- protocol/errors.go: the decode errors, and the structured error message.
pub mod Panics
pub mod RoundTrip
use keva.Prelude.{
  ℕ, ◌+◌, ◌%◌, ◌^◌, ◌++◌, Bytes, length, ltb, Outcome, ok, ◌>>=◌, ◌>>◌, reject_if, slice, uint_at,
  put_uint16,
}

-- `decode_failed` is the wrapping `protocol: decode error for opcode 0x%02X: %w`.
pub data DecodeError : Type 0 where
  payload_too_short : DecodeError
  unknown_opcode : ℕ → DecodeError
  decode_failed : ℕ → DecodeError → DecodeError

-- `errors.Is(err, ErrPayloadTooShort)`
pub data IsTooShort : DecodeError → Type 0 where
  plain : IsTooShort payload_too_short
  wrapped : {op : ℕ} {e : DecodeError} → IsTooShort e → IsTooShort (decode_failed op e)

abbrev pub Decode : Type 0 → Type 0
Decode A = Outcome DecodeError A

abbrev pub err_code_not_leader : ℕ
err_code_not_leader = 1

abbrev pub err_code_key_not_found : ℕ
err_code_key_not_found = 2

abbrev pub err_code_internal : ℕ
err_code_internal = 3

abbrev pub err_code_bad_request : ℕ
err_code_bad_request = 4

abbrev pub err_code_timeout : ℕ
err_code_timeout = 5

pub record ErrorMessage : Type 0 where
  pub code : ℕ
  pub message : Bytes

unfoldable pub encode_error_message : ErrorMessage → Bytes
encode_error_message e = put_uint16 e.code ++ (put_uint16 (length e.message % 2 ^ 16) ++ e.message)

unfoldable pub decode_error_message : Bytes → Decode ErrorMessage
decode_error_message bytes = do
  reject_if (ltb (length bytes) 4) payload_too_short
  code ← uint_at bytes 0 2
  msg_len ← uint_at bytes 2 4
  reject_if (ltb (length bytes) (4 + msg_len)) payload_too_short
  message ← slice bytes 4 (4 + msg_len)
  ok (record { code = code; message = message })
