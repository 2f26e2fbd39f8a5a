-- ===== src/Protocol/Kv.antt =====
-- protocol/kv/: the client's requests and their responses.
-- In the offsets `2 + keyLen`, `14 + keyLen`, `3 + msgLen` and `5 + valLen` the constant takes the
-- type of the length, so these sums wrap at 16 or 32 bits; the sums with `int(…)` do not.
pub mod Panics
pub mod Requests
pub mod Responses
use keva.Prelude.{
  ℕ, ◌+◌, ◌%◌, ◌^◌, Bool, ◌∷◌, ◌++◌, Bytes, length, ltb, ◌==◌, ok, ◌>>=◌, ◌>>◌, reject_if, slice,
  byte_at, uint_at, bool_byte, put_uint16, put_uint32, put_uint64,
}
use keva.Protocol.Errors.{Decode, payload_too_short}

pub record GetRequest : Type 0 where
  pub key : Bytes

unfoldable pub encode_get_request : GetRequest → Bytes
encode_get_request r = put_uint16 (length r.key % 2 ^ 16) ++ r.key

unfoldable pub decode_get_request : Bytes → Decode GetRequest
decode_get_request bytes = do
  reject_if (ltb (length bytes) 2) payload_too_short
  key_len ← uint_at bytes 0 2
  reject_if (ltb (length bytes) (2 + key_len)) payload_too_short
  key ← slice bytes 2 ((2 + key_len) % 2 ^ 16)
  ok (record { key = key })

pub record SetRequest : Type 0 where
  pub key : Bytes
  pub value : Bytes
  pub ttl : ℕ

unfoldable pub encode_set_request : SetRequest → Bytes
encode_set_request r =
    put_uint16 (length r.key % 2 ^ 16)
    ++ (put_uint32 (length r.value % 2 ^ 32) ++ (put_uint64 r.ttl ++ (r.key ++ r.value)))

unfoldable pub decode_set_request : Bytes → Decode SetRequest
decode_set_request bytes = do
  reject_if (ltb (length bytes) 14) payload_too_short
  key_len ← uint_at bytes 0 2
  val_len ← uint_at bytes 2 6
  ttl ← uint_at bytes 6 14
  reject_if (ltb (length bytes) (14 + key_len + val_len)) payload_too_short
  key ← slice bytes 14 ((14 + key_len) % 2 ^ 16)
  value ← slice bytes ((14 + key_len) % 2 ^ 16) (14 + key_len + val_len)
  ok (record { key = key; value = value; ttl = ttl })

pub record DeleteRequest : Type 0 where
  pub key : Bytes

unfoldable pub encode_delete_request : DeleteRequest → Bytes
encode_delete_request r = put_uint16 (length r.key % 2 ^ 16) ++ r.key

unfoldable pub decode_delete_request : Bytes → Decode DeleteRequest
decode_delete_request bytes = do
  reject_if (ltb (length bytes) 2) payload_too_short
  key_len ← uint_at bytes 0 2
  reject_if (ltb (length bytes) (2 + key_len)) payload_too_short
  key ← slice bytes 2 ((2 + key_len) % 2 ^ 16)
  ok (record { key = key })

pub record GetResponse : Type 0 where
  pub found : Bool
  pub value : Bytes

unfoldable pub encode_get_response : GetResponse → Bytes
encode_get_response r = bool_byte r.found ∷ (put_uint32 (length r.value % 2 ^ 32) ++ r.value)

unfoldable pub decode_get_response : Bytes → Decode GetResponse
decode_get_response bytes = do
  reject_if (ltb (length bytes) 5) payload_too_short
  found ← byte_at bytes 0
  val_len ← uint_at bytes 1 5
  reject_if (ltb (length bytes) (5 + val_len)) payload_too_short
  value ← slice bytes 5 ((5 + val_len) % 2 ^ 32)
  ok (record { found = found == 0x01; value = value })

pub record SetResponse : Type 0 where
  pub success : Bool
  pub message : Bytes

unfoldable pub encode_set_response : SetResponse → Bytes
encode_set_response r = bool_byte r.success ∷ (put_uint16 (length r.message % 2 ^ 16) ++ r.message)

unfoldable pub decode_set_response : Bytes → Decode SetResponse
decode_set_response bytes = do
  reject_if (ltb (length bytes) 3) payload_too_short
  success ← byte_at bytes 0
  msg_len ← uint_at bytes 1 3
  reject_if (ltb (length bytes) (3 + msg_len)) payload_too_short
  message ← slice bytes 3 ((3 + msg_len) % 2 ^ 16)
  ok (record { success = success == 0x01; message = message })

pub record DeleteResponse : Type 0 where
  pub success : Bool
  pub message : Bytes

unfoldable pub encode_delete_response : DeleteResponse → Bytes
encode_delete_response r =
    bool_byte r.success ∷ (put_uint16 (length r.message % 2 ^ 16) ++ r.message)

unfoldable pub decode_delete_response : Bytes → Decode DeleteResponse
decode_delete_response bytes = do
  reject_if (ltb (length bytes) 3) payload_too_short
  success ← byte_at bytes 0
  msg_len ← uint_at bytes 1 3
  reject_if (ltb (length bytes) (3 + msg_len)) payload_too_short
  message ← slice bytes 3 ((3 + msg_len) % 2 ^ 16)
  ok (record { success = success == 0x01; message = message })
