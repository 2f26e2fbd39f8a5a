-- ===== src/Protocol/Message/Lookup.antt =====
-- How `DecodeMessage` goes by the registry.
use keva.Prelude.{
  ℕ, suc, ◌≡◌, refl, some, none, [], ◌∷◌, arith, Bytes, length, err, bind_ok, map_err, long_enough,
  slice-tail, byte_at,
}
use keva.Protocol.Errors.{payload_too_short, unknown_opcode, decode_failed}
use keva.Protocol.Message.{Factory, decode, lookup, decode_message}

-- The decoder that the registry chooses gets the bytes behind the opcode.
pub decode_message_lem :
    (op : ℕ) (payload : Bytes) (f : Factory)
    → lookup op ≡ some f
    → decode_message (op ∷ payload) ≡ map_err (decode_failed op) (decode f payload)
unfolding decode_message byte_at
decode_message_lem op payload f e =
    bind_ok _ (long_enough (suc (length payload)) 1 payload_too_short (omega arith)) (
      rw e
        (bind_ok _ (slice-tail (op ∷ []) payload 1 (suc (length payload)) refl (omega arith)) refl))

-- An opcode without a factory is refused.
pub decode_message_unknown :
    (op : ℕ) (payload : Bytes)
    → lookup op ≡ none
    → decode_message (op ∷ payload) ≡ err (unknown_opcode op)
unfolding decode_message byte_at
decode_message_unknown op payload e =
    bind_ok _ (long_enough (suc (length payload)) 1 payload_too_short (omega arith)) (rw e)
