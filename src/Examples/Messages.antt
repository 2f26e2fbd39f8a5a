-- ===== src/Examples/Messages.antt =====
-- Messages and frames at concrete inputs.
use keva.Prelude.{
  ◌≡◌, ◌↔◌, inr, [], ◌∷◌, ◌++◌, arith, take, ok, err, panic, put_uint16, put_uint32, put_uint64,
}
use keva.Protocol.Errors.{payload_too_short, decode_failed}
use keva.Protocol.Kv.{encode_set_request}
use keva.Protocol.Message.{Message, set_request, op_code, encode, encode_message, decode_message}
use keva.Protocol.Message.RoundTrip.{decode_message-encode_message, decode_message-truncated}
use keva.Protocol.Message.Panics.{MessageWraps, decode_message_panic_iff}
use keva.Protocol.Frame.Stream.{FrameFits, read_frames, encode_frames, read_frames-encode_frames}

abbrev pub a_message : Message
a_message = set_request (record { key = 5 ∷ []; value = 6 ∷ 7 ∷ []; ttl = 9 })

decode_message-encode_message_example : decode_message (encode_message a_message) ≡ ok a_message
decode_message-encode_message_example =
    decode_message-encode_message a_message (omega arith, omega arith, omega arith)

decode_message-truncated_example :
    decode_message (take 16 (encode_message a_message))
    ≡ err (decode_failed (op_code a_message) payload_too_short)
decode_message-truncated_example =
    decode_message-truncated a_message 15 (omega arith, omega arith, omega arith)
      (unfold encode encode_set_request put_uint16 put_uint32 put_uint64 in omega arith)

decode_message_panic_iff_example :
    (decode_message (1 ∷ 255 ∷ 255 ∷ []) ≡ panic) ↔ MessageWraps (1 ∷ 255 ∷ 255 ∷ [])
decode_message_panic_iff_example =
    decode_message_panic_iff (1 ∷ 255 ∷ 255 ∷ []) (omega arith, (omega arith, (omega arith, tt)))

pub a_message-FrameFits : FrameFits 100 a_message
a_message-FrameFits = (
  (omega arith, omega arith, omega arith),
  unfold encode_message encode encode_set_request put_uint16 put_uint32 put_uint64 in omega arith,
  inr (
      unfold encode_message encode encode_set_request put_uint16 put_uint32 put_uint64 in
      omega arith),
)

read_frames-encode_frames_example :
    read_frames 100 2 (encode_frames (a_message ∷ a_message ∷ []) ++ (1 ∷ []))
    ≡ (ok (a_message ∷ a_message ∷ []), 1 ∷ [])
read_frames-encode_frames_example =
    read_frames-encode_frames 100 (a_message ∷ a_message ∷ []) (1 ∷ [])
      (a_message-FrameFits, (a_message-FrameFits, tt))
