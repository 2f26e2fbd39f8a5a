-- ===== src/Protocol/Message/Panics.antt =====
-- The byte strings on which `DecodeMessage` panics.
use keva.Prelude.{
  ℕ, ◌^◌, ◌<◌, ◌≡◌, ◌⊎◌, ◌↔◌, refl, inl, inr, none, some, Option-cases, [], ◌∷◌, arith, Bytes, take,
  drop, All, ok, err, panic, ◌>>=◌, map_err, uint, IsByte, uint_two_bytes, uint_four_bytes,
  All-take, All-drop, length-take, bind_panic,
}
use keva.Protocol.Errors.{DecodeError, Decode, decode_failed, unknown_opcode}
use keva.Protocol.Errors.Panics.{decode_error_message_panic}
use keva.Protocol.Kv.Panics.{
  GetRequestWraps, decode_get_request_panic, decode_get_request_wraps, SetRequestWraps,
  decode_set_request_panic, decode_set_request_wraps, DeleteRequestWraps,
  decode_delete_request_panic, decode_delete_request_wraps, GetResponseWraps,
  decode_get_response_panic, decode_get_response_wraps, SetResponseWraps, decode_set_response_panic,
  decode_set_response_wraps, DeleteResponseWraps, decode_delete_response_panic,
  decode_delete_response_wraps,
}
use keva.Protocol.Client.{decode_topology_request}
use keva.Protocol.Client.Panics.{decode_topology_response_panic}
use keva.Protocol.Cluster.Panics.{
  decode_replication_sync_panic, decode_replication_ack_panic, decode_replication_join_panic,
  decode_heartbeat_panic, decode_heartbeat_ack_panic, decode_vote_request_panic,
  decode_vote_response_panic,
}
use keva.Protocol.Errors.{decode_error_message}
use keva.Protocol.Kv.{
  decode_get_request, decode_set_request, decode_delete_request, decode_get_response,
  decode_set_response, decode_delete_response,
}
use keva.Protocol.Client.{decode_topology_response}
use keva.Protocol.Cluster.{
  decode_replication_sync, decode_replication_ack, decode_replication_join, decode_heartbeat,
  decode_heartbeat_ack, decode_vote_request, decode_vote_response,
}
use keva.Protocol.Message.{
  get_request, set_request, delete_request, get_response, set_response, delete_response,
  topology_response, replication_sync, replication_ack, replication_join, heartbeat, heartbeat_ack,
  vote_request, vote_response, error_message, Factory, new_get_request, new_set_request,
  new_delete_request, new_get_response, new_set_response, new_delete_response, new_topology_request,
  new_topology_response, new_replication_sync, new_replication_ack, new_replication_join,
  new_heartbeat, new_heartbeat_ack, new_vote_request, new_vote_response, new_error_message, decode,
  lookup, decode_message,
}
use keva.Protocol.Message.Lookup.{decode_message_lem, decode_message_unknown}

-- The payload's length field makes the 16-bit (or 32-bit) offset behind it wrap, and the payload
-- is as long as that field says.
abbrev pub PayloadWraps : Factory → Bytes → Type 0
PayloadWraps new_get_request p = GetRequestWraps p
PayloadWraps new_set_request p = SetRequestWraps p
PayloadWraps new_delete_request p = DeleteRequestWraps p
PayloadWraps new_get_response p = GetResponseWraps p
PayloadWraps new_set_response p = SetResponseWraps p
PayloadWraps new_delete_response p = DeleteResponseWraps p
PayloadWraps _ p = ⊥

map_panic : {A B : Type 0} (r : Decode A) (f : A → B) → (r >>= λ a. ok (f a)) ≡ panic → r ≡ panic
map_panic (ok a) f h = cc
map_panic (err e) f h = cc
map_panic panic f h = refl

decode_panic : (f : Factory) (p : Bytes) → decode f p ≡ panic → PayloadWraps f p
unfolding decode
decode_panic new_get_request p h =
    decode_get_request_panic p (map_panic (decode_get_request p) get_request h)
decode_panic new_set_request p h =
    decode_set_request_panic p (map_panic (decode_set_request p) set_request h)
decode_panic new_delete_request p h =
    decode_delete_request_panic p (map_panic (decode_delete_request p) delete_request h)
decode_panic new_get_response p h =
    decode_get_response_panic p (map_panic (decode_get_response p) get_response h)
decode_panic new_set_response p h =
    decode_set_response_panic p (map_panic (decode_set_response p) set_response h)
decode_panic new_delete_response p h =
    decode_delete_response_panic p (map_panic (decode_delete_response p) delete_response h)
decode_panic new_topology_request p h = unfold decode_topology_request in cc
decode_panic new_topology_response p h =
    decode_topology_response_panic p (map_panic (decode_topology_response p) topology_response h)
decode_panic new_replication_sync p h =
    decode_replication_sync_panic p (map_panic (decode_replication_sync p) replication_sync h)
decode_panic new_replication_ack p h =
    decode_replication_ack_panic p (map_panic (decode_replication_ack p) replication_ack h)
decode_panic new_replication_join p h =
    decode_replication_join_panic p (map_panic (decode_replication_join p) replication_join h)
decode_panic new_heartbeat p h =
    decode_heartbeat_panic p (map_panic (decode_heartbeat p) heartbeat h)
decode_panic new_heartbeat_ack p h =
    decode_heartbeat_ack_panic p (map_panic (decode_heartbeat_ack p) heartbeat_ack h)
decode_panic new_vote_request p h =
    decode_vote_request_panic p (map_panic (decode_vote_request p) vote_request h)
decode_panic new_vote_response p h =
    decode_vote_response_panic p (map_panic (decode_vote_response p) vote_response h)
decode_panic new_error_message p h =
    decode_error_message_panic p (map_panic (decode_error_message p) error_message h)

word16 : (p : Bytes) (o : ℕ) → All IsByte p → uint (take 2 (drop o p)) < 2 ^ 16
word16 p o bytes =
    uint_two_bytes (take 2 (drop o p)) (All-take IsByte 2 (drop o p) (All-drop IsByte o p bytes))
      (omega (arith, length-take 2 (drop o p)))

word32 : (p : Bytes) (o : ℕ) → All IsByte p → uint (take 4 (drop o p)) < 2 ^ 32
word32 p o bytes =
    uint_four_bytes (take 4 (drop o p)) (All-take IsByte 4 (drop o p) (All-drop IsByte o p bytes))
      (omega (arith, length-take 4 (drop o p)))

decode_wraps : (f : Factory) (p : Bytes) → All IsByte p → PayloadWraps f p → decode f p ≡ panic
unfolding decode
decode_wraps new_get_request p bytes h =
    bind_panic _ (decode_get_request_wraps p (word16 p 0 bytes) h)
decode_wraps new_set_request p bytes h =
    bind_panic _ (decode_set_request_wraps p (word16 p 0 bytes) h)
decode_wraps new_delete_request p bytes h =
    bind_panic _ (decode_delete_request_wraps p (word16 p 0 bytes) h)
decode_wraps new_get_response p bytes h =
    bind_panic _ (decode_get_response_wraps p (word32 p 1 bytes) h)
decode_wraps new_set_response p bytes h =
    bind_panic _ (decode_set_response_wraps p (word16 p 1 bytes) h)
decode_wraps new_delete_response p bytes h =
    bind_panic _ (decode_delete_response_wraps p (word16 p 1 bytes) h)
decode_wraps new_topology_request p bytes h = elim h [ ]
decode_wraps new_topology_response p bytes h = elim h [ ]
decode_wraps new_replication_sync p bytes h = elim h [ ]
decode_wraps new_replication_ack p bytes h = elim h [ ]
decode_wraps new_replication_join p bytes h = elim h [ ]
decode_wraps new_heartbeat p bytes h = elim h [ ]
decode_wraps new_heartbeat_ack p bytes h = elim h [ ]
decode_wraps new_vote_request p bytes h = elim h [ ]
decode_wraps new_vote_response p bytes h = elim h [ ]
decode_wraps new_error_message p bytes h = elim h [ ]

-- `decode_message` on a byte string with an opcode, whatever the opcode.
decode_message_cases :
    (op : ℕ) (payload : Bytes)
    → ((lookup op ≡ none) × (decode_message (op ∷ payload) ≡ err (unknown_opcode op)))
      ⊎ ((f : Factory) × (lookup op ≡ some f)
          × (decode_message (op ∷ payload) ≡ map_err (decode_failed op) (decode f payload)))
decode_message_cases op payload = elim (Option-cases (lookup op)) [
  | inl e ↦ inl (e, decode_message_unknown op payload e)
  | inr (f, e) ↦ inr (f, e, decode_message_lem op payload f e)
]

map_err_panic :
    {A : Type 0} (r : Decode A) (g : DecodeError → DecodeError) → map_err g r ≡ panic → r ≡ panic
map_err_panic (ok a) g h = cc
map_err_panic (err e) g h = cc
map_err_panic panic g h = refl

-- The strings on which the decoder panics: an opcode of protocol/kv/, and a payload that wraps.
abbrev pub MessageWraps : Bytes → Type 0
MessageWraps [] = ⊥
MessageWraps (op ∷ payload) = (f : Factory) × (lookup op ≡ some f) × PayloadWraps f payload

empty_refused : decode_message [] ≡ panic → ⊥
unfolding decode_message
empty_refused p = cc

-- On bytes, DecodeMessage panics exactly when the length field of a message of protocol/kv/ makes
-- the offset behind it wrap and the payload is as long as the field says; on no other byte string,
-- however malformed, does it panic.
pub decode_message_panic_iff :
    (bytes : Bytes) → All IsByte bytes → (decode_message bytes ≡ panic) ↔ MessageWraps bytes
decode_message_panic_iff [] h = (empty_refused, λ w. elim w [ ])
decode_message_panic_iff (op ∷ payload) h = (
  λ p. elim (decode_message_cases op payload) [
    | inl (e, d) ↦ cc (rw d at p)
    | inr (f, e, d) ↦ (
      f,
      e,
      decode_panic f payload (map_err_panic (decode f payload) (decode_failed op) (rw d at p)),
    )
  ],
  λ (f, e, w). rw (decode_message_lem op payload f e, decode_wraps f payload h.1 w),
)
