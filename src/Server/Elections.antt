-- ===== src/Server/Elections.antt =====
-- An election over the wire: a candidate's request at the server of a peer.
use keva.Prelude.{
  ℕ, ◌^◌, ◌<◌, ◌≡◌, refl, sym, ap, ◌∙◌, Bool, ◌||◌, ◌&&◌, Bool-cases, inl, inr, some, [],
  append-nil, arith, Bytes, length, ltb, ◌==◌, bytes_eq, put_uint64,
}
use keva.Protocol.Cluster.{VoteRequest, VoteResponse, encode_vote_response}
use keva.Protocol.Message.{Message, vote_response, encode_message, encode, op_code}
use keva.Protocol.Frame.{encode_frame}
use keva.Protocol.Frame.Stream.{FrameFits, read_frame-encode_frame}
use keva.Cluster.Raft.{RaftState, receive_vote, adopt_term, cast_vote, follower, is_leader}
use keva.Cluster.Raft
use keva.Cluster.Rpc.{Peer, ballot, count_reply, request_vote}
use keva.Cluster.Node.{Node}
use keva.Cluster.Node.Roles.{node_vote_request}
use keva.Server.{
  TcpServer, Surroundings, answered, write_message, handle_vote_request, route, after_first,
  handle_connection,
}
use keva.Server.Pipeline.{read_message-encode_frame}

term-cast_vote :
    (candidate_id : Bytes) (w : Bool) (r : RaftState)
    → (cast_vote candidate_id w r).0.term ≡ r.current_term
unfolding cast_vote
term-cast_vote candidate_id w r =
    elim (Bool-cases (bytes_eq r.voted_for [] || bytes_eq r.voted_for candidate_id)) [
      | inl e ↦ rw e refl
      | inr e ↦ rw e refl
    ]

term-adopt_term :
    (term : ℕ) (r : RaftState)
    → r.current_term < 2 ^ 64
    → term < 2 ^ 64
    → (adopt_term term follower r).current_term < 2 ^ 64
unfolding adopt_term
term-adopt_term term r h k = elim (Bool-cases (ltb r.current_term term)) [
  | inl e ↦ rw e k
  | inr e ↦ rw e h
]

-- The term of an answer is that of the node or that of the request.
term-handle_vote_request :
    (req : VoteRequest) (r : RaftState)
    → r.current_term < 2 ^ 64
    → req.term < 2 ^ 64
    → (Raft.handle_vote_request req r).0.term < 2 ^ 64
unfolding Raft.handle_vote_request
term-handle_vote_request req r h k =
    elim (Bool-cases
      (ltb req.term r.current_term || (is_leader r.role && (req.term == r.current_term)))) [
        | inl e ↦ rw e h
        | inr e ↦
            rw
              (
                e,
                term-cast_vote req.candidate_id (is_leader r.role) (adopt_term req.term follower r),
              )
              (term-adopt_term req.term r h k)
      ]

response_short : (x : VoteResponse) → length (encode_message (vote_response x)) < 2 ^ 32
unfolding encode_message encode encode_vote_response put_uint64
response_short x = omega arith

-- The server of a node, to a peer that writes one request and reads what comes back.
abbrev pub served : TcpServer → Surroundings → Node → Peer
served s env n input =
    some (handle_connection s env 0 n (record { input = input; output = [] })).2.output

abbrev pub request : ℕ → RaftState → VoteRequest
request term r = record { term = term; candidate_id = r.node_addr; last_log_index = 0 }

module _ (s : TcpServer) (env : Surroundings) (n : Node) (term : ℕ) (r : RaftState) where
  abbrev reply : (Bool × ℕ) × Node
  reply = node_vote_request (env.world 0).others (request term r) (env.between 0 n)

  abbrev response : Message
  response = vote_response (record { term = reply.0.1; granted = reply.0.0 })

  handled :
      FrameFits s.max_payload_bytes (ballot term r)
      → handle_connection s env 0 n (record { input = encode_frame (ballot term r); output = [] })
        ≡ (answered, reply.1, record { input = []; output = encode_frame response })
  unfolding handle_connection after_first route op_code handle_vote_request write_message
  handled fits =
      ap (λ b. handle_connection s env 0 n (record { input = b; output = [] }))
        (sym (append-nil (encode_frame (ballot term r))))
      ∙ rw (read_message-encode_frame s (ballot term r) [] [] fits) refl

  response-FrameFits :
      term < 2 ^ 64 → (env.between 0 n).raft.current_term < 2 ^ 64 → FrameFits 0 response
  unfolding node_vote_request
  response-FrameFits small h =
      let t = term-handle_vote_request (request term r) (env.between 0 n).raft h small in
      (t, response_short (record { term = reply.0.1; granted = reply.0.0 }), inl refl)

  -- A candidate that asks the server of a peer for its vote, in a request that is within the
  -- limit, counts it just when the peer's node grants it, and adopts the term of the answer as it
  -- would from the call itself; the node is as after the call, for a term that is a uint64.
  pub request_vote-served :
      FrameFits s.max_payload_bytes (ballot term r)
      → (env.between 0 n).raft.current_term < 2 ^ 64
      → (request_vote (served s env n) term r
          ≡ some (reply.0.0, receive_vote (record { term = reply.0.1; granted = reply.0.0 }) r))
        × ((handle_connection s env 0 n
              (record { input = encode_frame (ballot term r); output = [] })).1
            ≡ reply.1)
  unfolding request_vote count_reply
  request_vote-served fits h =
      let q = handled fits in
      let back = read_frame-encode_frame 0 response [] (response-FrameFits fits.0.0 h) in
      (rw (q, sym (append-nil (encode_frame response)), back) refl, ap (λ x. x.1) q)
