-- ===== src/Server/Pipeline.antt =====
-- Requests that a client writes one after the other on a connection, and the responses to them.
use keva.Prelude.{
  ℕ, suc, ◌+◌, ◌≡◌, ◌≢◌, inl, inr, refl, sym, ap, ◌∙◌, false, Bool-cases, Option, none, some, List,
  [], ◌∷◌, ◌++◌, append_assoc, append-nil, arith, Bytes, All, length, ◌==◌, if◌then◌else◌, ok, err,
  panic,
}
use keva.Protocol.Opcodes.{op_topology_request, op_replication_join, op_heartbeat, op_vote_request}
use keva.Protocol.Errors.{err_code_internal}
use keva.Protocol.Message.{Message, topology_response, error_message, op_code}
use keva.Protocol.Frame.{encode_frame, read_frame, io_error}
use keva.Prelude.Reader.{eof, read_full}
use keva.Protocol.Frame.Stream.{FrameFits, encode_frames, read_frame-encode_frame}
use keva.Store.KvStore.Sharding.{IsReady}
use keva.Cluster.Node.{Node, get_topology}
use keva.Engine.{World, Reply, dispatch}
use keva.Engine.Total.{dispatch-IsAnswered}
use keva.Server.{
  TcpServer, Conn, Surroundings, Ending, closed, write_message, write_error, report, read_message,
  write_reply, dispatch_to_engine, dispatch_client, after_dispatch, after_read, client_loop, route,
  after_first, handle_connection,
}

-- The response to one message, whatever connection it came on.
abbrev reply_message : TcpServer → Reply → Option (Message × Node)
reply_message s (ok resp, n) = some (resp, n)
reply_message s (err e, n) =
    some (error_message (record { code = err_code_internal; message = s.texts.of_handler e }), n)
reply_message s (panic, n) = none

abbrev pub answer : TcpServer → World → Message → Node → Option (Message × Node)
answer s w msg n =
    if op_code msg == op_topology_request
    then some (topology_response (get_topology n), n)
    else reply_message s (dispatch w msg n)

-- The responses to messages in their order, and the node from the first to the last.
pub data Answers (s : TcpServer) (env : Surroundings)
    : ℕ → List Message → Node → List Message → Node → Type 0 where
  all_answered : {i : ℕ} {n : Node} → Answers s env i [] n [] n
  next :
      {i : ℕ} {m : Message} {ms : List Message} {n : Node} {r : Message} {n' : Node}
      {rs : List Message} {n'' : Node}
      → answer s (env.world i) m (env.between i n) ≡ some (r, n')
      → Answers s env (suc i) ms n' rs n''
      → Answers s env i (m ∷ ms) n (r ∷ rs) n''

-- What the other connections do keeps the store in order.
abbrev pub KeepsReady : Surroundings → Type 0
KeepsReady env = (i : ℕ) (n : Node) → IsReady n.db → IsReady (env.between i n).db

-- A response, and a node whose store is in order.
pub record HasReply (x : Option (Message × Node)) : Type 0 where
  pub reply : Message
  pub node : Node
  pub is : x ≡ some (reply, node)
  pub ready : IsReady node.db

pub answer-HasReply :
    (s : TcpServer) (w : World) (msg : Message) (n : Node)
    → IsReady n.db
    → HasReply (answer s w msg n)
answer-HasReply s w msg n h = elim (Bool-cases (op_code msg == op_topology_request)) [
  | inl e ↦
      rw e (record { reply = topology_response (get_topology n); node = n; is = refl; ready = h })
  | inr e ↦ let a = dispatch-IsAnswered w n h msg in rw e (by_reply (dispatch w msg n) a.0 a.1)
]
  where
    by_reply : (q : Reply) → q.0 ≢ panic → IsReady q.1.db → HasReply (reply_message s q)
    by_reply (ok resp, n') p h' = record { reply = resp; node = n'; is = refl; ready = h' }
    by_reply (err e, n') p h' = record {
      reply = error_message (record { code = err_code_internal; message = s.texts.of_handler e });
      node = n';
      is = refl;
      ready = h';
    }
    by_reply (panic, n') p h' = absurd (p refl)

write_reply-reply_message :
    (s : TcpServer) (c : Conn) (q : Reply) (r : Message) (n' : Node)
    → reply_message s q ≡ some (r, n')
    → write_reply s c q ≡ some (n', write_message r c)
unfolding write_reply write_error
write_reply-reply_message s c (ok resp, n) r n' e = cc
write_reply-reply_message s c (err x, n) r n' e = cc
write_reply-reply_message s c (panic, n) r n' e = absurd (cc e)

pub dispatch_client-answer :
    (s : TcpServer) (w : World) (msg : Message) (n : Node) (c : Conn) (r : Message) (n' : Node)
    → answer s w msg n ≡ some (r, n')
    → dispatch_client s w msg n c ≡ some (n', write_message r c)
unfolding dispatch_client dispatch_to_engine
dispatch_client-answer s w msg n c r n' e = elim (Bool-cases (op_code msg == op_topology_request)) [
  | inl t ↦ rw t (cc (rw t at e))
  | inr f ↦ rw f (write_reply-reply_message s c (dispatch w msg n) r n' (rw f at e))
]

pub read_message-encode_frame :
    (s : TcpServer) (m : Message) (rest output : Bytes)
    → FrameFits s.max_payload_bytes m
    → read_message s (record { input = encode_frame m ++ rest; output = output })
      ≡ (ok m, record { input = rest; output = output })
unfolding read_message report
read_message-encode_frame s m rest output fits =
    rw (read_frame-encode_frame s.max_payload_bytes m rest fits)

-- One message of the loop.
client_loop-answer :
    (s : TcpServer) (env : Surroundings) (i fuel : ℕ) (m : Message) (n : Node) (rest output : Bytes)
    (r : Message) (n' : Node)
    → FrameFits s.max_payload_bytes m
    → answer s (env.world i) m (env.between i n) ≡ some (r, n')
    → client_loop s env i (suc fuel) n (record { input = encode_frame m ++ rest; output = output })
      ≡ client_loop s env
          (suc i)
          fuel
          n'
          (record { input = rest; output = output ++ encode_frame r })
unfolding client_loop after_read after_dispatch write_message
client_loop-answer s env i fuel m n rest output r n' fits e = rw (
  read_message-encode_frame s m rest output fits,
  dispatch_client-answer s (env.world i) m (env.between i n)
      (record { input = rest; output = output }) r n' e,
)

-- How far the loop has come, with the responses it has written.
pub record Pipelined (s : TcpServer) (env : Surroundings) (i : ℕ) (ms : List Message) (fuel : ℕ)
    (n : Node) (rest output : Bytes) (result : Ending × Node × Conn) : Type 0 where
  pub replies : List Message
  pub node : Node
  pub answers : Answers s env i ms n replies node
  pub ready : IsReady node.db
  pub goes_on :
      result
      ≡ client_loop s env
          (length ms + i)
          fuel
          node
          (record { input = rest; output = output ++ encode_frames replies })

client_loop-Pipelined :
    (s : TcpServer) (env : Surroundings) (i : ℕ) (ms : List Message) (fuel : ℕ) (n : Node)
    (rest output : Bytes)
    → KeepsReady env
    → All (FrameFits s.max_payload_bytes) ms
    → IsReady n.db
    → Pipelined s env i ms fuel n rest output (
        client_loop s env i
          (length ms + fuel)
          n
          (record { input = encode_frames ms ++ rest; output = output }))
client_loop-Pipelined s env i [] fuel n rest output keeps fits h = record {
  replies = [];
  node = n;
  answers = all_answered;
  ready = h;
  goes_on =
      let e : 0 + i ≡ i = omega arith in
      let f : 0 + fuel ≡ fuel = omega arith in rw (e, f, append-nil) refl;
}
client_loop-Pipelined s env i (m ∷ ms) fuel n rest output keeps fits h =
    let a = answer-HasReply s (env.world i) m (env.between i n) (keeps i n h) in
    let p =
      client_loop-Pipelined s env (suc i) ms fuel a.node rest (output ++ encode_frame a.reply) keeps
        fits.1 a.ready in
    record {
      replies = a.reply ∷ p.replies;
      node = p.node;
      answers = next a.is p.answers;
      ready = p.ready;
      goes_on =
          let e : suc (length ms) + fuel ≡ suc (length ms + fuel) = omega arith in
          let f : suc (length ms) + i ≡ length ms + suc i = omega arith in
          rw
            (
              e,
              f,
              append_assoc (encode_frame m) (encode_frames ms) rest,
              sym (append_assoc output (encode_frame a.reply) (encode_frames p.replies)),
            )
            (client_loop-answer s env i (length ms + fuel) m n (encode_frames ms ++ rest) output
                a.reply a.node fits.0 a.is
              ∙ p.goes_on);
    }

-- A message with which a client may begin; those of the cluster are handled apart.
abbrev pub IsClients : Message → Type 0
IsClients msg =
    ((op_code msg == op_replication_join) ≡ false)
    × (((op_code msg == op_heartbeat) ≡ false) × ((op_code msg == op_vote_request) ≡ false))

-- A client's connection is one loop over all its messages.
handle_connection-client_loop :
    (s : TcpServer) (env : Surroundings) (fuel : ℕ) (m : Message) (n : Node) (rest output : Bytes)
    → IsClients m
    → FrameFits s.max_payload_bytes m
    → let c : Conn = record { input = encode_frame m ++ rest; output = output } in
      handle_connection s env fuel n c ≡ client_loop s env 0 (suc fuel) n c
unfolding handle_connection client_loop after_first after_read route
handle_connection-client_loop s env fuel m n rest output kind fits =
    rw (read_message-encode_frame s m rest output fits, kind.0, kind.1.0, kind.1.1) refl

-- A connection that has answered every message, and then found the end of the stream.
pub record Conversation (s : TcpServer) (env : Surroundings) (ms : List Message) (n : Node)
    (result : Ending × Node × Conn) : Type 0 where
  pub replies : List Message
  pub node : Node
  pub answers : Answers s env 0 ms n replies node
  pub ready : IsReady node.db
  pub ended : result ≡ (
    closed (io_error eof),
    env.between (length ms) node,
    record { input = []; output = encode_frames replies },
  )

client_loop_end :
    (s : TcpServer) (env : Surroundings) (i fuel : ℕ) (n : Node) (output : Bytes)
    → client_loop s env i (suc fuel) n (record { input = []; output = output })
      ≡ (closed (io_error eof), env.between i n, record { input = []; output = output })
unfolding client_loop after_read read_message report read_frame read_full
client_loop_end s env i fuel n output = refl

-- A client that writes requests, which fit and are within the limit, one after the other and then
-- closes gets one response to each, in order, as if each had been handled alone on the node that
-- the ones before it, and the other connections, had left; the connection ends at the end of the
-- stream, and the node's store stays in order, if the other connections keep it so.
pub handle_connection-Conversation :
    (s : TcpServer) (env : Surroundings) (n : Node) (m : Message) (ms : List Message) (extra : ℕ)
    → KeepsReady env
    → IsReady n.db
    → IsClients m
    → All (FrameFits s.max_payload_bytes) (m ∷ ms)
    → Conversation s env (m ∷ ms) n (
        handle_connection s env
          (length (m ∷ ms) + extra)
          n
          (record { input = encode_frames (m ∷ ms); output = [] }))
handle_connection-Conversation s env n m ms extra keeps ready kind fits =
    let p = client_loop-Pipelined s env 0 (m ∷ ms) (suc extra) n [] [] keeps fits ready in
    record {
      replies = p.replies;
      node = p.node;
      answers = p.answers;
      ready = p.ready;
      ended =
          let e : suc (length (m ∷ ms) + extra) ≡ length (m ∷ ms) + suc extra = omega arith in
          let f : length (m ∷ ms) + 0 ≡ length (m ∷ ms) = omega arith in
          whole
          ∙ ap
              (λ k.
                client_loop s env 0 k n (record { input = encode_frames (m ∷ ms); output = [] }))
              e
          ∙ ap
              (λ b.
                client_loop s env 0 (length (m ∷ ms) + suc extra) n
                  (record { input = b; output = [] }))
              (sym (append-nil (encode_frames (m ∷ ms))))
          ∙ p.goes_on
          ∙ client_loop_end s env (length (m ∷ ms) + 0) extra p.node (encode_frames p.replies)
          ∙ ap
              (λ k. (
                closed (io_error eof),
                env.between k p.node,
                record { input = []; output = encode_frames p.replies },
              ))
              f;
    }
  where
    whole :
        handle_connection s env
          (length (m ∷ ms) + extra)
          n
          (record { input = encode_frames (m ∷ ms); output = [] })
        ≡ client_loop s env 0
            (suc (length (m ∷ ms) + extra))
            n
            (record { input = encode_frames (m ∷ ms); output = [] })
    whole =
        handle_connection-client_loop s env (length (m ∷ ms) + extra) m n (encode_frames ms) [] kind
          fits.0
