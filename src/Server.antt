-- ===== src/Server.antt =====
-- server/tcp.go: a connection of the TCP server, from the bytes that come in to the bytes that go out.
pub mod Pipeline
pub mod Total
pub mod Elections
use keva.Prelude.{
  ℕ, zero, suc, Bool, true, false, Option, none, some, ◌++◌, Bytes, ◌==◌, if◌then◌else◌, Outcome,
  ok, err, panic,
}
use keva.Protocol.Opcodes.{op_topology_request, op_replication_join, op_heartbeat, op_vote_request}
use keva.Protocol.Errors.{DecodeError, err_code_not_leader, err_code_internal, err_code_bad_request}
use keva.Protocol.Message.{
  Message, topology_response, replication_join, heartbeat, heartbeat_ack, vote_request,
  vote_response, error_message, op_code,
}
use keva.Protocol.Frame.{FrameError, frame_too_large, io_error, malformed, encode_frame, read_frame}
use keva.Cluster.Node.{Node, Leader, get_topology, add_follower}
use keva.Cluster.Node.Roles.{node_is_leader, node_heartbeat, node_vote_request}
use keva.Engine.{World, Reply, HandlerError, dispatch}

-- The messages of the errors that the server writes.
pub record ErrorTexts : Type 0 where
  pub too_large : Bytes
  pub not_leader : Bytes
  pub of_malformed : DecodeError → Bytes
  pub of_handler : HandlerError → Bytes

-- `TCPServer`, without the node and the listener
pub record TcpServer : Type 0 where
  pub max_payload_bytes : ℕ
  pub texts : ErrorTexts

-- A connection: the bytes still to be read, and those written.
pub record Conn : Type 0 where
  pub input : Bytes
  pub output : Bytes

-- What the node and its world are when a connection comes to its `i`-th message: `between` is what
-- the other connections have made of the node since the message before.
pub record Surroundings : Type 0 where
  pub world : ℕ → World
  pub between : ℕ → Node → Node

-- How `handleConnection` ends: with an error of a read, after one message of the cluster, refused,
-- with the connection handed to the leader, or with a panic, which ends the program.
pub data Ending : Type 0 where
  closed : FrameError → Ending
  answered refused joined crashed out_of_fuel : Ending

unfoldable pub write_message : Message → Conn → Conn
write_message msg c = record c { output = c.output ++ encode_frame msg }

unfoldable pub write_error : ℕ → Bytes → Conn → Conn
unfolding write_message
write_error code message c =
    write_message (error_message (record { code = code; message = message })) c

unfoldable pub report : TcpServer → Outcome FrameError Message → Conn → Conn
unfolding write_error
report s (ok msg) c = c
report s (err frame_too_large) c = write_error err_code_bad_request s.texts.too_large c
report s (err (malformed e)) c = write_error err_code_bad_request (s.texts.of_malformed e) c
report s (err (io_error e)) c = c
report s panic c = c

unfoldable pub read_message : TcpServer → Conn → Outcome FrameError Message × Conn
unfolding report read_frame
read_message s c =
    let (r, rest) = read_frame s.max_payload_bytes c.input in
    (r, report s r (record c { input = rest }))

-- An operation on the node and the connection; none is a panic.
abbrev pub Served : Type 0
Served = Option (Node × Conn)

unfoldable pub write_reply : TcpServer → Conn → Reply → Served
unfolding write_message write_error
write_reply s c (ok resp, n) = some (n, write_message resp c)
write_reply s c (err e, n) = some (n, write_error err_code_internal (s.texts.of_handler e) c)
write_reply s c (panic, n) = none

unfoldable pub dispatch_to_engine : TcpServer → World → Message → Node → Conn → Served
unfolding write_reply dispatch
dispatch_to_engine s w msg n c = write_reply s c (dispatch w msg n)

unfoldable pub dispatch_client : TcpServer → World → Message → Node → Conn → Served
unfolding write_message dispatch_to_engine get_topology
dispatch_client s w msg n c =
    if op_code msg == op_topology_request
    then some (n, write_message (topology_response (get_topology n)) c)
    else dispatch_to_engine s w msg n c

-- `s.node.Leader().AddFollower(…)`: without a Leader, a nil pointer is dereferenced.
unfoldable pub join_leader : Bytes → Option Leader → Node → Conn → Ending × Node × Conn
join_leader addr none n c = (crashed, n, c)
join_leader addr (some l) n c = (joined, record n { leader = some (add_follower addr l) }, c)

unfoldable pub handle_replication_peer : TcpServer → Message → Node → Conn → Ending × Node × Conn
unfolding join_leader write_error
handle_replication_peer s (replication_join join) n c =
    if node_is_leader n
    then join_leader join.node_addr n.leader n c
    else (refused, n, write_error err_code_not_leader s.texts.not_leader c)
handle_replication_peer s _ n c = (crashed, n, c)

unfoldable pub handle_heartbeat : World → Message → Node → Conn → Ending × Node × Conn
unfolding node_heartbeat write_message
handle_heartbeat w (heartbeat hb) n c =
    let n' = node_heartbeat w.others hb.term hb.leader_id n in
    (
      answered,
      n',
      write_message (heartbeat_ack (record { term = n'.raft.current_term; last_applied_index = 0 }))
          c,
    )
handle_heartbeat w _ n c = (crashed, n, c)

unfoldable pub handle_vote_request : World → Message → Node → Conn → Ending × Node × Conn
unfolding node_vote_request write_message
handle_vote_request w (vote_request req) n c =
    let (reply, n') = node_vote_request w.others req n in
    (answered, n', write_message (vote_response (record { term = reply.1; granted = reply.0 })) c)
handle_vote_request w _ n c = (crashed, n, c)

-- The client loop, from the `i`-th message of the connection on. `after_read` is what it does with
-- what it has read, for the rest of the loop.
unfoldable pub after_dispatch :
    (Node → Conn → Ending × Node × Conn) → Node → Conn → Served → Ending × Node × Conn
after_dispatch more n c none = (crashed, n, c)
after_dispatch more n c (some (n', c')) = more n' c'

unfoldable pub after_read :
    TcpServer
    → World
    → (Node → Conn → Ending × Node × Conn)
    → Node
    → Outcome FrameError Message × Conn
    → Ending × Node × Conn
unfolding after_dispatch dispatch_client
after_read s w more n (ok msg, c) = after_dispatch more n c (dispatch_client s w msg n c)
after_read s w more n (err e, c) = (closed e, n, c)
after_read s w more n (panic, c) = (crashed, n, c)

unfoldable pub client_loop : TcpServer → Surroundings → ℕ → ℕ → Node → Conn → Ending × Node × Conn
unfolding read_message after_read
client_loop s env i zero n c = (out_of_fuel, n, c)
client_loop s env i (suc fuel) n c =
    after_read s (env.world i) (client_loop s env (suc i) fuel) (env.between i n) (read_message s c)

-- `handleConnection`, which routes the first message by its opcode
unfoldable pub route :
    TcpServer
    → World
    → (Node → Conn → Ending × Node × Conn)
    → Message
    → Node
    → Conn
    → Ending × Node × Conn
unfolding handle_replication_peer handle_heartbeat handle_vote_request dispatch_client
    after_dispatch
route s w more msg n c =
    if op_code msg == op_replication_join
    then handle_replication_peer s msg n c
    else if op_code msg == op_heartbeat
    then handle_heartbeat w msg n c
    else if op_code msg == op_vote_request
    then handle_vote_request w msg n c
    else after_dispatch more n c (dispatch_client s w msg n c)

unfoldable pub after_first :
    TcpServer
    → World
    → (Node → Conn → Ending × Node × Conn)
    → Node
    → Outcome FrameError Message × Conn
    → Ending × Node × Conn
unfolding route
after_first s w more n (ok msg, c) = route s w more msg n c
after_first s w more n (err e, c) = (closed e, n, c)
after_first s w more n (panic, c) = (crashed, n, c)

unfoldable pub handle_connection : TcpServer → Surroundings → ℕ → Node → Conn → Ending × Node × Conn
unfolding read_message after_first client_loop
handle_connection s env fuel n c =
    after_first s (env.world 0) (client_loop s env 1 fuel) (env.between 0 n) (read_message s c)
