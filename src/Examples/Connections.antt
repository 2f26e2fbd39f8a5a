-- ===== src/Examples/Connections.antt =====
-- Connections of the server, and a node's roles, at concrete inputs.
use keva.Prelude.{false, refl, none, List, [], ◌∷◌, arith}
use keva.Protocol.Message.{op_code}
use keva.Protocol.Frame.Stream.{encode_frames}
use keva.Cluster.Node.{Node}
use keva.Cluster.Node.Callbacks.{
  Running, RoleEvent, timeout, elect, counted, heartbeat, callback, Settles, node_run,
  node_run-Settles, node_step, after_unlock, callback_at, run_callback,
}
use keva.Server.{TcpServer, Surroundings, handle_connection}
use keva.Server.Pipeline.{Conversation, handle_connection-Conversation}
use keva.Prelude.{put_uint16, put_uint64, some, inr, ◌≡◌}
use keva.Protocol.Message.{encode_message, encode}
use keva.Protocol.Cluster.{encode_vote_request}
use keva.Protocol.Frame.{encode_frame}
use keva.Protocol.Frame.Stream.{FrameFits}
use keva.Cluster.Raft.{receive_vote}
use keva.Cluster.Rpc.{ballot, request_vote}
use keva.Cluster.Node.Roles.{node_vote_request, node_is_leader}
use keva.Cluster.Raft.{finish_election, quorum, handle_heartbeat, start_election, election_timeout}
use keva.Cluster.Node.{new_leader, become_leader, become_follower}
use keva.Server.Elections.{request, served, request_vote-served}
use keva.Examples.Stores.{store, store-IsReady}
use keva.Examples.Messages.{a_message, a_message-FrameFits}
use keva.Examples.Nodes.{node, world, raft}

abbrev server : TcpServer
server = record {
  max_payload_bytes = 100;
  texts = record { too_large = []; not_leader = []; of_malformed = λ e. []; of_handler = λ e. [] };
}

abbrev alone : Surroundings
alone = record { world = λ i. world; between = λ i n. n }

handle_connection-Conversation_example :
    Conversation server alone (a_message ∷ a_message ∷ []) node (
      handle_connection server alone 2 node
        (record { input = encode_frames (a_message ∷ a_message ∷ []); output = [] }))
unfolding op_code
handle_connection-Conversation_example =
    handle_connection-Conversation server alone node a_message (a_message ∷ []) 0 (λ i n h. h)
      store-IsReady (refl, (refl, refl)) (a_message-FrameFits, (a_message-FrameFits, tt))

-- a node that does not lead
abbrev idle : Node
idle = record { db = store; default_ttl = 100; raft = raft; leader = none }

-- An election that is won, and a heartbeat of a later leader before `onLeader` has run.
abbrev events : List RoleEvent
events = timeout ∷ elect ∷ counted 1 2 ∷ heartbeat 5 (9 ∷ []) ∷ callback 0 ∷ callback 0 ∷ []

abbrev starting : Running
starting = record { node = idle; pending = [] }

node_run-Settles_example : Settles (node_run events starting)
node_run-Settles_example =
    node_run-Settles events starting (refl, (tt, (tt, (tt, (refl, (refl, tt)))))) refl

-- The same with `onFollower` before `onLeader`: a follower keeps a Leader.
overtaken :
    let s =
      node_run
        (timeout ∷ elect ∷ counted 1 2 ∷ heartbeat 5 (9 ∷ []) ∷ callback 1 ∷ callback 0 ∷ [])
        starting in
    (s.pending ≡ []) × (node_is_leader s.node ≡ false) × (s.node.leader ≡ some new_leader)
unfolding node_run node_step after_unlock callback_at run_callback become_leader become_follower
    finish_election quorum handle_heartbeat start_election election_timeout
overtaken = (refl, refl, refl)

ballot-FrameFits : FrameFits 100 (ballot 1 raft)
unfolding encode_message encode encode_vote_request put_uint16 put_uint64
ballot-FrameFits = ((omega arith, omega arith, omega arith), omega arith, inr (omega arith))

request_vote-served_example :
    let reply = node_vote_request (λ n. n) (request 1 raft) idle in
    (request_vote (served server alone idle) 1 raft
      ≡ some (reply.0.0, receive_vote (record { term = reply.0.1; granted = reply.0.0 }) raft))
    × ((handle_connection server alone 0 idle
          (record { input = encode_frame (ballot 1 raft); output = [] })).1
        ≡ reply.1)
request_vote-served_example =
    request_vote-served server alone idle 1 raft ballot-FrameFits (omega arith)
