-- ===== src/Cluster/Rpc.antt =====
-- cluster/raft.go: the requests that a node makes of its peers on short connections, and the branches
-- of `runLeader`.
use keva.Prelude.{
  ℕ, Bool, false, Option, none, some, List, [], ◌∷◌, Bytes, if◌then◌else◌, Outcome, ok, err, panic,
}
use keva.Protocol.Message.{Message, vote_request, vote_response, heartbeat}
use keva.Protocol.Frame.{FrameError, encode_frame, read_frame}
use keva.Cluster.Raft.{RaftState, is_leader, receive_vote, other_peers}

-- What comes back on a connection to a peer for the bytes written to it: none if it cannot be made,
-- or the write fails; a reply that is cut off by the deadline just ends.
abbrev pub Peer : Type 0
Peer = Bytes → Option Bytes

abbrev pub ballot : ℕ → RaftState → Message
ballot term r =
    vote_request (record { term = term; candidate_id = r.node_addr; last_log_index = 0 })

-- `requestVoteRPC`: whether the vote is granted, and the state; none is a panic.
unfoldable pub count_reply : RaftState → Outcome FrameError Message → Option (Bool × RaftState)
unfolding receive_vote
count_reply r (ok (vote_response resp)) = some (resp.granted, receive_vote resp r)
count_reply r (ok _) = some (false, r)
count_reply r (err e) = some (false, r)
count_reply r panic = none

unfoldable pub request_vote : Peer → ℕ → RaftState → Option (Bool × RaftState)
unfolding count_reply read_frame encode_frame
request_vote peer term r = elim (peer (encode_frame (ballot term r))) [
  | none ↦ some (false, r)
  | some reply ↦ count_reply r (read_frame 0 reply).0
]

-- `sendHeartbeatRPC`: what is written to the peer.
abbrev pub beat : ℕ → RaftState → Message
beat term r = heartbeat (record { term = term; leader_id = r.node_addr })

-- A round of `runLeader`: the heartbeats of a tick, with the peers that they go to; none when the
-- role is no longer that of a leader.
unfoldable pub beats : Message → List Bytes → List (Bytes × Message)
beats msg [] = []
beats msg (p ∷ ps) = (p, msg) ∷ beats msg ps

unfoldable pub leader_tick : RaftState → Option (List (Bytes × Message))
unfolding beats other_peers
leader_tick r =
    if is_leader r.role
    then some (beats (beat r.current_term r) (other_peers r.node_addr r.peers))
    else none
