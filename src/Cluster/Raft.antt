-- ===== src/Cluster/Raft.antt =====
-- cluster/raft.go: `RaftState`, and what each of its methods does to it under `r.mu`.
use keva.Prelude.{
  ℕ, ◌+◌, ◌/◌, ◌%◌, ◌^◌, Bool, true, false, ◌&&◌, ◌||◌, not, List, [], ◌∷◌, Bytes, length, ltb, leb,
  ◌==◌, bytes_eq, if◌then◌else◌,
}
use keva.Protocol.Cluster.{VoteRequest, VoteResponse}

pub data Role : Type 0 where
  follower candidate leader : Role

abbrev pub is_leader : Role → Bool
is_leader leader = true
is_leader follower = false
is_leader candidate = false

abbrev pub is_candidate : Role → Bool
is_candidate candidate = true
is_candidate follower = false
is_candidate leader = false

-- `signal` is whether `heartbeatCh` holds its one element.
pub record RaftState : Type 0 where
  pub node_addr : Bytes
  pub peers : List Bytes
  pub current_term : ℕ
  pub voted_for : Bytes
  pub role : Role
  pub leader_addr : Bytes
  pub signal : Bool

-- `NewRaftState`
abbrev pub new_raft_state : Bytes → List Bytes → RaftState
new_raft_state node_addr peers = record {
  node_addr = node_addr;
  peers = peers;
  current_term = 0;
  voted_for = [];
  role = follower;
  leader_addr = [];
  signal = false;
}

-- `if term > r.currentTerm { … }`, with the role that the source gives
unfoldable pub adopt_term : ℕ → Role → RaftState → RaftState
adopt_term term role r =
    if ltb r.current_term term
    then record r { current_term = term; voted_for = []; role = role }
    else r

-- `HandleHeartbeat`: whether `onFollower` is called, and the state.
unfoldable pub handle_heartbeat : ℕ → Bytes → RaftState → Bool × RaftState
unfolding adopt_term
handle_heartbeat term leader_id r =
    let s : RaftState = adopt_term term r.role r in
    if ltb term r.current_term
    then (false, r)
    else (is_leader r.role, record s { leader_addr = leader_id; role = follower; signal = true })

pub record VoteReply : Type 0 where
  pub granted : Bool
  pub term : ℕ
  pub on_follower : Bool

unfoldable pub cast_vote : Bytes → Bool → RaftState → VoteReply × RaftState
cast_vote candidate_id was_leader r =
    if bytes_eq r.voted_for [] || bytes_eq r.voted_for candidate_id
    then (
      record { granted = true; term = r.current_term; on_follower = was_leader },
      record r { voted_for = candidate_id; signal = true },
    )
    else (record { granted = false; term = r.current_term; on_follower = false }, r)

-- `HandleVoteRequest`
unfoldable pub handle_vote_request : VoteRequest → RaftState → VoteReply × RaftState
unfolding adopt_term cast_vote
handle_vote_request req r =
    if ltb req.term r.current_term || (is_leader r.role && (req.term == r.current_term))
    then (record { granted = false; term = r.current_term; on_follower = false }, r)
    else cast_vote req.candidate_id (is_leader r.role) (adopt_term req.term follower r)

-- `runFollower`: the heartbeat, or the timer
unfoldable pub take_signal : RaftState → RaftState
take_signal r = record r { signal = false }

unfoldable pub election_timeout : RaftState → RaftState
election_timeout r = record r { role = candidate }

-- `runCandidate` up to the requests for votes: a vote for itself in a new term
unfoldable pub start_election : RaftState → RaftState
start_election r = record r {
  current_term = (r.current_term + 1) % 2 ^ 64;
  voted_for = r.node_addr;
}

-- `requestVoteRPC` once it has a response
unfoldable pub receive_vote : VoteResponse → RaftState → RaftState
unfolding adopt_term
receive_vote resp r = adopt_term resp.term follower r

-- `runCandidate` on a heartbeat
unfoldable pub step_back : RaftState → RaftState
step_back r = record r { role = follower; signal = false }

unfoldable pub quorum : List Bytes → ℕ
quorum peers = length peers / 2 + 1

-- The end of `runCandidate`, for the term of the election and the votes counted: whether `onLeader`
-- is called, and the state.
unfoldable pub finish_election : ℕ → ℕ → RaftState → Bool × RaftState
unfolding quorum
finish_election term votes r =
    if not (is_candidate r.role) || not (r.current_term == term)
    then (false, r)
    else if leb (quorum r.peers) votes
    then (true, record r { role = leader; leader_addr = r.node_addr })
    else (false, record r { role = follower })

-- `otherPeers`
unfoldable pub other_peers : Bytes → List Bytes → List Bytes
other_peers node_addr [] = []
other_peers node_addr (p ∷ ps) =
    let rest = other_peers node_addr ps in if bytes_eq p node_addr then rest else p ∷ rest
