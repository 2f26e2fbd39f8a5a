-- ===== src/Cluster/Node/Roles.antt =====
-- cluster/node.go: the election messages that a node takes, with the callback
-- `becomeFollower`, and how its role and its Leader go together.
use keva.Prelude.{
  ℕ, ◌≡◌, refl, sym, ◌∙◌, Bool, true, false, ◌&&◌, ◌||◌, Bool-cases, Option, none, some, [], inl,
  inr, Bytes, ltb, ◌==◌, bytes_eq, if◌then◌else◌, arith,
}
use keva.Protocol.Cluster.{VoteRequest}
use keva.Cluster.Raft.{
  RaftState, follower, is_leader, follower, adopt_term, handle_heartbeat, handle_vote_request,
  cast_vote,
}
use keva.Cluster.Node.{Node, Leader, become_follower}

-- `IsLeader`
abbrev pub node_is_leader : Node → Bool
node_is_leader n = is_leader n.raft.role

-- The callback `onFollower`, if a method of RaftState calls it. The method has released its lock
-- before: `between` is what others make of the node until the callback runs.
unfoldable pub after_message : (Node → Node) → Node → Bool → RaftState → Node
unfolding become_follower
after_message between n fell r =
    if fell then become_follower (between (record n { raft = r })) else record n { raft = r }

-- `HandleHeartbeat`
unfoldable pub node_heartbeat : (Node → Node) → ℕ → Bytes → Node → Node
unfolding after_message handle_heartbeat
node_heartbeat between term leader_id n =
    let (fell, r) = handle_heartbeat term leader_id n.raft in after_message between n fell r

-- `HandleVoteRequest`: whether the vote is granted and the term, and the node.
unfoldable pub node_vote_request : (Node → Node) → VoteRequest → Node → (Bool × ℕ) × Node
unfolding after_message handle_vote_request
node_vote_request between req n =
    let (reply, r) = handle_vote_request req n.raft in
    ((reply.granted, reply.term), after_message between n reply.on_follower r)

abbrev pub is_some : Option Leader → Bool
is_some none = false
is_some (some l) = true

-- The role is that of a leader just when there is a Leader.
abbrev pub InStep : Node → Type 0
InStep n = is_leader n.raft.role ≡ is_some n.leader

-- Nobody is faster than the callback.
abbrev pub at_once : Node → Node
at_once n = n

pub heartbeat-InStep :
    (term : ℕ) (leader_id : Bytes) (n : Node)
    → InStep n
    → InStep (node_heartbeat at_once term leader_id n)
unfolding node_heartbeat handle_heartbeat after_message become_follower
heartbeat-InStep term leader_id n h = elim (Bool-cases (ltb term n.raft.current_term)) [
  | inl old ↦ rw old h
  | inr valid ↦ elim (Bool-cases (is_leader n.raft.role)) [
    | inl leads ↦ rw (valid, leads) refl
    | inr follows ↦ rw (valid, follows) (sym follows ∙ h)
  ]
]

-- The vote of a node that does not lead, and of a leader that has seen a later term.
cast_vote-InStep :
    (candidate_id : Bytes) (n : Node) (r : RaftState)
    → is_leader r.role ≡ false
    → is_some n.leader ≡ false
    → let (reply, s) = cast_vote candidate_id false r in
      InStep (after_message at_once n reply.on_follower s)
unfolding cast_vote after_message
cast_vote-InStep candidate_id n r f l =
    elim (Bool-cases (bytes_eq r.voted_for [] || bytes_eq r.voted_for candidate_id)) [
      | inl free ↦ rw free (f ∙ sym l)
      | inr taken ↦ rw taken (f ∙ sym l)
    ]

adopt_term-role :
    (term : ℕ) (r : RaftState)
    → is_leader r.role ≡ false
    → is_leader (adopt_term term follower r).role ≡ false
unfolding adopt_term
adopt_term-role term r f = elim (Bool-cases (ltb r.current_term term)) [
  | inl e ↦ rw e refl
  | inr e ↦ rw e f
]

-- A leader that sees a later term casts its vote and is none.
unseated :
    (req : VoteRequest) (n : Node)
    → ltb n.raft.current_term req.term ≡ true
    → let (reply, s) = cast_vote req.candidate_id true (adopt_term req.term follower n.raft) in
      InStep (after_message at_once n reply.on_follower s)
unfolding adopt_term cast_vote after_message become_follower bytes_eq
unseated req n e = rw e refl

pub vote_request-InStep :
    (req : VoteRequest) (n : Node) → InStep n → InStep (node_vote_request at_once req n).1
unfolding node_vote_request handle_vote_request
vote_request-InStep req n h =
    elim (Bool-cases (
      ltb req.term n.raft.current_term
      || (is_leader n.raft.role && (req.term == n.raft.current_term)))) [
        | inl old ↦ rw old (unfold after_message in h)
        | inr valid ↦ elim (Bool-cases (is_leader n.raft.role)) [
          | inl leads ↦ rw (valid, leads) (unseated req n (later (rw leads at valid)))
          | inr follows ↦
              rw (valid, follows)
                (cast_vote-InStep req.candidate_id n (adopt_term req.term follower n.raft)
                  (adopt_term-role req.term n.raft follows) (sym h ∙ follows))
        ]
      ]
  where
    later :
        (ltb req.term n.raft.current_term || (true && (req.term == n.raft.current_term))) ≡ false
        → ltb n.raft.current_term req.term ≡ true
    later e = ground arith
