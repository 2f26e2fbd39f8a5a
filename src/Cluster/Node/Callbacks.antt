-- ===== src/Cluster/Node/Callbacks.antt =====
-- cluster/raft.go and node.go: the role of a node, and its callbacks `becomeLeader` and
-- `becomeFollower`, which run some time after the role has changed.
use keva.Prelude.{
  ℕ, zero, suc, ◌≡◌, refl, sym, ap, ◌∙◌, Bool, true, false, Bool-cases, Option, none, some, List,
  [], ◌∷◌, ◌++◌, ◌⊎◌, inl, inr, Bytes, ltb, if◌then◌else◌, arith,
}
use keva.Protocol.Cluster.{VoteRequest, VoteResponse}
use keva.Cluster.Raft.{
  RaftState, is_leader, adopt_term, handle_heartbeat, handle_vote_request, finish_election,
  receive_vote, start_election, step_back, take_signal, election_timeout,
}
use keva.Cluster.Node.{Node, Leader, new_leader, become_leader, become_follower}
use keva.Cluster.Node.Roles.{
  at_once, after_message, node_heartbeat, node_vote_request, is_some, InStep, heartbeat-InStep,
  vote_request-InStep,
}

pub data Callback : Type 0 where
  on_leader on_follower : Callback

unfoldable pub run_callback : Callback → Node → Node
unfolding become_leader become_follower
run_callback on_leader n = become_leader n
run_callback on_follower n = become_follower n

-- A node, and the callbacks that methods of its RaftState are about to call, oldest first. Each is
-- called by a goroutine that has released the lock.
pub record Running : Type 0 where
  pub node : Node
  pub pending : List Callback

-- The end of a method's locked part, with the callback that it is about to call.
unfoldable pub after_unlock : Bool → Callback → RaftState → Running → Running
after_unlock called c r s = record {
  node = record s.node { raft = r };
  pending = if called then s.pending ++ (c ∷ []) else s.pending;
}

-- The `i`-th of the pending callbacks runs, if there are as many.
unfoldable pub callback_at : ℕ → List Callback → Node → Running
unfolding run_callback
callback_at i [] n = record { node = n; pending = [] }
callback_at zero (c ∷ cs) n = record { node = run_callback c n; pending = cs }
callback_at (suc i) (c ∷ cs) n =
    let rest = callback_at i cs n in record { node = rest.node; pending = c ∷ rest.pending }

-- What happens to a node's role: the methods that its connections call, the branches of the
-- goroutine of `run` and of those that ask for votes, and the callbacks.
pub data RoleEvent : Type 0 where
  heartbeat : ℕ → Bytes → RoleEvent
  vote_request : VoteRequest → RoleEvent
  vote_response : VoteResponse → RoleEvent
  signal timeout elect back : RoleEvent
  counted : ℕ → ℕ → RoleEvent
  callback : ℕ → RoleEvent

abbrev with_raft : RaftState → Running → Running
with_raft r s = record s { node = record s.node { raft = r } }

unfoldable pub node_step : RoleEvent → Running → Running
unfolding after_unlock callback_at handle_heartbeat handle_vote_request finish_election receive_vote
node_step (heartbeat term leader_id) s =
    let (fell, r) = handle_heartbeat term leader_id s.node.raft in after_unlock fell on_follower r s
node_step (vote_request req) s =
    let (reply, r) = handle_vote_request req s.node.raft in
    after_unlock reply.on_follower on_follower r s
node_step (vote_response resp) s = with_raft (receive_vote resp s.node.raft) s
node_step signal s = with_raft (take_signal s.node.raft) s
node_step timeout s = with_raft (election_timeout s.node.raft) s
node_step elect s = with_raft (start_election s.node.raft) s
node_step back s = with_raft (step_back s.node.raft) s
node_step (counted term votes) s =
    let (won, r) = finish_election term votes s.node.raft in after_unlock won on_leader r s
node_step (callback i) s = callback_at i s.pending s.node

unfoldable pub node_run : List RoleEvent → Running → Running
unfolding node_step
node_run [] s = s
node_run (e ∷ es) s = node_run es (node_step e s)

-- The Leader that a callback leaves, and that all of them leave in the order in which they came up.
abbrev pub left_by : Callback → Option Leader
left_by on_leader = some new_leader
left_by on_follower = none

abbrev pub settled : List Callback → Option Leader → Option Leader
settled [] l = l
settled (c ∷ cs) l = settled cs (left_by c)

-- The role is that of a leader just when there will be a Leader once the pending callbacks have run.
abbrev pub Settles : Running → Type 0
Settles s = is_leader s.node.raft.role ≡ is_some (settled s.pending s.node.leader)

-- When an event can come: `runFollower` and `runCandidate` run for a node that does not lead, a
-- response comes in time if it does not unseat a leader, and callbacks run in the order in which
-- they came up.
abbrev pub IsTimely : RoleEvent → Running → Type 0
IsTimely timeout s = is_leader s.node.raft.role ≡ false
IsTimely back s = is_leader s.node.raft.role ≡ false
IsTimely (vote_response resp) s =
    (is_leader s.node.raft.role ≡ false) ⊎ (ltb s.node.raft.current_term resp.term ≡ false)
IsTimely (callback i) s = i ≡ 0
IsTimely _ s = Unit

abbrev pub AllTimely : List RoleEvent → Running → Type 0
AllTimely [] s = Unit
AllTimely (e ∷ es) s = IsTimely e s × AllTimely es (node_step e s)

settled-append :
    (c : Callback) (cs : List Callback) (l : Option Leader) → settled (cs ++ (c ∷ [])) l ≡ left_by c
settled-append c [] l = refl
settled-append c (d ∷ cs) l = settled-append c cs (left_by d)

-- A role that fits the callback fits once all callbacks have run.
after_unlock-Settles :
    (called : Bool) (c : Callback) (r : RaftState) (s : Running)
    → is_leader r.role ≡ is_some (if called then left_by c else settled s.pending s.node.leader)
    → Settles (after_unlock called c r s)
unfolding after_unlock
after_unlock-Settles true c r s h = h ∙ ap is_some (sym (settled-append c s.pending s.node.leader))
after_unlock-Settles false c r s h = h

fallen :
    (n : Node) (fell : Bool) (r : RaftState)
    → InStep (after_message at_once n fell r)
    → is_leader r.role ≡ is_some (if fell then none else n.leader)
unfolding after_message become_follower
fallen n true r h = h
fallen n false r h = h

-- The node as it will be once its callbacks have run.
abbrev soon : Running → Node
soon s = record s.node { leader = settled s.pending s.node.leader }

heartbeat-Settles :
    (term : ℕ) (leader_id : Bytes) (s : Running)
    → Settles s
    → Settles (node_step (heartbeat term leader_id) s)
unfolding node_step node_heartbeat
heartbeat-Settles term leader_id s h =
    let (fell, r) = handle_heartbeat term leader_id s.node.raft in
    after_unlock-Settles fell on_follower r s
      (fallen (soon s) fell r (heartbeat-InStep term leader_id (soon s) h))

vote_request-Settles :
    (req : VoteRequest) (s : Running) → Settles s → Settles (node_step (vote_request req) s)
unfolding node_step node_vote_request
vote_request-Settles req s h =
    let (reply, r) = handle_vote_request req s.node.raft in
    after_unlock-Settles reply.on_follower on_follower r s
      (fallen (soon s) reply.on_follower r (vote_request-InStep req (soon s) h))

election-fits :
    (term votes : ℕ) (r : RaftState) (l : Option Leader)
    → is_leader r.role ≡ is_some l
    → let (won, r') = finish_election term votes r in
      is_leader r'.role ≡ is_some (if won then some new_leader else l)
unfolding finish_election
election-fits term votes r l h = ground arith

response-Settles :
    (resp : VoteResponse) (s : Running)
    → IsTimely (vote_response resp) s
    → Settles s
    → Settles (node_step (vote_response resp) s)
unfolding node_step receive_vote adopt_term
response-Settles resp s (inl l) h = elim (Bool-cases (ltb s.node.raft.current_term resp.term)) [
  | inl e ↦ rw e (sym l ∙ h)
  | inr e ↦ rw e h
]
response-Settles resp s (inr e) h = rw e h

callback-Settles :
    (cs : List Callback) (n : Node)
    → is_leader n.raft.role ≡ is_some (settled cs n.leader)
    → Settles (callback_at 0 cs n)
unfolding callback_at run_callback become_leader become_follower
callback-Settles [] n h = h
callback-Settles (on_leader ∷ cs) n h = h
callback-Settles (on_follower ∷ cs) n h = h

node_step-Settles :
    (e : RoleEvent) (s : Running) → IsTimely e s → Settles s → Settles (node_step e s)
unfolding node_step take_signal election_timeout start_election step_back
node_step-Settles (heartbeat term leader_id) s t h = heartbeat-Settles term leader_id s h
node_step-Settles (vote_request req) s t h = vote_request-Settles req s h
node_step-Settles (vote_response resp) s t h = response-Settles resp s t h
node_step-Settles signal s t h = h
node_step-Settles timeout s t h = sym t ∙ h
node_step-Settles elect s t h = h
node_step-Settles back s t h = sym t ∙ h
node_step-Settles (counted term votes) s t h =
    let (won, r) = finish_election term votes s.node.raft in
    after_unlock-Settles won on_leader r s
      (election-fits term votes s.node.raft (settled s.pending s.node.leader) h)
node_step-Settles (callback i) s t h = rw t (callback-Settles s.pending s.node h)

-- Through any sequence of heartbeats, vote requests, timeouts, elections, responses and callbacks,
-- each callback some time after the change of role that asks for it, the role of a node is that of
-- a leader just when it will have a Leader once the callbacks that are still due have run; if that
-- was so at the start, the callbacks run in the order in which they came up, timeouts reach a node
-- only while it does not lead, and no response to a vote request comes so late that it unseats a
-- leader.
pub node_run-Settles :
    (es : List RoleEvent) (s : Running) → AllTimely es s → Settles s → Settles (node_run es s)
unfolding node_run
node_run-Settles [] s t h = h
node_run-Settles (e ∷ es) s t h =
    node_run-Settles es (node_step e s) t.1 (node_step-Settles e s t.0 h)
