-- ===== src/Examples/Nodes.antt =====
-- Nodes of a cluster at concrete inputs.
use keva.Cluster.Quorums.{count, finish_election-one_leader}
use keva.Prelude.{
  Bool-cases, bytes_eq→eq, sym, ap, ◌∙◌, if◌then◌else◌, ◌+◌, ◌≡◌, ◌≢◌, ◌⊎◌, inl, inr, refl, Bool,
  true, some, List, [], ◌∷◌, arith, Bytes, bytes_eq, put_uint16, put_uint32, put_uint64, ok,
}
use keva.Time.{unix_epoch, add_duration}
use keva.Map.{lookup, insert}
use keva.Int64.{gt64, add64, sub64}
use keva.Shard.{evict}
use keva.Eviction.{before_write, over_budget}
use keva.Wal.{encode}
use keva.Wal.Writer.{append_set}
use keva.Store.{shard_set}
use keva.Store.KvStore.{set_with_expiry}
use keva.Protocol.Message.{set_request}
use keva.Cluster.Raft.{
  candidate, finish_election, quorum, RaftState, new_raft_state, start_election, election_timeout,
  handle_vote_request, adopt_term, cast_vote,
}
use keva.Cluster.Votes.{
  Event, vote_request, elect, timeout, In, AllNamed, run, step, vote_if, run-one_vote,
}
use keva.Cluster.Node.{Node, Leader, new_leader, node_set, node_get, expiry, after_write}
use keva.Cluster.Node.Sent.{Deadline}
use keva.Cluster.Node.Replica.{Broadcasted, node_get-node_set, leader-node_set}
use keva.Engine.{World, dispatch}
use keva.Engine.Total.{IsAnswered, dispatch-IsAnswered}
use keva.Examples.Stores.{range, key, value, disk, store, store-IsReady}

abbrev pub peers : List Bytes
peers = (1 ∷ []) ∷ (2 ∷ []) ∷ (3 ∷ []) ∷ []

abbrev pub raft : RaftState
raft = new_raft_state (1 ∷ []) peers

-- an election of its own in the term 1, and a request of another candidate for the same term
abbrev events : List Event
events =
    timeout
    ∷ elect
    ∷ vote_request (record { term = 1; candidate_id = 2 ∷ []; last_log_index = 0 })
    ∷ vote_request (record { term = 2; candidate_id = 3 ∷ []; last_log_index = 0 })
    ∷ []

-- the votes of the run: for itself, and then in the term 2
votes : (run events raft).0 ≡ (1, 1 ∷ []) ∷ (2, 3 ∷ []) ∷ []
unfolding run step start_election handle_vote_request adopt_term cast_vote vote_if bytes_eq
    election_timeout
votes = refl

events-AllNamed : AllNamed events raft
events-AllNamed =
    unfold step election_timeout start_election in
    (tt, ((λ e. cc e, omega arith), (λ e. cc e, (λ e. cc e, tt))))

voted : In (2, 3 ∷ []) (run events raft).0
unfolding run step start_election handle_vote_request adopt_term cast_vote vote_if bytes_eq
    election_timeout
voted = inr (inl refl)

run-one_vote_example : Path Bytes (3 ∷ []) (3 ∷ [])
run-one_vote_example =
    run-one_vote events raft events-AllNamed (2, 3 ∷ []) (2, 3 ∷ []) voted voted refl

abbrev pub node : Node
node = record { db = store; default_ttl = 100; raft = raft; leader = some new_leader }

abbrev alive : Bytes → Bool
alive addr = true

node_set_ok : (node_set disk range alive unix_epoch unix_epoch key value 0 node).0 ≡ ok tt
unfolding node_set after_write expiry add_duration set_with_expiry append_set encode put_uint16
    put_uint32 put_uint64 shard_set before_write evict lookup insert bytes_eq over_budget gt64 add64
    sub64
node_set_ok = refl

-- a time to live that is not positive asks for the default
by_default : Deadline unix_epoch 0 100 (unix_epoch + 100)
by_default = Deadline.default (inl refl) (omega arith) refl

node_get-node_set_example :
    (node_get
      (unix_epoch + 50)
      key
      (node_set disk range alive unix_epoch unix_epoch key value 0 node).1).0
    ≡ ok value
node_get-node_set_example =
    node_get-node_set disk range alive unix_epoch unix_epoch key value 0 node (unix_epoch + 100)
      by_default (unix_epoch + 50) store-IsReady node_set_ok

-- a leader with two followers
abbrev leads : Leader
leads = record {
  followers = record { addr = 2 ∷ []; sent = [] } ∷ record { addr = 3 ∷ []; sent = [] } ∷ [];
  log_index = 7;
}

leader-node_set_example :
    let m =
      node_set disk range alive unix_epoch unix_epoch key value 9
        (record node { leader = some leads }) in
    ((m.0 ≡ ok tt)
      × (l : Leader) × (m.1.leader ≡ some l)
      × Broadcasted disk range alive unix_epoch unix_epoch key value 9
          (record node { leader = some leads })
          (unix_epoch + 9)
          (Deadline.asked (omega arith) (omega arith) refl)
          leads
          l)
    ⊎ ((m.0 ≢ ok tt) × (m.1.leader ≡ some leads))
leader-node_set_example =
    leader-node_set disk range alive unix_epoch unix_epoch key value 9
      (record node { leader = some leads }) (unix_epoch + 9)
      (Deadline.asked (omega arith) (omega arith) refl) leads refl

abbrev pub world : World
world = record {
  disk = disk;
  range = range;
  alive = alive;
  now = unix_epoch;
  later = unix_epoch;
  texts = record { of_error = λ e. []; key_not_found = []; ok = [] };
  others = λ n. n;
}

dispatch-IsAnswered_example :
    IsAnswered (dispatch world (set_request (record { key = key; value = value; ttl = 9 })) node)
dispatch-IsAnswered_example =
    dispatch-IsAnswered world node store-IsReady
      (set_request (record { key = key; value = value; ttl = 9 }))

-- a cluster of three, of which the first stands for the term 1 and the others are asked for a vote
abbrev first : Bytes
first = 1 ∷ []

abbrev ballot : List Event
ballot = vote_request (record { term = 1; candidate_id = first; last_log_index = 0 }) ∷ []

abbrev cluster_events : Bytes → List Event
cluster_events p = if bytes_eq p first then timeout ∷ elect ∷ [] else ballot

abbrev cluster_starts : Bytes → RaftState
cluster_starts p = new_raft_state p peers

cluster-AllNamed : (p : Bytes) → AllNamed (cluster_events p) (cluster_starts p)
cluster-AllNamed p = elim (Bool-cases (bytes_eq p first)) [
  | inl e ↦
      let named : p ≢ [] = λ q. cc (sym (bytes_eq→eq p first e) ∙ q) in
      rw e (unfold step election_timeout in (tt, ((named, omega arith), tt)))
  | inr e ↦ rw e ((λ q. cc q), tt)
]

abbrev winner : RaftState
winner = record raft { current_term = 1; voted_for = first; role = candidate }

cluster_votes :
    (p : Bytes) → true ≡ true → In (1, first) (run (cluster_events p) (cluster_starts p)).0
unfolding run step start_election handle_vote_request adopt_term cast_vote vote_if election_timeout
cluster_votes p h = elim (Bool-cases (bytes_eq p first)) [
  | inl e ↦ rw e (inl (ap (λ x. (1, x)) (sym (bytes_eq→eq p first e))))
  | inr e ↦ rw e (unfold bytes_eq in inl refl)
]

won : (finish_election 1 (count (λ p. true) winner.peers) winner).0 ≡ true
unfolding finish_election count quorum
won = refl

finish_election-one_leader_example : winner.node_addr ≡ winner.node_addr
finish_election-one_leader_example =
    finish_election-one_leader cluster_events cluster_starts cluster-AllNamed 1 (λ p. true)
      (λ p. true) winner winner refl cluster_votes cluster_votes won won
