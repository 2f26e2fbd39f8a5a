-- ===== src/Cluster.antt =====
-- cluster/: the nodes of a cluster. The election state machine is in Raft, the votes that it casts in
-- Votes, and what a node does for its clients and for its leader in Node.
pub mod Raft
pub mod Quorums
pub mod Votes
pub mod Node
pub mod Follower
pub mod Rpc
