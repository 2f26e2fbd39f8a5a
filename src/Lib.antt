-- ===== src/Lib.antt =====
-- Keva is a key-value store in Go: clients send framed binary messages to a node, which keeps the
-- data in memory in shards, logs every write, and replicates it to other nodes. This library models
-- the wire protocol, the write-ahead log, the eviction policies, the sharded store, a node's elections
-- and replication, the handlers of requests, the server's connections, the configuration and the
-- command line client, and proves what they promise.
--
-- The parts, and the code that each models:
--   Protocol       protocol/: the codec of each message (Kv, Client, Cluster), the structured error
--                  (Errors), the registry and the dispatch by opcode (Message), and the frames on a
--                  byte stream (Frame). An encoder is a function to bytes; a decoder gives a value,
--                  an error or a run-time panic, as the Go code does.
--   Wal            storage/wal/: the records (wal_record.go) and the replay (wal_replay.go); in
--                  Writer the appends, the background flusher, Close and the swap of a compaction
--                  (wal_writer.go, wal_compaction.go), and in Writer/Flusher the interleavings of
--                  appends with the flusher as a step relation.
--   Shard          storage/store/shard.go: the entries of a shard and its byte counter, which a policy
--                  sees through storage/eviction/shard_view.go.
--   Eviction       storage/eviction/: the policies NoEvict, SamplingEvict and LRUEvict.
--   Store          storage/store/kv_store.go and kv_store_util.go: the operations on a shard under its
--                  lock, and in Store/KvStore those of KVStore: getShard, Set, SetWithExpiry, Get,
--                  Delete, the sweeper's tick, recover, and the records of a compaction; in
--                  KvStore/Opening NewKVStore, and in KvStore/History the map that a store promises
--                  to be, with Plain and Logged for the store without a memory limit and Restart for
--                  one that starts on the log of another.
--   Cluster        cluster/: in Raft the election state (raft.go), one function for each method and each
--                  branch of the goroutines; in Votes a run of them with the votes cast, and in
--                  Quorums the votes counted in a cluster; in Node a
--                  node's operations, the syncs of its Leader and applySync (node.go, leader.go,
--                  follower.go), in Node/Roles the messages that change its role, and in
--                  Node/Callbacks its role with the callbacks that make and drop its Leader, each a
--                  step of its own; in Rpc the requests for votes and the heartbeats that it sends, and in
--                  Follower a follower's connection to its leader (follower.go).
--   Engine         engine/: the handlers of the three requests, and their dispatch by opcode.
--   Server         server/tcp.go: a connection, from the bytes that come in to those that go out;
--                  what other connections do to the node between two messages is an argument.
--   Config, Memory config/ and utils/: the configuration from the environment and the sizes of memory,
--                  and from main.go the options and the node that are made of them.
--   Cli            cli/cli.go: the client's discovery of the leader, its attempts, and its commands,
--                  on a network that is an argument.
--   Time, Int64, Map, Prelude
--                  Go's time.Time, int64 and map[string]V as the program uses them, slices, words in
--                  big-endian order, and readers of a byte stream.
--   Examples       runs at concrete inputs.
--
-- The store calls the log first (after_log), then the key's shard (at_shard), which asks its policy to
-- make room (before_write) and tells it of the write (after_write). Recovery replays the log into
-- empty shards and then counts what was loaded. A handler calls one operation of the node, which calls
-- the store and, if that succeeds and the node leads, sends the write to the followers.
--
-- Choices. Bytes are natural numbers, and words keep their wrap-around: an int64 is its 64-bit
-- pattern. A Go map is a list with one entry for each key; the order in which range visits it is an
-- argument, of which the theorems ask at most that it visits each entry once. What a disk does with
-- a write is an argument too. A clock is read by the caller, who passes the time. A
-- shard's operation and the locked part of a method of RaftState are one step each, as their locks
-- make them; what others do before a callback runs is an argument (World.others), or steps in
-- Node/Callbacks. A node's write to its store and its broadcast are one step: for sets made at once,
-- Go may broadcast in another order than the store took them.
--
-- Fuel. Replaying a log takes the length of the file as fuel, since a record takes 15 bytes at least;
-- LRUEvict's loop takes the length of its list, and SamplingEvict's the number of entries, since each
-- round drops one.
--
-- A connection, at the server and at a follower, takes as much fuel as there are bytes to read, since a
-- frame takes 4 at least; a number
-- is printed with 19 digits, which an int64 has at most. The client's rounds and attempts are those of
-- the source, 15 and 8.
--
-- Text is ASCII: the functions of Go's strings are modelled on it. time.ParseDuration, whose fractions
-- are floating-point numbers, is an argument, of which one theorem asks that it gives an int64.
--
-- Not modelled: the accept loop of the server, the waiting of a candidate for its goroutines, the
-- draining of acks, what the client prints, and the benchmarks (bench/); within the parts above, opening and closing of files and
-- connections, and timers.
pub mod Prelude
pub mod Time
pub mod Int64
pub mod Map
pub mod Protocol
pub mod Wal
pub mod Shard
pub mod Eviction
pub mod Store
pub mod Examples
pub mod Cluster
pub mod Engine
pub mod Server
pub mod Memory
pub mod Config
pub mod Cli
