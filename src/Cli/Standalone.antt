-- ===== src/Cli/Standalone.antt =====
-- The client and a node that runs on its own.
use keva.Prelude.{ℕ, zero, suc, ◌≡◌, refl, true, false, some, [], ◌∷◌, Bytes, length, bytes_eq}
use keva.Protocol.Message.{topology_response}
use keva.Cluster.Node.{become_leader, node_infos, get_topology}
use keva.Store.KvStore.{KvStore}
use keva.Config.{Config, is_standalone, new_node, start_node}
use keva.Cli.{
  Network, Client, new_client, ask, send_to_node, fetch_topology, take_topology, add_all,
  connect_by, connect, wait_rounds, wait_for_leader,
}

-- A node that runs on its own names no leader, and no nodes.
standalone_topology :
    (cfg : Config) (db : KvStore)
    → is_standalone cfg ≡ true
    → get_topology (start_node cfg db) ≡ record { leader_addr = []; nodes = [] }
unfolding start_node new_node become_leader get_topology node_infos
standalone_topology cfg db e = rw e refl

-- A client that knows only such a node.
record KnowsOnly (seed : Bytes) (c : Client) : Type 0 where
  only : c.known_addrs ≡ seed ∷ []

module _ (net : Network) (seed : Bytes) (cfg : Config) (db : KvStore)
    (alone : is_standalone cfg ≡ true)
    (answers : (i : ℕ)
      → net i seed ask ≡ some (topology_response (get_topology (start_node cfg db)))) where
  connect-standalone :
      (c : Client)
      → KnowsOnly seed c
      → ((connect net c).0 ≡ false) × KnowsOnly seed (connect net c).1
  unfolding connect connect_by fetch_topology send_to_node take_topology add_all bytes_eq
  connect-standalone c k =
      rw (k.only, answers (length c.made), standalone_topology cfg db alone)
        (refl, record { only = refl })

  wait_rounds-standalone :
      (n : ℕ) (c : Client)
      → KnowsOnly seed c
      → ((wait_rounds n net c).0 ≡ false) × KnowsOnly seed (wait_rounds n net c).1
  unfolding wait_rounds
  wait_rounds-standalone zero c k = (refl, k)
  wait_rounds-standalone (suc n) c k =
      let q = connect-standalone c k in rw q.0 (wait_rounds-standalone n (connect net c).1 q.1)

  -- A client that knows only a node that runs on its own, which answers every request for the
  -- topology, never finds a leader.
  pub wait_for_leader-standalone : (wait_for_leader net (new_client seed)).0 ≡ false
  wait_for_leader-standalone =
      (wait_rounds-standalone 15 (new_client seed) (record { only = refl })).0
