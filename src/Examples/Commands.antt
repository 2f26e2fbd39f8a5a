-- ===== src/Examples/Commands.antt =====
-- The configuration and the command line client at concrete inputs.
use keva.Prelude.{
  ◌*◌, ◌/◌, ◌^◌, ◌≡◌, ◌≢◌, inl, inr, refl, sym, Bool-cases, true, false, none, some, Option, [],
  ◌∷◌, arith, Bytes, bytes_eq, if◌then◌else◌, ok,
}
use keva.Memory.{parse_memory_bytes, format_memory_bytes}
use keva.Memory.RoundTrip.{unit_bits, parse_memory_bytes-format_memory_bytes}
use keva.Config.{
  Environment, Variable, kv_shard_count, load, default_config, is_standalone, start_node,
}
use keva.Config.Valid.{IsValid, load-IsValid}
use keva.Protocol.Client.{TopologyResponse}
use keva.Protocol.Message.{Message, delete_request, delete_response, topology_response, op_code}
use keva.Cluster.Node.{get_topology}
use keva.Cli.{Network, new_client, execute, wait_for_leader, read_line, crashed}
use keva.Cli.Routing.{IsFaithful, execute-IsFaithful}
use keva.Cli.Liveness.{IsUp, execute-answered}
use keva.Cli.Standalone.{wait_for_leader-standalone}
use keva.Cli.Words.{read_line-no_crash}
use keva.Examples.Stores.{store}

parse_memory_bytes-format_memory_bytes_example :
    parse_memory_bytes (format_memory_bytes 1500000)
    ≡ some (1500000 / 2 ^ unit_bits 1500000 * 2 ^ unit_bits 1500000)
parse_memory_bytes-format_memory_bytes_example =
    parse_memory_bytes-format_memory_bytes 1500000 (omega arith) (omega arith)

-- KV_SHARD_COUNT=7, and nothing else
abbrev getenv : Variable → Bytes
getenv kv_shard_count = 55 ∷ []
getenv _ = []

abbrev environment : Environment
environment = record { getenv = getenv; parse_duration = λ v. some 1 }

load-IsValid_example : IsValid (load environment)
load-IsValid_example = load-IsValid environment (λ v. omega arith)

read_line-no_crash_example : read_line (32 ∷ 115 ∷ 10 ∷ []) ≢ crashed
read_line-no_crash_example = read_line-no_crash (32 ∷ 115 ∷ 10 ∷ [])

abbrev seed : Bytes
seed = 1 ∷ []

abbrev leader : Bytes
leader = 2 ∷ []

abbrev topology : TopologyResponse
topology = record { leader_addr = leader; nodes = [] }

abbrev command : Message
command = delete_request (record { key = 7 ∷ [] })

abbrev response : Message
response = delete_response (record { success = true; message = [] })

-- The node at `seed` knows the leader, which answers everything else.
abbrev to_seed : Message → Option Message
to_seed msg = some (topology_response topology)

abbrev to_leader : Message → Option Message
to_leader msg = some response

abbrev network : Network
network i addr msg =
    if bytes_eq addr seed then to_seed msg else if bytes_eq addr leader then to_leader msg else none

execute-IsFaithful_example :
    IsFaithful network (execute network (λ i n. 0) command (new_client seed)).1
execute-IsFaithful_example =
    execute-IsFaithful network (λ i n. 0) command (unfold op_code in refl) (new_client seed)
      (record { leader = inl refl; routed = tt })

named :
    {t : TopologyResponse}
    → some (topology_response topology) ≡ some (topology_response t)
    → leader ≡ t.leader_addr
named q = cc q

network-IsUp : IsUp network seed leader command response
unfolding bytes_eq
network-IsUp = record {
  has_name = λ e. cc e;
  topology = topology;
  names = refl;
  tells = λ i. refl;
  no_other = λ i a t q. elim (Bool-cases (bytes_eq a seed)) [
    | inl e ↦ inr (sym (named (rw e at q)))
    | inr e ↦ elim (Bool-cases (bytes_eq a leader)) [
      | inl f ↦ absurd (cc (rw (e, f) at q))
      | inr f ↦ absurd (cc (rw (e, f) at q))
    ]
  ];
  answers = λ i. refl;
}

execute-answered_example : (execute network (λ i n. 0) command (new_client seed)).0 ≡ ok response
execute-answered_example =
    execute-answered network seed leader command response network-IsUp (λ i n. 0)
      (unfold op_code in refl) (new_client seed) (inl refl) (inr (λ i. unfold bytes_eq in refl))

wait_for_leader-standalone_example :
    (wait_for_leader
      (λ i a m. some (topology_response (get_topology (start_node default_config store))))
      (new_client seed)).0
    ≡ false
wait_for_leader-standalone_example =
    wait_for_leader-standalone
      (λ i a m. some (topology_response (get_topology (start_node default_config store)))) seed
      default_config store (unfold is_standalone bytes_eq in refl) (λ i. refl)
