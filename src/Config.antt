-- ===== src/Config.antt =====
-- config/: the configuration, and how it is read from the environment; and main.go, which starts the
-- node from it.
pub mod Valid
use keva.Prelude.{
  ℕ, zero, suc, ◌+◌, ◌*◌, ◌^◌, ◌<◌, ◌≡◌, ◌≢◌, Bool, true, false, ◌||◌, Option, none, some, List, [],
  ◌∷◌, ◌++◌, map, Bytes, length, ltb, ◌==◌, bytes_eq, if◌then◌else◌,
}
use keva.Int64.{gt64}
use keva.Memory.{trim_space, lower, parse_uint, parse_int, parse_memory_bytes}
use keva.Eviction.{by_name}
use keva.Wal.Writer.{SyncMode, sync_always, sync_interval, sync_none}
use keva.Store.KvStore.{KvStore}
use keva.Store.KvStore.Opening.{WalOptions, Options}
use keva.Cluster.Raft.{new_raft_state}
use keva.Cluster.Node.{Node, become_leader}
use keva.Server.{ErrorTexts, TcpServer}

-- The variables of the environment that `Load` reads.
pub data Variable : Type 0 where
  kv_port kv_max_payload_bytes kv_shard_count kv_default_ttl kv_wal_path kv_wal_mode
        kv_wal_flush_interval kv_wal_batch_size kv_node_addr kv_peers kv_max_memory
        kv_eviction_policy :
      Variable

-- `os.Getenv`, which gives no characters for a variable that is not set, and
-- `time.ParseDuration`, whose fractions are floating-point numbers.
pub record Environment : Type 0 where
  pub getenv : Variable → Bytes
  pub parse_duration : Bytes → Option ℕ

pub record ServerConfig : Type 0 where
  pub port : Bytes
  pub max_payload_bytes : ℕ

pub record StoreConfig : Type 0 where
  pub shard_count : ℕ
  pub default_ttl : ℕ
  pub wal_path : Bytes
  pub max_memory_bytes : ℕ
  pub eviction_policy : Bytes

pub record WalConfig : Type 0 where
  pub mode : Bytes
  pub flush_interval : ℕ
  pub max_batch_size : ℕ

pub record ClusterConfig : Type 0 where
  pub node_addr : Bytes
  pub peers : List Bytes

pub record Config : Type 0 where
  pub server : ServerConfig
  pub store : StoreConfig
  pub wal : WalConfig
  pub cluster : ClusterConfig

-- ":6379"
abbrev pub default_port : Bytes
default_port = 58 ∷ 54 ∷ 51 ∷ 55 ∷ 57 ∷ []

-- "production.wal"
abbrev pub default_wal_path : Bytes
default_wal_path =
    112 ∷ 114 ∷ 111 ∷ 100 ∷ 117 ∷ 99 ∷ 116 ∷ 105 ∷ 111 ∷ 110 ∷ 46 ∷ 119 ∷ 97 ∷ 108 ∷ []

-- "noevict"
abbrev pub noevict : Bytes
noevict = 110 ∷ 111 ∷ 101 ∷ 118 ∷ 105 ∷ 99 ∷ 116 ∷ []

-- "interval"
abbrev pub interval : Bytes
interval = 105 ∷ 110 ∷ 116 ∷ 101 ∷ 114 ∷ 118 ∷ 97 ∷ 108 ∷ []

-- "always"
abbrev pub always : Bytes
always = 97 ∷ 108 ∷ 119 ∷ 97 ∷ 121 ∷ 115 ∷ []

-- `Default`; durations are nanoseconds
abbrev pub default_config : Config
default_config = record {
  server = record { port = default_port; max_payload_bytes = 10485760 };
  store = record {
    shard_count = 32;
    default_ttl = 900000000000;
    wal_path = default_wal_path;
    max_memory_bytes = 0;
    eviction_policy = noevict;
  };
  wal = record { mode = interval; flush_interval = 500000000; max_batch_size = 1000 };
  cluster = record { node_addr = []; peers = [] };
}

-- `if v != "" { … }`
abbrev pub text_or : Bytes → Bytes → Bytes
text_or default v = if bytes_eq v [] then default else v

abbrev pub or_default : ℕ → Option ℕ → ℕ
or_default default none = default
or_default default (some n) = n

-- `n > 0` on an `int64`
abbrev pub positive : Option ℕ → Option ℕ
positive none = none
positive (some n) = if gt64 n 0 then some n else none

-- A number that is taken over if it is read without an error.
unfoldable pub number_or : ℕ → (Bytes → Option ℕ) → Bytes → ℕ
number_or default parse v = if bytes_eq v [] then default else or_default default (parse v)

-- `strings.Split(v, ",")`
abbrev pub split_cons : ℕ → List Bytes → List Bytes
split_cons c [] = (c ∷ []) ∷ []
split_cons c (w ∷ ws) = (c ∷ w) ∷ ws

unfoldable pub split : Bytes → List Bytes
split [] = [] ∷ []
split (c ∷ s) = let rest = split s in if c == 44 then [] ∷ rest else split_cons c rest

unfoldable pub peers_of : Bytes → List Bytes
unfolding split
peers_of v = if bytes_eq v [] then [] else split v

unfoldable pub policy_name : Bytes → Bytes
policy_name v = if bytes_eq v [] then noevict else map lower (trim_space v)

-- `Load`. Each variable is read for one field.
unfoldable pub load_server : Environment → ServerConfig
unfolding number_or
load_server e = record {
  port = text_or default_config.server.port (e.getenv kv_port);
  max_payload_bytes =
      number_or default_config.server.max_payload_bytes (parse_uint (2 ^ 32))
        (e.getenv kv_max_payload_bytes);
}

unfoldable pub load_store : Environment → StoreConfig
unfolding number_or policy_name
load_store e = record {
  shard_count =
      number_or default_config.store.shard_count (λ v. positive (parse_int v))
        (e.getenv kv_shard_count);
  default_ttl =
      number_or default_config.store.default_ttl (λ v. positive (e.parse_duration v))
        (e.getenv kv_default_ttl);
  wal_path = text_or default_config.store.wal_path (e.getenv kv_wal_path);
  max_memory_bytes =
      number_or default_config.store.max_memory_bytes (λ v. positive (parse_memory_bytes v))
        (e.getenv kv_max_memory);
  eviction_policy = policy_name (e.getenv kv_eviction_policy);
}

unfoldable pub load_wal : Environment → WalConfig
unfolding number_or
load_wal e = record {
  mode = text_or default_config.wal.mode (e.getenv kv_wal_mode);
  flush_interval =
      number_or default_config.wal.flush_interval (λ v. positive (e.parse_duration v))
        (e.getenv kv_wal_flush_interval);
  max_batch_size =
      number_or default_config.wal.max_batch_size (λ v. positive (parse_int v))
        (e.getenv kv_wal_batch_size);
}

unfoldable pub load : Environment → Config
unfolding load_server load_store load_wal peers_of
load e = record {
  server = load_server e;
  store = load_store e;
  wal = load_wal e;
  cluster = record {
    node_addr = text_or default_config.cluster.node_addr (e.getenv kv_node_addr);
    peers = peers_of (e.getenv kv_peers);
  };
}

-- `wal.SyncMode(cfg.WAL.Mode)`: any other mode is treated as "none".
unfoldable pub sync_mode : Bytes → SyncMode
sync_mode mode =
    if bytes_eq mode always
    then sync_always
    else if bytes_eq mode interval
    then sync_interval
    else sync_none

-- The options that `main` makes from the configuration.
unfoldable pub wal_options : Config → WalOptions
unfolding sync_mode
wal_options cfg = record { mode = sync_mode cfg.wal.mode; max_batch_size = cfg.wal.max_batch_size }

unfoldable pub store_options : Config → Options
store_options cfg = record {
  shard_count = cfg.store.shard_count;
  default_ttl = cfg.store.default_ttl;
  max_memory_bytes = cfg.store.max_memory_bytes;
  new_eviction = some (by_name cfg.store.eviction_policy);
}

-- `NewNode`, and the node that `main` serves: on its own it is made the leader at once.
unfoldable pub new_node : KvStore → ℕ → Bytes → List Bytes → Node
new_node db default_ttl node_addr peers = record {
  db = db;
  default_ttl = default_ttl;
  raft = new_raft_state node_addr peers;
  leader = none;
}

unfoldable pub is_standalone : Config → Bool
is_standalone cfg = bytes_eq cfg.cluster.node_addr [] || (length cfg.cluster.peers == 0)

unfoldable pub start_node : Config → KvStore → Node
unfolding new_node is_standalone become_leader
start_node cfg db =
    if is_standalone cfg
    then become_leader (new_node db cfg.store.default_ttl [] [])
    else new_node db cfg.store.default_ttl cfg.cluster.node_addr cfg.cluster.peers
