-- ===== src/Config/Valid.antt =====
-- Whatever the environment holds, the configuration that is loaded can be used.
use keva.Prelude.{
  ℕ, ◌+◌, ◌-◌, ◌^◌, ◌≤◌, ◌<◌, ◌≡◌, ◌≢◌, refl, true, Bool-cases, inl, inr, Option, none, some, List,
  [], ◌∷◌, map, arith, Bytes, length, take, bytes_eq, ltb, ltb→lt, ◌==◌,
}
use keva.Int64.{gt64}
use keva.Eviction.{by_name, name_relaxed, name_strict}
use keva.Store.Recovery.{IsNew}
use keva.Store.KvStore.Opening.{policy_of}
use keva.Store.KvStore.Restart.{IsUsable}
use keva.Memory.{
  below, negated, scaled, parse_digits, parse_uint, parse_int, parse_suffixed, parse_memory_bytes,
  suffixes, has_suffix, trim_space, upper,
}
use keva.Config.{
  Environment, Config, load, load_server, load_store, load_wal, number_or, or_default, positive,
  store_options,
}

-- A positive `int64`.
abbrev pub IsPositive : ℕ → Type 0
IsPositive n = (n ≢ 0) × (n < 2 ^ 63)

pub record IsValid (cfg : Config) : Type 0 where
  pub payload : cfg.server.max_payload_bytes < 2 ^ 32
  pub shards : IsPositive cfg.store.shard_count
  pub ttl : IsPositive cfg.store.default_ttl
  pub memory : cfg.store.max_memory_bytes < 2 ^ 63
  pub flush : IsPositive cfg.wal.flush_interval
  pub batch : IsPositive cfg.wal.max_batch_size

-- What a parser may give.
abbrev pub Within : ℕ → Option ℕ → Type 0
Within bound none = Unit
Within bound (some n) = n < bound

parse_uint-Within : (bound : ℕ) (s : Bytes) → Within bound (parse_uint bound s)
unfolding parse_uint
parse_uint-Within bound [] = tt
parse_uint-Within bound (c ∷ s) = by_value (parse_digits 0 (c ∷ s))
  where
    by_value : (o : Option ℕ) → Within bound (below bound o)
    by_value none = tt
    by_value (some n) = elim (Bool-cases (ltb n bound)) [
      | inl e ↦ rw e (ltb→lt n bound e)
      | inr e ↦ rw e tt
    ]

weaken : (a b : ℕ) (o : Option ℕ) → a ≤ b → Within a o → Within b o
weaken a b none le h = tt
weaken a b (some n) le h = omega (arith, le, h)

parse_int-Within : (s : Bytes) → Within (2 ^ 64) (parse_int s)
unfolding parse_int
parse_int-Within [] = tt
parse_int-Within (c ∷ s) = elim (Bool-cases (c == 45)) [
  | inl minus ↦ rw minus (negative (parse_uint (2 ^ 63 + 1) s))
  | inr e ↦ elim (Bool-cases (c == 43)) [
    | inl plus ↦
        rw (e, plus) (weaken (2 ^ 63) (2 ^ 64) _ (omega arith) (parse_uint-Within (2 ^ 63) s))
    | inr f ↦
        rw (e, f) (weaken (2 ^ 63) (2 ^ 64) _ (omega arith) (parse_uint-Within (2 ^ 63) (c ∷ s)))
  ]
]
  where
    negative : (o : Option ℕ) → Within (2 ^ 64) (negated o)
    negative none = tt
    negative (some n) = omega arith

parse_suffixed-Within : (l : List (Bytes × ℕ)) (s : Bytes) → Within (2 ^ 64) (parse_suffixed l s)
unfolding parse_suffixed
parse_suffixed-Within [] s = parse_int-Within s
parse_suffixed-Within ((suffix, bits) ∷ rest) s =
    elim (Bool-cases (has_suffix (map upper s) suffix)) [
      | inl e ↦ rw e (by_number (parse_int (trim_space (take (length s - length suffix) s))))
      | inr e ↦ rw e (parse_suffixed-Within rest s)
    ]
  where
    by_number : (o : Option ℕ) → Within (2 ^ 64) (scaled bits o)
    by_number none = tt
    by_number (some n) = omega arith

parse_memory_bytes-Within : (s : Bytes) → Within (2 ^ 64) (parse_memory_bytes s)
unfolding parse_memory_bytes
parse_memory_bytes-Within s = parse_suffixed-Within suffixes (trim_space s)

in_range : (n : ℕ) → n < 2 ^ 64 → gt64 n 0 ≡ true → IsPositive n
unfolding gt64
in_range n k e = let f = ltb→lt _ _ e in (λ z. omega (arith, f, z), omega (arith, f, k))

-- A number that is taken over is positive.
number_or-IsPositive :
    (default : ℕ) (parse : Bytes → Option ℕ) (v : Bytes)
    → IsPositive default
    → Within (2 ^ 64) (parse v)
    → IsPositive (number_or default (λ x. positive (parse x)) v)
unfolding number_or
number_or-IsPositive default parse v d h = elim (Bool-cases (bytes_eq v [])) [
  | inl e ↦ rw e d
  | inr e ↦ rw e (by_number (parse v) h)
]
  where
    by_number : (o : Option ℕ) → Within (2 ^ 64) o → IsPositive (or_default default (positive o))
    by_number none k = d
    by_number (some n) k = elim (Bool-cases (gt64 n 0)) [
      | inl e ↦ rw e (in_range n k e)
      | inr e ↦ rw e d
    ]

default_or_number :
    (bound default : ℕ) (parse : Bytes → Option ℕ) (v : Bytes)
    → default < bound
    → Within bound (parse v)
    → number_or default parse v < bound
unfolding number_or
default_or_number bound default parse v d h = elim (Bool-cases (bytes_eq v [])) [
  | inl e ↦ rw e d
  | inr e ↦ rw e (by_number (parse v) h)
]
  where
    by_number : (o : Option ℕ) → Within bound o → or_default default o < bound
    by_number none k = d
    by_number (some n) k = k

positive-Within : (o : Option ℕ) → Within (2 ^ 64) o → Within (2 ^ 63) (positive o)
positive-Within none h = tt
positive-Within (some n) h = elim (Bool-cases (gt64 n 0)) [
  | inl e ↦ rw e (in_range n h e).1
  | inr e ↦ rw e tt
]

-- Whatever the environment holds, the configuration that is loaded has a number of shards, a time
-- to live, a flush interval and a batch size that are positive, a payload limit below 2 ^ 32 and a
-- memory limit that is not negative, for durations that are an int64.
pub load-IsValid :
    (e : Environment) → ((v : Bytes) → Within (2 ^ 64) (e.parse_duration v)) → IsValid (load e)
unfolding load load_server load_store load_wal
load-IsValid e int64s = record {
  payload =
      default_or_number (2 ^ 32) _ (parse_uint (2 ^ 32)) _ (omega arith)
        (parse_uint-Within (2 ^ 32) _);
  shards =
      number_or-IsPositive _ parse_int _ (λ z. omega (arith, z), omega arith) (parse_int-Within _);
  ttl = number_or-IsPositive _ e.parse_duration _ (λ z. omega (arith, z), omega arith) (int64s _);
  memory =
      default_or_number (2 ^ 63) _ (λ v. positive (parse_memory_bytes v)) _ (omega arith)
        (positive-Within _ (parse_memory_bytes-Within _));
  flush = number_or-IsPositive _ e.parse_duration _ (λ z. omega (arith, z), omega arith) (int64s _);
  batch =
      number_or-IsPositive _ parse_int _ (λ z. omega (arith, z), omega arith) (parse_int-Within _);
}

by_name-IsNew : (name : Bytes) → IsNew (by_name name)
unfolding by_name
by_name-IsNew name = elim (Bool-cases (bytes_eq name name_relaxed)) [
  | inl e ↦ rw e tt
  | inr e ↦ elim (Bool-cases (bytes_eq name name_strict)) [
    | inl f ↦ rw (e, f) refl
    | inr f ↦ rw (e, f) tt
  ]
]

-- A store starts with the options of a valid configuration, if a `uint32` counts its shards.
pub store_options-IsUsable :
    (cfg : Config) → IsValid cfg → cfg.store.shard_count < 2 ^ 32 → IsUsable (store_options cfg)
unfolding store_options policy_of
store_options-IsUsable cfg h small = record {
  some_shards = h.shards.0;
  counted = small;
  memory = h.memory;
  new = by_name-IsNew cfg.store.eviction_policy;
}
