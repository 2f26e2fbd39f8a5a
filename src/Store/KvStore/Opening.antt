-- ===== src/Store/KvStore/Opening.antt =====
-- storage/store/kv_store.go: `NewKVStore`, and `Open` of storage/wal/wal_writer.go.
use keva.Prelude.{
  ℕ, zero, suc, ◌+◌, ◌*◌, ◌/◌, ◌%◌, ◌^◌, ◌≤◌, ◌<◌, ◌≡◌, ◌≢◌, ◌↔◌, inl, inr, refl, sym, ap, subst,
  ◌∙◌, Bool, true, false, Bool-cases, Option, none, some, List, [], ◌∷◌, arith, All, Bytes, length,
  ◌==◌, ==→eq, if◌then◌else◌, Outcome, ok, err, panic, ltb, ltb_false→le,
}
use native.Mathlib.Nat.{mul-div-le, div-eq_of_lt, zero-div, lt-mul-div-succ, suc-mul}
use keva.Time.{Time}
use keva.Int64.{gt64, gt64-ltb}
use keva.Shard.{RangeOrder}
use keva.Eviction.{Policy, no_evict}
use keva.Wal.Writer.{SyncMode, Wal}
use keva.Store.{Shard}
use keva.Store.Recovery.{IsNew}
use keva.Store.KvStore.{KvStore, RecoveryError, recover}
use keva.Store.KvStore.Recovery.{IsEmpty}

-- `wal.Options`, without the interval of the flusher's timer
pub record WalOptions : Type 0 where
  pub mode : SyncMode
  pub max_batch_size : ℕ

-- `Options`: `new_eviction` is the policy that the factory makes for each shard, if there is a
-- factory; the shards are counted by an `int` that is not negative.
pub record Options : Type 0 where
  pub shard_count : ℕ
  pub default_ttl : ℕ
  pub max_memory_bytes : ℕ
  pub new_eviction : Option Policy

pub data StartError : Type 0 where
  not_recovered not_opened : StartError

-- `Open`: whether the file can be opened is the system's; what is in it stays.
unfoldable pub file_of : Option Bytes → Bytes
file_of none = []
file_of (some contents) = contents

unfoldable pub open_wal : Bool → WalOptions → Option Bytes → Option Wal
unfolding file_of
open_wal opens o contents =
    if opens
    then some (record {
      mode = o.mode;
      max_batch_size = o.max_batch_size;
      file = file_of contents;
      synced = file_of contents;
      queue = [];
      batch = [];
      running = true;
    })
    else none

-- The budget of a shard; without shards, the division panics.
unfoldable pub shard_budget : Options → Outcome StartError ℕ
shard_budget o =
    if gt64 o.max_memory_bytes 0
    then if o.shard_count == 0 then panic else ok (o.max_memory_bytes / o.shard_count)
    else ok 0

unfoldable pub policy_of : Option Policy → Policy
policy_of none = no_evict
policy_of (some p) = p

unfoldable pub new_shards : ℕ → ℕ → Policy → List Shard
new_shards zero budget p = []
new_shards (suc n) budget p =
    record { memory = record { records = []; bytes = 0; budget = budget }; policy = p }
    ∷ new_shards n budget p

unfoldable pub finish_open : Options → List Shard → Option Wal → Outcome StartError KvStore
finish_open o shards none = err not_opened
finish_open o shards (some w) = ok (record {
  shards = shards;
  wal = w;
  shard_count = o.shard_count % 2 ^ 32;
  default_ttl = o.default_ttl;
})

unfoldable pub after_recover :
    Bool
    → WalOptions
    → Options
    → Option Bytes
    → Outcome RecoveryError (List Shard)
    → Outcome StartError KvStore
unfolding finish_open open_wal
after_recover opens w o contents (err e) = err not_recovered
after_recover opens w o contents panic = panic
after_recover opens w o contents (ok shards) = finish_open o shards (open_wal opens w contents)

unfoldable pub with_budget :
    RangeOrder
    → Time
    → Bool
    → WalOptions
    → Options
    → Option Bytes
    → Outcome StartError ℕ
    → Outcome StartError KvStore
unfolding after_recover new_shards policy_of recover
with_budget range now opens w o contents (ok budget) = after_recover opens w o contents (
    recover range now contents (o.shard_count % 2 ^ 32)
      (new_shards o.shard_count budget (policy_of o.new_eviction)))
with_budget range now opens w o contents (err e) = err e
with_budget range now opens w o contents panic = panic

-- `NewKVStore`, on what the log's file holds, if there is one
unfoldable pub new_kv_store :
    RangeOrder → Time → Bool → WalOptions → Options → Option Bytes → Outcome StartError KvStore
unfolding with_budget shard_budget
new_kv_store range now opens w o contents =
    with_budget range now opens w o contents (shard_budget o)

pub length-new_shards : (n budget : ℕ) (p : Policy) → length (new_shards n budget p) ≡ n
unfolding new_shards
length-new_shards zero budget p = refl
length-new_shards (suc n) budget p = ap suc (length-new_shards n budget p)

pub new_shards-IsEmpty : (n budget : ℕ) (p : Policy) → IsNew p → All IsEmpty (new_shards n budget p)
unfolding new_shards
new_shards-IsEmpty zero budget p h = tt
new_shards-IsEmpty (suc n) budget p h =
    (record { nothing = refl; uncounted = refl; new = h }, new_shards-IsEmpty n budget p h)

-- The budgets of all shards.
abbrev pub budgets : List Shard → ℕ
budgets [] = 0
budgets (sh ∷ l) = sh.memory.budget + budgets l

budgets-new_shards : (n budget : ℕ) (p : Policy) → budgets (new_shards n budget p) ≡ n * budget
unfolding new_shards
budgets-new_shards zero budget p = omega arith
budgets-new_shards (suc n) budget p =
    let e = budgets-new_shards n budget p in
    ap (λ x. budget + x) e ∙ sym (suc-mul n budget ∙ omega arith)

-- The budgets of all shards of a new store are together within MaxMemoryBytes; each is 0, which is
-- no limit, just when there are more shards than bytes.
pub shard_budget-bound :
    (o : Options)
    → o.shard_count ≢ 0
    → o.max_memory_bytes < 2 ^ 63
    → let b = o.max_memory_bytes / o.shard_count in
      (shard_budget o ≡ ok b)
      × (budgets (new_shards o.shard_count b (policy_of o.new_eviction)) ≤ o.max_memory_bytes)
      × ((b ≡ 0) ↔ (o.max_memory_bytes < o.shard_count))
unfolding shard_budget
shard_budget-bound o some_shards small = (
  computed,
  rw (budgets-new_shards o.shard_count _ (policy_of o.new_eviction))
      (mul-div-le o.max_memory_bytes o.shard_count),
  (none_left, div-eq_of_lt),
)
  where
    nonzero : (o.shard_count == 0) ≡ false
    nonzero = elim (Bool-cases (o.shard_count == 0)) [
      | inl e ↦ absurd (some_shards (==→eq o.shard_count 0 e))
      | inr e ↦ e
    ]

    computed : shard_budget o ≡ ok (o.max_memory_bytes / o.shard_count)
    computed = elim (Bool-cases (ltb 0 o.max_memory_bytes)) [
      | inl e ↦ rw (gt64-ltb o.max_memory_bytes 0 small (omega arith), e, nonzero) refl
      | inr e ↦
          let z : o.max_memory_bytes ≡ 0 = omega (arith, ltb_false→le 0 o.max_memory_bytes e) in
          rw (gt64-ltb o.max_memory_bytes 0 small (omega arith), e, z, zero-div o.shard_count) refl
    ]

    none_left : o.max_memory_bytes / o.shard_count ≡ 0 → o.max_memory_bytes < o.shard_count
    none_left e =
        let pos : 0 < o.shard_count = omega (arith, some_shards) in
        let h = lt-mul-div-succ o.max_memory_bytes pos in
        let k : o.shard_count * (0 + 1) ≡ o.shard_count = omega arith in
        subst (λ x. o.max_memory_bytes < x) k (rw e at h)
