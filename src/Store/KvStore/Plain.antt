-- ===== src/Store/KvStore/Plain.antt =====
-- A store without a memory limit: each operation does what it says on the key's entry, and nothing
-- else.
use keva.Prelude.{
  ◌<◌, ◌≡◌, ◌≢◌, inl, inr, refl, sym, ◌∙◌, true, false, Bool, Bool-cases, Option, none, some, List,
  [], ◌∷◌, arith, All, Bytes, length, ◌==◌, ==→eq, bytes_eq, if◌then◌else◌, Outcome, ok,
  Option-cases, bytes_eq→eq, ==_refl,
}
use keva.Map.{lookup, lookup-insert}
use keva.Time.{Time, after}
use keva.Shard.{Record, RangeOrder, put_record, evict, drop_record}
use keva.Shard.Accounting.{lookup-evict, budget-evict}
use keva.Eviction.{
  no_evict, before_write, no_evict_before_write, after_write, after_read, after_delete,
}
use keva.Store.{
  Shard, StoreError, shard_set, shard_get, shard_delete, get_found, delete_found, drop_entry,
  finish_set,
}
use keva.Store.Soundness.{IsSound}
use keva.Store.KvStore.{KvStore, at_shard}
use keva.Store.KvStore.Sharding.{IsReady, index, find, RanAt, at_index-RanAt}

-- A shard without a policy and without a budget.
pub record IsPlain (sh : Shard) : Type 0 where
  pub no_policy : sh.policy ≡ no_evict
  pub no_budget : sh.memory.budget ≡ 0

-- The entry of a key, and of the others, after a write.
pub shard_set-IsPlain :
    (range : RangeOrder) (key : Bytes) (rec : Record) (sh : Shard)
    → IsPlain sh
    → (shard_set range key rec sh).0 ≡ ok tt
      × IsPlain (shard_set range key rec sh).1
      × ((j : Bytes)
          → lookup j (shard_set range key rec sh).1.memory.records
            ≡ (if bytes_eq key j then some rec else lookup j sh.memory.records))
unfolding shard_set finish_set before_write no_evict_before_write after_write
shard_set-IsPlain range key rec sh p =
    rw (p.no_policy, unlimited)
      (
        refl,
        record {
          no_policy = refl;
          no_budget = unfold put_record in budget-evict key sh.memory ∙ p.no_budget;
        },
        λ j.
            unfold put_record in
            lookup-insert key j rec (evict key sh.memory).records
            ∙ rw (lookup-evict key j sh.memory)
                (twice (bytes_eq key j) (lookup j sh.memory.records)),
      )
  where
    unlimited : ((evict key sh.memory).budget == 0) ≡ true
    unlimited = rw (budget-evict key sh.memory, p.no_budget) refl

    twice :
        (b : Bool) (x : Option Record)
        → (if b then some rec else if b then none else x) ≡ (if b then some rec else x)
    twice true x = refl
    twice false x = refl

pub shard_delete-IsPlain : (key : Bytes) (sh : Shard) → IsPlain sh → IsPlain (shard_delete key sh).1
unfolding shard_delete delete_found drop_entry drop_record after_delete
shard_delete-IsPlain key sh p = elim (Option-cases (lookup key sh.memory.records)) [
  | inl e ↦ rw e p
  | inr (rec, e) ↦ rw (e, p.no_policy) (record { no_policy = refl; no_budget = p.no_budget })
]

pub shard_get-IsPlain :
    (now : Time) (key : Bytes) (sh : Shard) → IsPlain sh → IsPlain (shard_get now key sh).1
unfolding shard_get get_found after_read
shard_get-IsPlain now key sh p = elim (Option-cases (lookup key sh.memory.records)) [
  | inl e ↦ rw e p
  | inr (rec, e) ↦ elim (Bool-cases (after now rec.expired_at)) [
    | inl late ↦ rw (e, late) p
    | inr early ↦ rw (e, early, p.no_policy) (record { no_policy = refl; no_budget = p.no_budget })
  ]
]

-- A store in order all of whose shards are plain.
pub record IsPlainStore (kv : KvStore) : Type 0 where
  pub ready : IsReady kv
  pub plain : All IsPlain kv.shards

both : (l : List Shard) → All IsSound l → All IsPlain l → All (λ sh. IsSound sh × IsPlain sh) l
both [] s p = tt
both (sh ∷ l) s p = ((s.0, p.0), both l s.1 p.1)

firsts : (l : List Shard) → All (λ sh. IsSound sh × IsPlain sh) l → All IsSound l
firsts [] h = tt
firsts (sh ∷ l) h = (h.0.0, firsts l h.1)

seconds : (l : List Shard) → All (λ sh. IsSound sh × IsPlain sh) l → All IsPlain l
seconds [] h = tt
seconds (sh ∷ l) h = (h.0.1, seconds l h.1)

-- An operation run on the key's shard, for what holds of sound and plain shards.
module _ {A : Type 0} (key : Bytes) (f : Shard → Outcome StoreError A × Shard)
    (sound : (sh : Shard) → IsSound sh → IsSound (f sh).1)
    (plain : (sh : Shard) → IsPlain sh → IsPlain (f sh).1) (kv : KvStore)
    (h : IsPlainStore kv) where
  some_shards : (kv.shard_count == 0) ≡ false
  some_shards = elim (Bool-cases (kv.shard_count == 0)) [
    | inl e ↦ absurd (h.ready.some_shards (==→eq kv.shard_count 0 e))
    | inr e ↦ e
  ]

  in_range : index key kv < length kv.shards
  in_range =
      let e : 0 < kv.shard_count = positive h.ready.some_shards in
      omega (arith, h.ready.all_there, e)
    where
      positive : kv.shard_count ≢ 0 → 0 < kv.shard_count
      positive e = omega (arith, e)

  ran :
      RanAt
        (λ sh. IsSound sh × IsPlain sh)
        f
        (index key kv)
        kv.shards
        (at_shard key f kv).0
        (at_shard key f kv).1.shards
  unfolding at_shard
  ran = rw some_shards (
      at_index-RanAt (λ sh. IsSound sh × IsPlain sh) f (index key kv) kv.shards in_range
        (both kv.shards h.ready.sound h.plain))

  pub same_count : (at_shard key f kv).1.shard_count ≡ kv.shard_count
  unfolding at_shard
  same_count = rw some_shards refl

  pub IsPlainStore-at_shard : IsPlainStore (at_shard key f kv).1
  IsPlainStore-at_shard =
      let after = ran.sound_after (λ sh p. (sound sh p.0, plain sh p.1)) in
      record {
        ready = record {
          some_shards = λ e. h.ready.some_shards (sym same_count ∙ e);
          all_there = ran.same_length ∙ h.ready.all_there ∙ sym same_count;
          sound = firsts _ after;
        };
        plain = seconds _ after;
      }

  pub find-at_plain :
      (R : Option Record → Outcome StoreError A → Option Record → Type 0) (j : Bytes)
      → (bytes_eq key j ≡ false → (x : Option Record) (r : Outcome StoreError A) → R x r x)
      → ((sh : Shard)
          → IsPlain sh
          → R (lookup j sh.memory.records) (f sh).0 (lookup j (f sh).1.memory.records))
      → R (find j kv) (at_shard key f kv).0 (find j (at_shard key f kv).1)
  find-at_plain R j other k = rw same_count (elim (Bool-cases (index j kv == index key kv)) [
    | inl e ↦
        rw (==→eq (index j kv) (index key kv) e, ran.was, ran.is, ran.result)
          (k ran.shard ran.sound.1)
    | inr e ↦ rw (ran.elsewhere (index j kv) e) (other (differ e) (find j kv) _)
  ])
    where
      differ : (index j kv == index key kv) ≡ false → bytes_eq key j ≡ false
      differ e = elim (Bool-cases (bytes_eq key j)) [
        | inr d ↦ d
        | inl same ↦ absurd (cc (rw (bytes_eq→eq key j same) at e, ==_refl (index j kv)))
      ]

  pub result-at_plain :
      (R : Option Record → Outcome StoreError A → Option Record → Type 0)
      → ((sh : Shard)
          → IsPlain sh
          → R (lookup key sh.memory.records) (f sh).0 (lookup key (f sh).1.memory.records))
      → R (find key kv) (at_shard key f kv).0 (find key (at_shard key f kv).1)
  result-at_plain R k = rw (same_count, ran.was, ran.is, ran.result) (k ran.shard ran.sound.1)
