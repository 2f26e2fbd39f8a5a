-- ===== src/Store/KvStore/Sharding.antt =====
-- An operation on the key's shard, seen from the whole store.
use keva.Prelude.{
  ℕ, zero, suc, ◌%◌, ◌<◌, ◌≡◌, ◌≢◌, inl, inr, refl, ap, sym, ◌∙◌, false, Bool-cases, Option, none,
  some, List, [], ◌∷◌, arith, Bytes, length, All, ◌==◌, ==→eq, ==_refl, Outcome,
}
use keva.Map.{lookup}
use keva.Shard.{Record}
use keva.Store.{Shard, StoreError}
use keva.Store.Soundness.{IsSound}
use keva.Store.KvStore.{KvStore, hash, at_index, at_shard}

abbrev pub nth : ℕ → List Shard → Option Shard
nth i [] = none
nth zero (sh ∷ l) = some sh
nth (suc i) (sh ∷ l) = nth i l

abbrev pub entry_in : Bytes → Option Shard → Option Record
entry_in key none = none
entry_in key (some sh) = lookup key sh.memory.records

abbrev pub index : Bytes → KvStore → ℕ
index key kv = hash key % kv.shard_count

-- The entry of a key, wherever it is.
abbrev pub find : Bytes → KvStore → Option Record
find key kv = entry_in key (nth (index key kv) kv.shards)

-- What `NewKVStore` sets up and every operation keeps.
pub record IsReady (kv : KvStore) : Type 0 where
  pub some_shards : kv.shard_count ≢ 0
  pub all_there : length kv.shards ≡ kv.shard_count
  pub sound : All IsSound kv.shards

module _ (P : Shard → Type 0) {A : Type 0} (f : Shard → Outcome StoreError A × Shard) where
  -- `f` has been run on the shard at `i`, and on no other.
  pub record RanAt (i : ℕ) (l : List Shard) (r : Outcome StoreError A) (l' : List Shard)
      : Type 0 where
    pub shard : Shard
    pub was : nth i l ≡ some shard
    pub result : r ≡ (f shard).0
    pub is : nth i l' ≡ some (f shard).1
    pub elsewhere : (j : ℕ) → (j == i) ≡ false → nth j l' ≡ nth j l
    pub same_length : length l' ≡ length l
    pub sound : P shard
    pub sound_after : ((sh : Shard) → P sh → P (f sh).1) → All P l'

  RanAt-behind :
      (sh : Shard) (i : ℕ) (l : List Shard) (r : Outcome StoreError A) (l' : List Shard)
      → P sh
      → RanAt i l r l'
      → RanAt (suc i) (sh ∷ l) r (sh ∷ l')
  RanAt-behind sh i l r l' s rest = record {
    shard = rest.shard;
    was = rest.was;
    result = rest.result;
    is = rest.is;
    elsewhere = behind;
    same_length = ap suc rest.same_length;
    sound = rest.sound;
    sound_after = λ k. (s, rest.sound_after k);
  }
    where
      behind : (j : ℕ) → (j == suc i) ≡ false → nth j (sh ∷ l') ≡ nth j (sh ∷ l)
      behind zero e = refl
      behind (suc j) e = rest.elsewhere j (ground arith)

  pub at_index-RanAt :
      (i : ℕ) (l : List Shard)
      → i < length l
      → All P l
      → RanAt i l (at_index f i l).0 (at_index f i l).1
  unfolding at_index
  at_index-RanAt i [] h s = absurd (omega arith)
  at_index-RanAt zero (sh ∷ l) h s = record {
    shard = sh;
    was = refl;
    result = refl;
    is = refl;
    elsewhere = first;
    same_length = refl;
    sound = s.0;
    sound_after = λ k. (k sh s.0, s.1);
  }
    where
      first : (j : ℕ) → (j == 0) ≡ false → nth j ((f sh).1 ∷ l) ≡ nth j (sh ∷ l)
      first zero e = absurd (cc (==_refl 0, e))
      first (suc j) e = refl
  at_index-RanAt (suc i) (sh ∷ l) h s =
      RanAt-behind sh i l _ _ s.0 (at_index-RanAt i l (omega arith) s.1)

module _ {A : Type 0} (f : Shard → Outcome StoreError A × Shard) where
  module _ (key : Bytes) (kv : KvStore) (ready : IsReady kv) where
    pub at_shard-RanAt :
        RanAt IsSound f (index key kv) kv.shards (at_shard key f kv).0 (at_shard key f kv).1.shards
    unfolding at_shard
    at_shard-RanAt = elim (Bool-cases (kv.shard_count == 0)) [
      | inl e ↦ absurd (ready.some_shards (==→eq kv.shard_count 0 e))
      | inr e ↦ rw e (
          at_index-RanAt IsSound f (index key kv) kv.shards
            (omega (arith, ready.all_there, positive ready.some_shards)) ready.sound)
    ]
      where
        positive : kv.shard_count ≢ 0 → 0 < kv.shard_count
        positive h = omega (arith, h)

    shard_count-at_shard : (at_shard key f kv).1.shard_count ≡ kv.shard_count
    unfolding at_shard
    shard_count-at_shard = elim (Bool-cases (kv.shard_count == 0)) [
      | inl e ↦ rw e refl
      | inr e ↦ rw e refl
    ]

    pub IsReady-at_shard :
        ((sh : Shard) → IsSound sh → IsSound (f sh).1) → IsReady (at_shard key f kv).1
    IsReady-at_shard k = record {
      some_shards = λ e. ready.some_shards (sym shard_count-at_shard ∙ e);
      all_there = at_shard-RanAt.same_length ∙ ready.all_there ∙ sym shard_count-at_shard;
      sound = at_shard-RanAt.sound_after k;
    }

    -- What holds of each key's entry in the shard before and after holds in the store.
    pub find-at_shard :
        (R : Option Record → Outcome StoreError A → Option Record → Type 0) (j : Bytes)
        → ((x : Option Record) (r : Outcome StoreError A) → R x r x)
        → ((sh : Shard)
            → IsSound sh
            → R (lookup j sh.memory.records) (f sh).0 (lookup j (f sh).1.memory.records))
        → R (find j kv) (at_shard key f kv).0 (find j (at_shard key f kv).1)
    find-at_shard R j r k =
        rw shard_count-at_shard (elim (Bool-cases (index j kv == index key kv)) [
          | inl e ↦
              rw
                (
                  ==→eq (index j kv) (index key kv) e,
                  at_shard-RanAt.was,
                  at_shard-RanAt.is,
                  at_shard-RanAt.result,
                )
                (k at_shard-RanAt.shard at_shard-RanAt.sound)
          | inr e ↦ rw (at_shard-RanAt.elsewhere (index j kv) e) (r (find j kv) _)
        ])

    -- What holds of the result and of the entry of `key` in the shard holds in the store.
    pub result-at_shard :
        (R : Option Record → Outcome StoreError A → Option Record → Type 0)
        → ((sh : Shard)
            → IsSound sh
            → R (lookup key sh.memory.records) (f sh).0 (lookup key (f sh).1.memory.records))
        → R (find key kv) (at_shard key f kv).0 (find key (at_shard key f kv).1)
    result-at_shard R k =
        rw (shard_count-at_shard, at_shard-RanAt.was, at_shard-RanAt.is, at_shard-RanAt.result)
          (k at_shard-RanAt.shard at_shard-RanAt.sound)
