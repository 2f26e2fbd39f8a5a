-- ===== src/Store/KvStore/Recovery.antt =====
-- The store that recovery leaves: the last record of each key decides.
use keva.Prelude.{
  ℕ, zero, suc, ◌%◌, ◌^◌, ◌<◌, ◌≡◌, ◌≢◌, inl, inr, refl, ap, sym, subst, ◌∙◌, false, Bool-cases,
  Option, none, some, List, [], ◌∷◌, ◌++◌, map, arith, Bytes, length, take, All, ◌==◌, ==→eq,
  bytes_eq, bytes_eq_iff, bytes_eq→eq, ==_refl, if◌then◌else◌, ok, err, panic, Outcome,
}
use keva.Map.{
  Map, lookup, lookup-insert, lookup-remove, IsDistinct, IsDistinct-insert, IsDistinct-remove,
}
use keva.Time.{Time, before}
use keva.Shard.{Record, RangeOrder}
use keva.Wal
use keva.Prelude.Reader.{unexpected_eof}
use keva.Wal.{op_set, op_delete, encode, replay, Ending, finished, failed}
use keva.Wal.Codec.{IsLoggable, logged}
use keva.Wal.Replay.{encode_all, apply_all, replay-encode_all, replay-torn}
use keva.Eviction.Sampling.{IsRange}
use keva.Store.{Shard, StoreError, account}
use keva.Store.Soundness.{IsSound}
use keva.Store.Recovery.{IsNew, IsFilled, account-IsSound}
use keva.Store.KvStore.{
  hash, at_index, apply_record, load_shard, unless_panic, load, account_all, not_read, after_replay,
  recover,
}
use keva.Store.KvStore.Sharding.{nth, entry_in, RanAt, at_index-RanAt}

-- What a record says about the key `j`, whose entry was `x` before.
abbrev pub recorded : Time → Bytes → Option Record → Wal.Record → Option Record
recorded now j x r =
    if bytes_eq r.key j
    then if r.op == op_set
      then if before now r.expires_at
        then some (record { value = r.value; created_at = now; expired_at = r.expires_at })
        else none
      else if r.op == op_delete
      then none
      else x
    else x

lookup-apply_record :
    (now : Time) (r : Wal.Record) (m : Map Record) (j : Bytes)
    → lookup j (apply_record now r m) ≡ recorded now j (lookup j m) r
unfolding apply_record
lookup-apply_record now r m j =
    let removed = lookup-remove r.key j m in
    elim (Bool-cases (r.op == op_set)) [
      | inl set ↦ elim (Bool-cases (before now r.expires_at)) [
        | inl fresh ↦
            rw (set, fresh)
              (lookup-insert r.key j
                (record { value = r.value; created_at = now; expired_at = r.expires_at }) m)
        | inr late ↦ rw (set, late) removed
      ]
      | inr not_set ↦ elim (Bool-cases (r.op == op_delete)) [
        | inl del ↦ rw (not_set, del) removed
        | inr other ↦ rw (not_set, other) (ground (arith, bytes_eq_iff r.key j))
      ]
    ]

IsDistinct-apply_record :
    (now : Time) (r : Wal.Record) (m : Map Record)
    → IsDistinct m
    → IsDistinct (apply_record now r m)
unfolding apply_record
IsDistinct-apply_record now r m d =
    let removed = IsDistinct-remove r.key m d in
    elim (Bool-cases (r.op == op_set)) [
      | inl set ↦ elim (Bool-cases (before now r.expires_at)) [
        | inl fresh ↦
            rw (set, fresh)
              (IsDistinct-insert r.key
                (record { value = r.value; created_at = now; expired_at = r.expires_at }) m d)
        | inr late ↦ rw (set, late) removed
      ]
      | inr not_set ↦ elim (Bool-cases (r.op == op_delete)) [
        | inl del ↦ rw (not_set, del) removed
        | inr other ↦ rw (not_set, other) d
      ]
    ]

-- The shards of a store of `n` shards, and the entry of a key in them.
record Filled (n : ℕ) (l : List Shard) : Type 0 where
  some_shards : n ≢ 0
  all_there : length l ≡ n
  filled : All IsFilled l

abbrev entry : ℕ → Bytes → List Shard → Option Record
entry n j l = entry_in j (nth (hash j % n) l)

unless_panic-ok :
    (r : Outcome StoreError Unit) (l : List Shard) → r ≡ ok tt → unless_panic (r, l) ≡ some l
unfolding unless_panic
unless_panic-ok (ok u) l e = refl
unless_panic-ok (err x) l e = refl
unless_panic-ok panic l e = absurd (cc e)

-- What a record does to shards that are there.
unfoldable placed : Time → ℕ → List Shard → Wal.Record → List Shard
unfolding at_index hash load_shard
placed now n l r = (at_index (load_shard now r) (hash r.key % n) l).1

module _ (now : Time) (n : ℕ) (r : Wal.Record) (l : List Shard) (h : Filled n l) where
  placed-RanAt :
      RanAt IsFilled
        (load_shard now r)
        (hash r.key % n)
        l
        (at_index (load_shard now r) (hash r.key % n) l).0
        (placed now n l r)
  unfolding placed
  placed-RanAt =
      at_index-RanAt IsFilled (load_shard now r) (hash r.key % n) l
        (omega (arith, h.all_there, positive h.some_shards)) h.filled
    where
      positive : n ≢ 0 → 0 < n
      positive e = omega (arith, e)

  Filled-placed : Filled n (placed now n l r)
  Filled-placed = record {
    some_shards = h.some_shards;
    all_there = placed-RanAt.same_length ∙ h.all_there;
    filled = placed-RanAt.sound_after one;
  }
    where
      one : (sh : Shard) → IsFilled sh → IsFilled (load_shard now r sh).1
      one sh f =
          unfold load_shard in
          record {
            distinct = IsDistinct-apply_record now r sh.memory.records f.distinct;
            uncounted = f.uncounted;
            new = f.new;
          }

  entry-placed : (j : Bytes) → entry n j (placed now n l r) ≡ recorded now j (entry n j l) r
  entry-placed j = elim (Bool-cases (hash j % n == hash r.key % n)) [
    | inl e ↦
        rw (==→eq (hash j % n) (hash r.key % n) e, placed-RanAt.was, placed-RanAt.is)
          (unfold load_shard in lookup-apply_record now r placed-RanAt.shard.memory.records j)
    | inr e ↦ rw (placed-RanAt.elsewhere (hash j % n) e) (sym (untouched e))
  ]
    where
      untouched :
          (hash j % n == hash r.key % n) ≡ false → recorded now j (entry n j l) r ≡ entry n j l
      untouched e = elim (Bool-cases (bytes_eq r.key j)) [
        | inr other ↦ rw other refl
        | inl same ↦ absurd (cc (rw (bytes_eq→eq r.key j same) at e, ==_refl (hash j % n)))
      ]

  load-placed : load now n (some l) r ≡ some (placed now n l r)
  unfolding load placed
  load-placed =
      let there : (n == 0) ≡ false = elim (Bool-cases (n == 0)) [
        | inl e ↦ absurd (h.some_shards (==→eq n 0 e))
        | inr e ↦ e
      ] in
      let taken : (at_index (load_shard now r) (hash r.key % n) l).0 ≡ ok tt =
        placed-RanAt.result ∙ unfold load_shard in refl in
      rw there (unless_panic-ok _ (placed now n l r) taken)

-- The first loop, over all records.
record Loaded (now : Time) (n : ℕ) (rs : List Wal.Record) (l : List Shard) : Type 0 where
  shards : List Shard
  is : apply_all (load now n) (some l) rs ≡ some shards
  filled : Filled n shards
  entries : (j : Bytes) → entry n j shards ≡ apply_all (recorded now j) (entry n j l) rs

loaded :
    (now : Time) (n : ℕ) (rs : List Wal.Record) (l : List Shard) → Filled n l → Loaded now n rs l
loaded now n [] l h = record { shards = l; is = refl; filled = h; entries = λ j. refl }
loaded now n (r ∷ rs) l h =
    let rest = loaded now n rs (placed now n l r) (Filled-placed now n r l h) in
    record {
      shards = rest.shards;
      is = ap (λ x. apply_all (load now n) x rs) (load-placed now n r l h) ∙ rest.is;
      filled = rest.filled;
      entries = λ j.
          rest.entries j ∙ ap (λ x. apply_all (recorded now j) x rs) (entry-placed now n r l h j);
    }

-- The second loop, over all shards.
accounted :
    (range : RangeOrder)
    → IsRange range
    → (l : List Shard) → All IsFilled l
    → All IsSound (account_all range l)
      × (length (account_all range l) ≡ length l)
      × ((i : ℕ) (j : Bytes) → entry_in j (nth i (account_all range l)) ≡ entry_in j (nth i l))
unfolding account_all
accounted range v [] f = (tt, refl, λ i j. refl)
accounted range v (sh ∷ l) f =
    let (sound, len, same) = accounted range v l f.1 in
    let (s, e) = account-IsSound range v sh f.0 in
    ((s, sound), ap suc len, λ i j. at (account_all range l) i j (λ k. same k j) (ap (lookup j) e))
  where
    at :
        (rest : List Shard) (i : ℕ) (j : Bytes)
        → ((k : ℕ) → entry_in j (nth k rest) ≡ entry_in j (nth k l))
        → lookup j (account (range sh.memory.records) sh).memory.records
          ≡ lookup j sh.memory.records
        → entry_in j (nth i (account (range sh.memory.records) sh ∷ rest))
          ≡ entry_in j (nth i (sh ∷ l))
    at rest zero j h e = e
    at rest (suc i) j h e = h i

-- The shards that `NewKVStore` makes.
pub record IsEmpty (sh : Shard) : Type 0 where
  pub nothing : sh.memory.records ≡ []
  pub uncounted : sh.memory.bytes ≡ 0
  pub new : IsNew sh.policy

IsFilled-All : (l : List Shard) → All IsEmpty l → All IsFilled l
IsFilled-All [] h = tt
IsFilled-All (sh ∷ l) (e, h) = (
  record { distinct = subst IsDistinct (sym e.nothing) tt; uncounted = e.uncounted; new = e.new },
  IsFilled-All l h,
)

nothing_in : (i : ℕ) (l : List Shard) (j : Bytes) → All IsEmpty l → entry_in j (nth i l) ≡ none
nothing_in i [] j h = refl
nothing_in zero (sh ∷ l) j (e, h) = ap (lookup j) e.nothing ∙ unfold lookup in refl
nothing_in (suc i) (sh ∷ l) j (e, h) = nothing_in i l j h

-- The loop over all records, into new shards that a `uint32` counts.
Loaded-new :
    (now : Time) (shards : List Shard) (rs : List Wal.Record)
    → length shards ≢ 0
    → length shards < 2 ^ 32
    → All IsEmpty shards
    → Loaded now (length shards % 2 ^ 32) rs shards
Loaded-new now shards rs some_shards small empty =
    let count : length shards % 2 ^ 32 ≡ length shards = omega (arith, small) in
    loaded now (length shards % 2 ^ 32) rs shards (record {
      some_shards = λ e. some_shards (sym count ∙ e);
      all_there = sym count;
      filled = IsFilled-All shards empty;
    })

-- Recovery from a log of loggable records, into new shards of which there is one at least and
-- fewer than 2 ^ 32, succeeds, for a Range that visits each entry once; each shard is sound, and
-- each key has the entry that its last set or delete gives it, which is none for a set whose
-- expiry is not after the time of recovery.
pub recover-encode_all :
    (range : RangeOrder) (now : Time) (shards : List Shard) (rs : List Wal.Record)
    → IsRange range
    → length shards ≢ 0
    → length shards < 2 ^ 32
    → All IsEmpty shards
    → All IsLoggable rs
    → let count = length shards % 2 ^ 32 in
      (t : List Shard) × (recover range now (some (encode_all rs)) count shards ≡ ok t)
      × All IsSound t
      × (length t ≡ length shards)
      × ((j : Bytes)
          → entry_in j (nth (hash j % count) t) ≡ apply_all (recorded now j) none (map logged rs))
unfolding recover after_replay
recover-encode_all range now shards rs v some_shards small empty ok_rs =
    let count = length shards % 2 ^ 32 in
    let first = Loaded-new now shards (map logged rs) some_shards small empty in
    let (sound, len, same) = accounted range v first.shards first.filled.filled in
    (
      account_all range first.shards,
      rw (replay-encode_all (load now count) rs (some shards) ok_rs, first.is) refl,
      sound,
      len ∙ first.filled.all_there ∙ omega (arith, small),
      λ j.
          same (hash j % count) j
          ∙ first.entries j
          ∙ ap (λ x. apply_all (recorded now j) x (map logged rs))
              (nothing_in (hash j % count) shards j empty),
    )

-- From a log of loggable records that ends inside a last one, recovery into new shards, of which
-- there is one at least and fewer than 2 ^ 32, gives the error of an unexpected end, and there is
-- no store.
pub recover-torn :
    (range : RangeOrder) (now : Time) (shards : List Shard) (rs : List Wal.Record) (r : Wal.Record)
    (k : ℕ)
    → length shards ≢ 0
    → length shards < 2 ^ 32
    → All IsEmpty shards
    → All IsLoggable rs
    → IsLoggable r
    → 0 < k
    → k < length (encode r)
    → recover range now (some (encode_all rs ++ take k (encode r))) (length shards % 2 ^ 32) shards
      ≡ err (not_read unexpected_eof)
unfolding recover after_replay
recover-torn range now shards rs r k some_shards small empty ok_rs ok_r pos cut =
    let first = Loaded-new now shards (map logged rs) some_shards small empty in
    rw
      (
        replay-torn (load now (length shards % 2 ^ 32)) rs r k (some shards) ok_rs ok_r pos cut,
        first.is,
      )
      refl
