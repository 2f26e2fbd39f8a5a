-- ===== src/Store/Limits.antt =====
-- The memory limit of a shard under each policy.
use keva.Prelude.{
  ℕ, ◌+◌, ◌^◌, ◌≤◌, ◌<◌, ◌≡◌, ◌≢◌, ◌⊎◌, inl, inr, refl, sym, ap, subst, ◌∙◌, Bool, true, false, not,
  Bool-cases, Option, none, some, Option-cases, [], ◌∷◌, arith, Bytes, length, ltb, ltb_false→le,
  ◌==◌, ==→eq, bytes_eq_refl, if◌then◌else◌, ok, err,
}
use keva.Map.{lookup, insert, total-le}
use keva.Int64.{int64}
use keva.Shard.{Record, Memory, RangeOrder, entry_size, put_record, evict}
use keva.Shard.Accounting.{
  used, bytes_of, IsExact, evict-IsExact, lookup-evict, budget-evict, used-put_record,
  used-drop_record,
}
use keva.Eviction.{
  Policy, no_evict, sampling_evict, lru_evict, Lru, forget, over_budget, before_write,
  no_evict_before_write,
}
use keva.Eviction.Consistency.{forget-IsConsistent}
use keva.Eviction.Room.{
  over_budget-ltb, Tracks-forget, MadeRoom, lru_make_room-MadeRoom, empty_of_order,
}
use keva.Eviction.Sampling.{IsRange, Shrunk, sample_make_room-fits}
use keva.Store.{Shard, memory_full, restore, finish_set, shard_set}
use keva.Store.Soundness.{IsSound, Follows, Prepared, Prepared-absent, before_write-Prepared}

-- The bytes of the entry of `key`, if there is one.
abbrev pub bytes_at : Bytes → Option Record → ℕ
bytes_at key none = 0
bytes_at key (some r) = bytes_of key r

pub used-evict :
    (key : Bytes) (s : Memory)
    → IsExact s
    → used (evict key s) + bytes_at key (lookup key s.records) ≡ used s
unfolding evict
used-evict key s x = elim (Option-cases (lookup key s.records)) [
  | inl e ↦ rw e (omega arith)
  | inr (rec, e) ↦ rw e (used-drop_record key rec s e x)
]

≢→==_false : (n : ℕ) → n ≢ 0 → (n == 0) ≡ false
≢→==_false n h = elim (Bool-cases (n == 0)) [ inl e ↦ absurd (h (==→eq n 0 e)) | inr e ↦ e ]

limited-evict : (key : Bytes) (s : Memory) → s.budget ≢ 0 → ((evict key s).budget == 0) ≡ false
limited-evict key s h = ap (λ b. b == 0) (budget-evict key s) ∙ ≢→==_false s.budget h

absent-evict : (key : Bytes) (s : Memory) → lookup key (evict key s).records ≡ none
absent-evict key s = rw (lookup-evict key key s, bytes_eq_refl key)

used-restore :
    (key : Bytes) (s : Memory)
    → IsExact s
    → used (restore key (lookup key s.records) (evict key s)) ≡ used s
unfolding restore
used-restore key s x = elim (Option-cases (lookup key s.records)) [
  | inl e ↦
      let sum : used (evict key s) + 0 ≡ used s = rw e at (used-evict key s x) in
      let same : used (evict key s) ≡ used s = omega (arith, sum) in rw e same
  | inr (old, e) ↦
      rw e (
        used-put_record key old (evict key s) (absent-evict key s) ∙ (rw e at (used-evict key s x)))
]

no_evict-verdict :
    (key : Bytes) (rec : Record) (s : Memory)
    → IsExact s
    → s.budget ≢ 0
    → s.budget < 2 ^ 63
    → used s + bytes_of key rec < 2 ^ 63
    → no_evict_before_write (int64 (bytes_of key rec)) (evict key s)
      ≡ not (ltb s.budget (used (evict key s) + bytes_of key rec))
unfolding no_evict_before_write
no_evict-verdict key rec s x limited b small =
    let fits : used (evict key s) + bytes_of key rec < 2 ^ 63 =
      omega (arith, small, used-evict key s x) in
    let b' : (evict key s).budget < 2 ^ 63 = rw (budget-evict key s) b in
    let compared =
      over_budget-ltb (bytes_of key rec) (evict key s) (evict-IsExact key s x) fits b' in
    rw (limited-evict key s limited) (
      ap not
        (compared ∙ ap (λ w. ltb w (used (evict key s) + bytes_of key rec)) (budget-evict key s)))

-- A sound shard without an eviction policy takes a write if and only if the bytes stored, with the
-- old entry of the key taken out and the new one put in, are within the budget, for sums below 2 ^
-- 63 and a budget that is not 0.
pub no_evict-shard_set :
    (range : RangeOrder) (key : Bytes) (rec : Record) (sh : Shard)
    → sh.policy ≡ no_evict
    → IsSound sh
    → sh.memory.budget ≢ 0
    → sh.memory.budget < 2 ^ 63
    → used sh.memory + bytes_of key rec < 2 ^ 63
    → (shard_set range key rec sh).0 ≡ (
        if ltb sh.memory.budget (used (evict key sh.memory) + bytes_of key rec)
        then err memory_full
        else ok tt)
unfolding shard_set before_write
no_evict-shard_set range key rec sh p h limited b small =
    rw (p, verdict)
      (elim (Bool-cases (ltb sh.memory.budget (used (evict key sh.memory) + bytes_of key rec))) [
        | inl full ↦ rw full refl
        | inr room ↦ rw room refl
      ])
  where
    verdict :
        no_evict_before_write (int64 (bytes_of key rec)) (evict key sh.memory)
        ≡ not (ltb sh.memory.budget (used (evict key sh.memory) + bytes_of key rec))
    verdict = no_evict-verdict key rec sh.memory h.exact limited b small

-- In a sound shard without an eviction policy, whose budget is not 0, for sums and a budget below
-- 2 ^ 63, a write keeps the bytes stored within the budget, once they are within it.
pub no_evict-bound :
    (range : RangeOrder) (key : Bytes) (rec : Record) (sh : Shard)
    → sh.policy ≡ no_evict
    → IsSound sh
    → sh.memory.budget ≢ 0
    → sh.memory.budget < 2 ^ 63
    → used sh.memory + bytes_of key rec < 2 ^ 63
    → used sh.memory ≤ sh.memory.budget
    → used (shard_set range key rec sh).1.memory ≤ sh.memory.budget
unfolding shard_set before_write
no_evict-bound range key rec sh p h limited b small within =
    rw (p, no_evict-verdict key rec sh.memory h.exact limited b small)
      (elim (Bool-cases (ltb sh.memory.budget (used (evict key sh.memory) + bytes_of key rec))) [
        | inl full ↦ rw full (rw (used-restore key sh.memory h.exact) within)
        | inr room ↦
            rw (room, used-put_record key rec (evict key sh.memory) (absent-evict key sh.memory))
              (ltb_false→le sh.memory.budget (used (evict key sh.memory) + bytes_of key rec) room)
      ])

-- What a shard holds after `LRUEvict` has made room: the entry fits, or nothing is left.
lru_fits :
    (needed : ℕ) (p : Lru) (s : Memory) (q : Lru) (t : Memory)
    → MadeRoom needed p s q t
    → (over_budget needed t ≡ false) ⊎ (t.records ≡ [])
lru_fits needed p s q t m = elim m.room [
  | inl fits ↦ inl fits
  | inr none_left ↦ inr (empty_of_order q t m.consistent m.tracks none_left)
]

-- An evicting policy lets every write through, to a shard in which it fits or that is empty.
evicting-before_write :
    (range : RangeOrder) (key : Bytes) (needed : ℕ) (p : Policy) (s : Memory)
    → p ≢ no_evict
    → IsRange range
    → IsExact s
    → Follows p s
    → s.budget ≢ 0
    → let r = before_write range key needed p (evict key s) in
      (r.0 ≡ true) × ((over_budget needed r.2 ≡ false) ⊎ (r.2.records ≡ []))
unfolding before_write
evicting-before_write range key needed no_evict s n v x f limited = absurd (n refl)
evicting-before_write range key needed sampling_evict s n v x f limited =
    rw (limited-evict key s limited) (
      refl,
      sample_make_room-fits range v (length (evict key s).records) needed (evict key s)
          (evict-IsExact key s x) (omega arith),
    )
evicting-before_write range key needed (lru_evict p) s n v x f limited =
    rw (limited-evict key s limited) (
      refl,
      lru_fits needed (forget key p) (evict key s) _ _ (
          lru_make_room-MadeRoom (length (forget key p).order) needed (forget key p) (evict key s)
            (omega arith) (forget-IsConsistent key p f.0) (Tracks-forget key p s f.1)
            (evict-IsExact key s x)),
    )

-- Under an evicting policy, with a Range that visits each entry once, in a sound shard whose
-- budget is not 0, for sums and a budget below 2 ^ 63, a write never fails, and after it the bytes
-- stored are within the budget, unless the entry written, which is then larger than the budget, is
-- the only one.
pub evicting-bound :
    (range : RangeOrder) (key : Bytes) (rec : Record) (sh : Shard)
    → sh.policy ≢ no_evict
    → IsRange range
    → IsSound sh
    → sh.memory.budget ≢ 0
    → sh.memory.budget < 2 ^ 63
    → used sh.memory + bytes_of key rec < 2 ^ 63
    → ((shard_set range key rec sh).0 ≡ ok tt)
      × ((used (shard_set range key rec sh).1.memory ≤ sh.memory.budget)
          ⊎ ((shard_set range key rec sh).1.memory.records ≡ (key, rec) ∷ []))
unfolding shard_set
evicting-bound range key rec sh n v h limited b small =
    let prepared =
      before_write-Prepared range key (entry_size key rec.value) sh.policy sh.memory h.exact
        h.follows in
    let (through, room) =
      evicting-before_write range key (entry_size key rec.value) sh.policy sh.memory n v h.exact
        h.follows limited in
    dispatch _ _ _ prepared through room
  where
    used-Shrunk : (t : Memory) → Shrunk (evict key sh.memory) t → used t ≤ used sh.memory
    used-Shrunk t s =
        let less : used t ≤ used (evict key sh.memory) =
          unfold used in
          total-le bytes_of t.records (evict key sh.memory).records s.exact.distinct
            (evict-IsExact key sh.memory h.exact).distinct s.kept in
        omega (arith, less, used-evict key sh.memory h.exact)

    fits :
        (t : Memory)
        → Shrunk (evict key sh.memory) t
        → lookup key t.records ≡ none
        → over_budget (int64 (bytes_of key rec)) t ≡ false
        → used (put_record key rec t) ≤ sh.memory.budget
    fits t s absent e =
        let same : t.budget ≡ sh.memory.budget = s.budget ∙ budget-evict key sh.memory in
        let below : t.budget < 2 ^ 63 = subst (λ x. x < 2 ^ 63) (sym same) b in
        let compared : ltb t.budget (used t + bytes_of key rec) ≡ false =
          sym (
            over_budget-ltb (bytes_of key rec) t s.exact (omega (arith, small, used-Shrunk t s))
              below)
          ∙ e in
        rw (used-put_record key rec t absent) (
          subst (λ x. used t + bytes_of key rec ≤ x) same
            (ltb_false→le t.budget (used t + bytes_of key rec) compared))

    dispatch :
        (w : Bool) (p : Policy) (t : Memory)
        → Prepared key sh.memory w p t
        → w ≡ true
        → (over_budget (int64 (bytes_of key rec)) t ≡ false) ⊎ (t.records ≡ [])
        → let r = finish_set key rec (lookup key sh.memory.records) (w, p, t) in
          (r.0 ≡ ok tt)
          × ((used r.1.memory ≤ sh.memory.budget) ⊎ (r.1.memory.records ≡ (key, rec) ∷ []))
    dispatch false p t r w room = absurd (cc w)
    dispatch true p t r w (inl e) =
        unfold finish_set in (refl, inl (fits t r.shrunk (Prepared-absent r) e))
    dispatch true p t r w (inr e) =
        unfold finish_set in (refl, inr (unfold put_record insert in rw e refl))
