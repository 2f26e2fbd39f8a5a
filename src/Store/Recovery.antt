-- ===== src/Store/Recovery.antt =====
-- The second loop of `recover` leaves a sound shard.
use keva.Prelude.{
  ℕ, ◌+◌, ◌%◌, ◌^◌, ◌≤◌, ◌≡◌, ◌≢◌, ◌↔◌, inl, inr, refl, ap, sym, subst, ◌∙◌, Bool-cases, Option,
  none, some, List, [], ◌∷◌, arith, Bytes, bytes_eq, bytes_eq→eq, if◌then◌else◌,
}
use keva.Map.{Map, lookup, total, total-le, lookup-insert, lookup-head, IsDistinct}
use keva.Int64.{add64, add64-counts}
use keva.Shard.{Record, Memory, RangeOrder, entry_size}
use keva.Shard.Accounting.{used, bytes_of}
use keva.Eviction.{
  Policy, no_evict, sampling_evict, lru_evict, Lru, new_lru, push_front, after_write,
}
use keva.Eviction.Consistency.{IsConsistent, IsConsistent-new_lru, push_front-IsConsistent}
use keva.Eviction.Sampling.{IsRange}
use keva.Store.{Shard, account}
use keva.Store.Soundness.{IsSound, Follows}

-- A policy as `newPolicy` makes it.
abbrev pub IsNew : Policy → Type 0
IsNew no_evict = Unit
IsNew sampling_evict = Unit
IsNew (lru_evict p) = p ≡ new_lru

-- A shard that `recover` has filled, but not accounted for.
pub record IsFilled (sh : Shard) : Type 0 where
  pub distinct : IsDistinct sh.memory.records
  pub uncounted : sh.memory.bytes ≡ 0
  pub new : IsNew sh.policy

records-account :
    (es : List (Bytes × Record)) (sh : Shard) → (account es sh).memory.records ≡ sh.memory.records
unfolding account
records-account [] sh = refl
records-account ((k, r) ∷ es) sh = records-account es _

bytes-account :
    (es : List (Bytes × Record)) (sh : Shard) (c : ℕ)
    → sh.memory.bytes ≡ c % 2 ^ 64
    → (account es sh).memory.bytes ≡ (c + total bytes_of es) % 2 ^ 64
unfolding account total
bytes-account [] sh c e = omega (arith, e)
bytes-account ((k, r) ∷ es) sh c e =
    bytes-account es _ (c + bytes_of k r) (add64-counts sh.memory.bytes (bytes_of k r) c e)
    ∙ omega arith

-- The keys of the list are those before, and those of `es`.
abbrev Extends : Policy → List (Bytes × Record) → Policy → Type 0
Extends no_evict es q = q ≡ no_evict
Extends sampling_evict es q = q ≡ sampling_evict
Extends (lru_evict p) es q =
    (p' : Lru) × (q ≡ lru_evict p')
    × IsConsistent p'
    × ((k : Bytes)
        → (lookup k p'.elems ≡ none) ↔ ((lookup k p.elems ≡ none) × (lookup k es ≡ none)))

lookup-push_front :
    (k j : Bytes) (p : Lru)
    → lookup j (push_front k p).elems ≡ (if bytes_eq k j then some p.next else lookup j p.elems)
unfolding push_front
lookup-push_front k j p = lookup-insert k j p.next p.elems

policy-account :
    (es : List (Bytes × Record)) (m : Memory) (p : Lru)
    → IsDistinct es
    → IsConsistent p
    → ((k : Bytes) → lookup k es ≢ none → lookup k p.elems ≡ none)
    → Extends (lru_evict p) es (account es (record { memory = m; policy = lru_evict p })).policy
unfolding account after_write
policy-account [] m p d c h = (p, refl, c, λ k. unfold lookup in (λ e. (e, refl), λ e. e.0))
policy-account ((k, r) ∷ es) m p d c h =
    let absent : lookup k p.elems ≡ none = h k (λ e. cc (e, lookup-head k r es)) in
    let (q, e, c', keys) =
      policy-account es (record m { bytes = add64 m.bytes (entry_size k r.value) }) (push_front k p)
        d.1 (push_front-IsConsistent k p absent c) (still absent) in
    (q, e, c', λ j. joined j absent (keys j))
  where
    still :
        lookup k p.elems ≡ none
        → (j : Bytes) → lookup j es ≢ none
        → lookup j (push_front k p).elems ≡ none
    still absent j n = rw (lookup-push_front k j p) (elim (Bool-cases (bytes_eq k j)) [
      | inl q ↦ absurd (n (ap (λ x. lookup x es) (sym (bytes_eq→eq k j q)) ∙ d.0))
      | inr q ↦ rw q (h j (λ e. n (unfold lookup in rw q at e)))
    ])

    joined :
        {x : Option ℕ} (j : Bytes)
        → lookup k p.elems ≡ none
        → ((x ≡ none) ↔ ((lookup j (push_front k p).elems ≡ none) × (lookup j es ≡ none)))
        → (x ≡ none) ↔ ((lookup j p.elems ≡ none) × (lookup j ((k, r) ∷ es) ≡ none))
    joined j absent w =
        unfold lookup in
        elim (Bool-cases (bytes_eq k j)) [
          | inl q ↦
              let listed : lookup j (push_front k p).elems ≢ none =
                λ e. cc (rw (lookup-push_front k j p, q) at e) in
              rw q (λ e. absurd (listed (w.0 e).0), λ e. absurd (cc e.1))
          | inr q ↦
              let same : lookup j (push_front k p).elems ≡ lookup j p.elems =
                rw (lookup-push_front k j p, q) refl in
              rw q (λ e. (sym same ∙ (w.0 e).0, (w.0 e).1), λ e. w.1 (same ∙ e.0, e.1))
        ]

no_evict-account :
    (es : List (Bytes × Record)) (m : Memory)
    → (account es (record { memory = m; policy = no_evict })).policy ≡ no_evict
unfolding account after_write
no_evict-account [] m = refl
no_evict-account ((k, r) ∷ es) m = no_evict-account es _

sampling-account :
    (es : List (Bytes × Record)) (m : Memory)
    → (account es (record { memory = m; policy = sampling_evict })).policy ≡ sampling_evict
unfolding account after_write
sampling-account [] m = refl
sampling-account ((k, r) ∷ es) m = sampling-account es _

-- The order of the entries does not change their sum.
total-range :
    (range : RangeOrder)
    → IsRange range
    → (m : Map Record) → IsDistinct m
    → total bytes_of (range m) ≡ total bytes_of m
total-range range v m d =
    let one : total bytes_of (range m) ≤ total bytes_of m =
      total-le bytes_of (range m) m (v.once m d) d (λ j. inl (v.visits m d j)) in
    let two : total bytes_of m ≤ total bytes_of (range m) =
      total-le bytes_of m (range m) d (v.once m d) (λ j. inl (sym (v.visits m d j))) in
    omega (arith, one, two)

Follows-account :
    (range : RangeOrder)
    → IsRange range
    → (m n : Memory) (p : Policy) → IsDistinct m.records
    → n.records ≡ m.records
    → IsNew p
    → Follows (account (range m.records) (record { memory = m; policy = p })).policy n
Follows-account range v m n no_evict d same new = rw (no_evict-account (range m.records) m) tt
Follows-account range v m n sampling_evict d same new = rw (sampling-account (range m.records) m) tt
Follows-account range v m n (lru_evict p) d same new =
    let (q, e, c, keys) =
      policy-account (range m.records) m p (v.once m.records d)
        (subst IsConsistent (sym new) IsConsistent-new_lru)
        (λ k n. ap (λ x. lookup k x.elems) new ∙ unfold lookup in refl) in
    rw e (
      c,
      λ k. (
        λ h. ap (lookup k) same ∙ sym (v.visits m.records d k) ∙ ((keys k).0 h).1,
        λ h. (keys k).1 (
          ap (λ x. lookup k x.elems) new ∙ unfold lookup in refl,
          v.visits m.records d k ∙ sym (ap (lookup k) same) ∙ h,
        ),
      ),
    )

-- Accounting for a filled shard makes it sound, in whatever order the entries are visited, and
-- changes no entry.
pub account-IsSound :
    (range : RangeOrder)
    → IsRange range
    → (sh : Shard) → IsFilled sh
    → IsSound (account (range sh.memory.records) sh)
      × ((account (range sh.memory.records) sh).memory.records ≡ sh.memory.records)
account-IsSound range v sh h = (
  record {
    exact = record { distinct = subst IsDistinct (sym same) h.distinct; counted = counted };
    follows = Follows-account range v sh.memory _ sh.policy h.distinct same h.new;
  },
  same,
)
  where
    es : List (Bytes × Record)
    es = range sh.memory.records

    same : (account (range sh.memory.records) sh).memory.records ≡ sh.memory.records
    same = records-account (range sh.memory.records) sh

    zero_bytes : sh.memory.bytes ≡ 0 % 2 ^ 64
    zero_bytes = omega (arith, h.uncounted)

    sum : 0 + total bytes_of (range sh.memory.records) ≡ total bytes_of sh.memory.records
    sum = omega (arith, total-range range v sh.memory.records h.distinct)

    counted :
        (account (range sh.memory.records) sh).memory.bytes
        ≡ used (account (range sh.memory.records) sh).memory % 2 ^ 64
    counted =
        bytes-account (range sh.memory.records) sh 0 zero_bytes
        ∙ ap (λ x. x % 2 ^ 64) sum
        ∙ ap (λ m. total bytes_of m % 2 ^ 64) (sym same)
        ∙ unfold used in refl
