-- ===== src/Eviction/Sampling.antt =====
-- `SamplingEvict.BeforeWrite` drops entries until the new one fits or the shard is empty.
use keva.Prelude.{
  ℕ, zero, suc, ◌≤◌, ◌<◌, ◌≡◌, ◌≢◌, ◌⊎◌, inl, inr, refl, sym, subst, ◌∙◌, false, not, ◌&&◌,
  Bool-cases, Option, none, some, Option-cases, List, [], ◌∷◌, arith, Bytes, length, length-eq-zero,
  ◌==◌, ==→eq, bytes_eq,
}
use keva.Map.{Map, lookup, remove, empty_of_lookup, lookup-head, IsDistinct}
use keva.Time.{Time, before}
use keva.Shard.{Record, Memory, RangeOrder, len, evict, drop_record}
use keva.Shard.Accounting.{IsExact, evict-IsExact, lookup-evict, budget-evict}
use keva.Eviction.{
  over_budget, sample_n, soonest, evict_best, evict_soonest_of_sample, sample_make_room,
}

-- `Range` visits each entry once.
pub record IsRange (range : RangeOrder) : Type 0 where
  pub visits : (m : Map Record) → IsDistinct m → (k : Bytes) → lookup k (range m) ≡ lookup k m
  pub once : (m : Map Record) → IsDistinct m → IsDistinct (range m)

-- `t` is `s` without some entries.
pub record Shrunk (s t : Memory) : Type 0 where
  pub exact : IsExact t
  pub budget : t.budget ≡ s.budget
  pub kept : (j : Bytes) → (lookup j t.records ≡ lookup j s.records) ⊎ (lookup j t.records ≡ none)

pub Shrunk-refl : (s : Memory) → IsExact s → Shrunk s s
Shrunk-refl s x = record { exact = x; budget = refl; kept = λ j. inl refl }

pub Shrunk-trans : (s t u : Memory) → Shrunk s t → Shrunk t u → Shrunk s u
Shrunk-trans s t u f g = record {
  exact = g.exact;
  budget = g.budget ∙ f.budget;
  kept = λ j. elim (g.kept j) [
    | inr e ↦ inr e
    | inl e ↦ elim (f.kept j) [ inl d ↦ inl (e ∙ d) | inr d ↦ inr (e ∙ d) ]
  ];
}

pub Shrunk-evict : (key : Bytes) (s : Memory) → IsExact s → Shrunk s (evict key s)
Shrunk-evict key s x = record {
  exact = evict-IsExact key s x;
  budget = budget-evict key s;
  kept = λ j. elim (Bool-cases (bytes_eq key j)) [
    | inl e ↦ inr (rw (lookup-evict key j s, e))
    | inr e ↦ inl (rw (lookup-evict key j s, e))
  ];
}

Shrunk-evict_best :
    (best : Option (Bytes × Time)) (s : Memory) → IsExact s → Shrunk s (evict_best best s)
unfolding evict_best
Shrunk-evict_best none s x = Shrunk-refl s x
Shrunk-evict_best (some (v, t)) s x = Shrunk-evict v s x

-- Whatever the sample is, only entries are dropped, and the counter stays exact.
pub Shrunk-sample_make_room :
    (range : RangeOrder) (fuel needed : ℕ) (s : Memory)
    → IsExact s
    → Shrunk s (sample_make_room fuel range needed s)
unfolding sample_make_room evict_soonest_of_sample
Shrunk-sample_make_room range zero needed s x = Shrunk-refl s x
Shrunk-sample_make_room range (suc fuel) needed s x =
    elim (Bool-cases (over_budget needed s && not (len s == 0))) [
      | inr e ↦ rw e (Shrunk-refl s x)
      | inl e ↦
          let best = soonest sample_n none (range s.records) in
          let step = Shrunk-evict_best best s x in
          rw e (
            Shrunk-trans s (evict_best best s) _ step
              (Shrunk-sample_make_room range fuel needed (evict_best best s) step.exact))
    ]

found_behind :
    (k w : Bytes) (r : Record) (es : List (Bytes × Record))
    → lookup w es ≢ none
    → lookup w ((k, r) ∷ es) ≢ none
unfolding lookup
found_behind k w r es there f = elim (Bool-cases (bytes_eq k w)) [
  | inl q ↦ cc (rw q at f)
  | inr q ↦ there (rw q at f)
]

found_or_behind :
    (k w : Bytes) (r : Record) (es : List (Bytes × Record))
    → (k ≡ w) ⊎ (lookup w es ≢ none)
    → lookup w ((k, r) ∷ es) ≢ none
found_or_behind k w r es (inr there) = found_behind k w r es there
found_or_behind k w r es (inl same) = λ f.
    let here : lookup w ((w, r) ∷ es) ≡ some r = lookup-head w r es in
    let gone : lookup w ((w, r) ∷ es) ≡ none = subst (λ x. lookup w ((x, r) ∷ es) ≡ none) same f in
    cc (here, gone)

-- A victim is found in a sample that has an entry, and it is an entry of the sample.
soonest-some :
    (n : ℕ) (v : Bytes) (t : Time) (es : List (Bytes × Record))
    → (w : Bytes) × (u : Time) × (soonest n (some (v, t)) es ≡ some (w, u))
      × ((v ≡ w) ⊎ (lookup w es ≢ none))
unfolding soonest
soonest-some zero v t es = (v, t, refl, inl refl)
soonest-some (suc n) v t [] = (v, t, refl, inl refl)
soonest-some (suc n) v t ((k, r) ∷ es) = elim (Bool-cases (before r.expired_at t)) [
  | inl sooner ↦
      let (w, u, e, h) = soonest-some n k r.expired_at es in
      (w, u, rw sooner e, inr (found_or_behind k w r es h))
  | inr later ↦
      let (w, u, e, h) = soonest-some n v t es in
      (
        w,
        u,
        rw later e,
        elim h [ inl same ↦ inl same | inr there ↦ inr (found_behind k w r es there) ],
      )
]

soonest_found :
    (es : List (Bytes × Record))
    → (es ≡ [])
      ⊎ ((w : Bytes) × (u : Time) × (soonest sample_n none es ≡ some (w, u)) × (lookup w es ≢ none))
unfolding soonest
soonest_found [] = inl refl
soonest_found ((k, r) ∷ es) =
    let (w, u, e, h) = soonest-some 4 k r.expired_at es in inr (w, u, e, found_or_behind k w r es h)

length-remove-le : (k : Bytes) (m : Map Record) → length (remove k m) ≤ length m
unfolding remove
length-remove-le k [] = omega arith
length-remove-le k ((j, v) ∷ m) = ground (arith, length-remove-le k m)

length-remove : (k : Bytes) (m : Map Record) → lookup k m ≢ none → length (remove k m) < length m
unfolding lookup remove
length-remove k [] h = absurd (h refl)
length-remove k ((j, v) ∷ m) h = elim (Bool-cases (bytes_eq j k)) [
  | inl e ↦ rw e (omega (arith, length-remove-le k m))
  | inr e ↦ rw e (omega (arith, length-remove k m (rw e at h)))
]

length-evict : (k : Bytes) (s : Memory) → lookup k s.records ≢ none → len (evict k s) < len s
unfolding evict drop_record
length-evict k s h = elim (Option-cases (lookup k s.records)) [
  | inl e ↦ absurd (h e)
  | inr (rec, e) ↦ rw e (length-remove k s.records h)
]

-- With a Range that visits every entry, the number of entries is fuel enough for the loop of
-- SamplingEvict.BeforeWrite on a shard with an exact counter: it ends with the new entry fitting
-- or with an empty shard.
pub sample_make_room-fits :
    (range : RangeOrder)
    → IsRange range
    → (fuel needed : ℕ) (s : Memory) → IsExact s
    → len s ≤ fuel
    → (over_budget needed (sample_make_room fuel range needed s) ≡ false)
      ⊎ ((sample_make_room fuel range needed s).records ≡ [])
unfolding sample_make_room evict_soonest_of_sample
sample_make_room-fits range v zero needed s x h = inr (length-eq-zero s.records (omega (arith, h)))
sample_make_room-fits range v (suc fuel) needed s x h = elim (Bool-cases (over_budget needed s)) [
  | inr fits ↦ rw fits (inl fits)
  | inl over ↦ elim (Bool-cases (len s == 0)) [
    | inl e ↦ rw (over, e) (inr (length-eq-zero s.records (==→eq (len s) 0 e)))
    | inr e ↦ elim (soonest_found (range s.records)) [
      | inl none_visited ↦
          let nothing : s.records ≡ [] =
            empty_of_lookup s.records λ k.
              sym (v.visits s.records x.distinct k) ∙ rw none_visited (unfold lookup in refl) in
          absurd (cc (rw nothing at e))
      | inr (w, u, best, there) ↦
          let found : lookup w s.records ≢ none =
            λ f. there (v.visits s.records x.distinct w ∙ f) in
          rw (over, e, best)
            (unfold evict_best in
              sample_make_room-fits range v fuel needed (evict w s) (evict-IsExact w s x)
                (omega (arith, length-evict w s found)))
    ]
  ]
]
