-- ===== src/Eviction/Room.antt =====
-- `LRUEvict.BeforeWrite` drops the least recently used keys, and stops as soon as the entry fits.
use keva.Prelude.{
  ℕ, zero, suc, ◌+◌, ◌%◌, ◌^◌, ◌≤◌, ◌<◌, ◌≡◌, ◌≢◌, ◌⊎◌, ◌↔◌, inl, inr, refl, ap, sym, subst, ◌∙◌,
  Bool, true, false, ◌||◌, Bool-cases, none, some, Option-cases, List, [], ◌∷◌, ◌++◌, append_assoc,
  append-nil, arith, Bytes, length, ltb, ◌==◌, bytes_eq, if◌then◌else◌, length-append, ==_refl,
}
use keva.Map.{Map, lookup, lookup-remove, empty_of_lookup, remove_absent}
use keva.Int64.{int64, add64, gt64-ltb}
use keva.Shard.{Memory, evict}
use keva.Shard.Accounting.{used, IsExact, evict-IsExact, lookup-evict, budget-evict}
use keva.Eviction.{Lru, remove_element, forget, back, over_budget, lru_make_room}
use keva.Eviction.Consistency.{IsConsistent, Indexed, IsNodup, Without, Listed, forget-IsConsistent}

-- With sums that an `int64` holds, the test compares the bytes stored with the budget.
pub over_budget-ltb :
    (n : ℕ) (s : Memory)
    → IsExact s
    → used s + n < 2 ^ 63
    → s.budget < 2 ^ 63
    → over_budget (int64 n) s ≡ ltb s.budget (used s + n)
unfolding over_budget add64
over_budget-ltb n s x small b =
    let sum : (s.bytes + n % 2 ^ 64) % 2 ^ 64 ≡ used s + n = omega (arith, x.counted) in
    rw sum (gt64-ltb (used s + n) s.budget small b)

-- The policy lists the keys that the shard holds.
abbrev pub Tracks : Lru → Memory → Type 0
Tracks p s = (k : Bytes) → (lookup k p.elems ≡ none) ↔ (lookup k s.records ≡ none)

pub lookup-forget :
    (key j : Bytes) (p : Lru)
    → lookup j (forget key p).elems ≡ (if bytes_eq key j then none else lookup j p.elems)
unfolding forget
lookup-forget key j p = elim (Option-cases (lookup key p.elems)) [
  | inl e ↦ rw e (rw (remove_absent key p.elems e) at (lookup-remove key j p.elems))
  | inr (i, e) ↦ rw e (lookup-remove key j p.elems)
]

pub Tracks-forget :
    (key : Bytes) (p : Lru) (s : Memory) → Tracks p s → Tracks (forget key p) (evict key s)
Tracks-forget key p s t k =
    rw (lookup-forget key k p, lookup-evict key k s)
      (elim (Bool-cases (bytes_eq key k)) [
        | inl e ↦ rw e (λ h. refl, λ h. refl)
        | inr e ↦ rw e (t k)
      ])

-- the key is one of those in the list
unfoldable pub has_key : Bytes → List (ℕ × Bytes) → Bool
has_key j [] = false
has_key j ((i, k) ∷ l) = bytes_eq k j || has_key j l

-- The last element, and the list without it.
back_split :
    (o : List (ℕ × Bytes)) (i : ℕ) (k : Bytes)
    → back o ≡ some (i, k)
    → (front : List (ℕ × Bytes)) × (o ≡ front ++ ((i, k) ∷ []))
unfolding back
back_split [] i k h = cc
back_split ((j, l) ∷ []) i k h = ([], let e : some (j, l) ≡ some (i, k) = h in cc e)
back_split (x ∷ y ∷ o) i k h =
    let (front, e) = back_split (y ∷ o) i k h in (x ∷ front, ap (◌∷◌ x) e)

back-none : (o : List (ℕ × Bytes)) → back o ≡ none → o ≡ []
unfolding back
back-none [] h = refl
back-none (x ∷ []) h = cc
back-none (x ∷ y ∷ o) h = absurd (cc (back-none (y ∷ o) h))

Without-last :
    (e : ℕ) (k : Bytes) (front : List (ℕ × Bytes)) (i : ℕ)
    → Without i (front ++ ((e, k) ∷ []))
    → i ≢ e
Without-last e k [] i w = λ q. w.0 (sym q)
Without-last e k (x ∷ front) i w = Without-last e k front i w.1

remove_last :
    (i : ℕ) (k : Bytes) (front : List (ℕ × Bytes))
    → IsNodup (front ++ ((i, k) ∷ []))
    → remove_element i (front ++ ((i, k) ∷ [])) ≡ front
unfolding remove_element
remove_last i k [] d = rw (==_refl i)
remove_last i k ((j, l) ∷ front) d =
    let other : (j == i) ≡ false = ground (arith, Without-last i k front j d.0) in
    rw other (ap (◌∷◌ (j, l)) (remove_last i k front d.1))

Indexed-last :
    (m : Map ℕ) (next i : ℕ) (k : Bytes) (front : List (ℕ × Bytes))
    → Indexed m next (front ++ ((i, k) ∷ []))
    → lookup k m ≡ some i
Indexed-last m next i k [] h = h.0
Indexed-last m next i k (x ∷ front) h = Indexed-last m next i k front h.2

-- forgetting the key at the back takes the last element off the list
forget_back :
    (p : Lru) (i : ℕ) (k : Bytes) (front : List (ℕ × Bytes))
    → IsConsistent p
    → p.order ≡ front ++ ((i, k) ∷ [])
    → (forget k p).order ≡ front
unfolding forget
forget_back p i k front c e =
    let found : lookup k p.elems ≡ some i =
      Indexed-last p.elems p.next i k front (subst (Indexed p.elems p.next) e c.indexed) in
    rw found (rw e (remove_last i k front (subst IsNodup e c.distinct)))

-- The memory without the keys of a list, of which the last has gone first.
abbrev pub evict_all : List (ℕ × Bytes) → Memory → Memory
evict_all [] s = s
evict_all ((i, k) ∷ l) s = evict k (evict_all l s)

-- Each key of the list had to go: without those behind it only, the entry did not fit.
abbrev pub HadToGo : ℕ → Memory → List (ℕ × Bytes) → Type 0
HadToGo needed s [] = Unit
HadToGo needed s (d ∷ l) = (over_budget needed (evict_all l s) ≡ true) × HadToGo needed s l

-- What the loop leaves, from `p` and `s`.
pub record MadeRoom (needed : ℕ) (p : Lru) (s : Memory) (q : Lru) (t : Memory) : Type 0 where
  pub consistent : IsConsistent q
  pub tracks : Tracks q t
  pub exact : IsExact t
  pub budget : t.budget ≡ s.budget
  -- the keys dropped were at the back of the list
  pub dropped : List (ℕ × Bytes)
  pub order : p.order ≡ q.order ++ dropped
  pub kept :
      (j : Bytes) → lookup j t.records ≡ (if has_key j dropped then none else lookup j s.records)
  pub rest : t ≡ evict_all dropped s
  pub had_to_go : HadToGo needed s dropped
  pub room : (over_budget needed t ≡ false) ⊎ (q.order ≡ [])

MadeRoom-stop :
    (needed : ℕ) (p : Lru) (s : Memory)
    → IsConsistent p
    → Tracks p s
    → IsExact s
    → (over_budget needed s ≡ false) ⊎ (p.order ≡ [])
    → MadeRoom needed p s p s
MadeRoom-stop needed p s c t x r = record {
  consistent = c;
  tracks = t;
  exact = x;
  budget = refl;
  dropped = [];
  order = sym (append-nil p.order);
  kept = λ j. unfold has_key in refl;
  rest = refl;
  had_to_go = tt;
  room = r;
}

-- one more key dropped, in front of the others
kept-append :
    (i : ℕ) (k j : Bytes) (s : Memory) (l : List (ℕ × Bytes))
    → (if has_key j l then none else lookup j (evict k s).records)
      ≡ (if has_key j (l ++ ((i, k) ∷ [])) then none else lookup j s.records)
unfolding has_key
kept-append i k j s [] = rw (lookup-evict k j s) (ground arith)
kept-append i k j s ((a, b) ∷ l) = ground (arith, kept-append i k j s l)

evict_all-append :
    (i : ℕ) (k : Bytes) (s : Memory) (l : List (ℕ × Bytes))
    → evict_all l (evict k s) ≡ evict_all (l ++ ((i, k) ∷ [])) s
evict_all-append i k s [] = refl
evict_all-append i k s ((a, b) ∷ l) = ap (evict b) (evict_all-append i k s l)

HadToGo-append :
    (needed i : ℕ) (k : Bytes) (s : Memory) (l : List (ℕ × Bytes))
    → over_budget needed s ≡ true
    → HadToGo needed (evict k s) l
    → HadToGo needed s (l ++ ((i, k) ∷ []))
HadToGo-append needed i k s [] over h = (over, tt)
HadToGo-append needed i k s (d ∷ l) over h = (
  ap (over_budget needed) (sym (evict_all-append i k s l)) ∙ h.0,
  HadToGo-append needed i k s l over h.1,
)

MadeRoom-step :
    (needed : ℕ) (p : Lru) (s : Memory) (q : Lru) (t : Memory) (i : ℕ) (k : Bytes)
    → p.order ≡ (forget k p).order ++ ((i, k) ∷ [])
    → over_budget needed s ≡ true
    → MadeRoom needed (forget k p) (evict k s) q t
    → MadeRoom needed p s q t
MadeRoom-step needed p s q t i k e over m = record {
  consistent = m.consistent;
  tracks = m.tracks;
  exact = m.exact;
  budget = m.budget ∙ budget-evict k s;
  dropped = m.dropped ++ ((i, k) ∷ []);
  order = e ∙ ap (λ o. o ++ ((i, k) ∷ [])) m.order ∙ append_assoc q.order m.dropped ((i, k) ∷ []);
  kept = λ j. m.kept j ∙ kept-append i k j s m.dropped;
  rest = m.rest ∙ evict_all-append i k s m.dropped;
  had_to_go = HadToGo-append needed i k s m.dropped over m.had_to_go;
  room = m.room;
}

-- With fuel for each element of the list, the loop of LRUEvict.BeforeWrite drops keys from the
-- back of the list, one after the other, and no others; each had to go, since the entry did not
-- fit while it was there; and in the end the entry fits or the list is empty. List, map and byte
-- counter stay consistent.
pub lru_make_room-MadeRoom :
    (fuel needed : ℕ) (p : Lru) (s : Memory)
    → length p.order ≤ fuel
    → IsConsistent p
    → Tracks p s
    → IsExact s
    → MadeRoom needed p s (lru_make_room fuel needed p s).0 (lru_make_room fuel needed p s).1
unfolding lru_make_room
lru_make_room-MadeRoom zero needed p s h c t x =
    MadeRoom-stop needed p s c t x (inr (empty p.order h))
  where
    empty : (o : List (ℕ × Bytes)) → length o ≤ 0 → o ≡ []
    empty [] h = refl
    empty (a ∷ o) h = absurd (omega arith)
lru_make_room-MadeRoom (suc fuel) needed p s h c t x = elim (Option-cases (back p.order)) [
  | inl e ↦ rw e (MadeRoom-stop needed p s c t x (inr (back-none p.order e)))
  | inr ((i, k), e) ↦ elim (Bool-cases (over_budget needed s)) [
    | inr fits ↦ rw (e, fits) (MadeRoom-stop needed p s c t x (inl fits))
    | inl over ↦
        let (front, split) = back_split p.order i k e in
        let rest : (forget k p).order ≡ front = forget_back p i k front c split in
        rw (e, over)
          (MadeRoom-step needed p s _ _ i k (split ∙ ap (λ o. o ++ ((i, k) ∷ [])) (sym rest)) over (
            lru_make_room-MadeRoom fuel needed (forget k p) (evict k s)
              (omega (
                arith,
                ap (length {A = ℕ × Bytes}) rest,
                ap (length {A = ℕ × Bytes}) split,
                length-append front ((i, k) ∷ []),
              ))
              (forget-IsConsistent k p c) (Tracks-forget k p s t) (evict-IsExact k s x)))
  ]
]

-- An empty list means an empty shard.
pub empty_of_order :
    (q : Lru) (t : Memory) → IsConsistent q → Tracks q t → q.order ≡ [] → t.records ≡ []
empty_of_order q t c tr e = empty_of_lookup t.records λ k. (tr k).0 (unlisted k)
  where
    unlisted : (k : Bytes) → lookup k q.elems ≡ none
    unlisted k = elim (Option-cases (lookup k q.elems)) [
      | inl f ↦ f
      | inr (i, f) ↦ absurd (subst (Listed i k) e (c.listed k i f))
    ]
