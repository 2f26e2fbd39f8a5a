-- ===== src/Eviction/Consistency.antt =====
-- The list and the map of `LRUEvict` stay one-to-one.
use keva.Prelude.{
  ℕ, suc, ◌<◌, ◌≡◌, ◌≢◌, ◌⊎◌, inl, inr, ap, sym, subst, ◌∙◌, false, Bool-cases, none, some,
  Option-cases, List, [], ◌∷◌, arith, Bytes, ◌==◌, bytes_eq, bytes_eq_iff, bytes_eq→eq,
  bytes_eq_refl, ==→eq,
}
use keva.Map.{Map, lookup, insert, remove, lookup-insert, lookup-remove}
use keva.Eviction.{Lru, new_lru, remove_element, forget, push_front, move_to_front}

-- the element `i` with the key `k` stands in the list
abbrev pub Listed : ℕ → Bytes → List (ℕ × Bytes) → Type 0
Listed i k [] = ⊥
Listed i k ((j, l) ∷ o) = ((i ≡ j) × (k ≡ l)) ⊎ Listed i k o

-- no element of the list is `e`
abbrev pub Without : ℕ → List (ℕ × Bytes) → Type 0
Without e [] = Unit
Without e ((i, k) ∷ o) = (i ≢ e) × Without e o

abbrev pub IsNodup : List (ℕ × Bytes) → Type 0
IsNodup [] = Unit
IsNodup ((i, k) ∷ o) = Without i o × IsNodup o

-- every element of the list is the one that the map has for its key
abbrev pub Indexed : Map ℕ → ℕ → List (ℕ × Bytes) → Type 0
Indexed m next [] = Unit
Indexed m next ((i, k) ∷ o) = (lookup k m ≡ some i) × (i < next) × Indexed m next o

pub record IsConsistent (p : Lru) : Type 0 where
  pub distinct : IsNodup p.order
  pub indexed : Indexed p.elems p.next p.order
  pub listed : (k : Bytes) (i : ℕ) → lookup k p.elems ≡ some i → Listed i k p.order

pub IsConsistent-new_lru : IsConsistent new_lru
IsConsistent-new_lru = record {
  distinct = tt;
  indexed = tt;
  listed = λ k i e. unfold lookup in cc e;
}

Without-remove_element :
    (e d : ℕ) (o : List (ℕ × Bytes)) → Without d o → Without d (remove_element e o)
unfolding remove_element
Without-remove_element e d [] h = tt
Without-remove_element e d ((i, k) ∷ o) h = elim (Bool-cases (i == e)) [
  | inl t ↦ rw t h.1
  | inr t ↦ rw t (h.0, Without-remove_element e d o h.1)
]

IsNodup-remove_element : (e : ℕ) (o : List (ℕ × Bytes)) → IsNodup o → IsNodup (remove_element e o)
unfolding remove_element
IsNodup-remove_element e [] h = tt
IsNodup-remove_element e ((i, k) ∷ o) h = elim (Bool-cases (i == e)) [
  | inl t ↦ rw t h.1
  | inr t ↦ rw t (Without-remove_element e i o h.0, IsNodup-remove_element e o h.1)
]

-- the removed element is gone
Without-removed : (e : ℕ) (o : List (ℕ × Bytes)) → IsNodup o → Without e (remove_element e o)
unfolding remove_element
Without-removed e [] h = tt
Without-removed e ((i, k) ∷ o) h = elim (Bool-cases (i == e)) [
  | inl t ↦ rw t (subst (λ x. Without x o) (==→eq i e t) h.0)
  | inr t ↦ rw t (λ q. ground arith, Without-removed e o h.1)
]

Listed-remove_element :
    (e i : ℕ) (k : Bytes) (o : List (ℕ × Bytes))
    → i ≢ e
    → Listed i k o
    → Listed i k (remove_element e o)
unfolding remove_element
Listed-remove_element e i k [] ne h = h
Listed-remove_element e i k ((j, l) ∷ o) ne (inl q) = ground (arith, q, ne)
Listed-remove_element e i k ((j, l) ∷ o) ne (inr h) = elim (Bool-cases (j == e)) [
  | inl t ↦ rw t h
  | inr t ↦ rw t (inr (Listed-remove_element e i k o ne h))
]

-- Removing the element of a key, and the key, leaves the other elements indexed.
Indexed-remove :
    (m : Map ℕ) (key : Bytes) (e next : ℕ) (o : List (ℕ × Bytes))
    → lookup key m ≡ some e
    → Without e o
    → Indexed m next o
    → Indexed (remove key m) next o
Indexed-remove m key e next [] f w h = tt
Indexed-remove m key e next ((i, k) ∷ o) f w h =
    (other, h.1, Indexed-remove m key e next o f w.1 h.2)
  where
    other : lookup k (remove key m) ≡ some i
    other = rw (lookup-remove key k m) (ground (arith, bytes_eq_iff key k, h.0, f, w.0))

Indexed-remove_element :
    (m : Map ℕ) (e next : ℕ) (o : List (ℕ × Bytes))
    → Indexed m next o
    → Indexed m next (remove_element e o)
unfolding remove_element
Indexed-remove_element m e next [] h = tt
Indexed-remove_element m e next ((i, k) ∷ o) h = elim (Bool-cases (i == e)) [
  | inl t ↦ rw t h.2
  | inr t ↦ rw t (h.0, h.1, Indexed-remove_element m e next o h.2)
]

not-Listed : (e : ℕ) (k : Bytes) (o : List (ℕ × Bytes)) → Without e o → Listed e k o → ⊥
not-Listed e k [] w h = h
not-Listed e k ((i, l) ∷ o) w (inl q) = w.0 (sym q.0)
not-Listed e k ((i, l) ∷ o) w (inr h) = not-Listed e k o w.1 h

-- an element has one key
Listed-injective :
    (i : ℕ) (k l : Bytes) (o : List (ℕ × Bytes)) → IsNodup o → Listed i k o → Listed i l o → k ≡ l
Listed-injective i k l [] d h h' = absurd h
Listed-injective i k l ((j, x) ∷ o) d (inl q) (inl q') = q.1 ∙ sym q'.1
Listed-injective i k l ((j, x) ∷ o) d (inl q) (inr h) =
    absurd (not-Listed j l o d.0 (subst (λ y. Listed y l o) q.0 h))
Listed-injective i k l ((j, x) ∷ o) d (inr h) (inl q) =
    absurd (not-Listed j k o d.0 (subst (λ y. Listed y k o) q.0 h))
Listed-injective i k l ((j, x) ∷ o) d (inr h) (inr h') = Listed-injective i k l o d.1 h h'

lookup_behind_remove :
    (key k : Bytes) (j : ℕ) (m : Map ℕ)
    → lookup k (remove key m) ≡ some j
    → (bytes_eq key k ≡ false) × (lookup k m ≡ some j)
lookup_behind_remove key k j m f = elim (Bool-cases (bytes_eq key k)) [
  | inl t ↦ cc (rw (lookup-remove key k m, t) at f)
  | inr t ↦ (t, rw (lookup-remove key k m, t) at f)
]

pub forget-IsConsistent : (key : Bytes) (p : Lru) → IsConsistent p → IsConsistent (forget key p)
unfolding forget
forget-IsConsistent key p c = elim (Option-cases (lookup key p.elems)) [
  | inl e ↦ rw e c
  | inr (i, e) ↦ rw e (record {
    distinct = IsNodup-remove_element i p.order c.distinct;
    indexed =
        Indexed-remove p.elems key i p.next (remove_element i p.order) e
          (Without-removed i p.order c.distinct)
          (Indexed-remove_element p.elems i p.next p.order c.indexed);
    listed = λ k j f. still_listed i e k j f;
  })
]
  where
    still_listed :
        (i : ℕ)
        → lookup key p.elems ≡ some i
        → (k : Bytes) (j : ℕ) → lookup k (remove key p.elems) ≡ some j
        → Listed j k (remove_element i p.order)
    still_listed i e k j f =
        let (other, g) = lookup_behind_remove key k j p.elems f in
        Listed-remove_element i j k p.order
          (λ same.
            let one : key ≡ k =
              Listed-injective i key k p.order c.distinct (c.listed key i e)
                (subst (λ y. Listed y k p.order) same (c.listed k j g)) in
            cc (other, bytes_eq_refl k, ap (λ x. bytes_eq x k) one))
          (c.listed k j g)

-- all elements are older than `next`
Without-next : (m : Map ℕ) (next : ℕ) (o : List (ℕ × Bytes)) → Indexed m next o → Without next o
Without-next m next [] h = tt
Without-next m next ((i, k) ∷ o) h = (λ q. omega arith, Without-next m next o h.2)

-- a key that the map lacks is on no element, so that adding it leaves the others indexed
Indexed-insert :
    (m : Map ℕ) (key : Bytes) (next : ℕ) (o : List (ℕ × Bytes))
    → lookup key m ≡ none
    → Indexed m next o
    → Indexed (insert key next m) (suc next) o
Indexed-insert m key next [] f h = tt
Indexed-insert m key next ((i, k) ∷ o) f h =
    (other, omega (arith, h.1), Indexed-insert m key next o f h.2)
  where
    other : lookup k (insert key next m) ≡ some i
    other = rw (lookup-insert key k next m) (ground (arith, bytes_eq_iff key k, h.0, f))

-- The hook behind a write is called for a key that `BeforeWrite` has made the policy forget.
pub push_front-IsConsistent :
    (key : Bytes) (p : Lru)
    → lookup key p.elems ≡ none
    → IsConsistent p
    → IsConsistent (push_front key p)
unfolding push_front
push_front-IsConsistent key p fresh c = record {
  distinct = (Without-next p.elems p.next p.order c.indexed, c.distinct);
  indexed = (lookup_new, omega arith, Indexed-insert p.elems key p.next p.order fresh c.indexed);
  listed = listed_too;
}
  where
    lookup_new : lookup key (insert key p.next p.elems) ≡ some p.next
    lookup_new = rw (lookup-insert key key p.next p.elems, bytes_eq_refl key)

    listed_too :
        (k : Bytes) (i : ℕ)
        → lookup k (insert key p.next p.elems) ≡ some i
        → Listed i k ((p.next, key) ∷ p.order)
    listed_too k i f = elim (Bool-cases (bytes_eq key k)) [
      | inl t ↦
          let g : some p.next ≡ some i = rw (lookup-insert key k p.next p.elems, t) at f in
          inl (cc g, sym (bytes_eq→eq key k t))
      | inr t ↦ inr (c.listed k i (rw (lookup-insert key k p.next p.elems, t) at f))
    ]

-- A read keeps the list of an LRU policy and its map consistent.
pub move_to_front-IsConsistent :
    (key : Bytes) (p : Lru) → IsConsistent p → IsConsistent (move_to_front key p)
unfolding move_to_front
move_to_front-IsConsistent key p c = elim (Option-cases (lookup key p.elems)) [
  | inl e ↦ rw e c
  | inr (i, e) ↦ rw e (record {
    distinct = (Without-removed i p.order c.distinct, IsNodup-remove_element i p.order c.distinct);
    indexed = (
      e,
      older p.order c.indexed i (c.listed key i e),
      Indexed-remove_element p.elems i p.next p.order c.indexed,
    );
    listed = λ k j f. at_front i e k j f;
  })
]
  where
    older :
        (o : List (ℕ × Bytes)) → Indexed p.elems p.next o → (i : ℕ) → Listed i key o → i < p.next
    older [] h i l = absurd l
    older ((j, k) ∷ o) h i (inl q) = omega (arith, h.1, q.0)
    older ((j, k) ∷ o) h i (inr l) = older o h.2 i l

    at_front :
        (i : ℕ)
        → lookup key p.elems ≡ some i
        → (k : Bytes) (j : ℕ) → lookup k p.elems ≡ some j
        → Listed j k ((i, key) ∷ remove_element i p.order)
    at_front i e k j f = elim (Bool-cases (j == i)) [
      | inl t ↦
          let same : j ≡ i = ==→eq j i t in
          inl (
            same,
            Listed-injective i k key p.order c.distinct
                (subst (λ y. Listed y k p.order) same (c.listed k j f)) (c.listed key i e),
          )
      | inr t ↦ inr (Listed-remove_element i j k p.order (λ q. ground arith) (c.listed k j f))
    ]
