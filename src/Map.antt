-- ===== src/Map.antt =====
-- Go's `map[string]V` as an association list with one entry for each key. The order of the list is
-- no property of a Go map: where the program iterates over one, the order is an argument.
use keva.Prelude.{
  ℕ, ◌+◌, ◌≤◌, ◌≡◌, ◌⊎◌, inl, inr, refl, ap, sym, ◌∙◌, Bool-cases, Option, none, some, List, [],
  ◌∷◌, arith, Bytes, bytes_eq, bytes_eq_iff, bytes_eq→eq, bytes_eq_refl, if◌then◌else◌,
}

abbrev pub Map {ℓ} : Type ℓ → Type ℓ
Map V = List (Bytes × V)

module _ {ℓ} {V : Type ℓ} where
  unfoldable pub lookup : Bytes → Map V → Option V
  lookup k [] = none
  lookup k ((j, v) ∷ m) = if bytes_eq j k then some v else lookup k m

  -- `m[k] = v`
  unfoldable pub insert : Bytes → V → Map V → Map V
  insert k v [] = (k, v) ∷ []
  insert k v ((j, w) ∷ m) = if bytes_eq j k then (k, v) ∷ m else (j, w) ∷ insert k v m

  -- `delete(m, k)`
  unfoldable pub remove : Bytes → Map V → Map V
  remove k [] = []
  remove k ((j, v) ∷ m) = let rest = remove k m in if bytes_eq j k then rest else (j, v) ∷ rest

  pub lookup-insert :
      (k j : Bytes) (v : V) (m : Map V)
      → lookup j (insert k v m) ≡ (if bytes_eq k j then some v else lookup j m)
  unfolding lookup insert
  lookup-insert k j v [] = refl
  lookup-insert k j v ((i, w) ∷ m) =
      ground (arith, bytes_eq_iff k j, bytes_eq_iff i k, bytes_eq_iff i j, lookup-insert k j v m)

  pub lookup-remove :
      (k j : Bytes) (m : Map V)
      → lookup j (remove k m) ≡ (if bytes_eq k j then none else lookup j m)
  unfolding lookup remove
  lookup-remove k j [] = ground arith
  lookup-remove k j ((i, w) ∷ m) =
      ground (arith, bytes_eq_iff k j, bytes_eq_iff i k, bytes_eq_iff i j, lookup-remove k j m)

  pub lookup-insert_self : (k : Bytes) (v : V) (m : Map V) → lookup k (insert k v m) ≡ some v
  lookup-insert_self k v m = rw (lookup-insert k k v m, bytes_eq_refl k)

  pub lookup-remove_self : (k : Bytes) (m : Map V) → lookup k (remove k m) ≡ none
  lookup-remove_self k m = rw (lookup-remove k k m, bytes_eq_refl k)

  -- one entry for each key
  abbrev pub IsDistinct : Map V → Type ℓ
  IsDistinct [] = Unit {ℓ}
  IsDistinct ((k, v) ∷ m) = (lookup k m ≡ none) × IsDistinct m

  pub IsDistinct-remove : (k : Bytes) (m : Map V) → IsDistinct m → IsDistinct (remove k m)
  unfolding remove
  IsDistinct-remove k [] d = tt
  IsDistinct-remove k ((j, v) ∷ m) d = elim (Bool-cases (bytes_eq j k)) [
    | inl e ↦ rw e (IsDistinct-remove k m d.1)
    | inr e ↦ rw e (ground (arith, lookup-remove k j m, d.0), IsDistinct-remove k m d.1)
  ]

  pub IsDistinct-insert : (k : Bytes) (v : V) (m : Map V) → IsDistinct m → IsDistinct (insert k v m)
  unfolding insert
  IsDistinct-insert k v [] d = (unfold lookup in refl, tt)
  IsDistinct-insert k v ((j, w) ∷ m) d = elim (Bool-cases (bytes_eq j k)) [
    | inl e ↦ rw e (rw (bytes_eq→eq j k e) at d.0, d.1)
    | inr e ↦ rw e (
      ground (arith, lookup-insert k j v m, bytes_eq_iff k j, bytes_eq_iff j k, d.0),
      IsDistinct-insert k v m d.1,
    )
  ]

  -- removing what is not there
  pub remove_absent : (k : Bytes) (m : Map V) → lookup k m ≡ none → remove k m ≡ m
  unfolding lookup remove
  remove_absent k [] h = refl
  remove_absent k ((j, v) ∷ m) h = ground (arith, remove_absent k m)

  -- every entry that stands in the list is found
  pub lookup-head : (k : Bytes) (v : V) (m : Map V) → lookup k ((k, v) ∷ m) ≡ some v
  unfolding lookup
  lookup-head k v m = rw bytes_eq_refl

  -- the sum of a measure of the entries
  module _ (size : Bytes → V → ℕ) where
    unfoldable pub total : Map V → ℕ
    total [] = 0
    total ((k, v) ∷ m) = size k v + total m

    pub total-remove :
        (k : Bytes) (v : V) (m : Map V)
        → IsDistinct m
        → lookup k m ≡ some v
        → total (remove k m) + size k v ≡ total m
    unfolding lookup remove total
    total-remove k v [] d h = cc
    total-remove k v ((j, w) ∷ m) d h = elim (Bool-cases (bytes_eq j k)) [
      | inl e ↦
          rw (e, remove_absent k m (rw (bytes_eq→eq j k e) at d.0))
            (ground (arith, bytes_eq→eq j k e))
      | inr e ↦ rw e (ground (arith, total-remove k v m d.1))
    ]

    pub total-insert :
        (k : Bytes) (v : V) (m : Map V)
        → lookup k m ≡ none
        → total (insert k v m) ≡ total m + size k v
    unfolding lookup insert total
    total-insert k v [] h = omega arith
    total-insert k v ((j, w) ∷ m) h = ground (arith, total-insert k v m)

    -- a map that has some of the entries of another has a smaller sum
    pub total-le :
        (m n : Map V)
        → IsDistinct m
        → IsDistinct n
        → ((j : Bytes) → (lookup j m ≡ lookup j n) ⊎ (lookup j m ≡ none))
        → total m ≤ total n
    total-le [] n d e h = unfold total in omega arith
    total-le ((k, v) ∷ m) n d e h =
        let found : lookup k n ≡ some v = elim (h k) [
          | inl same ↦ sym same ∙ lookup-head k v m
          | inr gone ↦ absurd (cc (gone, lookup-head k v m))
        ] in
        omega (
          arith,
          total-remove k v n e found,
          total-le m (remove k n) d.1 (IsDistinct-remove k n e) behind,
          total-cons,
        )
      where
        total-cons : total ((k, v) ∷ m) ≡ size k v + total m
        total-cons = unfold total in refl

        behind : (j : Bytes) → (lookup j m ≡ lookup j (remove k n)) ⊎ (lookup j m ≡ none)
        behind j = elim (Bool-cases (bytes_eq k j)) [
          | inl q ↦ inr (ap (λ x. lookup x m) (sym (bytes_eq→eq k j q)) ∙ d.0)
          | inr q ↦
              let here : lookup j m ≡ lookup j ((k, v) ∷ m) = unfold lookup in rw q refl in
              elim (h j) [
                | inl same ↦ inl (here ∙ same ∙ rw (lookup-remove k j n, q))
                | inr gone ↦ inr (here ∙ gone)
              ]
        ]

  pub empty_of_lookup : (m : Map V) → ((k : Bytes) → lookup k m ≡ none) → m ≡ []
  empty_of_lookup [] h = refl
  empty_of_lookup ((k, v) ∷ m) h = cc (h k, lookup-head k v m)

pub ruleset map_laws = (lookup-insert, lookup-remove)
