-- ===== src/Memory/RoundTrip.antt =====
-- A size that is printed is read back, but for what the unit leaves out.
use keva.Prelude.{
  ℕ, zero, suc, ◌+◌, ◌-◌, ◌*◌, ◌/◌, ◌%◌, ◌^◌, ◌≤◌, ◌<◌, ◌≡◌, ◌≢◌, refl, ap, ◌∙◌, false, Bool-cases,
  ◌&&◌, inl, inr, some, List, [], ◌∷◌, ◌++◌, map, arith, All, All-append, Bytes, length,
  length-append, take, take-append, drop-append, bytes_eq, bytes_eq_refl, ltb, ltb→lt, lt→ltb,
  le→leb, leb, ◌==◌, if◌then◌else◌,
}
use native.Mathlib.Nat.{pow-suc}
use keva.Memory.{
  is_space, trim_left, trim_right, trim_space, upper, has_suffix, parse_digits, parse_uint,
  parse_int, suffixes, parse_suffixed, parse_memory_bytes, decimal, print_int, format_memory_bytes,
}

abbrev IsDigit : ℕ → Type 0
IsDigit c = (48 ≤ c) × (c ≤ 57)

decimal-IsDigit : (fuel n : ℕ) → All IsDigit (decimal fuel n)
unfolding decimal
decimal-IsDigit zero n = tt
decimal-IsDigit (suc fuel) n = elim (Bool-cases (ltb n 10)) [
  | inl e ↦ rw e ((omega arith, omega (arith, ltb→lt n 10 e)), tt)
  | inr e ↦ rw e (
      All-append IsDigit (decimal fuel (n / 10)) ((n % 10 + 48) ∷ [])
        (decimal-IsDigit fuel (n / 10)) ((omega arith, omega arith), tt))
]

-- Digits behind digits.
parse_digits-append :
    (s : Bytes) (acc n d : ℕ)
    → parse_digits acc s ≡ some n
    → d < 10
    → parse_digits acc (s ++ ((d + 48) ∷ [])) ≡ some (n * 10 + d)
unfolding parse_digits
parse_digits-append [] acc n d e small = ground arith
parse_digits-append (c ∷ s) acc n d e small = elim (Bool-cases (leb 48 c && leb c 57)) [
  | inl digit ↦ rw digit (parse_digits-append s (acc * 10 + (c - 48)) n d (rw digit at e) small)
  | inr other ↦ absurd (cc (rw other at e))
]

parse_digits-decimal : (fuel n : ℕ) → n < 10 ^ fuel → parse_digits 0 (decimal fuel n) ≡ some n
unfolding decimal parse_digits
parse_digits-decimal zero n h = ap some (omega (arith, h))
parse_digits-decimal (suc fuel) n h = elim (Bool-cases (ltb n 10)) [
  | inl e ↦ rw e (let k = ltb→lt n 10 e in ground arith)
  | inr e ↦ rw e (
      parse_digits-append (decimal fuel (n / 10)) 0 (n / 10) (n % 10)
        (parse_digits-decimal fuel (n / 10) shorter) (omega arith)
      ∙ ap some (omega arith))
]
  where
    shorter : n / 10 < 10 ^ fuel
    shorter = let p = pow-suc 10 fuel in omega (arith, h, p)

-- Text without spaces is not trimmed.
abbrev IsText : Bytes → Type 0
IsText = All (λ c. is_space c ≡ false)

trim_right-IsText : (s : Bytes) → IsText s → trim_right s ≡ s
unfolding trim_right
trim_right-IsText [] h = refl
trim_right-IsText (c ∷ []) h = rw h.0 refl
trim_right-IsText (c ∷ d ∷ s) h = rw (trim_right-IsText (d ∷ s) h.1) refl

trim_left-IsText : (s : Bytes) → IsText s → trim_left s ≡ s
unfolding trim_left
trim_left-IsText [] h = refl
trim_left-IsText (c ∷ s) h = rw h.0 refl

trim_space-IsText : (s : Bytes) → IsText s → trim_space s ≡ s
unfolding trim_space
trim_space-IsText s h = ap trim_right (trim_left-IsText s h) ∙ trim_right-IsText s h

digits-IsText : (s : Bytes) → All IsDigit s → IsText s
digits-IsText [] h = tt
digits-IsText (c ∷ s) h = (ground arith, digits-IsText s h.1)

upper-digits : (ds t : Bytes) → All IsDigit ds → map upper t ≡ t → map upper (ds ++ t) ≡ ds ++ t
upper-digits [] t h e = e
upper-digits (c ∷ ds) t h e =
    let same : upper c ≡ c = ground arith in
    ap (λ x. x ∷ map upper (ds ++ t)) same ∙ ap (◌∷◌ c) (upper-digits ds t h.1 e)

-- Digits, and a unit of two letters behind them.
module _ (ds : Bytes) (digits : All IsDigit ds) (t : Bytes) (two : length t ≡ 2)
    (capital : map upper t ≡ t) where
  cut : length (ds ++ t) - 2 ≡ length ds
  cut = omega (arith, length-append ds t, two)

  has_suffix-unit :
      (suffix : Bytes)
      → length suffix ≡ 2
      → has_suffix (map upper (ds ++ t)) suffix ≡ bytes_eq t suffix
  unfolding has_suffix
  has_suffix-unit suffix e = rw (
    upper-digits ds t digits capital,
    e,
    le→leb 2 (length (ds ++ t)) (omega (arith, length-append ds t, two)),
    cut,
    drop-append ds t,
  )

  number_before : take (length (ds ++ t) - 2) (ds ++ t) ≡ ds
  number_before = ap (λ k. take k (ds ++ t)) cut ∙ take-append ds t

parse_int-digits :
    (ds : Bytes) (n : ℕ)
    → ds ≢ []
    → All IsDigit ds
    → parse_digits 0 ds ≡ some n
    → n < 2 ^ 63
    → parse_int ds ≡ some n
unfolding parse_int parse_uint
parse_int-digits [] n some_digits h e small = absurd (some_digits refl)
parse_int-digits (c ∷ ds) n some_digits h e small =
    let minus : (c == 45) ≡ false = ground arith in
    let plus : (c == 43) ≡ false = ground arith in rw (minus, plus, e, lt→ltb n (2 ^ 63) small) refl

decimal-nonempty : (fuel n : ℕ) → decimal (suc fuel) n ≢ []
unfolding decimal
decimal-nonempty fuel n e = elim (Bool-cases (ltb n 10)) [
  | inl small ↦ cc (rw small at e)
  | inr big ↦ behind (decimal fuel (n / 10)) (rw big at e)
]
  where
    behind : (s : Bytes) → s ++ ((n % 10 + 48) ∷ []) ≢ []
    behind [] q = cc q
    behind (c ∷ s) q = cc q

-- `t` is the first of the suffixes that a text with this unit has.
data HasUnit (t : Bytes) (bits : ℕ) : List (Bytes × ℕ) → Type 0 where
  here : length t ≡ 2 → (rest : List (Bytes × ℕ)) → HasUnit t bits ((t, bits) ∷ rest)
  there :
      (suffix : Bytes) (b : ℕ) (rest : List (Bytes × ℕ))
      → length suffix ≡ 2
      → bytes_eq t suffix ≡ false
      → HasUnit t bits rest
      → HasUnit t bits ((suffix, b) ∷ rest)

-- A number with a unit, as it is printed.
module _ (n : ℕ) (small : n < 2 ^ 54) where
  abbrev ds : Bytes
  ds = print_int n

  digits : All IsDigit ds
  digits = decimal-IsDigit 19 n

  number : parse_int ds ≡ some n
  number =
      parse_int-digits ds n (decimal-nonempty 18 n) digits
        (parse_digits-decimal 19 n (omega (arith, small))) (omega (arith, small))

  trimmed : (t : Bytes) → IsText t → trim_space (ds ++ t) ≡ ds ++ t
  trimmed t h =
      trim_space-IsText (ds ++ t)
        (All-append (λ c. is_space c ≡ false) ds t (digits-IsText ds digits) h)

  read_unit :
      (t : Bytes) (bits : ℕ) (l : List (Bytes × ℕ))
      → length t ≡ 2
      → map upper t ≡ t
      → HasUnit t bits l
      → parse_suffixed l (ds ++ t) ≡ some (n * 2 ^ bits % 2 ^ 64)
  unfolding parse_suffixed
  read_unit t bits _ two capital (here e rest) =
      rw
        (
          has_suffix-unit ds digits t two capital t two,
          bytes_eq_refl t,
          two,
          number_before ds digits t two capital,
          trim_space-IsText ds (digits-IsText ds digits),
          number,
        )
        refl
  read_unit t bits _ two capital (there suffix b rest e other u) =
      rw (has_suffix-unit ds digits t two capital suffix e, other)
        (read_unit t bits rest two capital u)

  read_printed :
      (t : Bytes) (bits : ℕ)
      → length t ≡ 2
      → map upper t ≡ t
      → IsText t
      → HasUnit t bits suffixes
      → parse_memory_bytes (ds ++ t) ≡ some (n * 2 ^ bits % 2 ^ 64)
  unfolding parse_memory_bytes
  read_printed t bits two capital text u =
      ap (parse_suffixed suffixes) (trimmed t text) ∙ read_unit t bits suffixes two capital u

-- The bits that a printed size leaves out.
abbrev pub unit_bits : ℕ → ℕ
unit_bits b =
    if leb (2 ^ 40) b then 40 else if leb (2 ^ 30) b then 30 else if leb (2 ^ 20) b then 20 else 10

-- A size of 1 KB or more is read back from what FormatMemoryBytes prints, less the part below its
-- unit.
pub parse_memory_bytes-format_memory_bytes :
    (b : ℕ)
    → 2 ^ 10 ≤ b
    → b < 2 ^ 63
    → parse_memory_bytes (format_memory_bytes b) ≡ some (b / 2 ^ unit_bits b * 2 ^ unit_bits b)
unfolding format_memory_bytes bytes_eq
parse_memory_bytes-format_memory_bytes b large small =
    let nonzero : (b == 0) ≡ false = ground arith in
    rw nonzero (elim (Bool-cases (leb (2 ^ 40) b)) [
      | inl t ↦ rw t (
          read_printed (b / 2 ^ 40) (omega (arith, small)) (84 ∷ 66 ∷ []) 40 refl refl
            (refl, (refl, tt)) (here refl _)
          ∙ ap some (omega (arith, small)))
      | inr nt ↦ rw nt (elim (Bool-cases (leb (2 ^ 30) b)) [
        | inl g ↦ rw g (
            read_printed (b / 2 ^ 30) (omega (arith, small)) (71 ∷ 66 ∷ []) 30 refl refl
              (refl, (refl, tt)) (there _ _ _ refl refl (here refl _))
            ∙ ap some (omega (arith, small)))
        | inr ng ↦ rw ng (elim (Bool-cases (leb (2 ^ 20) b)) [
          | inl m ↦ rw m (
              read_printed (b / 2 ^ 20) (omega (arith, small)) (77 ∷ 66 ∷ []) 20 refl refl
                (refl, (refl, tt)) (there _ _ _ refl refl (there _ _ _ refl refl (here refl _)))
              ∙ ap some (omega (arith, small)))
          | inr nm ↦
              rw (nm, le→leb (2 ^ 10) b large)
                (read_printed (b / 2 ^ 10) (omega (arith, small)) (75 ∷ 66 ∷ []) 10 refl refl
                    (refl, (refl, tt))
                    (there _ _ _ refl refl
                      (there _ _ _ refl refl (there _ _ _ refl refl (here refl _))))
                  ∙ ap some (omega (arith, small)))
        ])
      ])
    ])
