-- ===== src/Memory.antt =====
-- utils/memory_bytes.go: sizes of memory, read and printed; and the functions of Go's strconv and
-- strings that it and config/load_config.go call, on ASCII text.
pub mod RoundTrip
use keva.Prelude.{
  ℕ, zero, suc, ◌+◌, ◌-◌, ◌*◌, ◌/◌, ◌%◌, ◌^◌, Bool, true, false, ◌&&◌, ◌||◌, Option, none, some,
  List, [], ◌∷◌, ◌++◌, map, Bytes, length, take, drop, ltb, leb, ◌==◌, bytes_eq, if◌then◌else◌,
}
use keva.Int64.{gt64}

-- `unicode.IsSpace` on ASCII
abbrev pub is_space : ℕ → Bool
is_space c = (leb 9 c && leb c 13) || (c == 32)

unfoldable pub trim_left : Bytes → Bytes
trim_left [] = []
trim_left (c ∷ s) = if is_space c then trim_left s else c ∷ s

abbrev pub trim_cons : ℕ → Bytes → Bytes
trim_cons c [] = if is_space c then [] else c ∷ []
trim_cons c (d ∷ s) = c ∷ d ∷ s

unfoldable pub trim_right : Bytes → Bytes
trim_right [] = []
trim_right (c ∷ s) = trim_cons c (trim_right s)

-- `strings.TrimSpace`
unfoldable pub trim_space : Bytes → Bytes
unfolding trim_left trim_right
trim_space s = trim_right (trim_left s)

abbrev pub upper : ℕ → ℕ
upper c = if leb 97 c && leb c 122 then c - 32 else c

abbrev pub lower : ℕ → ℕ
lower c = if leb 65 c && leb c 90 then c + 32 else c

-- `strings.HasSuffix`
unfoldable pub has_suffix : Bytes → Bytes → Bool
has_suffix s suffix =
    leb (length suffix) (length s) && bytes_eq (drop (length s - length suffix) s) suffix

-- The value of digits behind those that make `acc`; none at another character.
unfoldable pub parse_digits : ℕ → Bytes → Option ℕ
parse_digits acc [] = some acc
parse_digits acc (c ∷ s) =
    if leb 48 c && leb c 57 then parse_digits (acc * 10 + (c - 48)) s else none

-- `strconv.ParseUint(s, 10, …)`, for results below `bound`; its errors are all treated alike.
abbrev pub below : ℕ → Option ℕ → Option ℕ
below bound none = none
below bound (some n) = if ltb n bound then some n else none

unfoldable pub parse_uint : ℕ → Bytes → Option ℕ
unfolding parse_digits
parse_uint bound [] = none
parse_uint bound (c ∷ s) = below bound (parse_digits 0 (c ∷ s))

abbrev pub negated : Option ℕ → Option ℕ
negated none = none
negated (some n) = some ((2 ^ 64 - n) % 2 ^ 64)

-- `strconv.ParseInt(s, 10, 64)` and `strconv.Atoi`: the 64-bit pattern.
unfoldable pub parse_int : Bytes → Option ℕ
unfolding parse_uint
parse_int [] = none
parse_int (c ∷ s) =
    if c == 45
    then negated (parse_uint (2 ^ 63 + 1) s)
    else if c == 43
    then parse_uint (2 ^ 63) s
    else parse_uint (2 ^ 63) (c ∷ s)

-- The suffixes in the order in which they are tried, with the bits of their units.
abbrev pub suffixes : List (Bytes × ℕ)
suffixes =
    (84 ∷ 66 ∷ [], 40)
    ∷ (71 ∷ 66 ∷ [], 30)
    ∷ (77 ∷ 66 ∷ [], 20)
    ∷ (75 ∷ 66 ∷ [], 10)
    ∷ (84 ∷ [], 40)
    ∷ (71 ∷ [], 30)
    ∷ (77 ∷ [], 20)
    ∷ (75 ∷ [], 10)
    ∷ []

-- `n * e.mult`, which wraps
abbrev pub scaled : ℕ → Option ℕ → Option ℕ
scaled bits none = none
scaled bits (some n) = some (n * 2 ^ bits % 2 ^ 64)

unfoldable pub parse_suffixed : List (Bytes × ℕ) → Bytes → Option ℕ
unfolding trim_space has_suffix parse_int
parse_suffixed [] s = parse_int s
parse_suffixed ((suffix, bits) ∷ rest) s =
    if has_suffix (map upper s) suffix
    then scaled bits (parse_int (trim_space (take (length s - length suffix) s)))
    else parse_suffixed rest s

-- `ParseMemoryBytes`
unfoldable pub parse_memory_bytes : Bytes → Option ℕ
unfolding trim_space parse_suffixed
parse_memory_bytes s = parse_suffixed suffixes (trim_space s)

-- `%d` of a number that is not negative; `fuel` is its number of digits at least.
unfoldable pub decimal : ℕ → ℕ → Bytes
decimal zero n = []
decimal (suc fuel) n =
    let front = decimal fuel (n / 10) in
    if ltb n 10 then (n + 48) ∷ [] else front ++ ((n % 10 + 48) ∷ [])

-- An `int64` has at most 19 digits.
abbrev pub print_int : ℕ → Bytes
print_int n = decimal 19 n

-- "unlimited"
abbrev pub unlimited : Bytes
unlimited = 117 ∷ 110 ∷ 108 ∷ 105 ∷ 109 ∷ 105 ∷ 116 ∷ 101 ∷ 100 ∷ []

-- `FormatMemoryBytes` of a size that is not negative
unfoldable pub format_memory_bytes : ℕ → Bytes
unfolding decimal
format_memory_bytes b =
    if b == 0
    then unlimited
    else if leb (2 ^ 40) b
    then print_int (b / 2 ^ 40) ++ (84 ∷ 66 ∷ [])
    else if leb (2 ^ 30) b
    then print_int (b / 2 ^ 30) ++ (71 ∷ 66 ∷ [])
    else if leb (2 ^ 20) b
    then print_int (b / 2 ^ 20) ++ (77 ∷ 66 ∷ [])
    else if leb (2 ^ 10) b
    then print_int (b / 2 ^ 10) ++ (75 ∷ 66 ∷ [])
    else print_int b ++ (66 ∷ [])
