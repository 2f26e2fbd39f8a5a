-- ===== src/Cli/Words.antt =====
-- The words of a command, and the lines that a user may type.
use keva.Prelude.{
  ◌≡◌, ◌≢◌, ◌⊎◌, refl, ap, sym, ◌∙◌, true, false, not, ◌||◌, Bool-cases, inl, inr, List, [], ◌∷◌,
  ◌++◌, append-nil, map, All, Bytes, ℕ, bytes_eq, bytes_eq_refl, Outcome, ok, err, panic,
}
use keva.Memory.{is_space, trim_left, trim_cons, trim_right, trim_space, upper, lower}
use keva.Protocol.Message.{Message}
use keva.Cli.{
  begins_word, put_first, fields, join, CommandError, by_parts, get_command, set_command,
  del_command, parse_command, word_get, word_set, word_del, word_exit, word_quit, word_topology,
  line_of, crashed, read_line,
}

abbrev pub IsWord : Bytes → Type 0
IsWord w = (w ≢ []) × All (λ c. is_space c ≡ false) w

-- A letter before a word belongs to it.
fields_letter :
    (c : ℕ) (s : Bytes)
    → is_space c ≡ false
    → begins_word s ≡ true
    → fields (c ∷ s) ≡ put_first c (fields s)
unfolding fields
fields_letter c s e b = rw (e, b) refl

fields-word :
    (w rest : Bytes) → IsWord w → begins_word rest ≡ false → fields (w ++ rest) ≡ w ∷ fields rest
unfolding fields
fields-word [] rest h e = absurd (h.0 refl)
fields-word (c ∷ []) rest h e = rw (h.1.0, e) refl
fields-word (c ∷ d ∷ w) rest h e =
    fields_letter c (d ∷ (w ++ rest)) h.1.0 (ap not h.1.1.0)
    ∙ ap (put_first c) (fields-word (d ∷ w) rest ((λ q. cc q), h.1.1) e)

fields-join : (ws : List Bytes) → All IsWord ws → fields (join ws) ≡ ws
unfolding fields join
fields-join [] h = refl
fields-join (w ∷ []) h = ap fields (sym (append-nil w)) ∙ fields-word w [] h.0 refl
fields-join (w ∷ v ∷ ws) h =
    fields-word w (32 ∷ join (v ∷ ws)) h.0 refl ∙ ap (λ l. w ∷ l) (fields-join (v ∷ ws) h.1)

-- A command line of words with a space between them is parsed by those words.
parse_command-join :
    (name : Bytes) (parts : List Bytes)
    → All IsWord (name ∷ parts)
    → parse_command (join (name ∷ parts)) ≡ by_parts (name ∷ parts)
unfolding parse_command
parse_command-join name parts h = ap by_parts (fields-join (name ∷ parts) h)

-- What is left between spaces begins with a letter, if anything is left.
fields-nonempty : (c : ℕ) (s : Bytes) → is_space c ≡ false → fields (c ∷ s) ≢ []
unfolding fields
fields-nonempty c s e q = elim (Bool-cases (begins_word s)) [
  | inl b ↦ first (fields s) (rw (e, b) at q)
  | inr b ↦ cc (rw (e, b) at q)
]
  where
    first : (l : List Bytes) → put_first c l ≢ []
    first [] p = cc p
    first (w ∷ ws) p = cc p

trim_left-head :
    (s : Bytes)
    → (trim_left s ≡ [])
      ⊎ ((c : ℕ) × ((t : Bytes) × ((trim_left s ≡ c ∷ t) × (is_space c ≡ false))))
unfolding trim_left
trim_left-head [] = inl refl
trim_left-head (c ∷ s) = elim (Bool-cases (is_space c)) [
  | inl e ↦ rw e (trim_left-head s)
  | inr e ↦ rw e (inr (c, (s, (refl, e))))
]

fields-trim_space : (s : Bytes) → trim_space s ≢ [] → fields (trim_space s) ≢ []
unfolding trim_space trim_right
fields-trim_space s n = elim (trim_left-head s) [
  | inl e ↦ absurd (n (ap trim_right e))
  | inr (c, (t, (e, letter))) ↦ rw e (behind c letter (trim_right t))
]
  where
    behind : (c : ℕ) → is_space c ≡ false → (t : Bytes) → fields (trim_cons c t) ≢ []
    behind c e [] = rw e (fields-nonempty c [] e)
    behind c e (d ∷ t) = fields-nonempty c (d ∷ t) e

get_command-no_panic : (parts : List Bytes) → get_command parts ≢ panic
get_command-no_panic [] q = cc q
get_command-no_panic (key ∷ []) q = cc q
get_command-no_panic (key ∷ v ∷ vs) q = cc q

set_command-no_panic : (parts : List Bytes) → set_command parts ≢ panic
set_command-no_panic [] q = cc q
set_command-no_panic (key ∷ []) q = cc q
set_command-no_panic (key ∷ v ∷ vs) q = cc q

del_command-no_panic : (parts : List Bytes) → del_command parts ≢ panic
del_command-no_panic [] q = cc q
del_command-no_panic (key ∷ []) q = cc q
del_command-no_panic (key ∷ v ∷ vs) q = cc q

by_parts-no_panic : (parts : List Bytes) → parts ≢ [] → by_parts parts ≢ panic
by_parts-no_panic [] n = absurd (n refl)
by_parts-no_panic (name ∷ parts) n = elim (Bool-cases (bytes_eq (map upper name) word_get)) [
  | inl g ↦ rw g (get_command-no_panic parts)
  | inr ng ↦ elim (Bool-cases (bytes_eq (map upper name) word_set)) [
    | inl s ↦ rw (ng, s) (set_command-no_panic parts)
    | inr ns ↦ elim (Bool-cases (bytes_eq (map upper name) word_del)) [
      | inl d ↦ rw (ng, ns, d) (del_command-no_panic parts)
      | inr nd ↦ rw (ng, ns, nd) (λ q. cc q)
    ]
  ]
]

line_of-crashed : (r : Outcome CommandError Message) → r ≢ panic → line_of r ≢ crashed
line_of-crashed (ok msg) n q = cc q
line_of-crashed (err e) n q = cc q
line_of-crashed panic n q = n refl

-- No line that a user types makes the client look for a part that is not there.
pub read_line-no_crash : (input : Bytes) → read_line input ≢ crashed
unfolding read_line parse_command
read_line-no_crash input = elim (Bool-cases (bytes_eq command [])) [
  | inl e ↦ rw e (λ q. cc q)
  | inr e ↦
      elim (Bool-cases
        (bytes_eq (map lower command) word_exit || bytes_eq (map lower command) word_quit)) [
          | inl l ↦ rw (e, l) (λ q. cc q)
          | inr l ↦ elim (Bool-cases (bytes_eq (map lower command) word_topology)) [
            | inl t ↦ rw (e, l, t) (λ q. cc q)
            | inr t ↦
                rw (e, l, t)
                  (line_of-crashed (by_parts (fields command))
                    (by_parts-no_panic (fields command) (fields-trim_space input (some_left e))))
          ]
        ]
]
  where
    command : Bytes
    command = trim_space input

    some_left : bytes_eq (trim_space input) [] ≡ false → trim_space input ≢ []
    some_left e q = cc (sym e ∙ ap (λ x. bytes_eq x []) q ∙ bytes_eq_refl [])
