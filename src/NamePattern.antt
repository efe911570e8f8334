-- ===== src/NamePattern.antt =====
-- src/meshprovision/name_pattern.py: name patterns with `{n}` slots, their compiler, and the names
-- that they render and parse.
pub mod Digits
mod Scanning
mod Compile
mod Folding
mod Tests
use meshprovision.Common.{
  ℕ, zero, suc, ◌+◌, ◌-◌, ◌*◌, ◌/◌, ◌%◌, ◌^◌, ◌<◌, Bool, true, false, not, ◌&&◌, ◌||◌, Option, none,
  some, List, [], ◌∷◌, ◌++◌, map, ltb, leb, ◌==◌ as nat_eq, if◌then◌else◌, length, drop, any,
  is_empty, Result, ok, err, ◌>>=◌, ◌>>◌,
}
use meshprovision.Common.Digits.{of_digits}
use meshprovision.Common.Text.{Text, codes, is_space, starts_with}
use meshprovision.Common.Equality.{◌==◌, ℕ_eq, Text_eq, mem}

-- TemplateValidationError and NamespaceExhaustedError, by the check that raises them.
pub data NameError : Type 0 where
  alphabet_empty alphabet_duplicates alphabet_space alphabet_braces : NameError
  alphabet_fold_length alphabet_fold_pairs : NameError
  pattern_empty out_of_fuel unsupported_placeholder unmatched_brace : NameError
  exhausted : ℕ → NameError

-- `literals` holds the text before, between and after the slots; `field` only names the setting
-- in messages.
pub record PatternSpec : Type 0 where
  pub pattern : Text
  pub alphabet : Text
  pub literals : List Text
  pub field : Text

unfoldable pub slot_count : PatternSpec → ℕ
slot_count spec = length spec.literals - 1

unfoldable pub capacity : PatternSpec → ℕ
unfolding slot_count
capacity spec = length spec.alphabet ^ slot_count spec

-- The loop of `divmod`, least significant digit first, with the reversal that follows it.
unfoldable pub digits_of : ℕ → ℕ → ℕ → List ℕ → List ℕ
digits_of base zero remaining acc = acc
digits_of base (suc slots) remaining acc =
    digits_of base slots (remaining / base) (remaining % base ∷ acc)

-- `alphabet[i]`; every index that is used is in range.
abbrev pub char_at : Text → ℕ → ℕ
char_at [] i = 0
char_at (c ∷ s) zero = c
char_at (c ∷ s) (suc i) = char_at s i

-- `literals[0]`, then a digit's character and the next literal, for each digit.
unfoldable pub interleave : List Text → Text → Text
interleave [] cs = []
interleave (l ∷ ls) [] = l
interleave (l ∷ ls) (c ∷ cs) = l ++ (c ∷ interleave ls cs)

unfoldable pub render_digits : PatternSpec → List ℕ → Text
render_digits spec ds = interleave spec.literals (map (char_at spec.alphabet) ds)

unfoldable pub render : PatternSpec → ℕ → Result NameError Text
unfolding render_digits capacity
render spec index =
    if leb (capacity spec) index
    then err (exhausted (capacity spec))
    else ok (render_digits spec (digits_of (length spec.alphabet) (slot_count spec) index []))

-- `name.startswith(prefix, pos)`, and what is left of the name behind the prefix.
unfoldable pub strip_prefix : Text → Text → Option Text
strip_prefix [] s = some s
strip_prefix (p ∷ ps) [] = none
strip_prefix (p ∷ ps) (c ∷ s) = if nat_eq p c then strip_prefix ps s else none

-- `alphabet.find(c)`, with `none` for -1.
unfoldable pub find : ℕ → Text → Option ℕ
find c [] = none
find c (a ∷ s) =
    if nat_eq a c then some 0 else elim (find c s) [ none ↦ none | some i ↦ some (suc i) ]

-- The digit at the head of what is left, and the rest.
unfoldable pub take_digit : Text → Option Text → Option (ℕ × Text)
take_digit alphabet none = none
take_digit alphabet (some []) = none
take_digit alphabet (some (c ∷ s)) = elim (find c alphabet) [ none ↦ none | some d ↦ some (d, s) ]

-- The name is used up when the last literal is read.
unfoldable pub trailing : Option Text → Option (List ℕ)
trailing none = none
trailing (some []) = some []
trailing (some (c ∷ s)) = none

unfoldable pub parse_digits : Text → List Text → Text → Option (List ℕ)
parse_digits alphabet [] name = none
parse_digits alphabet (l ∷ []) name = trailing (strip_prefix l name)
parse_digits alphabet (l ∷ l' ∷ ls) name = elim (take_digit alphabet (strip_prefix l name)) [
  | none ↦ none
  | some (d, rest) ↦ elim (parse_digits alphabet (l' ∷ ls) rest) [
    | none ↦ none
    | some ds ↦ some (d ∷ ds)
  ]
]

unfoldable pub parse_index : PatternSpec → Text → Option ℕ
unfolding parse_digits
parse_index spec name = elim (parse_digits spec.alphabet spec.literals name) [
  | none ↦ none
  | some ds ↦ some (of_digits (length spec.alphabet) 0 ds)
]

-- `if ch in seen: duplicates.add(ch)`
unfoldable pub has_duplicate : Text → Text → Bool
has_duplicate seen [] = false
has_duplicate seen (c ∷ s) = mem c seen || has_duplicate (c ∷ seen) s

-- `first_by_fold.setdefault(fold, ch)`: the first character with that fold.
unfoldable pub first_with : Text → ℕ → List (Text × ℕ) → ℕ
first_with fold ch [] = ch
first_with fold ch ((f, c) ∷ known) = if f == fold then c else first_with fold ch known

-- `str.casefold` of one character is Unicode's table, a parameter of the model.
module _ (fold : ℕ → Text) where
  unfoldable pub casefold : Text → Text
  casefold [] = []
  casefold (c ∷ s) = fold c ++ casefold s

  unfoldable pub has_fold_pair : List (Text × ℕ) → Text → Bool
  has_fold_pair known [] = false
  has_fold_pair known (c ∷ s) =
      not (nat_eq (first_with (fold c) c known) c) || has_fold_pair (known ++ (fold c, c) ∷ []) s

  unfoldable pub validate_alphabet_case_folding : Text → Result NameError (Unit {0})
  validate_alphabet_case_folding alphabet =
      if any (λ c. not (nat_eq (length (fold c)) 1)) alphabet
      then err alphabet_fold_length
      else if has_fold_pair [] alphabet
      then err alphabet_fold_pairs
      else ok tt

  unfoldable pub validate_alphabet : Text → Result NameError (Unit {0})
  unfolding validate_alphabet_case_folding
  validate_alphabet alphabet =
      if is_empty alphabet
      then err alphabet_empty
      else if has_duplicate [] alphabet
      then err alphabet_duplicates
      else if any is_space alphabet
      then err alphabet_space
      else if mem b'{' alphabet || mem b'}' alphabet
      then err alphabet_braces
      else validate_alphabet_case_folding alphabet

-- What stands at `pattern[i:]`: an escaped brace, a slot, a brace that is neither, or a character.
pub data Token : Type 0 where
  open_brace close_brace slot bad_open bad_close : Token
  plain : ℕ → Token

unfoldable pub next_token : ℕ → Text → Token
unfolding starts_with
next_token c s =
    if starts_with (codes "{{") (c ∷ s)
    then open_brace
    else if starts_with (codes "}}") (c ∷ s)
    then close_brace
    else if starts_with (codes "{n}") (c ∷ s)
    then slot
    else if nat_eq c b'{'
    then bad_open
    else if nat_eq c b'}'
    then bad_close
    else plain c

-- The `while` loop of `compile` over `pattern[i:]`, with the current literal and the literals that
-- are complete. Each round reads a character or more, so the pattern's length is fuel enough.
unfoldable pub scan : ℕ → Text → Text → List Text → Result NameError (List Text)
scan fuel [] literal literals = ok (literals ++ literal ∷ [])
scan zero (c ∷ s) literal literals = err out_of_fuel
scan (suc fuel) (c ∷ s) literal literals = elim (next_token c s) [
  | open_brace ↦ scan fuel (drop 1 s) (literal ++ b'{' ∷ []) literals
  | close_brace ↦ scan fuel (drop 1 s) (literal ++ b'}' ∷ []) literals
  | slot ↦ scan fuel (drop 2 s) [] (literals ++ literal ∷ [])
  | bad_open ↦ err unsupported_placeholder
  | bad_close ↦ err unmatched_brace
  | plain ch ↦ scan fuel s (literal ++ ch ∷ []) literals
]

-- `PatternSpec.compile`, behind the validation of the alphabet.
unfoldable pub compile_literals : Text → Text → Text → Result NameError PatternSpec
compile_literals pattern alphabet field = if is_empty pattern then err pattern_empty else do
  literals ← scan (length pattern) pattern [] []
  ok (record { pattern = pattern; alphabet = alphabet; literals = literals; field = field })

unfoldable pub compile : (ℕ → Text) → Text → Text → Text → Result NameError PatternSpec
compile fold pattern alphabet field =
    validate_alphabet fold alphabet >>= λ _. compile_literals pattern alphabet field

unfoldable pub ensure_capacity_available : PatternSpec → ℕ → Result NameError (Unit {0})
ensure_capacity_available spec used =
    if leb (capacity spec) used then err (exhausted (capacity spec)) else ok tt
