-- ===== src/Print.antt =====
-- src/kprintf.c: the formatted output. A function returns the characters that it passes to
-- `screen_putchar`, in their order; strings are lists of characters, without the ending 0.
pub mod Format
use kfs.Base.{
  ℕ, zero, suc, ◌+◌, ◌-◌, ◌*◌, ◌/◌, ◌%◌, ◌^◌, ◌==◌, ltb, if◌then◌else◌, true, false, List, [], ◌∷◌,
  ◌++◌, Option, none, some,
}

-- the loop that fills `buffer` with the digits of `value`; the buffer is printed from its end
unfoldable pub digits_from : ℕ → ℕ → List ℕ → List ℕ
digits_from zero value buffer = buffer
digits_from (suc fuel) value buffer = elim (value == 0) [
  | true ↦ buffer
  | false ↦ digits_from fuel (value / 10) ((48 + value % 10) ∷ buffer)
]

-- `value` is the 32-bit word of the `int`. Negated, the least `int` stays negative, and the loop
-- prints no digit. Ten rounds are enough for any other.
unfoldable pub print_decimal : ℕ → List ℕ
print_decimal value =
    if value == 0
    then 48 ∷ []
    else if ltb value (2 ^ 31)
    then digits_from 10 value []
    else if value == 2 ^ 31
    then 45 ∷ []
    else 45 ∷ digits_from 10 (2 ^ 32 - value) []

abbrev pub hex_digit : ℕ → ℕ
hex_digit nibble = if ltb nibble 10 then 48 + nibble else 65 + nibble - 10

-- the loop from `i = left - 1` down to 0
unfoldable pub nibbles_from : ℕ → ℕ → List ℕ
nibbles_from zero value = []
nibbles_from (suc i) value = hex_digit (value / 2 ^ (i * 4) % 16) ∷ nibbles_from i value

unfoldable pub print_hex : ℕ → List ℕ
print_hex value = if value == 0 then 48 ∷ 120 ∷ 48 ∷ [] else 48 ∷ 120 ∷ nibbles_from 8 value

-- an argument behind the format
pub data Arg : Type 0 where
  string : List ℕ → Arg
  word : ℕ → Arg

-- one conversion: the characters and the arguments that are left; `none` where the argument is
-- missing or of another type
unfoldable pub convert : ℕ → List Arg → Option (List ℕ × List Arg)
convert c args =
    if c == 115
    then string_of args
    else if c == 99
    then word_of (λ v. (v % 2 ^ 8) ∷ []) args
    else if c == 100
    then word_of print_decimal args
    else if c == 120
    then word_of print_hex args
    else if c == 112
    then word_of print_hex args
    else if c == 37
    then some (37 ∷ [], args)
    else some ([], args)
  where
    string_of : List Arg → Option (List ℕ × List Arg)
    string_of (string s ∷ args) = some (s, args)
    string_of _ = none

    word_of : (ℕ → List ℕ) → List Arg → Option (List ℕ × List Arg)
    word_of f (word v ∷ args) = some (f v, args)
    word_of f _ = none

-- `none` also where the format ends in `%`: the loop then runs past the end of the format.
unfoldable pub kprintfv : List ℕ → List Arg → Option (List ℕ)
kprintfv [] args = some []
kprintfv (c ∷ []) args = if c == 37 then none else some (c ∷ [])
kprintfv (c ∷ d ∷ fmt) args = elim (c == 37) [
  | true ↦ elim (convert d args) [
    | none ↦ none
    | some r ↦ elim (kprintfv fmt r.1) [ none ↦ none | some out ↦ some (r.0 ++ out) ]
  ]
  | false ↦ elim (kprintfv (d ∷ fmt) args) [ none ↦ none | some out ↦ some (c ∷ out) ]
]
