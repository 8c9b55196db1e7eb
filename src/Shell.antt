-- ===== src/Shell.antt =====
-- src/shell.c: how a command line is taken apart, and how numbers in it are read. A string is the
-- list of its characters, without the ending 0.
pub mod Number
pub mod Args
use kfs.Base.{
  ℕ, zero, suc, ◌+◌, ◌-◌, ◌*◌, ◌/◌, ◌%◌, ◌^◌, bit_or, ◌==◌, ltb, leb, if◌then◌else◌, true, false,
  Bool, ◌&&◌, ◌||◌, List, [], ◌∷◌, ◌++◌,
}
use kfs.Machine.Word.{add32, mul32}

abbrev pub is_decimal : ℕ → Bool
is_decimal c = leb 48 c && leb c 57

-- the branches on a hexadecimal digit; `rest` takes the value of the digit
abbrev pub hex_value : {A : Type 0} → ℕ → (ℕ → A) → A → A
hex_value c digit other =
    if is_decimal c
    then digit (c - 48)
    else if leb 97 c && leb c 102
    then digit (10 + (c - 97))
    else if leb 65 c && leb c 70
    then digit (10 + (c - 65))
    else other

unfoldable pub parse_hex : ℕ → List ℕ → ℕ
parse_hex val [] = val
parse_hex val (c ∷ s) = hex_value c (λ n. parse_hex (bit_or (mul32 val 16) n) s) val

unfoldable pub parse_dec : ℕ → List ℕ → ℕ
parse_dec val [] = val
parse_dec val (c ∷ s) = elim (is_decimal c) [
  | true ↦ parse_dec (add32 (mul32 val 10) (c - 48)) s
  | false ↦ val
]

unfoldable pub parse_hex_or_dec : List ℕ → ℕ
parse_hex_or_dec (c ∷ d ∷ s) =
    if (c == 48) && ((d == 120) || (d == 88)) then parse_hex 0 s else parse_dec 0 (c ∷ d ∷ s)
parse_hex_or_dec s = parse_dec 0 s

abbrev pub shell_max_args : ℕ
shell_max_args = 16

abbrev pub is_blank : ℕ → Bool
is_blank c = (c == 32) || (c == 9)

-- `while (*token == ' ' || *token == '\t') token++`
unfoldable pub skip_blanks : List ℕ → List ℕ
skip_blanks [] = []
skip_blanks (c ∷ s) = elim (is_blank c) [ true ↦ skip_blanks s | false ↦ c ∷ s ]

-- the argument at the start of a text, and the text behind the separator that ends it
unfoldable pub take_word : List ℕ → List ℕ × List ℕ
take_word [] = ([], [])
take_word (c ∷ s) = elim (is_blank c) [
  | true ↦ ([], s)
  | false ↦ (c ∷ (take_word s).0, (take_word s).1)
]

-- The loop of `shell_parse_args`, by the arguments that there is still room for: the strings that
-- `argv` points to.
unfoldable pub args_from : ℕ → List ℕ → List (List ℕ)
args_from zero token = []
args_from (suc left) token = elim (skip_blanks token) [
  | [] ↦ []
  | c ∷ s ↦ (take_word (c ∷ s)).0 ∷ args_from left (take_word (c ∷ s)).1
]

unfoldable pub shell_parse_args : List ℕ → List (List ℕ)
shell_parse_args input = args_from (shell_max_args - 1) input
