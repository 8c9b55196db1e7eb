-- ===== src/Examples/Text.antt =====
-- Strings, numbers and command lines.
use kfs.Keyboard.{KeyboardState, scancode_to_ascii}
use kfs.Keyboard.Caps.{capped_shift, scancode_to_ascii-capped_shift}
use kfs.Base.{
  false, true, ◌==◌, ℕ, ◌+◌, ◌^◌, ◌<◌, ◌≡◌, ◌≢◌, refl, arith, List, [], ◌∷◌, ◌⊎◌, if◌then◌else◌,
}
use kfs.Machine.Mem.{Mem}
use kfs.Machine.Outcome.{ok}
use kfs.String.{memset, strlen, strcmp, strcpy, strcat, memcpy}
use kfs.String.Text.{IsText}
use kfs.String.Measure.{Compares, strlen-IsText, strcmp-Compares}
use kfs.String.Copy.{Copied, strcpy-Copied, strcat-Copied}
use kfs.String.Blocks.{Written, memcpy-Written, memset-Written}
use kfs.Print.{print_decimal, print_hex}
use kfs.Shell.{parse_hex_or_dec, shell_parse_args}
use kfs.Shell.Number.{parse_hex_or_dec-print_hex, parse_hex_or_dec-print_decimal}
use kfs.Shell.Args.{spaced, AreWords, shell_parse_args-spaced}

-- "ab" at 10 and "abc" at 20
abbrev texts : Mem
texts a =
    if a == 10
    then 97
    else if a == 11
    then 98
    else if a == 20
    then 97
    else if a == 21
    then 98
    else if a == 22
    then 99
    else 0

abbrev short_text : List ℕ
short_text = 97 ∷ 98 ∷ []

abbrev long_text : List ℕ
long_text = 97 ∷ 98 ∷ 99 ∷ []

short_text-IsText : IsText texts 10 short_text
short_text-IsText = (refl, omega arith, omega arith, (refl, omega arith, omega arith, refl))

long_text-IsText : IsText texts 20 long_text
long_text-IsText = (
  refl,
  omega arith,
  omega arith,
  (refl, omega arith, omega arith, (refl, omega arith, omega arith, refl)),
)

strlen-IsText_example : strlen 256 texts 20 ≡ ok 3
strlen-IsText_example = strlen-IsText 256 texts 20 long_text long_text-IsText (omega arith)

strcmp-Compares_example : Compares (strcmp 256 texts 10 20) short_text long_text
strcmp-Compares_example =
    strcmp-Compares 256 texts 10 20 short_text long_text short_text-IsText long_text-IsText
      (omega arith)

strcpy-Copied_example : (m' : Mem) × (strcpy 256 texts 30 20 ≡ ok m') × Copied texts 30 long_text m'
strcpy-Copied_example =
    strcpy-Copied 256 texts 30 20 long_text long_text-IsText (omega arith) (omega arith)

strcat-Copied_example :
    (m' : Mem) × (strcat 256 texts 10 20 ≡ ok m')
    × IsText m' 12 long_text
    × ((x : ℕ) → (x < 12) ⊎ (15 < x) → m' x ≡ texts x)
strcat-Copied_example =
    strcat-Copied 256 texts 10 20 short_text long_text short_text-IsText long_text-IsText
      (omega arith) (omega arith)

memset-Written_example : Written texts 20 5 (λ i. 0x41) (memset texts 20 0x141 5)
memset-Written_example = memset-Written 5 texts 20 0x141

texts-IsByte : (x : ℕ) → texts x < 2 ^ 8
texts-IsByte x = ground arith

memcpy-Written_example : Written texts 40 4 (λ i. texts (20 + i)) (memcpy texts 40 20 4)
memcpy-Written_example = memcpy-Written 4 texts 40 20 (omega arith) texts-IsByte

parse_hex_or_dec-print_hex_example : parse_hex_or_dec (print_hex 0xdead_beef) ≡ 0xdead_beef
parse_hex_or_dec-print_hex_example = parse_hex_or_dec-print_hex 0xdead_beef (omega arith)

parse_hex_or_dec-print_decimal_example : parse_hex_or_dec (print_decimal 1048560) ≡ 1048560
parse_hex_or_dec-print_decimal_example = parse_hex_or_dec-print_decimal 1048560 (omega arith)

-- "kfree 1"
abbrev words : List (List ℕ)
words = (107 ∷ 102 ∷ 114 ∷ 101 ∷ 101 ∷ []) ∷ (49 ∷ []) ∷ []

cons_ne : (c : ℕ) (w : List ℕ) → c ∷ w ≢ []
cons_ne c w e = cc

words-AreWords : AreWords words
words-AreWords =
    (cons_ne _ _, (refl, (refl, (refl, (refl, (refl, tt))))), (cons_ne _ _, (refl, tt), tt))

-- two blanks in front, and none behind
shell_parse_args-spaced_example : shell_parse_args (spaced 2 0 (1 ∷ []) words) ≡ words
shell_parse_args-spaced_example =
    shell_parse_args-spaced 2 0 (1 ∷ []) words words-AreWords (omega arith)

abbrev shifted : KeyboardState
shifted = record {
  shift_pressed = true;
  ctrl_pressed = false;
  caps_lock = false;
  extended_key = false;
}

-- the key of `a` with caps lock and shift
scancode_to_ascii-capped_shift_example :
    scancode_to_ascii (record shifted { caps_lock = true }) 0x1E
    ≡ scancode_to_ascii
        (record shifted { caps_lock = false; shift_pressed = capped_shift 0x1E true })
        0x1E
scancode_to_ascii-capped_shift_example = scancode_to_ascii-capped_shift shifted 0x1E
