-- ===== src/Shell/Number.antt =====
-- src/shell.c and src/kprintf.c: `parse_hex_or_dec` on the output of `print_hex` and `print_decimal`.
use kfs.Base.{
  ℕ, zero, suc, ◌+◌, ◌-◌, ◌*◌, ◌/◌, ◌%◌, ◌^◌, ◌≤◌, ◌<◌, ◌≡◌, refl, ap, ◌∙◌, inl, inr, arith, List,
  [], ◌∷◌, true, false, ◌&&◌, ◌||◌, ◌==◌, leb, ltb, bit_or, ==-ne, Bool-cases,
}
use kfs.Machine.Bits.{bit_or-add}
use native.Mathlib.Nat.{pow-suc}
use native.Mathlib.Decide.{ℕ_discrete, dec_lt}
use kfs.Print.{digits_from, print_decimal, hex_digit, nibbles_from, print_hex}
use kfs.Shell.{is_decimal, parse_hex, parse_dec, parse_hex_or_dec, hex_value}

parse_dec-digit :
    (val n : ℕ) (s : List ℕ)
    → n < 10
    → val * 10 + n < 2 ^ 32
    → parse_dec val ((48 + n) ∷ s) ≡ parse_dec (val * 10 + n) s
unfolding parse_dec
parse_dec-digit val n s h k =
    let a : is_decimal (48 + n) ≡ true = ground arith in
    let b : (val * 10 % 2 ^ 32 + (48 + n - 48)) % 2 ^ 32 ≡ val * 10 + n = omega arith in
    rw (parse_dec, a) (ap (λ (v : ℕ). parse_dec v s) b)

parse_dec-digits_from :
    (fuel value : ℕ) (s : List ℕ)
    → value < 10 ^ fuel
    → value < 2 ^ 32
    → parse_dec 0 (digits_from fuel value s) ≡ parse_dec value s
unfolding digits_from
parse_dec-digits_from zero value s h k = ap (λ (v : ℕ). parse_dec v s) (omega arith)
parse_dec-digits_from (suc fuel) value s h k = elim (Bool-cases (value == 0)) [
  | inl z ↦
      let e : 0 ≡ value = ground arith in rw (digits_from, z) (ap (λ (v : ℕ). parse_dec v s) e)
  | inr nz ↦
      let e : value / 10 * 10 + value % 10 ≡ value = omega arith in
      rw (digits_from, nz)
        (parse_dec-digits_from fuel (value / 10) ((48 + value % 10) ∷ s)
            (omega (arith, pow-suc 10 fuel)) (omega arith)
          ∙ parse_dec-digit (value / 10) (value % 10) s (omega arith) (omega arith)
          ∙ ap (λ (v : ℕ). parse_dec v s) e)
]

hex_value-hex_digit :
    (n : ℕ) (f : ℕ → ℕ) (other : ℕ) → n < 16 → hex_value (hex_digit n) f other ≡ f n
hex_value-hex_digit n f other h = elim (dec_lt n 10) [
  | yes small ↦
      let a : ltb n 10 ≡ true = ground arith in
      let b : is_decimal (48 + n) ≡ true = ground arith in
      let e : 48 + n - 48 ≡ n = omega arith in rw (a, b) (ap f e)
  | no large ↦
      let a : ltb n 10 ≡ false = ground arith in
      let b : is_decimal (65 + n - 10) ≡ false = ground arith in
      let c : (leb 97 (65 + n - 10) && leb (65 + n - 10) 102) ≡ false = ground arith in
      let d : (leb 65 (65 + n - 10) && leb (65 + n - 10) 70) ≡ true = ground arith in
      let e : 10 + (65 + n - 10 - 65) ≡ n = omega arith in rw (a, b, c, d) (ap f e)
]

parse_hex-digit :
    (val n : ℕ) (s : List ℕ)
    → n < 16
    → val < 2 ^ 28
    → parse_hex val (hex_digit n ∷ s) ≡ parse_hex (val * 16 + n) s
unfolding parse_hex
parse_hex-digit val n s h k =
    let low : val * 16 % 2 ^ 32 ≡ val * 2 ^ 4 = omega arith in
    hex_value-hex_digit n (λ m. parse_hex (bit_or (val * 16 % 2 ^ 32) m) s) val h
    ∙ ap (λ (v : ℕ). parse_hex (bit_or v n) s) low
    ∙ ap (λ (v : ℕ). parse_hex v s) (bit_or-add 4 val n h)

parse_hex_next :
    (val n val' : ℕ) (s : List ℕ)
    → n < 16
    → val < 2 ^ 28
    → val * 16 + n ≡ val'
    → parse_hex val (hex_digit n ∷ s) ≡ parse_hex val' s
parse_hex_next val n val' s h k e = parse_hex-digit val n s h k ∙ ap (λ (v : ℕ). parse_hex v s) e

parse_hex-nibbles_from : (v : ℕ) → v < 2 ^ 32 → parse_hex 0 (nibbles_from 8 v) ≡ v
unfolding nibbles_from parse_hex
parse_hex-nibbles_from v h =
    parse_hex_next 0 (v / 2 ^ 28 % 16) (v / 2 ^ 28) (nibbles_from 7 v) (omega arith) (omega arith)
      (omega arith)
    ∙ parse_hex_next (v / 2 ^ 28) (v / 2 ^ 24 % 16) (v / 2 ^ 24) (nibbles_from 6 v) (omega arith)
        (omega arith) (omega arith)
    ∙ parse_hex_next (v / 2 ^ 24) (v / 2 ^ 20 % 16) (v / 2 ^ 20) (nibbles_from 5 v) (omega arith)
        (omega arith) (omega arith)
    ∙ parse_hex_next (v / 2 ^ 20) (v / 2 ^ 16 % 16) (v / 2 ^ 16) (nibbles_from 4 v) (omega arith)
        (omega arith) (omega arith)
    ∙ parse_hex_next (v / 2 ^ 16) (v / 2 ^ 12 % 16) (v / 2 ^ 12) (nibbles_from 3 v) (omega arith)
        (omega arith) (omega arith)
    ∙ parse_hex_next (v / 2 ^ 12) (v / 2 ^ 8 % 16) (v / 2 ^ 8) (nibbles_from 2 v) (omega arith)
        (omega arith) (omega arith)
    ∙ parse_hex_next (v / 2 ^ 8) (v / 2 ^ 4 % 16) (v / 2 ^ 4) (nibbles_from 1 v) (omega arith)
        (omega arith) (omega arith)
    ∙ parse_hex_next (v / 2 ^ 4) (v / 2 ^ 0 % 16) v [] (omega arith) (omega arith) (omega arith)

-- `parse_hex_or_dec` reads the output of `print_hex` as the word that was printed.
pub parse_hex_or_dec-print_hex : (v : ℕ) → v < 2 ^ 32 → parse_hex_or_dec (print_hex v) ≡ v
unfolding parse_hex_or_dec print_hex parse_hex
parse_hex_or_dec-print_hex v h = elim (ℕ_discrete v 0) [
  | yes z ↦ rw z refl
  | no nz ↦ rw (==-ne v 0 nz) (parse_hex-nibbles_from v h)
]

-- only digits
abbrev AreDigits : List ℕ → Type 0
AreDigits [] = Unit {0}
AreDigits (c ∷ s) = (48 ≤ c) × (c ≤ 57) × AreDigits s

digits_from-AreDigits :
    (fuel value : ℕ) (s : List ℕ) → AreDigits s → AreDigits (digits_from fuel value s)
unfolding digits_from
digits_from-AreDigits zero value s h = h
digits_from-AreDigits (suc fuel) value s h = elim (Bool-cases (value == 0)) [
  | inl z ↦ rw (digits_from, z) h
  | inr nz ↦
      rw (digits_from, nz)
        (digits_from-AreDigits fuel (value / 10) ((48 + value % 10) ∷ s)
          (omega arith, omega arith, h))
]

-- without a prefix for hexadecimal numbers, the number is read as a decimal one
parse_hex_or_dec-AreDigits : (s : List ℕ) → AreDigits s → parse_hex_or_dec s ≡ parse_dec 0 s
unfolding parse_hex_or_dec
parse_hex_or_dec-AreDigits [] h = refl
parse_hex_or_dec-AreDigits (c ∷ []) h = refl
parse_hex_or_dec-AreDigits (c ∷ d ∷ s) (lo, hi, (lo', hi', h)) =
    let a : (d == 120) ≡ false = ==-ne d 120 (omega arith) in
    let b : (d == 88) ≡ false = ==-ne d 88 (omega arith) in
    let e : ((c == 48) && ((d == 120) || (d == 88))) ≡ false = ground arith in rw e refl

-- `parse_hex_or_dec` reads the output of `print_decimal` for an `int` that is not negative as that
-- number: ten digits are enough for it.
pub parse_hex_or_dec-print_decimal : (v : ℕ) → v < 2 ^ 31 → parse_hex_or_dec (print_decimal v) ≡ v
unfolding print_decimal parse_hex_or_dec parse_dec
parse_hex_or_dec-print_decimal v h = elim (ℕ_discrete v 0) [
  | yes z ↦ rw z refl
  | no nz ↦
      let a : ltb v (2 ^ 31) ≡ true = ground arith in
      rw (==-ne v 0 nz, a)
        (parse_hex_or_dec-AreDigits (digits_from 10 v []) (digits_from-AreDigits 10 v [] tt)
          ∙ parse_dec-digits_from 10 v [] (omega arith) (omega arith))
]
