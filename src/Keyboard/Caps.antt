-- ===== src/Keyboard/Caps.antt =====
-- src/keyboard.c: caps lock and shift in `scancode_to_ascii`.
use kfs.Base.{
  ℕ, zero, suc, ◌≤◌, ◌<◌, ◌≡◌, refl, sym, ◌∙◌, inl, inr, arith, Bool, true, false, not, ◌&&◌, ◌||◌,
  ◌==◌, ==_iff, leb, if◌then◌else◌, Bool-cases, List, [], ◌∷◌, length, get_or,
}
use native.Mathlib.Decide.{ℕ_discrete, dec_lt}
use kfs.Keyboard.{KeyboardState, ascii_table, ascii_table_shift, scancode_to_ascii}

-- the keys of the letters: three rows
abbrev pub is_letter_key : ℕ → Bool
is_letter_key code =
    (leb 0x10 code && leb code 0x19)
    || (leb 0x1E code && leb code 0x26)
    || (leb 0x2C code && leb code 0x32)

abbrev flags : Bool → Bool → KeyboardState
flags shift caps = record {
  shift_pressed = shift;
  ctrl_pressed = false;
  caps_lock = caps;
  extended_key = false;
}

-- what caps lock does to the state of the shift key
abbrev pub capped_shift : ℕ → Bool → Bool
capped_shift code shift = if is_letter_key code then not shift else shift

abbrev all_below : ℕ → (ℕ → Bool) → Bool
all_below zero f = true
all_below (suc n) f = if f n then all_below n f else false

all_below-at : (n : ℕ) (f : ℕ → Bool) (i : ℕ) → all_below n f ≡ true → i < n → f i ≡ true
all_below-at zero f i h lt = absurd (omega arith)
all_below-at (suc n) f i h lt = elim (Bool-cases (f n)) [
  | inr fails ↦ absurd (cc (rw fails at h))
  | inl holds ↦ elim (ℕ_discrete i n) [
    | yes e ↦ rw e holds
    | no ne ↦ all_below-at n f i (rw holds at h) (omega arith)
  ]
]

get_or_behind : (xs : List ℕ) (i : ℕ) → length xs ≤ i → get_or xs i 0 ≡ 0
get_or_behind [] i h = refl
get_or_behind (x ∷ xs) zero h = absurd (omega arith)
get_or_behind (x ∷ xs) (suc i) h = get_or_behind xs i (omega arith)

agrees : Bool → ℕ → Bool
agrees shift code =
    scancode_to_ascii (flags shift true) code
    == scancode_to_ascii (flags (capped_shift code shift) false) code

tables_agree : (shift : Bool) → all_below 58 (agrees shift) ≡ true
unfolding scancode_to_ascii agrees
tables_agree true = refl
tables_agree false = refl

scancode_behind :
    (shift caps : Bool) (code : ℕ) → 58 ≤ code → scancode_to_ascii (flags shift caps) code ≡ 0
unfolding scancode_to_ascii
scancode_behind true true code h = rw (get_or_behind ascii_table_shift code h) refl
scancode_behind true false code h = get_or_behind ascii_table_shift code h
scancode_behind false true code h = rw (get_or_behind ascii_table code h) refl
scancode_behind false false code h = get_or_behind ascii_table code h

only_flags :
    (k : KeyboardState) (code : ℕ)
    → scancode_to_ascii k code ≡ scancode_to_ascii (flags k.shift_pressed k.caps_lock) code
unfolding scancode_to_ascii
only_flags k code = refl

-- With caps lock on, every key types what it types with caps lock off and the shift key reversed, if it
-- is the key of a letter, and else what it types with caps lock off.
pub scancode_to_ascii-capped_shift :
    (k : KeyboardState) (code : ℕ)
    → scancode_to_ascii (record k { caps_lock = true }) code
      ≡ scancode_to_ascii
          (record k { caps_lock = false; shift_pressed = capped_shift code k.shift_pressed })
          code
unfolding agrees
scancode_to_ascii-capped_shift k code =
    only_flags (record k { caps_lock = true }) code
    ∙ elim (dec_lt code 58) [
      | yes inside ↦
          (==_iff _ _).0
            (all_below-at 58 (agrees k.shift_pressed) code (tables_agree k.shift_pressed) inside)
      | no behind ↦
          scancode_behind k.shift_pressed true code (omega arith)
          ∙ sym (scancode_behind (capped_shift code k.shift_pressed) false code (omega arith))
    ]
    ∙ sym (
        only_flags
          (record k { caps_lock = false; shift_pressed = capped_shift code k.shift_pressed }) code)
