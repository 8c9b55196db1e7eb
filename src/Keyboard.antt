-- ===== src/Keyboard.antt =====
-- src/keyboard.c: the tables of characters, `scancode_to_ascii`, the entries of the interrupt table,
-- and the commands for the interrupt controllers as the calls of `outb`, the last one first.
pub mod Caps
use kfs.Base.{ℕ, ◌+◌, ◌-◌, ◌/◌, ◌%◌, ◌^◌, leb, if◌then◌else◌, ◌&&◌, Bool, List, [], ◌∷◌, get_or}

-- The tables up to the last character that is given; the entries behind are 0.
abbrev pub ascii_table : List ℕ
ascii_table =
    0 ∷ 0 ∷ 49 ∷ 50 ∷ 51 ∷ 52 ∷ 53 ∷ 54 ∷ 55 ∷ 56 ∷ 57 ∷ 48 ∷ 45 ∷ 61 ∷ 8 ∷ 9 ∷ 113 ∷ 119 ∷ 101
    ∷ 114 ∷ 116 ∷ 121 ∷ 117 ∷ 105 ∷ 111 ∷ 112 ∷ 91 ∷ 93 ∷ 10 ∷ 0 ∷ 97 ∷ 115 ∷ 100 ∷ 102 ∷ 103 ∷ 104
    ∷ 106 ∷ 107 ∷ 108 ∷ 59 ∷ 39 ∷ 96 ∷ 0 ∷ 92 ∷ 122 ∷ 120 ∷ 99 ∷ 118 ∷ 98 ∷ 110 ∷ 109 ∷ 44 ∷ 46 ∷ 47
    ∷ 0 ∷ 42 ∷ 0 ∷ 32 ∷ []

abbrev pub ascii_table_shift : List ℕ
ascii_table_shift =
    0 ∷ 0 ∷ 33 ∷ 64 ∷ 35 ∷ 36 ∷ 37 ∷ 94 ∷ 38 ∷ 42 ∷ 40 ∷ 41 ∷ 95 ∷ 43 ∷ 8 ∷ 9 ∷ 81 ∷ 87 ∷ 69 ∷ 82
    ∷ 84 ∷ 89 ∷ 85 ∷ 73 ∷ 79 ∷ 80 ∷ 123 ∷ 125 ∷ 10 ∷ 0 ∷ 65 ∷ 83 ∷ 68 ∷ 70 ∷ 71 ∷ 72 ∷ 74 ∷ 75 ∷ 76
    ∷ 58 ∷ 34 ∷ 126 ∷ 0 ∷ 124 ∷ 90 ∷ 88 ∷ 67 ∷ 86 ∷ 66 ∷ 78 ∷ 77 ∷ 60 ∷ 62 ∷ 63 ∷ 0 ∷ 42 ∷ 0 ∷ 32
    ∷ []

-- the flags of `keyboard_state`, as conditions
pub record KeyboardState : Type 0 where
  pub shift_pressed : Bool
  pub ctrl_pressed : Bool
  pub caps_lock : Bool
  pub extended_key : Bool

unfoldable pub scancode_to_ascii : KeyboardState → ℕ → ℕ
scancode_to_ascii s scancode =
    let c : ℕ =
      if s.shift_pressed
      then get_or ascii_table_shift scancode 0
      else get_or ascii_table scancode 0 in
    if s.caps_lock && (leb 97 c && leb c 122)
    then c - 97 + 65
    else if s.caps_lock && (leb 65 c && leb c 90)
    then c - 65 + 97
    else c

pub record IdtEntry : Type 0 where
  pub base_lo : ℕ
  pub sel : ℕ
  pub always0 : ℕ
  pub flags : ℕ
  pub base_hi : ℕ

-- the entry that `idt_set_gate` writes
unfoldable pub idt_gate : ℕ → ℕ → ℕ → IdtEntry
idt_gate base sel flags = record {
  base_lo = base % 2 ^ 16;
  sel = sel;
  always0 = 0;
  flags = flags;
  base_hi = base / 2 ^ 16 % 2 ^ 16;
}

abbrev pub irq1 : ℕ
irq1 = 33

unfoldable pub pic_send_eoi : ℕ → List (ℕ × ℕ) → List (ℕ × ℕ)
pic_send_eoi irq ports = (0x20, 0x20) ∷ (if leb 8 irq then (0xA0, 0x20) ∷ ports else ports)
