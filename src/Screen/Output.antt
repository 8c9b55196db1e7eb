-- ===== src/Screen/Output.antt =====
-- src/screen.c: what `screen_putstring` shows.
use kfs.Base.{
  bit_or, ap, ◌/◌, sym, ◌^◌, ◌%◌, subst, ℕ, ◌+◌, ◌*◌, ◌≤◌, ◌<◌, ◌≡◌, ◌≢◌, refl, ◌∙◌, arith, ==-ne,
  ==-refl, ltb, leb, false, List, [], ◌∷◌, length,
}
use kfs.Machine.Word.{add32}
use kfs.Machine.Bits.{bit_or-add, bit_or_comm}
use kfs.Screen.{
  Console, set_at, cell_at, vga_entry, put_cell, wrap_line, wrap_screen, screen_putchar,
  screen_putstring, update_hardware_cursor,
}

-- no line end and no backspace
abbrev pub IsPlain : List ℕ → Type 0
IsPlain [] = Unit {0}
IsPlain (ch ∷ str) = (ch ≢ 10) × (ch ≢ 8) × IsPlain str

-- the character in the low byte of a cell, and its colour in the high one
abbrev pub IsCell : ℕ → ℕ → ℕ → Type 0
IsCell cell ch color = (cell % 2 ^ 8 ≡ ch % 2 ^ 8) × (cell / 2 ^ 8 ≡ color % 2 ^ 8)

vga_entry-IsCell : (ch color : ℕ) → IsCell (vga_entry ch color) ch color
vga_entry-IsCell ch color =
    let high : color * 2 ^ 8 % 2 ^ 16 ≡ color % 2 ^ 8 * 2 ^ 8 = omega arith in
    let sum : vga_entry ch color ≡ color % 2 ^ 8 * 2 ^ 8 + ch % 2 ^ 8 =
      ap (bit_or (ch % 2 ^ 8)) high
      ∙ bit_or_comm (ch % 2 ^ 8) (color % 2 ^ 8 * 2 ^ 8)
      ∙ bit_or-add 8 (color % 2 ^ 8) (ch % 2 ^ 8) (omega arith) in
    (omega (arith, sum), omega (arith, sum))

-- the cells from `i` on show the text in a colour
abbrev pub HasCells : (ℕ → ℕ) → ℕ → ℕ → List ℕ → Type 0
HasCells vga color i [] = Unit {0}
HasCells vga color i (ch ∷ str) = IsCell (vga i) ch color × HasCells vga color (i + 1) str

-- What a text on the cursor's row does: its characters stand in the cells from the cursor on, the
-- cursor is behind them, and no other cell has changed.
pub record Shown (str : List ℕ) (c d : Console) : Type 0 where
  pub cells : HasCells d.vga c.screen.color (c.screen.cursor_y * 80 + c.screen.cursor_x) str
  pub column : d.screen.cursor_x ≡ c.screen.cursor_x + length str
  pub row : d.screen.cursor_y ≡ c.screen.cursor_y
  pub color : d.screen.color ≡ c.screen.color
  pub before : (i : ℕ) → i < c.screen.cursor_y * 80 + c.screen.cursor_x → d.vga i ≡ c.vga i
  pub behind :
      (i : ℕ) → c.screen.cursor_y * 80 + c.screen.cursor_x + length str ≤ i → d.vga i ≡ c.vga i

-- one character in the row
put : ℕ → Console → Console
put ch c = record c {
  screen = record c.screen { cursor_x = c.screen.cursor_x + 1 };
  vga = set_at c.vga (c.screen.cursor_y * 80 + c.screen.cursor_x) (vga_entry ch c.screen.color);
}

screen_putchar-put :
    (ch : ℕ) (c : Console)
    → ch ≢ 10
    → ch ≢ 8
    → c.screen.cursor_x < 80
    → c.screen.cursor_y < 25
    → screen_putchar ch c ≡ update_hardware_cursor (put ch c)
unfolding screen_putchar put_cell wrap_line wrap_screen put
screen_putchar-put ch c line_end back x y =
    let cell : cell_at c.screen.cursor_x c.screen.cursor_y
        ≡ c.screen.cursor_y * 80 + c.screen.cursor_x =
      omega arith in
    let next : add32 c.screen.cursor_x 1 ≡ c.screen.cursor_x + 1 = omega arith in
    let narrow : ltb 80 (c.screen.cursor_x + 1) ≡ false = ground arith in
    let high : leb 25 c.screen.cursor_y ≡ false = ground arith in
    rw (==-ne ch 10 line_end, ==-ne ch 8 back, next, narrow, high, cell) refl

Shown-cons :
    (ch : ℕ) (str : List ℕ) (c d : Console)
    → Shown str (update_hardware_cursor (put ch c)) d
    → Shown (ch ∷ str) c d
unfolding update_hardware_cursor put
Shown-cons ch str c d r =
    let at = c.screen.cursor_y * 80 + c.screen.cursor_x in
    let cell = vga_entry ch c.screen.color in
    let step : c.screen.cursor_y * 80 + (c.screen.cursor_x + 1) ≡ at + 1 = omega arith in
    let same : set_at c.vga at cell at ≡ cell = rw (==-refl at) refl in
    record {
      cells = (
        subst (λ x. IsCell x ch c.screen.color) (sym (r.before at (omega arith) ∙ same))
            (vga_entry-IsCell ch c.screen.color),
        subst (λ i. HasCells d.vga c.screen.color i str) step r.cells,
      );
      column = r.column ∙ omega arith;
      row = r.row;
      color = r.color;
      before = λ i h. r.before i (omega arith) ∙ rw (==-ne i at (omega arith)) refl;
      behind = λ i h. r.behind i (omega arith) ∙ rw (==-ne i at (omega arith)) refl;
    }

-- A text without line ends and backspaces that fits the rest of the cursor's row: from the cursor on,
-- each cell has the character in its low byte and the active colour in its high byte, the cursor is
-- behind them, and every other cell is as it was.
pub screen_putstring-Shown :
    (str : List ℕ) (c : Console)
    → IsPlain str
    → c.screen.cursor_x + length str ≤ 80
    → c.screen.cursor_y < 25
    → Shown str c (screen_putstring str c)
unfolding screen_putstring update_hardware_cursor put
screen_putstring-Shown [] c plain x y = record {
  cells = tt;
  column = omega arith;
  row = refl;
  color = refl;
  before = λ i h. refl;
  behind = λ i h. refl;
}
screen_putstring-Shown (ch ∷ str) c (line_end, back, plain) x y =
    let one = screen_putchar-put ch c line_end back (omega arith) y in
    rw one (
      Shown-cons ch str c _ (
        screen_putstring-Shown str (update_hardware_cursor (put ch c)) plain (omega arith)
          (omega arith)))
