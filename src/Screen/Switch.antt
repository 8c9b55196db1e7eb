-- ===== src/Screen/Switch.antt =====
-- src/screen.c: `switch_screen` and the way back.
use kfs.Base.{
  ℕ, ◌+◌, ◌*◌, ◌/◌, ◌%◌, ◌^◌, ◌<◌, ◌≡◌, ◌≢◌, refl, sym, arith, ◌==◌, ltb, leb, ==-refl, ==-ne, true,
  false,
}
use kfs.Screen.{Console, set_at, save_cells, load_cells, switch_screen, update_hardware_cursor}

saved_cell :
    (vga buffer : ℕ → ℕ) (old : ℕ → ℕ) (i : ℕ)
    → vga i < 2 ^ 16
    → i < 2000
    → load_cells (save_cells vga buffer) old i ≡ vga i
saved_cell vga buffer old i h k =
    let a : ltb i 2000 ≡ true = ground arith in
    let b : ltb (2 * i) 4000 ≡ true = ground arith in
    let c : ltb (2 * i + 1) 4000 ≡ true = ground arith in
    let d : (2 * i % 2 == 0) ≡ true = ground arith in
    let e : ((2 * i + 1) % 2 == 0) ≡ false = ground arith in
    let f : 2 * i / 2 ≡ i = omega arith in
    let g : (2 * i + 1) / 2 ≡ i = omega arith in rw (a, b, c, d, e, f, g) (omega arith)

-- the state after a switch, without the cursor
abbrev switched : ℕ → Console → Console
switched n c = update_hardware_cursor (record c {
  screen = c.others n;
  current = n;
  others =
      set_at c.others c.current (record c.screen { buffer = save_cells c.vga c.screen.buffer });
  vga = load_cells (c.others n).buffer c.vga;
})

switch_screen-there :
    (n : ℕ) (c : Console) → n < 3 → n ≢ c.current → switch_screen n c ≡ switched n c
unfolding switch_screen
switch_screen-there n c h ne =
    let a : leb 3 n ≡ false = ground arith in
    let b : (c.current == n) ≡ false = ==-ne c.current n (λ e. ne (sym e)) in rw (a, b) refl

-- A state after a switch to another screen and back.
pub record SwitchedBack (c c' : Console) : Type 0 where
  pub cells : (i : ℕ) → i < 2000 → c'.vga i ≡ c.vga i
  pub index : c'.current ≡ c.current
  pub same : record c'.screen { buffer = c.screen.buffer } ≡ c.screen
  pub overwritten : c'.screen.buffer ≡ save_cells c.vga c.screen.buffer

-- Switching to another of the three screens and back shows the same cells as before, with the cursor,
-- the colour and the position in the typed line as they were. The buffer, which held the typed line,
-- then holds the bytes of the cells.
pub switch_screen-SwitchedBack :
    (n : ℕ) (c : Console)
    → n < 3
    → c.current < 3
    → n ≢ c.current
    → ((i : ℕ) → i < 2000 → c.vga i < 2 ^ 16)
    → SwitchedBack c (switch_screen c.current (switch_screen n c))
unfolding switch_screen update_hardware_cursor
switch_screen-SwitchedBack n c h k ne cells =
    rw
      (
        switch_screen-there n c h ne,
        switch_screen-there c.current (switched n c) k (λ e. ne (sym e)),
      )
      (record {
        cells = λ i hi.
            rw (==-refl c.current)
              (saved_cell c.vga c.screen.buffer (switched n c).vga i (cells i hi) hi);
        index = refl;
        same = rw (==-refl c.current) refl;
        overwritten = rw (==-refl c.current) refl;
      })
