-- ===== src/Screen/Scroll.antt =====
-- src/screen.c: the loops of `screen_scroll` and `screen_clear`, and `screen_scroll` as a whole.
use kfs.Base.{ℕ, zero, suc, ◌+◌, ◌*◌, ◌≤◌, ◌<◌, ◌≡◌, refl, ◌∙◌, ◌⊎◌, arith, ==-refl, ==-ne}
use native.Mathlib.Decide.{ℕ_discrete}
use kfs.Screen.{
  Console, set_at, vga_entry, screen_width, fill_cells, copy_rows, screen_scroll,
  update_hardware_cursor,
}

fill_cells_outside :
    (left i v : ℕ) (vga : ℕ → ℕ) (j : ℕ)
    → (j < i) ⊎ (i + left ≤ j)
    → fill_cells left i v vga j ≡ vga j
unfolding fill_cells
fill_cells_outside zero i v vga j h = refl
fill_cells_outside (suc left) i v vga j h =
    fill_cells_outside left (i + 1) v (set_at vga i v) j (omega arith)
    ∙ rw (==-ne j i (omega arith)) refl

fill_cells_inside :
    (left i v : ℕ) (vga : ℕ → ℕ) (j : ℕ) → i ≤ j → j < i + left → fill_cells left i v vga j ≡ v
unfolding fill_cells
fill_cells_inside zero i v vga j lo hi = absurd (omega arith)
fill_cells_inside (suc left) i v vga j lo hi = elim (ℕ_discrete j i) [
  | yes e ↦
      fill_cells_outside left (i + 1) v (set_at vga i v) j (omega arith) ∙ rw (e, ==-refl i) refl
  | no ne ↦ fill_cells_inside left (i + 1) v (set_at vga i v) j (omega arith) (omega arith)
]

copy_rows_outside :
    (left i : ℕ) (vga : ℕ → ℕ) (j : ℕ) → (j < i) ⊎ (i + left ≤ j) → copy_rows left i vga j ≡ vga j
unfolding copy_rows
copy_rows_outside zero i vga j h = refl
copy_rows_outside (suc left) i vga j h =
    copy_rows_outside left (i + 1) (set_at vga i (vga (i + screen_width))) j (omega arith)
    ∙ rw (==-ne j i (omega arith)) refl

copy_rows_inside :
    (left i : ℕ) (vga : ℕ → ℕ) (j : ℕ)
    → i ≤ j
    → j < i + left
    → copy_rows left i vga j ≡ vga (j + screen_width)
unfolding copy_rows
copy_rows_inside zero i vga j lo hi = absurd (omega arith)
copy_rows_inside (suc left) i vga j lo hi = elim (ℕ_discrete j i) [
  | yes e ↦
      copy_rows_outside left (i + 1) (set_at vga i (vga (i + screen_width))) j (omega arith)
      ∙ rw (e, ==-refl i) refl
  | no ne ↦
      copy_rows_inside left (i + 1) (set_at vga i (vga (i + screen_width))) j (omega arith)
        (omega arith)
      ∙ rw (==-ne (j + screen_width) i (omega arith)) refl
]

-- What scrolling does to the cells.
pub record Scrolled (c c' : Console) : Type 0 where
  pub moved : (i : ℕ) → i < 24 * 80 → c'.vga i ≡ c.vga (i + 80)
  pub blank : (i : ℕ) → 24 * 80 ≤ i → i < 25 * 80 → c'.vga i ≡ vga_entry 32 c.screen.color
  pub beyond : (i : ℕ) → 25 * 80 ≤ i → c'.vga i ≡ c.vga i
  pub last_row : c'.screen.cursor_y ≡ 24

-- `screen_scroll` moves every row but the first up by one, blanks the last row in the colour of the
-- screen, writes nothing outside of the screen, and puts the cursor into the last row.
pub screen_scroll-Scrolled : (c : Console) → Scrolled c (screen_scroll c)
unfolding screen_scroll update_hardware_cursor
screen_scroll-Scrolled c =
    let up : ℕ → ℕ = copy_rows 1920 0 c.vga in
    let v : ℕ = vga_entry 32 c.screen.color in
    record {
      moved = λ i h.
          fill_cells_outside 80 1920 v up i (omega arith)
          ∙ copy_rows_inside 1920 0 c.vga i (omega arith) (omega arith);
      blank = λ i lo hi. fill_cells_inside 80 1920 v up i lo (omega arith);
      beyond = λ i h.
          fill_cells_outside 80 1920 v up i (omega arith)
          ∙ copy_rows_outside 1920 0 c.vga i (omega arith);
      last_row = refl;
    }
