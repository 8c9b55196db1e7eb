-- ===== src/Screen/Cursor.antt =====
-- src/screen.c: the cursor after `screen_putchar` and `screen_putstring`.
use kfs.Base.{Bool-cases, ℕ, ◌≤◌, ◌<◌, ◌≡◌, refl, ◌⊎◌, inl, inr, arith, leb, List, [], ◌∷◌}
use kfs.Screen.{
  Console, put_cell, wrap_line, wrap_screen, screen_putchar, screen_putstring,
  update_hardware_cursor, screen_scroll,
}

-- The cursor is in a row of the screen, and in one of its columns or right behind the last one.
pub record InRows (c : Console) : Type 0 where
  pub column : c.screen.cursor_x ≤ 80
  pub row : c.screen.cursor_y < 25

screen_scroll-cursor :
    (c : Console)
    → ((screen_scroll c).screen.cursor_x ≡ c.screen.cursor_x)
      × ((screen_scroll c).screen.cursor_y ≡ 24)
unfolding screen_scroll update_hardware_cursor
screen_scroll-cursor c = (refl, refl)

put_cell-cursor :
    (ch : ℕ) (c : Console)
    → InRows c
    → ((put_cell ch c).screen.cursor_x ≤ 81)
      × ((put_cell ch c).screen.cursor_y ≤ 25)
      × (((put_cell ch c).screen.cursor_x ≤ 80) ⊎ ((put_cell ch c).screen.cursor_y < 25))
unfolding put_cell
put_cell-cursor ch c v = ground (arith, v.column, v.row)

wrap_line-cursor :
    (c : Console)
    → c.screen.cursor_y ≤ 25
    → (c.screen.cursor_x ≤ 80) ⊎ (c.screen.cursor_y < 25)
    → ((wrap_line c).screen.cursor_x ≤ 80) × ((wrap_line c).screen.cursor_y ≤ 25)
unfolding wrap_line
wrap_line-cursor c h k = ground arith

wrap_screen-InRows :
    (c : Console) → c.screen.cursor_x ≤ 80 → c.screen.cursor_y ≤ 25 → InRows (wrap_screen c)
unfolding wrap_screen
wrap_screen-InRows c h k = elim (Bool-cases (leb 25 c.screen.cursor_y)) [
  | inl full ↦
      let e = screen_scroll-cursor c in
      let f : wrap_screen c ≡ screen_scroll c = rw (wrap_screen, full) refl in
      rw f (record { column = omega (arith, e.0); row = omega (arith, e.1) })
  | inr fits ↦
      let f : wrap_screen c ≡ c = rw (wrap_screen, fits) refl in
      rw f (record { column = h; row = ground arith })
]

-- The same for one character.
pub screen_putchar-InRows : (ch : ℕ) (c : Console) → InRows c → InRows (screen_putchar ch c)
unfolding screen_putchar update_hardware_cursor
screen_putchar-InRows ch c v =
    let p = put_cell-cursor ch c v in
    let l = wrap_line-cursor (put_cell ch c) p.1 p.2 in
    let w = wrap_screen-InRows (wrap_line (put_cell ch c)) l.0 l.1 in
    record { column = w.column; row = w.row }

-- Any string leaves the cursor in a row of the screen, and in one of its columns or right behind the
-- last one, if it was there before.
pub screen_putstring-InRows :
    (str : List ℕ) (c : Console) → InRows c → InRows (screen_putstring str c)
unfolding screen_putstring
screen_putstring-InRows [] c v = v
screen_putstring-InRows (ch ∷ str) c v =
    screen_putstring-InRows str (screen_putchar ch c) (screen_putchar-InRows ch c v)
