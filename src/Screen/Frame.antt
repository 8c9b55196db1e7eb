-- ===== src/Screen/Frame.antt =====
-- src/screen.c: what the functions on the active screen leave alone: which screen is active, the other
-- screens and, for the output, the length of the typed line and the place in it.
use kfs.Base.{
  ℕ, zero, suc, ◌+◌, ◌≡◌, refl, ◌∙◌, ◌==◌, ltb, leb, Bool-cases, inl, inr, List, [], ◌∷◌, ◌&&◌,
}
use kfs.Screen.{
  ScreenState, Console, screen_clear, screen_set_color, screen_scroll, put_cell, wrap_line,
  wrap_screen, screen_putchar, screen_putstring, update_hardware_cursor,
}
use kfs.Screen.Input.{
  place, fit_row, draw_cell, redraw_inserted, redraw_deleted, insert_text, delete_text,
  erase_inserted, erase_deleted, advance_cursor, follow_cursor, input_insert_char_at_cursor,
  input_delete_char_at_cursor, input_move_cursor_left, input_move_cursor_right,
}

-- the active screen's number, and the entries of the others
abbrev pub held : Console → ℕ × (ℕ → ScreenState)
held c = (c.current, c.others)

-- with the length of the typed line and the place in it
abbrev pub frame : Console → ℕ × (ℕ → ScreenState) × ℕ × ℕ
frame c = (c.current, c.others, c.screen.input_length, c.screen.input_cursor)

frame-screen_scroll : (c : Console) → frame (screen_scroll c) ≡ frame c
unfolding screen_scroll update_hardware_cursor
frame-screen_scroll c = refl

pub frame-screen_clear : (c : Console) → frame (screen_clear c) ≡ frame c
unfolding screen_clear update_hardware_cursor
frame-screen_clear c = refl

frame-put_cell : (ch : ℕ) (c : Console) → frame (put_cell ch c) ≡ frame c
unfolding put_cell
frame-put_cell ch c = elim (Bool-cases (ch == 10)) [
  | inl line_end ↦ rw line_end refl
  | inr other ↦ elim (Bool-cases (ch == 8)) [
    | inr plain ↦ rw (other, plain) refl
    | inl back ↦ elim (Bool-cases (ltb 0 c.screen.cursor_x)) [
      | inl inside ↦ rw (other, back, inside) refl
      | inr edge ↦ rw (other, back, edge) refl
    ]
  ]
]

frame-wrap_line : (c : Console) → frame (wrap_line c) ≡ frame c
unfolding wrap_line
frame-wrap_line c = elim (Bool-cases (ltb 80 c.screen.cursor_x)) [
  | inl full ↦ rw full refl
  | inr fits ↦ rw fits refl
]

frame-wrap_screen : (c : Console) → frame (wrap_screen c) ≡ frame c
unfolding wrap_screen
frame-wrap_screen c = elim (Bool-cases (leb 25 c.screen.cursor_y)) [
  | inl full ↦ rw full (frame-screen_scroll c)
  | inr fits ↦ rw fits refl
]

pub frame-screen_putchar : (ch : ℕ) (c : Console) → frame (screen_putchar ch c) ≡ frame c
unfolding screen_putchar update_hardware_cursor
frame-screen_putchar ch c =
    frame-wrap_screen (wrap_line (put_cell ch c))
    ∙ frame-wrap_line (put_cell ch c)
    ∙ frame-put_cell ch c

-- Printing a text leaves the typed line's length, the place in it and the other screens as they were.
pub frame-screen_putstring : (str : List ℕ) (c : Console) → frame (screen_putstring str c) ≡ frame c
unfolding screen_putstring
frame-screen_putstring [] c = refl
frame-screen_putstring (ch ∷ str) c =
    frame-screen_putstring str (screen_putchar ch c) ∙ frame-screen_putchar ch c

held-fit_row : (y : ℕ) (c : Console) → held (fit_row y c).1 ≡ held c
unfolding fit_row screen_scroll update_hardware_cursor
held-fit_row y c = elim (Bool-cases (leb 25 y)) [
  | inr fits ↦ rw fits refl
  | inl full ↦ rw full (elim (Bool-cases (ltb 0 c.screen.input_start_y)) [
    | inl some_left ↦ rw some_left refl
    | inr top ↦ rw top refl
  ])
]

held-draw_cell : (x y ch : ℕ) (c : Console) → held (draw_cell x y ch c) ≡ held c
unfolding draw_cell
held-draw_cell x y ch c = elim (Bool-cases (ltb y 25)) [
  | inl inside ↦ rw inside refl
  | inr below ↦ rw below refl
]

held-redraw_inserted : (left i : ℕ) (c : Console) → held (redraw_inserted left i c) ≡ held c
unfolding redraw_inserted
held-redraw_inserted zero i c = refl
held-redraw_inserted (suc left) i c =
    held-redraw_inserted left (i + 1) _
    ∙ held-draw_cell (place i c.screen).0 (fit_row (place i c.screen).1 c).0 _
        (fit_row (place i c.screen).1 c).1
    ∙ held-fit_row (place i c.screen).1 c

held-redraw_deleted : (left i : ℕ) (c : Console) → held (redraw_deleted left i c) ≡ held c
unfolding redraw_deleted
held-redraw_deleted zero i c = refl
held-redraw_deleted (suc left) i c =
    held-redraw_deleted left (i + 1) _
    ∙ held-draw_cell (place i c.screen).0 (place i c.screen).1 _ c

held-erase_inserted : (c : Console) → held (erase_inserted c) ≡ held c
unfolding erase_inserted
held-erase_inserted c =
    let p = place c.screen.input_length c.screen in
    held-draw_cell p.0 (fit_row p.1 c).0 32 (fit_row p.1 c).1 ∙ held-fit_row p.1 c

held-advance_cursor : (c : Console) → held (advance_cursor c) ≡ held c
unfolding advance_cursor update_hardware_cursor
held-advance_cursor c = held-fit_row _ _

held-follow_cursor : (c : Console) → held (follow_cursor c) ≡ held c
unfolding follow_cursor update_hardware_cursor
held-follow_cursor c = refl

pub held-input_insert_char_at_cursor :
    (ch : ℕ) (c : Console) → held (input_insert_char_at_cursor ch c) ≡ held c
unfolding input_insert_char_at_cursor
held-input_insert_char_at_cursor ch c = elim (Bool-cases (leb 32 ch && leb ch 126)) [
  | inr odd ↦ rw odd refl
  | inl printable ↦ elim (Bool-cases (ltb c.screen.input_length 3999)) [
    | inr full ↦ rw (printable, full) refl
    | inl room ↦
        rw (printable, room)
          (held-advance_cursor _
            ∙ held-erase_inserted _
            ∙ held-redraw_inserted _ _ (record c { screen = insert_text ch c.screen }))
  ]
]

pub held-input_delete_char_at_cursor : (c : Console) → held (input_delete_char_at_cursor c) ≡ held c
unfolding input_delete_char_at_cursor erase_deleted
held-input_delete_char_at_cursor c =
    elim (Bool-cases (ltb 0 c.screen.input_cursor && ltb 0 c.screen.input_length)) [
      | inr start ↦ rw start refl
      | inl some_left ↦ rw some_left (
          held-follow_cursor _
          ∙ held-draw_cell _ _ 32 _
          ∙ held-redraw_deleted _ _ (record c { screen = delete_text c.screen }))
    ]

pub held-input_move_cursor_left : (c : Console) → held (input_move_cursor_left c) ≡ held c
unfolding input_move_cursor_left
held-input_move_cursor_left c = elim (Bool-cases (ltb 0 c.screen.input_cursor)) [
  | inl some_left ↦ rw some_left (held-follow_cursor _)
  | inr start ↦ rw start refl
]

pub held-input_move_cursor_right : (c : Console) → held (input_move_cursor_right c) ≡ held c
unfolding input_move_cursor_right
held-input_move_cursor_right c =
    elim (Bool-cases (ltb c.screen.input_cursor c.screen.input_length)) [
      | inl some_right ↦ rw some_right (held-follow_cursor _)
      | inr at_end ↦ rw at_end refl
    ]

pub frame-screen_set_color : (fg bg : ℕ) (c : Console) → frame (screen_set_color fg bg c) ≡ frame c
unfolding screen_set_color update_hardware_cursor
frame-screen_set_color fg bg c = refl
