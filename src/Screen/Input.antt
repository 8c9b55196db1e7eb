-- ===== src/Screen/Input.antt =====
-- src/screen.c: the functions on the line that is being typed, which the keyboard handler calls.
pub mod Text
pub mod Place
pub mod Line
use kfs.Base.{ℕ, zero, suc, ◌+◌, ◌-◌, ltb, leb, if◌then◌else◌, true, false, ◌&&◌}
use kfs.Machine.Word.{add32, sub32}
use kfs.Screen.{
  ScreenState, Console, set_at, vga_entry, cell_at, screen_width, screen_height, screen_size,
  update_hardware_cursor, screen_scroll,
}

-- `while (x >= SCREEN_WIDTH) { x -= SCREEN_WIDTH; y++; }`, with fuel
unfoldable pub wrap_from : ℕ → ℕ → ℕ → ℕ × ℕ
wrap_from zero x y = (x, y)
wrap_from (suc fuel) x y = elim (leb screen_width x) [
  | true ↦ wrap_from fuel (x - screen_width) (add32 y 1)
  | false ↦ (x, y)
]

-- The column and row for character `i` of the line; `x` rounds are more than the loop makes.
unfoldable pub place : ℕ → ScreenState → ℕ × ℕ
place i s = let x : ℕ = add32 s.input_start_x i in wrap_from x x s.input_start_y

-- `if (y >= SCREEN_HEIGHT) { screen_scroll(); ...; y = SCREEN_HEIGHT - 1; }`
unfoldable pub fit_row : ℕ → Console → ℕ × Console
fit_row y c =
    if leb screen_height y
    then (let c' = screen_scroll c in
        let start : ℕ = c'.screen.input_start_y in
        (
          screen_height - 1,
          if ltb 0 start
              then record c' { screen = record c'.screen { input_start_y = start - 1 } }
              else c',
        ))
    else (y, c)

-- `if (y < SCREEN_HEIGHT) VGA_BUFFER[...] = vga_entry(ch, color)`
unfoldable pub draw_cell : ℕ → ℕ → ℕ → Console → Console
draw_cell x y ch c =
    if ltb y screen_height
    then record c { vga = set_at c.vga (cell_at x y) (vga_entry ch c.screen.color) }
    else c

-- `for (i = input_length; i > input_cursor; i--) buffer[i] = buffer[i - 1]`, by the rounds left
unfoldable pub shift_right : ℕ → ℕ → (ℕ → ℕ) → ℕ → ℕ
shift_right zero i buffer = buffer
shift_right (suc left) i buffer = shift_right left (i - 1) (set_at buffer i (buffer (i - 1)))

-- `for (i = input_cursor - 1; i < input_length - 1; i++) buffer[i] = buffer[i + 1]`, by the rounds left
unfoldable pub shift_left : ℕ → ℕ → (ℕ → ℕ) → ℕ → ℕ
shift_left zero i buffer = buffer
shift_left (suc left) i buffer = shift_left left (i + 1) (set_at buffer i (buffer (i + 1)))

-- the loop that redraws the line after an insertion, by the rounds left
unfoldable pub redraw_inserted : ℕ → ℕ → Console → Console
redraw_inserted zero i c = c
redraw_inserted (suc left) i c =
    let (x, y) = place i c.screen in
    let (y', c') = fit_row y c in
    redraw_inserted left (i + 1) (draw_cell x y' (c'.screen.buffer i) c')

-- the loop that redraws the line after a deletion, which does not scroll
unfoldable pub redraw_deleted : ℕ → ℕ → Console → Console
redraw_deleted zero i c = c
redraw_deleted (suc left) i c =
    let (x, y) = place i c.screen in
    redraw_deleted left (i + 1) (draw_cell x y (c.screen.buffer i) c)

-- the shift of the buffer and the new character
unfoldable pub insert_text : ℕ → ScreenState → ScreenState
insert_text ch s =
    let length' : ℕ = add32 s.input_length 1 in
    let shifted : ℕ → ℕ = shift_right (s.input_length - s.input_cursor) s.input_length s.buffer in
    record s {
      buffer = set_at (set_at shifted s.input_cursor (ch)) length' 0;
      input_length = length';
    }

-- erases the cell behind the line, after an insertion
unfoldable pub erase_inserted : Console → Console
erase_inserted c =
    let (x, y) = place c.screen.input_length c.screen in
    let (y', c') = fit_row y c in draw_cell x y' 32 c'

-- moves the cursor behind the inserted character
unfoldable pub advance_cursor : Console → Console
advance_cursor c =
    let c1 = record c {
      screen = record c.screen { input_cursor = add32 c.screen.input_cursor 1 };
    } in
    let (x, y) = place c1.screen.input_cursor c1.screen in
    let (y', c') = fit_row y c1 in
    update_hardware_cursor (record c' { screen = record c'.screen { cursor_x = x; cursor_y = y' } })

unfoldable pub input_insert_char_at_cursor : ℕ → Console → Console
input_insert_char_at_cursor ch c =
    if leb 32 ch && leb ch 126
    then if ltb c.screen.input_length (screen_size - 1)
      then (let c1 = record c { screen = insert_text ch c.screen } in
          let s = c1.screen in
          advance_cursor
            (erase_inserted (redraw_inserted (s.input_length - s.input_cursor) s.input_cursor c1)))
      else c
    else c

-- the shift of the buffer over the deleted character
unfoldable pub delete_text : ScreenState → ScreenState
delete_text s =
    let length' : ℕ = s.input_length - 1 in
    let first : ℕ = s.input_cursor - 1 in
    record s {
      buffer = set_at (shift_left (length' - first) first s.buffer) length' 0;
      input_length = length';
      input_cursor = first;
    }

-- moves the cursor to where the line's cursor is
unfoldable pub follow_cursor : Console → Console
follow_cursor c =
    let (x, y) = place c.screen.input_cursor c.screen in
    update_hardware_cursor (record c { screen = record c.screen { cursor_x = x; cursor_y = y } })

-- erases the cell behind the line, after a deletion
unfoldable pub erase_deleted : Console → Console
erase_deleted c = let (x, y) = place c.screen.input_length c.screen in draw_cell x y 32 c

unfoldable pub input_delete_char_at_cursor : Console → Console
input_delete_char_at_cursor c =
    if ltb 0 c.screen.input_cursor && ltb 0 c.screen.input_length
    then (let c1 = record c { screen = delete_text c.screen } in
        let s = c1.screen in
        follow_cursor
          (erase_deleted (redraw_deleted (s.input_length - s.input_cursor) s.input_cursor c1)))
    else c

unfoldable pub input_move_cursor_left : Console → Console
input_move_cursor_left c =
    if ltb 0 c.screen.input_cursor
    then follow_cursor
        (record c { screen = record c.screen { input_cursor = c.screen.input_cursor - 1 } })
    else c

unfoldable pub input_move_cursor_right : Console → Console
input_move_cursor_right c =
    if ltb c.screen.input_cursor c.screen.input_length
    then follow_cursor
        (record c { screen = record c.screen { input_cursor = add32 c.screen.input_cursor 1 } })
    else c

unfoldable pub input_set_start_position : Console → Console
input_set_start_position c = record c {
  screen = record c.screen {
    input_start_x = c.screen.cursor_x;
    input_start_y = c.screen.cursor_y;
    input_length = 0;
    input_cursor = 0;
  };
}
