-- ===== src/Examples/Console.antt =====
-- A console with three characters typed in the last row.
use kfs.Base.{ℕ, ◌+◌, ◌<◌, ◌≡◌, arith, [], ◌∷◌}
use kfs.Screen.{screen_scroll, ScreenState, Console, screen_putstring, switch_screen}
use kfs.Screen.Cursor.{InRows, screen_putstring-InRows}
use kfs.Screen.Switch.{SwitchedBack, switch_screen-SwitchedBack}
use kfs.Screen.Scroll.{Scrolled, screen_scroll-Scrolled}
use kfs.Screen.Input.{place, input_insert_char_at_cursor, input_delete_char_at_cursor}
use kfs.Screen.Input.Text.{Inserted}
use kfs.Screen.Input.Place.{place-div}
use kfs.Screen.Input.Line.{
  input_insert_char_at_cursor-Inserted, input_delete_char_at_cursor-input_insert_char_at_cursor,
}

abbrev dark : ScreenState
dark = record {
  buffer = λ i. 0;
  cursor_x = 79;
  cursor_y = 24;
  input_length = 3;
  input_cursor = 1;
  input_start_x = 78;
  input_start_y = 24;
  color = 7;
}

abbrev pub console : Console
console = record { screen = dark; current = 0; others = λ i. dark; vga = λ i. 0x0720; ports = [] }

screen_scroll-Scrolled_example : Scrolled console (screen_scroll console)
screen_scroll-Scrolled_example = screen_scroll-Scrolled console

screen_putstring-InRows_example : InRows (screen_putstring (65 ∷ 10 ∷ 8 ∷ 66 ∷ []) console)
screen_putstring-InRows_example =
    screen_putstring-InRows (65 ∷ 10 ∷ 8 ∷ 66 ∷ []) console
      (record { column = omega arith; row = omega arith })

switch_screen-SwitchedBack_example :
    SwitchedBack console (switch_screen 0 (switch_screen 2 console))
switch_screen-SwitchedBack_example =
    switch_screen-SwitchedBack 2 console (omega arith) (omega arith) (omega arith)
      (λ i h. omega arith)

place-div_example : place 200 dark ≡ (38, 27)
place-div_example = place-div 200 dark (omega arith)

input_insert_char_at_cursor-Inserted_example :
    Inserted 65 dark (input_insert_char_at_cursor 65 console).screen
    × ((input_insert_char_at_cursor 65 console).screen.input_cursor ≡ 1 + 1)
input_insert_char_at_cursor-Inserted_example =
    input_insert_char_at_cursor-Inserted 65 console (omega arith) (omega arith) (omega arith)
      (omega arith)

input_delete_char_at_cursor-input_insert_char_at_cursor_example :
    let d = (input_delete_char_at_cursor (input_insert_char_at_cursor 65 console)).screen in
    (d.input_length ≡ 3) × (d.input_cursor ≡ 1) × ((j : ℕ) → j < 3 → d.buffer j ≡ 0)
input_delete_char_at_cursor-input_insert_char_at_cursor_example =
    input_delete_char_at_cursor-input_insert_char_at_cursor 65 console (omega arith) (omega arith)
      (omega arith) (omega arith)
