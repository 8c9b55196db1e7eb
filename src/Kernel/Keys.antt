-- ===== src/Kernel/Keys.antt =====
-- src/keyboard.c: the handler of the keyboard's interrupt.
use kfs.Base.{
  ◌-◌, ◌++◌, ◌&&◌, ◌+◌, ℕ, ◌%◌, ◌^◌, ltb, leb, ◌==◌, if◌then◌else◌, true, false, Bool, ◌||◌, not,
  ◌∷◌, List,
}
use kfs.Machine.Outcome.{Outcome, ok, ◌>>=◌}
use kfs.Screen.{Console, screen_putstring, switch_screen}
use kfs.Screen.Input.{
  input_insert_char_at_cursor, input_delete_char_at_cursor, input_move_cursor_left,
  input_move_cursor_right,
}
use kfs.Keyboard.{scancode_to_ascii, pic_send_eoi, irq1}
use kfs.Kernel.{Kernel, Board, codes}
use kfs.Kernel.Shell.{input_newline}

abbrev pub key_left_shift : ℕ
key_left_shift = 0x2A

abbrev pub key_right_shift : ℕ
key_right_shift = 0x36

abbrev pub key_left_ctrl : ℕ
key_left_ctrl = 0x1D

abbrev pub key_caps_lock : ℕ
key_caps_lock = 0x3A

abbrev pub key_f1 : ℕ
key_f1 = 0x3B

abbrev pub key_f10 : ℕ
key_f10 = 0x44

abbrev pub key_arrow_left : ℕ
key_arrow_left = 0x4B

abbrev pub key_arrow_right : ℕ
key_arrow_right = 0x4D

abbrev pub on_console : (Console → Console) → Kernel → Kernel
on_console f k = record k { console = f k.console }

abbrev pub send_eoi : Kernel → Kernel
send_eoi = on_console (λ c. record c { ports = pic_send_eoi irq1 c.ports })

-- the `switch` behind the prefix of an extended key
unfoldable pub extended_press : ℕ → Console → Console
extended_press scancode c =
    if scancode == key_arrow_left
    then input_move_cursor_left c
    else if scancode == key_arrow_right
    then input_move_cursor_right c
    else c

abbrev key_name : ℕ → List ℕ
key_name n = if n == 10 then codes "10]" else (48 + n) ∷ codes "]"

-- the cases of `KEY_F1` to `KEY_F10`, by the number of the key
unfoldable pub function_key : ℕ → Bool → Console → Console
function_key n true c = screen_putstring (codes "[Ctrl+F" ++ key_name n) c
function_key n false c =
    if leb n 3 then switch_screen (n - 1) c else screen_putstring (codes "[F" ++ key_name n) c

-- the `default` case
unfoldable pub type_char : Board → ℕ → Kernel → Outcome Kernel
type_char b c k =
    if c == 8
    then ok (on_console input_delete_char_at_cursor k)
    else if c == 10
    then input_newline b k
    else ok (on_console (input_insert_char_at_cursor c) k)

-- the `switch` on a key that is pressed
unfoldable pub key_press : Board → ℕ → Kernel → Outcome Kernel
key_press b scancode k =
    if scancode == key_left_shift || scancode == key_right_shift
    then ok (record k { keyboard = record k.keyboard { shift_pressed = true } })
    else if scancode == key_left_ctrl
    then ok (record k { keyboard = record k.keyboard { ctrl_pressed = true } })
    else if scancode == key_caps_lock
    then ok (record k { keyboard = record k.keyboard { caps_lock = not k.keyboard.caps_lock } })
    else if leb key_f1 scancode && leb scancode key_f10
    then ok (on_console (function_key (scancode - key_f1 + 1) k.keyboard.ctrl_pressed) k)
    else type_char b (scancode_to_ascii k.keyboard scancode) k

-- the `switch` on a key that is released
unfoldable pub key_release : ℕ → Kernel → Kernel
key_release key_code k =
    if key_code == key_left_shift || key_code == key_right_shift
    then record k { keyboard = record k.keyboard { shift_pressed = false } }
    else if key_code == key_left_ctrl
    then record k { keyboard = record k.keyboard { ctrl_pressed = false } }
    else k

-- `keyboard_handler` on the byte that it reads from the port
unfoldable pub keyboard_handler : Board → ℕ → Kernel → Outcome Kernel
keyboard_handler b scancode k =
    let done : Kernel → Kernel = λ k'. record (send_eoi k') { extended = false } in
    if scancode == 0xE0
    then ok (send_eoi (record k { extended = true }))
    else if ltb scancode 0x80
    then if k.extended
      then ok (done (on_console (extended_press scancode) k))
      else (key_press b scancode k >>= λ k'. ok (done k'))
    else ok (done (key_release (scancode % 2 ^ 7) k))
