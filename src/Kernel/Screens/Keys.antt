-- ===== src/Kernel/Screens/Keys.antt =====
-- src/keyboard.c: the handler keeps the screens and their lines in order, whatever is typed.
use kfs.Base.{
  ℕ, ◌-◌, ◌%◌, ◌^◌, arith, ◌==◌, ltb, leb, Bool, Bool-cases, true, false, inl, inr, ◌&&◌, ◌||◌,
  List, [], ◌∷◌,
}
use kfs.Machine.Yields.{Yields, Yields-ok, Yields-if, Yields-after}
use kfs.Screen.{Console, set_at, screen_putchar}
use kfs.Screen.Frame.{
  frame-screen_putchar, frame-screen_putstring, held-input_insert_char_at_cursor,
  held-input_delete_char_at_cursor, held-input_move_cursor_left, held-input_move_cursor_right,
}
use kfs.Keyboard.{scancode_to_ascii}
use kfs.Kernel.{Kernel, Board}
use kfs.Kernel.Shell.{input_newline, shell_process_input, string_from}
use kfs.Kernel.Keys.{
  keyboard_handler, key_press, key_release, type_char, function_key, extended_press,
}
use kfs.Kernel.Frame.{IsFramed-refl}
use kfs.Kernel.Frame.Shell.{
  IsPrompted, IsPrompted-shell_print_prompt, shell_process_input-IsPrompted,
}
use kfs.Kernel.Typing.{press_all}
use kfs.Kernel.Screens.{
  acknowledged, IsConsole, IsConsole-held, IsConsole-frame, switch_screen-IsConsole, insert-InLine,
  delete-InLine, left-InLine, right-InLine,
}

-- the kernel's screens are in order
abbrev pub InOrder : Kernel → Type 0
InOrder k = IsConsole k.console

function_key-IsConsole :
    (n : ℕ) (ctrl : Bool) (c : Console) → IsConsole c → IsConsole (function_key n ctrl c)
unfolding function_key
function_key-IsConsole n true c v = IsConsole-frame c _ (frame-screen_putstring _ c) v
function_key-IsConsole n false c v = elim (Bool-cases (leb n 3)) [
  | inl screen_key ↦ rw screen_key (switch_screen-IsConsole (n - 1) c v)
  | inr other ↦ rw other (IsConsole-frame c _ (frame-screen_putstring _ c) v)
]

extended_press-IsConsole :
    (scancode : ℕ) (c : Console) → IsConsole c → IsConsole (extended_press scancode c)
unfolding extended_press
extended_press-IsConsole scancode c v = elim (Bool-cases (scancode == 0x4B)) [
  | inl left ↦
      rw left (IsConsole-held c _ (held-input_move_cursor_left c) (left-InLine c v.screen) v)
  | inr other ↦ elim (Bool-cases (scancode == 0x4D)) [
    | inl right ↦
        rw (other, right)
          (IsConsole-held c _ (held-input_move_cursor_right c) (right-InLine c v.screen) v)
    | inr neither ↦ rw (other, neither) v
  ]
]

-- after the shell, with the line's length and place set to 0
prompted :
    (c : Console) (k : Kernel)
    → IsConsole c
    → IsPrompted c k
    → IsConsole (record k.console {
      screen = record k.console.screen { input_length = 0; input_cursor = 0 };
    })
prompted c k v p =
    IsConsole-held c _ p.screens (record { place = omega arith; room = omega arith }) v

input_newline-InOrder : (b : Board) (k : Kernel) → InOrder k → Yields InOrder (input_newline b k)
unfolding input_newline
input_newline-InOrder b k v =
    let s = k.console.screen in
    let c =
      screen_putchar 10
        (record k.console { screen = record s { buffer = set_at s.buffer s.input_length 0 } }) in
    let v1 : IsConsole c = IsConsole-frame k.console c (frame-screen_putchar 10 _) v in
    let k1 = record k { console = c } in
    Yields-if (ltb 0 c.screen.input_length) _ _
      (Yields-after (IsPrompted c)
        (shell_process_input b (string_from s.input_length 0 c.screen.buffer) k1) _
        (shell_process_input-IsPrompted b _ k1) (λ k2 p. Yields-ok _ (prompted c k2 v1 p)))
      (Yields-ok _ (prompted c _ v1 (IsPrompted-shell_print_prompt c k1 (IsFramed-refl c))))

type_char-InOrder :
    (b : Board) (ch : ℕ) (k : Kernel) → InOrder k → Yields InOrder (type_char b ch k)
unfolding type_char
type_char-InOrder b ch k v =
    let c = k.console in
    Yields-if (ch == 8) _ _
      (Yields-ok _
        (IsConsole-held c _ (held-input_delete_char_at_cursor c) (delete-InLine c v.screen) v))
      (Yields-if (ch == 10) _ _ (input_newline-InOrder b k v) (
        Yields-ok _ (
          IsConsole-held c _ (held-input_insert_char_at_cursor ch c) (insert-InLine ch c v.screen)
            v)))

key_press-InOrder :
    (b : Board) (scancode : ℕ) (k : Kernel) → InOrder k → Yields InOrder (key_press b scancode k)
unfolding key_press
key_press-InOrder b scancode k v =
    Yields-if (scancode == 0x2A || scancode == 0x36) _ _ (Yields-ok _ v) (
      Yields-if (scancode == 0x1D) _ _ (Yields-ok _ v) (
        Yields-if (scancode == 0x3A) _ _ (Yields-ok _ v) (
          Yields-if (leb 0x3B scancode && leb scancode 0x44) _ _
            (Yields-ok _ (function_key-IsConsole _ k.keyboard.ctrl_pressed k.console v))
            (type_char-InOrder b (scancode_to_ascii k.keyboard scancode) k v))))

key_release-InOrder : (key_code : ℕ) (k : Kernel) → InOrder k → InOrder (key_release key_code k)
unfolding key_release
key_release-InOrder key_code k v = elim (Bool-cases (key_code == 0x2A || key_code == 0x36)) [
  | inl shift ↦ rw shift v
  | inr other ↦ elim (Bool-cases (key_code == 0x1D)) [
    | inl ctrl ↦ rw (other, ctrl) v
    | inr neither ↦ rw (other, neither) v
  ]
]

-- Any byte from the keyboard, in any state of its keys: if the handler returns, one of the three
-- screens is active, and on each of them the typed line fits its buffer and has the place in it.
pub keyboard_handler-InOrder :
    (b : Board) (scancode : ℕ) (k : Kernel)
    → InOrder k
    → Yields InOrder (keyboard_handler b scancode k)
unfolding keyboard_handler
keyboard_handler-InOrder b scancode k v =
    Yields-if (scancode == 0xE0) _ _ (Yields-ok _ (acknowledged k.console _ v)) (
      Yields-if (ltb scancode 0x80) _ _
        (Yields-if k.extended _ _
          (Yields-ok _ (acknowledged _ _ (extended_press-IsConsole scancode k.console v)))
          (Yields-after InOrder (key_press b scancode k) _ (key_press-InOrder b scancode k v)
            (λ k' v'. Yields-ok _ (acknowledged k'.console _ v'))))
        (Yields-ok _ (acknowledged _ _ (key_release-InOrder (scancode % 2 ^ 7) k v))))

-- From a state in which one of the three screens is active and on each of them the typed line fits its
-- buffer and has the place in it, any sequence of bytes from the keyboard, with the commands that Enter
-- runs, leads to such a state, if the handler returns.
pub press_all-InOrder :
    (b : Board) (scancodes : List ℕ) (k : Kernel)
    → InOrder k
    → Yields InOrder (press_all b scancodes k)
press_all-InOrder b [] k v = Yields-ok k v
press_all-InOrder b (scancode ∷ rest) k v =
    Yields-after InOrder (keyboard_handler b scancode k) _ (keyboard_handler-InOrder b scancode k v)
      (λ k' v'. press_all-InOrder b rest k' v')
