-- ===== src/Kernel/Screens.antt =====
-- src/keyboard.c, src/screen.c, src/shell.c: the three screens and their typed lines, over any keys.
pub mod Keys
pub mod Start
use kfs.Base.{
  ℕ, suc, ◌+◌, ◌-◌, ◌≤◌, ◌<◌, ◌≡◌, refl, sym, ap, ◌∙◌, arith, ◌==◌, ==-ne, ltb, leb, Bool,
  Bool-cases, true, false, inl, inr, ◌⊎◌, ◌&&◌, ◌||◌, if◌then◌else◌, List, [], ◌∷◌,
}
use kfs.Machine.Outcome.{Outcome, ok, ◌>>=◌}
use kfs.Machine.Yields.{Yields, Yields-ok, Yields-if, Yields-after}
use kfs.Screen.{
  Console, ScreenState, set_at, screen_putchar, screen_putstring, switch_screen,
  update_hardware_cursor,
}
use kfs.Screen.Frame.{
  held, frame, frame-screen_putchar, frame-screen_putstring, held-input_insert_char_at_cursor,
  held-input_delete_char_at_cursor, held-input_move_cursor_left, held-input_move_cursor_right,
}
use kfs.Screen.Input.{
  input_insert_char_at_cursor, input_delete_char_at_cursor, input_move_cursor_left,
  input_move_cursor_right, follow_cursor, delete_text,
}
use kfs.Screen.Input.Line.{
  line, input_insert_char_at_cursor-Inserted, line-input_delete_char_at_cursor,
}
use kfs.Kernel.{Kernel, Board}
use kfs.Kernel.Shell.{input_newline, shell_process_input, shell_print_prompt}
use kfs.Kernel.Keys.{
  keyboard_handler, key_press, key_release, type_char, function_key, extended_press, on_console,
}
use kfs.Kernel.Frame.Shell.{IsPrompted, shell_process_input-IsPrompted}

-- the typed line fits its buffer, and the place is in the line
pub record InLine (s : ScreenState) : Type 0 where
  pub place : s.input_cursor ≤ s.input_length
  pub room : s.input_length ≤ 3999

-- one of the three screens is active, and the lines of all of them are in order
pub record IsConsole (c : Console) : Type 0 where
  pub active : c.current < 3
  pub screen : InLine c.screen
  pub others : (i : ℕ) → i < 3 → InLine (c.others i)

-- a change of the active screen only
pub IsConsole-held : (c d : Console) → held d ≡ held c → InLine d.screen → IsConsole c → IsConsole d
IsConsole-held c d same here v =
    let current : d.current ≡ c.current = ap (λ (h : ℕ × (ℕ → ScreenState)). h.0) same in
    let others : d.others ≡ c.others = ap (λ (h : ℕ × (ℕ → ScreenState)). h.1) same in
    record {
      active = omega (arith, current, v.active);
      screen = here;
      others = λ i hi. rw others (v.others i hi);
    }

pub IsConsole-frame : (c d : Console) → frame d ≡ frame c → IsConsole c → IsConsole d
IsConsole-frame c d same v =
    let n = ap (λ (f : ℕ × (ℕ → ScreenState) × ℕ × ℕ). f.2) same in
    let p = ap (λ (f : ℕ × (ℕ → ScreenState) × ℕ × ℕ). f.3) same in
    IsConsole-held c d (ap (λ (f : ℕ × (ℕ → ScreenState) × ℕ × ℕ). (f.0, f.1)) same)
      (record {
        place = omega (arith, n, p, v.screen.place);
        room = omega (arith, n, v.screen.room);
      })
      v

pub insert-InLine :
    (ch : ℕ) (c : Console) → InLine c.screen → InLine (input_insert_char_at_cursor ch c).screen
unfolding input_insert_char_at_cursor
insert-InLine ch c h = elim (Bool-cases (leb 32 ch && leb ch 126)) [
  | inr odd ↦ rw odd h
  | inl printable ↦ elim (Bool-cases (ltb c.screen.input_length 3999)) [
    | inr full ↦ rw (printable, full) h
    | inl room ↦ inserted ch c h (ground arith) (ground arith) (ground arith)
  ]
]
  where
    inserted :
        (ch : ℕ) (c : Console)
        → InLine c.screen
        → 32 ≤ ch
        → ch ≤ 126
        → c.screen.input_length < 3999
        → InLine (input_insert_char_at_cursor ch c).screen
    inserted ch c h lo hi room =
        let (i, p) = input_insert_char_at_cursor-Inserted ch c lo hi h.place room in
        record { place = omega (arith, i.length, p, h.place); room = omega (arith, i.length) }

pub delete-InLine : (c : Console) → InLine c.screen → InLine (input_delete_char_at_cursor c).screen
unfolding input_delete_char_at_cursor delete_text
delete-InLine c h = elim (Bool-cases (ltb 0 c.screen.input_cursor && ltb 0 c.screen.input_length)) [
  | inr start ↦ rw start h
  | inl some_left ↦
      let l = line-input_delete_char_at_cursor c (ground arith) (ground arith) in
      let n = ap (λ (x : (ℕ → ℕ) × ℕ × ℕ). x.1) l in
      let p = ap (λ (x : (ℕ → ℕ) × ℕ × ℕ). x.2) l in
      record { place = omega (arith, n, p, h.place); room = omega (arith, n, h.room) }
]

pub left-InLine : (c : Console) → InLine c.screen → InLine (input_move_cursor_left c).screen
unfolding input_move_cursor_left follow_cursor update_hardware_cursor
left-InLine c h = elim (Bool-cases (ltb 0 c.screen.input_cursor)) [
  | inr start ↦ rw start h
  | inl some_left ↦ rw some_left (record { place = omega (arith, h.place); room = h.room })
]

pub right-InLine : (c : Console) → InLine c.screen → InLine (input_move_cursor_right c).screen
unfolding input_move_cursor_right follow_cursor update_hardware_cursor
right-InLine c h = elim (Bool-cases (ltb c.screen.input_cursor c.screen.input_length)) [
  | inr at_end ↦ rw at_end h
  | inl some_right ↦
      let lt : c.screen.input_cursor < c.screen.input_length = ground arith in
      rw some_right (record { place = omega (arith, h.room); room = h.room })
]

-- Going to another screen saves the active one with its line, and shows that screen's own.
pub switch_screen-IsConsole : (n : ℕ) (c : Console) → IsConsole c → IsConsole (switch_screen n c)
unfolding switch_screen update_hardware_cursor
switch_screen-IsConsole n c v = elim (Bool-cases (leb 3 n || (c.current == n))) [
  | inl stay ↦ rw stay v
  | inr go ↦
      let lt : n < 3 = ground arith in
      rw go (record {
        active = lt;
        screen = v.others n lt;
        others = λ i hi. elim (Bool-cases (i == c.current)) [
          | inl here ↦ rw here (record { place = v.screen.place; room = v.screen.room })
          | inr there ↦ rw there (v.others i hi)
        ];
      })
]

-- other writes to the ports
pub acknowledged :
    (c : Console) (ports : List (ℕ × ℕ)) → IsConsole c → IsConsole (record c { ports = ports })
acknowledged c ports v = IsConsole-frame c _ refl v

pub prompted-IsConsole :
    (c : Console) (k : Kernel) → IsConsole c → IsPrompted c k → IsConsole k.console
prompted-IsConsole c k v p =
    IsConsole-held c k.console p.screens
      (record { place = omega (arith, p.empty.0, p.empty.1); room = omega (arith, p.empty.0) }) v
