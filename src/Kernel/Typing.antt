-- ===== src/Kernel/Typing.antt =====
-- A line from the keyboard to the shell: src/keyboard.c, src/screen.c and src/shell.c together.
use kfs.Base.{
  append_assoc, append-nil, subst, length-append, ℕ, ◌+◌, ◌≤◌, ◌<◌, ◌≡◌, refl, ap, sym, ◌∙◌, arith,
  ◌==◌, ==-ne, ltb, leb, Bool, Bool-cases, true, false, inl, inr, ◌||◌, ◌&&◌, ◌∷◌, [], ◌++◌, length,
  List,
}
use kfs.Machine.Outcome.{>>=-ok, >>=_assoc, Outcome, ok, ◌>>=◌}
use kfs.Screen.{Console, set_at, screen_putchar}
use kfs.Screen.Input.{input_insert_char_at_cursor}
use kfs.Screen.Input.Line.{input_insert_char_at_cursor-Inserted}
use kfs.Keyboard.{KeyboardState, scancode_to_ascii}
use kfs.Kernel.{Kernel, Board}
use kfs.Kernel.Keys.{keyboard_handler, key_press, type_char, on_console, send_eoi}
use kfs.Kernel.Shell.{input_newline, string_from, shell_process_input}
use kfs.Kernel.Text.{HasText, string_from-HasText, HasText-agree, HasText-snoc, line-newline}

-- a key that types the printable character `c`
pub record IsKey (keyboard : KeyboardState) (scancode c : ℕ) : Type 0 where
  pub pressed : scancode < 0x80
  pub no_shift : (scancode == 0x2A || scancode == 0x36) ≡ false
  pub no_ctrl : (scancode == 0x1D) ≡ false
  pub no_caps : (scancode == 0x3A) ≡ false
  pub no_function : (leb 0x3B scancode && leb scancode 0x44) ≡ false
  pub char : scancode_to_ascii keyboard scancode ≡ c
  pub printable : (32 ≤ c) × (c ≤ 126)

-- one key after another
abbrev pub press_all : Board → List ℕ → Kernel → Outcome Kernel
press_all b [] k = ok k
press_all b (scancode ∷ rest) k = keyboard_handler b scancode k >>= press_all b rest

-- `keyboard_handler` on a key that types a character
keyboard_handler-IsKey :
    (b : Board) (scancode c : ℕ) (k : Kernel)
    → k.extended ≡ false
    → IsKey k.keyboard scancode c
    → keyboard_handler b scancode k
      ≡ ok (record (send_eoi (on_console (input_insert_char_at_cursor c) k)) { extended = false })
unfolding keyboard_handler key_press type_char
keyboard_handler-IsKey b scancode c k plain key =
    let prefix : (scancode == 0xE0) ≡ false = ==-ne scancode 0xE0 (omega (arith, key.pressed)) in
    let down : ltb scancode 0x80 ≡ true = ground (arith, key.pressed) in
    let del : (c == 8) ≡ false = ==-ne c 8 (omega (arith, key.printable.0)) in
    let enter : (c == 10) ≡ false = ==-ne c 10 (omega (arith, key.printable.0)) in
    rw
      (
        prefix, down, plain, key.no_shift, key.no_ctrl, key.no_caps, key.no_function, key.char, del,
        enter,
      )
      refl

-- `s` has been typed, the cursor is behind it, and `k` differs from `k0` in the console only
pub record TypedLine (s : List ℕ) (k0 k : Kernel) : Type 0 where
  pub input_length : k.console.screen.input_length ≡ length s
  pub input_cursor : k.console.screen.input_cursor ≡ length s
  pub text : HasText k.console.screen.buffer 0 s
  pub rest : k ≡ record k0 { console = k.console }

keyboard_handler-TypedLine :
    (b : Board) (scancode c : ℕ) (s : List ℕ) (k0 k : Kernel)
    → k0.extended ≡ false
    → IsKey k0.keyboard scancode c
    → length s < 3999
    → TypedLine s k0 k
    → (k' : Kernel) × (keyboard_handler b scancode k ≡ ok k') × TypedLine (s ++ (c ∷ [])) k0 k'
keyboard_handler-TypedLine b scancode c s k0 k plain key room t =
    let same : k.keyboard ≡ k0.keyboard = ap (λ (x : Kernel). x.keyboard) t.rest in
    let off : k.extended ≡ false = ap (λ (x : Kernel). x.extended) t.rest ∙ plain in
    let (i, cursor) =
      input_insert_char_at_cursor-Inserted c k.console key.printable.0 key.printable.1
        (omega (arith, t.input_length, t.input_cursor)) (omega (arith, t.input_length)) in
    let after : Console = input_insert_char_at_cursor c k.console in
    let shown : Console = (send_eoi (on_console (input_insert_char_at_cursor c) k)).console in
    let here : 0 + length s ≡ k.console.screen.input_cursor = omega (arith, t.input_cursor) in
    let longer = length-append s (c ∷ []) in
    (
      record (send_eoi (on_console (input_insert_char_at_cursor c) k)) { extended = false },
      keyboard_handler-IsKey b scancode c k off (rw same key),
      record {
        input_length = i.length ∙ omega (arith, t.input_length, longer);
        input_cursor = cursor ∙ omega (arith, t.input_cursor, longer);
        text =
            HasText-snoc s c 0 _
              (HasText-agree s 0 _ _ (λ j lt. i.before j (omega (arith, t.input_cursor))) t.text)
              (ap after.screen.buffer here ∙ i.new) (omega (arith, key.printable.0));
        rest =
            ap (λ (x : Kernel). record x { console = shown; extended = false }) t.rest
            ∙ ap (λ (e : Bool). record k0 { console = shown; extended = e }) (sym plain);
      },
    )

-- keys for the characters of a text
abbrev pub AreKeys : KeyboardState → List ℕ → List ℕ → Type 0
AreKeys keyboard [] [] = Unit {0}
AreKeys keyboard (scancode ∷ keys) (c ∷ s) = IsKey keyboard scancode c × AreKeys keyboard keys s
AreKeys keyboard _ _ = ⊥

press_all-TypedLine :
    (b : Board) (keys s before : List ℕ) (k0 k : Kernel)
    → k0.extended ≡ false
    → AreKeys k0.keyboard keys s
    → length before + length s ≤ 3999
    → TypedLine before k0 k
    → (k' : Kernel) × (press_all b keys k ≡ ok k') × TypedLine (before ++ s) k0 k'
press_all-TypedLine b [] [] before k0 k plain h room t =
    (k, refl, subst (λ (x : List ℕ). TypedLine x k0 k) (sym (append-nil before)) t)
press_all-TypedLine b [] (c ∷ s) before k0 k plain h room t = absurd h
press_all-TypedLine b (scancode ∷ keys) [] before k0 k plain h room t = absurd h
press_all-TypedLine b (scancode ∷ keys) (c ∷ s) before k0 k plain (key, more) room t =
    let (k1, e, t1) =
      keyboard_handler-TypedLine b scancode c before k0 k plain key (omega arith) t in
    let longer = length-append before (c ∷ []) in
    let (k2, e2, t2) =
      press_all-TypedLine b keys s (before ++ (c ∷ [])) k0 k1 plain more (omega (arith, longer))
        t1 in
    (k2, rw e e2, subst (λ (x : List ℕ). TypedLine x k0 k2) (append_assoc before (c ∷ []) s) t2)

-- the line is empty again
abbrev pub clear_line : Kernel → Kernel
clear_line k = record k {
  console = record k.console {
    screen = record k.console.screen { input_length = 0; input_cursor = 0 };
  };
}

input_newline-TypedLine :
    (b : Board) (s : List ℕ) (k0 k : Kernel)
    → 0 < length s
    → TypedLine s k0 k
    → (c : Console) × (input_newline b k
        ≡ (shell_process_input b s (record k0 { console = c }) >>= λ k'. ok (clear_line k')))
unfolding input_newline
input_newline-TypedLine b s k0 k pos t =
    let n : ℕ = k.console.screen.input_length in
    let ended : Console = record k.console {
      screen = record k.console.screen { buffer = set_at k.console.screen.buffer n 0 };
    } in
    let c : Console = screen_putchar 10 ended in
    let same = line-newline ended in
    let long : ltb 0 c.screen.input_length ≡ true =
      ground (arith, pos, t.input_length, ap (λ (l : (ℕ → ℕ) × ℕ × ℕ). l.1) same) in
    let text : string_from n 0 c.screen.buffer ≡ s =
      ap (λ (m : ℕ). string_from m 0 c.screen.buffer) t.input_length
      ∙ (string_from-HasText s 0 c.screen.buffer (
          HasText-agree s 0 k.console.screen.buffer _
            (λ j lt.
              ap (λ (l : (ℕ → ℕ) × ℕ × ℕ). l.0 j) same
              ∙ rw (==-ne j n (omega (arith, t.input_length))) refl)
            t.text)) in
    let rest : record k { console = c } ≡ record k0 { console = c } =
      ap (λ (x : Kernel). record x { console = c }) t.rest in
    (
      c,
      rw (long, text)
          (ap (λ (x : Kernel). shell_process_input b s x >>= λ k'. ok (clear_line k')) rest),
    )

scancode_to_ascii-enter : (keyboard : KeyboardState) → scancode_to_ascii keyboard 0x1C ≡ 10
unfolding scancode_to_ascii
scancode_to_ascii-enter keyboard = elim (Bool-cases keyboard.shift_pressed) [
  | inl shift ↦
      rw shift
        (elim (Bool-cases keyboard.caps_lock) [ inl caps ↦ rw caps refl | inr caps ↦ rw caps refl ])
  | inr plain ↦
      rw plain
        (elim (Bool-cases keyboard.caps_lock) [ inl caps ↦ rw caps refl | inr caps ↦ rw caps refl ])
]

keyboard_handler-enter :
    (b : Board) (k : Kernel)
    → k.extended ≡ false
    → keyboard_handler b 0x1C k
      ≡ (input_newline b k >>= λ k'. ok (record (send_eoi k') { extended = false }))
unfolding keyboard_handler key_press type_char
keyboard_handler-enter b k plain = rw (plain, scancode_to_ascii-enter k.keyboard) refl

press_all-append :
    (b : Board) (keys more : List ℕ) (k : Kernel)
    → press_all b (keys ++ more) k ≡ (press_all b keys k >>= press_all b more)
press_all-append b [] more k = refl
press_all-append b (scancode ∷ keys) more k =
    >>=_assoc (keyboard_handler b scancode k) _ _ _ (press_all-append b keys more)

-- With an empty line and no 0xE0 prefix pending, keys that type the characters of a text of 1 to 3999
-- characters, and the Enter key behind them, hand exactly that text to `shell_process_input`, in a kernel
-- that differs from the first one in the console only. When the shell returns, the line is empty again
-- and the interrupt is acknowledged.
pub press_all-shell_process_input :
    (b : Board) (keys s : List ℕ) (k : Kernel)
    → k.extended ≡ false
    → k.console.screen.input_length ≡ 0
    → k.console.screen.input_cursor ≡ 0
    → AreKeys k.keyboard keys s
    → 0 < length s
    → length s ≤ 3999
    → (c : Console) × (press_all b (keys ++ (0x1C ∷ [])) k ≡ (
        shell_process_input b s (record k { console = c }) >>= λ k'.
        ok (record (send_eoi (clear_line k')) { extended = false })))
press_all-shell_process_input b keys s k plain none_yet start h pos room =
    let (k1, e, t) =
      press_all-TypedLine b keys s [] k k plain h (omega arith)
        (record { input_length = none_yet; input_cursor = start; text = tt; rest = refl }) in
    let (c, e2) = input_newline-TypedLine b s k k1 pos t in
    let off : k1.extended ≡ false = ap (λ (x : Kernel). x.extended) t.rest ∙ plain in
    let finish : Kernel → Kernel = λ k'. record (send_eoi k') { extended = false } in
    (
      c,
      press_all-append b keys (0x1C ∷ []) k
          ∙ ap (λ (o : Outcome Kernel). o >>= press_all b (0x1C ∷ [])) e
          ∙ >>=-ok (keyboard_handler b 0x1C k1)
          ∙ keyboard_handler-enter b k1 off
          ∙ ap (λ (o : Outcome Kernel). o >>= λ k'. ok (finish k')) e2
          ∙ sym (>>=_assoc (shell_process_input b s (record k { console = c })) _ _ _ (λ k'. refl)),
    )
