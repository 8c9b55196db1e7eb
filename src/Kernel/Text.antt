-- ===== src/Kernel/Text.antt =====
-- src/screen.c: the typed line as a text, and the end of the line on the screen.
use kfs.Base.{
  ℕ, suc, ◌+◌, ◌<◌, ◌≡◌, refl, ap, ◌∙◌, arith, ==-ne, ltb, leb, Bool-cases, inl, inr, ◌∷◌, [], ◌++◌,
  length, List,
}
use kfs.Screen.{
  Console, screen_putchar, screen_scroll, put_cell, wrap_line, wrap_screen, update_hardware_cursor,
}
use kfs.Screen.Input.Line.{line}
use kfs.Kernel.Shell.{string_from}

-- the text stands in the buffer from `i` on, and has no 0
abbrev pub HasText : (ℕ → ℕ) → ℕ → List ℕ → Type 0
HasText buffer i [] = Unit {0}
HasText buffer i (c ∷ s) = (buffer i ≡ c) × (0 < c) × HasText buffer (i + 1) s

pub string_from-HasText :
    (s : List ℕ) (i : ℕ) (buffer : ℕ → ℕ) → HasText buffer i s → string_from (length s) i buffer ≡ s
unfolding string_from
string_from-HasText [] i buffer h = refl
string_from-HasText (c ∷ s) i buffer (h, pos, more) =
    rw (string_from, ==-ne (buffer i) 0 (omega (arith, h, pos)))
      (cc (h, string_from-HasText s (i + 1) buffer more))

pub HasText-agree :
    (s : List ℕ) (i : ℕ) (f g : ℕ → ℕ)
    → ((j : ℕ) → j < i + length s → g j ≡ f j)
    → HasText f i s
    → HasText g i s
HasText-agree [] i f g same h = tt
HasText-agree (c ∷ s) i f g same (h, pos, more) =
    (same i (omega arith) ∙ h, pos, HasText-agree s (i + 1) f g (λ j lt. same j (omega arith)) more)

pub HasText-snoc :
    (s : List ℕ) (c i : ℕ) (f : ℕ → ℕ)
    → HasText f i s
    → f (i + length s) ≡ c
    → 0 < c
    → HasText f i (s ++ (c ∷ []))
HasText-snoc [] c i f h e pos = let at : i ≡ i + 0 = omega arith in (ap f at ∙ e, pos, tt)
HasText-snoc (d ∷ s) c i f (h, p, more) e pos =
    let at : i + 1 + length s ≡ i + suc (length s) = omega arith in
    (h, p, HasText-snoc s c (i + 1) f more (ap f at ∙ e) pos)

line-wrap_screen : (c : Console) → line (wrap_screen c) ≡ line c
unfolding wrap_screen screen_scroll update_hardware_cursor
line-wrap_screen c = elim (Bool-cases (leb 25 c.screen.cursor_y)) [
  | inl full ↦ rw full refl
  | inr fits ↦ rw fits refl
]

line-wrap_line : (c : Console) → line (wrap_line c) ≡ line c
unfolding wrap_line
line-wrap_line c = elim (Bool-cases (ltb 80 c.screen.cursor_x)) [
  | inl full ↦ rw full refl
  | inr fits ↦ rw fits refl
]

pub line-newline : (c : Console) → line (screen_putchar 10 c) ≡ line c
unfolding screen_putchar update_hardware_cursor put_cell
line-newline c = line-wrap_screen (wrap_line (put_cell 10 c)) ∙ line-wrap_line (put_cell 10 c)
