-- ===== src/Screen/Input/Line.antt =====
-- src/screen.c: `input_insert_char_at_cursor` and `input_delete_char_at_cursor` on the typed line.
use kfs.Base.{
  ℕ, zero, suc, ◌+◌, ◌-◌, ◌%◌, ◌^◌, ◌≤◌, ◌<◌, ◌≡◌, refl, ap, ◌∙◌, inl, inr, arith, ltb, leb, true,
  Bool-cases,
}
use kfs.Screen.{Console, ScreenState, screen_scroll, update_hardware_cursor}
use kfs.Screen.Input.{
  place, fit_row, draw_cell, redraw_inserted, redraw_deleted, insert_text, delete_text,
  erase_inserted, erase_deleted, advance_cursor, follow_cursor, input_insert_char_at_cursor,
  input_delete_char_at_cursor,
}
use kfs.Screen.Input.Text.{Inserted, insert_text-Inserted, delete_text-insert_text}

-- the text, its length and the place in it
abbrev pub line : Console → (ℕ → ℕ) × ℕ × ℕ
line c = (c.screen.buffer, c.screen.input_length, c.screen.input_cursor)

line-screen_scroll : (c : Console) → line (screen_scroll c) ≡ line c
unfolding screen_scroll update_hardware_cursor
line-screen_scroll c = refl

line-fit_row : (y : ℕ) (c : Console) → line (fit_row y c).1 ≡ line c
unfolding fit_row
line-fit_row y c = elim (Bool-cases (leb 25 y)) [
  | inr fits ↦ rw fits refl
  | inl full ↦ rw full (elim (Bool-cases (ltb 0 (screen_scroll c).screen.input_start_y)) [
    | inl some_left ↦ rw some_left (line-screen_scroll c)
    | inr top ↦ rw top (line-screen_scroll c)
  ])
]

line-draw_cell : (x y ch : ℕ) (c : Console) → line (draw_cell x y ch c) ≡ line c
unfolding draw_cell
line-draw_cell x y ch c = elim (Bool-cases (ltb y 25)) [
  | inl inside ↦ rw inside refl
  | inr below ↦ rw below refl
]

line-redraw_inserted : (left i : ℕ) (c : Console) → line (redraw_inserted left i c) ≡ line c
unfolding redraw_inserted
line-redraw_inserted zero i c = refl
line-redraw_inserted (suc left) i c =
    line-redraw_inserted left (i + 1) _
    ∙ line-draw_cell (place i c.screen).0 (fit_row (place i c.screen).1 c).0 _
        (fit_row (place i c.screen).1 c).1
    ∙ line-fit_row (place i c.screen).1 c

line-redraw_deleted : (left i : ℕ) (c : Console) → line (redraw_deleted left i c) ≡ line c
unfolding redraw_deleted
line-redraw_deleted zero i c = refl
line-redraw_deleted (suc left) i c =
    line-redraw_deleted left (i + 1) _
    ∙ line-draw_cell (place i c.screen).0 (place i c.screen).1 _ c

line-erase_inserted : (c : Console) → line (erase_inserted c) ≡ line c
unfolding erase_inserted
line-erase_inserted c =
    let p = place c.screen.input_length c.screen in
    line-draw_cell p.0 (fit_row p.1 c).0 32 (fit_row p.1 c).1 ∙ line-fit_row p.1 c

line-erase_deleted : (c : Console) → line (erase_deleted c) ≡ line c
unfolding erase_deleted
line-erase_deleted c = let p = place c.screen.input_length c.screen in line-draw_cell p.0 p.1 32 c

-- moving on by one character
abbrev moved : Console → Console
moved c = record c {
  screen = record c.screen { input_cursor = (c.screen.input_cursor + 1) % 2 ^ 32 };
}

line-advance_cursor : (c : Console) → line (advance_cursor c) ≡ line (moved c)
unfolding advance_cursor update_hardware_cursor
line-advance_cursor c =
    line-fit_row (place (moved c).screen.input_cursor (moved c).screen).1 (moved c)

line-follow_cursor : (c : Console) → line (follow_cursor c) ≡ line c
unfolding follow_cursor update_hardware_cursor
line-follow_cursor c = refl

-- the text, its length and the place in it, of a screen
abbrev pub text_of : ScreenState → (ℕ → ℕ) × ℕ × ℕ
text_of s = (s.buffer, s.input_length, s.input_cursor)

-- the line after an insertion
abbrev typed : ℕ → ScreenState → ScreenState
typed ch s = record (insert_text ch s) { input_cursor = (s.input_cursor + 1) % 2 ^ 32 }

line-input_insert_char_at_cursor :
    (ch : ℕ) (c : Console)
    → 32 ≤ ch
    → ch ≤ 126
    → c.screen.input_length < 3999
    → line (input_insert_char_at_cursor ch c) ≡ text_of (typed ch c.screen)
unfolding input_insert_char_at_cursor insert_text
line-input_insert_char_at_cursor ch c lo hi room =
    let a : leb 32 ch ≡ true = ground arith in
    let b : leb ch 126 ≡ true = ground arith in
    let d : ltb c.screen.input_length 3999 ≡ true = ground arith in
    let c1 : Console = record c { screen = insert_text ch c.screen } in
    let c2 : Console =
      redraw_inserted (c1.screen.input_length - c1.screen.input_cursor) c1.screen.input_cursor c1 in
    rw (a, b, d)
      (line-advance_cursor (erase_inserted c2)
        ∙ ap (λ (l : (ℕ → ℕ) × ℕ × ℕ). (l.0, l.1, (l.2 + 1) % 2 ^ 32))
            (line-erase_inserted c2 ∙ line-redraw_inserted _ c1.screen.input_cursor c1))

pub line-input_delete_char_at_cursor :
    (c : Console)
    → 0 < c.screen.input_cursor
    → 0 < c.screen.input_length
    → line (input_delete_char_at_cursor c) ≡ text_of (delete_text c.screen)
unfolding input_delete_char_at_cursor
line-input_delete_char_at_cursor c h k =
    let a : ltb 0 c.screen.input_cursor ≡ true = ground arith in
    let b : ltb 0 c.screen.input_length ≡ true = ground arith in
    let c1 : Console = record c { screen = delete_text c.screen } in
    let c2 : Console =
      redraw_deleted (c1.screen.input_length - c1.screen.input_cursor) c1.screen.input_cursor c1 in
    rw (a, b)
      (line-follow_cursor (erase_deleted c2)
        ∙ line-erase_deleted c2
        ∙ line-redraw_deleted _ c1.screen.input_cursor c1)

-- a deletion depends on the line only
text_of-delete_text :
    (s t : ScreenState) → text_of s ≡ text_of t → text_of (delete_text s) ≡ text_of (delete_text t)
unfolding delete_text
text_of-delete_text s t e =
    ap
      (λ (l : (ℕ → ℕ) × ℕ × ℕ).
        text_of (delete_text (record s { buffer = l.0; input_length = l.1; input_cursor = l.2 })))
      e

-- A printable character, typed with the cursor in the line and with room in the buffer, is put into
-- the line before the cursor: the characters before it stay, those behind it move up by one, the
-- line is one longer and ended by a 0, and the cursor moves on by one.
pub input_insert_char_at_cursor-Inserted :
    (ch : ℕ) (c : Console)
    → 32 ≤ ch
    → ch ≤ 126
    → c.screen.input_cursor ≤ c.screen.input_length
    → c.screen.input_length < 3999
    → Inserted ch c.screen (input_insert_char_at_cursor ch c).screen
      × ((input_insert_char_at_cursor ch c).screen.input_cursor ≡ c.screen.input_cursor + 1)
input_insert_char_at_cursor-Inserted ch c lo hi h room =
    let e = line-input_insert_char_at_cursor ch c lo hi room in
    let i = insert_text-Inserted ch c.screen h room in
    let buffer = ap (λ (l : (ℕ → ℕ) × ℕ × ℕ). l.0) e in
    let length = ap (λ (l : (ℕ → ℕ) × ℕ × ℕ). l.1) e in
    let cursor = ap (λ (l : (ℕ → ℕ) × ℕ × ℕ). l.2) e in
    (
      record {
        length = length ∙ i.length;
        before = λ j lt. ap (λ (b : ℕ → ℕ). b j) buffer ∙ i.before j lt;
        new = ap (λ (b : ℕ → ℕ). b c.screen.input_cursor) buffer ∙ i.new;
        behind = λ j p q. ap (λ (b : ℕ → ℕ). b (j + 1)) buffer ∙ i.behind j p q;
        terminated = rw (buffer, length) i.terminated;
      },
      cursor ∙ omega arith,
    )

-- Typing a printable character and deleting it again gives the line back: its length, the place of
-- the cursor in it and each of its characters.
pub input_delete_char_at_cursor-input_insert_char_at_cursor :
    (ch : ℕ) (c : Console)
    → 32 ≤ ch
    → ch ≤ 126
    → c.screen.input_cursor ≤ c.screen.input_length
    → c.screen.input_length < 3999
    → let d = (input_delete_char_at_cursor (input_insert_char_at_cursor ch c)).screen in
      (d.input_length ≡ c.screen.input_length)
      × (d.input_cursor ≡ c.screen.input_cursor)
      × ((j : ℕ) → j < c.screen.input_length → d.buffer j ≡ c.screen.buffer j)
input_delete_char_at_cursor-input_insert_char_at_cursor ch c lo hi h room =
    let (i, cursor) = input_insert_char_at_cursor-Inserted ch c lo hi h room in
    let (l, k, same) = delete_text-insert_text ch c.screen h room in
    let small : (c.screen.input_cursor + 1) % 2 ^ 32 ≡ c.screen.input_cursor + 1 = omega arith in
    let e : text_of (typed ch c.screen)
        ≡ text_of (record (insert_text ch c.screen) { input_cursor = c.screen.input_cursor + 1 }) =
      ap (λ (x : ℕ). text_of (record (insert_text ch c.screen) { input_cursor = x })) small in
    let all =
      line-input_delete_char_at_cursor (input_insert_char_at_cursor ch c) (omega (arith, cursor))
        (omega (arith, i.length))
      ∙ text_of-delete_text _ _ (line-input_insert_char_at_cursor ch c lo hi room ∙ e) in
    (
      ap (λ (x : (ℕ → ℕ) × ℕ × ℕ). x.1) all ∙ l,
      ap (λ (x : (ℕ → ℕ) × ℕ × ℕ). x.2) all ∙ k,
      λ j hj. ap (λ (x : (ℕ → ℕ) × ℕ × ℕ). x.0 j) all ∙ same j hj,
    )
