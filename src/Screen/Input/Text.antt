-- ===== src/Screen/Input/Text.antt =====
-- The text of the line that is being typed: inserting a character and deleting one.
use kfs.Base.{
  ℕ, zero, suc, ◌+◌, ◌-◌, ◌%◌, ◌^◌, ◌≤◌, ◌<◌, ◌≡◌, refl, ap, ◌∙◌, ◌⊎◌, inl, arith, ==-refl, ==-ne,
}
use native.Mathlib.Decide.{ℕ_discrete, dec_lt}
use kfs.Screen.{ScreenState, set_at}
use kfs.Screen.Input.{shift_right, shift_left, insert_text, delete_text}

shift_right_outside :
    (left i : ℕ) (b : ℕ → ℕ) (j : ℕ)
    → left ≤ i
    → (j ≤ i - left) ⊎ (i < j)
    → shift_right left i b j ≡ b j
unfolding shift_right
shift_right_outside zero i b j le h = refl
shift_right_outside (suc left) i b j le h =
    shift_right_outside left (i - 1) (set_at b i (b (i - 1))) j (omega arith) (omega arith)
    ∙ rw (==-ne j i (omega arith)) refl

-- The loop from `i` down to `i - left` moves the bytes there up by one.
shift_right_inside :
    (left i : ℕ) (b : ℕ → ℕ) (j : ℕ)
    → left ≤ i
    → i - left < j
    → j ≤ i
    → shift_right left i b j ≡ b (j - 1)
unfolding shift_right
shift_right_inside zero i b j le lo hi = absurd (omega arith)
shift_right_inside (suc left) i b j le lo hi = elim (ℕ_discrete j i) [
  | yes e ↦
      shift_right_outside left (i - 1) (set_at b i (b (i - 1))) j (omega arith) (omega arith)
      ∙ rw (e, ==-refl i) refl
  | no ne ↦
      shift_right_inside left (i - 1) (set_at b i (b (i - 1))) j (omega arith) (omega arith)
        (omega arith)
      ∙ rw (==-ne (j - 1) i (omega arith)) refl
]

shift_left_outside :
    (left i : ℕ) (b : ℕ → ℕ) (j : ℕ) → (j < i) ⊎ (i + left ≤ j) → shift_left left i b j ≡ b j
unfolding shift_left
shift_left_outside zero i b j h = refl
shift_left_outside (suc left) i b j h =
    shift_left_outside left (i + 1) (set_at b i (b (i + 1))) j (omega arith)
    ∙ rw (==-ne j i (omega arith)) refl

shift_left_inside :
    (left i : ℕ) (b : ℕ → ℕ) (j : ℕ) → i ≤ j → j < i + left → shift_left left i b j ≡ b (j + 1)
unfolding shift_left
shift_left_inside zero i b j lo hi = absurd (omega arith)
shift_left_inside (suc left) i b j lo hi = elim (ℕ_discrete j i) [
  | yes e ↦
      shift_left_outside left (i + 1) (set_at b i (b (i + 1))) j (omega arith)
      ∙ rw (e, ==-refl i) refl
  | no ne ↦
      shift_left_inside left (i + 1) (set_at b i (b (i + 1))) j (omega arith) (omega arith)
      ∙ rw (==-ne (j + 1) i (omega arith)) refl
]

-- The line `t` is `s` with `ch` before the cursor.
pub record Inserted (ch : ℕ) (s t : ScreenState) : Type 0 where
  pub length : t.input_length ≡ s.input_length + 1
  pub before : (j : ℕ) → j < s.input_cursor → t.buffer j ≡ s.buffer j
  pub new : t.buffer s.input_cursor ≡ ch
  pub behind : (j : ℕ) → s.input_cursor ≤ j → j < s.input_length → t.buffer (j + 1) ≡ s.buffer j
  pub terminated : t.buffer t.input_length ≡ 0

pub insert_text-Inserted :
    (ch : ℕ) (s : ScreenState)
    → s.input_cursor ≤ s.input_length
    → s.input_length < 3999
    → Inserted ch s (insert_text ch s)
unfolding insert_text
insert_text-Inserted ch s h k =
    let n : (s.input_length + 1) % 2 ^ 32 ≡ s.input_length + 1 = omega arith in
    record {
      length = n;
      before = λ j lt.
          rw (n, ==-ne j (s.input_length + 1) (omega arith), ==-ne j s.input_cursor (omega arith))
            (shift_right_outside (s.input_length - s.input_cursor) s.input_length s.buffer j
              (omega arith) (omega arith));
      new =
          rw (n, ==-ne s.input_cursor (s.input_length + 1) (omega arith), ==-refl s.input_cursor)
            refl;
      behind = λ j lo hi.
          let e : j + 1 - 1 ≡ j = omega arith in
          rw
            (
              n,
              ==-ne (j + 1) (s.input_length + 1) (omega arith),
              ==-ne (j + 1) s.input_cursor (omega arith),
            )
            (shift_right_inside (s.input_length - s.input_cursor) s.input_length s.buffer (j + 1)
                (omega arith) (omega arith) (omega arith)
              ∙ ap s.buffer e);
      terminated = rw (n, ==-refl (s.input_length + 1)) refl;
    }

-- Deleting the character that was just inserted, with the cursor behind it as the insertion leaves
-- it, gives the line back: its length, its cursor and each of its characters.
pub delete_text-insert_text :
    (ch : ℕ) (s : ScreenState)
    → s.input_cursor ≤ s.input_length
    → s.input_length < 3999
    → let t = delete_text (record (insert_text ch s) { input_cursor = s.input_cursor + 1 }) in
      (t.input_length ≡ s.input_length)
      × (t.input_cursor ≡ s.input_cursor)
      × ((j : ℕ) → j < s.input_length → t.buffer j ≡ s.buffer j)
unfolding delete_text
delete_text-insert_text ch s h k =
    let i = insert_text-Inserted ch s h k in
    let l : (insert_text ch s).input_length - 1 ≡ s.input_length = omega (arith, i.length) in
    let c : s.input_cursor + 1 - 1 ≡ s.input_cursor = omega arith in
    (
      l,
      c,
      λ j hj.
          rw (l, c, ==-ne j s.input_length (omega arith))
            (elim (dec_lt j s.input_cursor) [
              | yes lo ↦
                  shift_left_outside (s.input_length - s.input_cursor) s.input_cursor
                    (insert_text ch s).buffer j (inl lo)
                  ∙ i.before j lo
              | no hi ↦
                  shift_left_inside (s.input_length - s.input_cursor) s.input_cursor
                    (insert_text ch s).buffer j (omega arith) (omega arith)
                  ∙ i.behind j (omega arith) hj
            ]),
    )
