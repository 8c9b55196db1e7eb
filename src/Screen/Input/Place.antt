-- ===== src/Screen/Input/Place.antt =====
-- Where on the screen a character of the typed line is drawn.
use kfs.Base.{
  ℕ, zero, suc, ◌+◌, ◌-◌, ◌/◌, ◌%◌, ◌^◌, ◌≤◌, ◌<◌, ◌≡◌, ap, ◌∙◌, arith, leb, Bool-cases, inl, inr,
}
use kfs.Screen.{ScreenState}
use kfs.Screen.Input.{wrap_from, place}

wrap_from-div :
    (fuel x y : ℕ) → x ≤ fuel → y + x < 2 ^ 32 → wrap_from fuel x y ≡ (x % 80, y + x / 80)
unfolding wrap_from
wrap_from-div zero x y h k =
    ap (λ (z : ℕ). (x, z)) (omega arith) ∙ ap (λ (z : ℕ). (z, y + x / 80)) (omega arith)
wrap_from-div (suc fuel) x y h k = elim (Bool-cases (leb 80 x)) [
  | inl wide ↦
      let below : 80 ≤ x = ground arith in
      let up : (y + 1) % 2 ^ 32 ≡ y + 1 = omega arith in
      let first : (x - 80) % 80 ≡ x % 80 = omega arith in
      let second : y + 1 + (x - 80) / 80 ≡ y + x / 80 = omega arith in
      rw (wrap_from, wide, up)
        (wrap_from-div fuel (x - 80) (y + 1) (omega arith) (omega arith)
          ∙ ap (λ (z : ℕ). (z, y + 1 + (x - 80) / 80)) first
          ∙ ap (λ (z : ℕ). (x % 80, z)) second)
  | inr narrow ↦
      let above : x < 80 = ground arith in
      let first : x ≡ x % 80 = omega arith in
      let second : y ≡ y + x / 80 = omega arith in
      rw (wrap_from, narrow) (ap (λ (z : ℕ). (z, y)) first ∙ ap (λ (z : ℕ). (x % 80, z)) second)
]

-- Character `i` of the line belongs into the column and the row that lie `input_start_x + i` cells
-- behind the start of the row where the line begins: the loop makes all its rounds.
pub place-div :
    (i : ℕ) (s : ScreenState)
    → s.input_start_y + s.input_start_x + i < 2 ^ 32
    → place i s ≡ ((s.input_start_x + i) % 80, s.input_start_y + (s.input_start_x + i) / 80)
unfolding place
place-div i s h =
    let e : (s.input_start_x + i) % 2 ^ 32 ≡ s.input_start_x + i = omega arith in
    rw e (
      wrap_from-div (s.input_start_x + i) (s.input_start_x + i) s.input_start_y (omega arith)
        (omega arith))
