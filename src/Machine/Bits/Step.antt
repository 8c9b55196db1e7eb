-- ===== src/Machine/Bits/Step.antt =====
-- The native bit operations by their lowest digit, without the fuel of their definition.
use Prim.Native.Nat.{digits, bitwise, bit_and-bitwise, bit_or-bitwise}
use native.Mathlib.Nat.{le_refl}
use kfs.Base.{ℕ, zero, suc, ◌+◌, ◌*◌, ◌/◌, ◌%◌, ◌≤◌, min, max, bit_and, bit_or, ◌≡◌, refl, arith}

module _ (rest : ℕ → ℕ) (op : ℕ → ℕ → ℕ) where
  -- any two amounts of fuel that reach to the last digit of `x` do the same
  enough_digits : (x y k l : ℕ) → x ≤ l → x ≤ k → digits rest op k x y ≡ digits rest op l x y
  enough_digits zero y zero zero to_l to_k = refl
  enough_digits zero y zero (suc l) to_l to_k = refl
  enough_digits zero y (suc k) zero to_l to_k = refl
  enough_digits zero y (suc k) (suc l) to_l to_k = refl
  enough_digits (suc x) y k zero to_l to_k = absurd (omega arith)
  enough_digits (suc x) y zero (suc l) to_l to_k = absurd (omega arith)
  enough_digits (suc x) y (suc k) (suc l) to_l to_k =
      let half = enough_digits (suc x / 2) (y / 2) k l (omega arith) (omega arith) in rw half

  lowest_digit :
      (x y : ℕ)
      → bitwise rest op (suc x) y ≡ op (suc x % 2) (y % 2) + 2 * bitwise rest op (suc x / 2) (y / 2)
  lowest_digit x y =
      let half : suc x / 2 ≤ x = omega arith in
      omega (arith, enough_digits (suc x / 2) (y / 2) x (suc x / 2) (le_refl _) half)

pub bit_or_step : (x y : ℕ) → bit_or x y ≡ max (x % 2) (y % 2) + 2 * bit_or (x / 2) (y / 2)
bit_or_step (suc x) y = simp bit_or-bitwise (lowest_digit (λ low. low) max x y)
bit_or_step zero y = simp bit_or-bitwise (omega arith)

pub bit_and_step : (x y : ℕ) → bit_and x y ≡ min (x % 2) (y % 2) + 2 * bit_and (x / 2) (y / 2)
bit_and_step (suc x) y = simp bit_and-bitwise (lowest_digit (λ low. 0) min x y)
bit_and_step zero y = simp bit_and-bitwise (omega arith)
