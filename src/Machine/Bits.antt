-- ===== src/Machine/Bits.antt =====
-- `|`, `&` and `~` on words, bit by bit. `bit_at w k` is `(w >> k) & 1`.
mod Step
use Step.{bit_or_step, bit_and_step}
use native.Mathlib.Nat.{pow-suc, div-div-eq-div-mul, div-eq_of_lt}
use kfs.Base.{
  ℕ, zero, suc, ◌+◌, ◌-◌, ◌*◌, ◌/◌, ◌%◌, ◌^◌, ◌≤◌, ◌<◌, ◌≡◌, ◌≢◌, ◌∙◌, refl, ap, arith, min, max,
  bit_and, bit_or,
}

-- The digit recursion, by which the laws are proved.
unfoldable pub bit_at : ℕ → ℕ → ℕ
bit_at w zero = w % 2
bit_at w (suc k) = bit_at (w / 2) k

pub bit_at-eq-shift : (w k : ℕ) → bit_at w k ≡ w / 2 ^ k % 2
unfolding bit_at
bit_at-eq-shift w zero = omega arith
bit_at-eq-shift w (suc k) =
    bit_at-eq-shift (w / 2) k
    ∙ ap (λ t. t % 2)
        (div-div-eq-div-mul w 2 (2 ^ k) ∙ ap (λ t. w / t) (omega (arith, pow-suc 2 k)))

pub bit_at-bit_or : (k a b : ℕ) → bit_at (bit_or a b) k ≡ max (bit_at a k) (bit_at b k)
unfolding bit_at
bit_at-bit_or zero a b = omega (arith, bit_or_step a b)
bit_at-bit_or (suc k) a b = rw (half) (bit_at-bit_or k (a / 2) (b / 2))
  where
    half : bit_or a b / 2 ≡ bit_or (a / 2) (b / 2)
    half = omega (arith, bit_or_step a b)

pub bit_at-bit_and : (k a b : ℕ) → bit_at (bit_and a b) k ≡ min (bit_at a k) (bit_at b k)
unfolding bit_at
bit_at-bit_and zero a b = omega (arith, bit_and_step a b)
bit_at-bit_and (suc k) a b = rw (half) (bit_at-bit_and k (a / 2) (b / 2))
  where
    half : bit_and a b / 2 ≡ bit_and (a / 2) (b / 2)
    half = omega (arith, bit_and_step a b)

pub bit_at-pow_self : (k : ℕ) → bit_at (2 ^ k) k ≡ 1
unfolding bit_at
bit_at-pow_self zero = refl
bit_at-pow_self (suc k) = rw half (bit_at-pow_self k)
  where
    half : 2 ^ suc k / 2 ≡ 2 ^ k
    half = omega (arith, pow-suc 2 k)

bit_at-zero : (k : ℕ) → bit_at 0 k ≡ 0
unfolding bit_at
bit_at-zero zero = refl
bit_at-zero (suc k) = bit_at-zero k

pub bit_at-pow_ne : (k j : ℕ) → k ≢ j → bit_at (2 ^ k) j ≡ 0
unfolding bit_at
bit_at-pow_ne zero zero h = absurd (h refl)
bit_at-pow_ne zero (suc j) h = bit_at-zero j
bit_at-pow_ne (suc k) zero h = omega (arith, pow-suc 2 k)
bit_at-pow_ne (suc k) (suc j) h = rw half (bit_at-pow_ne k j (λ e. h (ap suc e)))
  where
    half : 2 ^ suc k / 2 ≡ 2 ^ k
    half = omega (arith, pow-suc 2 k)

-- `~b` of an n-bit word
pub bit_at-complement : (n k b : ℕ) → k < n → b < 2 ^ n → bit_at (2 ^ n - 1 - b) k ≡ 1 - bit_at b k
unfolding bit_at
bit_at-complement zero k b h s = absurd (omega arith)
bit_at-complement (suc n) zero b h s = omega (arith, pow-suc 2 n)
bit_at-complement (suc n) (suc k) b h s =
    rw half (bit_at-complement n k (b / 2) (omega arith) (omega (arith, pow-suc 2 n)))
  where
    half : (2 ^ suc n - 1 - b) / 2 ≡ 2 ^ n - 1 - b / 2
    half = omega (arith, pow-suc 2 n)

pub bit_at-lt : (w k : ℕ) → bit_at w k < 2
unfolding bit_at
bit_at-lt w zero = omega arith
bit_at-lt w (suc k) = bit_at-lt (w / 2) k

bit_or-zero_fuel : (n a : ℕ) → a ≤ n → bit_or a 0 ≡ a
bit_or-zero_fuel n zero h = refl
bit_or-zero_fuel zero (suc a) h = absurd (omega arith)
bit_or-zero_fuel (suc n) (suc a) h =
    omega (arith, bit_or_step (suc a) 0, bit_or-zero_fuel n (suc a / 2) (omega arith))

-- `|` of a value with low bits that it does not have is a sum.
pub bit_or-add : (k q r : ℕ) → r < 2 ^ k → bit_or (q * 2 ^ k) r ≡ q * 2 ^ k + r
bit_or-add zero q r h = ground (arith, bit_or-zero_fuel q q)
bit_or-add (suc k) q r h =
    let double : q * 2 ^ suc k ≡ 2 * (q * 2 ^ k) =
      omega (arith, ap (λ (t : ℕ). q * t) (pow-suc 2 k)) in
    ground (
      arith,
      bit_or_step (q * 2 ^ suc k) r,
      double,
      pow-suc 2 k,
      bit_or-add k q (r / 2) (omega (arith, pow-suc 2 k)),
    )

div-one : (a : ℕ) → a / 1 ≡ a
div-one a = omega arith

shift-suc : (w k : ℕ) → w / 2 / 2 ^ k ≡ w / 2 ^ suc k
shift-suc w k = div-div-eq-div-mul w 2 (2 ^ k) ∙ ap (λ t. w / t) (omega (arith, pow-suc 2 k))

pub bit_or-div : (k a b : ℕ) → bit_or a b / 2 ^ k ≡ bit_or (a / 2 ^ k) (b / 2 ^ k)
bit_or-div zero a b = rw (div-one a, div-one b, div-one (bit_or a b))
bit_or-div (suc k) a b =
    rw (← shift-suc a k, ← shift-suc b k, ← shift-suc (bit_or a b) k, half)
      (bit_or-div k (a / 2) (b / 2))
  where
    half : bit_or a b / 2 ≡ bit_or (a / 2) (b / 2)
    half = omega (arith, bit_or_step a b)

pub bit_or-mod_two : (a b : ℕ) → bit_or a b % 2 ≡ max (a % 2) (b % 2)
bit_or-mod_two a b = omega (arith, bit_or_step a b)

-- Low bits leave the high part alone.
pub bit_or_low : (k a b : ℕ) → b < 2 ^ k → bit_or a b / 2 ^ k ≡ a / 2 ^ k
bit_or_low k a b h =
    let zero_high : b / 2 ^ k ≡ 0 = div-eq_of_lt h in
    rw (bit_or-div k a b, zero_high) (bit_or-zero_fuel (a / 2 ^ k) (a / 2 ^ k) (omega arith))

bit_or_comm_fuel : (n a b : ℕ) → a ≤ n → b ≤ n → bit_or a b ≡ bit_or b a
bit_or_comm_fuel zero a b h k = let same : a ≡ b = omega arith in cc same
bit_or_comm_fuel (suc n) a b h k = omega (
  arith,
  bit_or_step a b,
  bit_or_step b a,
  bit_or_comm_fuel n (a / 2) (b / 2) (omega arith) (omega arith),
)

pub bit_or_comm : (a b : ℕ) → bit_or a b ≡ bit_or b a
bit_or_comm a b = bit_or_comm_fuel (max a b) a b (omega arith) (omega arith)
