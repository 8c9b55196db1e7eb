-- ===== src/Pmm/Bitmap.antt =====
-- The bitmap of pmm.c as a set of page indices: what `set_bit` and `clr_bit` change.
use kfs.Base.{
  ℕ, ◌/◌, ◌%◌, ◌^◌, ◌<◌, ◌≡◌, ◌≢◌, refl, sym, ap, ◌∙◌, true, false, List, arith, ◌==◌, ==-ne,
  ==-refl, if◌then◌else◌, length, set, length-set, get_or-set_self, get_or-set_ne,
}
use kfs.Machine.Bits.{
  bit_at, bit_at-eq-shift, bit_at-bit_or, bit_at-bit_and, bit_at-pow_self, bit_at-pow_ne,
  bit_at-complement, bit_at-lt,
}
use native.Mathlib.Decide.{ℕ_discrete}
use native.Mathlib.Nat.{pow-le-pow_right}
use kfs.Pmm.{set_bit, clr_bit, tst_bit, word_of}

-- the bit that stands for page `idx`
abbrev page_bit : List ℕ → ℕ → ℕ
page_bit bitmap idx = bit_at (word_of bitmap idx) (idx % 32)

tst_bit-eq : (bitmap : List ℕ) (idx : ℕ) → tst_bit bitmap idx ≡ (page_bit bitmap idx == 1)
unfolding tst_bit
tst_bit-eq bitmap idx = rw (bit_at-eq-shift (word_of bitmap idx) (idx % 32))

tst_bit_of_bits : (b c : List ℕ) (i j : ℕ) → page_bit b i ≡ page_bit c j → tst_bit b i ≡ tst_bit c j
tst_bit_of_bits b c i j h = tst_bit-eq b i ∙ ap (λ t. t == 1) h ∙ sym (tst_bit-eq c j)

module _ (bitmap : List ℕ) (i v : ℕ) (h : i / 32 < length bitmap) where
  word_of-set_self : (j : ℕ) → i / 32 ≡ j / 32 → word_of (set bitmap (i / 32) v) j ≡ v
  word_of-set_self j e = rw (← e) (get_or-set_self bitmap (i / 32) v 0 h)

  word_of-set_ne : (j : ℕ) → i / 32 ≢ j / 32 → word_of (set bitmap (i / 32) v) j ≡ word_of bitmap j
  word_of-set_ne j e = get_or-set_ne bitmap (i / 32) (j / 32) v 0 e

same_index : (i j : ℕ) → i / 32 ≡ j / 32 → i % 32 ≡ j % 32 → i ≡ j
same_index i j p q = omega arith

module _ (bitmap : List ℕ) (i : ℕ) (h : i / 32 < length bitmap) where
  page_bit-set_self : page_bit (set_bit bitmap i) i ≡ 1
  unfolding set_bit
  page_bit-set_self =
      rw (word_of-set_self bitmap i _ h i refl, bit_at-bit_or, bit_at-pow_self)
        (omega (arith, bit_at-lt (word_of bitmap i) (i % 32)))

  page_bit-set_ne : (j : ℕ) → i ≢ j → page_bit (set_bit bitmap i) j ≡ page_bit bitmap j
  unfolding set_bit
  page_bit-set_ne j ne = elim (ℕ_discrete (i / 32) (j / 32)) [
    | yes e ↦
        rw
          (
            word_of-set_self bitmap i _ h j e,
            bit_at-bit_or,
            bit_at-pow_ne (i % 32) (j % 32) (λ q. ne (same_index i j e q)),
            e,
          )
          (omega arith)
    | no e ↦ rw (word_of-set_ne bitmap i _ h j e) refl
  ]

  two-pow-lt : 2 ^ (i % 32) < 2 ^ 32
  two-pow-lt =
      omega (arith, pow-le-pow_right {n = 2} (omega arith) {i = i % 32} {j = 31} (omega arith))

  page_bit-clr_self : page_bit (clr_bit bitmap i) i ≡ 0
  unfolding clr_bit
  page_bit-clr_self =
      rw
        (
          word_of-set_self bitmap i _ h i refl,
          bit_at-bit_and,
          bit_at-complement 32 (i % 32) (2 ^ (i % 32)) (omega arith) two-pow-lt,
          bit_at-pow_self,
        )
        (omega arith)

  page_bit-clr_ne : (j : ℕ) → i ≢ j → page_bit (clr_bit bitmap i) j ≡ page_bit bitmap j
  unfolding clr_bit
  page_bit-clr_ne j ne = elim (ℕ_discrete (i / 32) (j / 32)) [
    | yes e ↦
        rw
          (
            word_of-set_self bitmap i _ h j e,
            bit_at-bit_and,
            bit_at-complement 32 (j % 32) (2 ^ (i % 32)) (omega arith) two-pow-lt,
            bit_at-pow_ne (i % 32) (j % 32) (λ q. ne (same_index i j e q)),
            e,
          )
          (omega (arith, bit_at-lt (word_of bitmap j) (j % 32)))
    | no e ↦ rw (word_of-set_ne bitmap i _ h j e) refl
  ]

  -- `set_bit` marks page `i` and no other.
  pub tst_bit-set :
      (j : ℕ) → tst_bit (set_bit bitmap i) j ≡ (if i == j then true else tst_bit bitmap j)
  tst_bit-set j = elim (ℕ_discrete i j) [
    | yes e ↦ rw (tst_bit-eq, ← e, page_bit-set_self) (rw (==-refl i))
    | no ne ↦ rw (==-ne i j ne) (tst_bit_of_bits _ _ j j (page_bit-set_ne j ne))
  ]

  -- `clr_bit` frees page `i` and no other.
  pub tst_bit-clr :
      (j : ℕ) → tst_bit (clr_bit bitmap i) j ≡ (if i == j then false else tst_bit bitmap j)
  tst_bit-clr j = elim (ℕ_discrete i j) [
    | yes e ↦ rw (tst_bit-eq, ← e, page_bit-clr_self) (rw (==-refl i))
    | no ne ↦ rw (==-ne i j ne) (tst_bit_of_bits _ _ j j (page_bit-clr_ne j ne))
  ]

pub length-set_bit : (bitmap : List ℕ) (i : ℕ) → length (set_bit bitmap i) ≡ length bitmap
unfolding set_bit
length-set_bit bitmap i = length-set bitmap _ _

pub length-clr_bit : (bitmap : List ℕ) (i : ℕ) → length (clr_bit bitmap i) ≡ length bitmap
unfolding clr_bit
length-clr_bit bitmap i = length-set bitmap _ _
