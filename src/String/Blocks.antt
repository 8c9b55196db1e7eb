-- ===== src/String/Blocks.antt =====
-- `memset` and `memcpy`: which bytes they write.
use kfs.Base.{ℕ, zero, suc, ◌+◌, ◌-◌, ◌%◌, ◌^◌, ◌≤◌, ◌<◌, ◌≡◌, refl, sym, ap, ◌∙◌, ◌⊎◌, arith}
use native.Mathlib.Decide.{ℕ_discrete}
use kfs.Machine.Mem.{Mem, store8}
use kfs.String.{memset, memcpy}
use kfs.String.Text.{store8_ne}

store8_byte : (m : Mem) (a v : ℕ) → store8 m a v a ≡ v % 2 ^ 8
unfolding store8
store8_byte m a v = ground arith

-- The bytes from `a` to `a + n` in `m'` are those of `f`, the others those of `m`.
pub record Written (m : Mem) (a n : ℕ) (f : ℕ → ℕ) (m' : Mem) : Type 0 where
  pub inside : (i : ℕ) → i < n → m' (a + i) ≡ f i
  pub outside : (x : ℕ) → (x < a) ⊎ (a + n ≤ x) → m' x ≡ m x

-- one byte and then the bytes behind it
Written-cons :
    (m : Mem) (a n v : ℕ) (f g : ℕ → ℕ) (m' : Mem)
    → f 0 ≡ v % 2 ^ 8
    → ((i : ℕ) → i < n → g i ≡ f (i + 1))
    → Written (store8 m a v) (a + 1) n g m'
    → Written m a (suc n) f m'
Written-cons m a n v f g m' e same w = record {
  inside = λ i h. elim (ℕ_discrete i 0) [
    | yes first ↦
        let g : a + 0 ≡ a = omega arith in
        rw (first, g) (w.outside a (omega arith) ∙ store8_byte m a v ∙ sym e)
    | no later ↦
        let g : a + 1 + (i - 1) ≡ a + i = omega arith in
        let k : i - 1 + 1 ≡ i = omega arith in
        sym (ap m' g) ∙ w.inside (i - 1) (omega arith) ∙ same (i - 1) (omega arith) ∙ ap f k
  ];
  outside = λ x out. w.outside x (omega arith) ∙ store8_ne m a v x (omega arith);
}

-- `memset` writes the low byte of `value` to `num` bytes from `p` on and changes no other.
pub memset-Written :
    (num : ℕ) (m : Mem) (p value : ℕ) → Written m p num (λ i. value % 2 ^ 8) (memset m p value num)
unfolding memset
memset-Written zero m p value = record {
  inside = λ i h. absurd (omega arith);
  outside = λ x out. refl;
}
memset-Written (suc num) m p value =
    Written-cons m p num value (λ i. value % 2 ^ 8) _ _ refl (λ i h. refl)
      (memset-Written num (store8 m p value) (p + 1) value)

store8-IsBytes : (m : Mem) (a v : ℕ) → ((x : ℕ) → m x < 2 ^ 8) → (x : ℕ) → store8 m a v x < 2 ^ 8
unfolding store8
store8-IsBytes m a v b x = ground (arith, b x)

-- With bytes in memory and the source apart from the destination, `memcpy` writes the `num` bytes at `s` to `d` and
-- changes no other.
pub memcpy-Written :
    (num : ℕ) (m : Mem) (d s : ℕ)
    → (s + num ≤ d) ⊎ (d + num ≤ s)
    → ((x : ℕ) → m x < 2 ^ 8)
    → Written m d num (λ i. m (s + i)) (memcpy m d s num)
unfolding memcpy
memcpy-Written zero m d s o b = record {
  inside = λ i h. absurd (omega arith);
  outside = λ x out. refl;
}
memcpy-Written (suc num) m d s o b =
    let e : s + 0 ≡ s = omega arith in
    let byte : m s % 2 ^ 8 ≡ m s = omega (arith, b s) in
    let rest =
      memcpy-Written num (store8 m d (m s)) (d + 1) (s + 1) (omega arith)
        (store8-IsBytes m d (m s) b) in
    Written-cons m d num (m s) (λ i. m (s + i)) _ _ (ap m e ∙ sym byte)
      (λ i h.
        store8_ne m d (m s) (s + 1 + i) (omega arith)
        ∙ (let g : s + 1 + i ≡ s + (i + 1) = omega arith in ap m g))
      rest
