-- ===== src/String/Measure.antt =====
-- `strlen` and `strcmp` on texts.
use kfs.Base.{
  Bool, ℕ, zero, suc, ◌+◌, ◌<◌, ◌≡◌, ◌≢◌, refl, sym, ap, ◌∙◌, ◌⊎◌, inl, inr, ◌↔◌, arith, List, [],
  ◌∷◌, length, ◌==◌, ==-ne, true, false, not, ◌&&◌,
}
use native.Mathlib.Decide.{ℕ_discrete}
use kfs.Machine.Mem.{Mem}
use kfs.Machine.Int.{ℤ, pos, difference}
use kfs.Machine.Outcome.{Outcome, ok}
use kfs.String.{strlen_from, strlen, strcmp}
use kfs.String.Text.{IsText}

strlen_from-IsText :
    (fuel : ℕ) (m : Mem) (str len : ℕ) (cs : List ℕ)
    → IsText m (str + len) cs
    → length cs < fuel
    → strlen_from fuel m str len ≡ ok (len + length cs)
unfolding strlen_from
strlen_from-IsText zero m str len cs t h = absurd (omega arith)
strlen_from-IsText (suc fuel) m str len [] t h = rw (strlen_from, t) (ap ok (omega arith))
strlen_from-IsText (suc fuel) m str len (c ∷ cs) (e, ne, small, t) h =
    rw (strlen_from, e, ==-ne c 0 ne)
      (strlen_from-IsText fuel m str (len + 1) cs
          (let f : str + (len + 1) ≡ str + len + 1 = omega arith in rw f t) (omega arith)
        ∙ ap ok (omega arith))

-- With fuel for the text and its end, `strlen` returns the number of bytes of the text.
pub strlen-IsText :
    (fuel : ℕ) (m : Mem) (str : ℕ) (cs : List ℕ)
    → IsText m str cs
    → length cs < fuel
    → strlen fuel m str ≡ ok (length cs)
unfolding strlen
strlen-IsText fuel m str cs t h =
    strlen_from-IsText fuel m str 0 cs (let f : str + 0 ≡ str = omega arith in rw f t) h
    ∙ ap ok (omega arith)

-- What `strcmp` says of two texts: it returns, and 0 exactly if they are the same.
abbrev pub Compares : Outcome ℤ → List ℕ → List ℕ → Type 0
Compares o xs ys = (d : ℤ) × (o ≡ ok d) × ((d ≡ pos 0) ↔ (xs ≡ ys))

difference_zero : (a b : ℕ) → difference a b ≡ pos 0 → a ≡ b
difference_zero a b e = ground arith

abbrev head_or : List ℕ → ℕ
head_or [] = 0
head_or (x ∷ xs) = x

abbrev tail_of : List ℕ → List ℕ
tail_of [] = []
tail_of (x ∷ xs) = xs

not_going : (a b : ℕ) → (a ≡ 0) ⊎ (a ≢ b) → (not (a == 0) && (a == b)) ≡ false
not_going a b h = ground arith

going : (a b : ℕ) → a ≢ 0 → a ≡ b → (not (a == 0) && (a == b)) ≡ true
going a b h same = ground arith

module _ (fuel : ℕ) (m : Mem) (s1 s2 x y : ℕ) (e : m s1 ≡ x) (f : m s2 ≡ y) where
  branch : Bool → Outcome ℤ
  branch b = elim b [
    | true ↦ strcmp fuel m (s1 + 1) (s2 + 1)
    | false ↦ ok (difference (m s1) (m s2))
  ]

  strcmp_stop : (x ≡ 0) ⊎ (x ≢ y) → strcmp (suc fuel) m s1 s2 ≡ ok (difference x y)
  unfolding strcmp branch
  strcmp_stop h = ap branch (not_going (m s1) (m s2) (rw (e, f) h)) ∙ rw (e, f) refl

  strcmp_step : x ≢ 0 → x ≡ y → strcmp (suc fuel) m s1 s2 ≡ strcmp fuel m (s1 + 1) (s2 + 1)
  unfolding strcmp branch
  strcmp_step h same = ap branch (going (m s1) (m s2) (rw e h) (e ∙ same ∙ sym f))

-- With fuel for the first text and its end, `strcmp` returns, and it returns 0 exactly if the texts
-- are equal.
pub strcmp-Compares :
    (fuel : ℕ) (m : Mem) (s1 s2 : ℕ) (xs ys : List ℕ)
    → IsText m s1 xs
    → IsText m s2 ys
    → length xs < fuel
    → Compares (strcmp fuel m s1 s2) xs ys
unfolding strcmp
strcmp-Compares zero m s1 s2 xs ys t u h = absurd (omega arith)
strcmp-Compares (suc fuel) m s1 s2 [] [] t u h =
    (pos 0, strcmp_stop fuel m s1 s2 0 0 t u (inl refl), (λ e. refl, λ e. refl))
strcmp-Compares (suc fuel) m s1 s2 [] (y ∷ ys) t (f, ne, small, u) h = (
  difference 0 y,
  strcmp_stop fuel m s1 s2 0 y t f (inl refl),
  (λ e. absurd (ne (sym (difference_zero 0 y e))), λ e. absurd (ne (sym (ap head_or e)))),
)
strcmp-Compares (suc fuel) m s1 s2 (x ∷ xs) [] (e, ne, small, t) u h = (
  difference x 0,
  strcmp_stop fuel m s1 s2 x 0 e u (inr ne),
  (λ d. absurd (ne (difference_zero x 0 d)), λ d. absurd (ne (ap head_or d))),
)
strcmp-Compares (suc fuel) m s1 s2 (x ∷ xs) (y ∷ ys) (e, ne, small, t) (f, ne', small', u) h =
    elim (ℕ_discrete x y) [
      | yes same ↦
          let (d, r, (fw, bw)) = strcmp-Compares fuel m (s1 + 1) (s2 + 1) xs ys t u (omega arith) in
          (
            d,
            strcmp_step fuel m s1 s2 x y e f ne same ∙ r,
            (λ z. cc (fw z, same), λ z. bw (ap tail_of z)),
          )
      | no other ↦ (
        difference x y,
        strcmp_stop fuel m s1 s2 x y e f (inr other),
        (λ d. absurd (other (difference_zero x y d)), λ d. absurd (other (ap head_or d))),
      )
    ]
