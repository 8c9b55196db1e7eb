-- ===== src/String/Copy.antt =====
-- src/string.c: `strcpy` and `strcat` on texts.
use kfs.Base.{ℕ, zero, suc, ◌+◌, ◌<◌, ◌≡◌, ap, ◌∙◌, ◌⊎◌, arith, List, [], ◌∷◌, length, ==-ne}
use kfs.Machine.Mem.{Mem, store8}
use kfs.Machine.Outcome.{ok}
use kfs.String.{strcpy, strcat}
use kfs.String.Text.{IsText, IsText-agree, store8_here, store8_ne}

-- The memory `m'` is `m` with the text `cs` at `dest`.
pub record Copied (m : Mem) (dest : ℕ) (cs : List ℕ) (m' : Mem) : Type 0 where
  pub text : IsText m' dest cs
  pub elsewhere : (x : ℕ) → (x < dest) ⊎ (dest + length cs < x) → m' x ≡ m x

-- the bytes of the texts of two pointers do not meet
abbrev pub Apart : ℕ → ℕ → ℕ → Type 0
Apart n dest src = (src + n < dest) ⊎ (dest + n < src)

-- With fuel for the text and its end, and room for the copy apart from it, `strcpy` returns: the
-- text then stands at `dest`, and no other byte has changed.
pub strcpy-Copied :
    (fuel : ℕ) (m : Mem) (dest src : ℕ) (cs : List ℕ)
    → IsText m src cs
    → length cs < fuel
    → Apart (length cs) dest src
    → (m' : Mem) × (strcpy fuel m dest src ≡ ok m') × Copied m dest cs m'
unfolding strcpy
strcpy-Copied zero m dest src cs t h o = absurd (omega arith)
strcpy-Copied (suc fuel) m dest src [] t h o = (
  store8 m dest 0,
  rw (strcpy, t) (ap (λ (v : ℕ). ok (store8 m dest v)) t),
  record {
    text = store8_here m dest 0 (omega arith);
    elsewhere = λ x out. store8_ne m dest 0 x (omega arith);
  },
)
strcpy-Copied (suc fuel) m dest src (c ∷ cs) (e, ne, small, t) h o =
    let m1 = store8 m dest c in
    let t1 = IsText-agree m m1 (src + 1) cs t (λ x lo hi. store8_ne m dest c x (omega arith)) in
    let (m', r, w) = strcpy-Copied fuel m1 (dest + 1) (src + 1) cs t1 (omega arith) (omega arith) in
    (
      m',
      rw (strcpy, e, ==-ne c 0 ne)
          (ap (λ (v : ℕ). strcpy fuel (store8 m dest v) (dest + 1) (src + 1)) e ∙ r),
      record {
        text = (w.elsewhere dest (omega arith) ∙ store8_here m dest c small, ne, small, w.text);
        elsewhere = λ x out. w.elsewhere x (omega arith) ∙ store8_ne m dest c x (omega arith);
      },
    )

-- With fuel for the two texts, and room behind the first apart from the second, `strcat` returns:
-- the second text then stands behind the first, and no byte outside of it has changed.
pub strcat-Copied :
    (fuel : ℕ) (m : Mem) (dest src : ℕ) (xs ys : List ℕ)
    → IsText m dest xs
    → IsText m src ys
    → length xs + length ys < fuel
    → Apart (length ys) (dest + length xs) src
    → (m' : Mem) × (strcat fuel m dest src ≡ ok m')
      × IsText m' (dest + length xs) ys
      × ((x : ℕ) → (x < dest + length xs) ⊎ (dest + length xs + length ys < x) → m' x ≡ m x)
unfolding strcat
strcat-Copied zero m dest src xs ys t u h o = absurd (omega arith)
strcat-Copied (suc fuel) m dest src [] ys t u h o =
    let (m', r, w) = strcpy-Copied (suc fuel) m dest src ys u (omega arith) (omega arith) in
    let e : dest + 0 ≡ dest = omega arith in
    (m', rw (strcat, t) r, rw e w.text, λ x out. w.elsewhere x (omega arith))
strcat-Copied (suc fuel) m dest src (c ∷ xs) ys (e, ne, small, t) u h o =
    let (m', r, text, same) =
      strcat-Copied fuel m (dest + 1) src xs ys t u (omega arith) (omega arith) in
    let f : dest + suc (length xs) ≡ dest + 1 + length xs = omega arith in
    (m', rw (strcat, e, ==-ne c 0 ne) r, rw f text, λ x out. same x (omega arith))
