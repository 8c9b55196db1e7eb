-- ===== src/Paging/Fill.antt =====
-- The loops that write a table word by word.
use kfs.Base.{ℕ, zero, suc, ◌+◌, ◌*◌, ◌^◌, ◌≤◌, ◌<◌, ◌≡◌, refl, ◌∙◌, ◌⊎◌, inl, arith}
use native.Mathlib.Decide.{ℕ_discrete}
use kfs.Machine.Mem.{Mem, load32, store32, store32_outside, load32-store32, load32_agree}
use kfs.Paging.{fill_words}

pub fill_words_outside :
    (left i table : ℕ) (value : ℕ → ℕ) (m : Mem) (x : ℕ)
    → (x < table + 4 * i) ⊎ (table + 4 * (i + left) ≤ x)
    → fill_words left i table value m x ≡ m x
unfolding fill_words
fill_words_outside zero i table value m x o = refl
fill_words_outside (suc left) i table value m x o =
    fill_words_outside left (i + 1) table value _ x (omega arith)
    ∙ store32_outside m (table + 4 * i) (value i) x (omega arith)

-- Word `j` of the filled part holds the value for `j`.
pub load32-fill_words :
    (left i table : ℕ) (value : ℕ → ℕ) (m : Mem) (j : ℕ)
    → i ≤ j
    → j < i + left
    → value j < 2 ^ 32
    → load32 (fill_words left i table value m) (table + 4 * j) ≡ value j
unfolding fill_words
load32-fill_words zero i table value m j lo hi w = absurd (omega arith)
load32-fill_words (suc left) i table value m j lo hi w = elim (ℕ_discrete i j) [
  | yes e ↦
      load32_agree (store32 m (table + 4 * i) (value i)) _ (table + 4 * j)
        (λ x p q. fill_words_outside left (i + 1) table value _ x (inl (omega arith)))
      ∙ rw e (load32-store32 m (table + 4 * j) (value j) w)
  | no ne ↦ load32-fill_words left (i + 1) table value _ j (omega arith) (omega arith) w
]
