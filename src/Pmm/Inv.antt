-- ===== src/Pmm/Inv.antt =====
-- src/pmm.c: the invariant of the page manager and the count of clear bits.
use kfs.Base.{
  ℕ, zero, suc, ◌+◌, ◌-◌, ◌/◌, ◌≤◌, ◌<◌, ◌≡◌, ◌≢◌, refl, sym, ◌∙◌, true, false, List, arith,
  if◌then◌else◌, length,
}
use native.Mathlib.Decide.{ℕ_discrete}
use kfs.Pmm.{
  Pmm, set_bit, clr_bit, tst_bit, bitmap_words, take_page, pmm_start, pmm_max_bytes, page_size,
}
use kfs.Pmm.Bitmap.{tst_bit-set, tst_bit-clr, length-set_bit}

-- the clear bits among the `left` pages from page `i` on
unfoldable pub count_free : List ℕ → ℕ → ℕ → ℕ
count_free bitmap zero i = 0
count_free bitmap (suc left) i =
    (if tst_bit bitmap i then 0 else 1) + count_free bitmap left (i + 1)

pub record IsValid (s : Pmm) : Type 0 where
  pub words : length s.bitmap ≡ bitmap_words
  pub small : s.total_pages ≤ (pmm_max_bytes - pmm_start) / page_size
  pub counted : s.free_pages ≡ count_free s.bitmap s.total_pages 0

pub count_free-le : (b : List ℕ) (left i : ℕ) → count_free b left i ≤ left
unfolding count_free
count_free-le b zero i = omega arith
count_free-le b (suc left) i = ground (arith, count_free-le b left (i + 1))

pub count_free_agree :
    (b c : List ℕ) (left i : ℕ)
    → ((x : ℕ) → i ≤ x → x < i + left → tst_bit c x ≡ tst_bit b x)
    → count_free c left i ≡ count_free b left i
unfolding count_free
count_free_agree b c zero i h = refl
count_free_agree b c (suc left) i h = rw (
  h i (omega arith) (omega arith),
  count_free_agree b c left (i + 1) (λ x lo hi. h x (omega arith) (omega arith)),
)

-- Where every bit is set the count is 0, and a positive count shows a clear bit.
pub count_free-zero :
    (b : List ℕ) (left i : ℕ)
    → ((x : ℕ) → i ≤ x → x < i + left → tst_bit b x ≡ true)
    → count_free b left i ≡ 0
unfolding count_free
count_free-zero b zero i h = refl
count_free-zero b (suc left) i h =
    rw (h i (omega arith) (omega arith))
      (omega (arith, count_free-zero b left (i + 1) (λ x lo hi. h x (omega arith) (omega arith))))

pub count_free-full :
    (b : List ℕ) (left i : ℕ)
    → ((x : ℕ) → i ≤ x → x < i + left → tst_bit b x ≡ false)
    → count_free b left i ≡ left
unfolding count_free
count_free-full b zero i h = refl
count_free-full b (suc left) i h =
    rw (h i (omega arith) (omega arith))
      (omega (arith, count_free-full b left (i + 1) (λ x lo hi. h x (omega arith) (omega arith))))

-- One bit more is clear in `c`, at `j`.
count_free_differ :
    (b c : List ℕ) (j left i : ℕ)
    → i ≤ j
    → j < i + left
    → tst_bit b j ≡ true
    → tst_bit c j ≡ false
    → ((x : ℕ) → x ≢ j → tst_bit c x ≡ tst_bit b x)
    → count_free c left i ≡ suc (count_free b left i)
unfolding count_free
count_free_differ b c j zero i lo hi hb hc h = absurd (omega arith)
count_free_differ b c j (suc left) i lo hi hb hc h = elim (ℕ_discrete i j) [
  | yes e ↦
      rw (e, hb, hc) (omega (arith, count_free_agree b c left (j + 1) (λ x p q. h x (omega arith))))
  | no ne ↦
      rw (h i ne)
        (omega (arith, count_free_differ b c j left (i + 1) (omega arith) (omega arith) hb hc h))
]

module _ (b : List ℕ) (j left : ℕ) (words : length b ≡ bitmap_words) (inside : j < left)
    (small : left ≤ 2304) where
  pub count_free-set :
      tst_bit b j ≡ false → suc (count_free (set_bit b j) left 0) ≡ count_free b left 0
  count_free-set h = sym (
      count_free_differ (set_bit b j) b j left 0 (omega arith) (omega arith)
        (ground (arith, tst_bit-set b j (omega arith) j)) h
        (λ x ne. ground (arith, tst_bit-set b j (omega arith) x)))

  pub count_free-clr :
      tst_bit b j ≡ true → count_free (clr_bit b j) left 0 ≡ suc (count_free b left 0)
  count_free-clr h =
      count_free_differ b (clr_bit b j) j left 0 (omega arith) (omega arith) h
        (ground (arith, tst_bit-clr b j (omega arith) j))
        (λ x ne. ground (arith, tst_bit-clr b j (omega arith) x))

-- Taking a free page keeps the invariant.
pub take_page-IsValid :
    {s : Pmm} (j : ℕ)
    → IsValid s
    → j < s.total_pages
    → tst_bit s.bitmap j ≡ false
    → IsValid (take_page j s) × (suc (take_page j s).free_pages ≡ s.free_pages)
unfolding take_page
take_page-IsValid {s} j v inside free =
    let n = count_free-set s.bitmap j s.total_pages v.words inside (omega arith) free in
    let m = count_free-le s.bitmap s.total_pages 0 in
    (
      record {
        words = length-set_bit s.bitmap j ∙ v.words;
        small = v.small;
        counted = omega arith;
      },
      omega arith,
    )
