-- ===== src/Pmm/Alloc.antt =====
-- src/pmm.c: `pmm_alloc_page`, with a free page left and without.
use kfs.Base.{
  ℕ, zero, suc, ◌+◌, ◌*◌, ◌≤◌, ◌<◌, ◌≡◌, refl, ◌⊎◌, inl, inr, true, false, arith, Option, none,
  some, Bool-cases,
}
use native.Mathlib.Decide.{ℕ_discrete}
use kfs.Machine.Outcome.{Panic, ok, halted}
use kfs.Pmm.{Pmm, tst_bit, take_page, pmm_start, page_size, page_addr, alloc_from, pmm_alloc_page}
use kfs.Pmm.Inv.{IsValid, count_free-zero, take_page-IsValid}

-- page `j` is the first free one
pub record IsLowestFree (s : Pmm) (j : ℕ) : Type 0 where
  pub inside : j < s.total_pages
  pub free : tst_bit s.bitmap j ≡ false
  pub lowest : (x : ℕ) → x < j → tst_bit s.bitmap x ≡ true

-- What a scan of `left` pages from page `i` on finds: nothing, or the first clear bit.
abbrev Scanned : ℕ → ℕ → Pmm → Option (ℕ × Pmm) → Type 0
Scanned left i s r =
    ((r ≡ none) × ((x : ℕ) → i ≤ x → x < i + left → tst_bit s.bitmap x ≡ true))
    ⊎ ((j : ℕ) × (i ≤ j)
        × (j < i + left)
        × (tst_bit s.bitmap j ≡ false)
        × ((x : ℕ) → i ≤ x → x < j → tst_bit s.bitmap x ≡ true)
        × (r ≡ some (page_addr j, take_page j s)))

-- A set bit in front changes nothing in what a scan finds.
Scanned-skip :
    (left i : ℕ) (s : Pmm) (r : Option (ℕ × Pmm))
    → tst_bit s.bitmap i ≡ true
    → Scanned left (i + 1) s r
    → Scanned (suc left) i s r
Scanned-skip left i s r used found = go found
  where
    extend : (x : ℕ) → i ≤ x → (i + 1 ≤ x → tst_bit s.bitmap x ≡ true) → tst_bit s.bitmap x ≡ true
    extend x lo h = elim (ℕ_discrete i x) [ yes e ↦ rw (← e) used | no ne ↦ h (omega arith) ]

    go : Scanned left (i + 1) s r → Scanned (suc left) i s r
    go (inl (e, all)) = inl (e, λ x lo hi. extend x lo (λ up. all x up (omega arith)))
    go (inr (j, lo, hi, free, all, e)) =
        inr (j, omega arith, omega arith, free, (λ x p q. extend x p (λ up. all x up q)), e)

alloc_from-Scanned : (left i : ℕ) (s : Pmm) → Scanned left i s (alloc_from left i s)
unfolding alloc_from
alloc_from-Scanned zero i s = inl (refl, λ x lo hi. absurd (omega arith))
alloc_from-Scanned (suc left) i s = elim (Bool-cases (tst_bit s.bitmap i)) [
  | inl used ↦ rw used (Scanned-skip left i s _ used (alloc_from-Scanned left (i + 1) s))
  | inr free ↦
      rw free (inr (i, omega arith, omega arith, free, (λ x lo hi. absurd (omega arith)), refl))
]

page_addr-eq : (j : ℕ) → j < 2304 → page_addr j ≡ pmm_start + j * page_size
page_addr-eq j h = omega arith

-- With a free page left, `pmm_alloc_page` returns the address of the lowest one and takes that page.
pub pmm_alloc_page-IsLowestFree :
    {s : Pmm}
    → IsValid s
    → 0 < s.free_pages
    → (j : ℕ) × IsLowestFree s j
      × (pmm_alloc_page s ≡ ok (pmm_start + j * page_size, take_page j s))
unfolding pmm_alloc_page
pmm_alloc_page-IsLowestFree {s} v some_left = elim (alloc_from-Scanned s.total_pages 0 s) [
  | inl (e, all) ↦
      absurd (
        omega (arith, v.counted, count_free-zero s.bitmap s.total_pages 0 (λ x lo hi. all x lo hi)))
  | inr (j, lo, hi, free, all, e) ↦ (
    j,
    record { inside = omega arith; free = free; lowest = λ x h. all x (omega arith) h },
    rw (e, pmm_alloc_page, page_addr-eq j (omega (arith, v.small))) refl,
  )
]

-- With no free page left, `pmm_alloc_page` panics.
pub pmm_alloc_page-full :
    {s : Pmm} → IsValid s → s.free_pages ≡ 0 → pmm_alloc_page s ≡ halted Panic.pmm_out_of_memory
unfolding pmm_alloc_page
pmm_alloc_page-full {s} v full = elim (alloc_from-Scanned s.total_pages 0 s) [
  | inl (e, all) ↦ rw (e, pmm_alloc_page)
  | inr (j, lo, hi, free, all, e) ↦ absurd (omega (arith, take_page-IsValid j v (omega arith) free))
]

-- What a successful call has done.
pub pmm_alloc_page-inv :
    {s t : Pmm} {p : ℕ}
    → IsValid s
    → pmm_alloc_page s ≡ ok (p, t)
    → (j : ℕ) × IsLowestFree s j × (p ≡ pmm_start + j * page_size) × (t ≡ take_page j s)
pmm_alloc_page-inv {s} {t} {p} v h = elim (ℕ_discrete s.free_pages 0) [
  | yes full ↦ absurd (cc (pmm_alloc_page-full v full))
  | no ne ↦ found (pmm_alloc_page-IsLowestFree v (omega arith))
]
  where
    found :
        (j : ℕ) × IsLowestFree s j
          × (pmm_alloc_page s ≡ ok (pmm_start + j * page_size, take_page j s))
        → (j : ℕ) × IsLowestFree s j × (p ≡ pmm_start + j * page_size) × (t ≡ take_page j s)
    found (j, low, e) = (j, low, cc, cc)

-- `pmm_alloc_page` keeps the invariant, and takes one page off the free count.
pub pmm_alloc_page-IsValid :
    {s t : Pmm} {p : ℕ}
    → IsValid s
    → pmm_alloc_page s ≡ ok (p, t)
    → IsValid t × (suc t.free_pages ≡ s.free_pages)
pmm_alloc_page-IsValid v h =
    let (j, low, pe, te) = pmm_alloc_page-inv v h in
    rw te (take_page-IsValid j v low.inside low.free)
