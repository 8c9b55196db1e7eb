-- ===== src/Pmm/Free.antt =====
-- src/pmm.c: `pmm_free_page`, its guards and its two outcomes.
use kfs.Base.{
  ℕ, ◌+◌, ◌-◌, ◌*◌, ◌/◌, ◌%◌, ◌^◌, ◌≤◌, ◌<◌, ◌≡◌, refl, sym, ◌∙◌, ◌⊎◌, inl, inr, true, false, List,
  arith, ==-ne, ==-refl, length, Bool-cases,
}
use native.Mathlib.Decide.{ℕ_discrete, dec_lt}
use native.Mathlib.Nat.{add-zero}
use kfs.Machine.Outcome.{Panic, ok, halted}
use kfs.Machine.Word.{sub32}
use kfs.Pmm.{
  Pmm, set_bit, clr_bit, tst_bit, take_page, pmm_start, page_size, pmm_alloc_page, pmm_free_page,
}
use kfs.Pmm.Bitmap.{tst_bit-set, tst_bit-clr, length-clr_bit, length-set_bit}
use kfs.Pmm.Alloc.{IsLowestFree, pmm_alloc_page-inv}
use kfs.Pmm.Inv.{IsValid, count_free-le, count_free-clr, take_page-IsValid}

-- the index that `pmm_free_page` computes, for any address inside page `j`
page_index :
    (j o : ℕ)
    → j < 2304
    → o < page_size
    → sub32 (pmm_start + j * page_size + o) pmm_start / page_size ≡ j
page_index j o h k = omega arith

module _ {s : Pmm} (j o : ℕ) (v : IsValid s) (inside : j < s.total_pages)
    (small : o < page_size) where
  pub pmm_free_page_used :
      tst_bit s.bitmap j ≡ true
      → pmm_free_page (pmm_start + j * page_size + o) s
        ≡ ok (record s { bitmap = clr_bit s.bitmap j; free_pages = s.free_pages + 1 })
  unfolding pmm_free_page
  pmm_free_page_used used =
      rw (page_index j o (omega (arith, v.small)) small, used)
        (ground (arith, count_free-le s.bitmap s.total_pages 0))

  pub pmm_free_page_free :
      tst_bit s.bitmap j ≡ false
      → pmm_free_page (pmm_start + j * page_size + o) s
        ≡ halted (Panic.pmm_double_free (pmm_start + j * page_size + o))
  unfolding pmm_free_page
  pmm_free_page_free free = rw (page_index j o (omega (arith, v.small)) small, free) (ground arith)

tst_bit-clr-set :
    (b : List ℕ) (j x : ℕ)
    → j / 32 < length b
    → tst_bit b j ≡ false
    → tst_bit (clr_bit (set_bit b j) j) x ≡ tst_bit b x
tst_bit-clr-set b j x h free = elim (ℕ_discrete j x) [
  | yes e ↦ rw (tst_bit-clr (set_bit b j) j (rw length-set_bit h), ← e, ==-refl j) (sym free)
  | no ne ↦ rw (
    tst_bit-clr (set_bit b j) j (rw length-set_bit h),
    ==-ne j x ne,
    tst_bit-set b j h,
    ==-ne j x ne,
  )
]

-- `u` marks the same pages as used as `s` does, with the same counts.
pub record SamePages (s u : Pmm) : Type 0 where
  pub same_bits : (x : ℕ) → tst_bit u.bitmap x ≡ tst_bit s.bitmap x
  pub same_free : u.free_pages ≡ s.free_pages
  pub same_total : u.total_pages ≡ s.total_pages

pmm_free_page-take_page :
    {s : Pmm} (j : ℕ)
    → IsValid s
    → IsLowestFree s j
    → (u : Pmm) × (pmm_free_page (pmm_start + j * page_size) (take_page j s) ≡ ok u) × SamePages s u
unfolding take_page
pmm_free_page-take_page {s} j v low =
    let (w, n) = take_page-IsValid j v low.inside low.free in
    let within : j < 2592 = omega (arith, low.inside, v.small) in
    (
      record s {
        bitmap = clr_bit (set_bit s.bitmap j) j;
        free_pages = (take_page j s).free_pages + 1;
      },
      rw add-zero at (
          pmm_free_page_used j 0 w low.inside (omega arith)
            (ground (arith, tst_bit-set s.bitmap j (omega (arith, within)) j))),
      record {
        same_bits = λ x. tst_bit-clr-set s.bitmap j x (omega (arith, within)) low.free;
        same_free = omega (arith, n);
        same_total = refl;
      },
    )

-- Freeing a page that was just allocated gives back the same set of used pages and the same counts.
pub pmm_free_page-pmm_alloc_page :
    {s t : Pmm} {p : ℕ}
    → IsValid s
    → pmm_alloc_page s ≡ ok (p, t)
    → (u : Pmm) × (pmm_free_page p t ≡ ok u) × SamePages s u
pmm_free_page-pmm_alloc_page {s} v h =
    let (j, low, pe, te) = pmm_alloc_page-inv v h in rw (pe, te) (pmm_free_page-take_page j v low)

-- the pages that the manager hands out
abbrev pub InRange : Pmm → ℕ → Type 0
InRange s addr = (pmm_start ≤ addr) × (addr < pmm_start + s.total_pages * page_size)

page_of :
    (s : Pmm) (addr : ℕ)
    → InRange s addr
    → (j : ℕ) × (o : ℕ) × (j < s.total_pages)
      × (o < page_size)
      × (addr ≡ pmm_start + j * page_size + o)
page_of s addr h = (
  (addr - pmm_start) / page_size,
  (addr - pmm_start) % page_size,
  omega arith,
  omega arith,
  omega arith,
)

clr-IsValid :
    {s : Pmm} (j : ℕ)
    → IsValid s
    → j < s.total_pages
    → tst_bit s.bitmap j ≡ true
    → IsValid (record s { bitmap = clr_bit s.bitmap j; free_pages = s.free_pages + 1 })
clr-IsValid {s} j v inside used = record {
  words = length-clr_bit s.bitmap j ∙ v.words;
  small = v.small;
  counted =
      omega (
        arith,
        count_free-clr s.bitmap j s.total_pages v.words inside (omega (arith, v.small)) used,
      );
}

-- What a call at an address in range does, by the page's bit.
data Freeing (s : Pmm) (addr : ℕ) : Type 0 where
  given_back :
      (j : ℕ) (t : Pmm)
      → j < s.total_pages
      → tst_bit s.bitmap j ≡ true
      → (t ≡ record s { bitmap = clr_bit s.bitmap j; free_pages = s.free_pages + 1 })
      → pmm_free_page addr s ≡ ok t
      → pmm_free_page addr t ≡ halted (Panic.pmm_double_free addr)
      → Freeing s addr
  refused : pmm_free_page addr s ≡ halted (Panic.pmm_double_free addr) → Freeing s addr

freeing : {s : Pmm} (addr : ℕ) → IsValid s → InRange s addr → Freeing s addr
freeing {s} addr v inside =
    let (j, o, lt, small, e) = page_of s addr inside in
    elim (Bool-cases (tst_bit s.bitmap j)) [
      | inl used ↦ given_back j _ lt used refl (rw e (pmm_free_page_used j o v lt small used)) (
          rw e (
            pmm_free_page_free j o (clr-IsValid j v lt used) lt small
              (ground (arith, tst_bit-clr s.bitmap j (omega (arith, v.small, v.words)) j))))
      | inr free ↦ refused (rw e (pmm_free_page_free j o v lt small free))
    ]

-- A page can be freed once: after a successful call at an address in range, a second call at that
-- address panics with the double-free message.
pub pmm_free_page_twice :
    {s t : Pmm} {addr : ℕ}
    → IsValid s
    → InRange s addr
    → pmm_free_page addr s ≡ ok t
    → pmm_free_page addr t ≡ halted (Panic.pmm_double_free addr)
pmm_free_page_twice {s} {t} {addr} v inside h = go (freeing addr v inside)
  where
    go : Freeing s addr → pmm_free_page addr t ≡ halted (Panic.pmm_double_free addr)
    go (given_back j u lt used e first second) = let same : t ≡ u = cc in rw same second
    go (refused e) = absurd (cc)

-- An address outside of the managed pages is ignored.
pub pmm_free_page_outside :
    (s : Pmm) (addr : ℕ) → addr < 2 ^ 32 → ¬ InRange s addr → pmm_free_page addr s ≡ ok s
unfolding pmm_free_page
pmm_free_page_outside s addr small out = ground arith

-- `pmm_free_page` keeps the invariant and gives back at most one page: inside the managed range it
-- adds one to the free count, outside it changes nothing.
pub pmm_free_page-IsValid :
    {s t : Pmm} (addr : ℕ)
    → addr < 2 ^ 32
    → IsValid s
    → pmm_free_page addr s ≡ ok t
    → IsValid t
      × ((InRange s addr × (t.free_pages ≡ s.free_pages + 1)) ⊎ ((¬ InRange s addr) × (t ≡ s)))
pmm_free_page-IsValid {s} {t} addr small v h = elim (dec_lt addr pmm_start) [
  | yes low ↦ outside (λ (lo, hi). omega arith)
  | no high ↦ elim (dec_lt addr (pmm_start + s.total_pages * page_size)) [
    | yes below ↦ go (omega arith, below) (freeing addr v (omega arith, below))
    | no above ↦ outside (λ (lo, hi). omega arith)
  ]
]
  where
    Result : Type 0
    Result =
        IsValid t
        × ((InRange s addr × (t.free_pages ≡ s.free_pages + 1)) ⊎ ((¬ InRange s addr) × (t ≡ s)))

    outside : ¬ InRange s addr → Result
    outside out =
        let same : t ≡ s = cc (pmm_free_page_outside s addr small out) in
        (rw same v, inr (out, same))

    go : InRange s addr → Freeing s addr → Result
    go inside (given_back j u lt used e first second) =
        let same : t ≡ record s { bitmap = clr_bit s.bitmap j; free_pages = s.free_pages + 1 } =
          cc in
        (rw same (clr-IsValid j v lt used), inl (inside, rw same))
    go inside (refused e) = absurd (cc)
