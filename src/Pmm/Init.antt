-- ===== src/Pmm/Init.antt =====
-- src/pmm.c: `pmm_init`, its loops and its guards.
use kfs.Base.{
  ℕ, zero, suc, ◌+◌, ◌-◌, ◌*◌, ◌/◌, ◌^◌, ◌≤◌, ◌<◌, ◌≡◌, refl, sym, ap, ◌∙◌, ◌⊎◌, true, false, List,
  arith, ==-ne, length, set, length-set, min,
}
use native.Mathlib.Decide.{ℕ_discrete}
use kfs.Machine.Outcome.{Panic, ok, halted}
use kfs.Machine.Word.{add32}
use kfs.Pmm.{
  Pmm, clr_bit, tst_bit, take_page, pmm_start, pmm_max_bytes, page_size, bitmap_words, fill_used,
  release_from, reserve_from, reserve_pages, capped, available_of, pmm_init,
}
use kfs.Pmm.Bitmap.{tst_bit-set, tst_bit-clr, length-clr_bit}
use kfs.Pmm.Inv.{IsValid, count_free, count_free-full, take_page-IsValid}

length-fill_used : (left i : ℕ) (b : List ℕ) → length (fill_used left i b) ≡ length b
unfolding fill_used
length-fill_used zero i b = refl
length-fill_used (suc left) i b =
    length-fill_used left (i + 1) (set b i 0xffff_ffff) ∙ length-set b i 0xffff_ffff

-- What freeing the pages from `i` to `i + left` does to the set of used pages.
record Released (left i : ℕ) (s t : Pmm) : Type 0 where
  words : length t.bitmap ≡ length s.bitmap
  total : t.total_pages ≡ s.total_pages
  count : t.free_pages ≡ s.free_pages + left
  inside : (x : ℕ) → i ≤ x → x < i + left → tst_bit t.bitmap x ≡ false
  outside : (x : ℕ) → (x < i) ⊎ (i + left ≤ x) → tst_bit t.bitmap x ≡ tst_bit s.bitmap x

release_from-Released :
    (left i : ℕ) (s : Pmm)
    → i + left ≤ 32 * length s.bitmap
    → s.free_pages + left < 2 ^ 32
    → Released left i s (release_from left i s)
unfolding release_from
release_from-Released zero i s h k = record {
  words = refl;
  total = refl;
  count = omega arith;
  inside = λ x lo hi. absurd (omega arith);
  outside = λ x o. refl;
}
release_from-Released (suc left) i s h k =
    let b = clr_bit s.bitmap i in
    let n = length-clr_bit s.bitmap i in
    let r =
      release_from-Released left (i + 1)
        (record s { bitmap = b; free_pages = add32 s.free_pages 1 }) (omega (arith, n))
        (omega arith) in
    record {
      words = r.words ∙ n;
      total = r.total;
      count = omega (arith, r.count);
      inside = λ x lo hi. elim (ℕ_discrete i x) [
        | yes e ↦
            r.outside x (omega arith) ∙ ground (arith, tst_bit-clr s.bitmap i (omega (arith, h)) x)
        | no ne ↦ r.inside x (omega arith) (omega arith)
      ];
      outside = λ x o.
          r.outside x (omega arith) ∙ ground (arith, tst_bit-clr s.bitmap i (omega (arith, h)) x);
    }

-- What reserving the free pages from `i` to `i + left` does.
record Reserved (left i : ℕ) (s t : Pmm) : Type 0 where
  valid : IsValid t
  total : t.total_pages ≡ s.total_pages
  count : t.free_pages + left ≡ s.free_pages
  inside : (x : ℕ) → i ≤ x → x < i + left → tst_bit t.bitmap x ≡ true
  outside : (x : ℕ) → (x < i) ⊎ (i + left ≤ x) → tst_bit t.bitmap x ≡ tst_bit s.bitmap x

reserve_from-Reserved :
    (left i : ℕ) (s : Pmm)
    → IsValid s
    → i + left ≤ s.total_pages
    → ((x : ℕ) → i ≤ x → x < i + left → tst_bit s.bitmap x ≡ false)
    → Reserved left i s (reserve_from left i s)
unfolding reserve_from take_page
reserve_from-Reserved zero i s v h clear = record {
  valid = v;
  total = refl;
  count = omega arith;
  inside = λ x lo hi. absurd (omega arith);
  outside = λ x o. refl;
}
reserve_from-Reserved (suc left) i s v h clear =
    let free = clear i (omega arith) (omega arith) in
    let w = take_page-IsValid i v (omega arith) free in
    let in_words : i / 32 < length s.bitmap = omega (arith, h, v.small, v.words) in
    let r = reserve_from-Reserved left (i + 1) (take_page i s) w.0 (omega arith) (λ x lo hi.
      ground (arith, tst_bit-set s.bitmap i in_words x, clear x (omega arith) (omega arith))) in
    rw free (record {
      valid = r.valid;
      total = r.total;
      count = omega (arith, r.count, w.1);
      inside = λ x lo hi. elim (ℕ_discrete i x) [
        | yes e ↦ r.outside x (omega arith) ∙ ground (arith, tst_bit-set s.bitmap i in_words x)
        | no ne ↦ r.inside x (omega arith) (omega arith)
      ];
      outside =
          λ x o. r.outside x (omega arith) ∙ ground (arith, tst_bit-set s.bitmap i in_words x);
    })

-- the pages behind `pmm_start`, for a memory size
abbrev pub pages_of : ℕ → ℕ
pages_of mem_size = (min mem_size pmm_max_bytes - pmm_start) / page_size

-- the pages that are kept for the kernel
abbrev pub kernel_pages : ℕ → ℕ
kernel_pages mem_size = min 256 (pages_of mem_size)

-- The state after a successful `pmm_init`: the first pages are used, the others free.
pub record IsFresh (mem_size : ℕ) (t : Pmm) : Type 0 where
  pub valid : IsValid t
  pub total : t.total_pages ≡ pages_of mem_size
  pub count : t.free_pages + kernel_pages mem_size ≡ pages_of mem_size
  pub kernel : (x : ℕ) → x < kernel_pages mem_size → tst_bit t.bitmap x ≡ true
  pub rest :
      (x : ℕ) → kernel_pages mem_size ≤ x → x < pages_of mem_size → tst_bit t.bitmap x ≡ false

available-eq :
    (mem_size : ℕ) → pmm_start ≤ mem_size → available_of (capped mem_size) ≡ pages_of mem_size
available-eq mem_size h = ground arith

init_loops :
    (n : ℕ) (s : Pmm)
    → n ≤ 2304
    → s.total_pages ≡ n
    → s.free_pages ≡ 0
    → length s.bitmap ≡ bitmap_words
    → Reserved (min 256 n) 0 (release_from n 0 s) (reserve_from (min 256 n) 0 (release_from n 0 s))
      × Released n 0 s (release_from n 0 s)
init_loops n s small total none_free words =
    let r = release_from-Released n 0 s (omega (arith, words)) (omega arith) in
    let full = count_free-full (release_from n 0 s).bitmap n 0 (λ x lo hi. r.inside x lo hi) in
    let v : IsValid (release_from n 0 s) = record {
      words = r.words ∙ words;
      small = omega (arith, r.total);
      counted =
          r.count
          ∙ omega (arith, none_free, full)
          ∙ ap (λ k. count_free (release_from n 0 s).bitmap k 0) (sym (r.total ∙ total));
    } in
    (
      reserve_from-Reserved (min 256 n) 0 (release_from n 0 s) v (omega (arith, r.total))
          (λ x lo hi. r.inside x lo (omega arith)),
      r,
    )

reserve_pages-eq : (n : ℕ) → reserve_pages n ≡ min 256 n
reserve_pages-eq n = ground arith

-- the state in front of the loops of `pmm_init`
abbrev cleared : ℕ → Pmm → Pmm
cleared mem_size s = record s {
  limit_bytes = capped mem_size;
  total_pages = pages_of mem_size;
  free_pages = 0;
  bitmap = fill_used bitmap_words 0 s.bitmap;
}

pmm_init-eq :
    (mem_size : ℕ) (s : Pmm)
    → pmm_start + page_size ≤ mem_size
    → pmm_init mem_size s
      ≡ ok (
          reserve_from
            (kernel_pages mem_size)
            0
            (release_from (pages_of mem_size) 0 (cleared mem_size s)))
unfolding pmm_init
pmm_init-eq mem_size s h = rw (
  available-eq mem_size (omega arith),
  reserve_pages-eq (pages_of mem_size),
  ==-ne (pages_of mem_size) 0 (omega arith),
)

-- For at least one page behind `pmm_start` and a bitmap of the declared size, `pmm_init` succeeds. It
-- then counts the pages behind `pmm_start`, up to the cap of 10 MB; the first 256 of them, or all if
-- there are fewer, are used, the others free, and the free count is the number of those.
pub pmm_init-IsFresh :
    (mem_size : ℕ) (s : Pmm)
    → pmm_start + page_size ≤ mem_size
    → length s.bitmap ≡ bitmap_words
    → (t : Pmm) × (pmm_init mem_size s ≡ ok t) × IsFresh mem_size t
pmm_init-IsFresh mem_size s h words =
    let (r, d) =
      init_loops (pages_of mem_size) (cleared mem_size s) (omega arith) refl refl
        (length-fill_used bitmap_words 0 s.bitmap ∙ words) in
    (
      _,
      pmm_init-eq mem_size s h,
      record {
        valid = r.valid;
        total = r.total ∙ d.total;
        count = omega (arith, r.count, d.count);
        kernel = λ x lo. r.inside x (omega arith) (omega arith);
        rest = λ x lo hi. r.outside x (omega arith) ∙ d.inside x (omega arith) (omega arith);
      },
    )

-- With less than one page behind `pmm_start`, `pmm_init` panics.
pub pmm_init-small :
    (mem_size : ℕ) (s : Pmm)
    → pmm_start ≤ mem_size
    → mem_size < pmm_start + page_size
    → pmm_init mem_size s ≡ halted Panic.pmm_no_memory
unfolding pmm_init
pmm_init-small mem_size s lo hi = rw (available-eq mem_size lo) (ground arith)
