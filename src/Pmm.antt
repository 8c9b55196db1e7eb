-- ===== src/Pmm.antt =====
-- src/pmm.c: the physical memory manager. Its static variables are the record `Pmm`; a function
-- that changes them returns the new record, and `kpanic_fatal` is a halted outcome.
-- Page index 0 is the page at `pmm_start`. What `pmm_init` prints is in Kernel.Start.
pub mod Bitmap
pub mod Inv
pub mod Alloc
pub mod Free
pub mod Init
pub mod Low
use kfs.Base.{
  ℕ, zero, suc, ◌+◌, ◌-◌, ◌*◌, ◌/◌, ◌%◌, ◌^◌, Bool, Option, none, some, List, [], ◌∷◌, bit_and,
  bit_or, ltb, leb, ◌==◌, ◌||◌, if◌then◌else◌, length, get_or, set, replicate,
}
use kfs.Machine.Word.{add32, sub32, mul32}
use kfs.Machine.Outcome.{Panic, Outcome, ok, halted, ◌>>=◌}

abbrev pub page_size : ℕ
page_size = 4096

abbrev pub pmm_start : ℕ
pmm_start = 0x00100000

abbrev pub pmm_max_bytes : ℕ
pmm_max_bytes = 10 * 1024 * 1024

-- the number of words of `bitmap`
abbrev pub bitmap_words : ℕ
bitmap_words = pmm_max_bytes / page_size / 32 + 1

pub record Pmm : Type 0 where
  pub total_pages : ℕ
  pub free_pages : ℕ
  pub limit_bytes : ℕ
  pub bitmap : List ℕ
  pub current_brk : ℕ

-- the state at boot: static variables are zero
abbrev pub boot : Pmm
boot = record {
  total_pages = 0;
  free_pages = 0;
  limit_bytes = 0;
  bitmap = replicate bitmap_words 0;
  current_brk = 0;
}

-- `bitmap[idx >> 5]`; the loops and guards keep `idx` in range (`Pmm.Alloc`, `Pmm.Init`)
abbrev pub word_of : List ℕ → ℕ → ℕ
word_of bitmap idx = get_or bitmap (idx / 2 ^ 5) 0

unfoldable pub set_bit : List ℕ → ℕ → List ℕ
set_bit bitmap idx = set bitmap (idx / 2 ^ 5) (bit_or (word_of bitmap idx) (2 ^ (idx % 32)))

unfoldable pub clr_bit : List ℕ → ℕ → List ℕ
clr_bit bitmap idx =
    set bitmap (idx / 2 ^ 5) (bit_and (word_of bitmap idx) (2 ^ 32 - 1 - 2 ^ (idx % 32)))

unfoldable pub tst_bit : List ℕ → ℕ → Bool
tst_bit bitmap idx = word_of bitmap idx / 2 ^ (idx % 32) % 2 == 1

-- `for (i = 0; i < words; i++) bitmap[i] = 0xFFFFFFFF`, by the rounds left
unfoldable pub fill_used : ℕ → ℕ → List ℕ → List ℕ
fill_used zero i bitmap = bitmap
fill_used (suc left) i bitmap = fill_used left (i + 1) (set bitmap i 0xffff_ffff)

-- `for (i = start_page; i < available_pages; i++) { clr_bit(i); free_pages++; }`
unfoldable pub release_from : ℕ → ℕ → Pmm → Pmm
release_from zero i s = s
release_from (suc left) i s =
    release_from left (i + 1)
      (record s { bitmap = clr_bit s.bitmap i; free_pages = add32 s.free_pages 1 })

-- `set_bit(i); free_pages--;`
unfoldable pub take_page : ℕ → Pmm → Pmm
take_page i s = record s { bitmap = set_bit s.bitmap i; free_pages = sub32 s.free_pages 1 }

-- `for (i = 0; i < reserve_pages; i++) if (!tst_bit(i)) { set_bit(i); free_pages--; }`
unfoldable pub reserve_from : ℕ → ℕ → Pmm → Pmm
reserve_from zero i s = s
reserve_from (suc left) i s =
    reserve_from left (i + 1) (if tst_bit s.bitmap i then s else take_page i s)

-- the cap of `pmm_init`
abbrev pub capped : ℕ → ℕ
capped mem_size = if ltb pmm_max_bytes mem_size then pmm_max_bytes else mem_size

abbrev pub available_of : ℕ → ℕ
available_of mem_size = sub32 mem_size pmm_start / page_size

abbrev pub reserve_pages : ℕ → ℕ
reserve_pages available =
    if ltb available (1024 * 1024 / page_size) then available else 1024 * 1024 / page_size

unfoldable pub pmm_init : ℕ → Pmm → Outcome Pmm
pmm_init mem_size s =
    let mem_size' : ℕ = capped mem_size in
    let available : ℕ = available_of mem_size' in
    let cleared = record s {
      limit_bytes = mem_size';
      total_pages = available;
      free_pages = 0;
      bitmap = fill_used bitmap_words 0 s.bitmap;
    } in
    if available == 0
    then halted Panic.pmm_no_memory
    else ok (reserve_from (reserve_pages available) 0 (release_from available 0 cleared))

-- the address of page `i`
abbrev pub page_addr : ℕ → ℕ
page_addr i = add32 pmm_start (mul32 i page_size)

-- The loop of `pmm_alloc_page`; `none` when it runs out.
unfoldable pub alloc_from : ℕ → ℕ → Pmm → Option (ℕ × Pmm)
alloc_from zero i s = none
alloc_from (suc left) i s =
    let rest = alloc_from left (i + 1) s in
    if tst_bit s.bitmap i then rest else some (page_addr i, take_page i s)

unfoldable pub pmm_alloc_page : Pmm → Outcome (ℕ × Pmm)
pmm_alloc_page s = elim (alloc_from s.total_pages 0 s) [
  | none ↦ halted Panic.pmm_out_of_memory
  | some r ↦ ok r
]

unfoldable pub pmm_free_page : ℕ → Pmm → Outcome Pmm
pmm_free_page addr s =
    let idx : ℕ = sub32 addr pmm_start / page_size in
    if ltb addr pmm_start
    then ok s
    else if leb s.total_pages idx
    then ok s
    else if tst_bit s.bitmap idx
    then ok (record s { bitmap = clr_bit s.bitmap idx; free_pages = add32 s.free_pages 1 })
    else halted (Panic.pmm_double_free addr)

unfoldable pub pmm_free_pages : Pmm → ℕ
pmm_free_pages s = s.free_pages

unfoldable pub pmm_total_pages : Pmm → ℕ
pmm_total_pages s = s.total_pages

-- `(void *)-1`
abbrev pub invalid_ptr : ℕ
invalid_ptr = 2 ^ 32 - 1

unfoldable pub pmm_brk : ℕ → Pmm → ℕ × Pmm
pmm_brk new_brk s =
    let brk : ℕ = if s.current_brk == 0 then pmm_start else s.current_brk in
    let max_addr : ℕ = add32 pmm_start (mul32 s.total_pages page_size) in
    if new_brk == 0
    then (brk, record s { current_brk = brk })
    else if ltb new_brk pmm_start || ltb max_addr new_brk
    then (invalid_ptr, s)
    else (new_brk, record s { current_brk = new_brk })
