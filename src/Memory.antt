-- ===== src/Memory.antt =====
-- src/memory.c and the start of src/kheap.c: how the memory subsystem comes up. `kheap_init` maps the
-- heap's pages one by one and writes the first header. It lies here since it is the one function of
-- kheap.c that works on the page tables.
pub mod Heap
pub mod Start
pub mod Tables
pub mod Boot
use kfs.Base.{ℕ, zero, suc, ◌+◌, ◌-◌, ◌*◌, ◌/◌, ◌==◌, if◌then◌else◌, true, false}
use kfs.Machine.Word.{add32, mul32}
use kfs.Machine.Mem.{Mem, store32}
use kfs.Machine.Outcome.{Panic, Outcome, ok, halted, ◌>>=◌}
use kfs.Pmm.{Pmm, page_size, pmm_alloc_page, pmm_init}
use kfs.Paging.{Paging, page_write, vmm_map_page, paging_init, paging_enable}
use kfs.Kheap.{Kheap, header_size, size_at, free_at, next_at}

abbrev pub kheap_start : ℕ
kheap_start = 0x00200000

abbrev pub kheap_end : ℕ
kheap_end = 0x002fffff

abbrev pub kheap_size : ℕ
kheap_size = kheap_end - kheap_start + 1

-- the statics of kheap.c after `kheap_init`
abbrev pub first_heap : Kheap
first_heap = record {
  heap_base = kheap_start;
  heap_size = kheap_size;
  heap_used = 0;
  free_list = kheap_start;
}

-- the header of the one free block; its `magic` is not written
unfoldable pub first_header : Mem → Mem
first_header m =
    store32
      (store32 (store32 m (size_at kheap_start) (kheap_size - header_size)) (free_at kheap_start) 1)
      (next_at kheap_start) 0

module _ (page_directory : ℕ) where
  -- the loop of `kheap_init` over the heap's pages, by the rounds left
  unfoldable pub map_heap : ℕ → ℕ → Paging → Outcome Paging
  map_heap zero i s = ok s
  map_heap (suc left) i s = pmm_alloc_page s.pmm >>= λ (phys, pmm').
      let v : ℕ = add32 kheap_start (mul32 i page_size) in
      if phys == 0
      then halted (Panic.kheap_no_page i)
      else vmm_map_page page_directory v phys page_write (record s { pmm = pmm' }) >>= λ (r, s').
          elim (r == 0) [
            | true ↦ map_heap left (i + 1) s'
            | false ↦ halted (Panic.kheap_unmapped v)
          ]

  unfoldable pub kheap_init : Paging → Outcome (Paging × Kheap)
  unfolding map_heap first_header
  kheap_init s = map_heap (kheap_size / page_size) 0 s >>= λ s'.
      ok (record s' { mem = first_header s'.mem }, first_heap)

-- `memory_init`, without what it prints: that is in Kernel.Start.
unfoldable pub memory_init : ℕ → ℕ → ℕ → Paging → Outcome (Paging × Kheap)
memory_init page_directory page_tables mem_bytes s = pmm_init mem_bytes s.pmm >>= λ pmm'.
    kheap_init page_directory
      (paging_enable (paging_init page_directory page_tables (record s { pmm = pmm' })))
