-- ===== src/Memory/Start.antt =====
-- src/kheap.c: `kheap_init` as a whole, and the blocks of the new heap.
use kfs.Base.{ℕ, ◌-◌, ◌<◌, ◌≡◌, refl, arith, true, List, ◌∷◌, []}
use kfs.Machine.Outcome.{ok}
use kfs.Machine.Mem.{load32, Mem}
use kfs.Kheap.{header_size, magic_at}
use kfs.Kheap.Fields.{Fields-store_next, Fields-store_free, Fields-store_size, read-Fields}
use kfs.Kheap.Blocks.{Block}
use kfs.Kheap.Chain.{Header, IsHeap}
use kfs.Paging.{Paging}
use kfs.Memory.{kheap_start, kheap_size, first_heap, first_header, kheap_init}
use kfs.Memory.Heap.{IsAtPage, HeapMapped, map_heap-HeapMapped}

-- the blocks of the new heap
abbrev pub first_blocks : List Block
first_blocks = record { size = kheap_size - header_size; free = true } ∷ []

pub first_header-Header :
    (m : Mem)
    → Header
        (first_header m)
        kheap_start
        (record { size = kheap_size - header_size; free = true })
        0
unfolding first_header
first_header-Header m =
    let f0 = read-Fields m kheap_start in
    let f1 = Fields-store_size f0 {v = kheap_size - header_size} (omega arith) in
    let f2 = Fields-store_free f1 {v = 1} (omega arith) in
    record {
      magic = load32 m (magic_at kheap_start);
      fields = Fields-store_next f2 {v = 0} (omega arith);
      live = λ e. absurd cc;
      aligned = refl;
    }

pub first_heap-IsHeap : (m : Mem) → IsHeap first_heap (first_header m) first_blocks
first_heap-IsHeap m = record {
  above = omega arith;
  fits = omega arith;
  listed = refl;
  chained = (first_header-Header m, refl);
}

module _ (pd : ℕ) where
  pub record HeapReady (s : Paging) : Type 0 where
    pub pages : HeapMapped pd 256 0 s
    pub after : Mem
    pub returns : kheap_init pd s ≡ ok (record pages.after { mem = after }, first_heap)
    pub heap : IsHeap first_heap after first_blocks

  -- With the pages below the heap used, the pages from the heap on free and the first page table
  -- present, `kheap_init` succeeds: it has mapped the 256 pages of the heap to themselves, and the
  -- heap is one free block over the whole region.
  pub kheap_init-HeapReady : (s : Paging) → IsAtPage pd 0 s → 512 < s.pmm.total_pages → HeapReady s
  unfolding kheap_init
  kheap_init-HeapReady s at room =
      let pages = map_heap-HeapMapped pd 256 0 s (omega arith) (omega arith) at in
      record {
        pages = pages;
        after = first_header pages.after.mem;
        returns = rw pages.returns;
        heap = first_heap-IsHeap pages.after.mem;
      }
