-- ===== src/Examples/Blocks.antt =====
-- The kernel heap as `kheap_init` leaves it, and with its one block in use.
use kfs.Base.{some, suc, ℕ, ◌-◌, ◌≡◌, refl, arith, List, [], ◌∷◌, inl}
use kfs.Machine.Mem.{Mem, store32}
use kfs.Machine.Outcome.{ok}
use kfs.Kheap.{header_size, free_at, magic_at, magic_allocated, kmalloc, claim_block, find_fit}
use kfs.Kheap.Fields.{Fields-store_free, Fields-store_magic}
use kfs.Kheap.Blocks.{Block, used_block}
use kfs.Kheap.Chain.{Header, IsHeap}
use kfs.Kheap.Malloc.{Malloc, charge, kmalloc-first_fit}
use kfs.Kheap.Free.{Free, kfree-release}
use kfs.Kheap.RoundTrip.{Undone, kfree-kmalloc}
use kfs.Memory.{kheap_start, kheap_size, first_heap, first_header}
use kfs.Memory.Start.{first_blocks, first_heap-IsHeap, first_header-Header}

abbrev pub start_memory : Mem
start_memory = first_header (λ a. 0)

-- the whole region as one block in use
abbrev pub full_memory : Mem
full_memory =
    store32 (store32 start_memory (free_at kheap_start) 0) (magic_at kheap_start) magic_allocated

abbrev pub full_blocks : List Block
full_blocks = used_block (kheap_size - header_size) ∷ []

pub full-Header : Header full_memory kheap_start (used_block (kheap_size - header_size)) 0
full-Header =
    let f = (first_header-Header (λ a. 0)).fields in
    record {
      magic = magic_allocated;
      fields =
          Fields-store_magic (Fields-store_free f {v = 0} (omega arith)) {v = magic_allocated}
            (omega arith);
      live = λ e. refl;
      aligned = refl;
    }

pub full_memory-IsHeap : IsHeap first_heap full_memory full_blocks
full_memory-IsHeap = record {
  above = omega arith;
  fits = omega arith;
  listed = refl;
  chained = (full-Header, refl);
}

kmalloc-first_fit_example : Malloc 24 first_heap start_memory first_blocks
kmalloc-first_fit_example =
    kmalloc-first_fit {h = first_heap} {m = start_memory} {bs = first_blocks} 24
      (first_heap-IsHeap (λ a. 0)) (omega arith) (omega arith)

kfree-release_example :
    Free kheap_start (kheap_size - header_size) first_heap full_memory full_blocks
kfree-release_example =
    kfree-release {h = first_heap} {m = full_memory} {bs = full_blocks} kheap_start
      (kheap_size - header_size) full_memory-IsHeap (inl (refl, refl, refl))

found :
    (k : ℕ)
    → find_fit (suc k) kheap_start 24 start_memory
      ≡ ok (some (kheap_start, claim_block kheap_start 24 start_memory))
unfolding find_fit
found k = let f = (first_header-Header (λ a. 0)).fields in rw (f.free_field, f.size_field) refl

pub malloc_run :
    kmalloc 24 first_heap start_memory
    ≡ ok (0x00200010, charge 24 first_heap, claim_block kheap_start 24 start_memory)
unfolding kmalloc
malloc_run = rw (found 65536) refl

kfree-kmalloc_example :
    Undone 24 0x00200010 first_heap
      (charge 24 first_heap)
      (claim_block kheap_start 24 start_memory)
      first_blocks
kfree-kmalloc_example =
    kfree-kmalloc {h = first_heap} {h' = charge 24 first_heap} {m = start_memory}
      {m' = claim_block kheap_start 24 start_memory} {bs = first_blocks} {p = 0x00200010} 24
      (first_heap-IsHeap (λ a. 0)) tt (omega arith) (omega arith) malloc_run
