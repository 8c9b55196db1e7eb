-- ===== src/Examples/Regions.antt =====
-- The virtual memory allocator at boot, and with one free block of 4076 bytes at the region's start.
use kfs.Base.{◌<◌, ◌-◌, ◌^◌, ◌∙◌, ◌≤◌, ◌≡◌, ◌⊎◌, inl, refl, arith}
use kfs.Machine.Mem.{Mem, store32, load32-store32, load32-store32_ne}
use kfs.Machine.Outcome.{Ends, ok}
use kfs.Paging.{Paging}
use kfs.Vmem.{
  Vmem, first_vmem, vmalloc, vbrk, vsize, kvmem_start, block_magic_at, vmem_magic_allocated,
}
use kfs.Vmem.Release.{Released, vfree-Released}
use kfs.Vmem.Fresh.{vsize-vmalloc}
use kfs.Vmem.Size.{TwoBlocks, vmalloc-TwoBlocks}
use kfs.Vmem.Grow.{vbrk-Ends}
use kfs.Pmm.Inv.{IsValid}
use kfs.Examples.Pages.{two_pages-IsValid}
use kfs.Examples.Tables.{empty_tables}

vsize-vmalloc_example :
    Ends (λ (p, w, t). vsize p w t.mem ≡ ok 104) (vmalloc 0x1000 100 first_vmem empty_tables)
vsize-vmalloc_example =
    vsize-vmalloc 0x1000 100 first_vmem empty_tables two_pages-IsValid (omega arith) (omega arith)
      refl (omega arith) (omega arith) refl

vbrk-Ends_example :
    Ends
      (λ (r, w, t).
        IsValid t.pmm
        × (((r ≡ w.vmem_current) × (0x0030_1800 ≤ w.vmem_current))
            ⊎ ((r ≡ 2 ^ 32 - 1)
                × (w ≡ first_vmem)
                × (t ≡ empty_tables)
                × ((0x0030_1800 < kvmem_start) ⊎ (0x0030_1800 < kvmem_start)))))
      (vbrk 0x1000 0x0030_1800 first_vmem empty_tables)
vbrk-Ends_example = vbrk-Ends 0x1000 0x0030_1800 first_vmem empty_tables two_pages-IsValid

-- one block, in use
abbrev used_header : Mem
used_header = store32 (λ a. 0) (block_magic_at kvmem_start) vmem_magic_allocated

abbrev one_block : Vmem
one_block = record { vmem_current = 0x0030_1000; vmem_size = 4096; vmem_list = kvmem_start }

vfree-Released_example : Released 0x0030_0014 one_block used_header
vfree-Released_example =
    vfree-Released 0x0030_0014 one_block used_header (omega arith) (omega arith)
      (load32-store32 (λ a. 0) (block_magic_at kvmem_start) vmem_magic_allocated (omega arith))
      (inl refl)

-- one block, free
abbrev free_header : Mem
free_header = store32 (store32 (λ a. 0) 0x0030_0000 4076) 0x0030_0008 1

abbrev free_region : Paging
free_region = record empty_tables { mem = free_header }

vmalloc-TwoBlocks_example : TwoBlocks 0x1000 100 200 kvmem_start one_block free_region
vmalloc-TwoBlocks_example =
    vmalloc-TwoBlocks 0x1000 100 200 kvmem_start 4076 one_block free_region (omega arith)
      (omega arith) (omega arith) (omega arith) refl (omega arith) refl (omega arith)
      (load32-store32_ne _ 0x0030_0008 1 0x0030_0000 (omega arith)
        ∙ load32-store32 _ 0x0030_0000 4076 (omega arith))
      (load32-store32 _ 0x0030_0008 1 (omega arith)) (omega arith) (omega arith) (omega arith)
