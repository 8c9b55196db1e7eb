-- ===== src/Kernel/Faults.antt =====
-- src/shell.c: the commands that lead to a panic or a page fault. A word at their virtual addresses is
-- read and written by the processor, through the page tables; it keeps no stale translation.
use kfs.Base.{ℕ, ◌*◌, ◌==◌, if◌then◌else◌, bit_or, ◌∷◌, [], List}
use kfs.Machine.Outcome.{Outcome, ok, ◌>>=◌}
use kfs.Kheap.{kbrk}
use kfs.Paging.{page_present, page_write, page_user, vmm_get_mapping}
use kfs.Print.{word}
use kfs.Kernel.{Kernel, Board, print, load_virt, store_virt, ◌|>◌}
use kfs.Kernel.Alloc.{call_kmalloc, call_vmalloc, call_vfree, call_vbrk}
use kfs.Kernel.Trials.{call_alloc_page, call_free_page, call_map_page, call_unmap_page}

-- The result of `kmalloc` is not used.
unfoldable pub cmd_panic_test : List (List ℕ) → Kernel → Outcome Kernel
cmd_panic_test argv k =
    call_kmalloc (50 * 1024 * 1024) (
      k
      |> print "Fatal Panic Test - Out of Memory:\n" []
      |> print "   Testing kpanic_fatal() on out of memory...\n" [])
    >>= λ (p, k'). ok k'

module _ (b : Board) where
  -- `cmd_present` behind the mapping
  unfoldable pub unmap_and_touch : ℕ → ℕ → Kernel → Outcome Kernel
  unmap_and_touch virt phys k = do
    k1 ← store_virt b virt 0xcafe_babe k
    k2 ← call_unmap_page b virt (
        k1
        |> print "mapped and wrote ok\n" []
        |> print "unmapping page at %x...\n" (word virt ∷ []))
    k3 ← call_free_page phys k2
    mapping ← vmm_get_mapping b.page_directory virt k3.paging
    let k4 =
        k3
        |> print "unmapped\n" []
        |> print "flushing TLB...\n" []
        |> print "mapping check: %x -> %x (should be 0)\n" (word virt ∷ word mapping ∷ [])
        |> print "about to access unmapped address; expect panic/page fault...\n" []
    x ← load_virt b virt k4
    ok k4

  unfoldable pub cmd_present : List (List ℕ) → Kernel → Outcome Kernel
  cmd_present argv k = do
    (phys, k1) ← call_alloc_page (k |> print "present test: 1. map 2. unmap 3. fault\n" [])
    if phys == 0
        then ok (k1 |> print "alloc failed\n" [])
        else call_map_page b 0x5000_0000 phys (bit_or page_write page_user) k1 >>= λ (r, k2).
            if r == 0
            then unmap_and_touch 0x5000_0000 phys k2
            else call_free_page phys (k2 |> print "map failed\n" [])

  -- `cmd_rotest` behind the mapping
  unfoldable pub write_protected : ℕ → ℕ → Kernel → Outcome Kernel
  write_protected virt phys k = do
    original_value ← load_virt b virt k
    let k1 =
        k
        |> print "rotest: mapped read-only page at virtual %x\n" (word virt ∷ [])
        |> print "rotest: read from page: %x\n" (word original_value ∷ [])
        |> print "rotest: attempting to write to read-only page...\n" []
        |> print "rotest: WARNING - this may cause a page fault!\n" []
    k2 ← store_virt b virt 0xdead_beef k1
    new_value ← load_virt b virt k2
    k3 ← call_unmap_page b virt (
        k2
        |> print "rotest: write succeeded - protection not working!\n" []
        |> print "rotest: new value: %x\n" (word new_value ∷ []))
    k4 ← call_free_page phys k3
    ok (k4 |> print "rotest: cleaned up\n" [])

  unfoldable pub cmd_rotest : List (List ℕ) → Kernel → Outcome Kernel
  cmd_rotest argv k = do
    (phys, k1) ← call_alloc_page (k |> print "Testing read-only page protection...\n" [])
    if phys == 0
        then ok (k1 |> print "rotest: failed to allocate physical page\n" [])
        else call_map_page b 0x5000_0000 phys page_present
            (k1 |> print "rotest: allocated physical page at %x\n" (word phys ∷ []))
          >>= λ (r, k2).
              if r == 0
              then write_protected 0x5000_0000 phys k2
              else call_free_page phys (k2 |> print "rotest: failed to map read-only page\n" [])

  unfoldable pub cmd_pftest : List (List ℕ) → Kernel → Outcome Kernel
  cmd_pftest argv k =
      let k1 =
        k
        |> print "=== Page Fault Handler Test ===\n" []
        |> print "Testing page fault detection and handling...\n\n" []
        |> print "Test 1: Accessing unmapped memory\n" []
        |> print "pftest: About to access 0x12345678 (unmapped)...\n" []
        |> print "pftest: This should trigger a page fault!\n" [] in
      load_virt b 0x1234_5678 k1 >>= λ value.
      ok (k1 |> print "pftest: ERROR - Page fault handler not working!\n" [])

  unfoldable pub cmd_pftest2 : List (List ℕ) → Kernel → Outcome Kernel
  cmd_pftest2 argv k =
      let k1 =
        k
        |> print "=== Simple Page Fault Test ===\n" []
        |> print "pftest2: About to access unmapped memory at 0x20000000\n" []
        |> print "pftest2: This should trigger a page fault!\n" []
        |> print "pftest2: If you see this message after the access, the handler isn't working.\n"
            [] in
      load_virt b 0x2000_0000 k1 >>= λ value. ok (
        k1
        |> print "pftest2: ERROR - Page fault handler not working!\n" []
        |> print "pftest2: The access succeeded when it should have failed!\n" [])

  -- This command is not in the table of the shell.
  unfoldable pub cmd_virtual_physical : Kernel → Outcome Kernel
  cmd_virtual_physical k = do
    (phys1, k1) ← call_alloc_page (
        k
        |> print "Testing virtual and physical memory functions...\n\n" []
        |> print "1. Physical Memory Management:\n" [])
    (phys2, k2) ← call_alloc_page k1
    k3 ← call_free_page phys1 (
        k2
        |> print "   pmm_alloc_page() = %x\n" (word phys1 ∷ [])
        |> print "   pmm_alloc_page() = %x\n" (word phys2 ∷ []))
    k4 ← call_free_page phys2 k3
    (virt1, k5) ← call_vmalloc b 4096 (k4 |> print "2. Virtual Memory Management:\n" [])
    (virt2, k6) ← call_vmalloc b 8192 k5
    k7 ← call_vfree virt1 (
        k6
        |> print "   vmalloc(4096) = %x\n" (word virt1 ∷ [])
        |> print "   vmalloc(8192) = %x\n" (word virt2 ∷ []))
    k8 ← call_vfree virt2 k7
    (phys_page, k9) ← call_alloc_page (k8 |> print "3. Memory Mapping:\n" [])
    (map_result, k10) ← call_map_page b 0x2000_0000 phys_page (bit_or page_write page_user) k9
    mapping ← vmm_get_mapping b.page_directory 0x2000_0000 k10.paging
    k11 ← call_unmap_page b 0x2000_0000 (
        k10
        |> print "   vmm_map_page(%x, %x) = %d\n"
            (word 0x2000_0000 ∷ word phys_page ∷ word map_result ∷ [])
        |> print "   vmm_get_mapping(%x) = %x\n" (word 0x2000_0000 ∷ word mapping ∷ []))
    k12 ← call_free_page phys_page k11
    let (kbrk_current, h) = kbrk 0 k12.kheap
    (vbrk_current, k13) ← call_vbrk b 0 (
        record k12 { kheap = h }
        |> print "4. Memory Break Functions:\n" []
        |> print "   kbrk() = %x\n" (word kbrk_current ∷ []))
    ok (k13 |> print "   vbrk() = %x\n" (word vbrk_current ∷ []) |> print "\n" [])
