-- ===== src/Kernel/Trials.antt =====
-- src/shell.c: the commands that try out the memory system. A word at a virtual address outside of the
-- allocators' regions is read and written by the processor, through the page tables.
use Prim.Native.String.{String}
use kfs.Base.{ℕ, ◌==◌, if◌then◌else◌, ◌∷◌, [], List}
use kfs.Machine.Outcome.{Outcome, ok, ◌>>=◌}
use kfs.Pmm.{pmm_alloc_page, pmm_free_page}
use kfs.Paging.{page_write, vmm_map_page, vmm_unmap_page, vmm_get_mapping}
use kfs.Print.{string, word}
use kfs.Kernel.{Kernel, Board, codes, print, load_virt, store_virt, ◌|>◌}
use kfs.Kernel.Info.{cmd_pmminfo}
use kfs.Kernel.Alloc.{call_kmalloc, call_kfree, call_ksize, call_vmalloc, call_vfree, call_vsize}

-- the calls of the page manager and of paging on the kernel's state
abbrev pub call_alloc_page : Kernel → Outcome (ℕ × Kernel)
call_alloc_page k = pmm_alloc_page k.paging.pmm >>= λ (p, s).
    ok (p, record k { paging = record k.paging { pmm = s } })

abbrev pub call_free_page : ℕ → Kernel → Outcome Kernel
call_free_page p k =
    pmm_free_page p k.paging.pmm >>= λ s. ok (record k { paging = record k.paging { pmm = s } })

-- one half of `cmd_kmalloc_test`, with the format of its message
unfoldable pub kmalloc_trial : ℕ → String → Kernel → Outcome Kernel
kmalloc_trial n fmt k = call_kmalloc n k >>= λ (p, k1).
    call_ksize p (k1 |> print fmt (word p ∷ [])) >>= λ (size, k2).
    call_kfree p (k2 |> print "  ksize(%x) = %d bytes\n\n" (word p ∷ word size ∷ []) |> cmd_pmminfo)

unfoldable pub cmd_kmalloc_test : List (List ℕ) → Kernel → Outcome Kernel
cmd_kmalloc_test argv k =
    kmalloc_trial 100 "\n  kmalloc(100) = %x\n" (cmd_pmminfo k)
    >>= kmalloc_trial 5000 "\n  kmalloc(5000) = %x\n"

module _ (b : Board) where
  abbrev pub call_map_page : ℕ → ℕ → ℕ → Kernel → Outcome (ℕ × Kernel)
  call_map_page virt phys flags k =
      vmm_map_page b.page_directory virt phys flags k.paging >>= λ (r, s).
      ok (r, record k { paging = s })

  abbrev pub call_unmap_page : ℕ → Kernel → Outcome Kernel
  call_unmap_page virt k =
      vmm_unmap_page b.page_directory virt k.paging >>= λ s. ok (record k { paging = s })

  -- one half of `cmd_vmalloc_test`, with the format of its message
  unfoldable pub vmalloc_trial : ℕ → String → Kernel → Outcome Kernel
  vmalloc_trial n fmt k = call_vmalloc b n k >>= λ (p, k1).
      call_vsize p (k1 |> print fmt (word p ∷ [])) >>= λ (size, k2).
      call_vfree p
        (k2 |> print "  vsize(%x) = %d bytes\n\n" (word p ∷ word size ∷ []) |> cmd_pmminfo)

  unfoldable pub cmd_vmalloc_test : List (List ℕ) → Kernel → Outcome Kernel
  cmd_vmalloc_test argv k =
      vmalloc_trial 200 "\n  vmalloc(200) = %x\n" (cmd_pmminfo k)
      >>= vmalloc_trial 5000 "\n  vmalloc(5000) = %x\n"

  -- `cmd_page_ops` behind the mapping
  unfoldable pub use_page : ℕ → ℕ → Kernel → Outcome Kernel
  use_page virt phys k = do
    k1 ← store_virt b virt 0x1234_5678 k
    w ← load_virt b virt k1
    let k2 =
        k1
        |> print "map %x -> %x, rw=%s\n" (
            word virt
            ∷ word phys
            ∷ string (if w == 0x1234_5678 then codes "ok" else codes "bad")
            ∷ [])
    got ← vmm_get_mapping b.page_directory virt k2.paging
    k3 ← call_unmap_page virt (k2 |> print "get %x => %x\n" (word virt ∷ word got ∷ []))
    after ← vmm_get_mapping b.page_directory virt k3.paging
    call_free_page phys
        (k3 |> print "unmap ok=%s\n" (string (if after == 0 then codes "yes" else codes "no") ∷ []))

  unfoldable pub cmd_page_ops : List (List ℕ) → Kernel → Outcome Kernel
  cmd_page_ops argv k = do
    (phys, k1) ← call_alloc_page (k |> print "Page ops test...\n" [])
    if phys == 0
        then ok (k1 |> print "alloc failed\n" [])
        else call_map_page 0x1000_0000 phys page_write k1 >>= λ (r, k2).
            if r == 0
            then use_page 0x1000_0000 phys k2
            else call_free_page phys (k2 |> print "map failed\n" [])
