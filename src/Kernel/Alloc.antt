-- ===== src/Kernel/Alloc.antt =====
-- src/shell.c: the commands that call the allocators. Their arguments are the strings of `argv`, the
-- command's name first.
use kfs.Base.{
  Bool, false, leb, ◌||◌, not, ltb, ℕ, ◌%◌, ◌^◌, ◌==◌, bit_or, if◌then◌else◌, ◌∷◌, [], List,
}
use kfs.Machine.Outcome.{Outcome, ok, halted, out_of_fuel, ◌>>=◌}
use kfs.Kheap.{
  is_valid_kheap_block, magic_allocated, outside_heap, header_size, magic_at, kmalloc, kfree, ksize,
  kbrk, invalid_ptr,
}
use kfs.Paging.{vmm_get_mapping, frame_of, pd_index, pt_index}
use kfs.Vmem.{
  is_valid_allocated_block, vmem_magic_allocated, kvmem_start, block_size, block_magic_at, vmalloc,
  vfree, vsize, vbrk,
}
use kfs.Machine.Mem.{load32}
use kfs.Machine.Word.{sub32}
use kfs.Print.{word}
use kfs.Shell.{parse_hex_or_dec}
use kfs.Kernel.{kprintf, Console, Kernel, Board, print, set_mem, ◌|>◌}

-- the calls of the allocators on the kernel's state
abbrev pub call_kmalloc : ℕ → Kernel → Outcome (ℕ × Kernel)
call_kmalloc n k =
    kmalloc n k.kheap k.paging.mem >>= λ (p, h, m). ok (p, record (set_mem m k) { kheap = h })

abbrev pub call_kfree : ℕ → Kernel → Outcome Kernel
call_kfree a k = kfree a k.kheap k.paging.mem >>= λ (h, m). ok (record (set_mem m k) { kheap = h })

-- the test of a block came out as 0
abbrev pub refused : Outcome ℕ → Bool
refused (ok valid) = valid == 0
refused (halted p) = false
refused out_of_fuel = false

-- what `ksize` prints, by its branches
unfoldable pub ksize_message : ℕ → Kernel → Console
ksize_message ptr k =
    let magic : ℕ = load32 k.paging.mem (magic_at (sub32 ptr header_size)) in
    if ptr == 0
    then k.console
    else if outside_heap k.kheap ptr
    then kprintf "[ERROR]ksize: invalid pointer %x (outside kernel heap)\n" (word ptr ∷ [])
        k.console
    else if not (magic == magic_allocated)
    then kprintf "[ERROR] ksize: pointer %x refers to non-allocated block (magic=%x)\n"
        (word ptr ∷ word magic ∷ []) k.console
    else if refused (is_valid_kheap_block (sub32 ptr header_size) k.kheap k.paging.mem)
    then kprintf "[ERROR] ksize: pointer %x fails allocation validation\n" (word ptr ∷ []) k.console
    else k.console

abbrev pub call_ksize : ℕ → Kernel → Outcome (ℕ × Kernel)
call_ksize a k =
    ksize a k.kheap k.paging.mem >>= λ s. ok (s, record k { console = ksize_message a k })

abbrev pub call_vmalloc : Board → ℕ → Kernel → Outcome (ℕ × Kernel)
call_vmalloc b n k = vmalloc b.page_directory n k.vmem k.paging >>= λ (p, v, s).
    ok (p, record k { vmem = v; paging = s })

abbrev pub call_vfree : ℕ → Kernel → Outcome Kernel
call_vfree a k = vfree a k.vmem k.paging.mem >>= λ m. ok (set_mem m k)

-- what `vsize` prints, by its branches
unfoldable pub vsize_message : ℕ → Kernel → Console
vsize_message ptr k =
    let magic : ℕ = load32 k.paging.mem (block_magic_at (sub32 ptr block_size)) in
    if ptr == 0
    then k.console
    else if ltb ptr kvmem_start || leb k.vmem.vmem_current ptr
    then kprintf "[ERROR] vsize: invalid pointer %x (outside vmalloc allocated region)\n"
        (word ptr ∷ []) k.console
    else if not (magic == vmem_magic_allocated)
    then kprintf "[ERROR] vsize: pointer %x refers to non-allocated block (magic=%x)\n"
        (word ptr ∷ word magic ∷ []) k.console
    else if refused (is_valid_allocated_block (sub32 ptr block_size) k.vmem k.paging.mem)
    then kprintf "[ERROR] vsize: pointer %x fails allocation validation\n" (word ptr ∷ []) k.console
    else k.console

abbrev pub call_vsize : ℕ → Kernel → Outcome (ℕ × Kernel)
call_vsize a k =
    vsize a k.vmem k.paging.mem >>= λ s. ok (s, record k { console = vsize_message a k })

unfoldable pub cmd_kmalloc : List (List ℕ) → Kernel → Outcome Kernel
cmd_kmalloc (_ ∷ bytes ∷ _) k = call_kmalloc (parse_hex_or_dec bytes) k >>= λ (p, k').
    ok (k' |> print "kmalloc(%d) -> %x\n" (word (parse_hex_or_dec bytes) ∷ word p ∷ []))
cmd_kmalloc _ k = ok (k |> print "Usage: kmalloc <bytes>\n" [])

unfoldable pub cmd_kfree : List (List ℕ) → Kernel → Outcome Kernel
cmd_kfree (_ ∷ addr ∷ _) k = call_kfree (parse_hex_or_dec addr) k >>= λ k'.
    ok (k' |> print "kfree(%x)\n" (word (parse_hex_or_dec addr) ∷ []))
cmd_kfree _ k = ok (k |> print "Usage: kfree <addr>\n" [])

unfoldable pub cmd_ksize : List (List ℕ) → Kernel → Outcome Kernel
cmd_ksize (_ ∷ addr ∷ _) k = call_ksize (parse_hex_or_dec addr) k >>= λ (s, k').
    ok (k' |> print "ksize(%x) -> %d\n" (word (parse_hex_or_dec addr) ∷ word s ∷ []))
cmd_ksize _ k = ok (k |> print "Usage: ksize <addr>\n" [])

unfoldable pub cmd_kbrk : List (List ℕ) → Kernel → Outcome Kernel
cmd_kbrk (_ ∷ addr ∷ _) k =
    let new_brk : ℕ = parse_hex_or_dec addr in
    let (result, h) = kbrk new_brk k.kheap in
    let k' = record k { kheap = h } in
    ok (
      if new_brk == 0
      then k |> print "[ERROR] vbrk: invalid address %x\n" (word new_brk ∷ [])
      else if result == invalid_ptr
      then k' |> print "[ERROR] kbrk: invalid address %x\n" (word new_brk ∷ [])
      else k' |> print "kbrk: %x\n" (word result ∷ []))
cmd_kbrk _ k =
    let (brk, h) = kbrk 0 k.kheap in
    ok (record k { kheap = h } |> print "kbrk: %x\n" (word brk ∷ []))

unfoldable pub cmd_vfree : List (List ℕ) → Kernel → Outcome Kernel
cmd_vfree (_ ∷ addr ∷ _) k = call_vfree (parse_hex_or_dec addr) k >>= λ k'.
    ok (k' |> print "vfree(%x)\n" (word (parse_hex_or_dec addr) ∷ []))
cmd_vfree _ k = ok (k |> print "Usage: vfree <addr>\n" [])

unfoldable pub cmd_vsize : List (List ℕ) → Kernel → Outcome Kernel
cmd_vsize (_ ∷ addr ∷ _) k = call_vsize (parse_hex_or_dec addr) k >>= λ (s, k').
    ok (k' |> print "vsize(%x) -> %d\n" (word (parse_hex_or_dec addr) ∷ word s ∷ []))
cmd_vsize _ k = ok (k |> print "Usage: vsize <addr>\n" [])

module _ (b : Board) where
  unfoldable pub cmd_vmalloc : List (List ℕ) → Kernel → Outcome Kernel
  cmd_vmalloc (_ ∷ bytes ∷ _) k = call_vmalloc b (parse_hex_or_dec bytes) k >>= λ (p, k').
      ok (k' |> print "vmalloc(%d) -> %x\n" (word (parse_hex_or_dec bytes) ∷ word p ∷ []))
  cmd_vmalloc _ k = ok (k |> print "Usage: vmalloc <bytes>\n" [])

  abbrev pub call_vbrk : ℕ → Kernel → Outcome (ℕ × Kernel)
  call_vbrk a k = vbrk b.page_directory a k.vmem k.paging >>= λ (r, v, s).
      ok (r, record k { vmem = v; paging = s })

  unfoldable pub cmd_vbrk : List (List ℕ) → Kernel → Outcome Kernel
  cmd_vbrk (_ ∷ addr ∷ _) k =
      let new_brk : ℕ = parse_hex_or_dec addr in
      if new_brk == 0
      then ok (k |> print "[ERROR] vbrk: address %x not allocatable\n" (word new_brk ∷ []))
      else call_vbrk new_brk k >>= λ (result, k'). ok (
          if result == invalid_ptr
          then k' |> print "[ERROR] vbrk: address %x not allocatable\n" (word new_brk ∷ [])
          else k' |> print "vbrk: %x\n" (word result ∷ []))
  cmd_vbrk _ k = call_vbrk 0 k >>= λ (brk, k'). ok (k' |> print "vbrk: %x\n" (word brk ∷ []))

  unfoldable pub cmd_vget : List (List ℕ) → Kernel → Outcome Kernel
  cmd_vget (_ ∷ addr ∷ _) k =
      let virt : ℕ = parse_hex_or_dec addr in
      let offset : ℕ = virt % 2 ^ 12 in
      vmm_get_mapping b.page_directory virt k.paging >>= λ pte.
      let k' =
        k
        |> print "logical: %x (flat seg)\n" (word virt ∷ [])
        |> print "virtual: %x  pd=%d pt=%d off=%d\n"
            (word virt ∷ word (pd_index virt) ∷ word (pt_index virt) ∷ word offset ∷ []) in
      ok (
        if pte == 0
        then k' |> print "mapping: (not present)\n" []
        else k'
          |> print "physical: %x  flags: %x\n"
              (word (bit_or (frame_of pte) offset) ∷ word (pte % 2 ^ 12) ∷ []))
  cmd_vget _ k = ok (k |> print "Usage: vget <virt>\n" [])
