-- ===== src/Kernel/Access.antt =====
-- src/shell.c: the commands that read and write allocated memory. As in the allocators, a word of a
-- region stands in memory at its address.
use Prim.Native.String.{String}
use kfs.Base.{ℕ, ltb, leb, ◌&&◌, ◌==◌, if◌then◌else◌, ◌∷◌, [], List}
use kfs.Machine.Mem.{load32, store32}
use kfs.Machine.Outcome.{Panic, Outcome, ok, halted, ◌>>=◌}
use kfs.Memory.{kheap_start, kheap_end}
use kfs.Vmem.{kvmem_start, kvmem_end}
use kfs.Print.{string, word}
use kfs.Shell.{parse_hex_or_dec}
use kfs.Kernel.{Kernel, Board, codes, print, set_mem, ◌|>◌}
use kfs.Kernel.Info.{vmem_start, vmem_end}
use kfs.Kernel.Alloc.{call_kmalloc, call_kfree, call_ksize, call_vmalloc, call_vfree, call_vsize}

abbrev pub typed : String → Outcome (ℕ × Kernel) → Outcome (ℕ × List ℕ × Kernel)
typed type o = o >>= λ (size, k). ok (size, codes type, k)

-- `alloc_size` and `alloc_type`, by the range of the address
unfoldable pub allocation : ℕ → Kernel → Outcome (ℕ × List ℕ × Kernel)
allocation addr k =
    if leb kheap_start addr && ltb addr kheap_end
    then typed "kmalloc" (call_ksize addr k)
    else if leb kvmem_start addr && ltb addr kvmem_end
    then typed "kvmalloc" (call_vsize addr k)
    else if leb vmem_start addr && ltb addr vmem_end
    then typed "vmalloc" (call_vsize addr k)
    else ok (0, codes "unknown", k)

-- `write` at an address, for the size and the name of the allocation there
unfoldable pub write_found : ℕ → ℕ → ℕ → List ℕ → Kernel → Outcome Kernel
write_found addr val size type k =
    if size == 0
    then ok (
        k
        |> print "write: WARNING - address %p not recognized as valid allocation\n"
            (word addr ∷ []))
    else if ltb size 4
    then halted (Panic.write_overflow type size addr)
    else ok (
        set_mem (store32 k.paging.mem addr val) k
        |> print "write: writing to %s allocation (%d bytes) at %p\n"
            (string type ∷ word size ∷ word addr ∷ [])
        |> print "write: *(int*)%x = %d\n" (word addr ∷ word val ∷ []))

-- `cmd_write` behind its tests of the arguments
unfoldable pub write_word : ℕ → ℕ → Kernel → Outcome Kernel
write_word addr val k = allocation addr k >>= λ (size, type, k1). write_found addr val size type k1

unfoldable pub cmd_write : List (List ℕ) → Kernel → Outcome Kernel
cmd_write (_ ∷ a ∷ v ∷ _) k =
    let addr : ℕ = parse_hex_or_dec a in
    let val : ℕ = parse_hex_or_dec v in
    if ltb 0x7fff_ffff val
    then ok (k |> print "write: value too big for int: %x\n" (word val ∷ []))
    else if ltb addr 0x0010_0000
    then halted (Panic.write_bios addr)
    else write_word addr val k
cmd_write _ k = ok (k |> print "Usage: write <addr> <value>\n" [])

-- `read` at an address, for the size and the name of the allocation there
unfoldable pub read_found : ℕ → ℕ → List ℕ → Kernel → Outcome Kernel
read_found addr size type k =
    if size == 0
    then ok (
        k
        |> print "read: WARNING - address %p not recognized as valid allocation\n" (word addr ∷ []))
    else if ltb size 4
    then halted (Panic.read_overflow type size addr)
    else ok (
        k
        |> print "read: reading from %s allocation (%d bytes) at %p\n"
            (string type ∷ word size ∷ word addr ∷ [])
        |> print "read: *(int*)%x = %d\n" (word addr ∷ word (load32 k.paging.mem addr) ∷ []))

-- `cmd_read` behind its test of the arguments
unfoldable pub read_word : ℕ → Kernel → Outcome Kernel
read_word addr k = allocation addr k >>= λ (size, type, k1). read_found addr size type k1

unfoldable pub cmd_read : List (List ℕ) → Kernel → Outcome Kernel
cmd_read (_ ∷ a ∷ _) k = read_word (parse_hex_or_dec a) k
cmd_read _ k = ok (k |> print "Usage: read <addr>\n" [])

-- `cmd_ktest` behind `kmalloc`
unfoldable pub ktest_block : ℕ → ℕ → ℕ → Kernel → Outcome Kernel
ktest_block ptr nbytes value k =
    if ptr == 0
    then ok (k |> print "ktest: kmalloc(%d) failed\n" (word nbytes ∷ []))
    else (let k1 =
          set_mem (store32 k.paging.mem ptr value) k
          |> print "ktest: kmalloc(%d) -> %x\n" (word nbytes ∷ word ptr ∷ [])
          |> print "ktest: writing value %d to %d bytes\n" (word value ∷ word nbytes ∷ []) in
        let k2 =
          k1 |> print "ktest: read back first int = %d\n" (word (load32 k1.paging.mem ptr) ∷ []) in
        call_ksize ptr k2 >>= λ (got, k3).
        call_kfree ptr (
          k3
          |> print "ktest: ksize(%x) -> %d\n" (word ptr ∷ word got ∷ [])
          |> print "ktest: verify OK\n" [])
        >>= λ k4. ok (k4 |> print "ktest: kfree(%x)\n" (word ptr ∷ [])))

unfoldable pub cmd_ktest : List (List ℕ) → Kernel → Outcome Kernel
cmd_ktest (_ ∷ bytes ∷ v ∷ _) k = call_kmalloc (parse_hex_or_dec bytes) k >>= λ (ptr, k').
    ktest_block ptr (parse_hex_or_dec bytes) (parse_hex_or_dec v) k'
cmd_ktest _ k = ok (k |> print "Usage: ktest <bytes> <value>\n" [])

-- `cmd_vtest` behind `vmalloc`
unfoldable pub vtest_block : ℕ → ℕ → ℕ → Kernel → Outcome Kernel
vtest_block ptr nbytes value k =
    if ptr == 0
    then ok (k |> print "vtest: vmalloc(%d) failed\n" (word nbytes ∷ []))
    else (let k1 =
          set_mem (store32 k.paging.mem ptr value) k
          |> print "vtest: vmalloc(%d) -> %x\n" (word nbytes ∷ word ptr ∷ [])
          |> print "vtest: writing value %d to %d bytes\n" (word value ∷ word nbytes ∷ []) in
        let k2 =
          k1 |> print "vtest: read back first int = %d\n" (word (load32 k1.paging.mem ptr) ∷ []) in
        call_vsize ptr k2 >>= λ (got, k3).
        call_vfree ptr (
          k3
          |> print "vtest: vsize(%x) -> %d\n" (word ptr ∷ word got ∷ [])
          |> print "vtest: verify OK\n" [])
        >>= λ k4. ok (k4 |> print "vtest: vfree(%x)\n" (word ptr ∷ [])))

unfoldable pub cmd_vtest : Board → List (List ℕ) → Kernel → Outcome Kernel
cmd_vtest b (_ ∷ bytes ∷ v ∷ _) k = call_vmalloc b (parse_hex_or_dec bytes) k >>= λ (ptr, k').
    vtest_block ptr (parse_hex_or_dec bytes) (parse_hex_or_dec v) k'
cmd_vtest b _ k = ok (k |> print "Usage: vtest <bytes> <value>\n" [])
