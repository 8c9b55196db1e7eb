-- ===== src/Kernel/Fatal.antt =====
-- src/panic.c, and what its callers give it: the message with which the kernel stops.
use kfs.Base.{List, [], ◌∷◌, Option, none, some}
use Prim.Native.String.{String}
use kfs.Machine.Outcome.{Panic}
use kfs.Screen.{Console}
use kfs.Print.{Arg, string, word}
use kfs.Kernel.{kprintf}

-- The format and the arguments of the call of `kpanic_fatal` that a panic stands for, file by file.
-- the calls in src/pmm.c
unfoldable pmm_call : Panic → Option (String × List Arg)
pmm_call Panic.pmm_no_memory = some ("PMM: no memory available after PMM_START\n", [])
pmm_call Panic.pmm_out_of_memory = some ("PMM out of memory\n", [])
pmm_call (Panic.pmm_double_free addr) = some ("PMM: double free page %x\n", word addr ∷ [])
pmm_call _ = none

-- the calls in src/kheap.c
unfoldable kheap_call : Panic → Option (String × List Arg)
kheap_call (Panic.kmalloc_out_of_memory size) =
    some ("kmalloc: out of memory! Requested %d bytes, heap full\n", word size ∷ [])
kheap_call (Panic.kfree_double_free ptr) =
    some ("kfree: double free detected at %p\n", word ptr ∷ [])
kheap_call (Panic.kfree_invalid ptr magic) =
    some ("kfree: invalid memory block at %x (magic: %x)\n", word ptr ∷ word magic ∷ [])
kheap_call (Panic.kheap_no_page i) =
    some ("kheap_init: failed to allocate physical page %d\n", word i ∷ [])
kheap_call (Panic.kheap_unmapped v) = some ("kheap_init: failed to map page at %x\n", word v ∷ [])
kheap_call _ = none

-- the calls in src/vmem.c
unfoldable vmem_call : Panic → Option (String × List Arg)
vmem_call Panic.vmalloc_exceeds = some ("vmalloc: would exceed vmalloc region\n", [])
vmem_call Panic.vmalloc_no_page = some ("vmalloc: failed to allocate physical page\n", [])
vmem_call Panic.vmalloc_unmapped = some ("vmalloc: failed to map page\n", [])
vmem_call (Panic.vfree_double_free ptr) =
    some ("vfree: double free detected at %x\n", word ptr ∷ [])
vmem_call (Panic.vfree_invalid ptr magic) =
    some ("vfree: invalid memory block at %x (magic: %x)\n", word ptr ∷ word magic ∷ [])
vmem_call Panic.vbrk_unmapped = some ("vbrk: failed to map page\n", [])
vmem_call _ = none

-- the calls in src/paging.c
unfoldable paging_call : Panic → Option (String × List Arg)
paging_call Panic.bios_access = some ("Access to BIOS memory region denied\n", [])
paging_call Panic.user_access_kernel = some ("User access to kernel space denied\n", [])
paging_call Panic.user_access_supervisor = some ("User access to supervisor-only page denied\n", [])
paging_call Panic.page_fault = some ("Page fault\n", [])
paging_call _ = none

-- the calls in src/shell.c
unfoldable shell_call : Panic → Option (String × List Arg)
shell_call (Panic.write_bios addr) =
    some ("write: attempt to write to BIOS memory at %p\n", word addr ∷ [])
shell_call (Panic.write_overflow type size addr) = some (
  "write: buffer overflow detected! Writing 4 bytes to %s allocation of %d bytes at %p\n",
  string type ∷ word size ∷ word addr ∷ [],
)
shell_call (Panic.read_overflow type size addr) = some (
  "read: buffer overflow detected! Reading 4 bytes from %s allocation of %d bytes at %p\n",
  string type ∷ word size ∷ word addr ∷ [],
)
shell_call _ = none

-- the first of two that is there
abbrev pub or_else :
    Option (String × List Arg) → Option (String × List Arg) → Option (String × List Arg)
or_else none other = other
or_else (some call) other = some call

-- `none` where the machine stops in another way
unfoldable pub panic_call : Panic → Option (String × List Arg)
unfolding pmm_call kheap_call vmem_call paging_call shell_call
panic_call p =
    or_else (pmm_call p)
      (or_else (kheap_call p) (or_else (vmem_call p) (or_else (paging_call p) (shell_call p))))

-- up to `hlt`: what is on the screen when the kernel stops
unfoldable pub kpanic_fatal : String → List Arg → Console → Console
kpanic_fatal fmt args c = kprintf "\nKernel halted.\n" [] (kprintf fmt args c)

unfoldable pub panic_screen : Panic → Console → Console
panic_screen p c = elim (panic_call p) [ none ↦ c | some (fmt, args) ↦ kpanic_fatal fmt args c ]
