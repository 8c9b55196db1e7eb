-- ===== src/Kernel/Info.antt =====
-- src/shell.c: the commands that print. Their arguments are the strings of `argv`, the command's name
-- first.
use kfs.Base.{ℕ, ◌/◌, ◌*◌, ◌∷◌, [], List}
use kfs.Machine.Word.{mul32}
use kfs.Machine.Outcome.{Panic, Outcome, ok, halted}
use kfs.Pmm.{pmm_total_pages, pmm_free_pages, page_size}
use kfs.Memory.{kheap_start, kheap_end}
use kfs.Vmem.{kvmem_start, kvmem_end}
use kfs.Screen.{screen_clear}
use kfs.Print.{string, word}
use kfs.Kernel.{Kernel, Board, print, ◌|>◌, give, out8, out16, interrupt}
use kfs.Machine.Outcome.{◌>>=◌}

abbrev pub vmem_start : ℕ
vmem_start = 0x00600000

abbrev pub vmem_end : ℕ
vmem_end = 0x006fffff

unfoldable pub cmd_help : List (List ℕ) → Kernel → Outcome Kernel
cmd_help argv k = ok (
    k
    |> print "System commands:\n" []
    |> print "  help clear echo reboot halt shutdown version gdt\n" []
    |> print "Kernel Heap commands (kmalloc):\n" []
    |> print "  kmalloc     - Allocate kernel memory: kmalloc <bytes>\n" []
    |> print "  kfree       - Free kernel memory: kfree <addr>\n" []
    |> print "  ksize       - Get allocated block size: ksize <addr>\n" []
    |> print "  ktest       - Allocate, write, verify, free: ktest <bytes> <value>\n" []
    |> print "  kbrk        - Physical memory break: kbrk [new_addr]\n" []
    |> print "Virtual Memory commands (vmalloc):\n" []
    |> print "  vmalloc vfree vsize vbrk\n" []
    |> print "  vget        - Show mapping of a virtual addr: vget <virt>\n" []
    |> print "Memory Tests:\n" []
    |> print "  meminfo     - Show memory stats\n" []
    |> print "  present     - Map, unmap, then access to trigger not-present fault\n" []
    |> print "  pageops     - Test page creation and management\n" []
    |> print "  kmalloctest - Test allocation functions (kmalloc, kfree, ksize)\n" []
    |> print "  vmalloctest - Test allocation functions (vmalloc, vfree, vsize)\n" []
    |> print "  write       - Write int to any allocator addr: write <addr> <value>\n" []
    |> print "  read        - Read int from any allocator addr: read <addr>\n" []
    |> print "  rotest      - Test read-only page protection\n" []
    |> print "  pftest      - Test page fault handler by accessing invalid memory\n" []
    |> print "  panictest   - Test kernel panic handling\n" [])

unfoldable pub cmd_clear : List (List ℕ) → Kernel → Outcome Kernel
cmd_clear argv k = ok (record k { console = screen_clear k.console })

-- the loop of `cmd_echo`, over the arguments that are left
unfoldable pub echo_from : List (List ℕ) → Kernel → Kernel
echo_from [] k = k
echo_from (arg ∷ []) k = k |> print "%s" (string arg ∷ [])
echo_from (arg ∷ next ∷ rest) k =
    echo_from (next ∷ rest) (k |> print "%s" (string arg ∷ []) |> print " " [])

unfoldable pub cmd_echo : List (List ℕ) → Kernel → Outcome Kernel
cmd_echo [] k = ok (k |> print "\n" [])
cmd_echo (name ∷ args) k = ok (echo_from args k |> print "\n" [])

-- Up to `hlt`: the messages are lost with the state.
unfoldable pub cmd_halt : List (List ℕ) → Kernel → Outcome Kernel
cmd_halt argv k = halted Panic.halt_command

unfoldable pub cmd_pmminfo : Kernel → Kernel
cmd_pmminfo k =
    let total_pages : ℕ = pmm_total_pages k.paging.pmm in
    let free_pages : ℕ = pmm_free_pages k.paging.pmm in
    k
    |> print "Physical Memory Manager (PMM):\n" []
    |> print "  Total pages: %d (%d MB)\n"
        (word total_pages ∷ word (mul32 total_pages page_size / (1024 * 1024)) ∷ [])
    |> print "  Free pages: %d (%d MB)\n"
        (word free_pages ∷ word (mul32 free_pages page_size / (1024 * 1024)) ∷ [])

unfoldable pub cmd_meminfo : List (List ℕ) → Kernel → Outcome Kernel
cmd_meminfo argv k = ok (
    (k |> print "=== Memory Information ===\n" [] |> cmd_pmminfo)
    |> print "\nAllocator Regions:\n" []
    |> print "  kmalloc: %x - %x (64MB) - Physical memory\n"
        (word kheap_start ∷ word kheap_end ∷ [])
    |> print "  vmalloc: %x - %x (32MB) - Kernel virtual memory\n"
        (word kvmem_start ∷ word kvmem_end ∷ [])
    |> print "  vmalloc: %x - %x (64MB) - User virtual memory\n"
        (word vmem_start ∷ word vmem_end ∷ []))

module _ (b : Board) where
  unfoldable pub cmd_gdt_info : List (List ℕ) → Kernel → Outcome Kernel
  cmd_gdt_info argv k = ok (
      k
      |> print "Global Descriptor Table Information:\n" []
      |> print "  GDT Base Address: %x\n" (word 0x0000_0800 ∷ [])
      |> print "  Segment Layout:\n" []
      |> print "    0x00: Null Segment\n" []
      |> print "    0x08: Kernel Code Segment (Ring 0)\n" []
      |> print "    0x10: Kernel Data Segment (Ring 0)\n" []
      |> print "    0x18: Kernel Stack Segment (Ring 0)\n" []
      |> print "    0x20: User Code Segment (Ring 3)\n" []
      |> print "    0x28: User Data Segment (Ring 3)\n" []
      |> print "    0x30: User Stack Segment (Ring 3)\n" []
      |> print "  Current Segment Registers:\n" []
      |> print "    CS: %x, DS: %x, ES: %x\n"
          (word (b.segments 0) ∷ word (b.segments 1) ∷ word (b.segments 2) ∷ [])
      |> print "    FS: %x, GS: %x, SS: %x\n"
          (word (b.segments 3) ∷ word (b.segments 4) ∷ word (b.segments 5) ∷ []))

  unfoldable pub cmd_version : List (List ℕ) → Kernel → Outcome Kernel
  cmd_version argv k = ok (
      k
      |> print "KFS (Kernel From Scratch) v1.0\n" []
      |> print "Built: %s %s\n" (string b.date ∷ string b.time ∷ [])
      |> print "Architecture: i386 (32-bit)\n" []
      |> print "Features: GDT, Interrupts, Keyboard, VGA Text Mode, Shell\n" [])

  -- The `int` comes behind the load of an empty interrupt table.
  unfoldable pub cmd_reboot : List (List ℕ) → Kernel → Outcome Kernel
  cmd_reboot argv k = do
    k1 ← give b (out8 0x64 0xFE) (
        k
        |> print "Rebooting system...\n" []
        |> print "Trying multiple reboot methods...\n" []
        |> print "Method 1: Keyboard controller reset...\n" [])
    k2 ← give b (out8 0xCF9 0x06) (k1 |> print "Method 2: ACPI reset...\n" [])
    k3 ← give b (interrupt 0) (k2 |> print "Method 3: Triple fault...\n" [])
    ok (
        k3
        |> print "All reboot methods failed. Please use:\n" []
        |> print "- Physical reset button on computer case\n" []
        |> print "- VM reset function (Ctrl+R in QEMU, or VM menu)\n" []
        |> print "- Power cycle the machine\n" [])

  unfoldable pub cmd_shutdown : List (List ℕ) → Kernel → Outcome Kernel
  cmd_shutdown argv k = do
    k1 ← give b (out16 0x604 0x2000) (
        k
        |> print "Shutting down system gracefully...\n" []
        |> print "This will try to power off the system.\n\n" []
        |> print "Attempting ACPI shutdown...\n" [])
    k2 ← give b (interrupt 0x15) (k1 |> print "Attempting APM shutdown...\n" [])
    k3 ← give b (out16 0xB004 0x2000) (k2 |> print "Trying alternative shutdown methods...\n" [])
    k4 ← give b (out16 0x4004 0x3400) k3
    ok (
        k4
        |> print "\nShutdown failed. The system is still running.\n" []
        |> print "You can:\n" []
        |> print "- Use 'halt' to stop the CPU (requires restart)\n" []
        |> print "- Use 'reboot' to restart the system\n" []
        |> print "- Close the VM window manually\n" []
        |> print "- Power off physical machine manually\n" [])
