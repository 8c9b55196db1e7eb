-- ===== src/Kernel/Start.antt =====
-- src/kernel_main.c, and what it calls of src/screen.c and src/keyboard.c: how the kernel starts.
use kfs.Base.{
  true, Bool, ℕ, zero, suc, ◌+◌, ◌-◌, ◌*◌, ltb, ◌==◌, bit_and, ◌/◌, if◌then◌else◌, bit_or, ◌∷◌, [],
  List,
}
use kfs.Machine.Outcome.{Outcome, ok, out_of_fuel, ◌>>=◌}
use kfs.Machine.Word.{mul32}
use kfs.Pmm.{pmm_max_bytes, pmm_init, page_size}
use kfs.Memory.{kheap_init, kheap_start, kheap_end, kheap_size}
use kfs.Paging.{paging_init, paging_enable}
use kfs.Screen.{
  ScreenState, Console, set_at, vga_color, screen_clear, screen_set_color, update_hardware_cursor,
  save_cells, load_cells, screen_size,
}
use kfs.Print.{string, word}
use kfs.Keyboard.{IdtEntry, idt_gate, irq1}
use kfs.Kernel.{kprintf, Kernel, Board, codes, print, ◌|>◌}
use kfs.Kernel.Shell.{shell_print_prompt, shell_init}
use kfs.Kernel.Keys.{on_console}

unfoldable pub idt_set_gate : ℕ → ℕ → ℕ → ℕ → (ℕ → IdtEntry) → ℕ → IdtEntry
idt_set_gate num base sel flags idt = set_at idt num (idt_gate base sel flags)

unfoldable pub pic_init : List (ℕ × ℕ) → List (ℕ × ℕ)
pic_init ports =
    (0xA1, 0xFF)
    ∷ (0x21, 0xFD)
    ∷ (0xA1, 1)
    ∷ (0x21, 1)
    ∷ (0xA1, 2)
    ∷ (0x21, 4)
    ∷ (0xA1, 40)
    ∷ (0x21, 32)
    ∷ (0xA0, bit_or 0x10 1)
    ∷ (0x20, bit_or 0x10 1)
    ∷ ports

-- the loop that clears the table, by the rounds left
unfoldable pub clear_gates : ℕ → ℕ → (ℕ → IdtEntry) → ℕ → IdtEntry
clear_gates zero i idt = idt
clear_gates (suc left) i idt = clear_gates left (i + 1) (idt_set_gate i 0 0 0 idt)

-- `idt` and the two fields of `idtp`, and of the processor the limit and the address of the table that
-- it uses, and whether it takes interrupts
pub record Interrupts : Type 0 where
  pub idt : ℕ → IdtEntry
  pub limit : ℕ
  pub base : ℕ
  pub table : ℕ × ℕ
  pub enabled : Bool

-- `idt_load`, which hands `idtp` to the processor
abbrev pub idt_load : Interrupts → Interrupts
idt_load s = record s { table = (s.limit, s.base) }

-- the instruction `sti`
abbrev pub set_interrupts : Interrupts → Interrupts
set_interrupts s = record s { enabled = true }

-- For the address of the table and those of the two handlers; the calls of `outb` are in `pic_init`.
unfoldable pub interrupt_init : ℕ → ℕ → ℕ → Interrupts → List (ℕ × ℕ) → Interrupts × List (ℕ × ℕ)
interrupt_init idt_at keyboard_handler_asm page_fault_handler_asm s ports =
    let filled = record s {
      limit = 8 * 256 - 1;
      base = idt_at;
      idt =
          idt_set_gate 14 page_fault_handler_asm 0x08 0x8E
            (idt_set_gate irq1 keyboard_handler_asm 0x08 0x8E (clear_gates 256 0 s.idt));
    } in
    (set_interrupts (idt_load filled), pic_init ports)

-- The loops of `keyboard_init` read the status of the keyboard until a bit of it is clear: for the
-- fuel, the bit's place value and the number of the next read. The result is the number of the read
-- behind the loop. What the first loop reads from port 0x60 is dropped.
unfoldable pub wait_clear : (ℕ → ℕ) → ℕ → ℕ → ℕ → Outcome ℕ
wait_clear status zero mask i = out_of_fuel
wait_clear status (suc left) mask i =
    let rest = wait_clear status left mask (i + 1) in
    if bit_and (status i) mask == 0 then ok (i + 1) else rest

unfoldable pub keyboard_init : (ℕ → ℕ) → ℕ → List (ℕ × ℕ) → Outcome (List (ℕ × ℕ))
keyboard_init status fuel ports = do
  i ← wait_clear status fuel 0x01 0
  _ ← wait_clear status fuel 0x02 i
  ok ((0x64, 0xAE) ∷ ports)

unfoldable pub load_home_screen : Kernel → Kernel
load_home_screen k =
    k
    |> print "Welcome to KrnL!\n" []
    |> on_console (screen_set_color 11 0)
    |> on_console (screen_set_color 6 0)
    |> on_console (screen_set_color 15 0)
    |> print "- Architecture: %s\n" (string (codes "i386 (x86)") ∷ [])
    |> print "- Boot loader: %s\n" (string (codes "GRUB") ∷ [])
    |> print "- KrnL successfully loaded!\n\n" []
    |> on_console (screen_set_color 11 0)

-- the colours of the three screens
abbrev pub first_color : ℕ → ℕ
first_color i =
    if i == 0
    then vga_color 7 0
    else if i == 1
    then vga_color 1 7
    else if i == 2
    then vga_color 5 15
    else vga_color 15 0

-- an entry of `states` before its screen is drawn
abbrev pub blank_state : ℕ → ScreenState → ScreenState
blank_state i s = record {
  buffer = λ j. if ltb j screen_size then 0 else s.buffer j;
  cursor_x = 0;
  cursor_y = 0;
  input_length = 0;
  input_cursor = 0;
  input_start_x = 0;
  input_start_y = 0;
  color = first_color i;
}

-- `current_screen = &states[i]`
abbrev pub point_to : ℕ → Console → Console
point_to i c =
    let all = set_at c.others c.current c.screen in
    record c { screen = all i; others = all; current = i }

-- one round of the loop of `screen_init`
unfoldable pub init_screen : ℕ → Kernel → Kernel
init_screen i k =
    let c = point_to i k.console in
    let k1 = record k { console = screen_clear (record c { screen = blank_state i c.screen }) } in
    let k2 = shell_print_prompt (if i == 0 then load_home_screen k1 else k1) in
    k2
    |> on_console (λ c'.
      update_hardware_cursor
        (record c' { screen = record c'.screen { buffer = save_cells c'.vga c'.screen.buffer } }))

unfoldable pub screen_init : Kernel → Kernel
screen_init k =
    (k |> init_screen 0 |> init_screen 1 |> init_screen 2)
    |> on_console (λ c.
      let c' = point_to 0 c in
      update_hardware_cursor (record c' { vga = load_cells c'.screen.buffer c'.vga }))

-- what `pmm_init` prints: about its argument, and about the pages it has counted
abbrev pub pmm_report : ℕ → Kernel → Kernel
pmm_report mem_bytes k =
    let total_pages : ℕ = k.paging.pmm.total_pages in
    let free_pages : ℕ = k.paging.pmm.free_pages in
    let c =
      if ltb pmm_max_bytes mem_bytes
      then kprintf "PMM: Memory size %d MB exceeds maximum %d MB, capping\n"
          (word (mem_bytes / (1024 * 1024)) ∷ word (pmm_max_bytes / (1024 * 1024)) ∷ []) k.console
      else k.console in
    record k { console = c }
    |> print "PMM: total=%d pages (%d MB), free=%d pages (%d MB)\n" (
        word total_pages
        ∷ word (mul32 total_pages page_size / (1024 * 1024))
        ∷ word free_pages
        ∷ word (mul32 free_pages page_size / (1024 * 1024))
        ∷ [])

abbrev pub heap_report : Kernel → Kernel
heap_report k =
    k
    |> print "Kernel heap initialized: %x-%x (%d MB)\n"
        (word kheap_start ∷ word kheap_end ∷ word (kheap_size / (1024 * 1024)) ∷ [])
    |> print "Memory subsystem initialized with vmalloc for user space.\n" []

-- `memory_init` with what it and its calls print
unfoldable pub boot_memory : Board → ℕ → Kernel → Outcome Kernel
boot_memory b mem_bytes k = do
  pmm' ← pmm_init mem_bytes k.paging.pmm
  let s = record k.paging { pmm = pmm' }
  let k1 = pmm_report mem_bytes (record k { paging = s })
  let tables = paging_init b.page_directory b.page_tables k1.paging
  let k2 = record k1 { paging = tables } |> print "Paging structures initialized.\n" []
  let k3 = record k2 { paging = paging_enable k2.paging } |> print "Paging enabled.\n" []
  (s', h) ← kheap_init b.page_directory k3.paging
  ok (heap_report (record k3 { paging = s'; kheap = h }))

-- `kernel_main` up to its loop, which waits for interrupts
unfoldable pub kernel_main :
    Board → ℕ → ℕ → ℕ → ℕ → Kernel → Interrupts → Outcome (Kernel × Interrupts)
kernel_main b fuel idt_at keyboard_handler_asm page_fault_handler_asm k i = do
  let k1 = screen_init k
  ready ← keyboard_init b.status fuel k1.console.ports
  let (i', ports) = interrupt_init idt_at keyboard_handler_asm page_fault_handler_asm i ready
  k2 ← boot_memory b pmm_max_bytes (record k1 { console = record k1.console { ports = ports } })
  ok (shell_init k2, i')
