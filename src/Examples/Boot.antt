-- ===== src/Examples/Boot.antt =====
-- The start on the largest memory, with a keyboard that has one byte left from before.
use kfs.Base.{
  false, ap, ◌+◌, ◌-◌, some, ◌≡◌, refl, arith, ◌==◌, if◌then◌else◌, bit_and, inl, [], ◌∷◌,
}
use kfs.Machine.Outcome.{Panic, ok}
use kfs.Pmm.{boot}
use kfs.Paging.{Paging}
use kfs.Paging.Start.{IsPlaced}
use kfs.Memory.Boot.{Booted, memory_init-Booted}
use kfs.Memory.{kheap_start, kheap_size, first_heap}
use kfs.Memory.Start.{first_blocks, first_heap-IsHeap}
use kfs.Kheap.{ksize, header_size}
use kfs.Kheap.Size.{ksize-InUse}
use kfs.Print.{word, kprintfv, convert, print_hex, nibbles_from, print_decimal, digits_from}
use kfs.Print.Format.{text, as_pointer, as_decimal, percent, kprintfv-format}
use kfs.Screen.{screen_putstring}
use kfs.Kernel.{Kernel, Board, codes, kprintf}
use kfs.Kernel.Start.{Interrupts, kernel_main}
use kfs.Kernel.Boot.{IsWait, Started, kernel_main-Started}
use kfs.Kernel.Fatal.{panic_call, panic_screen, kpanic_fatal}
use kfs.Kernel.Rehearsal.{Rehearsed, cmd_ktest-Rehearsed}
use kfs.Keyboard.{idt_gate}
use kfs.Shell.{parse_hex_or_dec, parse_hex, parse_dec}
use kfs.Examples.Tables.{empty_tables}
use kfs.Examples.Blocks.{start_memory, full_memory, full_blocks, full_memory-IsHeap}
use kfs.Examples.Console.{console}
use kfs.Examples.Session.{board, idle}

placed : IsPlaced 0x1000 0x2000
placed = record {
  directory = refl;
  aligned = refl;
  apart = inl (omega arith);
  low = (omega arith, omega arith);
}

-- before the start
abbrev off : Paging
off = record empty_tables { pmm = boot }

memory_init-Booted_example : Booted 0x1000 0x2000 placed 0x00a0_0000 off
memory_init-Booted_example =
    memory_init-Booted 0x1000 0x2000 placed 0x00a0_0000 off refl (omega arith)

-- the first read of the status finds a byte
abbrev slow_board : Board
slow_board = record board { status = λ i. if i == 0 then 1 else 0 }

one_byte : IsWait slow_board.status 0x01 0 1
one_byte = record {
  set = λ j lt e.
      let first : bit_and (slow_board.status (0 + j)) 0x01 ≡ 1 =
        ap (λ i. bit_and (slow_board.status i) 0x01) {x = 0 + j} {y = 0} (omega arith) in
      omega (arith, first, e);
  clear = refl;
}

ready : IsWait slow_board.status 0x02 2 0
ready = record { set = λ j lt e. absurd (omega (arith, lt)); clear = refl }

abbrev no_gates : Interrupts
no_gates = record {
  idt = λ i. idt_gate 0 0 0;
  limit = 0;
  base = 0;
  table = (0, 0);
  enabled = false;
}

abbrev unset : Kernel
unset = record idle { paging = off }

kernel_main-Started_example :
    Started slow_board 0x0010_3000 0x0010_0100 0x0010_0200
      (kernel_main slow_board 2 0x0010_3000 0x0010_0100 0x0010_0200 unset no_gates)
kernel_main-Started_example =
    kernel_main-Started slow_board 2 1 0 0x0010_3000 0x0010_0100 0x0010_0200 unset no_gates one_byte
      ready (omega arith) (omega arith) placed refl

double_free_call :
    panic_call (Panic.pmm_double_free 0x0010_0008)
    ≡ some ("PMM: double free page %x\n", word 0x0010_0008 ∷ [])
unfolding panic_call
double_free_call = refl

-- its text
double_free_text :
    kprintfv (codes "PMM: double free page %x\n") (word 0x0010_0008 ∷ [])
    ≡ some (codes "PMM: double free page 0x00100008\n")
unfolding kprintfv convert print_hex nibbles_from
double_free_text = refl

double_free_screen :
    panic_screen (Panic.pmm_double_free 0x0010_0008) console
    ≡ screen_putstring
        (codes "\nKernel halted.\n")
        (screen_putstring (codes "PMM: double free page 0x00100008\n") console)
unfolding panic_screen kpanic_fatal kprintf kprintfv
double_free_screen =
    rw (panic_screen, double_free_call, kpanic_fatal, kprintf, double_free_text) refl

kprintfv-format_example :
    kprintfv (codes "kfree(%p) -> %d%%\n") (word 0x0010_0008 ∷ word 24 ∷ [])
    ≡ some (codes "kfree(0x00100008) -> 24%\n")
unfolding print_hex nibbles_from print_decimal digits_from
kprintfv-format_example =
    kprintfv-format
      (text (codes "kfree(")
        ∷ as_pointer 0x0010_0008
        ∷ text (codes ") -> ")
        ∷ as_decimal 24
        ∷ percent
        ∷ text (codes "\n")
        ∷ [])
      (
        (
          omega arith,
          (omega arith, (omega arith, (omega arith, (omega arith, (omega arith, tt))))),
        ),
        (
          (omega arith, (omega arith, (omega arith, (omega arith, (omega arith, tt))))),
          ((omega arith, tt), tt),
        ),
      )

ksize-InUse_example : ksize 0x0020_0010 first_heap full_memory ≡ ok (kheap_size - header_size)
ksize-InUse_example =
    ksize-InUse {h = first_heap} {m = full_memory} {bs = full_blocks} kheap_start
      (kheap_size - header_size) full_memory-IsHeap refl (inl (refl, refl, refl)) (omega arith)

-- a kernel with the heap as the start leaves it
abbrev rested : Kernel
rested = record idle { paging = record empty_tables { mem = start_memory } }

parsed : parse_hex_or_dec (codes "24") ≡ 24
unfolding parse_hex_or_dec parse_hex parse_dec
parsed = refl

cmd_ktest-Rehearsed_example :
    Rehearsed (codes "ktest" ∷ codes "24" ∷ codes "7" ∷ []) rested first_blocks
cmd_ktest-Rehearsed_example =
    cmd_ktest-Rehearsed (codes "ktest") (codes "24") (codes "7") [] rested first_blocks
      (first_heap-IsHeap (λ a. 0)) tt refl (omega (arith, parsed)) (omega (arith, parsed))
      (inl (rw parsed refl))
