-- ===== src/Lib.antt =====
-- kfs: a verification library for the kernel.
--
-- The program is a 32-bit x86 kernel. At boot `memory_init` sets up the physical page manager
-- (src/pmm.c), builds the page tables and turns paging on (src/paging.c), and maps the region of the
-- kernel heap (src/kheap.c). The keyboard handler (src/keyboard.c) edits a line on the text screen
-- (src/screen.c) and passes it to the shell (src/shell.c), which takes it apart, looks the first word
-- up in its table of commands and calls the memory functions, also those of the virtual memory
-- allocator (src/vmem.c). Output goes through src/kprintf.c, and strings through src/string.c.
--
-- The files and the code they model:
--   Base       names of the libraries, comparisons, lists as arrays
--   Machine    what C gives the kernel: 32-bit arithmetic with its wrap-around (Word), `|`, `&` and
--              `~` on words (Bits), byte memory with 32-bit words in it (Mem), `int` (Int), and how a
--              call ends (Outcome: a value, one of the calls of `kpanic_fatal`, or out of fuel;
--              Yields: what holds if it returns)
--   Pmm        src/pmm.c: the record `Pmm` holds its static variables, one function per C function.
--              Pmm.Bitmap, Inv, Init, Low, Alloc and Free hold the lemmas by operation.
--   Paging     src/paging.c: the record `Paging` holds the page manager, memory, CR0 and CR3. The
--              addresses of `page_directory` and `page_tables`, which the linker chooses, are
--              parameters. Paging.Map reads the tables as a map from addresses to entries; Table,
--              Mapping and Fault are about `virt_to_pte`, mapping and the fault handler, Start about
--              `paging_init`, Registers about CR0 and CR3. The fault handler takes for the error code
--              the word at 28(%esp), which the compiler's frame and the wrapper decide: that word is an
--              argument, and what the machine gives on a fault.
--   Kheap      src/kheap.c but for `kheap_init`: block headers are words in memory. Kheap.Blocks is
--              the specification, first fit, release and coalescing on a list of blocks; Chain says
--              which list the headers in memory describe; Malloc, Free and RoundTrip relate the two.
--              Kept and Trace are about sequences of calls, as a step relation; Size is about `ksize`.
--   Memory     `memory_init` of src/memory.c, and `kheap_init` of src/kheap.c; Boot is about the start as
--              a whole
--   Vmem       src/vmem.c: the record `Vmem` holds its static variables; headers are words in memory,
--              at their addresses. Headers, Fresh, Grow, Release and Size hold the lemmas.
--   String     src/string.c on byte memory
--   Screen     src/screen.c: the record `Console` holds the current screen, the other screens, the VGA
--              cells and the port writes, the last one first. Screen.Input has the functions on the
--              typed line; Output and Frame say what output shows, and what it leaves alone.
--   Print      `print_decimal`, `print_hex` and `kprintfv` of src/kprintf.c, as the characters they
--              print; Print.Format reads a format as texts and conversions
--   Shell      `parse_hex_or_dec` and `shell_parse_args` of src/shell.c
--   Keyboard   the character tables, `scancode_to_ascii`, the entries of the interrupt table and
--              `pic_send_eoi` of src/keyboard.c; Caps is about caps lock
--   Kernel     the state of all parts together, and what works on it: the commands of src/shell.c
--              (Info, Alloc, Access, Trials, Faults), its table and the way of a line to a command
--              (Shell, with `input_newline` of src/screen.c), `keyboard_handler` (Keys), the start of
--              the kernel (Start: src/kernel_main.c, `screen_init`, `interrupt_init`, and
--              `memory_init` with its messages), and `kpanic_fatal` of src/panic.c with the messages
--              of its callers, file by file (Fatal). Text, Typing, Dispatch, Guard, Protection, Boot
--              and Rehearsal hold the lemmas; Frame shows for each command what it leaves alone on the console, and
--              Screens what all keys keep. The record `Board` is what the kernel takes from the
--              machine and the build; the processor's access through the page tables is a field of it.
--   Examples   runs at concrete inputs
--
-- Bounds and fuel. Words are natural numbers; every operation on them that can wrap is written with
-- its wrap-around. The walks over the heap's list have fuel for one block per 16 bytes of the heap and
-- one round more, which is more than the list of a heap can have; those of the virtual memory
-- allocator have one round for 20 bytes of its region and one more. Its loops over pages have a round
-- for each free page, which each round takes. The loops of the page manager and of the screen run on
-- the number of their rounds. `strlen`, `strcmp`, `strcpy` and `strcat` take fuel, and the theorems
-- ask for more than the length of the text. `print_decimal` has ten rounds, one for each digit of an
-- `int`.
--
-- The loops of `keyboard_init` read the device: they have fuel, and the theorem on the start asks for
-- more than the reads until the device is ready.
--
-- `interrupt_init` enables interrupts before `kernel_main` sets up memory. An interrupt that arrives
-- between the two, or while the shell runs, is not interleaved: `kernel_main` runs up to its loop, and
-- each byte of the keyboard is one run of `keyboard_handler`.
--
-- Not modelled: the processor's cache of translations, delays, the assembly files, and what happens
-- behind `hlt` in `kernel_main`, `halt` and `kpanic_fatal`. A panic ends the run: the outcome is its
-- constructor, and the state before it is not kept. `setup_page_fault_handler` and
-- `screen_get_cursor`, which nothing calls, are left out.
pub mod Base
pub mod Machine
pub mod Pmm
pub mod Paging
pub mod Kheap
pub mod Memory
pub mod String
pub mod Screen
pub mod Print
pub mod Vmem
pub mod Shell
pub mod Kernel
pub mod Keyboard
pub mod Examples
