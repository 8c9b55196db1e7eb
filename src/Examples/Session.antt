-- ===== src/Examples/Session.antt =====
-- A kernel whose shell waits for a line.
use kfs.Base.{some, ◌-◌, none, ℕ, ◌≡◌, inl, inr, refl, arith, [], ◌∷◌, false, true, List}
use kfs.Machine.Mem.{store32, Mem}
use kfs.Machine.Outcome.{ok, ◌>>=◌}
use kfs.Screen.{Console}
use kfs.Keyboard.{scancode_to_ascii}
use kfs.Print.{word, string}
use kfs.Shell.Args.{spaced}
use kfs.Kernel.{Kernel, Board, codes, print, ◌|>◌}
use kfs.Kernel.Alloc.{cmd_kmalloc, ksize_message}
use kfs.Kernel.Access.{cmd_write}
use kfs.Kernel.Shell.{ShellCommand, commands, shell_process_input, shell_print_prompt}
use kfs.Kernel.Keys.{send_eoi}
use kfs.Kernel.Typing.{IsKey, press_all, clear_line, press_all-shell_process_input}
use kfs.Kernel.Dispatch.{IsRow, shell_process_input-IsRow}
use kfs.Kernel.Guard.{Written, cmd_write-Written}
use kfs.Kheap.Trace.{HeapState, IsSound, here, next, Reach-kfree, alloc}
use kfs.Memory.{first_heap}
use kfs.Memory.Start.{first_blocks, first_heap-IsHeap}
use kfs.Vmem.{first_vmem}
use kfs.Examples.Tables.{empty_tables}
use kfs.Examples.Console.{console}
use kfs.Examples.Blocks.{start_memory, full_memory, full-Header, malloc_run}
use kfs.Kheap.{Kheap, ksize, kfree, header_size, is_valid_kheap_block, walk_list, claim_block}
use kfs.Kheap.Malloc.{charge}
use kfs.Kheap.Trace.{update}
use kfs.Kernel.{set_mem}
use kfs.Kernel.Access.{write_word, write_found, allocation}
use kfs.Shell.{parse_hex_or_dec, parse_hex, parse_dec}
use kfs.Memory.{kheap_size, kheap_start}

abbrev pub board : Board
board = record {
  page_directory = 0x1000;
  page_tables = 0x2000;
  load = λ virt s. inl 0;
  store = λ virt v s. inl 2;
  segments = λ i. 0x10;
  date = [];
  time = [];
  stops = λ c. true;
  status = λ i. 0;
}

abbrev pub idle : Kernel
idle = record {
  console = record console {
    screen = record console.screen { input_length = 0; input_cursor = 0 };
  };
  keyboard = record {
    shift_pressed = false;
    ctrl_pressed = false;
    caps_lock = false;
    extended_key = false;
  };
  extended = false;
  shell_buffer = [];
  paging = empty_tables;
  kheap = first_heap;
  vmem = first_vmem;
}

letter_h-IsKey : IsKey idle.keyboard 0x23 104
unfolding scancode_to_ascii
letter_h-IsKey = record {
  pressed = omega arith;
  no_shift = refl;
  no_ctrl = refl;
  no_caps = refl;
  no_function = refl;
  char = refl;
  printable = (omega arith, omega arith);
}

letter_i-IsKey : IsKey idle.keyboard 0x17 105
unfolding scancode_to_ascii
letter_i-IsKey = record {
  pressed = omega arith;
  no_shift = refl;
  no_ctrl = refl;
  no_caps = refl;
  no_function = refl;
  char = refl;
  printable = (omega arith, omega arith);
}

press_all-shell_process_input_example :
    (c : Console) × (press_all board (0x23 ∷ 0x17 ∷ 0x1C ∷ []) idle ≡ (
      shell_process_input board (codes "hi") (record idle { console = c }) >>= λ k'.
      ok (record (send_eoi (clear_line k')) { extended = false })))
press_all-shell_process_input_example =
    press_all-shell_process_input board (0x23 ∷ 0x17 ∷ []) (104 ∷ 105 ∷ []) idle refl refl refl
      (letter_h-IsKey, (letter_i-IsKey, tt)) (omega arith) (omega arith)

abbrev kmalloc_row : ShellCommand
kmalloc_row = record { name = codes "kmalloc"; function = cmd_kmalloc }

kmalloc_row-IsRow : IsRow kmalloc_row (commands board)
unfolding commands
kmalloc_row-IsRow = inr (inr (inr (inr (inr (inr (inr (inr (inr (inl refl)))))))))

shell_process_input-IsRow_example :
    let input = spaced 0 0 [] (codes "kmalloc" ∷ codes "24" ∷ []) in
    shell_process_input board input idle ≡ (
      cmd_kmalloc (codes "kmalloc" ∷ codes "24" ∷ []) (
        record idle { shell_buffer = input }
        |> print "Executing command: %s\n" (string (codes "kmalloc") ∷ []))
      >>= λ k'. ok (shell_print_prompt k'))
shell_process_input-IsRow_example =
    shell_process_input-IsRow board kmalloc_row 0 0 [] (codes "24" ∷ []) idle kmalloc_row-IsRow
      (λ e. absurd (cc), (refl, (refl, tt)), tt) (omega arith) (omega arith)

-- a kernel whose heap is one block in use
abbrev busy : Kernel
busy = record idle { paging = record empty_tables { mem = full_memory } }

busy_size : ksize 0x0020_0010 first_heap full_memory ≡ ok (kheap_size - header_size)
unfolding ksize is_valid_kheap_block walk_list
busy_size =
    rw (full-Header.fields.magic_field, full-Header.live refl, full-Header.fields.size_field) refl

busy_message : ksize_message 0x0020_0010 busy ≡ busy.console
unfolding ksize_message is_valid_kheap_block walk_list
busy_message = rw (full-Header.fields.magic_field, full-Header.live refl) refl

abbrev written : Kernel
written =
    set_mem (store32 full_memory 0x0020_0010 7) busy
    |> print "write: writing to %s allocation (%d bytes) at %p\n"
        (string (codes "kmalloc") ∷ word (kheap_size - header_size) ∷ word 0x0020_0010 ∷ [])
    |> print "write: *(int*)%x = %d\n" (word 0x0020_0010 ∷ word 7 ∷ [])

abbrev write_line : List (List ℕ)
write_line = codes "write" ∷ codes "0x200010" ∷ codes "7" ∷ []

write_run : cmd_write write_line busy ≡ ok written
unfolding cmd_write write_word write_found allocation parse_hex_or_dec parse_hex parse_dec
write_run = rw (busy_size, busy_message) refl

cmd_write-Written_example : Written busy written
cmd_write-Written_example = cmd_write-Written write_line busy written write_run

abbrev quiet : HeapState
quiet = record { heap = first_heap; mem = start_memory; live = λ p. none }

quiet-IsSound : IsSound quiet
quiet-IsSound = record {
  blocks = first_blocks;
  valid = first_heap-IsHeap (λ a. 0);
  apart = tt;
  used = λ p size l. absurd (cc);
}

abbrev one_pointer : HeapState
one_pointer = record {
  heap = charge 24 first_heap;
  mem = claim_block kheap_start 24 start_memory;
  live = update (λ p. none) 0x0020_0010 (some 24);
}

Reach-kfree_example :
    IsSound one_pointer
    × ((p size : ℕ)
        → one_pointer.live p ≡ some size
        → (r : Kheap × Mem) × (kfree p one_pointer.heap one_pointer.mem ≡ ok r))
Reach-kfree_example = Reach-kfree quiet one_pointer quiet-IsSound (
    next here (
      alloc quiet 24 0x0020_0010 (charge 24 first_heap) (claim_block kheap_start 24 start_memory)
        (omega arith) (omega arith) malloc_run))
