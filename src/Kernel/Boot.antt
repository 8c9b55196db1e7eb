-- ===== src/Kernel/Boot.antt =====
-- src/kernel_main.c, src/memory.c, src/keyboard.c: the loops of the start end, and its messages leave
-- the memory system alone.
use kfs.Paging.Registers.{IsOn}
use Prim.Native.String.{String}
use kfs.Print.{Arg}
use kfs.Kernel.{kprintf}
use kfs.Kernel.Start.{pmm_report}
use kfs.Kernel.Frame.{IsFramed, IsFramed-refl, Within, IsFramed-kprintf}
use kfs.Kernel.Frame.Shell.{IsPrompted, IsPrompted-shell_print_prompt}
use kfs.Kernel.Screens.{IsConsole, prompted-IsConsole, acknowledged}
use kfs.Kernel.Screens.Start.{screen_init-IsConsole}
use kfs.Machine.Yields.{Yields, Yields-ok, Yields->>=}
use kfs.Screen.{Console}
use kfs.Base.{
  ltb, Bool, true, length, ◌^◌, ◌*◌, false, ℕ, zero, suc, ◌+◌, ◌<◌, ◌≡◌, refl, ap, ◌∙◌, sym, arith,
  ◌==◌, ==-ne, bit_and, if◌then◌else◌, List, ◌∷◌,
}
use kfs.Machine.Outcome.{
  ok-injective, >>=-eq-ok, >>=-ok, Outcome, ok, halted, out_of_fuel, ◌>>=◌, ok->>=,
}
use kfs.Memory.{memory_init, kheap_init}
use kfs.Pmm.{pmm_max_bytes, bitmap_words, pmm_init}
use kfs.Paging.{is_present, frame_of, vmm_get_mapping}
use kfs.Paging.Map.{IsSeparate}
use kfs.Keyboard.{irq1, idt_gate}
use kfs.Kheap.Chain.{IsHeap}
use kfs.Memory.Start.{first_blocks}
use kfs.Paging.Start.{IsPlaced}
use kfs.Memory.Boot.{Booted, memory_init-Booted}
use kfs.Memory.{first_heap}
use kfs.Kernel.Shell.{shell_print_prompt, shell_init}
use kfs.Kernel.{Kheap, Paging, Kernel, Board}
use kfs.Kernel.Start.{
  idt_set_gate, interrupt_init, kernel_main, load_home_screen, init_screen, Interrupts, screen_init,
  wait_clear, keyboard_init, boot_memory,
}

-- the bits of `mask` are set in the reads from `i` on, `n` of them, and clear in the next
pub record IsWait (status : ℕ → ℕ) (mask i n : ℕ) : Type 0 where
  pub set : (j : ℕ) → j < n → ¬ (bit_and (status (i + j)) mask ≡ 0)
  pub clear : bit_and (status (i + n)) mask ≡ 0

wait_clear-IsWait :
    (status : ℕ → ℕ) (fuel mask i n : ℕ)
    → IsWait status mask i n
    → n < fuel
    → wait_clear status fuel mask i ≡ ok (i + n + 1)
unfolding wait_clear
wait_clear-IsWait status zero mask i n w lt = absurd (omega arith)
wait_clear-IsWait status (suc fuel) mask i zero w lt =
    let same : i ≡ i + 0 = omega arith in
    let now : bit_and (status i) mask ≡ 0 = ap (λ j. bit_and (status j) mask) same ∙ w.clear in
    rw now (ap (λ j. ok (j + 1)) same)
wait_clear-IsWait status (suc fuel) mask i (suc n) w lt =
    let same : i ≡ i + 0 = omega arith in
    let still : (bit_and (status i) mask == 0) ≡ false =
      ==-ne _ _ (λ e. w.set 0 (omega arith) (ap (λ j. bit_and (status j) mask) (sym same) ∙ e)) in
    let later : IsWait status mask (i + 1) n = record {
      set = λ j lt_n e.
          w.set (suc j) (omega arith)
            (ap (λ a. bit_and (status a) mask) {x = i + suc j} {y = i + 1 + j} (omega arith) ∙ e);
      clear =
          ap (λ a. bit_and (status a) mask) {x = i + 1 + n} {y = i + suc n} (omega arith) ∙ w.clear;
    } in
    rw still (
      wait_clear-IsWait status fuel mask (i + 1) n later (omega arith)
      ∙ ap ok {x = i + 1 + n + 1} {y = i + suc n + 1} (omega arith))

-- With fuel for the reads that find the bit set, the two loops of `keyboard_init` end, and it enables
-- the keyboard.
pub keyboard_init-IsWait :
    (status : ℕ → ℕ) (fuel full busy : ℕ) (ports : List (ℕ × ℕ))
    → IsWait status 0x01 0 full
    → IsWait status 0x02 (full + 1) busy
    → full < fuel
    → busy < fuel
    → keyboard_init status fuel ports ≡ ok ((0x64, 0xAE) ∷ ports)
unfolding keyboard_init
keyboard_init-IsWait status fuel full busy ports first second enough enough' =
    ok->>= _ _ (full + 1) _
      (wait_clear-IsWait status fuel 0x01 0 full first enough
        ∙ ap ok {x = 0 + full + 1} {y = full + 1} (omega arith))
      (ok->>= (wait_clear status fuel 0x02 (full + 1)) _ _ _
        (wait_clear-IsWait status fuel 0x02 (full + 1) busy second enough') refl)

-- what is left of a call behind another
>>=-keeps :
    {A B C : Type 0} (o : Outcome A) (f : A → Outcome B) (g : B → C) (h : A → Outcome C)
    → ((a : A) → (f a >>= λ b. ok (g b)) ≡ h a)
    → (o >>= f >>= λ b. ok (g b)) ≡ (o >>= h)
>>=-keeps (ok a) f g h same = same a
>>=-keeps (halted p) f g h same = refl
>>=-keeps out_of_fuel f g h same = refl

-- `boot_memory` does what `memory_init` does, and prints.
pub boot_memory-memory_init :
    (b : Board) (mem_bytes : ℕ) (k : Kernel)
    → (boot_memory b mem_bytes k >>= λ k'. ok (k'.paging, k'.kheap))
      ≡ memory_init b.page_directory b.page_tables mem_bytes k.paging
unfolding boot_memory memory_init
boot_memory-memory_init b mem_bytes k =
    >>=-keeps (pmm_init mem_bytes k.paging.pmm) _ (λ k'. (k'.paging, k'.kheap)) _
      (λ pmm'.
        >>=-keeps (kheap_init b.page_directory _) _ (λ k'. (k'.paging, k'.kheap)) ok (λ r. refl)
        ∙ >>=-ok _)

screen_init-paging : (k : Kernel) → (screen_init k).paging ≡ k.paging
unfolding screen_init init_screen load_home_screen shell_print_prompt
screen_init-paging k = refl

-- `boot_memory`, where `memory_init` succeeds
boot_memory-Booted :
    (b : Board) (placed : IsPlaced b.page_directory b.page_tables) (n : ℕ) (k : Kernel)
    (up : Booted b.page_directory b.page_tables placed n k.paging)
    → (k' : Kernel) × (boot_memory b n k ≡ ok k') × (k'.paging ≡ up.after) × (k'.kheap ≡ first_heap)
boot_memory-Booted b placed n k up =
    let (k', runs, e) =
      >>=-eq-ok (boot_memory b n k) _ _ (boot_memory-memory_init b n k ∙ up.returns) in
    let both : (k'.paging, k'.kheap) ≡ (up.after, first_heap) = ok-injective _ _ e in
    (k', runs, ap (λ (x : Paging × Kheap). x.0) both, ap (λ (x : Paging × Kheap). x.1) both)

IsFramed-test :
    (over : Bool) (c : Console) (fmt : String) (args : List Arg)
    → IsFramed c (if over then kprintf fmt args c else c)
IsFramed-test true c fmt args = IsFramed-kprintf c c fmt args (IsFramed-refl c)
IsFramed-test false c fmt args = IsFramed-refl c

pmm_report-Within : (n : ℕ) (k : Kernel) → Within k.console (pmm_report n k)
pmm_report-Within n k =
    IsFramed-kprintf k.console _ _ _ (IsFramed-test (ltb pmm_max_bytes n) k.console _ _)

boot_memory-Within :
    (b : Board) (n : ℕ) (k : Kernel) → Yields (Within k.console) (boot_memory b n k)
unfolding boot_memory
boot_memory-Within b n k = Yields->>= (pmm_init n k.paging.pmm) _ (λ t.
    let reported = pmm_report-Within n (record k { paging = record k.paging { pmm = t } }) in
    Yields->>= (kheap_init b.page_directory _) _ (λ r. Yields-ok _ (
      IsFramed-kprintf k.console _ _ _ (
        IsFramed-kprintf k.console _ _ _
          (IsFramed-kprintf k.console _ _ _ (IsFramed-kprintf k.console _ _ _ reported))))))

IsPrompted-shell_init : (c : Console) (k : Kernel) → Within c k → IsPrompted c (shell_init k)
unfolding shell_init
IsPrompted-shell_init c k h =
    IsPrompted-shell_print_prompt c _
      (IsFramed-kprintf c _ _ _ (IsFramed-kprintf c k.console _ _ h))

-- What `kernel_main` has set up when it waits for interrupts.
pub record Started (b : Board) (idt_at keyboard_handler_asm page_fault_handler_asm : ℕ)
    (o : Outcome (Kernel × Interrupts)) : Type 0 where
  pub result : Kernel × Interrupts
  pub returns : o ≡ ok result
  pub on : IsOn b.page_directory result.0.paging
  pub separate : IsSeparate b.page_directory result.0.paging
  pub identity :
      (virt : ℕ)
      → virt < 3 * 2 ^ 22
      → (e : ℕ) × (vmm_get_mapping b.page_directory virt result.0.paging ≡ ok e)
        × (frame_of e ≡ frame_of virt)
        × (is_present e ≡ true)
  pub heap : IsHeap result.0.kheap result.0.paging.mem first_blocks
  pub screens : IsConsole result.0.console
  pub keyboard_gate : result.1.idt irq1 ≡ idt_gate keyboard_handler_asm 0x08 0x8E
  pub fault_gate : result.1.idt 14 ≡ idt_gate page_fault_handler_asm 0x08 0x8E
  pub table : result.1.table ≡ (2047, idt_at)
  pub enabled : result.1.enabled ≡ true

-- If the device clears the bits that `keyboard_init` waits for, with fuel for the reads before, a bitmap
-- of the declared size, and the directory and the static tables in frames of their own below the heap,
-- `kernel_main` reaches its loop. Write protection and paging are then on, with the directory in CR3, the
-- first 12 MB are mapped to themselves, the tables are apart, the heap is one free block, the lines of
-- the three screens are in order, the gates of keyboard and page fault hold the handlers, the processor
-- uses that table, and interrupts are enabled.
pub kernel_main-Started :
    (b : Board) (fuel full busy idt_at keyboard_handler_asm page_fault_handler_asm : ℕ) (k : Kernel)
    (i : Interrupts)
    → IsWait b.status 0x01 0 full
    → IsWait b.status 0x02 (full + 1) busy
    → full < fuel
    → busy < fuel
    → IsPlaced b.page_directory b.page_tables
    → length k.paging.pmm.bitmap ≡ bitmap_words
    → Started b idt_at keyboard_handler_asm page_fault_handler_asm
        (kernel_main b fuel idt_at keyboard_handler_asm page_fault_handler_asm k i)
unfolding kernel_main interrupt_init idt_set_gate shell_init shell_print_prompt
kernel_main-Started b fuel full busy idt_at kb pf k i first second enough enough' placed words =
    let k1 = screen_init k in
    let same = screen_init-paging k in
    let ready =
      keyboard_init-IsWait b.status fuel full busy k1.console.ports first second enough enough' in
    let (i', ports) = interrupt_init idt_at kb pf i ((0x64, 0xAE) ∷ k1.console.ports) in
    let k2 = record k1 { console = record k1.console { ports = ports } } in
    let up =
      memory_init-Booted b.page_directory b.page_tables placed pmm_max_bytes k2.paging
        (rw same words) (omega arith) in
    let (k3, runs, tables, heap) = boot_memory-Booted b placed pmm_max_bytes k2 up in
    record {
      result = (shell_init k3, i');
      returns = ok->>= _ _ _ _ ready (ok->>= _ _ _ _ runs refl);
      on = rw tables up.on;
      separate = rw tables up.separate;
      identity = rw tables up.identity;
      heap = rw (heap, tables) up.heap;
      screens =
          prompted-IsConsole k2.console (shell_init k3)
            (acknowledged k1.console ports (screen_init-IsConsole k))
            (IsPrompted-shell_init k2.console k3
              ((boot_memory-Within b pmm_max_bytes k2).at k3 runs));
      keyboard_gate = refl;
      fault_gate = refl;
      table = refl;
      enabled = refl;
    }
