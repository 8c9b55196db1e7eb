-- ===== src/Paging.antt =====
-- src/paging.c: a two-level page table in memory, on top of the physical page manager. The page
-- directory and the three static tables stand where the linker puts them: their addresses are the
-- parameters `page_directory` and `page_tables`. The processor's registers are fields of the state.
-- Tables are read and written at their physical addresses, which is what the code does: it counts
-- on the identity mapping.
pub mod Entry
pub mod Fill
pub mod Map
pub mod Table
pub mod Mapping
pub mod Fault
pub mod Registers
pub mod Start
use kfs.Base.{
  ℕ, zero, suc, ◌+◌, ◌-◌, ◌*◌, ◌/◌, ◌%◌, ◌^◌, Bool, true, false, Option, none, some, ltb, leb, ◌==◌,
  ◌||◌, ◌&&◌, not, if◌then◌else◌, bit_or,
}
use kfs.Machine.Word.{add32, sub32}
use kfs.Machine.Mem.{Mem, load32, store32}
use kfs.Machine.Outcome.{Panic, Outcome, ok, halted, ◌>>=◌}
use kfs.Pmm.{Pmm, page_size, pmm_alloc_page}

abbrev pub page_present : ℕ
page_present = 1

abbrev pub page_write : ℕ
page_write = 2

abbrev pub page_user : ℕ
page_user = 4

abbrev pub user_zone_start : ℕ
user_zone_start = 0x00600000

pub record Paging : Type 0 where
  pub pmm : Pmm
  pub mem : Mem
  pub cr0 : ℕ
  pub cr3 : ℕ

-- `x & 0xFFFFF000`
abbrev pub frame_of : ℕ → ℕ
frame_of x = x / 2 ^ 12 * 2 ^ 12

-- `(virt >> 22) & 0x3FF` and `(virt >> 12) & 0x3FF`
abbrev pub pd_index : ℕ → ℕ
pd_index virt = virt / 2 ^ 22 % 2 ^ 10

abbrev pub pt_index : ℕ → ℕ
pt_index virt = virt / 2 ^ 12 % 2 ^ 10

-- `entry & PAGE_PRESENT`, as a condition
abbrev pub is_present : ℕ → Bool
is_present entry = entry % 2 == 1

-- `for (i = 0; i < n; i++) table[i] = value(i)`, by the rounds left
unfoldable pub fill_words : ℕ → ℕ → ℕ → (ℕ → ℕ) → Mem → Mem
fill_words zero i table value m = m
fill_words (suc left) i table value m =
    fill_words left (i + 1) table value (store32 m (table + 4 * i) (value i))

-- the entry that `paging_init` writes for page `i` of table `t`
abbrev pub identity_entry : ℕ → ℕ → ℕ
identity_entry t i = bit_or (bit_or (frame_of ((t * 1024 + i) * page_size)) page_present) page_write

module _ (page_directory page_tables : ℕ) where
  -- one round of the loop over the static tables
  unfoldable pub init_table : ℕ → Mem → Mem
  init_table t m =
      let table : ℕ = page_tables + 4096 * t in
      store32 (fill_words 1024 0 table (identity_entry t) m) (page_directory + 4 * t)
        (bit_or (bit_or table page_present) page_write)

  -- `paging_init`, with `load_cr3` and `enable_wp`
  unfoldable pub paging_init : Paging → Paging
  paging_init s = record s {
    mem =
        init_table 2
          (init_table 1 (init_table 0 (fill_words 1024 0 page_directory (λ i. 0) s.mem)));
    cr3 = page_directory;
    cr0 = bit_or s.cr0 (2 ^ 16);
  }

unfoldable pub paging_enable : Paging → Paging
paging_enable s = record s { cr0 = bit_or s.cr0 0x80000000 }

-- the directory entry for a new table
abbrev pub table_entry : ℕ → ℕ → ℕ
table_entry virt new_table =
    bit_or (bit_or (bit_or new_table page_present) page_write)
      (if leb user_zone_start virt then page_user else 0)

-- `(phys & 0xFFFFF000) | (flags & 0xFFF) | PAGE_PRESENT`
abbrev pub pte_value : ℕ → ℕ → ℕ
pte_value phys flags = bit_or (bit_or (frame_of phys) (flags % 2 ^ 12)) page_present

module _ (page_directory : ℕ) where
  -- The address of the page table entry for `virt`; `none` is a null pointer.
  unfoldable pub virt_to_pte : ℕ → Bool → Paging → Outcome (Option ℕ × Paging)
  virt_to_pte virt create s =
      let pde_at : ℕ = page_directory + 4 * pd_index virt in
      let pde : ℕ = load32 s.mem pde_at in
      if is_present pde
      then ok (some (frame_of pde + 4 * pt_index virt), s)
      else if not create
      then ok (none, s)
      else pmm_alloc_page s.pmm >>= λ (new_table, pmm').
          let entry : ℕ = table_entry virt new_table in
          ok (
            some (frame_of entry + 4 * pt_index virt),
            record s {
              pmm = pmm';
              mem = store32 (fill_words 1024 0 new_table (λ i. 0) s.mem) pde_at entry;
            },
          )

  -- The result is 0, or -1 as a 32-bit pattern.
  unfoldable pub vmm_map_page : ℕ → ℕ → ℕ → Paging → Outcome (ℕ × Paging)
  vmm_map_page virt phys flags s = virt_to_pte virt true s >>= λ (pte, s'). elim pte [
    | none ↦ ok (2 ^ 32 - 1, s')
    | some at ↦ ok (0, record s' { mem = store32 s'.mem at (pte_value phys flags) })
  ]

  unfoldable pub vmm_unmap_page : ℕ → Paging → Outcome Paging
  vmm_unmap_page virt s = virt_to_pte virt false s >>= λ (pte, s'). elim pte [
    | none ↦ ok s'
    | some at ↦ ok (record s' { mem = store32 s'.mem at 0 })
  ]

  unfoldable pub vmm_get_mapping : ℕ → Paging → Outcome ℕ
  vmm_get_mapping virt s = virt_to_pte virt false s >>= λ (pte, s'). elim pte [
    | none ↦ ok 0
    | some at ↦ ok (load32 s'.mem at)
  ]

  -- `page_fault_handler` for the address in CR2 and the word that it finds at 28(%esp) and takes for
  -- the processor's error code. Behind the call and the prologue of the compiler that word is one that
  -- the build chooses, such as a return address or a saved register.
  unfoldable pub page_fault_handler : ℕ → ℕ → Paging → Outcome (Unit {0})
  page_fault_handler fault_addr stack_word s =
      let user : Bool = stack_word / 2 ^ 2 % 2 == 1 in
      let other : Outcome (Unit {0}) = halted Panic.page_fault in
      let checked : Outcome (Unit {0}) = virt_to_pte fault_addr false s >>= λ (pte, s'). elim pte [
        | none ↦ other
        | some at ↦
            (if is_present (load32 s'.mem at) then halted Panic.user_access_supervisor else other)
      ] in
      if ltb fault_addr 0x00100000
      then halted Panic.bios_access
      else if user && ltb fault_addr user_zone_start
      then halted Panic.user_access_kernel
      else if user && leb user_zone_start fault_addr
      then checked
      else other
