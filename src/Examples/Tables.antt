-- ===== src/Examples/Tables.antt =====
-- The page tables with an empty directory at 0x1000, and with a table at 0x2000 for the first 4 MB.
use kfs.Base.{◌==◌, ◌%◌, ◌^◌, ◌/◌, sym, ◌∙◌, ℕ, ◌+◌, ◌*◌, ◌≡◌, ◌≢◌, refl, arith, true}
use kfs.Machine.Mem.{load32-store32_ne, load32-store32, load32, store32}
use kfs.Pmm.{Pmm, boot}
use kfs.Pmm.Init.{IsFresh, pmm_init-IsFresh}
use kfs.Paging.{page_fault_handler, Paging, page_write, is_present}
use kfs.Paging.Map.{walk, entry, IsSeparate}
use kfs.Paging.Mapping.{Mapped, Unmapped, vmm_map_page-Mapped, vmm_unmap_page-Unmapped}
use kfs.Paging.Fault.{verdict, page_fault_handler-verdict}
use kfs.Machine.Outcome.{halted}
use kfs.Memory.Heap.{IsAtPage}
use kfs.Memory.Start.{HeapReady, kheap_init-HeapReady}
use native.Mathlib.Decide.{ℕ_discrete}
use kfs.Examples.Pages.{two_pages, two_pages-IsValid}

abbrev pub empty_tables : Paging
empty_tables = record { pmm = two_pages; mem = λ a. 0; cr0 = 0; cr3 = 0x1000 }

empty_entry : (i : ℕ) → entry 0x1000 (λ a. 0) i ≡ 0
unfolding load32
empty_entry i = refl

not_present : (i : ℕ) → is_present (entry 0x1000 (λ a. 0) i) ≡ true → ⊥
not_present i h = cc (rw (empty_entry i) at h)

empty_tables-IsSeparate : IsSeparate 0x1000 empty_tables
empty_tables-IsSeparate = record {
  valid = two_pages-IsValid;
  aligned = refl;
  tables = λ i hi found. absurd (not_present i found);
  apart = λ i j hi hj found. absurd (not_present i found);
  free_dir = λ k hk free. omega arith;
  free_tables = λ k i hk free hi found. absurd (not_present i found);
}

vmm_map_page-Mapped_example : Mapped 0x1000 0x0060_0000 0x0010_1000 page_write empty_tables
vmm_map_page-Mapped_example =
    vmm_map_page-Mapped 0x1000 0x0060_0000 0x0010_1000 page_write empty_tables (omega arith)
      (omega arith) (omega arith) empty_tables-IsSeparate

vmm_unmap_page-Unmapped_example : Unmapped 0x1000 0x0060_0000 empty_tables
vmm_unmap_page-Unmapped_example =
    vmm_unmap_page-Unmapped 0x1000 0x0060_0000 empty_tables (omega arith) empty_tables-IsSeparate

-- the page manager on 10 MB
abbrev fresh_pages : Pmm
fresh_pages = (pmm_init-IsFresh 0x00a0_0000 boot (omega arith) refl).0

pub fresh : IsFresh 0x00a0_0000 fresh_pages
fresh = (pmm_init-IsFresh 0x00a0_0000 boot (omega arith) refl).2

abbrev pub one_table : Paging
one_table = record {
  pmm = fresh_pages;
  mem = store32 (λ a. 0) 0x1000 0x2003;
  cr0 = 0x8001_0000;
  cr3 = 0x1000;
}

first_entry : entry 0x1000 one_table.mem 0 ≡ 0x2003
first_entry = load32-store32 (λ a. 0) 0x1000 0x2003 (omega arith)

other_entry : (i : ℕ) → i ≢ 0 → is_present (entry 0x1000 one_table.mem i) ≡ true → ⊥
other_entry i ne h =
    let e =
      load32-store32_ne (λ a. 0) 0x1000 0x2003 (0x1000 + 4 * i) (omega arith) ∙ empty_entry i in
    cc (rw e at h)

is_first : (i : ℕ) → is_present (entry 0x1000 one_table.mem i) ≡ true → i ≡ 0
is_first i h = elim (ℕ_discrete i 0) [ yes e ↦ e | no ne ↦ absurd (other_entry i ne h) ]

pub one_table-IsSeparate : IsSeparate 0x1000 one_table
one_table-IsSeparate = record {
  valid = fresh.valid;
  aligned = refl;
  tables = λ i hi found. rw (is_first i found, first_entry) (omega arith);
  apart = λ i j hi hj found found' ne. absurd (ne (is_first i found ∙ sym (is_first j found')));
  free_dir = λ k hk free. omega arith;
  free_tables = λ k i hk free hi found. rw (is_first i found, first_entry) (omega arith);
}

one_table-IsAtPage : IsAtPage 0x1000 0 one_table
one_table-IsAtPage = record {
  separate = one_table-IsSeparate;
  table = rw first_entry refl;
  used = λ x h. fresh.kernel x (omega arith);
  free = λ x lo hi. fresh.rest x (omega arith) (omega (arith, fresh.total));
}

kheap_init-HeapReady_example : HeapReady 0x1000 one_table
kheap_init-HeapReady_example =
    kheap_init-HeapReady 0x1000 one_table one_table-IsAtPage (omega (arith, fresh.total))

-- The page is not mapped, and the word on the stack has bit 2 set.
page_fault_handler-verdict_example :
    page_fault_handler 0x1000 0x0060_0000 6 empty_tables
    ≡ halted (verdict 0x0060_0000 (6 / 2 ^ 2 % 2 == 1) (walk 0x1000 empty_tables.mem 0x0060_0000))
page_fault_handler-verdict_example = page_fault_handler-verdict 0x1000 0x0060_0000 6 empty_tables
