-- ===== src/Memory/Boot.antt =====
-- src/memory.c: the start of the memory subsystem as a whole, from the page manager to the heap.
use kfs.Paging.Registers.{IsOn, IsOn-SameRegisters, paging_enable-IsOn}
use kfs.Memory.Tables.{IsStatic, IsSeparate-static, walk-first_header, IsSeparate-first_header}
use kfs.Base.{
  if◌then◌else◌, ◌-◌, false, ℕ, ◌+◌, ◌*◌, ◌/◌, ◌^◌, ◌≤◌, ◌<◌, ◌≡◌, refl, sym, ap, ◌∙◌, ◌⊎◌, inl,
  inr, arith, true, length,
}
use native.Mathlib.Decide.{dec_lt}
use kfs.Machine.Mem.{load32}
use kfs.Machine.Outcome.{ok, ok->>=, ok-injective}
use kfs.Pmm.{tst_bit, Pmm, pmm_init, page_size, bitmap_words}
use kfs.Pmm.Init.{IsFresh, pmm_init-IsFresh, pages_of}
use kfs.Paging.{
  Paging, frame_of, pd_index, pt_index, is_present, page_write, pte_value, paging_init,
  paging_enable, vmm_get_mapping, identity_entry,
}
use kfs.Paging.Entry.{pte_value-fields}
use kfs.Paging.Map.{entry, walk, IsSeparate, vmm_get_mapping-walk}
use kfs.Paging.Start.{
  IsPlaced, Rounds, paging_init-Rounds, present-static, static-present, walk-identity,
  identity-frame,
}
use kfs.Kheap.Chain.{IsHeap}
use kfs.Memory.{kheap_init, kheap_start, first_heap, first_header, memory_init}
use kfs.Memory.Heap.{map_heap-HeapMapped, IsAtPage, HeapMapped, heap_page}
use kfs.Memory.Start.{first_heap-IsHeap, first_blocks}

module _ (pd tables : ℕ) (placed : IsPlaced pd tables) where
  -- the state in front of `kheap_init`
  abbrev before_heap : Pmm → Paging → Paging
  before_heap t s = paging_enable (paging_init pd tables (record s { pmm = t }))

  before_heap-Rounds : (t : Pmm) (s : Paging) → Rounds pd tables placed 3 (before_heap t s).mem
  unfolding paging_enable
  before_heap-Rounds t s = paging_init-Rounds pd tables placed (record s { pmm = t })

  before_heap-IsAtPage :
      (mem_size : ℕ) (t : Pmm) (s : Paging)
      → IsFresh mem_size t
      → 512 < pages_of mem_size
      → IsAtPage pd 0 (before_heap t s)
  unfolding paging_enable paging_init
  before_heap-IsAtPage mem_size t s fresh room =
      let r = before_heap-Rounds t s in
      record {
        separate =
            IsSeparate-static pd tables placed (before_heap t s) mem_size fresh room
              (record { found = λ i hi f. present-static pd tables placed _ i r hi f });
        table = static-present pd tables placed _ 0 r (omega arith);
        used = λ x h. fresh.kernel x (omega arith);
        free = λ x lo hi. fresh.rest x (omega arith) (omega (arith, fresh.total));
      }

  before_heap-room :
      (mem_size : ℕ) (t : Pmm) (s : Paging)
      → IsFresh mem_size t
      → 512 < pages_of mem_size
      → 512 < (before_heap t s).pmm.total_pages
  unfolding paging_enable paging_init
  before_heap-room mem_size t s fresh room = omega (arith, fresh.total)

  pages-IsStatic :
      (t : Pmm) (s : Paging) (pages : HeapMapped pd 256 0 (before_heap t s))
      → IsStatic pd tables pages.after.mem
  pages-IsStatic t s pages = record {
    found = λ i hi f.
        let same = pages.entries i hi in
        rw same (present-static pd tables placed _ i (before_heap-Rounds t s) hi (rw same at f));
  }

  -- What `memory_init` leaves behind.
  pub record Booted (mem_size : ℕ) (s : Paging) : Type 0 where
    pub after : Paging
    pub returns : memory_init pd tables mem_size s ≡ ok (after, first_heap)
    -- write protection and paging are on, with these tables
    pub on : IsOn pd after
    -- the tables are well formed
    pub separate : IsSeparate pd after
    -- the first 12 MB are mapped to themselves
    pub identity :
        (virt : ℕ)
        → virt < 3 * 2 ^ 22
        → (e : ℕ) × (vmm_get_mapping pd virt after ≡ ok e)
          × (frame_of e ≡ frame_of virt)
          × (is_present e ≡ true)
    -- the heap is one free block
    pub heap : IsHeap first_heap after.mem first_blocks
    -- the pages up to the end of the heap are used, the others free
    pub used : (x : ℕ) → x < 512 → tst_bit after.pmm.bitmap x ≡ true
    pub free : (x : ℕ) → 512 ≤ x → x < after.pmm.total_pages → tst_bit after.pmm.bitmap x ≡ false

  -- an address of the heap lies in one of its pages
  heap-identity :
      (s : Paging) (pages : HeapMapped pd 256 0 s) (virt : ℕ)
      → kheap_start ≤ virt
      → virt < heap_page 256
      → walk pd pages.after.mem virt ≡ pte_value (frame_of virt) page_write
  heap-identity s pages virt lo hi =
      let x = (virt - kheap_start) / page_size in
      let page : heap_page x ≡ frame_of virt = omega arith in
      let m = pages.mapped x (omega arith) (omega arith) in
      let w : walk pd pages.after.mem (heap_page x) ≡ pte_value (heap_page x) page_write =
        ok-injective _ _ (sym (vmm_get_mapping-walk pd (heap_page x) pages.after) ∙ m) in
      let first : pd_index virt ≡ pd_index (heap_page x) = omega arith in
      let second : pt_index virt ≡ pt_index (heap_page x) = omega arith in
      ap
        (λ (p : ℕ × ℕ).
          if is_present (entry pd pages.after.mem p.0)
          then load32 pages.after.mem (frame_of (entry pd pages.after.mem p.0) + 4 * p.1)
          else 0)
        {x = (pd_index virt, pt_index virt)} {y = (pd_index (heap_page x), pt_index (heap_page x))}
        (cc (first, second))
      ∙ w
      ∙ ap (λ a. pte_value a page_write) page

  -- the frame behind an address after the heap's pages are mapped
  pages-identity :
      (t : Pmm) (s : Paging) (pages : HeapMapped pd 256 0 (before_heap t s)) (virt : ℕ)
      → virt < 3 * 2 ^ 22
      → (frame_of (walk pd pages.after.mem virt) ≡ frame_of virt)
        × (is_present (walk pd pages.after.mem virt) ≡ true)
  pages-identity t s pages virt h =
      let r = before_heap-Rounds t s in
      let old = identity-frame pd tables placed virt h in
      let kept : (virt < heap_page 0) ⊎ (heap_page 256 ≤ virt)
          → walk pd pages.after.mem virt ≡ identity_entry (pd_index virt) (pt_index virt) =
        λ out.
          ok-injective _ _ (
            sym (vmm_get_mapping-walk pd virt pages.after)
            ∙ pages.elsewhere virt (omega arith) out
            ∙ vmm_get_mapping-walk pd virt (before_heap t s))
          ∙ walk-identity pd tables placed _ virt r h in
      elim (dec_lt virt (heap_page 0)) [
        | yes below ↦ rw (kept (inl below)) old
        | no up ↦ elim (dec_lt virt (heap_page 256)) [
          | no above ↦ rw (kept (inr (omega arith))) old
          | yes inside ↦
              let (frame, there, small) =
                pte_value-fields (frame_of virt) page_write (omega arith) in
              rw (heap-identity (before_heap t s) pages virt (omega arith) inside)
                (frame ∙ omega arith, there)
        ]
      ]

  booted-IsOn :
      (t : Pmm) (s : Paging) (pages : HeapMapped pd 256 0 (before_heap t s))
      → IsOn pd (record pages.after { mem = first_header pages.after.mem })
  booted-IsOn t s pages =
      IsOn-SameRegisters pd (before_heap t s) _ pages.registers
        (paging_enable-IsOn pd tables (record s { pmm = t }))

  booted :
      (mem_size : ℕ) (t : Pmm) (s : Paging)
      → pmm_init mem_size s.pmm ≡ ok t
      → IsFresh mem_size t
      → 512 < pages_of mem_size
      → Booted mem_size s
  unfolding memory_init kheap_init
  booted mem_size t s init fresh room =
      let count : 512 < (before_heap t s).pmm.total_pages =
        before_heap-room mem_size t s fresh room in
      let at = before_heap-IsAtPage mem_size t s fresh room in
      let pages = map_heap-HeapMapped pd 256 0 (before_heap t s) (omega arith) (omega arith) at in
      let st : IsStatic pd tables pages.after.mem = pages-IsStatic t s pages in
      let after = record pages.after { mem = first_header pages.after.mem } in
      record {
        after = after;
        returns = ok->>= _ _ _ _ init (ok->>= _ _ _ _ pages.returns refl);
        on = booted-IsOn t s pages;
        separate = IsSeparate-first_header pd tables placed pages.after pages.at_end.separate;
        identity = λ virt h.
            let (frame, there) = pages-identity t s pages virt h in
            let same = walk-first_header pd tables placed pages.after.mem virt st in
            (
              walk pd after.mem virt,
              vmm_get_mapping-walk pd virt after,
              ap frame_of same ∙ frame,
              ap is_present same ∙ there,
            );
        heap = first_heap-IsHeap pages.after.mem;
        used = pages.at_end.used;
        free = pages.at_end.free;
      }

  -- With a bitmap of the declared size, memory for more than 512 pages behind `PMM_START`, and the
  -- directory and the static tables in frames of their own below the heap, `memory_init` succeeds: write
  -- protection and paging are on, with the directory in CR3, the first 12 MB are mapped to themselves,
  -- the tables are apart, the heap is one free block over its region, and the pages up to its end are
  -- used, the others free.
  pub memory_init-Booted :
      (mem_size : ℕ) (s : Paging)
      → length s.pmm.bitmap ≡ bitmap_words
      → 512 < pages_of mem_size
      → Booted mem_size s
  memory_init-Booted mem_size s words room =
      let (t, init, fresh) = pmm_init-IsFresh mem_size s.pmm (omega arith) words in
      booted mem_size t s init fresh room
