-- ===== src/Memory/Heap.antt =====
-- src/kheap.c: the loop of `kheap_init` over the pages of the heap.
use kfs.Paging.Registers.{SameRegisters}
use kfs.Base.{
  ==-refl, ℕ, zero, suc, ◌+◌, ◌*◌, ◌^◌, ◌≤◌, ◌<◌, ◌≡◌, refl, sym, ap, ◌∙◌, ◌⊎◌, inl, arith, true,
  false, ◌==◌, ==-ne,
}
use native.Mathlib.Decide.{ℕ_discrete, dec_lt}
use kfs.Machine.Outcome.{ok}
use kfs.Machine.Word.{add32, mul32}
use kfs.Pmm.{Pmm, tst_bit, pmm_start, page_size, take_page}
use kfs.Pmm.Bitmap.{tst_bit-set}
use kfs.Pmm.Inv.{take_page-IsValid}
use kfs.Pmm.Alloc.{IsLowestFree, pmm_alloc_page-IsLowestFree}
use kfs.Paging.{Paging, pd_index, is_present, page_write, pte_value, vmm_get_mapping}
use kfs.Paging.Map.{entry, IsSeparate}
use kfs.Paging.Table.{IsSeparate-take_page, total-take_page}
use kfs.Paging.Mapping.{SameElsewhere, vmm_map_page-Mapped}
use kfs.Paging.Map.{vmm_get_mapping-walk}
use kfs.Memory.{kheap_start, map_heap}

-- page `i` of the heap
abbrev pub heap_page : ℕ → ℕ
heap_page i = kheap_start + i * page_size

heap_page-add32 : (i : ℕ) → i < 256 → add32 kheap_start (mul32 i page_size) ≡ heap_page i
heap_page-add32 i h = omega arith

module _ (pd : ℕ) where
  -- The state in front of round `i`: the pages below the heap's page `i` are used, the others free.
  pub record IsAtPage (i : ℕ) (s : Paging) : Type 0 where
    pub separate : IsSeparate pd s
    pub table : is_present (entry pd s.mem 0) ≡ true
    pub used : (x : ℕ) → x < 256 + i → tst_bit s.pmm.bitmap x ≡ true
    pub free : (x : ℕ) → 256 + i ≤ x → x < s.pmm.total_pages → tst_bit s.pmm.bitmap x ≡ false

  -- the page that the allocator hands out in round `i`
  next_page :
      (i k : ℕ) (s : Paging)
      → IsAtPage i s
      → 256 + i < s.pmm.total_pages
      → IsLowestFree s.pmm k
      → k ≡ 256 + i
  next_page i k s at room low = elim (dec_lt k (256 + i)) [
    | yes below ↦ absurd (cc (at.used k below, low.free))
    | no _low ↦ elim (dec_lt (256 + i) k) [
      | yes above ↦ absurd (cc (low.lowest (256 + i) above, at.free (256 + i) (omega arith) room))
      | no _high ↦ omega arith
    ]
  ]

  IsAtPage-take_page :
      (i k : ℕ) (s : Paging)
      → IsAtPage i s
      → IsLowestFree s.pmm k
      → k ≡ 256 + i
      → IsAtPage (i + 1) (record s { pmm = take_page k s.pmm })
  unfolding take_page
  IsAtPage-take_page i k s at low e =
      let v = at.separate.valid in
      let bits = tst_bit-set s.pmm.bitmap k (omega (arith, low.inside, v.small, v.words)) in
      record {
        separate = IsSeparate-take_page pd s k at.separate low;
        table = at.table;
        used = λ x h. elim (ℕ_discrete k x) [
          | yes same ↦ rw (bits x, same, ==-refl x)
          | no ne ↦ rw (bits x, ==-ne k x ne) (at.used x (omega arith))
        ];
        free = λ x lo hi. rw (bits x, ==-ne k x (omega arith)) (at.free x (omega arith) hi);
      }

  -- What round `i` does.
  record Round (i : ℕ) (s : Paging) : Type 0 where
    after : Paging
    step : (left : ℕ) → map_heap pd (suc left) i s ≡ map_heap pd left (i + 1) after
    at_next : IsAtPage (i + 1) after
    total : after.pmm.total_pages ≡ s.pmm.total_pages
    registers : SameRegisters s after
    mapped : vmm_get_mapping pd (heap_page i) after ≡ ok (pte_value (heap_page i) page_write)
    elsewhere : SameElsewhere pd (heap_page i) s after
    entries : (x : ℕ) → x < 1024 → entry pd after.mem x ≡ entry pd s.mem x

  round : (i : ℕ) (s : Paging) → i < 256 → IsAtPage i s → 257 + i < s.pmm.total_pages → Round i s
  unfolding map_heap
  round i s hi at room =
      let v = at.separate.valid in
      let here = at.free (256 + i) (omega arith) (omega arith) in
      let (k, low, e) =
        pmm_alloc_page-IsLowestFree v
          (omega (arith, (take_page-IsValid (256 + i) v (omega arith) here).1)) in
      let same = next_page i k s at (omega arith) low in
      let taken = record s { pmm = take_page k s.pmm } in
      let at' = IsAtPage-take_page i k s at low same in
      let more = at'.free (257 + i) (omega arith) (rw total-take_page (omega arith)) in
      let left_over =
        (take_page-IsValid (257 + i) at'.separate.valid (rw total-take_page (omega arith))
          more).1 in
      let m =
        vmm_map_page-Mapped pd (heap_page i) (heap_page i) page_write taken (omega arith)
          (omega arith) (omega (arith, left_over)) at'.separate in
      let first : pd_index (heap_page i) ≡ 0 = omega arith in
      let kept = m.kept (rw first at.table) in
      let phys : pmm_start + k * page_size ≡ heap_page i = omega (arith, same) in
      let virt : add32 kheap_start (mul32 i page_size) ≡ heap_page i = heap_page-add32 i hi in
      let phys_ne : (heap_page i == 0) ≡ false = ==-ne _ _ (omega arith) in
      record {
        after = m.after;
        step = λ left. rw (e, phys, virt, phys_ne, m.returns);
        at_next = record {
          separate = m.separate;
          table = rw (kept.1 0 (omega arith)) at'.table;
          used = rw kept.0 at'.used;
          free = rw kept.0 at'.free;
        };
        total = ap (λ (x : Pmm). x.total_pages) kept.0 ∙ total-take_page k s.pmm;
        registers = m.registers;
        mapped = m.mapped;
        elsewhere = λ u hu ne.
            m.elsewhere u hu ne
            ∙ (vmm_get_mapping-walk pd u taken ∙ sym (vmm_get_mapping-walk pd u s));
        entries = kept.1;
      }

  -- What the rounds from `i` to `i + left` do together.
  pub record HeapMapped (left i : ℕ) (s : Paging) : Type 0 where
    pub after : Paging
    pub returns : map_heap pd left i s ≡ ok after
    pub registers : SameRegisters s after
    pub at_end : IsAtPage (i + left) after
    pub mapped :
        (x : ℕ)
        → i ≤ x
        → x < i + left
        → vmm_get_mapping pd (heap_page x) after ≡ ok (pte_value (heap_page x) page_write)
    pub elsewhere :
        (u : ℕ)
        → u < 2 ^ 32
        → (u < heap_page i) ⊎ (heap_page (i + left) ≤ u)
        → vmm_get_mapping pd u after ≡ vmm_get_mapping pd u s
    pub entries : (x : ℕ) → x < 1024 → entry pd after.mem x ≡ entry pd s.mem x

  pub map_heap-HeapMapped :
      (left i : ℕ) (s : Paging)
      → i + left ≤ 256
      → 256 + i + left < s.pmm.total_pages
      → IsAtPage i s
      → HeapMapped left i s
  unfolding map_heap
  map_heap-HeapMapped zero i s h room at = record {
    after = s;
    returns = refl;
    registers = (refl, refl);
    at_end = let e : i + 0 ≡ i = omega arith in rw e at;
    mapped = λ x lo hi. absurd (omega arith);
    elsewhere = λ u hu out. refl;
    entries = λ x hx. refl;
  }
  map_heap-HeapMapped (suc left) i s h room at =
      let r = round i s (omega arith) at (omega arith) in
      let rest =
        map_heap-HeapMapped left (i + 1) r.after (omega arith) (rw r.total (omega arith))
          r.at_next in
      record {
        after = rest.after;
        returns = r.step left ∙ rest.returns;
        registers = (rest.registers.0 ∙ r.registers.0, rest.registers.1 ∙ r.registers.1);
        at_end = let e : i + suc left ≡ i + 1 + left = omega arith in rw e rest.at_end;
        mapped = λ x lo hi. elim (ℕ_discrete i x) [
          | yes e ↦
              rw (sym e) (rest.elsewhere (heap_page i) (omega arith) (inl (omega arith)) ∙ r.mapped)
          | no ne ↦ rest.mapped x (omega arith) (omega arith)
        ];
        elsewhere = λ u hu out. rest.elsewhere u hu (omega arith) ∙ r.elsewhere u hu (omega arith);
        entries = λ x hx. rest.entries x hx ∙ r.entries x hx;
      }
