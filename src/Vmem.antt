-- ===== src/Vmem.antt =====
-- src/vmem.c: the virtual memory allocator, a list of block headers in the region from `KVMEM_START`
-- on. Headers are words of the memory at their addresses, as in the kernel heap: the pages of the
-- region are mapped to themselves while the page manager hands pages out in their order.
pub mod Headers
pub mod Release
pub mod Size
pub mod Fresh
pub mod Grow
use kfs.Base.{
  ℕ, zero, suc, ◌+◌, ◌-◌, ◌*◌, ◌/◌, ◌%◌, ◌^◌, ◌==◌, ltb, leb, if◌then◌else◌, not, ◌&&◌, ◌||◌, Bool,
  true, false, Option, none, some, ◌⊎◌, inl, inr,
}
use kfs.Machine.Word.{add32, sub32, mul32}
use kfs.Machine.Mem.{Mem, load32, store32}
use kfs.Machine.Outcome.{Panic, Outcome, ok, halted, out_of_fuel, ◌>>=◌}
use kfs.Pmm.{Pmm, page_size, pmm_alloc_page}
use kfs.Paging.{Paging, page_write, vmm_map_page}

abbrev pub kvmem_start : ℕ
kvmem_start = 0x00300000

abbrev pub kvmem_end : ℕ
kvmem_end = 0x005fffff

abbrev pub vmem_magic_allocated : ℕ
vmem_magic_allocated = 0xdead_beef

abbrev pub vmem_magic_freed : ℕ
vmem_magic_freed = 0xfeee_d000

-- `sizeof(vmem_block_t)`
abbrev pub block_size : ℕ
block_size = 20

-- the fields of `vmem_block_t`, by their offsets
abbrev pub block_size_at : ℕ → ℕ
block_size_at blk = blk

abbrev pub capacity_at : ℕ → ℕ
capacity_at blk = blk + 4

abbrev pub block_free_at : ℕ → ℕ
block_free_at blk = blk + 8

abbrev pub block_magic_at : ℕ → ℕ
block_magic_at blk = blk + 12

abbrev pub block_next_at : ℕ → ℕ
block_next_at blk = blk + 16

pub record Vmem : Type 0 where
  pub vmem_current : ℕ
  pub vmem_size : ℕ
  pub vmem_list : ℕ

-- the statics at boot
abbrev pub first_vmem : Vmem
first_vmem = record { vmem_current = kvmem_start; vmem_size = 0; vmem_list = 0 }

-- rounds for a walk over the list: one for each header that has room, and one more
abbrev pub vmem_fuel : Vmem → ℕ
vmem_fuel v = v.vmem_size / block_size + 1

-- `blk->free`, as a condition
abbrev pub is_block_free : Mem → ℕ → Bool
is_block_free m blk = not (load32 m (block_free_at blk) == 0)

-- the split of `vmalloc`; the new header gets no capacity and no magic
unfoldable pub vmem_split : ℕ → ℕ → Mem → Mem
vmem_split cur size m =
    let n : ℕ = add32 (add32 cur block_size) size in
    let m1 : Mem =
      store32 m (block_size_at n) (sub32 (sub32 (load32 m (block_size_at cur)) size) block_size) in
    let m2 : Mem = store32 m1 (block_free_at n) 1 in
    let m3 : Mem = store32 m2 (block_next_at n) (load32 m2 (block_next_at cur)) in
    let m4 : Mem = store32 m3 (block_size_at cur) size in
    let m5 : Mem = store32 m4 (block_next_at cur) n in
    if leb (add32 (add32 size block_size) 16) (load32 m (block_size_at cur)) then m5 else m

-- the split, then `cur->free = 0; cur->magic = VMEM_MAGIC_ALLOCATED;`
unfoldable pub vmem_claim : ℕ → ℕ → Mem → Mem
vmem_claim cur size m =
    store32 (store32 (vmem_split cur size m) (block_free_at cur) 0) (block_magic_at cur)
      vmem_magic_allocated

-- The loop of `vmalloc`: the first block that fits, claimed, or `prev` at the end of the list.
unfoldable pub vmem_find : ℕ → ℕ → ℕ → ℕ → Mem → Outcome ((ℕ × Mem) ⊎ ℕ)
vmem_find zero prev cur size m = out_of_fuel
vmem_find (suc k) prev cur size m =
    let later = vmem_find k cur (load32 m (block_next_at cur)) size m in
    if cur == 0
    then ok (inr prev)
    else if is_block_free m cur && leb size (load32 m (block_size_at cur))
    then ok (inl (cur, vmem_claim cur size m))
    else later

-- `if (size & 7) size = (size + 7) & ~7u;`
abbrev pub vmem_round : ℕ → ℕ
vmem_round size = if size % 8 == 0 then size else add32 size 7 / 8 * 8

-- `(size + sizeof(vmem_block_t) + PAGE_SIZE - 1) / PAGE_SIZE`
abbrev pub needed_pages : ℕ → ℕ
needed_pages size = sub32 (add32 (add32 size block_size) page_size) 1 / page_size

-- the header of a block in new pages, and the pointer to it
unfoldable pub new_block : ℕ → ℕ → ℕ → ℕ → Mem → Mem
new_block blk size pages prev m =
    let m1 : Mem = store32 m (block_size_at blk) size in
    let m2 : Mem = store32 m1 (capacity_at blk) (sub32 (mul32 pages page_size) block_size) in
    let m3 : Mem = store32 m2 (block_free_at blk) 0 in
    let m4 : Mem = store32 m3 (block_magic_at blk) vmem_magic_allocated in
    let m5 : Mem = store32 m4 (block_next_at blk) 0 in
    if prev == 0 then m5 else store32 m5 (block_next_at prev) blk

module _ (page_directory : ℕ) where
  -- `for (va = vmem_current; va < new_vmem_end; va += PAGE_SIZE)`
  unfoldable pub map_new_pages : ℕ → ℕ → ℕ → Paging → Outcome Paging
  map_new_pages zero va end s = out_of_fuel
  map_new_pages (suc k) va end s = elim (ltb va end) [
    | false ↦ ok s
    | true ↦ pmm_alloc_page s.pmm >>= λ (phys, pmm').
        if phys == 0
        then halted Panic.vmalloc_no_page
        else vmm_map_page page_directory va phys page_write (record s { pmm = pmm' }) >>= λ (r, s').
            elim (r == 0) [
              | true ↦ map_new_pages k (add32 va page_size) end s'
              | false ↦ halted Panic.vmalloc_unmapped
            ]
  ]

  -- `vmalloc` from `Need to expand virtual region` on. Each round of the loop takes a page.
  unfoldable pub vmalloc_expand : ℕ → ℕ → Vmem → Paging → Outcome (ℕ × Vmem × Paging)
  vmalloc_expand size prev v s =
      let pages : ℕ = needed_pages size in
      let new_vmem_end : ℕ = add32 v.vmem_current (mul32 pages page_size) in
      if ltb kvmem_end new_vmem_end
      then halted Panic.vmalloc_exceeds
      else map_new_pages (s.pmm.free_pages + 2) v.vmem_current new_vmem_end s >>= λ s'. ok (
        add32 v.vmem_current block_size,
        record {
          vmem_current = new_vmem_end;
          vmem_size = add32 v.vmem_size (mul32 pages page_size);
          vmem_list = if prev == 0 then v.vmem_current else v.vmem_list;
        },
        record s' { mem = new_block v.vmem_current size pages prev s'.mem },
      )

  unfoldable pub vmalloc : ℕ → Vmem → Paging → Outcome (ℕ × Vmem × Paging)
  vmalloc size v s =
      if size == 0
      then ok (0, v, s)
      else vmem_find (vmem_fuel v) 0 v.vmem_list (vmem_round size) s.mem >>= λ r. elim r [
        | inl (cur, m) ↦ ok (add32 cur block_size, v, record s { mem = m })
        | inr prev ↦ vmalloc_expand (vmem_round size) prev v s
      ]

  -- The loop of `vbrk`. Each round takes a page.
  unfoldable pub grow_to : ℕ → ℕ → Vmem → Paging → Outcome (Vmem × Paging)
  grow_to zero new_addr v s = out_of_fuel
  grow_to (suc k) new_addr v s = elim (ltb v.vmem_current new_addr) [
    | false ↦ ok (v, s)
    | true ↦ pmm_alloc_page s.pmm >>= λ (phys, pmm').
        vmm_map_page page_directory v.vmem_current phys page_write (record s { pmm = pmm' })
        >>= λ (r, s'). elim (r == 0) [
          | true ↦
              grow_to k new_addr
                (record v {
                  vmem_current = add32 v.vmem_current page_size;
                  vmem_size = add32 v.vmem_size page_size;
                })
                s'
          | false ↦ halted Panic.vbrk_unmapped
        ]
  ]

  -- The result 2 ^ 32 - 1 is `(void *)-1`.
  unfoldable pub vbrk : ℕ → Vmem → Paging → Outcome (ℕ × Vmem × Paging)
  vbrk new_brk v s =
      if new_brk == 0
      then ok (v.vmem_current, v, s)
      else if ltb new_brk kvmem_start || ltb new_brk v.vmem_current
      then ok (2 ^ 32 - 1, v, s)
      else grow_to (s.pmm.free_pages + 1) new_brk v s >>= λ (v', s'). ok (v'.vmem_current, v', s')

-- The end of `vfree`. The condition reads the header at `cur->next` also where that is null.
unfoldable pub merge_head : ℕ → Mem → Mem
merge_head cur m =
    let next : ℕ = load32 m (block_next_at cur) in
    let end_cur : ℕ = add32 (add32 cur block_size) (load32 m (capacity_at cur)) in
    let m1 : Mem =
      store32 m (capacity_at cur)
        (add32 (load32 m (capacity_at cur)) (add32 block_size (load32 m (capacity_at next)))) in
    if is_block_free m cur && is_block_free m next && (end_cur == next)
    then store32 m1 (block_next_at cur) (load32 m1 (block_next_at (load32 m1 (block_next_at cur))))
    else m

unfoldable pub vfree : ℕ → Vmem → Mem → Outcome Mem
vfree ptr v m =
    let blk : ℕ = sub32 ptr block_size in
    let magic : ℕ = load32 m (block_magic_at blk) in
    if ptr == 0
    then ok m
    else if magic == vmem_magic_freed
    then halted (Panic.vfree_double_free ptr)
    else if not (magic == vmem_magic_allocated)
    then halted (Panic.vfree_invalid ptr magic)
    else ok (
        merge_head v.vmem_list
          (store32 (store32 m (block_free_at blk) 1) (block_magic_at blk) vmem_magic_freed))

-- the walk of `is_valid_allocated_block`
unfoldable pub find_listed : ℕ → ℕ → ℕ → Mem → Outcome ℕ
find_listed zero cur blk m = out_of_fuel
find_listed (suc k) cur blk m =
    let later = find_listed k (load32 m (block_next_at cur)) blk m in
    if cur == 0 then ok 0 else if cur == blk then ok 1 else later

unfoldable pub is_valid_allocated_block : ℕ → Vmem → Mem → Outcome ℕ
is_valid_allocated_block blk v m =
    if ltb blk kvmem_start || leb v.vmem_current blk
    then ok 0
    else if not (blk % 8 == 0)
    then ok 0
    else find_listed (vmem_fuel v) v.vmem_list blk m

unfoldable pub vsize : ℕ → Vmem → Mem → Outcome ℕ
vsize ptr v m =
    let blk : ℕ = sub32 ptr block_size in
    if ptr == 0
    then ok 0
    else if ltb ptr kvmem_start || leb v.vmem_current ptr
    then ok 0
    else if not (load32 m (block_magic_at blk) == vmem_magic_allocated)
    then ok 0
    else is_valid_allocated_block blk v m >>= λ valid.
        ok (if valid == 0 then 0 else load32 m (block_size_at blk))
