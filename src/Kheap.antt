-- ===== src/Kheap.antt =====
-- src/kheap.c: the kernel heap, a list of block headers that lie in the memory they manage.
-- The static variables are the record `Kheap`; the headers are words of the memory, which each
-- function takes and returns. A loop over the list takes `fuel h` rounds, one more than the number
-- of headers that fit into the heap. What the functions print is in Kernel.Alloc and Kernel.Start.
pub mod Fields
pub mod Blocks
pub mod Chain
pub mod Claim
pub mod Malloc
pub mod Merge
pub mod Free
pub mod Policy
pub mod RoundTrip
pub mod Size
pub mod Kept
pub mod Trace
use kfs.Base.{
  ℕ, zero, suc, ◌+◌, ◌-◌, ◌*◌, ◌/◌, ◌%◌, ◌^◌, Bool, true, false, Option, none, some, ltb, leb, ◌==◌,
  ◌||◌, ◌&&◌, not, if◌then◌else◌,
}
use kfs.Machine.Word.{add32, sub32}
use kfs.Machine.Mem.{Mem, load32, store32}
use kfs.Machine.Outcome.{Panic, Outcome, ok, halted, out_of_fuel, ◌>>=◌}

abbrev pub magic_allocated : ℕ
magic_allocated = 0xdead_beef

abbrev pub magic_freed : ℕ
magic_freed = 0xfeee_d000

-- `sizeof(block_header_t)`
abbrev pub header_size : ℕ
header_size = 16

-- the fields of `block_header_t`, by their offsets
abbrev pub size_at : ℕ → ℕ
size_at blk = blk

abbrev pub free_at : ℕ → ℕ
free_at blk = blk + 4

abbrev pub magic_at : ℕ → ℕ
magic_at blk = blk + 8

abbrev pub next_at : ℕ → ℕ
next_at blk = blk + 12

pub record Kheap : Type 0 where
  pub heap_base : ℕ
  pub heap_size : ℕ
  pub heap_used : ℕ
  pub free_list : ℕ

abbrev pub fuel : Kheap → ℕ
fuel h = h.heap_size / header_size + 1

-- `blk->free`, as a condition
abbrev pub is_free : Mem → ℕ → Bool
is_free m blk = not (load32 m (free_at blk) == 0)

unfoldable pub split_block : ℕ → ℕ → Mem → Mem
split_block blk size m =
    let n : ℕ = add32 (add32 blk header_size) size in
    let m1 : Mem =
      store32 m (size_at n) (sub32 (sub32 (load32 m (size_at blk)) size) header_size) in
    let m2 : Mem = store32 m1 (free_at n) 1 in
    let m3 : Mem = store32 m2 (next_at n) (load32 m2 (next_at blk)) in
    let m4 : Mem = store32 m3 (size_at blk) size in
    let m5 : Mem = store32 m4 (next_at blk) n in
    if leb (add32 (add32 size header_size) 16) (load32 m (size_at blk)) then m5 else m

-- `split_block(cur, size); cur->free = 0; cur->magic = MAGIC_ALLOCATED;`
unfoldable pub claim_block : ℕ → ℕ → Mem → Mem
claim_block cur size m =
    store32 (store32 (split_block cur size m) (free_at cur) 0) (magic_at cur) magic_allocated

-- The loop of `kmalloc`: the first block that fits, claimed; `none` at the end of the list.
unfoldable pub find_fit : ℕ → ℕ → ℕ → Mem → Outcome (Option (ℕ × Mem))
find_fit zero cur size m = out_of_fuel
find_fit (suc k) cur size m =
    let later = find_fit k (load32 m (next_at cur)) size m in
    if cur == 0
    then ok none
    else if is_free m cur && leb size (load32 m (size_at cur))
    then ok (some (cur, claim_block cur size m))
    else later

-- `if (size & 7) size = (size + 7) & ~7u;`
abbrev pub round_up : ℕ → ℕ
round_up size = if size % 8 == 0 then size else add32 size 7 / 8 * 8

unfoldable pub kmalloc : ℕ → Kheap → Mem → Outcome (ℕ × Kheap × Mem)
kmalloc size h m =
    if size == 0
    then ok (0, h, m)
    else find_fit (fuel h) h.free_list (round_up size) m >>= λ r. elim r [
      | none ↦ halted (Panic.kmalloc_out_of_memory (round_up size))
      | some (cur, m') ↦ ok (
        add32 cur header_size,
        record h { heap_used = add32 h.heap_used (add32 (round_up size) header_size) },
        m',
      )
    ]

-- `cur->size += sizeof(block_header_t) + cur->next->size; cur->next = cur->next->next;`
unfoldable pub absorb_next : ℕ → Mem → Mem
absorb_next cur m =
    let next : ℕ = load32 m (next_at cur) in
    let m1 : Mem =
      store32 m (size_at cur)
        (add32 (load32 m (size_at cur)) (add32 header_size (load32 m (size_at next)))) in
    store32 m1 (next_at cur) (load32 m1 (next_at (load32 m1 (next_at cur))))

-- The loop of `kfree` that merges adjacent free blocks.
unfoldable pub merge_free : ℕ → ℕ → Mem → Outcome Mem
merge_free zero cur m = out_of_fuel
merge_free (suc k) cur m =
    let next : ℕ = load32 m (next_at cur) in
    let end_cur : ℕ = add32 (add32 cur header_size) (load32 m (size_at cur)) in
    let merged = merge_free k cur (absorb_next cur m) in
    let walked = merge_free k next m in
    if cur == 0 || next == 0
    then ok m
    else if is_free m cur && is_free m next && (end_cur == next)
    then merged
    else walked

unfoldable pub kfree : ℕ → Kheap → Mem → Outcome (Kheap × Mem)
kfree ptr h m =
    let blk : ℕ = sub32 ptr header_size in
    let magic : ℕ = load32 m (magic_at blk) in
    let m' : Mem = store32 (store32 m (free_at blk) 1) (magic_at blk) magic_freed in
    let used : ℕ = sub32 h.heap_used (add32 (load32 m' (size_at blk)) header_size) in
    if ptr == 0
    then ok (h, m)
    else if magic == magic_freed
    then halted (Panic.kfree_double_free ptr)
    else if not (magic == magic_allocated)
    then halted (Panic.kfree_invalid ptr magic)
    else merge_free (fuel h) h.free_list m' >>= λ m''. ok (record h { heap_used = used }, m'')

-- The walk of `is_valid_kheap_block`: both of its ends return 1.
unfoldable pub walk_list : ℕ → ℕ → ℕ → Mem → Outcome ℕ
walk_list zero cur blk m = out_of_fuel
walk_list (suc k) cur blk m =
    let later = walk_list k (load32 m (next_at cur)) blk m in
    if cur == 0 then ok 1 else if cur == blk then ok 1 else later

-- outside of the heap region
abbrev pub outside_heap : Kheap → ℕ → Bool
outside_heap h addr =
    (h.heap_base == 0) || ltb addr h.heap_base || leb (add32 h.heap_base h.heap_size) addr

unfoldable pub is_valid_kheap_block : ℕ → Kheap → Mem → Outcome ℕ
is_valid_kheap_block blk h m =
    if outside_heap h blk
    then ok 0
    else if not (blk % 8 == 0)
    then ok 0
    else walk_list (fuel h) h.free_list blk m

unfoldable pub ksize : ℕ → Kheap → Mem → Outcome ℕ
ksize ptr h m =
    let blk : ℕ = sub32 ptr header_size in
    if ptr == 0
    then ok 0
    else if outside_heap h ptr
    then ok 0
    else if not (load32 m (magic_at blk) == magic_allocated)
    then ok 0
    else is_valid_kheap_block blk h m >>= λ valid.
        ok (if valid == 0 then 0 else load32 m (size_at blk))

-- `(void *)-1`
abbrev pub invalid_ptr : ℕ
invalid_ptr = 2 ^ 32 - 1

unfoldable pub kbrk : ℕ → Kheap → ℕ × Kheap
kbrk new_brk h =
    if new_brk == 0
    then (add32 h.heap_base h.heap_used, h)
    else if ltb new_brk h.heap_base || ltb (add32 h.heap_base h.heap_size) new_brk
    then (invalid_ptr, h)
    else (new_brk, record h { heap_used = sub32 new_brk h.heap_base })

unfoldable pub kheap_used_bytes : Kheap → ℕ
kheap_used_bytes h = h.heap_used

unfoldable pub kheap_total_bytes : Kheap → ℕ
kheap_total_bytes h = h.heap_size
