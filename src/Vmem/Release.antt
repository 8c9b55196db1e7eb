-- ===== src/Vmem/Release.antt =====
-- src/vmem.c: `vfree`, and what `vfree` and `vsize` then say of the address.
use kfs.Base.{
  ℕ, ◌+◌, ◌-◌, ◌%◌, ◌^◌, ◌≤◌, ◌<◌, ◌≡◌, refl, ◌∙◌, ◌⊎◌, inl, inr, arith, false, ◌==◌, ==-ne, ltb,
  leb, Bool-cases, ◌&&◌, ◌||◌,
}
use kfs.Machine.Word.{add32}
use kfs.Machine.Mem.{Mem, load32, store32, load32-store32, load32-store32_ne}
use kfs.Machine.Outcome.{Panic, ok, halted}
use kfs.Vmem.{
  kvmem_start, Vmem, block_size, capacity_at, block_free_at, block_magic_at, block_next_at,
  is_block_free, vmem_magic_allocated, vmem_magic_freed, merge_head, vfree, vsize,
}

-- `merge_head` writes two words of the first header only.
merge_head_outside :
    (cur x : ℕ) (m : Mem)
    → (x + 4 ≤ cur + 4) ⊎ (cur + 20 ≤ x) ⊎ ((cur + 8 ≤ x) × (x + 4 ≤ cur + 16))
    → load32 (merge_head cur m) x ≡ load32 m x
unfolding merge_head
merge_head_outside cur x m o =
    elim (Bool-cases (is_block_free m cur && is_block_free m next && (end_cur == next))) [
      | inr apart ↦ rw apart refl
      | inl joined ↦ rw joined (
          load32-store32_ne _ (block_next_at cur) _ x (omega arith)
          ∙ load32-store32_ne m (capacity_at cur) _ x (omega arith))
    ]
  where
    next : ℕ
    next = load32 m (block_next_at cur)

    end_cur : ℕ
    end_cur = add32 (add32 cur block_size) (load32 m (capacity_at cur))

-- A block after `vfree`.
pub record Released (ptr : ℕ) (v : Vmem) (m : Mem) : Type 0 where
  pub after : Mem
  pub returns : vfree ptr v m ≡ ok after
  pub size_zero : (w : Vmem) → vsize ptr w after ≡ ok 0
  pub again : (w : Vmem) → vfree ptr w after ≡ halted (Panic.vfree_double_free ptr)

-- `vfree` of an address behind a header that is marked as allocated succeeds, where the first header
-- of the list is that header or lies apart from it. Then `vsize` of the address is 0, and a second
-- `vfree` panics, whatever the allocator has done with its own variables.
pub vfree-Released :
    (ptr : ℕ) (v : Vmem) (m : Mem)
    → block_size ≤ ptr
    → ptr < 2 ^ 32
    → load32 m (block_magic_at (ptr - block_size)) ≡ vmem_magic_allocated
    → (v.vmem_list ≡ ptr - block_size)
      ⊎ (v.vmem_list + block_size ≤ ptr - block_size)
      ⊎ (ptr ≤ v.vmem_list)
    → Released ptr v m
unfolding vfree vsize
vfree-Released ptr v m lo hi allocated place =
    let blk : ℕ = ptr - block_size in
    let at : (ptr + 2 ^ 32 - 20) % 2 ^ 32 ≡ ptr - block_size = omega arith in
    let nonnull : (ptr == 0) ≡ false = ==-ne ptr 0 (omega arith) in
    let marked : Mem =
      store32 (store32 m (block_free_at blk) 1) (block_magic_at blk) vmem_magic_freed in
    let freed : load32 (merge_head v.vmem_list marked) (block_magic_at blk) ≡ vmem_magic_freed =
      merge_head_outside v.vmem_list (block_magic_at blk) marked (omega arith)
      ∙ load32-store32 _ (block_magic_at blk) vmem_magic_freed (omega arith) in
    record {
      after = merge_head v.vmem_list marked;
      returns = rw (nonnull, at, allocated) refl;
      size_zero = λ w.
          rw (nonnull, at, freed)
            (elim (Bool-cases (ltb ptr kvmem_start || leb w.vmem_current ptr)) [
              | inl out ↦ rw out refl
              | inr inside ↦ rw inside refl
            ]);
      again = λ w. rw (nonnull, at, freed) refl;
    }
