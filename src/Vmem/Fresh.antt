-- ===== src/Vmem/Fresh.antt =====
-- src/vmem.c: the first block of the list, in new pages.
use kfs.Base.{
  subst, ℕ, suc, ◌+◌, ◌-◌, ◌/◌, ◌%◌, ◌^◌, ◌≤◌, ◌<◌, ◌≡◌, refl, ◌∙◌, arith, false, ◌==◌, ==-ne,
  ==-refl, ltb, leb, ◌||◌,
}
use kfs.Machine.Word.{add32, mul32}
use kfs.Machine.Mem.{Mem, load32, load32-store32, load32-store32_ne}
use kfs.Machine.Outcome.{Ends-results, Ends, Panic, ok, guarded-eq-ok}
use kfs.Paging.{Paging}
use kfs.Pmm.Inv.{IsValid}
use kfs.Vmem.Headers.{vmalloc_expand-Ends, vmem_round_range}
use kfs.Vmem.{
  Vmem, block_size_at, block_magic_at, vmem_magic_allocated, vmem_find, vmem_round, needed_pages,
  new_block, vsize, vmalloc, vmalloc_expand, map_new_pages, is_valid_allocated_block, find_listed,
  kvmem_start, kvmem_end,
}

record NewBlock (a size : ℕ) (m : Mem) : Type 0 where
  size_field : load32 m (block_size_at a) ≡ size
  magic_field : load32 m (block_magic_at a) ≡ vmem_magic_allocated

new_block-NewBlock :
    (a size pages : ℕ) (m : Mem) → size < 2 ^ 32 → NewBlock a size (new_block a size pages 0 m)
unfolding new_block
new_block-NewBlock a size pages m h = record {
  size_field =
      load32-store32_ne _ (a + 16) 0 a (omega arith)
      ∙ load32-store32_ne _ (a + 12) vmem_magic_allocated a (omega arith)
      ∙ load32-store32_ne _ (a + 8) 0 a (omega arith)
      ∙ load32-store32_ne _ (a + 4) _ a (omega arith)
      ∙ load32-store32 m a size h;
  magic_field =
      load32-store32_ne _ (a + 16) 0 (a + 12) (omega arith)
      ∙ load32-store32 _ (a + 12) vmem_magic_allocated (omega arith);
}

-- `vsize` of an address behind an aligned header that is the first of the list and inside the region
vsize_first :
    (a size : ℕ) (w : Vmem) (m : Mem)
    → NewBlock a size m
    → w.vmem_list ≡ a
    → kvmem_start ≤ a
    → a % 8 ≡ 0
    → a + 20 < w.vmem_current
    → w.vmem_current < 2 ^ 32
    → vsize (a + 20) w m ≡ ok size
unfolding vsize is_valid_allocated_block find_listed
vsize_first a size w m b listed lo aligned hi bound =
    let nonnull : (a + 20 == 0) ≡ false = ==-ne (a + 20) 0 (omega arith) in
    let nonnull' : (a == 0) ≡ false = ==-ne a 0 (omega arith) in
    let at : (a + 20 + 2 ^ 32 - 20) % 2 ^ 32 ≡ a = omega arith in
    let in1 : (ltb (a + 20) kvmem_start || leb w.vmem_current (a + 20)) ≡ false = ground arith in
    let in2 : (ltb a kvmem_start || leb w.vmem_current a) ≡ false = ground arith in
    let rounds : w.vmem_size / 20 + 1 ≡ suc (w.vmem_size / 20) = omega arith in
    rw
      (
        nonnull,
        in1,
        at,
        b.magic_field,
        in2,
        aligned,
        rounds,
        listed,
        nonnull',
        ==-refl a,
        b.size_field,
      )
      refl

-- with no header in the list, `vmalloc` goes to new pages
vmalloc-empty :
    (pd size : ℕ) (v : Vmem) (s : Paging)
    → 0 < size
    → v.vmem_list ≡ 0
    → vmalloc pd size v s ≡ vmalloc_expand pd (vmem_round size) 0 v s
unfolding vmalloc vmem_find
vmalloc-empty pd size v s pos empty =
    let nonzero : (size == 0) ≡ false = ==-ne size 0 (omega arith) in
    let rounds : v.vmem_size / 20 + 1 ≡ suc (v.vmem_size / 20) = omega arith in
    simp (nonzero, rounds, empty) refl

-- what `vmalloc_expand` gives back once the pages are there
abbrev placed : ℕ → Vmem → Paging → ℕ × Vmem × Paging
placed size v s = (
  add32 v.vmem_current 20,
  record {
    vmem_current = add32 v.vmem_current (mul32 (needed_pages size) 4096);
    vmem_size = add32 v.vmem_size (mul32 (needed_pages size) 4096);
    vmem_list = v.vmem_current;
  },
  record s { mem = new_block v.vmem_current size (needed_pages size) 0 s.mem },
)

vmalloc_expand-placed :
    (pd size : ℕ) (v : Vmem) (s : Paging) (r : ℕ × Vmem × Paging)
    → vmalloc_expand pd size 0 v s ≡ ok r
    → (s' : Paging) × (placed size v s' ≡ r)
unfolding vmalloc_expand
vmalloc_expand-placed pd size v s r e =
    let new_end : ℕ = add32 v.vmem_current (mul32 (needed_pages size) 4096) in
    let (_, (s', h)) =
      guarded-eq-ok (ltb kvmem_end new_end) Panic.vmalloc_exceeds
        (map_new_pages pd (s.pmm.free_pages + 2) v.vmem_current new_end s)
        (λ s'. ok (placed size v s')) r e in
    (s', cc)

vsize-placed :
    (size : ℕ) (v : Vmem) (s : Paging)
    → 0 < size
    → size < 2 ^ 31
    → kvmem_start ≤ v.vmem_current
    → v.vmem_current ≤ kvmem_end
    → v.vmem_current % 8 ≡ 0
    → let r = placed size v s in vsize r.0 r.1 r.2.mem ≡ ok size
vsize-placed size v s pos small lo hi aligned =
    let at : add32 v.vmem_current 20 ≡ v.vmem_current + 20 = omega arith in
    rw at (
      vsize_first v.vmem_current size (placed size v s).1 _
        (new_block-NewBlock v.vmem_current size (needed_pages size) s.mem (omega arith)) refl lo
        aligned (omega arith) (omega arith))

-- For a request from 1 on below 2^31 - 7, where the page manager is valid, the list is empty, and the
-- region's end lies at a multiple of 8 in the region, `vmalloc` comes to an end: it panics, or it returns
-- an address whose `vsize` is the request, rounded up to a multiple of 8.
pub vsize-vmalloc :
    (pd size : ℕ) (v : Vmem) (s : Paging)
    → IsValid s.pmm
    → 0 < size
    → size < 2 ^ 31 - 7
    → v.vmem_list ≡ 0
    → kvmem_start ≤ v.vmem_current
    → v.vmem_current ≤ kvmem_end
    → v.vmem_current % 8 ≡ 0
    → Ends (λ (p, w, t). vsize p w t.mem ≡ ok (vmem_round size)) (vmalloc pd size v s)
vsize-vmalloc pd size v s i pos small empty lo hi aligned =
    let rounded : (0 < vmem_round size) × (vmem_round size < 2 ^ 31) =
      vmem_round_range size pos small in
    rw (vmalloc-empty pd size v s pos empty) (
      Ends-results _ _ (vmalloc_expand pd (vmem_round size) 0 v s)
        (vmalloc_expand-Ends pd (vmem_round size) 0 v s rounded.1 hi i)
        (λ r e.
          let (s', h) = vmalloc_expand-placed pd (vmem_round size) v s r e in
          subst (λ (r : ℕ × Vmem × Paging). vsize r.0 r.1 r.2.mem ≡ ok (vmem_round size)) h
            (vsize-placed (vmem_round size) v s' rounded.0 rounded.1 lo hi aligned)))
