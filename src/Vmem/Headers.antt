-- ===== src/Vmem/Headers.antt =====
-- src/vmem.c: the walk of `vmalloc` over the list of headers.
use kfs.Base.{
  ◌-◌, ◌^◌, ℕ, ◌+◌, ◌≤◌, ◌<◌, ◌≡◌, ◌≢◌, inl, inr, arith, Bool, ltb, leb, if◌then◌else◌, Bool-cases,
  Option, none, some, List, [], ◌∷◌, ◌&&◌,
}
use kfs.Machine.Word.{mul32, add32}
use kfs.Machine.Mem.{Mem, load32}
use kfs.Machine.Outcome.{ok, Ends, Ends->>=}
use kfs.Pmm.Inv.{IsValid}
use kfs.Paging.{Paging}
use kfs.Vmem.{
  map_new_pages, page_size, needed_pages, Vmem, vmem_claim, is_block_free, vmem_round,
  vmalloc_expand, vmalloc, kvmem_end, block_size, block_next_at, block_size_at,
}
use kfs.Vmem.Grow.{map_new_pages-Ends}

-- The pointer `p` leads to a list of headers at the addresses `hs`.
abbrev pub Linked : Mem → ℕ → List ℕ → Type 0
Linked m p [] = p ≡ 0
Linked m p (a ∷ hs) = (p ≡ a) × (a ≢ 0) × Linked m (load32 m (block_next_at a)) hs

abbrev pub has_room : Mem → ℕ → ℕ → Bool
has_room m n a = is_block_free m a && leb n (load32 m (block_size_at a))

-- the first header whose block is free and has `n` bytes
unfoldable pub first_block : Mem → ℕ → List ℕ → Option ℕ
first_block m n [] = none
first_block m n (a ∷ hs) = if has_room m n a then some a else first_block m n hs

-- the last of some headers
unfoldable pub last_or : ℕ → List ℕ → ℕ
last_or prev [] = prev
last_or prev (a ∷ hs) = last_or a hs

-- the result `p` lies behind a header at the old end, and its block in the region, which ends in the
-- range that is kept for it
abbrev pub IsGrown : ℕ → Vmem → ℕ × Vmem × Paging → Type 0
IsGrown n v (p, w, t) =
    (p ≡ v.vmem_current + block_size)
    × (p + n ≤ w.vmem_current)
    × (w.vmem_current ≤ kvmem_end)
    × IsValid t.pmm

pub vmem_round_range :
    (size : ℕ) → 0 < size → size < 2 ^ 31 - 7 → (0 < vmem_round size) × (vmem_round size < 2 ^ 31)
vmem_round_range size pos small = (ground arith, ground arith)

-- the new end of the region, which does not wrap
new_end :
    (size current : ℕ)
    → size < 2 ^ 31
    → current ≤ kvmem_end
    → current + block_size + size ≤ add32 current (mul32 (needed_pages size) page_size)
new_end size current small below = omega arith

module _ (pd : ℕ) where
  -- What `vmalloc` does on the headers `hs`: it claims the first block with room, or it grows.
  pub data Vmalloc (size : ℕ) (v : Vmem) (s : Paging) (hs : List ℕ) : Type 0 where
    claimed :
        (a : ℕ)
        → first_block s.mem (vmem_round size) hs ≡ some a
        → vmalloc pd size v s
          ≡ ok (add32 a block_size, v, record s { mem = vmem_claim a (vmem_round size) s.mem })
        → Vmalloc size v s hs
    grown :
        first_block s.mem (vmem_round size) hs ≡ none
        → vmalloc pd size v s ≡ vmalloc_expand pd (vmem_round size) (last_or 0 hs) v s
        → Ends (IsGrown (vmem_round size) v) (vmalloc pd size v s)
        → Vmalloc size v s hs

  pub vmalloc_expand-Ends :
      (size prev : ℕ) (v : Vmem) (s : Paging)
      → size < 2 ^ 31
      → v.vmem_current ≤ kvmem_end
      → IsValid s.pmm
      → Ends (IsGrown size v) (vmalloc_expand pd size prev v s)
  unfolding vmalloc_expand
  vmalloc_expand-Ends size prev v s small below i =
      let end : ℕ = add32 v.vmem_current (mul32 (needed_pages size) page_size) in
      let room = new_end size v.vmem_current small below in
      elim (Bool-cases (ltb kvmem_end end)) [
        | inl over ↦ rw over tt
        | inr inside ↦ rw inside (
            Ends->>= _ (map_new_pages pd (s.pmm.free_pages + 2) v.vmem_current end s) _
              (map_new_pages-Ends pd (s.pmm.free_pages + 2) v.vmem_current end s i (omega arith))
              (λ t i'. (omega arith, omega (arith, room), ground (arith, inside), i')))
      ]
