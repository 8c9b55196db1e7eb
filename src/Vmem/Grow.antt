-- ===== src/Vmem/Grow.antt =====
-- src/vmem.c: the loops of `vmalloc` and `vbrk` that map pages, and what they use of the page tables.
use kfs.Base.{
  ==-ne, ◌||◌, ℕ, zero, suc, ◌+◌, ◌-◌, ◌*◌, ◌^◌, ◌≤◌, ◌<◌, ◌≡◌, refl, ◌⊎◌, inl, inr, arith, true,
  ◌==◌, ltb, Bool-cases, some,
}
use native.Mathlib.Decide.{ℕ_discrete}
use kfs.Machine.Word.{add32}
use kfs.Machine.Outcome.{Ends, Ends->>=}
use kfs.Pmm.{page_size, Pmm, pmm_alloc_page}
use kfs.Pmm.Inv.{IsValid}
use kfs.Pmm.Alloc.{pmm_alloc_page-IsValid, pmm_alloc_page-IsLowestFree, pmm_alloc_page-full}
use kfs.Paging.{pd_index, Paging, page_write, is_present, virt_to_pte, vmm_map_page}
use kfs.Vmem.{kvmem_start, load32, Vmem, map_new_pages, grow_to, vbrk}

pmm_alloc_page-Ends :
    (s : Pmm)
    → IsValid s
    → Ends (λ (p, t). IsValid t × (suc t.free_pages ≡ s.free_pages)) (pmm_alloc_page s)
pmm_alloc_page-Ends s v = elim (ℕ_discrete s.free_pages 0) [
  | yes full ↦ rw (pmm_alloc_page-full v full) tt
  | no left ↦
      let (j, low, e) = pmm_alloc_page-IsLowestFree v (omega arith) in
      rw e (pmm_alloc_page-IsValid v e)
]

module _ (pd : ℕ) where
  -- With `create`, `virt_to_pte` returns an entry unless the page manager panics.
  virt_to_pte-Ends :
      (virt : ℕ) (s : Paging)
      → IsValid s.pmm
      → Ends
          (λ (r, t).
            (at : ℕ) × (r ≡ some at) × IsValid t.pmm × (t.pmm.free_pages ≤ s.pmm.free_pages))
          (virt_to_pte pd virt true s)
  unfolding virt_to_pte
  virt_to_pte-Ends virt s v =
      elim (Bool-cases (is_present (load32 s.mem (pd + 4 * pd_index virt)))) [
        | inl found ↦ rw found (_, refl, v, omega arith)
        | inr missing ↦ rw missing (
            Ends->>= _ (pmm_alloc_page s.pmm) _ (pmm_alloc_page-Ends s.pmm v)
              (λ (p, t) h. (_, refl, h.0, omega (arith, h.1))))
      ]

  -- `vmm_map_page` returns 0 unless the page manager panics.
  pub vmm_map_page-Ends :
      (virt phys flags : ℕ) (s : Paging)
      → IsValid s.pmm
      → Ends
          (λ (r, t). (r ≡ 0) × IsValid t.pmm × (t.pmm.free_pages ≤ s.pmm.free_pages))
          (vmm_map_page pd virt phys flags s)
  unfolding vmm_map_page
  vmm_map_page-Ends virt phys flags s v =
      Ends->>= _ (virt_to_pte pd virt true s) _ (virt_to_pte-Ends virt s v)
        (λ (r, t) (at, e, h, le). rw e (refl, h, le))

  -- With a round for each free page, the loop of `vmalloc` ends.
  pub map_new_pages-Ends :
      (k va end : ℕ) (s : Paging)
      → IsValid s.pmm
      → s.pmm.free_pages < k
      → Ends (λ t. IsValid t.pmm) (map_new_pages pd k va end s)
  unfolding map_new_pages
  map_new_pages-Ends zero va end s v h = absurd (omega arith)
  map_new_pages-Ends (suc k) va end s v h = elim (Bool-cases (ltb va end)) [
    | inr done ↦ rw (map_new_pages, done) v
    | inl more ↦
        rw (map_new_pages, more)
          (Ends->>= _ (pmm_alloc_page s.pmm) _ (pmm_alloc_page-Ends s.pmm v)
            (λ (phys, pmm') (v', left). elim (Bool-cases (phys == 0)) [
              | inl null ↦ rw null tt
              | inr there ↦ rw there (
                  Ends->>= _ (vmm_map_page pd va phys page_write (record s { pmm = pmm' })) _
                    (vmm_map_page-Ends va phys page_write (record s { pmm = pmm' }) v')
                    (λ (r, t) (e, v'', le). rw e (
                      map_new_pages-Ends k (add32 va page_size) end t v''
                        (omega (arith, left, le, h)))))
            ]))
  ]

  grow_to-Ends :
      (k new_addr : ℕ) (v : Vmem) (s : Paging)
      → IsValid s.pmm
      → s.pmm.free_pages < k
      → Ends (λ (w, t). IsValid t.pmm × (new_addr ≤ w.vmem_current)) (grow_to pd k new_addr v s)
  unfolding grow_to
  grow_to-Ends zero new_addr v s i h = absurd (omega arith)
  grow_to-Ends (suc k) new_addr v s i h = elim (Bool-cases (ltb v.vmem_current new_addr)) [
    | inr done ↦ rw (grow_to, done) (i, ground (arith, done))
    | inl more ↦
        rw (grow_to, more)
          (Ends->>= _ (pmm_alloc_page s.pmm) _ (pmm_alloc_page-Ends s.pmm i)
            (λ (phys, pmm') (i', left).
              Ends->>= _ (vmm_map_page pd v.vmem_current phys page_write (record s { pmm = pmm' }))
                _ (vmm_map_page-Ends v.vmem_current phys page_write (record s { pmm = pmm' }) i')
                (λ (r, t) (e, i'', le). rw e (
                  grow_to-Ends k new_addr
                    (record v {
                      vmem_current = add32 v.vmem_current page_size;
                      vmem_size = add32 v.vmem_size page_size;
                    })
                    t i'' (omega (arith, left, le, h))))))
  ]

  -- `vbrk` always comes to an end, also for an address that the loop steps over by wrapping: it
  -- panics, or it returns and the page manager is valid. A new break that it accepts is then
  -- reached, one that it refuses lies below the region or below the break and changes nothing.
  pub vbrk-Ends :
      (new_brk : ℕ) (v : Vmem) (s : Paging)
      → IsValid s.pmm
      → Ends
          (λ (r, w, t).
            IsValid t.pmm
            × (((r ≡ w.vmem_current) × (new_brk ≤ w.vmem_current))
                ⊎ ((r ≡ 2 ^ 32 - 1)
                    × (w ≡ v)
                    × (t ≡ s)
                    × ((new_brk < kvmem_start) ⊎ (new_brk < v.vmem_current)))))
          (vbrk pd new_brk v s)
  unfolding vbrk
  vbrk-Ends new_brk v s i = elim (ℕ_discrete new_brk 0) [
    | yes z ↦ rw z (i, inl (refl, omega arith))
    | no nz ↦ elim (Bool-cases (ltb new_brk kvmem_start || ltb new_brk v.vmem_current)) [
      | inl low ↦ rw (==-ne new_brk 0 nz, low) (i, inr (refl, refl, refl, ground arith))
      | inr high ↦
          rw (==-ne new_brk 0 nz, high)
            (Ends->>= _ (grow_to pd (s.pmm.free_pages + 1) new_brk v s) _
              (grow_to-Ends (s.pmm.free_pages + 1) new_brk v s i (omega arith))
              (λ (w, t) (i', le). (i', inl (refl, le))))
    ]
  ]
