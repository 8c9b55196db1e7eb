-- ===== src/Paging/Map.antt =====
-- The page table as a map from pages to entries: what mapping and unmapping a page change.
use kfs.Base.{
  ℕ, ◌+◌, ◌*◌, ◌%◌, ◌^◌, ◌≤◌, ◌<◌, ◌≡◌, ◌≢◌, refl, sym, ap, ◌⊎◌, inl, inr, arith, true, false,
  if◌then◌else◌, Bool-cases,
}
use native.Mathlib.Decide.{ℕ_discrete}
use kfs.Machine.Mem.{Mem, load32, store32, load32-store32, load32-store32_ne}
use kfs.Machine.Outcome.{ok}
use kfs.Pmm.{tst_bit, pmm_start, page_size}
use kfs.Pmm.Inv.{IsValid}
use kfs.Paging.{Paging, frame_of, pd_index, pt_index, is_present, virt_to_pte, vmm_get_mapping}

pub different_words :
    (a b i j : ℕ)
    → a % 2 ^ 12 ≡ 0
    → b % 2 ^ 12 ≡ 0
    → a ≢ b
    → i < 1024
    → j < 1024
    → (a + 4 * i + 4 ≤ b + 4 * j) ⊎ (b + 4 * j + 4 ≤ a + 4 * i)
different_words a b i j p q ne hi hj = omega arith

module _ (pd : ℕ) where
  -- entry `i` of the page directory
  abbrev pub entry : Mem → ℕ → ℕ
  entry m i = load32 m (pd + 4 * i)

  -- the page table entry for `virt`, 0 where there is no table
  abbrev pub walk : Mem → ℕ → ℕ
  walk m virt =
      if is_present (entry m (pd_index virt))
      then load32 m (frame_of (entry m (pd_index virt)) + 4 * pt_index virt)
      else 0

  -- The directory and the tables lie in different frames, and no free page is one of them.
  pub record IsSeparate (s : Paging) : Type 0 where
    pub valid : IsValid s.pmm
    pub aligned : pd % 2 ^ 12 ≡ 0
    pub tables :
        (i : ℕ) → i < 1024 → is_present (entry s.mem i) ≡ true → frame_of (entry s.mem i) ≢ pd
    pub apart :
        (i j : ℕ)
        → i < 1024
        → j < 1024
        → is_present (entry s.mem i) ≡ true
        → is_present (entry s.mem j) ≡ true
        → i ≢ j
        → frame_of (entry s.mem i) ≢ frame_of (entry s.mem j)
    pub free_dir :
        (k : ℕ)
        → k < s.pmm.total_pages
        → tst_bit s.pmm.bitmap k ≡ false
        → pmm_start + k * page_size ≢ pd
    pub free_tables :
        (k i : ℕ)
        → k < s.pmm.total_pages
        → tst_bit s.pmm.bitmap k ≡ false
        → i < 1024
        → is_present (entry s.mem i) ≡ true
        → frame_of (entry s.mem i) ≢ pmm_start + k * page_size

  -- `vmm_get_mapping` walks the two levels.
  pub vmm_get_mapping-walk :
      (virt : ℕ) (s : Paging) → vmm_get_mapping pd virt s ≡ ok (walk s.mem virt)
  unfolding vmm_get_mapping virt_to_pte
  vmm_get_mapping-walk virt s = elim (Bool-cases (is_present (entry s.mem (pd_index virt)))) [
    | inl there ↦ rw there
    | inr missing ↦ rw missing
  ]

  -- What a store to the table entry for `virt` changes.
  pub record Stored (s : Paging) (virt value : ℕ) (m' : Mem) : Type 0 where
    pub entries : (i : ℕ) → i < 1024 → entry m' i ≡ entry s.mem i
    pub there : walk m' virt ≡ value
    pub elsewhere :
        (v : ℕ)
        → (pd_index v ≢ pd_index virt) ⊎ (pt_index v ≢ pt_index virt)
        → walk m' v ≡ walk s.mem v

  -- the table entries of two different pages are different words
  other_word :
      (s : Paging) (virt u : ℕ)
      → IsSeparate s
      → is_present (entry s.mem (pd_index virt)) ≡ true
      → is_present (entry s.mem (pd_index u)) ≡ true
      → (pd_index u ≢ pd_index virt) ⊎ (pt_index u ≢ pt_index virt)
      → let at = frame_of (entry s.mem (pd_index virt)) + 4 * pt_index virt in
        let b = frame_of (entry s.mem (pd_index u)) + 4 * pt_index u in (b + 4 ≤ at) ⊎ (at + 4 ≤ b)
  other_word s virt u v present found o = elim (ℕ_discrete (pd_index u) (pd_index virt)) [
    | yes same ↦
        let f : frame_of (entry s.mem (pd_index u)) ≡ frame_of (entry s.mem (pd_index virt)) =
          ap (λ t. frame_of (entry s.mem t)) same in
        omega (arith, f, o, same)
    | no ne ↦
        different_words (frame_of (entry s.mem (pd_index u)))
          (frame_of (entry s.mem (pd_index virt))) (pt_index u) (pt_index virt) (omega arith)
          (omega arith)
          (v.apart (pd_index u) (pd_index virt) (omega arith) (omega arith) found present ne)
          (omega arith) (omega arith)
  ]

  pub store_entry :
      (s : Paging) (virt value : ℕ)
      → IsSeparate s
      → is_present (entry s.mem (pd_index virt)) ≡ true
      → value < 2 ^ 32
      → Stored s virt value
          (store32 s.mem (frame_of (entry s.mem (pd_index virt)) + 4 * pt_index virt) value)
  store_entry s virt value v present small =
      let e = entry s.mem (pd_index virt) in
      let at = frame_of e + 4 * pt_index virt in
      let m' = store32 s.mem at value in
      let kept : (i : ℕ) → i < 1024 → entry m' i ≡ entry s.mem i = λ i hi.
        load32-store32_ne s.mem at value (pd + 4 * i) (
          different_words pd (frame_of e) i (pt_index virt) v.aligned (omega arith)
            (λ q. v.tables (pd_index virt) (omega arith) present (sym q)) hi (omega arith)) in
      record {
        entries = kept;
        there =
            rw (kept (pd_index virt) (omega arith), present) (load32-store32 s.mem at value small);
        elsewhere = λ u o.
            rw (kept (pd_index u) (omega arith))
              (elim (Bool-cases (is_present (entry s.mem (pd_index u)))) [
                | inr missing ↦ rw missing refl
                | inl found ↦ rw found (
                    load32-store32_ne s.mem at value
                      (frame_of (entry s.mem (pd_index u)) + 4 * pt_index u)
                      (other_word s virt u v present found o))
              ]);
      }
