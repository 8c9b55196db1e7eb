-- ===== src/Paging/Mapping.antt =====
-- `vmm_map_page` and `vmm_unmap_page` on the map from pages to entries.
use kfs.Paging.Registers.{SameRegisters}
use kfs.Base.{
  ℕ, ◌/◌, ◌^◌, ◌<◌, ◌≡◌, ◌≢◌, refl, sym, ap, ◌∙◌, ◌⊎◌, inl, inr, arith, true, Bool-cases,
}
use native.Mathlib.Decide.{ℕ_discrete}
use kfs.Machine.Mem.{Mem}
use kfs.Machine.Outcome.{ok}
use kfs.Paging.{
  Paging, pd_index, pt_index, is_present, pte_value, virt_to_pte, vmm_map_page, vmm_unmap_page,
  vmm_get_mapping,
}
use kfs.Paging.Entry.{pte_value-fields}
use kfs.Paging.Map.{entry, IsSeparate, Stored, store_entry, vmm_get_mapping-walk}
use kfs.Paging.Table.{virt_to_pte-HasTable}

module _ (pd : ℕ) where
  -- The mapping of every page but that of `virt` is the same in both states.
  abbrev pub SameElsewhere : ℕ → Paging → Paging → Type 0
  SameElsewhere virt s s' =
      (u : ℕ)
      → u < 2 ^ 32
      → u / 2 ^ 12 ≢ virt / 2 ^ 12
      → vmm_get_mapping pd u s' ≡ vmm_get_mapping pd u s

  Stored-IsSeparate :
      (s : Paging) (virt value : ℕ) (m' : Mem)
      → IsSeparate pd s
      → Stored pd s virt value m'
      → IsSeparate pd (record s { mem = m' })
  Stored-IsSeparate s virt value m' v st = record {
    valid = v.valid;
    aligned = v.aligned;
    tables = λ i hi. rw (st.entries i hi) (v.tables i hi);
    apart = λ i j hi hj. rw (st.entries i hi, st.entries j hj) (v.apart i j hi hj);
    free_dir = v.free_dir;
    free_tables = λ k i hk free hi. rw (st.entries i hi) (v.free_tables k i hk free hi);
  }

  -- What mapping a page does.
  pub record Mapped (virt phys flags : ℕ) (s : Paging) : Type 0 where
    pub after : Paging
    pub returns : vmm_map_page pd virt phys flags s ≡ ok (0, after)
    pub mapped : vmm_get_mapping pd virt after ≡ ok (pte_value phys flags)
    pub elsewhere : SameElsewhere virt s after
    pub separate : IsSeparate pd after
    pub registers : SameRegisters s after
    -- with the table there already, no page is taken and no directory entry changes
    pub kept :
        is_present (entry pd s.mem (pd_index virt)) ≡ true
        → (after.pmm ≡ s.pmm) × ((i : ℕ) → i < 1024 → entry pd after.mem i ≡ entry pd s.mem i)

  different_page :
      (u virt : ℕ)
      → u < 2 ^ 32
      → virt < 2 ^ 32
      → u / 2 ^ 12 ≢ virt / 2 ^ 12
      → (pd_index u ≢ pd_index virt) ⊎ (pt_index u ≢ pt_index virt)
  different_page u virt h k ne = elim (ℕ_discrete (pd_index u) (pd_index virt)) [
    | no apart ↦ inl apart
    | yes e ↦ inr (λ f. ne (omega (arith, e, f)))
  ]

  -- Mapping a page succeeds if a page is left for a table: the page then has the entry asked for,
  -- no other page has changed its entry, and the tables stay apart.
  pub vmm_map_page-Mapped :
      (virt phys flags : ℕ) (s : Paging)
      → virt < 2 ^ 32
      → phys < 2 ^ 32
      → 0 < s.pmm.free_pages
      → IsSeparate pd s
      → Mapped virt phys flags s
  unfolding vmm_map_page
  vmm_map_page-Mapped virt phys flags s hv hp some_left v =
      let t = virt_to_pte-HasTable pd virt s v some_left in
      let value = pte_value phys flags in
      let st =
        store_entry pd t.after virt value t.separate t.present (pte_value-fields phys flags hp).2 in
      record {
        after = record t.after { mem = _ };
        returns = rw t.returns;
        mapped = vmm_get_mapping-walk pd virt _ ∙ ap ok st.there;
        elsewhere = λ u hu ne.
            vmm_get_mapping-walk pd u _
            ∙ ap ok (st.elsewhere u (different_page u virt hu hv ne) ∙ t.same u)
            ∙ sym (vmm_get_mapping-walk pd u s);
        separate = Stored-IsSeparate t.after virt value _ t.separate st;
        registers = t.registers;
        kept = λ found. (
          ap (λ (x : Paging). x.pmm) (t.kept found),
          λ i hi. st.entries i hi ∙ ap (λ (x : Paging). entry pd x.mem i) (t.kept found),
        );
      }

  -- What unmapping a page does.
  pub record Unmapped (virt : ℕ) (s : Paging) : Type 0 where
    pub after : Paging
    pub returns : vmm_unmap_page pd virt s ≡ ok after
    pub gone : vmm_get_mapping pd virt after ≡ ok 0
    pub elsewhere : SameElsewhere virt s after
    pub separate : IsSeparate pd after
    pub same_pages : after.pmm ≡ s.pmm

  -- Unmapping a page always succeeds: the page then has no entry, no other page has changed its entry,
  -- and no physical page is taken or given back.
  pub vmm_unmap_page-Unmapped :
      (virt : ℕ) (s : Paging) → virt < 2 ^ 32 → IsSeparate pd s → Unmapped virt s
  unfolding vmm_unmap_page virt_to_pte
  vmm_unmap_page-Unmapped virt s hv v =
      elim (Bool-cases (is_present (entry pd s.mem (pd_index virt)))) [
        | inl found ↦
            let st = store_entry pd s virt 0 v found (omega arith) in
            record {
              after = record s { mem = _ };
              returns = rw found;
              gone = vmm_get_mapping-walk pd virt _ ∙ ap ok st.there;
              elsewhere = λ u hu ne.
                  vmm_get_mapping-walk pd u _
                  ∙ ap ok (st.elsewhere u (different_page u virt hu hv ne))
                  ∙ sym (vmm_get_mapping-walk pd u s);
              separate = Stored-IsSeparate s virt 0 _ v st;
              same_pages = refl;
            }
        | inr missing ↦ record {
          after = s;
          returns = rw missing;
          gone = vmm_get_mapping-walk pd virt s ∙ rw missing;
          elsewhere = λ u hu ne. refl;
          separate = v;
          same_pages = refl;
        }
      ]
