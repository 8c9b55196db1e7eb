-- ===== src/Paging/Table.antt =====
-- src/paging.c: `virt_to_pte` with `create`.
use kfs.Paging.Registers.{SameRegisters}
use kfs.Base.{
  ℕ, ◌+◌, ◌*◌, ◌^◌, ◌≤◌, ◌<◌, ◌≡◌, ◌≢◌, refl, sym, ap, ◌∙◌, ◌⊎◌, inl, inr, arith, true, false,
  ==-ne, ==-refl, some, Bool-cases,
}
use native.Mathlib.Decide.{ℕ_discrete}
use kfs.Machine.Mem.{load32, store32, load32-store32, load32-store32_ne, load32_agree}
use kfs.Machine.Outcome.{ok}
use kfs.Pmm.{Pmm, tst_bit, pmm_start, page_size, take_page}
use kfs.Pmm.Bitmap.{tst_bit-set}
use kfs.Pmm.Inv.{IsValid, take_page-IsValid}
use kfs.Pmm.Alloc.{IsLowestFree, pmm_alloc_page-IsLowestFree}
use kfs.Paging.{
  Paging, frame_of, pd_index, pt_index, is_present, table_entry, fill_words, virt_to_pte,
}
use kfs.Paging.Entry.{table_entry-fields}
use kfs.Paging.Fill.{fill_words_outside, load32-fill_words}
use kfs.Paging.Map.{entry, walk, IsSeparate, different_words}

-- a page that was free and is free after page `k` is taken
still_free :
    (s : Pmm) (k x : ℕ)
    → IsValid s
    → k < s.total_pages
    → tst_bit (take_page k s).bitmap x ≡ false
    → (k ≢ x) × (tst_bit s.bitmap x ≡ false)
unfolding take_page
still_free s k x v h e =
    let bits = tst_bit-set s.bitmap k (omega (arith, h, v.small, v.words)) x in
    elim (ℕ_discrete k x) [
      | yes same ↦ absurd (cc (rw (bits, same, ==-refl x) at e))
      | no ne ↦ (ne, rw (bits, ==-ne k x ne) at e)
    ]

pub total-take_page : (k : ℕ) (s : Pmm) → (take_page k s).total_pages ≡ s.total_pages
unfolding take_page
total-take_page k s = refl

module _ (pd : ℕ) where
  pub record HasTable (virt : ℕ) (s : Paging) : Type 0 where
    pub after : Paging
    pub returns :
        virt_to_pte pd virt true s
        ≡ ok (some (frame_of (entry pd after.mem (pd_index virt)) + 4 * pt_index virt), after)
    pub present : is_present (entry pd after.mem (pd_index virt)) ≡ true
    pub separate : IsSeparate pd after
    pub same : (u : ℕ) → walk pd after.mem u ≡ walk pd s.mem u
    pub kept : is_present (entry pd s.mem (pd_index virt)) ≡ true → after ≡ s
    pub registers : SameRegisters s after

  -- the state with a new table at page `k`
  abbrev grown : ℕ → ℕ → Paging → Paging
  grown virt k s = record s {
    pmm = take_page k s.pmm;
    mem =
        store32 (fill_words 1024 0 (pmm_start + k * page_size) (λ i. 0) s.mem)
          (pd + 4 * pd_index virt) (table_entry virt (pmm_start + k * page_size));
  }

  module _ (virt k : ℕ) (s : Paging) (v : IsSeparate pd s) (low : IsLowestFree s.pmm k)
      (missing : is_present (entry pd s.mem (pd_index virt)) ≡ false) where
    abbrev table : ℕ
    table = pmm_start + k * page_size

    fields :
        (frame_of (table_entry virt table) ≡ table)
        × (is_present (table_entry virt table) ≡ true)
        × (table_entry virt table < 2 ^ 32)
    fields = table_entry-fields virt table (omega arith) (omega (arith, low.inside, v.valid.small))

    new_entry : entry pd (grown virt k s).mem (pd_index virt) ≡ table_entry virt table
    new_entry = load32-store32 _ (pd + 4 * pd_index virt) (table_entry virt table) fields.2

    -- a word outside of the new table and of its directory entry
    old_word :
        (a : ℕ)
        → (a + 4 ≤ pd + 4 * pd_index virt) ⊎ (pd + 4 * pd_index virt + 4 ≤ a)
        → (a + 4 ≤ table) ⊎ (table + page_size ≤ a)
        → load32 (grown virt k s).mem a ≡ load32 s.mem a
    old_word a o p =
        load32-store32_ne _ (pd + 4 * pd_index virt) (table_entry virt table) a o
        ∙ load32_agree s.mem _ a
            (λ x lo hi. fill_words_outside 1024 0 table (λ i. 0) s.mem x (omega arith))

    old_entry :
        (i : ℕ) → i < 1024 → i ≢ pd_index virt → entry pd (grown virt k s).mem i ≡ entry pd s.mem i
    old_entry i hi ne =
        old_word (pd + 4 * i) (omega arith)
          (omega (arith, v.aligned, v.free_dir k low.inside low.free))

    -- a word of a table that was there before
    old_table :
        (i j : ℕ)
        → i < 1024
        → j < 1024
        → is_present (entry pd s.mem i) ≡ true
        → load32 (grown virt k s).mem (frame_of (entry pd s.mem i) + 4 * j)
          ≡ load32 s.mem (frame_of (entry pd s.mem i) + 4 * j)
    old_table i j hi hj found =
        old_word (frame_of (entry pd s.mem i) + 4 * j)
          (different_words (frame_of (entry pd s.mem i)) pd j (pd_index virt) (omega arith)
            v.aligned (v.tables i hi found) hj (omega arith))
          (omega (arith, v.free_tables k i low.inside low.free hi found))

    zero_word : (j : ℕ) → j < 1024 → load32 (grown virt k s).mem (table + 4 * j) ≡ 0
    zero_word j hj =
        load32-store32_ne _ (pd + 4 * pd_index virt) (table_entry virt table) (table + 4 * j) (
          different_words table pd j (pd_index virt) (omega arith) v.aligned
            (v.free_dir k low.inside low.free) hj (omega arith))
        ∙ load32-fill_words 1024 0 table (λ i. 0) s.mem j (omega arith) (omega arith) (omega arith)

    walk-grown : (u : ℕ) → walk pd (grown virt k s).mem u ≡ walk pd s.mem u
    walk-grown u = elim (ℕ_discrete (pd_index u) (pd_index virt)) [
      | yes same ↦
          rw (same, new_entry, fields.1, fields.0, missing) (zero_word (pt_index u) (omega arith))
      | no ne ↦
          rw (old_entry (pd_index u) (omega arith) ne)
            (elim (Bool-cases (is_present (entry pd s.mem (pd_index u)))) [
              | inr absent ↦ rw absent refl
              | inl found ↦
                  rw found (old_table (pd_index u) (pt_index u) (omega arith) (omega arith) found)
            ])
    ]

    -- the tables after the growth: the new one, or one that was there
    abbrev Listed : ℕ → Type 0
    Listed i =
        ((i ≡ pd_index virt) × (frame_of (entry pd (grown virt k s).mem i) ≡ table))
        ⊎ ((i ≢ pd_index virt)
            × (is_present (entry pd s.mem i) ≡ true)
            × (frame_of (entry pd (grown virt k s).mem i) ≡ frame_of (entry pd s.mem i)))

    listed : (i : ℕ) → i < 1024 → is_present (entry pd (grown virt k s).mem i) ≡ true → Listed i
    listed i hi found = elim (ℕ_discrete i (pd_index virt)) [
      | yes e ↦ inl (e, rw e (ap frame_of new_entry ∙ fields.0))
      | no ne ↦ inr (ne, rw (old_entry i hi ne) at found, ap frame_of (old_entry i hi ne))
    ]

    IsSeparate-grown : IsSeparate pd (grown virt k s)
    IsSeparate-grown = record {
      valid = (take_page-IsValid k v.valid low.inside low.free).0;
      aligned = v.aligned;
      tables = λ i hi found. elim (listed i hi found) [
        | inl new ↦ rw new.1 (v.free_dir k low.inside low.free)
        | inr old ↦ rw old.2 (v.tables i hi old.1)
      ];
      apart = λ i j hi hj fi fj ne. elim (listed i hi fi) [
        | inl new ↦ elim (listed j hj fj) [
          | inl new' ↦ absurd (ne (new.0 ∙ sym new'.0))
          | inr old' ↦
              rw (new.1, old'.2) (λ e. v.free_tables k j low.inside low.free hj old'.1 (sym e))
        ]
        | inr old ↦ elim (listed j hj fj) [
          | inl new' ↦ rw (old.2, new'.1) (v.free_tables k i low.inside low.free hi old.1)
          | inr old' ↦ rw (old.2, old'.2) (v.apart i j hi hj old.1 old'.1 ne)
        ]
      ];
      free_dir =
          λ x hx free. v.free_dir x (total hx) (still_free s.pmm k x v.valid low.inside free).1;
      free_tables = λ x i hx free hi found.
          let (ne, was) = still_free s.pmm k x v.valid low.inside free in
          elim (listed i hi found) [
            | inl new ↦ rw new.1 (λ e. ne (omega (arith, e)))
            | inr old ↦ rw old.2 (v.free_tables x i (total hx) was hi old.1)
          ];
    }
      where
        total : {x : ℕ} → x < (take_page k s.pmm).total_pages → x < s.pmm.total_pages
        total h = rw total-take_page at h

  -- With a page free for it, the table for an address is there after the call.
  pub virt_to_pte-HasTable :
      (virt : ℕ) (s : Paging) → IsSeparate pd s → 0 < s.pmm.free_pages → HasTable virt s
  unfolding virt_to_pte
  virt_to_pte-HasTable virt s v some_left =
      elim (Bool-cases (is_present (entry pd s.mem (pd_index virt)))) [
        | inl found ↦ record {
          after = s;
          returns = rw found;
          present = found;
          separate = v;
          same = λ u. refl;
          kept = λ e. refl;
          registers = (refl, refl);
        }
        | inr missing ↦
            let (k, low, e) = pmm_alloc_page-IsLowestFree v.valid some_left in
            record {
              after = grown virt k s;
              returns = rw (missing, e, new_entry virt k s v low missing);
              present = rw (new_entry virt k s v low missing) (fields virt k s v low missing).1;
              separate = IsSeparate-grown virt k s v low missing;
              same = walk-grown virt k s v low missing;
              kept = λ e. absurd (cc);
              registers = (refl, refl);
            }
      ]

  -- Taking a free page for something else keeps the tables apart.
  pub IsSeparate-take_page :
      (s : Paging) (k : ℕ)
      → IsSeparate pd s
      → IsLowestFree s.pmm k
      → IsSeparate pd (record s { pmm = take_page k s.pmm })
  IsSeparate-take_page s k v low = record {
    valid = (take_page-IsValid k v.valid low.inside low.free).0;
    aligned = v.aligned;
    tables = v.tables;
    apart = v.apart;
    free_dir = λ x hx free.
        v.free_dir x (rw total-take_page at hx) (still_free s.pmm k x v.valid low.inside free).1;
    free_tables = λ x i hx free hi found.
        v.free_tables x i (rw total-take_page at hx)
          (still_free s.pmm k x v.valid low.inside free).1 hi found;
  }
