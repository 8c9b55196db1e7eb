-- ===== src/Memory/Tables.antt =====
-- src/paging.c, src/kheap.c: the page tables at the start, and the first header beside them.
use kfs.Base.{false, Bool-cases, ℕ, ◌+◌, ◌*◌, ◌≤◌, ◌<◌, ◌≡◌, refl, ◌∙◌, inl, inr, arith, true}
use native.Mathlib.Decide.{dec_lt}
use kfs.Machine.Mem.{Mem, load32, store32_outside, load32_agree}
use kfs.Pmm.{tst_bit, Pmm}
use kfs.Pmm.Init.{IsFresh, pages_of}
use kfs.Paging.{Paging, frame_of, pd_index, pt_index, is_present}
use kfs.Paging.Map.{entry, walk, IsSeparate}
use kfs.Paging.Start.{IsPlaced, table_at}
use kfs.Kheap.{size_at, free_at, next_at}
use kfs.Memory.{kheap_start, first_header}

first_header_outside :
    (m : Mem) (a : ℕ) → a + 4 ≤ kheap_start → load32 (first_header m) a ≡ load32 m a
unfolding first_header
first_header_outside m a h = load32_agree m _ a (λ b lo hi.
    store32_outside _ (next_at kheap_start) 0 b (omega arith)
    ∙ store32_outside _ (free_at kheap_start) 1 b (omega arith)
    ∙ store32_outside m (size_at kheap_start) _ b (omega arith))

-- the directory's entries that are present are the first three, and point to the static tables
pub record IsStatic (pd tables : ℕ) (m : Mem) : Type 0 where
  pub found :
      (i : ℕ)
      → i < 1024
      → is_present (entry pd m i) ≡ true
      → (i < 3) × (frame_of (entry pd m i) ≡ table_at tables i)

-- the pages of the kernel are not handed out
free_above :
    (mem_size k : ℕ) (t : Pmm)
    → IsFresh mem_size t
    → 512 < pages_of mem_size
    → tst_bit t.bitmap k ≡ false
    → 256 ≤ k
free_above mem_size k t fresh room clear = elim (dec_lt k 256) [
  | yes low ↦ absurd (cc (fresh.kernel k (omega arith), clear))
  | no high ↦ omega arith
]

module _ (pd tables : ℕ) (placed : IsPlaced pd tables) where
  pub IsSeparate-static :
      (s : Paging) (mem_size : ℕ)
      → IsFresh mem_size s.pmm
      → 512 < pages_of mem_size
      → IsStatic pd tables s.mem
      → IsSeparate pd s
  IsSeparate-static s mem_size fresh room st = record {
    valid = fresh.valid;
    aligned = placed.directory;
    tables = λ i hi found. let (h, e) = st.found i hi found in omega (arith, e, placed.apart);
    apart = λ i j hi hj found found' ne.
        let (h, e) = st.found i hi found in
        let (h', e') = st.found j hj found' in omega (arith, e, e', ne);
    free_dir = λ k hk clear.
        let high = free_above mem_size k s.pmm fresh room clear in omega (arith, high, placed.low);
    free_tables = λ k i hk clear hi found.
        let high = free_above mem_size k s.pmm fresh room clear in
        let (h, e) = st.found i hi found in omega (arith, high, e, placed.low);
  }

  walk_agree :
      (m n : Mem) (virt : ℕ)
      → entry pd n (pd_index virt) ≡ entry pd m (pd_index virt)
      → (is_present (entry pd m (pd_index virt)) ≡ true
          → load32 n (frame_of (entry pd m (pd_index virt)) + 4 * pt_index virt)
            ≡ load32 m (frame_of (entry pd m (pd_index virt)) + 4 * pt_index virt))
      → walk pd n virt ≡ walk pd m virt
  walk_agree m n virt same word =
      rw same (elim (Bool-cases (is_present (entry pd m (pd_index virt)))) [
        | inl there ↦ rw there (word there)
        | inr missing ↦ rw missing refl
      ])

  pub walk-first_header :
      (m : Mem) (virt : ℕ) → IsStatic pd tables m → walk pd (first_header m) virt ≡ walk pd m virt
  walk-first_header m virt st =
      walk_agree m (first_header m) virt
        (first_header_outside m (pd + 4 * pd_index virt) (omega (arith, placed.low)))
        (λ there.
          let (h, e) = st.found (pd_index virt) (omega arith) there in
          first_header_outside m _ (omega (arith, e, placed.low)))

  pub IsSeparate-first_header :
      (s : Paging) → IsSeparate pd s → IsSeparate pd (record s { mem = first_header s.mem })
  IsSeparate-first_header s v =
      let same : (i : ℕ) → i < 1024 → entry pd (first_header s.mem) i ≡ entry pd s.mem i =
        λ i hi. first_header_outside s.mem (pd + 4 * i) (omega (arith, placed.low)) in
      record {
        valid = v.valid;
        aligned = v.aligned;
        tables = λ i hi f. rw (same i hi) (v.tables i hi (rw (same i hi) at f));
        apart = λ i j hi hj f g ne.
            rw (same i hi, same j hj)
              (v.apart i j hi hj (rw (same i hi) at f) (rw (same j hj) at g) ne);
        free_dir = v.free_dir;
        free_tables =
            λ k i hk c hi f. rw (same i hi) (v.free_tables k i hk c hi (rw (same i hi) at f));
      }
