-- ===== src/Paging/Start.antt =====
-- src/paging.c: what `paging_init` leaves in the directory and in the static tables.
use kfs.Base.{ℕ, ◌+◌, ◌*◌, ◌%◌, ◌^◌, ◌≤◌, ◌<◌, ◌≡◌, ◌≢◌, ap, ◌∙◌, ◌⊎◌, arith, true, bit_or}
use native.Mathlib.Decide.{ℕ_discrete, dec_lt}
use kfs.Machine.Mem.{Mem, load32, load32-store32, load32-store32_ne, load32_agree}
use kfs.Paging.{
  Paging, page_present, page_write, page_size, frame_of, pd_index, pt_index, is_present, fill_words,
  identity_entry, init_table, paging_init,
}
use kfs.Paging.Entry.{kernel_entry-fields}
use kfs.Paging.Fill.{fill_words_outside, load32-fill_words}
use kfs.Paging.Map.{entry, walk}

-- Where the linker may put the directory and the tables: whole frames of their own, below the heap.
pub record IsPlaced (pd tables : ℕ) : Type 0 where
  pub directory : pd % 2 ^ 12 ≡ 0
  pub aligned : tables % 2 ^ 12 ≡ 0
  pub apart : (pd + 4096 ≤ tables) ⊎ (tables + 3 * 4096 ≤ pd)
  pub low : (pd + 4096 ≤ 0x0020_0000) × (tables + 3 * 4096 ≤ 0x0020_0000)

-- the frame of static table `t`, and the directory's entry for it
abbrev pub table_at : ℕ → ℕ → ℕ
table_at tables t = tables + 4096 * t

abbrev pub directory_entry : ℕ → ℕ → ℕ
directory_entry tables t = bit_or (bit_or (table_at tables t) page_present) page_write

load32-fill_words_ne :
    (left table : ℕ) (value : ℕ → ℕ) (m : Mem) (a : ℕ)
    → (a + 4 ≤ table) ⊎ (table + 4 * left ≤ a)
    → load32 (fill_words left 0 table value m) a ≡ load32 m a
load32-fill_words_ne left table value m a o =
    load32_agree m _ a (λ x lo hi. fill_words_outside left 0 table value m x (omega arith))

module _ (pd tables : ℕ) (placed : IsPlaced pd tables) where
  -- the state of the tables after `n` rounds
  pub record Rounds (n : ℕ) (m : Mem) : Type 0 where
    pub present : (t : ℕ) → t < n → entry pd m t ≡ directory_entry tables t
    pub absent : (i : ℕ) → n ≤ i → i < 1024 → entry pd m i ≡ 0
    pub words :
        (t j : ℕ) → t < n → j < 1024 → load32 m (table_at tables t + 4 * j) ≡ identity_entry t j

  identity-fields :
      (t j : ℕ)
      → t < 3
      → j < 1024
      → (frame_of (identity_entry t j) ≡ (t * 1024 + j) * page_size)
        × (is_present (identity_entry t j) ≡ true)
        × (identity_entry t j < 2 ^ 32)
  identity-fields t j ht hj =
      let (frame, there, small) =
        kernel_entry-fields (frame_of ((t * 1024 + j) * page_size)) (omega arith) (omega arith) in
      (frame ∙ omega arith, there, small)

  directory-fields :
      (t : ℕ)
      → t < 3
      → (frame_of (directory_entry tables t) ≡ table_at tables t)
        × (is_present (directory_entry tables t) ≡ true)
        × (directory_entry tables t < 2 ^ 32)
  directory-fields t ht =
      kernel_entry-fields (table_at tables t) (omega (arith, placed.aligned))
        (omega (arith, placed.low))

  Rounds-clear : (m : Mem) → Rounds 0 (fill_words 1024 0 pd (λ i. 0) m)
  Rounds-clear m = record {
    present = λ t h. absurd (omega arith);
    absent = λ i lo hi. load32-fill_words 1024 0 pd (λ i. 0) m i lo hi (omega arith);
    words = λ t j h. absurd (omega arith);
  }

  Rounds-init_table :
      (n : ℕ) (m : Mem) → n < 3 → Rounds n m → Rounds (n + 1) (init_table pd tables n m)
  unfolding init_table
  Rounds-init_table n m hn r =
      let filled = fill_words 1024 0 (table_at tables n) (identity_entry n) m in
      let v = directory_entry tables n in
      let kept : (i : ℕ) → i < 1024 → i ≢ n → entry pd (init_table pd tables n m) i ≡ entry pd m i =
        λ i hi ne.
          load32-store32_ne filled (pd + 4 * n) v (pd + 4 * i) (omega arith)
          ∙ load32-fill_words_ne 1024 (table_at tables n) (identity_entry n) m (pd + 4 * i)
              (omega (arith, placed.apart)) in
      let word : (t j : ℕ)
          → t < 3
          → j < 1024
          → load32 (init_table pd tables n m) (table_at tables t + 4 * j)
            ≡ load32 filled (table_at tables t + 4 * j) =
        λ t j ht hj.
          load32-store32_ne filled (pd + 4 * n) v (table_at tables t + 4 * j)
            (omega (arith, placed.apart)) in
      record {
        present = λ t h. elim (ℕ_discrete t n) [
          | yes e ↦ rw e (load32-store32 filled (pd + 4 * n) v (directory-fields n hn).2)
          | no ne ↦ kept t (omega arith) ne ∙ r.present t (omega arith)
        ];
        absent = λ i lo hi. kept i hi (omega arith) ∙ r.absent i (omega arith) hi;
        words = λ t j h hj. word t j (omega arith) hj ∙ (elim (ℕ_discrete t n) [
          | yes e ↦ rw e (
              load32-fill_words 1024 0 (table_at tables n) (identity_entry n) m j (omega arith) hj
                (identity-fields n j hn hj).2)
          | no ne ↦
              load32-fill_words_ne 1024 (table_at tables n) (identity_entry n) m
                (table_at tables t + 4 * j) (omega arith)
              ∙ r.words t j (omega arith) hj
        ]);
      }

  pub paging_init-Rounds : (s : Paging) → Rounds 3 (paging_init pd tables s).mem
  unfolding paging_init
  paging_init-Rounds s = Rounds-init_table 2 _ (omega arith) (
      Rounds-init_table 1 _ (omega arith)
        (Rounds-init_table 0 _ (omega arith) (Rounds-clear s.mem)))

  pub static-present : (m : Mem) (i : ℕ) → Rounds 3 m → i < 3 → is_present (entry pd m i) ≡ true
  static-present m i r h = ap is_present (r.present i h) ∙ (directory-fields i h).1

  -- A table that is present is one of the three.
  pub present-static :
      (m : Mem) (i : ℕ)
      → Rounds 3 m
      → i < 1024
      → is_present (entry pd m i) ≡ true
      → (i < 3) × (frame_of (entry pd m i) ≡ table_at tables i)
  present-static m i r hi found = elim (dec_lt i 3) [
    | yes h ↦ (h, ap frame_of (r.present i h) ∙ (directory-fields i h).0)
    | no beyond ↦ absurd (cc (rw (r.absent i (omega arith) hi) at found))
  ]

  -- The first 12 MB are mapped to themselves.
  pub walk-identity :
      (m : Mem) (virt : ℕ)
      → Rounds 3 m
      → virt < 3 * 2 ^ 22
      → walk pd m virt ≡ identity_entry (pd_index virt) (pt_index virt)
  walk-identity m virt r h =
      let i = pd_index virt in
      let hi : i < 3 = omega arith in
      let (frame, there, small) = directory-fields i hi in
      rw (r.present i hi, there, frame) (r.words i (pt_index virt) hi (omega arith))

  pub identity-frame :
      (virt : ℕ)
      → virt < 3 * 2 ^ 22
      → (frame_of (identity_entry (pd_index virt) (pt_index virt)) ≡ frame_of virt)
        × (is_present (identity_entry (pd_index virt) (pt_index virt)) ≡ true)
  identity-frame virt h =
      let (frame, there, small) =
        identity-fields (pd_index virt) (pt_index virt) (omega arith) (omega arith) in
      (frame ∙ omega arith, there)
