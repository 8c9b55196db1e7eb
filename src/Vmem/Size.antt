-- ===== src/Vmem/Size.antt =====
-- src/vmem.c: `vsize` of what `vmalloc` returns, in new pages and in a block that was split off.
use kfs.Base.{
  ℕ, suc, ◌+◌, ◌-◌, ◌/◌, ◌%◌, ◌^◌, ◌≤◌, ◌<◌, ◌≡◌, ◌≢◌, refl, ap, ◌∙◌, inl, inr, arith, true, false,
  ◌==◌, ==-ne, ltb, leb, Bool-cases, ◌||◌,
}
use kfs.Machine.Mem.{Mem, load32, store32, load32-store32, load32-store32_ne}
use kfs.Machine.Outcome.{ok}
use kfs.Paging.{Paging}
use kfs.Vmem.{
  Vmem, block_size, block_size_at, block_free_at, block_magic_at, block_next_at,
  vmem_magic_allocated, vmem_split, vmem_claim, vmem_find, vmem_round, vmem_fuel, vsize, vmalloc,
  is_valid_allocated_block, kvmem_start,
}

-- What splitting a block of `total` bytes at `a` for `n` bytes writes.
record Split (a n total : ℕ) (m : Mem) : Type 0 where
  used : load32 (vmem_claim a n m) (block_free_at a) ≡ 0
  next : load32 (vmem_claim a n m) (block_next_at a) ≡ a + block_size + n
  rest_size :
      load32 (vmem_claim a n m) (block_size_at (a + block_size + n)) ≡ total - n - block_size
  rest_free : load32 (vmem_claim a n m) (block_free_at (a + block_size + n)) ≡ 1

-- the stores of a claim that splits
abbrev split_stores : ℕ → ℕ → ℕ → ℕ → Mem → Mem
split_stores a n left next m =
    let b : ℕ = a + 20 + n in
    let m2 : Mem = store32 (store32 m b left) (b + 8) 1 in
    let m4 : Mem = store32 (store32 m2 (b + 16) next) a n in
    store32 (store32 (store32 m4 (a + 16) b) (a + 8) 0) (a + 12) vmem_magic_allocated

module _ (a n left next : ℕ) (m : Mem) (bound : a + 20 + n < 2 ^ 32) (small : left < 2 ^ 32) where
  split_stores-used : load32 (split_stores a n left next m) (a + 8) ≡ 0
  split_stores-used =
      load32-store32_ne _ (a + 12) vmem_magic_allocated (a + 8) (omega arith)
      ∙ load32-store32 _ (a + 8) 0 (omega arith)

  split_stores-next : load32 (split_stores a n left next m) (a + 16) ≡ a + 20 + n
  split_stores-next =
      load32-store32_ne _ (a + 12) vmem_magic_allocated (a + 16) (omega arith)
      ∙ load32-store32_ne _ (a + 8) 0 (a + 16) (omega arith)
      ∙ load32-store32 _ (a + 16) (a + 20 + n) bound

  -- a word behind the first header
  split_stores-behind :
      (x : ℕ)
      → a + 20 ≤ x
      → load32 (split_stores a n left next m) x
        ≡ load32
            (store32
              (store32 (store32 m (a + 20 + n) left) (a + 20 + n + 8) 1)
              (a + 20 + n + 16)
              next)
            x
  split_stores-behind x h =
      load32-store32_ne _ (a + 12) vmem_magic_allocated x (omega arith)
      ∙ load32-store32_ne _ (a + 8) 0 x (omega arith)
      ∙ load32-store32_ne _ (a + 16) (a + 20 + n) x (omega arith)
      ∙ load32-store32_ne _ a n x (omega arith)

  split_stores-rest_size : load32 (split_stores a n left next m) (a + 20 + n) ≡ left
  split_stores-rest_size =
      split_stores-behind (a + 20 + n) (omega arith)
      ∙ load32-store32_ne _ (a + 20 + n + 16) next (a + 20 + n) (omega arith)
      ∙ load32-store32_ne _ (a + 20 + n + 8) 1 (a + 20 + n) (omega arith)
      ∙ load32-store32 m (a + 20 + n) left small

  split_stores-rest_free : load32 (split_stores a n left next m) (a + 20 + n + 8) ≡ 1
  split_stores-rest_free =
      split_stores-behind (a + 20 + n + 8) (omega arith)
      ∙ load32-store32_ne _ (a + 20 + n + 16) next (a + 20 + n + 8) (omega arith)
      ∙ load32-store32 _ (a + 20 + n + 8) 1 (omega arith)

-- what the new header points to
abbrev split_next : ℕ → ℕ → ℕ → Mem → ℕ
split_next a n total m =
    load32 (store32 (store32 m (a + 20 + n) (total - n - 20)) (a + 20 + n + 8) 1) (a + 16)

vmem_claim-stores :
    (a n total : ℕ) (m : Mem)
    → load32 m a ≡ total
    → n + 36 ≤ total
    → a + 20 + total < 2 ^ 32
    → vmem_claim a n m ≡ split_stores a n (total - n - 20) (split_next a n total m) m
unfolding vmem_claim vmem_split
vmem_claim-stores a n total m size room bound =
    let guard : leb (((n + 20) % 2 ^ 32 + 16) % 2 ^ 32) total ≡ true = ground arith in
    let at : ((a + 20) % 2 ^ 32 + n) % 2 ^ 32 ≡ a + 20 + n = omega arith in
    let left : ((total + 2 ^ 32 - n % 2 ^ 32) % 2 ^ 32 + 2 ^ 32 - 20) % 2 ^ 32 ≡ total - n - 20 =
      omega arith in
    rw (size, guard, at, left) refl

vmem_claim-Split :
    (a n total : ℕ) (m : Mem)
    → load32 m (block_size_at a) ≡ total
    → n + block_size + 16 ≤ total
    → a + block_size + total < 2 ^ 32
    → Split a n total m
vmem_claim-Split a n total m size room bound =
    let next : ℕ = split_next a n total m in
    let e = vmem_claim-stores a n total m size (omega arith) bound in
    let left : ℕ = total - n - 20 in
    let word = λ (x : ℕ). ap (λ (t : Mem). load32 t x) e in
    record {
      used = word (a + 8) ∙ split_stores-used a n left next m (omega arith) (omega arith);
      next = word (a + 16) ∙ split_stores-next a n left next m (omega arith) (omega arith);
      rest_size =
          word (a + 20 + n) ∙ split_stores-rest_size a n left next m (omega arith) (omega arith);
      rest_free =
          word (a + 20 + n + 8)
          ∙ split_stores-rest_free a n left next m (omega arith) (omega arith);
    }

-- any claim marks the block as allocated
vmem_claim-magic :
    (a n : ℕ) (m : Mem) → load32 (vmem_claim a n m) (block_magic_at a) ≡ vmem_magic_allocated
unfolding vmem_claim
vmem_claim-magic a n m = load32-store32 _ (block_magic_at a) vmem_magic_allocated (omega arith)

-- `vsize` of an address behind a header that does not lie at a multiple of 8 is 0.
vsize_misaligned :
    (a : ℕ) (v : Vmem) (m : Mem) → a + 20 < 2 ^ 32 → a % 8 ≢ 0 → vsize (a + 20) v m ≡ ok 0
unfolding vsize is_valid_allocated_block
vsize_misaligned a v m h odd =
    let nonnull : (a + 20 == 0) ≡ false = ==-ne (a + 20) 0 (omega arith) in
    let at : (a + 20 + 2 ^ 32 - 20) % 2 ^ 32 ≡ a = omega arith in
    let askew : (a % 8 == 0) ≡ false = ==-ne (a % 8) 0 odd in
    elim (Bool-cases (ltb (a + 20) kvmem_start || leb v.vmem_current (a + 20))) [
      | inl out ↦ rw (nonnull, out) refl
      | inr inside ↦ elim (Bool-cases (load32 m (a + 12) == vmem_magic_allocated)) [
        | inr foreign ↦ rw (nonnull, inside, at, foreign) refl
        | inl live ↦ elim (Bool-cases (ltb a kvmem_start || leb v.vmem_current a)) [
          | inl below ↦ rw (nonnull, inside, at, live, below) refl
          | inr among ↦ rw (nonnull, inside, at, live, among, askew) refl
        ]
      ]
    ]

module _ (k prev a n : ℕ) (m : Mem) (nz : 0 < a) where
  vmem_find_here :
      load32 m (a + 8) ≡ 1
      → n ≤ load32 m a
      → vmem_find (suc k) prev a n m ≡ ok (inl (a, vmem_claim a n m))
  unfolding vmem_find
  vmem_find_here free room =
      let e : leb n (load32 m a) ≡ true = ground arith in rw (==-ne a 0 (omega arith), free, e) refl

  vmem_find_past :
      load32 m (a + 8) ≡ 0 → vmem_find (suc k) prev a n m ≡ vmem_find k a (load32 m (a + 16)) n m
  unfolding vmem_find
  vmem_find_past used = rw (==-ne a 0 (omega arith), used) refl

vmalloc_found :
    (pd size q : ℕ) (v : Vmem) (s : Paging) (m : Mem)
    → 0 < size
    → q + 20 < 2 ^ 32
    → vmem_find (vmem_fuel v) 0 v.vmem_list (vmem_round size) s.mem ≡ ok (inl (q, m))
    → vmalloc pd size v s ≡ ok (q + 20, v, record s { mem = m })
unfolding vmalloc
vmalloc_found pd size q v s m pos bound e =
    let at : (q + 20) % 2 ^ 32 ≡ q + 20 = omega arith in rw (==-ne size 0 (omega arith), e, at) refl

-- A request that splits the first block of the list, and a second one that takes what was left.
pub record TwoBlocks (pd size size' a : ℕ) (v : Vmem) (s : Paging) : Type 0 where
  pub first : Paging
  pub second : Paging
  pub first_returns : vmalloc pd size v s ≡ ok (a + 20, v, first)
  pub second_returns : vmalloc pd size' v first ≡ ok (a + 20 + vmem_round size + 20, v, second)
  pub in_use : load32 second.mem (block_magic_at (a + 20 + vmem_round size)) ≡ vmem_magic_allocated
  pub size_zero : vsize (a + 20 + vmem_round size + 20) v second.mem ≡ ok 0

-- Where the first block of the list is free, has its header at a multiple of 8 and is large enough to
-- be split for a first request, and the rest has room for a second one, both calls of `vmalloc`
-- succeed. The second block is then marked as allocated, and yet `vsize` of its address is 0: its
-- header does not lie at a multiple of 8.
pub vmalloc-TwoBlocks :
    (pd size size' a total : ℕ) (v : Vmem) (s : Paging)
    → 0 < size
    → 0 < size'
    → size < 2 ^ 31
    → size' < 2 ^ 31
    → v.vmem_list ≡ a
    → 0 < a
    → a % 8 ≡ 0
    → a + 20 + total < 2 ^ 31
    → load32 s.mem (block_size_at a) ≡ total
    → load32 s.mem (block_free_at a) ≡ 1
    → vmem_round size + block_size + 16 ≤ total
    → vmem_round size' ≤ total - vmem_round size - block_size
    → 20 ≤ v.vmem_size
    → TwoBlocks pd size size' a v s
vmalloc-TwoBlocks pd size size' a total v s pos pos' small small' listed nz aligned bound t f room
      room' fuel =
    let n : ℕ = vmem_round size in
    let n' : ℕ = vmem_round size' in
    let b : ℕ = a + 20 + n in
    let m : Mem = vmem_claim a n s.mem in
    let sp = vmem_claim-Split a n total s.mem t room (omega arith) in
    let k : ℕ = v.vmem_size / 20 - 1 in
    let rounds : vmem_fuel v ≡ suc (suc k) = omega arith in
    let found : vmem_find (vmem_fuel v) 0 v.vmem_list n s.mem ≡ ok (inl (a, m)) =
      rw (rounds, listed) (vmem_find_here (suc k) 0 a n s.mem nz f (omega (arith, t))) in
    let found' : vmem_find (vmem_fuel v) 0 v.vmem_list n' m ≡ ok (inl (b, vmem_claim b n' m)) =
      rw (rounds, listed)
        (vmem_find_past (suc k) 0 a n' m nz sp.used
          ∙ ap (λ (p : ℕ). vmem_find (suc k) a p n' m) sp.next
          ∙ vmem_find_here k a b n' m (omega arith) sp.rest_free (omega (arith, sp.rest_size))) in
    let even : n % 8 ≡ 0 = ground arith in
    record {
      first = record s { mem = m };
      second = record s { mem = vmem_claim b n' m };
      first_returns = vmalloc_found pd size a v s m pos (omega arith) found;
      second_returns =
          vmalloc_found pd size' b v (record s { mem = m }) (vmem_claim b n' m) pos' (omega arith)
            found';
      in_use = vmem_claim-magic b n' m;
      size_zero = vsize_misaligned b v (vmem_claim b n' m) (omega arith) (omega arith);
    }
