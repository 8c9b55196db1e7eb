-- ===== src/Kernel/Rehearsal.antt =====
-- src/shell.c: `ktest` as a whole, on the kernel heap.
use kfs.Base.{
  true, false, if◌then◌else◌, Bool, subst, false, ◌-◌, ℕ, ◌+◌, ◌%◌, ◌^◌, ◌≤◌, ◌<◌, ◌≡◌, refl, arith,
  ◌==◌, ==-ne, List, ◌∷◌,
}
use kfs.Machine.Mem.{store32, store32_outside}
use kfs.Machine.Outcome.{ok, ok->>=}
use kfs.Kheap.{header_size, round_up}
use kfs.Kheap.Blocks.{release, coalesce, Block, IsCoalesced, InUse}
use kfs.Kheap.Chain.{IsHeap}
use kfs.Kheap.Malloc.{Malloc, charge, exhausted, granted, kmalloc-first_fit, round_up-lt}
use kfs.Kheap.Free.{kfree-release}
use kfs.Kheap.Policy.{HasRoom, first_fit-none, FirstFit-first_fit, FirstFit-InUse, FirstFit-release}
use kfs.Kheap.Size.{ksize-InUse, Chain-InUse}
use kfs.Shell.{parse_hex_or_dec}
use kfs.Kernel.{Kernel, set_mem}
use kfs.Kernel.Access.{cmd_ktest, ktest_block}

-- The trial at a block of `s` bytes in use at `q` ends with the blocks that `kfree` leaves.
record Tried (q nbytes value : ℕ) (k : Kernel) (bs : List Block) : Type 0 where
  after : Kernel
  returns : ktest_block (q + header_size) nbytes value k ≡ ok after
  heap : IsHeap after.kheap after.paging.mem bs

otherwise : {A : Type 0} (c : Bool) (x y z : A) → c ≡ false → y ≡ z → (if c then x else y) ≡ z
otherwise true x y z h e = absurd (cc)
otherwise false x y z h e = e

ktest_block-Tried :
    (q s nbytes value : ℕ) (k : Kernel) (bs cs : List Block)
    → IsHeap k.kheap k.paging.mem cs
    → k.kheap.heap_base % 8 ≡ 0
    → InUse q s k.kheap.heap_base cs
    → 4 ≤ s
    → coalesce (release q k.kheap.heap_base cs) ≡ bs
    → Tried q nbytes value k bs
unfolding ktest_block
ktest_block-Tried q s nbytes value k bs cs v al u room back =
    let p = q + header_size in
    let m = store32 k.paging.mem p value in
    let kept : IsHeap k.kheap m cs = record {
      above = v.above;
      fits = v.fits;
      listed = v.listed;
      chained =
          Chain-InUse k.paging.mem m _ k.kheap.heap_base q s cs v.chained u
            (λ y o. store32_outside k.paging.mem p value y (omega arith));
    } in
    let size = ksize-InUse q s kept al u (omega arith) in
    let r = kfree-release q s kept u in
    let given : (p == 0) ≡ false = ==-ne p 0 (omega arith) in
    record {
      after = _;
      returns = otherwise _ _ _ _ given (
          ok->>= _ _ _ _ (ok->>= _ _ _ _ size refl)
            (ok->>= _ _ _ _ (ok->>= _ _ _ _ r.returns refl) refl));
      heap = subst (IsHeap _ r.memory) back r.valid;
    }

-- What `ktest` with these arguments does on a heap with the blocks `bs`: it returns, and the heap has
-- the blocks `bs` again.
pub record Rehearsed (argv : List (List ℕ)) (k : Kernel) (bs : List Block) : Type 0 where
  pub after : Kernel
  pub returns : cmd_ktest argv k ≡ ok after
  pub heap : IsHeap after.kheap after.paging.mem bs

-- `ktest` of a size that is not 0 and whose rounding does not wrap, on a heap at a multiple of 8 without
-- two free neighbours that has room for it, returns, and the heap has the same blocks as before.
pub cmd_ktest-Rehearsed :
    (name bytes v : List ℕ) (rest : List (List ℕ)) (k : Kernel) (bs : List Block)
    → IsHeap k.kheap k.paging.mem bs
    → IsCoalesced bs
    → k.kheap.heap_base % 8 ≡ 0
    → 0 < parse_hex_or_dec bytes
    → parse_hex_or_dec bytes < 2 ^ 32 - 7
    → HasRoom (round_up (parse_hex_or_dec bytes)) bs
    → Rehearsed (name ∷ bytes ∷ v ∷ rest) k bs
unfolding cmd_ktest
cmd_ktest-Rehearsed name bytes v rest k bs heap apart al pos small room =
    go (kmalloc-first_fit size heap pos small)
  where
    size : ℕ
    size = parse_hex_or_dec bytes

    go : Malloc size k.kheap k.paging.mem bs → Rehearsed (name ∷ bytes ∷ v ∷ rest) k bs
    go (exhausted none_fit f) =
        absurd (first_fit-none (round_up size) k.kheap.heap_base bs none_fit room)
    go (granted q cs m first f valid owned outside) =
        let fit = FirstFit-first_fit (round_up size) k.kheap.heap_base bs q cs first in
        let (s, u, lo, hi) = FirstFit-InUse (round_up size) k.kheap.heap_base bs q cs fit in
        let back = FirstFit-release (round_up size) k.kheap.heap_base bs q cs fit apart in
        let bounds = round_up-lt size small in
        let eight : round_up size % 8 ≡ 0 = ground arith in
        let k1 = record (set_mem m k) { kheap = charge size k.kheap } in
        let t =
          ktest_block-Tried q s size (parse_hex_or_dec v) k1 bs cs valid al u (omega arith)
            back.0 in
        record {
          after = t.after;
          returns = ok->>= _ _ _ _ (ok->>= _ _ _ _ f refl) t.returns;
          heap = t.heap;
        }
