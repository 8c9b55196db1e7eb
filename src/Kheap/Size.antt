-- ===== src/Kheap/Size.antt =====
-- src/kheap.c: `ksize` at a block in use, and what a write into the block leaves alone.
use kfs.Base.{
  ℕ, zero, suc, ◌+◌, ◌%◌, ◌≤◌, ◌<◌, ◌≡◌, ◌⊎◌, inl, inr, refl, ap, ◌∙◌, arith, ◌==◌, ==-ne, ltb, leb,
  Bool-cases, false, List, [], ◌∷◌, length,
}
use kfs.Machine.Mem.{Mem, load32}
use kfs.Machine.Word.{add32, sub32}
use kfs.Machine.Outcome.{ok}
use kfs.Kheap.{
  Kheap, header_size, size_at, magic_at, magic_allocated, fuel, walk_list, is_valid_kheap_block,
  ksize,
}
use kfs.Kheap.Blocks.{Block, behind, InUse}
use kfs.Kheap.Chain.{Chain, Chain-le, Chain-agree, Header-agree, IsHeap, start}

-- The walk over the list ends, at the block or at the end of the list.
walk_list-Chain :
    (k : ℕ) (m : Mem) (end a blk : ℕ) (bs : List Block)
    → Chain m end a bs
    → length bs < k
    → walk_list k (start a bs) blk m ≡ ok 1
unfolding walk_list
walk_list-Chain zero m end a blk bs c lt = absurd (omega arith)
walk_list-Chain (suc k) m end a blk [] c lt = refl
walk_list-Chain (suc k) m end a blk (b ∷ bs) (h, c) lt = elim (Bool-cases (a == 0)) [
  | inl null ↦ rw null refl
  | inr there ↦ elim (Bool-cases (a == blk)) [
    | inl found ↦ rw (there, found) refl
    | inr other ↦
        rw (there, other, h.fields.next_field)
          (walk_list-Chain k m end (behind a b) blk bs c (omega arith))
  ]
]

-- what the header of a block in use holds, and where it lies
record Located (m : Mem) (end q n a : ℕ) : Type 0 where
  size : load32 m (size_at q) ≡ n
  magic : load32 m (magic_at q) ≡ magic_allocated
  aligned : q % 8 ≡ 0
  above : a ≤ q
  below : q + header_size + n ≤ end

InUse-Located :
    (m : Mem) (end q n a : ℕ) (bs : List Block)
    → Chain m end a bs
    → InUse q n a bs
    → a % 8 ≡ 0
    → Located m end q n a
InUse-Located m end q n a [] c u al = absurd u
InUse-Located m end q n a (b ∷ bs) (h, c) (inl (at, size, used)) al =
    rw (← at, ← size)
      (record {
        size = h.fields.size_field;
        magic = h.fields.magic_field ∙ h.live used;
        aligned = al;
        above = omega arith;
        below = omega (arith, Chain-le m end (behind a b) bs c);
      })
InUse-Located m end q n a (b ∷ bs) (h, c) (inr u) al =
    let r = InUse-Located m end q n (behind a b) bs c u (omega (arith, al, h.aligned)) in
    record {
      size = r.size;
      magic = r.magic;
      aligned = r.aligned;
      above = omega (arith, r.above);
      below = r.below;
    }

-- On a heap at a multiple of 8, `ksize` at the address behind the header of a block in use that is not
-- empty returns the size of the block.
pub ksize-InUse :
    {h : Kheap} {m : Mem} {bs : List Block} (q n : ℕ)
    → IsHeap h m bs
    → h.heap_base % 8 ≡ 0
    → InUse q n h.heap_base bs
    → 0 < n
    → ksize (q + header_size) h m ≡ ok n
unfolding ksize is_valid_kheap_block
ksize-InUse {h} {m} {bs} q n v al u pos =
    let end = h.heap_base + h.heap_size in
    let r = InUse-Located m end q n h.heap_base bs v.chained u al in
    let back : sub32 (q + header_size) header_size ≡ q = omega (arith, r.below, v.fits) in
    let last : add32 h.heap_base h.heap_size ≡ end = omega (arith, v.fits) in
    let base : (h.heap_base == 0) ≡ false = ==-ne _ _ (omega (arith, v.above)) in
    let given : (q + header_size == 0) ≡ false = ==-ne _ _ (omega arith) in
    let low : ltb (q + header_size) h.heap_base ≡ false = ground (arith, r.above) in
    let high : leb end (q + header_size) ≡ false = ground (arith, r.below) in
    let low' : ltb q h.heap_base ≡ false = ground (arith, r.above) in
    let high' : leb end q ≡ false = ground (arith, r.below) in
    let walked : walk_list (fuel h) h.free_list q m ≡ ok 1 =
      ap (λ t. walk_list (fuel h) t q m) v.listed
      ∙ walk_list-Chain (fuel h) m end h.heap_base q bs v.chained
          (omega (arith, Chain-le m end h.heap_base bs v.chained)) in
    rw (back, last, base, given, low, high, r.magic, low', high', r.aligned, walked, r.size) refl

InUse-above : (q s a : ℕ) (bs : List Block) → InUse q s a bs → a ≤ q
InUse-above q s a [] u = absurd u
InUse-above q s a (b ∷ bs) (inl (at, size, used)) = omega (arith, at)
InUse-above q s a (b ∷ bs) (inr u) = omega (arith, InUse-above q s (behind a b) bs u)

-- A change of the bytes of one block in use leaves all headers as they are.
pub Chain-InUse :
    (m n : Mem) (end a q s : ℕ) (bs : List Block)
    → Chain m end a bs
    → InUse q s a bs
    → ((y : ℕ) → (y < q + header_size) ⊎ (q + header_size + s ≤ y) → n y ≡ m y)
    → Chain n end a bs
Chain-InUse m n end a q s [] c u same = absurd u
Chain-InUse m n end a q s (b ∷ bs) (h, c) (inl (at, size, used)) same = (
  Header-agree n h (λ y l r. same y (omega (arith, at))),
  Chain-agree m n end (behind a b) bs c (λ y l. same y (omega (arith, at, size))),
)
Chain-InUse m n end a q s (b ∷ bs) (h, c) (inr u) same =
    let le = InUse-above q s (behind a b) bs u in
    (
      Header-agree n h (λ y l r. same y (omega arith)),
      Chain-InUse m n end (behind a b) q s bs c u same,
    )
