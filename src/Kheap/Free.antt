-- ===== src/Kheap/Free.antt =====
-- src/kheap.c: `kfree` against `release` and `coalesce` on the list of blocks.
use kfs.Base.{
  ℕ, zero, suc, ◌+◌, ◌^◌, ◌≤◌, ◌<◌, ◌≡◌, refl, sym, ◌∙◌, ap, ◌⊎◌, inl, inr, true, false, List, [],
  ◌∷◌, arith, length, if◌then◌else◌, ◌==◌, ==-ne, ==-refl,
}
use kfs.Machine.Mem.{Mem, load32, load32_agree, store32, store32_outside}
use kfs.Machine.Word.{add32, sub32}
use kfs.Machine.Outcome.{Panic, Outcome, ok, halted}
use kfs.Kheap.{
  Kheap, header_size, magic_allocated, magic_freed, merge_free, kfree, size_at, free_at, magic_at,
  fuel,
}
use kfs.Kheap.Fields.{Fields-store_free, Fields-store_magic}
use kfs.Kheap.Blocks.{Block, free_block, behind, release, coalesce, InUse, Owned}
use kfs.Kheap.Chain.{Header, Chain, Chain-le, Chain-agree, Header-agree, IsHeap, start, Owned-le}
use kfs.Kheap.Merge.{Quiet, merge_free-Merged}

-- the memory after `blk->free = 1; blk->magic = MAGIC_FREED;`
abbrev freed_memory : Mem → ℕ → Mem
freed_memory m q = store32 (store32 m (free_at q) 1) (magic_at q) magic_freed

freed_outside : (m : Mem) (q x : ℕ) → (x < q + 4) ⊎ (q + 12 ≤ x) → freed_memory m q x ≡ m x
freed_outside m q x o =
    store32_outside _ (magic_at q) magic_freed x (omega arith)
    ∙ store32_outside m (free_at q) 1 x (omega arith)

-- the header at `q`, in use, before and after the two stores
record Marked (m : Mem) (end q n a : ℕ) (bs : List Block) : Type 0 where
  size_before : load32 m (size_at q) ≡ n
  magic_before : load32 m (magic_at q) ≡ magic_allocated
  size_after : load32 (freed_memory m q) (size_at q) ≡ n
  magic_after : load32 (freed_memory m q) (magic_at q) ≡ magic_freed
  chained : Chain (freed_memory m q) end a (release q a bs)
  starts : start a (release q a bs) ≡ start a bs
  lengths : length (release q a bs) ≡ length bs
  above : a ≤ q
  below : q + header_size + n ≤ end

InUse-le : (q n a : ℕ) (bs : List Block) → InUse q n a bs → a ≤ q
InUse-le q n a [] u = absurd u
InUse-le q n a (b ∷ bs) (inl u) = omega (arith, u.0)
InUse-le q n a (b ∷ bs) (inr u) = omega (arith, InUse-le q n (behind a b) bs u)

-- Behind `q` nothing is released.
pub release-behind : (q a : ℕ) (bs : List Block) → q < a → release q a bs ≡ bs
unfolding release
release-behind q a [] h = refl
release-behind q a (b ∷ bs) h =
    rw (==-ne a q (omega arith), release-behind q (behind a b) bs (omega arith))

mark_here :
    (m : Mem) (end a : ℕ) (b : Block) (bs : List Block)
    → Header m a b (start (behind a b) bs)
    → Chain m end (behind a b) bs
    → b.free ≡ false
    → Marked m end a b.size a (b ∷ bs)
unfolding release
mark_here m end a b bs h c used =
    let f =
      Fields-store_magic (Fields-store_free h.fields {v = 1} (omega arith)) {v = magic_freed}
        (omega arith) in
    let rest = release-behind a (behind a b) bs (omega arith) in
    record {
      size_before = h.fields.size_field;
      magic_before = h.fields.magic_field ∙ h.live used;
      size_after = f.size_field;
      magic_after = f.magic_field;
      chained =
          rw (==-refl a, rest)
            (
              record {
                magic = magic_freed;
                fields = f;
                live = λ e. absurd (cc);
                aligned = h.aligned;
              },
              Chain-agree m _ end (behind a b) bs c (λ x lo. freed_outside m a x (omega arith)),
            );
      starts = refl;
      lengths = rw rest;
      above = omega arith;
      below = omega (arith, Chain-le m end (behind a b) bs c);
    }

mark :
    (m : Mem) (end q n a : ℕ) (bs : List Block)
    → Chain m end a bs
    → InUse q n a bs
    → Marked m end q n a bs
unfolding release
mark m end q n a [] c u = absurd u
mark m end q n a (b ∷ bs) (h, c) (inl (at, size, used)) =
    rw (← at, ← size) (mark_here m end a b bs h c used)
mark m end q n a (b ∷ bs) (h, c) (inr u) =
    let r = mark m end q n (behind a b) bs c u in
    let le = InUse-le q n (behind a b) bs u in
    record {
      size_before = r.size_before;
      magic_before = r.magic_before;
      size_after = r.size_after;
      magic_after = r.magic_after;
      chained =
          rw (==-ne a q (omega arith), r.starts)
            (
              Header-agree (freed_memory m q) h (λ x lo hi. freed_outside m q x (omega arith)),
              r.chained,
            );
      starts = refl;
      lengths = omega (arith, r.lengths);
      above = omega arith;
      below = r.below;
    }

Owned-Quiet : (x a : ℕ) (bs : List Block) → Owned x a bs → Quiet x a bs
Owned-Quiet x a [] o = o
Owned-Quiet x a (b ∷ bs) (inl o) = inl (inr (o.1, o.2))
Owned-Quiet x a (b ∷ bs) (inr o) = inr (Owned-Quiet x (behind a b) bs o)

behind-release :
    (a q : ℕ) (b : Block) → behind a (if a == q then free_block b.size else b) ≡ behind a b
behind-release a q b = ground arith

-- The marks do not touch the bytes of the blocks that stay in use.
Owned-release :
    (x q n a : ℕ) (bs : List Block)
    → InUse q n a bs
    → Owned x a (release q a bs)
    → (x < q + 4) ⊎ (q + 12 ≤ x)
unfolding release
Owned-release x q n a [] u o = absurd u
Owned-release x q n a (b ∷ bs) (inl (at, size, used)) o =
    let e : (a == q) ≡ true = ground arith in
    let o' : Owned x a (free_block b.size ∷ release q (behind a b) bs) = rw e at o in
    elim o' [
      | inl mine ↦ absurd (cc (mine.0))
      | inr rest ↦ inr (omega (arith, Owned-le x (behind a b) (release q (behind a b) bs) rest))
    ]
Owned-release x q n a (b ∷ bs) (inr u) o =
    let le = InUse-le q n (behind a b) bs u in
    let o' : Owned x a (b ∷ release q (behind a b) bs) = rw (==-ne a q (omega (arith, le))) at o in
    elim o' [
      | inl mine ↦ inl (omega (arith, le, mine.2))
      | inr rest ↦ Owned-release x q n (behind a b) bs u rest
    ]

-- nor does the loop touch the magic word at `q`
Quiet-magic :
    (x q n a : ℕ) (bs : List Block)
    → InUse q n a bs
    → q + 8 ≤ x
    → x < q + 12
    → Quiet x a (release q a bs)
unfolding release
Quiet-magic x q n a [] u lo hi = absurd u
Quiet-magic x q n a (b ∷ bs) (inl (at, size, used)) lo hi = inl (inl (omega arith, omega arith))
Quiet-magic x q n a (b ∷ bs) (inr u) lo hi =
    inr (rw behind-release (Quiet-magic x q n (behind a b) bs u lo hi))

-- The loop started at the list's head, the empty list included.
record MergedList (m : Mem) (end a : ℕ) (bs : List Block) (r : Outcome Mem) : Type 0 where
  memory : Mem
  returns : r ≡ ok memory
  chained : Chain memory end a (coalesce bs)
  starts : start a (coalesce bs) ≡ start a bs
  outside : (x : ℕ) → (x < a) ⊎ (end ≤ x) → memory x ≡ m x
  quiet : (x : ℕ) → Quiet x a bs → memory x ≡ m x

merge_list :
    (k : ℕ) (m : Mem) (end a : ℕ) (bs : List Block)
    → end < 2 ^ 32
    → Chain m end a bs
    → header_size ≤ a
    → length bs < k
    → MergedList m end a bs (merge_free k (start a bs) m)
unfolding coalesce merge_free
merge_list zero m end a bs bound c above enough = absurd (omega arith)
merge_list (suc k) m end a [] bound c above enough = record {
  memory = m;
  returns = refl;
  chained = c;
  starts = refl;
  outside = λ x o. refl;
  quiet = λ x q. refl;
}
merge_list (suc k) m end a (b ∷ bs) bound c above enough =
    let r = merge_free-Merged end bound (suc k) m a b bs c above (omega arith) in
    record {
      memory = r.memory;
      returns = r.returns;
      chained = r.chained;
      starts = r.starts;
      outside = λ x o. elim o [ inl lo ↦ r.below x lo | inr hi ↦ r.above x hi ];
      quiet = r.quiet;
    }

-- the heap after a successful `kfree` of a block of `n` bytes
abbrev pub discharge : ℕ → Kheap → Kheap
discharge n h = record h { heap_used = sub32 h.heap_used (n + header_size) }

-- What `kfree` does at a block of `n` bytes in use whose header is at `q`: the heap then holds the
-- blocks with that one released and free neighbours joined.
pub record Free (q n : ℕ) (h : Kheap) (m : Mem) (bs : List Block) : Type 0 where
  pub memory : Mem
  pub returns : kfree (q + header_size) h m ≡ ok (discharge n h, memory)
  pub valid : IsHeap (discharge n h) memory (coalesce (release q h.heap_base bs))
  pub owned : (x : ℕ) → Owned x h.heap_base (release q h.heap_base bs) → memory x ≡ m x
  pub outside : (x : ℕ) → (x < h.heap_base) ⊎ (h.heap_base + h.heap_size ≤ x) → memory x ≡ m x
  pub again :
      (g : Kheap)
      → kfree (q + header_size) g memory ≡ halted (Panic.kfree_double_free (q + header_size))

double_free :
    (q : ℕ) (h : Kheap) (m : Mem)
    → q + header_size < 2 ^ 32
    → load32 m (magic_at q) ≡ magic_freed
    → kfree (q + header_size) h m ≡ halted (Panic.kfree_double_free (q + header_size))
unfolding kfree
double_free q h m small e =
    let back : sub32 (q + header_size) header_size ≡ q = omega arith in
    rw (back, e, ==-ne (q + header_size) 0 (omega arith))

kfree_returns :
    (q n : ℕ) (h : Kheap) (m m' : Mem)
    → q + header_size + n < 2 ^ 32
    → load32 m (magic_at q) ≡ magic_allocated
    → load32 (freed_memory m q) (size_at q) ≡ n
    → merge_free (fuel h) h.free_list (freed_memory m q) ≡ ok m'
    → kfree (q + header_size) h m
      ≡ ok (record h { heap_used = sub32 h.heap_used (n + header_size) }, m')
unfolding kfree
kfree_returns q n h m m' small magic size merged =
    let back : sub32 (q + header_size) header_size ≡ q = omega arith in
    let charge : add32 n header_size ≡ n + header_size = omega arith in
    rw (back, magic, ==-ne (q + header_size) 0 (omega arith), merged, size)
      (ap (λ t. ok (record h { heap_used = sub32 h.heap_used t }, m')) charge)

-- Freeing a block in use succeeds, releases exactly that block, and joins free neighbours; the bytes
-- of the other blocks in use stay as they are, and a second call at the address panics.
pub kfree-release :
    {h : Kheap} {m : Mem} {bs : List Block} (q n : ℕ)
    → IsHeap h m bs
    → InUse q n h.heap_base bs
    → Free q n h m bs
kfree-release {h} {m} {bs} q n v u =
    let end = h.heap_base + h.heap_size in
    let k = mark m end q n h.heap_base bs v.chained u in
    let rs = release q h.heap_base bs in
    let r =
      merge_list (fuel h) (freed_memory m q) end h.heap_base rs v.fits k.chained v.above
        (omega (arith, Chain-le m end h.heap_base bs v.chained, k.lengths)) in
    let listed : h.free_list ≡ start h.heap_base rs = v.listed ∙ sym k.starts in
    let merged : merge_free (fuel h) h.free_list (freed_memory m q) ≡ ok r.memory =
      ap (λ t. merge_free (fuel h) t (freed_memory m q)) listed ∙ r.returns in
    let magic_kept : load32 r.memory (magic_at q) ≡ magic_freed =
      load32_agree (freed_memory m q) r.memory (magic_at q)
        (λ x lo hi. r.quiet x (Quiet-magic x q n h.heap_base bs u lo (omega arith)))
      ∙ k.magic_after in
    record {
      memory = r.memory;
      returns =
          kfree_returns q n h m r.memory (omega (arith, k.below, v.fits)) k.magic_before
            k.size_after merged;
      valid = record {
        above = v.above;
        fits = v.fits;
        listed = listed ∙ sym r.starts;
        chained = r.chained;
      };
      owned = λ x o.
          r.quiet x (Owned-Quiet x h.heap_base rs o)
          ∙ freed_outside m q x (Owned-release x q n h.heap_base bs u o);
      outside = λ x o. r.outside x o ∙ freed_outside m q x (omega (arith, k.above, k.below, o));
      again = λ g. double_free q g r.memory (omega (arith, k.below, v.fits)) magic_kept;
    }
