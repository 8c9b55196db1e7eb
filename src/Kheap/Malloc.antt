-- ===== src/Kheap/Malloc.antt =====
-- src/kheap.c: `kmalloc` against `first_fit` on the list of blocks.
use kfs.Base.{
  sym, ◌∙◌, ◌⊎◌, ◌+◌, ◌-◌, ℕ, zero, suc, ◌%◌, ◌^◌, ◌≤◌, ◌<◌, ◌≡◌, refl, inl, inr, true, false, List,
  [], ◌∷◌, arith, length, ◌==◌, ==-ne, Bool-cases, Option, none, some,
}
use kfs.Machine.Mem.{Mem}
use kfs.Machine.Outcome.{Outcome, ok}
use kfs.Kheap.{
  fuel, add32, Panic, halted, kmalloc, round_up, Kheap, header_size, is_free, claim_block, find_fit,
}
use kfs.Kheap.Blocks.{Block, behind, cut, fits, first_fit, Owned}
use kfs.Kheap.Chain.{IsHeap, Header, Chain, Chain-le, Header-agree, start, Owned-le}
use kfs.Kheap.Claim.{claim_block-Claimed}

-- the pointer to a list of blocks is below its end
pub start-lt :
    (m : Mem) (end a : ℕ) (bs : List Block) → Chain m end a bs → end < 2 ^ 32 → start a bs < 2 ^ 32
start-lt m end a [] c h = omega arith
start-lt m end a (b ∷ bs) (hd, c) h = omega (arith, Chain-le m end (behind a b) bs c)

pub is_free-eq : {m : Mem} {a next : ℕ} (b : Block) → Header m a b next → is_free m a ≡ b.free
is_free-eq b h = rw h.fields.free_field (ground arith)

start-cut : (a n : ℕ) (b : Block) (bs : List Block) → start a (cut n b bs) ≡ start a (b ∷ bs)
start-cut a n b bs = ground arith

-- What a search for `n` bytes in the blocks `bs` at `a` finds and leaves in memory.
data Fitting (m : Mem) (end a n : ℕ) (bs : List Block) (r : Outcome (Option (ℕ × Mem)))
    : Type 0 where
  no_fit : first_fit n a bs ≡ none → r ≡ ok none → Fitting m end a n bs r
  fit :
      (q : ℕ) (cs : List Block) (m' : Mem)
      → first_fit n a bs ≡ some (q, cs)
      → r ≡ ok (some (q, m'))
      → Chain m' end a cs
      → start a cs ≡ start a bs
      → a ≤ q
      → q + header_size + n ≤ end
      → ((x : ℕ) → x < a → m' x ≡ m x)
      → ((x : ℕ) → end ≤ x → m' x ≡ m x)
      → ((x : ℕ) → Owned x a bs → m' x ≡ m x)
      → Fitting m end a n bs r

module _ (n end : ℕ) (even : n % 8 ≡ 0) (bound : end < 2 ^ 32) where
  find_fit-head :
      (m : Mem) (a : ℕ) (b : Block) (bs : List Block) (r : Outcome (Option (ℕ × Mem)))
      → Chain m end a (b ∷ bs)
      → header_size ≤ a
      → fits n b ≡ true
      → r ≡ ok (some (a, claim_block a n m))
      → Fitting m end a n (b ∷ bs) r
  unfolding first_fit
  find_fit-head m a b bs r (h, c) above ok_fit e =
      let le = Chain-le m end (behind a b) bs c in
      let free : b.free ≡ true = ground arith in
      let room : n ≤ b.size = ground arith in
      let claimed =
        claim_block-Claimed end n b bs _ refl h c free above (omega (arith, le, bound))
          (start-lt m end (behind a b) bs c bound) even (ground arith) in
      fit a (cut n b bs) (claim_block a n m) (rw ok_fit) e claimed.chained (start-cut a n b bs)
        (omega arith) (omega (arith, le)) (λ x lo. claimed.outside x (inl lo))
        (λ x lo. claimed.outside x (inr (omega (arith, le))))
        (λ x o. elim o [
          | inl mine ↦ absurd (ground (arith, mine.0))
          | inr rest ↦ claimed.outside x (inr (omega (arith, Owned-le x (behind a b) bs rest)))
        ])

  find_fit-skip :
      (m : Mem) (a : ℕ) (b : Block) (bs : List Block) (r : Outcome (Option (ℕ × Mem)))
      → Header m a b (start (behind a b) bs)
      → fits n b ≡ false
      → Fitting m end (behind a b) n bs r
      → Fitting m end a n (b ∷ bs) r
  unfolding first_fit
  find_fit-skip m a b bs r h no_room (no_fit e f) = no_fit (rw (no_room, e)) f
  find_fit-skip m a b bs r h no_room (fit q cs m' e f c linked lo hi below above owned) =
      fit q (b ∷ cs) m' (rw (no_room, e)) f
        (Header-agree m' (rw linked h) (λ x p s. below x (omega arith)), c) refl (omega arith) hi
        (λ x p. below x (omega arith)) above
        (λ x o. elim o [ inl mine ↦ below x (mine.2) | inr rest ↦ owned x rest ])

  find_fit-Fitting :
      (k : ℕ) (m : Mem) (a : ℕ) (bs : List Block)
      → Chain m end a bs
      → header_size ≤ a
      → length bs < k
      → Fitting m end a n bs (find_fit k (start a bs) n m)
  unfolding find_fit first_fit
  find_fit-Fitting zero m a bs c above enough = absurd (omega arith)
  find_fit-Fitting (suc k) m a [] c above enough = no_fit refl refl
  find_fit-Fitting (suc k) m a (b ∷ bs) (h, c) above enough =
      let nonnull : (a == 0) ≡ false = ==-ne a 0 (omega arith) in
      elim (Bool-cases (fits n b)) [
        | inl ok_fit ↦
            find_fit-head m a b bs _ (h, c) above ok_fit
              (rw (nonnull, is_free-eq b h, h.fields.size_field, ok_fit))
        | inr no_room ↦ find_fit-skip m a b bs _ h no_room (
            rw (nonnull, is_free-eq b h, h.fields.size_field, no_room, h.fields.next_field)
              (find_fit-Fitting k m (behind a b) bs c (omega arith) (omega arith)))
      ]

-- the heap after a successful `kmalloc`
abbrev pub charge : ℕ → Kheap → Kheap
charge size h = record h { heap_used = add32 h.heap_used (round_up size + header_size) }

-- `kmalloc` for `size` bytes on a heap that holds the blocks `bs`: it panics, or it hands out the
-- bytes behind a header and leaves a heap that holds the blocks `cs`.
pub data Malloc (size : ℕ) (h : Kheap) (m : Mem) (bs : List Block) : Type 0 where
  exhausted :
      first_fit (round_up size) h.heap_base bs ≡ none
      → kmalloc size h m ≡ halted (Panic.kmalloc_out_of_memory (round_up size))
      → Malloc size h m bs
  granted :
      (q : ℕ) (cs : List Block) (m' : Mem)
      → first_fit (round_up size) h.heap_base bs ≡ some (q, cs)
      → kmalloc size h m ≡ ok (q + header_size, charge size h, m')
      → IsHeap (charge size h) m' cs
      → ((x : ℕ) → Owned x h.heap_base bs → m' x ≡ m x)
      → ((x : ℕ) → (x < h.heap_base) ⊎ (h.heap_base + h.heap_size ≤ x) → m' x ≡ m x)
      → Malloc size h m bs

round_up_even : (size : ℕ) → round_up size % 8 ≡ 0
round_up_even size = ground arith

pub round_up-lt :
    (size : ℕ) → size < 2 ^ 32 - 7 → (size ≤ round_up size) × (round_up size < size + 8)
round_up-lt size h = ground arith

-- `kmalloc` is first fit on the list of blocks, for every size whose rounding does not wrap: it
-- panics exactly if no block fits, and else returns the address behind the header of the first block
-- that fits. No byte of a block in use changes, nor any byte outside of the heap.
pub kmalloc-first_fit :
    {h : Kheap} {m : Mem} {bs : List Block} (size : ℕ)
    → IsHeap h m bs
    → 0 < size
    → size < 2 ^ 32 - 7
    → Malloc size h m bs
unfolding kmalloc
kmalloc-first_fit {h} {m} {bs} size v pos small = go (
    find_fit-Fitting n end (round_up_even size) v.fits (fuel h) m h.heap_base bs v.chained v.above
      (omega (arith, Chain-le m end h.heap_base bs v.chained)))
  where
    n : ℕ
    n = round_up size

    end : ℕ
    end = h.heap_base + h.heap_size

    go :
        Fitting m end h.heap_base n bs (find_fit (fuel h) (start h.heap_base bs) n m)
        → Malloc size h m bs
    go (no_fit e f) = exhausted e (rw (v.listed, ==-ne size 0 (omega arith), f))
    go (fit q cs m' e f c linked lo hi below above owned) =
        let address : add32 q header_size ≡ q + header_size = omega (arith, v.fits) in
        let charge : add32 (round_up size) header_size ≡ round_up size + header_size =
          omega (arith, v.fits) in
        let found : find_fit (fuel h) h.free_list n m ≡ ok (some (q, m')) = rw v.listed f in
        granted q cs m' e (rw (==-ne size 0 (omega arith), found, address, charge))
          (record { above = v.above; fits = v.fits; listed = v.listed ∙ sym linked; chained = c })
          owned (λ x o. elim o [ inl l ↦ below x l | inr r ↦ above x r ])
