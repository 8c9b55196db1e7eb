-- ===== src/Kheap/Claim.antt =====
-- `split_block` and the two stores behind it, at a free block that fits.
use kfs.Base.{
  ℕ, ◌+◌, ◌-◌, ◌%◌, ◌^◌, ◌≤◌, ◌<◌, ◌≡◌, refl, ◌∙◌, subst, ◌⊎◌, inr, true, false, List, arith, leb,
}
use kfs.Machine.Mem.{Mem, load32, store32, store32_outside}
use kfs.Machine.Word.{add32, sub32}
use kfs.Kheap.{
  header_size, magic_allocated, split_block, claim_block, size_at, free_at, magic_at, next_at,
}
use kfs.Kheap.Fields.{
  Fields, read-Fields, Fields-store_ne, Fields-store_size, Fields-store_free, Fields-store_magic,
  Fields-store_next,
}
use kfs.Kheap.Blocks.{Block, free_block, behind, cut}
use kfs.Kheap.Chain.{Header, Chain, Chain-agree, start, flag}
use native.Mathlib.Decide.{dec_lt}

-- the memory after a split that leaves `rest` bytes at `n`
abbrev split_memory : Mem → (blk n size rest next : ℕ) → Mem
split_memory m blk n size rest next =
    store32
      (store32 (store32 (store32 (store32 m (size_at n) rest) (free_at n) 1) (next_at n) next)
        (size_at blk) size)
      (next_at blk) n

abbrev claimed_memory : Mem → ℕ → Mem
claimed_memory m blk = store32 (store32 m (free_at blk) 0) (magic_at blk) magic_allocated

claimed-Fields :
    {m : Mem} {a size free magic next : ℕ}
    → Fields m a size free magic next
    → Fields (claimed_memory m a) a size 0 magic_allocated next
claimed-Fields f = Fields-store_magic (Fields-store_free f (omega arith)) (omega arith)

module _ {m : Mem} {a size magic next : ℕ} (n : ℕ) (f : Fields m a size 1 magic next)
    (above : header_size ≤ a) (small : a + header_size + size < 2 ^ 32) (near : next < 2 ^ 32) where
  split_block-cut :
      n + 32 ≤ size
      → split_block a n m ≡ split_memory m a (a + header_size + n) n (size - n - header_size) next
  unfolding split_block
  split_block-cut h =
      let at = a + header_size + n in
      let rest = size - n - header_size in
      let address : add32 (add32 a header_size) n ≡ at = omega arith in
      let remainder : sub32 (sub32 size n) header_size ≡ rest = omega arith in
      let guard : leb (add32 (add32 n header_size) 16) size ≡ true = ground arith in
      let link : load32 (store32 (store32 m (size_at at) rest) (free_at at) 1) (next_at a) ≡ next =
        (Fields-store_ne (Fields-store_ne f (size_at at) rest (omega arith)) (free_at at) 1
          (omega arith)).next_field in
      rw (f.size_field, guard, address, remainder, link)

  split_block-whole : size < n + 32 → n ≤ size → split_block a n m ≡ m
  unfolding split_block
  split_block-whole h le =
      let guard : leb (add32 (add32 n header_size) 16) size ≡ false = ground arith in
      rw (f.size_field, guard)

  module _ (room : n + 32 ≤ size) where
    abbrev at : ℕ
    at = a + header_size + n

    abbrev rest : ℕ
    rest = size - n - header_size

    new-Fields : Fields (split_memory m a at n rest next) at rest 1 (load32 m (magic_at at)) next
    new-Fields =
        let f1 = Fields-store_size (read-Fields m at) {v = rest} (omega arith) in
        let f2 = Fields-store_free f1 {v = 1} (omega arith) in
        let f3 = Fields-store_next f2 {v = next} near in
        let f4 = Fields-store_ne f3 (size_at a) n (omega arith) in
        Fields-store_ne f4 (next_at a) at (omega arith)

    old-Fields : Fields (split_memory m a at n rest next) a n 1 magic at
    old-Fields =
        let f1 = Fields-store_ne f (size_at at) rest (omega arith) in
        let f2 = Fields-store_ne f1 (free_at at) 1 (omega arith) in
        let f3 = Fields-store_ne f2 (next_at at) next (omega arith) in
        let f4 = Fields-store_size f3 {v = n} (omega arith) in
        Fields-store_next f4 {v = at} (omega arith)

    split_memory_outside :
        (x : ℕ) → (x < a) ⊎ (a + header_size + size ≤ x) → split_memory m a at n rest next x ≡ m x
    split_memory_outside x o =
        store32_outside _ (next_at a) at x (omega arith)
        ∙ store32_outside _ (size_at a) n x (omega arith)
        ∙ store32_outside _ (next_at at) next x (omega arith)
        ∙ store32_outside _ (free_at at) 1 x (omega arith)
        ∙ store32_outside m (size_at at) rest x (omega arith)

claimed_outside :
    (m : Mem) (a size x : ℕ) → (x < a) ⊎ (a + header_size + size ≤ x) → claimed_memory m a x ≡ m x
claimed_outside m a size x o =
    store32_outside _ (magic_at a) magic_allocated x (omega arith)
    ∙ store32_outside m (free_at a) 0 x (omega arith)

-- What `claim_block` does to a free block `b` at `a` that fits `n` bytes: the list behind it is as
-- before, and every write lies within the block.
pub record Claimed (m : Mem) (end a n : ℕ) (b : Block) (bs : List Block) (m' : Mem) : Type 0 where
  pub chained : Chain m' end a (cut n b bs)
  pub outside : (x : ℕ) → (x < a) ⊎ (behind a b ≤ x) → m' x ≡ m x

module _ {m : Mem} {a : ℕ} (end n : ℕ) (b : Block) (bs : List Block) (next : ℕ)
    (linked : start (behind a b) bs ≡ next) (h : Header m a b next)
    (c : Chain m end (behind a b) bs) (free : b.free ≡ true) (above : header_size ≤ a)
    (small : behind a b < 2 ^ 32) (near : next < 2 ^ 32) (even : n % 8 ≡ 0) (le : n ≤ b.size) where
  fields : Fields m a b.size 1 h.magic next
  fields = subst (λ t. Fields m a b.size (flag t) h.magic next) free h.fields

  claim_whole : b.size < n + 32 → Claimed m end a n b bs (claim_block a n m)
  unfolding claim_block
  claim_whole tight =
      let guard : leb (n + header_size + 16) b.size ≡ false = ground arith in
      rw (split_block-whole n fields above small near tight le) (record {
        chained = rw guard (
          record {
            magic = magic_allocated;
            fields = rw linked (claimed-Fields fields);
            live = λ _. refl;
            aligned = h.aligned;
          },
          Chain-agree m _ end (behind a b) bs c (λ x lo. claimed_outside m a b.size x (inr lo)),
        );
        outside = λ x o. claimed_outside m a b.size x o;
      })

  claim_cut : n + 32 ≤ b.size → Claimed m end a n b bs (claim_block a n m)
  unfolding claim_block
  claim_cut room =
      let at = a + header_size + n in
      let rest = b.size - n - header_size in
      let guard : leb (n + header_size + 16) b.size ≡ true = ground arith in
      let same_end : behind at (free_block rest) ≡ behind a b = omega arith in
      let old = old-Fields n fields above small near room in
      let new = new-Fields n fields above small near room in
      let out : (x : ℕ)
          → (x < a) ⊎ (behind a b ≤ x)
          → claimed_memory (split_memory m a at n rest next) a x ≡ m x =
        λ x o.
          claimed_outside _ a b.size x o
          ∙ split_memory_outside n fields above small near room x o in
      rw (split_block-cut n fields above small near room) (record {
        chained = rw guard (
          record {
            magic = magic_allocated;
            fields = claimed-Fields old;
            live = λ _. refl;
            aligned = even;
          },
          rw same_end (
            record {
              magic = load32 m (magic_at at);
              fields = rw linked (
                  Fields-store_ne (Fields-store_ne new (free_at a) 0 (omega arith)) (magic_at a)
                    magic_allocated (omega arith));
              live = λ e. absurd (cc);
              aligned = omega (arith, h.aligned, even);
            },
            Chain-agree m _ end (behind a b) bs c (λ x lo. out x (inr lo)),
          ),
        );
        outside = out;
      })

  -- A free block that fits is claimed as `cut` says.
  pub claim_block-Claimed : Claimed m end a n b bs (claim_block a n m)
  claim_block-Claimed = elim (dec_lt b.size (n + 32)) [
    | yes tight ↦ claim_whole tight
    | no room ↦ claim_cut (omega arith)
  ]
