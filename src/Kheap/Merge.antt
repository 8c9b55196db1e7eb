-- ===== src/Kheap/Merge.antt =====
-- src/kheap.c: the merging loop of `kfree` against `join` on the list of blocks.
use kfs.Base.{
  ℕ, zero, suc, ◌+◌, ◌^◌, ◌≤◌, ◌<◌, ◌≡◌, refl, ◌∙◌, subst, ◌⊎◌, inl, inr, Bool, true, false, List,
  [], ◌∷◌, arith, length, if◌then◌else◌, ◌==◌, ==-ne, ==-refl, Bool-cases, ◌&&◌,
}
use kfs.Machine.Mem.{Mem, store32, store32_outside}
use kfs.Machine.Word.{add32}
use kfs.Machine.Outcome.{Outcome, ok}
use kfs.Kheap.{header_size, absorb_next, merge_free, size_at, next_at}
use kfs.Kheap.Fields.{Fields, Fields-store_size, Fields-store_next, Fields-store_ne}
use kfs.Kheap.Blocks.{Block, free_block, behind, join}
use kfs.Kheap.Chain.{Chain, Chain-le, Chain-agree, Header-agree, start, flag}
use kfs.Kheap.Malloc.{start-lt, is_free-eq}

-- Byte `x` is in some block, and in no `size` or `next` word: the loop leaves it alone.
abbrev pub Quiet : ℕ → ℕ → List Block → Type 0
Quiet x a [] = ⊥
Quiet x a (b ∷ bs) =
    (((a + 4 ≤ x) × (x < a + 12)) ⊎ ((a + header_size ≤ x) × (x < behind a b)))
    ⊎ Quiet x (behind a b) bs

abbrev joined : Block → Block → Block
joined b c = free_block (b.size + header_size + c.size)

Quiet-joined :
    (x a : ℕ) (b c : Block) (cs : List Block) → Quiet x a (b ∷ c ∷ cs) → Quiet x a (joined b c ∷ cs)
Quiet-joined x a b c cs (inl q) = inl (ground arith)
Quiet-joined x a b c cs (inr (inl q)) = inl (inr (ground arith))
Quiet-joined x a b c cs (inr (inr q)) =
    let e : behind a (joined b c) ≡ behind (behind a b) c = omega arith in rw e (inr q)

Quiet-le : (x a : ℕ) (bs : List Block) → Quiet x a bs → a + 4 ≤ x
Quiet-le x a [] q = absurd q
Quiet-le x a (b ∷ bs) (inl q) = ground arith
Quiet-le x a (b ∷ bs) (inr q) = omega (arith, Quiet-le x (behind a b) bs q)

Quiet-outside :
    (x a : ℕ) (b : Block) (bs : List Block)
    → Quiet x a (b ∷ bs)
    → ((a + 4 ≤ x) × (x < a + 12)) ⊎ ((x < a) ⊎ (a + header_size ≤ x))
Quiet-outside x a b bs (inl (inl q)) = inl q
Quiet-outside x a b bs (inl (inr q)) = inr (inr (q.0))
Quiet-outside x a b bs (inr q) = inr (inr (omega (arith, Quiet-le x (behind a b) bs q)))

-- the memory after the block at `a` has taken in the one behind it
abbrev absorbed : Mem → (a size next : ℕ) → Mem
absorbed m a size next = store32 (store32 m (size_at a) size) (next_at a) next

record Absorbed (m : Mem) (end a : ℕ) (b c : Block) (cs : List Block) (m' : Mem) : Type 0 where
  chained : Chain m' end a (joined b c ∷ cs)
  outside : (x : ℕ) → ((a + 4 ≤ x) × (x < a + 12)) ⊎ ((x < a) ⊎ (a + header_size ≤ x)) → m' x ≡ m x

module _ (end : ℕ) (bound : end < 2 ^ 32) where
  absorb_next-Absorbed :
      (m : Mem) (a : ℕ) (b c : Block) (cs : List Block)
      → Chain m end a (b ∷ c ∷ cs)
      → b.free ≡ true
      → Absorbed m end a b c cs (absorb_next a m)
  unfolding absorb_next
  absorb_next-Absorbed m a b c cs (hb, (hc, ch)) free =
      let le = Chain-le m end (behind (behind a b) c) cs ch in
      let size = b.size + header_size + c.size in
      let after = start (behind (behind a b) c) cs in
      let near = start-lt m end (behind (behind a b) c) cs ch bound in
      let sum : add32 b.size (add32 header_size c.size) ≡ size = omega (arith, le, bound) in
      let f1 = Fields-store_size hb.fields {v = size} (omega (arith, le, bound)) in
      let g1 = Fields-store_ne hc.fields (size_at a) size (omega arith) in
      let f2 = Fields-store_next f1 {v = after} near in
      let out : (x : ℕ)
          → ((a + 4 ≤ x) × (x < a + 12)) ⊎ ((x < a) ⊎ (a + header_size ≤ x))
          → absorbed m a size after x ≡ m x =
        λ x o.
          store32_outside _ (next_at a) after x (ground arith)
          ∙ store32_outside m (size_at a) size x (ground arith) in
      let same_end : behind a (joined b c) ≡ behind (behind a b) c = omega arith in
      rw
        (
          hb.fields.size_field, hb.fields.next_field, hc.fields.size_field, sum, f1.next_field,
          g1.next_field,
        )
        (record {
          chained = (
            record {
              magic = hb.magic;
              fields = rw same_end (
                  subst (λ t. Fields (absorbed m a size after) a size (flag t) hb.magic after) free
                    f2);
              live = λ e. absurd (cc);
              aligned = omega (arith, hb.aligned, hc.aligned);
            },
            rw same_end (
                Chain-agree m _ end (behind (behind a b) c) cs ch
                  (λ x lo. out x (inr (inr (omega arith))))),
          );
          outside = out;
        })

  -- What the loop started at the block `b` does.
  pub record Merged (m : Mem) (a : ℕ) (b : Block) (bs : List Block) (r : Outcome Mem) : Type 0 where
    pub memory : Mem
    pub returns : r ≡ ok memory
    pub chained : Chain memory end a (join b bs)
    pub starts : start a (join b bs) ≡ a
    pub below : (x : ℕ) → x < a → memory x ≡ m x
    pub above : (x : ℕ) → end ≤ x → memory x ≡ m x
    pub quiet : (x : ℕ) → Quiet x a (b ∷ bs) → memory x ≡ m x

  and_true : (x y : Bool) → (x && y && true) ≡ (x && y)
  and_true true true = refl
  and_true true false = refl
  and_true false y = refl

  -- one round of the loop at two neighbours
  merge_free_step :
      (k : ℕ) (m : Mem) (a : ℕ) (b c : Block) (cs : List Block)
      → Chain m end a (b ∷ c ∷ cs)
      → header_size ≤ a
      → merge_free (suc k) a m ≡ (
          if b.free && c.free
          then merge_free k a (absorb_next a m)
          else merge_free k (behind a b) m)
  unfolding merge_free
  merge_free_step k m a b c cs (hb, (hc, ch)) above =
      let le = Chain-le m end (behind (behind a b) c) cs ch in
      let end_cur : add32 (add32 a header_size) b.size ≡ behind a b = omega (arith, le, bound) in
      let nonnull : (a == 0) ≡ false = ==-ne a 0 (omega arith) in
      let linked : (behind a b == 0) ≡ false = ==-ne (behind a b) 0 (omega arith) in
      rw (
        hb.fields.next_field,
        hb.fields.size_field,
        end_cur,
        nonnull,
        linked,
        is_free-eq b hb,
        is_free-eq c hc,
        ==-refl (behind a b),
        and_true b.free c.free,
      )

  pub merge_free-Merged :
      (k : ℕ) (m : Mem) (a : ℕ) (b : Block) (bs : List Block)
      → Chain m end a (b ∷ bs)
      → header_size ≤ a
      → length bs < k
      → Merged m a b bs (merge_free k a m)
  unfolding join merge_free
  merge_free-Merged zero m a b bs c above enough = absurd (omega arith)
  merge_free-Merged (suc k) m a b [] (hb, c) above enough = record {
    memory = m;
    returns = rw (hb.fields.next_field, ==-ne a 0 (omega arith));
    chained = (hb, c);
    starts = refl;
    below = λ x lo. refl;
    above = λ x hi. refl;
    quiet = λ x q. refl;
  }
  merge_free-Merged (suc k) m a b (c ∷ cs) (hb, (hc, ch)) above enough =
      rw (merge_free_step k m a b c cs (hb, (hc, ch)) above) (elim (Bool-cases (b.free && c.free)) [
        | inl both ↦
            let ab = absorb_next-Absorbed m a b c cs (hb, (hc, ch)) (ground arith) in
            let le = Chain-le m end (behind (behind a b) c) cs ch in
            let r =
              merge_free-Merged k (absorb_next a m) a (joined b c) cs ab.chained above
                (omega arith) in
            rw both (record {
              memory = r.memory;
              returns = r.returns;
              chained = rw (both, join) r.chained;
              starts = rw (both, join) r.starts;
              below = λ x lo. r.below x lo ∙ ab.outside x (inr (inl lo));
              above = λ x hi. r.above x hi ∙ ab.outside x (inr (inr (omega (arith, le))));
              quiet = λ x q.
                  r.quiet x (Quiet-joined x a b c cs q)
                  ∙ ab.outside x (Quiet-outside x a b (c ∷ cs) q);
            })
        | inr one ↦
            let r = merge_free-Merged k m (behind a b) c cs (hc, ch) (omega arith) (omega arith) in
            rw one (record {
              memory = r.memory;
              returns = r.returns;
              chained =
                  rw (one, join)
                    (
                      Header-agree r.memory (rw r.starts hb) (λ x lo hi. r.below x (omega arith)),
                      r.chained,
                    );
              starts = rw (one, join) refl;
              below = λ x lo. r.below x (omega arith);
              above = r.above;
              quiet = λ x q. elim q [
                | inl here ↦ r.below x (ground arith)
                | inr later ↦ r.quiet x later
              ];
            })
      ])
