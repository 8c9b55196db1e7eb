-- ===== src/Kheap/Trace.antt =====
-- The kernel heap under any sequence of calls: `kmalloc`, `kfree` of pointers that are in use, and the
-- writes of the callers into their blocks.
use kfs.Base.{
  ℕ, ◌+◌, ◌-◌, ◌^◌, ◌≤◌, ◌<◌, ◌≡◌, refl, sym, ◌∙◌, subst, List, arith, ◌==◌, ==-ne, ==-refl,
  if◌then◌else◌, Option, some, none,
}
use native.Mathlib.Decide.{ℕ_discrete}
use kfs.Machine.Mem.{Mem}
use kfs.Machine.Outcome.{ok-injective, ok}
use kfs.Kheap.{Kheap, header_size, kmalloc, kfree, round_up}
use kfs.Kheap.Blocks.{Block, release, coalesce, InUse, IsCoalesced}
use kfs.Kheap.Policy.{FirstFit-first_fit, FirstFit-InUse, coalesce-IsCoalesced}
use kfs.Kheap.Chain.{IsHeap}
use kfs.Kheap.Malloc.{Malloc, charge, kmalloc-first_fit, exhausted, granted, round_up-lt}
use kfs.Kheap.Free.{discharge, kfree-release}
use kfs.Kheap.Kept.{
  InUse-FirstFit, FirstFit-IsCoalesced, InUse-release, InUse-coalesce, Chain-Owned, Owned-InUse,
}

abbrev pub update : {A : Type 0} → (ℕ → A) → ℕ → A → ℕ → A
update f i v j = if j == i then v else f j

update_self : {A : Type 0} (f : ℕ → A) (i : ℕ) (v : A) (j : ℕ) → j ≡ i → update f i v j ≡ v
update_self f i v j e = rw (e, ==-refl i) refl

-- The heap, the memory, and the pointers in use with the bytes that may be written there.
pub record HeapState : Type 0 where
  pub heap : Kheap
  pub mem : Mem
  pub live : ℕ → Option ℕ

-- A call of `kmalloc` or of `kfree` at a pointer in use, or a byte that a caller writes into its block.
-- A block is at least as long as the request.
pub data Step : HeapState → HeapState → Type 0 where
  alloc :
      (s : HeapState) (size p : ℕ) (h : Kheap) (m : Mem)
      → 0 < size
      → size < 2 ^ 32 - 7
      → kmalloc size s.heap s.mem ≡ ok (p, h, m)
      → Step s (record { heap = h; mem = m; live = update s.live p (some size) })
  free :
      (s : HeapState) (p size : ℕ) (h : Kheap) (m : Mem)
      → s.live p ≡ some size
      → kfree p s.heap s.mem ≡ ok (h, m)
      → Step s (record { heap = h; mem = m; live = update s.live p none })
  poke :
      (s : HeapState) (p size i v : ℕ)
      → s.live p ≡ some size
      → i < size
      → v < 2 ^ 8
      → Step s (record s { mem = update s.mem (p + i) v })

pub data Reach (s : HeapState) : HeapState → Type 0 where
  here : Reach s s
  next : {t u : HeapState} → Reach s t → Step t u → Reach s u

-- The headers describe a list of blocks without two free neighbours, and each pointer in use is that
-- of a block in use which is long enough.
pub record IsSound (s : HeapState) : Type 0 where
  pub blocks : List Block
  pub valid : IsHeap s.heap s.mem blocks
  pub apart : IsCoalesced blocks
  pub used :
      (p size : ℕ)
      → s.live p ≡ some size
      → (q n : ℕ) × (p ≡ q + header_size) × (size ≤ n) × InUse q n s.heap.heap_base blocks

some-injective : {A : Type 0} (a b : A) → some a ≡ some b → a ≡ b
some-injective a b e = cc

alloc-IsSound :
    (s : HeapState) (size p : ℕ) (h : Kheap) (m : Mem)
    → IsSound s
    → 0 < size
    → size < 2 ^ 32 - 7
    → kmalloc size s.heap s.mem ≡ ok (p, h, m)
    → IsSound (record { heap = h; mem = m; live = update s.live p (some size) })
alloc-IsSound s size p h m v pos small e = go (kmalloc-first_fit size v.valid pos small)
  where
    go :
        Malloc size s.heap s.mem v.blocks
        → IsSound (record { heap = h; mem = m; live = update s.live p (some size) })
    go (exhausted none_fit f) = absurd (cc)
    go (granted q cs n first f valid owned outside) =
        let fit = FirstFit-first_fit (round_up size) s.heap.heap_base v.blocks q cs first in
        let (len, u, lo, hi) = FirstFit-InUse (round_up size) s.heap.heap_base v.blocks q cs fit in
        let longer = round_up-lt size small in
        subst
          (λ (r : ℕ × Kheap × Mem).
            IsSound (record { heap = r.1; mem = r.2; live = update s.live r.0 (some size) }))
          (ok-injective (q + header_size, charge size s.heap, n) (p, h, m) (sym f ∙ e))
          (record {
            blocks = cs;
            valid = valid;
            apart = FirstFit-IsCoalesced (round_up size) s.heap.heap_base v.blocks q cs fit v.apart;
            used = λ p' size' l. elim (ℕ_discrete p' (q + header_size)) [
              | yes same ↦
                  let bytes =
                    some-injective size size'
                      (sym (update_self s.live (q + header_size) (some size) p' same) ∙ l) in
                  (q, len, same, omega (arith, lo, longer.0, bytes), u)
              | no other ↦
                  let (q', n', at, short, w) =
                    v.used p' size' (rw (==-ne p' (q + header_size) other) at l) in
                  (
                    q',
                    n',
                    at,
                    short,
                    InUse-FirstFit q' n' (round_up size) s.heap.heap_base v.blocks q cs fit w,
                  )
            ];
          })

free-IsSound :
    (s : HeapState) (p size : ℕ) (h : Kheap) (m : Mem)
    → IsSound s
    → s.live p ≡ some size
    → kfree p s.heap s.mem ≡ ok (h, m)
    → IsSound (record { heap = h; mem = m; live = update s.live p none })
free-IsSound s p size h m v l e =
    let (q, n, at, short, u) = v.used p size l in
    let f = kfree-release q n v.valid u in
    let returns : kfree p s.heap s.mem ≡ ok (discharge n s.heap, f.memory) = rw at f.returns in
    subst
      (λ (r : Kheap × Mem). IsSound (record { heap = r.0; mem = r.1; live = update s.live p none }))
      (ok-injective (discharge n s.heap, f.memory) (h, m) (sym returns ∙ e))
      (record {
        blocks = coalesce (release q s.heap.heap_base v.blocks);
        valid = f.valid;
        apart = coalesce-IsCoalesced (release q s.heap.heap_base v.blocks);
        used = λ p' size' l'. elim (ℕ_discrete p' p) [
          | yes same ↦
              let gone : none ≡ some size' = sym (update_self s.live p none p' same) ∙ l' in
              absurd (cc)
          | no other ↦
              let (q', n', at', short', w) = v.used p' size' (rw (==-ne p' p other) at l') in
              (
                q',
                n',
                at',
                short',
                InUse-coalesce q' n' s.heap.heap_base _ (
                    InUse-release q' n' q s.heap.heap_base v.blocks
                      (λ same. other (omega (arith, at, at', same))) w),
              )
        ];
      })

poke-IsSound :
    (s : HeapState) (p size i v : ℕ)
    → IsSound s
    → s.live p ≡ some size
    → i < size
    → IsSound (record s { mem = update s.mem (p + i) v })
poke-IsSound s p size i v z l lt =
    let (q, n, at, short, u) = z.used p size l in
    let owned =
      Owned-InUse (p + i) q n s.heap.heap_base z.blocks u (omega (arith, at)) (omega (arith, at)) in
    record {
      blocks = z.blocks;
      valid = record {
        above = z.valid.above;
        fits = z.valid.fits;
        listed = z.valid.listed;
        chained =
            Chain-Owned s.mem _ (s.heap.heap_base + s.heap.heap_size) s.heap.heap_base (p + i)
              z.blocks z.valid.chained owned (λ y ne. rw (==-ne y (p + i) ne) refl);
      };
      apart = z.apart;
      used = z.used;
    }

Step-IsSound : {s t : HeapState} → Step s t → IsSound s → IsSound t
Step-IsSound (alloc s size p h m pos small e) v = alloc-IsSound s size p h m v pos small e
Step-IsSound (free s p size h m l e) v = free-IsSound s p size h m v l e
Step-IsSound (poke s p size i b l lt byte) v = poke-IsSound s p size i b v l lt

Reach-IsSound : {s t : HeapState} → IsSound s → Reach s t → IsSound t
Reach-IsSound v here = v
Reach-IsSound v (next r st) = Step-IsSound st (Reach-IsSound v r)

-- From a state in which the headers describe a list of blocks without two free neighbours and each
-- pointer in use has a block in use that is long enough, any sequence of calls of `kmalloc` for sizes
-- from 1 on whose rounding does not wrap, below 2^32 - 7, calls of `kfree` at pointers in use, and writes
-- of the callers into their blocks leads to such a state, and there `kfree` of any pointer in use
-- returns.
pub Reach-kfree :
    (s t : HeapState)
    → IsSound s
    → Reach s t
    → IsSound t
      × ((p size : ℕ) → t.live p ≡ some size → (r : Kheap × Mem) × (kfree p t.heap t.mem ≡ ok r))
Reach-kfree s t v reach =
    let w = Reach-IsSound v reach in
    (
      w,
      λ p size l.
          let (q, n, at, short, u) = w.used p size l in
          let f = kfree-release q n w.valid u in ((discharge n t.heap, f.memory), rw at f.returns),
    )
