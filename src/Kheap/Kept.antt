-- ===== src/Kheap/Kept.antt =====
-- What first fit, release, coalescing and writes of the callers keep of the blocks in use.
use kfs.Base.{
  ℕ, ◌+◌, ◌-◌, ◌≤◌, ◌<◌, ◌≡◌, ◌≢◌, refl, subst, ◌⊎◌, inl, inr, false, List, [], ◌∷◌, arith, leb,
  ◌==◌, ==-ne, Bool-cases, ◌&&◌,
}
use kfs.Machine.Mem.{Mem}
use kfs.Kheap.{header_size}
use kfs.Kheap.Blocks.{
  Owned, Block, used_block, free_block, behind, cut, release, coalesce, join, InUse, IsCoalesced,
}
use kfs.Kheap.Policy.{FirstFit, head_free, IsCoalesced-parts, IsCoalesced-cons}
use kfs.Kheap.Chain.{Owned-le, Chain-agree, Header-agree, Chain}

InUse-at : (p s : ℕ) {a c : ℕ} (bs : List Block) → a ≡ c → InUse p s a bs → InUse p s c bs
InUse-at p s bs e u = subst (λ x. InUse p s x bs) e u

-- First fit leaves the blocks in use as they are.
pub InUse-FirstFit :
    (p s n a : ℕ) (bs : List Block) (q : ℕ) (cs : List Block)
    → FirstFit n a bs q cs
    → InUse p s a bs
    → InUse p s a cs
InUse-FirstFit p s n a [] q cs f u = absurd f
InUse-FirstFit p s n a (b ∷ bs) q cs (inl (f, e, c)) (inl (at, size, used)) = absurd (ground arith)
InUse-FirstFit p s n a (b ∷ bs) q cs (inl (f, e, c)) (inr u) =
    elim (Bool-cases (leb (n + header_size + 16) b.size)) [
      | inl split ↦ rw (c, cut, split) (inr (inr (InUse-at p s bs (ground arith) u)))
      | inr whole ↦ rw (c, cut, whole) (inr u)
    ]
InUse-FirstFit p s n a (b ∷ bs) q cs (inr (ds, f, e, h)) (inl u) = rw e (inl u)
InUse-FirstFit p s n a (b ∷ bs) q cs (inr (ds, f, e, h)) (inr u) =
    rw e (inr (InUse-FirstFit p s n (behind a b) bs q ds h u))

head_free-FirstFit :
    (n a : ℕ) (bs : List Block) (q : ℕ) (cs : List Block)
    → FirstFit n a bs q cs
    → (head_free cs ≡ false) ⊎ (head_free cs ≡ head_free bs)
head_free-FirstFit n a [] q cs f = absurd f
head_free-FirstFit n a (b ∷ bs) q cs (inl (f, e, c)) =
    elim (Bool-cases (leb (n + header_size + 16) b.size)) [
      | inl split ↦ rw (c, cut, split) (inl refl)
      | inr whole ↦ rw (c, cut, whole) (inl refl)
    ]
head_free-FirstFit n a (b ∷ bs) q cs (inr (ds, f, e, h)) = rw e (inr refl)

pub FirstFit-IsCoalesced :
    (n a : ℕ) (bs : List Block) (q : ℕ) (cs : List Block)
    → FirstFit n a bs q cs
    → IsCoalesced bs
    → IsCoalesced cs
FirstFit-IsCoalesced n a [] q cs f v = absurd f
FirstFit-IsCoalesced n a (b ∷ bs) q cs (inl (f, e, c)) v =
    let (apart, rest) = IsCoalesced-parts b bs v in
    elim (Bool-cases (leb (n + header_size + 16) b.size)) [
      | inl split ↦
          rw (c, cut, split)
            (
              refl,
              IsCoalesced-cons (free_block (b.size - n - header_size)) bs (ground (arith, f, apart))
                  rest,
            )
      | inr whole ↦ rw (c, cut, whole) (IsCoalesced-cons (used_block b.size) bs refl rest)
    ]
FirstFit-IsCoalesced n a (b ∷ bs) q cs (inr (ds, f, e, h)) v =
    let (apart, rest) = IsCoalesced-parts b bs v in
    let tail = FirstFit-IsCoalesced n (behind a b) bs q ds h rest in
    rw e (
      IsCoalesced-cons b ds
        (elim (head_free-FirstFit n (behind a b) bs q ds h) [
          | inl used ↦ ground (arith, used)
          | inr same ↦ rw same apart
        ])
        tail)

pub InUse-release :
    (p s q a : ℕ) (bs : List Block) → p ≢ q → InUse p s a bs → InUse p s a (release q a bs)
unfolding release
InUse-release p s q a [] ne u = u
InUse-release p s q a (b ∷ bs) ne (inl (at, size, used)) =
    rw (==-ne a q (omega (arith, at, ne))) (inl (at, size, used))
InUse-release p s q a (b ∷ bs) ne (inr u) = elim (Bool-cases (a == q)) [
  | inl here ↦ rw here (inr (InUse-release p s q (behind a b) bs ne u))
  | inr there ↦ rw there (inr (InUse-release p s q (behind a b) bs ne u))
]

InUse-join :
    (p s a : ℕ) (b : Block) (bs : List Block) → InUse p s a (b ∷ bs) → InUse p s a (join b bs)
unfolding join
InUse-join p s a b [] u = u
InUse-join p s a b (c ∷ cs) u = elim (Bool-cases (b.free && c.free)) [
  | inl both ↦
      rw (join, both)
        (InUse-join p s a (free_block (b.size + header_size + c.size)) cs (elim u [
          | inl (at, size, used) ↦ absurd (ground (arith, both, used))
          | inr (inl (at, size, used)) ↦ absurd (ground (arith, both, used))
          | inr (inr w) ↦ inr (InUse-at p s cs (omega arith) w)
        ]))
  | inr one ↦
      rw (join, one)
        (elim u [ inl here ↦ inl here | inr w ↦ inr (InUse-join p s (behind a b) c cs w) ])
]

pub InUse-coalesce : (p s a : ℕ) (bs : List Block) → InUse p s a bs → InUse p s a (coalesce bs)
unfolding coalesce
InUse-coalesce p s a [] u = u
InUse-coalesce p s a (b ∷ bs) u = InUse-join p s a b bs u

-- A write into a block in use leaves the headers as they are.
pub Chain-Owned :
    (m n : Mem) (end a x : ℕ) (bs : List Block)
    → Chain m end a bs
    → Owned x a bs
    → ((y : ℕ) → y ≢ x → n y ≡ m y)
    → Chain n end a bs
Chain-Owned m n end a x [] c o same = absurd o
Chain-Owned m n end a x (b ∷ bs) (h, c) (inl (used, lo, hi)) same = (
  Header-agree n h (λ y l r. same y (omega arith)),
  Chain-agree m n end (behind a b) bs c (λ y l. same y (omega arith)),
)
Chain-Owned m n end a x (b ∷ bs) (h, c) (inr o) same = (
  Header-agree n h (λ y l r. same y (omega (arith, Owned-le x (behind a b) bs o))),
  Chain-Owned m n end (behind a b) x bs c o same,
)

pub Owned-InUse :
    (x q s a : ℕ) (bs : List Block)
    → InUse q s a bs
    → q + header_size ≤ x
    → x < q + header_size + s
    → Owned x a bs
Owned-InUse x q s a [] u lo hi = u
Owned-InUse x q s a (b ∷ bs) (inl (at, size, used)) lo hi =
    inl (used, omega (arith, at), omega (arith, at, size))
Owned-InUse x q s a (b ∷ bs) (inr u) lo hi = inr (Owned-InUse x q s (behind a b) bs u lo hi)
