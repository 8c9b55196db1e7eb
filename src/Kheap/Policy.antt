-- ===== src/Kheap/Policy.antt =====
-- First fit, release and coalescing on lists of blocks, without memory.
use kfs.Base.{
  ℕ, ◌+◌, ◌-◌, ◌≤◌, ◌<◌, ◌≡◌, refl, sym, ◌∙◌, ap, ◌⊎◌, inl, inr, Bool, true, false, List, [], ◌∷◌,
  arith, leb, ==-ne, ==-refl, Bool-cases, ◌&&◌, Option, none, some, Option-cases,
}
use native.Mathlib.Decide.{dec_lt}
use kfs.Kheap.{header_size}
use kfs.Kheap.Blocks.{
  Block, used_block, free_block, behind, fits, cut, first_fit, release, coalesce, join, InUse,
  IsCoalesced,
}
use kfs.Kheap.Free.{release-behind}

-- Some block is free and has at least `n` bytes.
abbrev pub HasRoom : ℕ → List Block → Type 0
HasRoom n [] = ⊥
HasRoom n (b ∷ bs) = (fits n b ≡ true) ⊎ HasRoom n bs

-- The block at `q` is the first that fits, and `cs` is the list with that block in use.
abbrev pub FirstFit : ℕ → ℕ → List Block → ℕ → List Block → Type 0
FirstFit n a [] q cs = ⊥
FirstFit n a (b ∷ bs) q cs =
    ((fits n b ≡ true) × (q ≡ a) × (cs ≡ cut n b bs))
    ⊎ ((ds : List Block) × (fits n b ≡ false) × (cs ≡ b ∷ ds) × FirstFit n (behind a b) bs q ds)

pub FirstFit-first_fit :
    (n a : ℕ) (bs : List Block) (q : ℕ) (cs : List Block)
    → first_fit n a bs ≡ some (q, cs)
    → FirstFit n a bs q cs
unfolding first_fit
FirstFit-first_fit n a [] q cs h = absurd (cc)
FirstFit-first_fit n a (b ∷ bs) q cs h = elim (Bool-cases (fits n b)) [
  | inl yes_fit ↦
      let h' : ◌≡◌ {A = Option (ℕ × List Block)} (some (a, cut n b bs)) (some (q, cs)) =
        rw yes_fit at h in
      inl (yes_fit, cc, cc)
  | inr no_fit ↦ elim (Option-cases (first_fit n (behind a b) bs)) [
    | inl e ↦ absurd (cc (rw (no_fit, e) at h))
    | inr ((p, ds), e) ↦
        let h' : ◌≡◌ {A = Option (ℕ × List Block)} (some (p, b ∷ ds)) (some (q, cs)) =
          rw (no_fit, e) at h in
        inr (ds, no_fit, cc, FirstFit-first_fit n (behind a b) bs q ds (cc))
  ]
]

-- A list has no room exactly if first fit finds nothing.
pub first_fit-none : (n a : ℕ) (bs : List Block) → first_fit n a bs ≡ none → ¬ HasRoom n bs
unfolding first_fit
first_fit-none n a [] h r = r
first_fit-none n a (b ∷ bs) h (inl f) = cc (rw f at h)
first_fit-none n a (b ∷ bs) h (inr r) = elim (Bool-cases (fits n b)) [
  | inl yes_fit ↦ cc (rw yes_fit at h)
  | inr no_fit ↦ elim (Option-cases (first_fit n (behind a b) bs)) [
    | inl e ↦ first_fit-none n (behind a b) bs e r
    | inr (p, e) ↦ cc (rw (no_fit, e) at h)
  ]
]

FirstFit-le : (n a : ℕ) (bs : List Block) (q : ℕ) (cs : List Block) → FirstFit n a bs q cs → a ≤ q
FirstFit-le n a [] q cs h = absurd h
FirstFit-le n a (b ∷ bs) q cs (inl h) = omega (arith, h.1)
FirstFit-le n a (b ∷ bs) q cs (inr (ds, f, e, h)) =
    omega (arith, FirstFit-le n (behind a b) bs q ds h)

-- The block that first fit returns is in use, has the bytes asked for, and at most 31 more.
pub FirstFit-InUse :
    (n a : ℕ) (bs : List Block) (q : ℕ) (cs : List Block)
    → FirstFit n a bs q cs
    → (s : ℕ) × InUse q s a cs × (n ≤ s) × (s < n + 32)
FirstFit-InUse n a [] q cs h = absurd h
FirstFit-InUse n a (b ∷ bs) q cs (inl (f, e, c)) = elim (dec_lt b.size (n + 32)) [
  | yes tight ↦
      let guard : leb (n + header_size + 16) b.size ≡ false = ground arith in
      (b.size, rw (c, e, cut, guard) (inl (refl, refl, refl)), ground arith, tight)
  | no room ↦
      let guard : leb (n + header_size + 16) b.size ≡ true = ground arith in
      (n, rw (c, e, cut, guard) (inl (refl, refl, refl)), omega arith, omega arith)
]
FirstFit-InUse n a (b ∷ bs) q cs (inr (ds, f, e, h)) =
    let (s, u, lo, hi) = FirstFit-InUse n (behind a b) bs q ds h in (s, rw e (inr u), lo, hi)

-- whether the first block is free
abbrev pub head_free : List Block → Bool
head_free [] = false
head_free (b ∷ bs) = b.free

join-apart :
    (b : Block) (bs : List Block) → (b.free && head_free bs) ≡ false → join b bs ≡ b ∷ coalesce bs
unfolding join coalesce
join-apart b [] h = refl
join-apart b (c ∷ cs) h = rw (h, join)

pub IsCoalesced-parts :
    (b : Block) (bs : List Block)
    → IsCoalesced (b ∷ bs)
    → ((b.free && head_free bs) ≡ false) × IsCoalesced bs
IsCoalesced-parts b [] h = (ground arith, tt)
IsCoalesced-parts b (c ∷ cs) h = h

coalesce_id : (bs : List Block) → IsCoalesced bs → coalesce bs ≡ bs
unfolding coalesce
coalesce_id [] h = refl
coalesce_id (b ∷ bs) h =
    let (apart, rest) = IsCoalesced-parts b bs h in
    join-apart b bs apart ∙ ap (λ t. b ∷ t) (coalesce_id bs rest)

pub IsCoalesced-cons :
    (b : Block) (bs : List Block)
    → (b.free && head_free bs) ≡ false
    → IsCoalesced bs
    → IsCoalesced (b ∷ bs)
IsCoalesced-cons b [] apart h = tt
IsCoalesced-cons b (c ∷ cs) apart h = (apart, h)

head_free-join : (b : Block) (bs : List Block) → head_free (join b bs) ≡ b.free
unfolding join
head_free-join b [] = refl
head_free-join b (c ∷ cs) = elim (Bool-cases (b.free && c.free)) [
  | inl both ↦
      rw (both, join)
        (head_free-join (free_block (b.size + header_size + c.size)) cs ∙ ground arith)
  | inr one ↦ rw (one, join)
]

join-IsCoalesced : (b : Block) (bs : List Block) → IsCoalesced (join b bs)
unfolding join
join-IsCoalesced b [] = tt
join-IsCoalesced b (c ∷ cs) = elim (Bool-cases (b.free && c.free)) [
  | inl both ↦ rw (both, join) (join-IsCoalesced (free_block (b.size + header_size + c.size)) cs)
  | inr one ↦
      rw (one, join)
        (IsCoalesced-cons b (join c cs) (rw head_free-join one) (join-IsCoalesced c cs))
]

-- After coalescing no two neighbours are free.
pub coalesce-IsCoalesced : (bs : List Block) → IsCoalesced (coalesce bs)
unfolding coalesce
coalesce-IsCoalesced [] = tt
coalesce-IsCoalesced (b ∷ bs) = join-IsCoalesced b bs

free_eta : (b : Block) → b.free ≡ true → free_block b.size ≡ b
free_eta b h = ap (λ t. record { size = b.size; free = t }) (sym h)

release-head : (a : ℕ) (b : Block) (bs : List Block) → release a a (b ∷ bs) ≡ free_block b.size ∷ bs
unfolding release
release-head a b bs = rw (==-refl a, release-behind a (behind a b) bs (omega arith))

release-tail :
    (q a : ℕ) (b : Block) (bs : List Block)
    → a < q
    → release q a (b ∷ bs) ≡ b ∷ release q (behind a b) bs
unfolding release
release-tail q a b bs h = rw (==-ne a q (omega arith))

coalesce-cons :
    (b : Block) (bs : List Block)
    → (b.free && head_free bs) ≡ false
    → coalesce (b ∷ bs) ≡ b ∷ coalesce bs
unfolding coalesce
coalesce-cons b bs h = join-apart b bs h

-- Cutting a free block and releasing the front part gives the block back.
coalesce-cut :
    (n a : ℕ) (b : Block) (bs : List Block)
    → fits n b ≡ true
    → IsCoalesced (b ∷ bs)
    → (coalesce (release a a (cut n b bs)) ≡ b ∷ bs)
      × (head_free (release a a (cut n b bs)) ≡ b.free)
unfolding coalesce join
coalesce-cut n a b bs f v =
    let (apart, rest) = IsCoalesced-parts b bs v in
    let whole : join b bs ≡ b ∷ bs =
      join-apart b bs apart ∙ ap (λ t. b ∷ t) (coalesce_id bs rest) in
    let free : b.free ≡ true = ground arith in
    elim (dec_lt b.size (n + 32)) [
      | yes tight ↦
          let guard : leb (n + header_size + 16) b.size ≡ false = ground arith in
          rw (cut, guard, release-head a (used_block b.size) bs, free_eta b free) (whole, sym free)
      | no room ↦
          let guard : leb (n + header_size + 16) b.size ≡ true = ground arith in
          let sum : n + header_size + (b.size - n - header_size) ≡ b.size = omega arith in
          rw
            (
              cut,
              guard,
              release-head a (used_block n) (free_block (b.size - n - header_size) ∷ bs),
              join,
              sum,
              free_eta b free,
            )
            (whole, sym free)
    ]

-- Releasing the block that first fit took, in a list with no two free neighbours, gives the list back.
pub FirstFit-release :
    (n a : ℕ) (bs : List Block) (q : ℕ) (cs : List Block)
    → FirstFit n a bs q cs
    → IsCoalesced bs
    → (coalesce (release q a cs) ≡ bs) × (head_free (release q a cs) ≡ head_free bs)
FirstFit-release n a [] q cs h v = absurd h
FirstFit-release n a (b ∷ bs) q cs (inl (f, e, c)) v = rw (c, e) (coalesce-cut n a b bs f v)
FirstFit-release n a (b ∷ bs) q cs (inr (ds, f, e, h)) v =
    let (apart, rest) = IsCoalesced-parts b bs v in
    let (same, head) = FirstFit-release n (behind a b) bs q ds h rest in
    let le = FirstFit-le n (behind a b) bs q ds h in
    rw (e, release-tail q a b ds (omega (arith, le)))
      (coalesce-cons b (release q (behind a b) ds) (rw head apart) ∙ ap (λ t. b ∷ t) same, refl)
