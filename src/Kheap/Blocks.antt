-- ===== src/Kheap/Blocks.antt =====
-- The kernel heap without memory: a list of blocks, each free or in use, that lie one behind the
-- other. First fit with splitting, release and coalescing as functions of that list.
use kfs.Base.{
  ℕ, ◌+◌, ◌-◌, Bool, true, false, Option, none, some, List, [], ◌∷◌, leb, ◌==◌, ◌&&◌, if◌then◌else◌,
  ◌≡◌, ◌⊎◌, ◌≤◌, ◌<◌,
}
use mathlib.Core.Option
use kfs.Kheap.{header_size}

pub record Block : Type 0 where
  pub size : ℕ
  pub free : Bool

abbrev pub used_block : ℕ → Block
used_block n = record { size = n; free = false }

abbrev pub free_block : ℕ → Block
free_block n = record { size = n; free = true }

-- the address behind a block at `a`
abbrev pub behind : ℕ → Block → ℕ
behind a b = a + header_size + b.size

abbrev pub fits : ℕ → Block → Bool
fits n b = b.free && leb n b.size

-- A fitting block is cut in two if what is left has room for a header and 16 bytes.
abbrev pub cut : ℕ → Block → List Block → List Block
cut n b bs =
    if leb (n + header_size + 16) b.size
    then used_block n ∷ free_block (b.size - n - header_size) ∷ bs
    else used_block b.size ∷ bs

-- The address of the first block that fits `n` bytes, and the list with that block in use.
unfoldable pub first_fit : ℕ → ℕ → List Block → Option (ℕ × List Block)
first_fit n a [] = none
first_fit n a (b ∷ bs) =
    if fits n b
    then some (a, cut n b bs)
    else Option.map (λ (q, cs). (q, b ∷ cs)) (first_fit n (behind a b) bs)

-- The block at address `q`, marked free.
unfoldable pub release : ℕ → ℕ → List Block → List Block
release q a [] = []
release q a (b ∷ bs) = (if a == q then free_block b.size else b) ∷ release q (behind a b) bs

-- `b` followed by `bs`, with each run of free blocks joined.
unfoldable pub join : Block → List Block → List Block
join b [] = b ∷ []
join b (c ∷ cs) = elim (b.free && c.free) [
  | true ↦ join (free_block (b.size + header_size + c.size)) cs
  | false ↦ b ∷ join c cs
]

unfoldable pub coalesce : List Block → List Block
coalesce [] = []
coalesce (b ∷ bs) = join b bs

-- There is a block in use of `n` bytes at address `q`.
abbrev pub InUse : ℕ → ℕ → ℕ → List Block → Type 0
InUse q n a [] = ⊥
InUse q n a (b ∷ bs) = ((a ≡ q) × (b.size ≡ n) × (b.free ≡ false)) ⊎ InUse q n (behind a b) bs

-- Byte `x` belongs to the caller of some block in use.
abbrev pub Owned : ℕ → ℕ → List Block → Type 0
Owned x a [] = ⊥
Owned x a (b ∷ bs) =
    ((b.free ≡ false) × (a + header_size ≤ x) × (x < behind a b)) ⊎ Owned x (behind a b) bs

-- No two neighbours are both free.
abbrev pub IsCoalesced : List Block → Type 0
IsCoalesced [] = Unit {0}
IsCoalesced (b ∷ []) = Unit {0}
IsCoalesced (b ∷ c ∷ cs) = ((b.free && c.free) ≡ false) × IsCoalesced (c ∷ cs)
