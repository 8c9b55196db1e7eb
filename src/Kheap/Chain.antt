-- ===== src/Kheap/Chain.antt =====
-- A list of blocks as headers in memory: each header lies where the block before it ends.
use kfs.Base.{
  ℕ, ◌+◌, ◌*◌, ◌%◌, ◌^◌, ◌≤◌, ◌<◌, ◌≡◌, inl, inr, Bool, false, List, [], ◌∷◌, arith, length,
  if◌then◌else◌,
}
use kfs.Machine.Mem.{Mem}
use kfs.Kheap.{Kheap, header_size, magic_allocated}
use kfs.Kheap.Fields.{Fields, Fields-agree}
use kfs.Kheap.Blocks.{Block, behind, Owned}

-- the word that `free` holds
abbrev pub flag : Bool → ℕ
flag b = if b then 1 else 0

pub record Header (m : Mem) (a : ℕ) (b : Block) (next : ℕ) : Type 0 where
  pub magic : ℕ
  pub fields : Fields m a b.size (flag b.free) magic next
  pub live : b.free ≡ false → magic ≡ magic_allocated
  pub aligned : b.size % 8 ≡ 0

-- the pointer to a list of blocks at `a`
abbrev pub start : ℕ → List Block → ℕ
start a [] = 0
start a (b ∷ bs) = a

-- The headers from `a` on describe `bs`, which ends at `end`.
abbrev pub Chain : Mem → ℕ → ℕ → List Block → Type 0
Chain m end a [] = a ≡ end
Chain m end a (b ∷ bs) = Header m a b (start (behind a b) bs) × Chain m end (behind a b) bs

pub record IsHeap (h : Kheap) (m : Mem) (bs : List Block) : Type 0 where
  pub above : header_size ≤ h.heap_base
  pub fits : h.heap_base + h.heap_size < 2 ^ 32
  pub listed : h.free_list ≡ start h.heap_base bs
  pub chained : Chain m (h.heap_base + h.heap_size) h.heap_base bs

pub Chain-le : (m : Mem) (end a : ℕ) (bs : List Block) → Chain m end a bs → a + 16 * length bs ≤ end
Chain-le m end a [] c = omega arith
Chain-le m end a (b ∷ bs) (h, c) = omega (arith, Chain-le m end (behind a b) bs c)

pub Header-agree :
    {m : Mem} {a next : ℕ} {b : Block} (n : Mem)
    → Header m a b next
    → ((x : ℕ) → a ≤ x → x < a + 16 → n x ≡ m x)
    → Header n a b next
Header-agree n h same = record {
  magic = h.magic;
  fields = Fields-agree h.fields n same;
  live = h.live;
  aligned = h.aligned;
}

-- A chain depends on the memory from its first header on.
pub Chain-agree :
    (m n : Mem) (end a : ℕ) (bs : List Block)
    → Chain m end a bs
    → ((x : ℕ) → a ≤ x → n x ≡ m x)
    → Chain n end a bs
Chain-agree m n end a [] c same = c
Chain-agree m n end a (b ∷ bs) (h, c) same = (
  Header-agree n h (λ x lo hi. same x lo),
  Chain-agree m n end (behind a b) bs c (λ x lo. same x (omega arith)),
)

pub Owned-le : (x a : ℕ) (bs : List Block) → Owned x a bs → a + 16 ≤ x
Owned-le x a [] o = absurd o
Owned-le x a (b ∷ bs) (inl o) = omega (arith, o.1)
Owned-le x a (b ∷ bs) (inr o) = omega (arith, Owned-le x (behind a b) bs o)
