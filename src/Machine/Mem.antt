-- ===== src/Machine/Mem.antt =====
-- Bytes at addresses, and the little-endian 32-bit words that the code reads and writes there.
use kfs.Base.{ℕ, ◌+◌, ◌*◌, ◌/◌, ◌%◌, ◌^◌, ◌≤◌, ◌<◌, ◌≡◌, ◌⊎◌, arith, ◌==◌, if◌then◌else◌}

abbrev pub Mem : Type 0
Mem = ℕ → ℕ

-- `*(uint32_t *)a`
unfoldable pub load32 : Mem → ℕ → ℕ
load32 m a = m a + m (a + 1) * 2 ^ 8 + m (a + 2) * 2 ^ 16 + m (a + 3) * 2 ^ 24

-- `*(uint8_t *)a = v`
unfoldable pub store8 : Mem → ℕ → ℕ → Mem
store8 m a v b = if b == a then v % 2 ^ 8 else m b

-- `*(uint32_t *)a = v`
unfoldable pub store32 : Mem → ℕ → ℕ → Mem
store32 m a v b =
    if b == a
    then v % 2 ^ 8
    else if b == a + 1
    then v / 2 ^ 8 % 2 ^ 8
    else if b == a + 2
    then v / 2 ^ 16 % 2 ^ 8
    else if b == a + 3
    then v / 2 ^ 24 % 2 ^ 8
    else m b

module _ (m : Mem) (a v : ℕ) where
  pub store32_outside : (b : ℕ) → (b < a) ⊎ (a + 4 ≤ b) → store32 m a v b ≡ m b
  unfolding store32
  store32_outside b h = ground arith

  store32_bytes :
      (store32 m a v a ≡ v % 2 ^ 8)
      × (store32 m a v (a + 1) ≡ v / 2 ^ 8 % 2 ^ 8)
      × (store32 m a v (a + 2) ≡ v / 2 ^ 16 % 2 ^ 8)
      × (store32 m a v (a + 3) ≡ v / 2 ^ 24 % 2 ^ 8)
  unfolding store32
  store32_bytes = ground arith

  pub load32-store32 : v < 2 ^ 32 → load32 (store32 m a v) a ≡ v
  unfolding load32
  load32-store32 h = omega (arith, store32_bytes)

-- A word depends on its four bytes only.
pub load32_agree :
    (m n : Mem) (a : ℕ) → ((b : ℕ) → a ≤ b → b < a + 4 → n b ≡ m b) → load32 n a ≡ load32 m a
unfolding load32
load32_agree m n a h = omega (
  arith,
  h a (omega arith) (omega arith),
  h (a + 1) (omega arith) (omega arith),
  h (a + 2) (omega arith) (omega arith),
  h (a + 3) (omega arith) (omega arith),
)

pub load32-store32_ne :
    (m : Mem) (a v b : ℕ) → (b + 4 ≤ a) ⊎ (a + 4 ≤ b) → load32 (store32 m a v) b ≡ load32 m b
load32-store32_ne m a v b h =
    load32_agree m (store32 m a v) b (λ c lo hi. store32_outside m a v c (ground arith))
