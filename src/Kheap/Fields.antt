-- ===== src/Kheap/Fields.antt =====
-- The four words of a block header, and what one store does to them.
use kfs.Base.{ℕ, ◌+◌, ◌^◌, ◌≤◌, ◌<◌, ◌≡◌, refl, ◌∙◌, ◌⊎◌, arith}
use kfs.Machine.Mem.{Mem, load32, store32, load32-store32, load32-store32_ne, load32_agree}
use kfs.Kheap.{size_at, free_at, magic_at, next_at}

pub record Fields (m : Mem) (a size free magic next : ℕ) : Type 0 where
  pub size_field : load32 m (size_at a) ≡ size
  pub free_field : load32 m (free_at a) ≡ free
  pub magic_field : load32 m (magic_at a) ≡ magic
  pub next_field : load32 m (next_at a) ≡ next

-- what the header at `a` holds
pub read-Fields :
    (m : Mem) (a : ℕ)
    → Fields m a
        (load32 m (size_at a))
        (load32 m (free_at a))
        (load32 m (magic_at a))
        (load32 m (next_at a))
read-Fields m a = record {
  size_field = refl;
  free_field = refl;
  magic_field = refl;
  next_field = refl;
}

module _ {m : Mem} {a size free magic next : ℕ} (f : Fields m a size free magic next) where
  pub Fields-agree :
      (n : Mem) → ((x : ℕ) → a ≤ x → x < a + 16 → n x ≡ m x) → Fields n a size free magic next
  Fields-agree n same = record {
    size_field =
        load32_agree m n (size_at a) (λ x lo hi. same x (omega arith) (omega arith)) ∙ f.size_field;
    free_field =
        load32_agree m n (free_at a) (λ x lo hi. same x (omega arith) (omega arith)) ∙ f.free_field;
    magic_field =
        load32_agree m n (magic_at a) (λ x lo hi. same x (omega arith) (omega arith))
        ∙ f.magic_field;
    next_field =
        load32_agree m n (next_at a) (λ x lo hi. same x (omega arith) (omega arith)) ∙ f.next_field;
  }

  pub Fields-store_ne :
      (p v : ℕ) → (p + 4 ≤ a) ⊎ (a + 16 ≤ p) → Fields (store32 m p v) a size free magic next
  Fields-store_ne p v h = record {
    size_field = load32-store32_ne m p v (size_at a) (omega arith) ∙ f.size_field;
    free_field = load32-store32_ne m p v (free_at a) (omega arith) ∙ f.free_field;
    magic_field = load32-store32_ne m p v (magic_at a) (omega arith) ∙ f.magic_field;
    next_field = load32-store32_ne m p v (next_at a) (omega arith) ∙ f.next_field;
  }

  pub Fields-store_size :
      {v : ℕ} → v < 2 ^ 32 → Fields (store32 m (size_at a) v) a v free magic next
  Fields-store_size {v} h = record {
    size_field = load32-store32 m a v h;
    free_field = load32-store32_ne m a v (free_at a) (omega arith) ∙ f.free_field;
    magic_field = load32-store32_ne m a v (magic_at a) (omega arith) ∙ f.magic_field;
    next_field = load32-store32_ne m a v (next_at a) (omega arith) ∙ f.next_field;
  }

  pub Fields-store_free :
      {v : ℕ} → v < 2 ^ 32 → Fields (store32 m (free_at a) v) a size v magic next
  Fields-store_free {v} h = record {
    size_field = load32-store32_ne m (free_at a) v a (omega arith) ∙ f.size_field;
    free_field = load32-store32 m (free_at a) v h;
    magic_field = load32-store32_ne m (free_at a) v (magic_at a) (omega arith) ∙ f.magic_field;
    next_field = load32-store32_ne m (free_at a) v (next_at a) (omega arith) ∙ f.next_field;
  }

  pub Fields-store_magic :
      {v : ℕ} → v < 2 ^ 32 → Fields (store32 m (magic_at a) v) a size free v next
  Fields-store_magic {v} h = record {
    size_field = load32-store32_ne m (magic_at a) v a (omega arith) ∙ f.size_field;
    free_field = load32-store32_ne m (magic_at a) v (free_at a) (omega arith) ∙ f.free_field;
    magic_field = load32-store32 m (magic_at a) v h;
    next_field = load32-store32_ne m (magic_at a) v (next_at a) (omega arith) ∙ f.next_field;
  }

  pub Fields-store_next :
      {v : ℕ} → v < 2 ^ 32 → Fields (store32 m (next_at a) v) a size free magic v
  Fields-store_next {v} h = record {
    size_field = load32-store32_ne m (next_at a) v a (omega arith) ∙ f.size_field;
    free_field = load32-store32_ne m (next_at a) v (free_at a) (omega arith) ∙ f.free_field;
    magic_field = load32-store32_ne m (next_at a) v (magic_at a) (omega arith) ∙ f.magic_field;
    next_field = load32-store32 m (next_at a) v h;
  }
