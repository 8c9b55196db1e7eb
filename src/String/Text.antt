-- ===== src/String/Text.antt =====
-- What a C string in memory is: bytes other than 0, and a 0 behind them.
use kfs.Base.{ℕ, ◌+◌, ◌^◌, ◌≤◌, ◌<◌, ◌≡◌, ◌≢◌, ◌∙◌, arith, List, [], ◌∷◌, length}
use kfs.Machine.Mem.{Mem, store8}

abbrev pub IsText : Mem → ℕ → List ℕ → Type 0
IsText m p [] = m p ≡ 0
IsText m p (c ∷ cs) = (m p ≡ c) × (c ≢ 0) × (c < 2 ^ 8) × IsText m (p + 1) cs

pub IsText-agree :
    (m n : Mem) (p : ℕ) (cs : List ℕ)
    → IsText m p cs
    → ((x : ℕ) → p ≤ x → x ≤ p + length cs → n x ≡ m x)
    → IsText n p cs
IsText-agree m n p [] t same = same p (omega arith) (omega arith) ∙ t
IsText-agree m n p (c ∷ cs) (e, ne, small, t) same = (
  same p (omega arith) (omega arith) ∙ e,
  ne,
  small,
  IsText-agree m n (p + 1) cs t (λ x lo hi. same x (omega arith) (omega arith)),
)

pub store8_here : (m : Mem) (a v : ℕ) → v < 2 ^ 8 → store8 m a v a ≡ v
unfolding store8
store8_here m a v h = ground arith

pub store8_ne : (m : Mem) (a v x : ℕ) → x ≢ a → store8 m a v x ≡ m x
unfolding store8
store8_ne m a v x h = ground arith
