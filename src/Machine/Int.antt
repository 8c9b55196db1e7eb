-- ===== src/Machine/Int.antt =====
-- The values of a C `int`, on the native natural numbers.
use kfs.Base.{ℕ, ◌-◌, leb, if◌then◌else◌}

pub data ℤ : Type 0 where
  pos : ℕ → ℤ
  negsuc : ℕ → ℤ

-- `a - b` for two unsigned values that the type holds
abbrev pub difference : ℕ → ℕ → ℤ
difference a b = if leb b a then pos (a - b) else negsuc (b - a - 1)
