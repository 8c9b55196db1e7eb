-- ===== src/String.antt =====
-- src/string.c on byte memory. A loop that runs until a zero byte takes fuel; the pointer that a
-- function returns is the argument it was given, and is left out.
pub mod Text
pub mod Measure
pub mod Copy
pub mod Blocks
use kfs.Base.{ℕ, zero, suc, ◌+◌, ◌%◌, ◌^◌, ◌==◌, ltb, not, ◌&&◌, true, false, if◌then◌else◌}
use kfs.Machine.Mem.{Mem, store8}
use kfs.Machine.Int.{ℤ, difference}
use kfs.Machine.Outcome.{Outcome, ok, out_of_fuel, ◌>>=◌}

unfoldable pub strlen_from : ℕ → Mem → ℕ → ℕ → Outcome ℕ
strlen_from zero m str len = out_of_fuel
strlen_from (suc fuel) m str len = elim (m (str + len) == 0) [
  | true ↦ ok len
  | false ↦ strlen_from fuel m str (len + 1)
]

unfoldable pub strlen : ℕ → Mem → ℕ → Outcome ℕ
strlen fuel m str = strlen_from fuel m str 0

unfoldable pub strcmp : ℕ → Mem → ℕ → ℕ → Outcome ℤ
strcmp zero m s1 s2 = out_of_fuel
strcmp (suc fuel) m s1 s2 = elim (not (m s1 == 0) && (m s1 == m s2)) [
  | true ↦ strcmp fuel m (s1 + 1) (s2 + 1)
  | false ↦ ok (difference (m s1) (m s2))
]

unfoldable pub strcpy : ℕ → Mem → ℕ → ℕ → Outcome Mem
strcpy zero m dest src = out_of_fuel
strcpy (suc fuel) m dest src = elim (m src == 0) [
  | true ↦ ok (store8 m dest (m src))
  | false ↦ strcpy fuel (store8 m dest (m src)) (dest + 1) (src + 1)
]

-- the second loop of `strncpy`, by the rounds left: bytes `i` to `i + left` become 0
unfoldable pub pad_from : ℕ → Mem → ℕ → ℕ → Mem
pad_from zero m dest i = m
pad_from (suc left) m dest i = pad_from left (store8 m (dest + i) 0) dest (i + 1)

-- the first loop of `strncpy`, by the rounds left, and then the second
unfoldable pub strncpy_from : ℕ → Mem → ℕ → ℕ → ℕ → Mem
unfolding pad_from
strncpy_from zero m dest src i = m
strncpy_from (suc left) m dest src i = elim (m (src + i) == 0) [
  | true ↦ pad_from (suc left) m dest i
  | false ↦ strncpy_from left (store8 m (dest + i) (m (src + i))) dest src (i + 1)
]

unfoldable pub strncpy : Mem → ℕ → ℕ → ℕ → Mem
strncpy m dest src n = strncpy_from n m dest src 0

-- `strcat` with the walk to the end of `dest`
unfoldable pub strcat : ℕ → Mem → ℕ → ℕ → Outcome Mem
unfolding strcpy
strcat zero m dest src = out_of_fuel
strcat (suc fuel) m dest src = elim (m dest == 0) [
  | true ↦ strcpy (suc fuel) m dest src
  | false ↦ strcat fuel m (dest + 1) src
]

unfoldable pub memset : Mem → ℕ → ℕ → ℕ → Mem
memset m p value zero = m
memset m p value (suc num) = memset (store8 m p value) (p + 1) value num

unfoldable pub memcpy : Mem → ℕ → ℕ → ℕ → Mem
memcpy m d s zero = m
memcpy m d s (suc num) = memcpy (store8 m d (m s)) (d + 1) (s + 1) num
