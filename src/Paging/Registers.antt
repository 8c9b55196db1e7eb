-- ===== src/Paging/Registers.antt =====
-- src/paging.c: the registers CR0 and CR3, after `paging_init` and `paging_enable`.
use kfs.Base.{ℕ, ◌/◌, ◌%◌, ◌^◌, ◌≡◌, refl, ◌∙◌, arith, bit_or}
use kfs.Machine.Bits.{bit_or-div, bit_or-mod_two}
use kfs.Paging.{Paging, paging_init, paging_enable}

-- write protection and paging are on, with the tables of the directory at `pd`
pub record IsOn (pd : ℕ) (s : Paging) : Type 0 where
  pub write_protect : s.cr0 / 2 ^ 16 % 2 ≡ 1
  pub paging : s.cr0 / 2 ^ 31 % 2 ≡ 1
  pub directory : s.cr3 ≡ pd

-- the registers are the same in both states
abbrev pub SameRegisters : Paging → Paging → Type 0
SameRegisters s t = (t.cr0 ≡ s.cr0) × (t.cr3 ≡ s.cr3)

pub IsOn-SameRegisters : (pd : ℕ) (s t : Paging) → SameRegisters s t → IsOn pd s → IsOn pd t
IsOn-SameRegisters pd s t (same, same') on = record {
  write_protect = rw same on.write_protect;
  paging = rw same on.paging;
  directory = same' ∙ on.directory;
}

pub paging_enable-IsOn :
    (pd tables : ℕ) (s : Paging) → IsOn pd (paging_enable (paging_init pd tables s))
unfolding paging_enable paging_init
paging_enable-IsOn pd tables s =
    let protected = bit_or s.cr0 (2 ^ 16) in
    record {
      write_protect =
          let outer = bit_or-div 16 protected 0x8000_0000 in
          let inner = bit_or-div 16 s.cr0 (2 ^ 16) in
          rw (outer, inner)
            (ground (
              arith,
              bit_or-mod_two (bit_or (s.cr0 / 2 ^ 16) 1) (2 ^ 15),
              bit_or-mod_two (s.cr0 / 2 ^ 16) 1,
            ));
      paging =
          rw (bit_or-div 31 protected 0x8000_0000)
            (ground (arith, bit_or-mod_two (protected / 2 ^ 31) 1));
      directory = refl;
    }
