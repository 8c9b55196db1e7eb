-- ===== src/Paging/Entry.antt =====
-- The entries of page directory and page tables: frame, present bit, width.
use kfs.Base.{ℕ, ◌*◌, ◌/◌, ◌%◌, ◌^◌, ◌<◌, ◌≡◌, ap, ◌∙◌, arith, bit_or, true, leb, if◌then◌else◌}
use kfs.Machine.Bits.{bit_or_low, bit_or-div, bit_or-mod_two}
use kfs.Paging.{
  page_write, page_present, frame_of, is_present, table_entry, pte_value, page_user,
  user_zone_start,
}

frame_of-bit_or : (a b : ℕ) → b < 2 ^ 12 → frame_of (bit_or a b) ≡ frame_of a
frame_of-bit_or a b h = ap (λ t. t * 2 ^ 12) (bit_or_low 12 a b h)

bit_or-lt : (a b : ℕ) → a < 2 ^ 32 → b < 2 ^ 32 → bit_or a b < 2 ^ 32
bit_or-lt a b h k =
    let p : a / 2 ^ 32 ≡ 0 = omega arith in
    let q : b / 2 ^ 32 ≡ 0 = omega arith in
    let z : bit_or a b / 2 ^ 32 ≡ 0 = rw (bit_or-div 32 a b, p, q) in omega (arith, z)

user_flag-lt : (virt : ℕ) → (if leb user_zone_start virt then page_user else 0) < 8
user_flag-lt virt = ground arith

-- The entry for a new table names the table, is present, and fits a word.
pub table_entry-fields :
    (virt table : ℕ)
    → table % 2 ^ 12 ≡ 0
    → table < 2 ^ 32
    → (frame_of (table_entry virt table) ≡ table)
      × (is_present (table_entry virt table) ≡ true)
      × (table_entry virt table < 2 ^ 32)
table_entry-fields virt table aligned small =
    let u : ℕ = if leb user_zone_start virt then page_user else 0 in
    let low = user_flag-lt virt in
    let t1 = bit_or table page_present in
    let t2 = bit_or t1 page_write in
    (
      frame_of-bit_or t2 u (omega (arith, low))
          ∙ frame_of-bit_or t1 page_write (omega arith)
          ∙ frame_of-bit_or table page_present (omega arith)
          ∙ omega arith,
      ground (arith, bit_or-mod_two t2 u, bit_or-mod_two t1 page_write, bit_or-mod_two table 1),
      bit_or-lt t2 u
          (bit_or-lt t1 page_write (bit_or-lt table page_present small (omega arith)) (omega arith))
          (omega (arith, low)),
    )

pub pte_value-fields :
    (phys flags : ℕ)
    → phys < 2 ^ 32
    → (frame_of (pte_value phys flags) ≡ frame_of phys)
      × (is_present (pte_value phys flags) ≡ true)
      × (pte_value phys flags < 2 ^ 32)
pte_value-fields phys flags small =
    let f = flags % 2 ^ 12 in
    let t = bit_or (frame_of phys) f in
    (
      frame_of-bit_or t page_present (omega arith)
          ∙ frame_of-bit_or (frame_of phys) f (omega arith)
          ∙ omega arith,
      ground (arith, bit_or-mod_two t page_present),
      bit_or-lt t page_present (bit_or-lt (frame_of phys) f (omega arith) (omega arith))
          (omega arith),
    )

-- An entry that `paging_init` writes: for the frame `a`, present and writable.
pub kernel_entry-fields :
    (a : ℕ)
    → a % 2 ^ 12 ≡ 0
    → a < 2 ^ 32
    → let e = bit_or (bit_or a page_present) page_write in
      (frame_of e ≡ a) × (is_present e ≡ true) × (e < 2 ^ 32)
kernel_entry-fields a aligned small =
    let t = bit_or a page_present in
    (
      frame_of-bit_or t page_write (omega arith)
          ∙ frame_of-bit_or a page_present (omega arith)
          ∙ omega arith,
      ground (arith, bit_or-mod_two t page_write, bit_or-mod_two a page_present),
      bit_or-lt t page_write (bit_or-lt a page_present small (omega arith)) (omega arith),
    )
