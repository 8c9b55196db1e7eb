-- ===== src/Paging/Fault.antt =====
-- src/paging.c: the cases of `page_fault_handler`.
use kfs.Base.{
  not, ℕ, ◌+◌, ◌*◌, ◌/◌, ◌%◌, ◌^◌, ◌≡◌, refl, inl, inr, arith, Bool, true, ◌==◌, ltb, leb,
  if◌then◌else◌, Bool-cases,
}
use kfs.Machine.Mem.{load32}
use kfs.Machine.Outcome.{Panic, halted}
use kfs.Paging.{
  Paging, is_present, page_fault_handler, virt_to_pte, user_zone_start, pd_index, pt_index,
  frame_of,
}
use kfs.Paging.Map.{entry, walk}

-- the message for a fault at `addr`, by whether the handler takes it for one of user code, and by the
-- page's entry
abbrev pub verdict : ℕ → Bool → ℕ → Panic
verdict addr user pte =
    if ltb addr 0x0010_0000
    then Panic.bios_access
    else if not user
    then Panic.page_fault
    else if ltb addr user_zone_start
    then Panic.user_access_kernel
    else if is_present pte
    then Panic.user_access_supervisor
    else Panic.page_fault

module _ (pd : ℕ) where
  -- `page_fault_handler` never returns. Its message depends on the address, on bit 2 of the word that
  -- it reads at 28(%esp), and where that bit is set and the address lies in the user zone on whether
  -- the page is mapped.
  pub page_fault_handler-verdict :
      (addr stack_word : ℕ) (s : Paging)
      → page_fault_handler pd addr stack_word s
        ≡ halted (verdict addr (stack_word / 2 ^ 2 % 2 == 1) (walk pd s.mem addr))
  unfolding page_fault_handler virt_to_pte
  page_fault_handler-verdict addr stack_word s = elim (Bool-cases (ltb addr 0x0010_0000)) [
    | inl bios ↦ rw bios refl
    | inr high ↦ elim (Bool-cases (stack_word / 2 ^ 2 % 2 == 1)) [
      | inr kernel ↦ rw (high, kernel) refl
      | inl user ↦ elim (Bool-cases (ltb addr user_zone_start)) [
        | inl low ↦ rw (high, user, low) refl
        | inr zone ↦
            let up : leb user_zone_start addr ≡ true = ground arith in
            elim (Bool-cases (is_present (entry pd s.mem (pd_index addr)))) [
              | inr absent ↦ rw (high, user, zone, up, absent) refl
              | inl found ↦
                  elim (Bool-cases (
                    is_present (
                      load32 s.mem
                        (frame_of (entry pd s.mem (pd_index addr)) + 4 * pt_index addr)))) [
                          | inl there ↦ rw (high, user, zone, up, found, there) refl
                          | inr gone ↦ rw (high, user, zone, up, found, gone) refl
                        ]
            ]
      ]
    ]
  ]
