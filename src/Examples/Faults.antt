-- ===== src/Examples/Faults.antt =====
-- A processor that reads the entry of the page before it stores, and the command that it stops.
use kfs.Paging.Registers.{IsOn}
use kfs.Base.{
  ◌&&◌, ℕ, ◌+◌, ◌/◌, ◌%◌, ◌≡◌, inl, inr, refl, sym, ◌∙◌, arith, ◌==◌, if◌then◌else◌, Bool, ◌^◌, [],
}
use kfs.Machine.Mem.{store32, load32}
use kfs.Machine.Outcome.{ok-injective}
use kfs.Paging.{Paging, is_present, frame_of}
use kfs.Paging.Map.{walk, vmm_get_mapping-walk}
use kfs.Kernel.{Kernel, Board}
use kfs.Kernel.Faults.{cmd_rotest}
use kfs.Kernel.Protection.{IsProtected, cmd_rotest-Faults, Faults}
use kfs.Examples.Session.{board, idle}
use kfs.Examples.Tables.{one_table, one_table-IsSeparate, fresh}

-- the physical address
abbrev physical : ℕ → Paging → ℕ
physical virt s = frame_of (walk 0x1000 s.mem virt) + virt % 2 ^ 12

-- write protection and paging, as the processor reads them
abbrev refuses : ℕ → Paging → Bool
refuses virt s =
    (s.cr0 / 2 ^ 16 % 2 == 1)
    && (s.cr0 / 2 ^ 31 % 2 == 1)
    && (s.cr3 == 0x1000)
    && (walk 0x1000 s.mem virt / 2 % 2 == 0)

abbrev checked : Board
checked = record board {
  load = λ virt s.
      if is_present (walk 0x1000 s.mem virt) then inr (load32 s.mem (physical virt s)) else inl 0;
  store = λ virt v s. if refuses virt s then inl 3 else inr (store32 s.mem (physical virt s) v);
}

checked-IsProtected : IsProtected checked
checked-IsProtected = record {
  read_only = λ virt v pte s on e clear.
      let entry : walk 0x1000 s.mem virt ≡ pte =
        ok-injective _ _ (sym (vmm_get_mapping-walk 0x1000 virt s) ∙ e) in
      (3, rw (entry, clear, on.write_protect, on.paging, on.directory) refl);
}

one_table-IsOn : IsOn 0x1000 one_table
one_table-IsOn = record { write_protect = refl; paging = refl; directory = refl }

abbrev paged : Kernel
paged = record idle { paging = one_table }

cmd_rotest-Faults_example : Faults (cmd_rotest checked [] paged)
cmd_rotest-Faults_example =
    cmd_rotest-Faults checked [] paged checked-IsProtected one_table-IsOn one_table-IsSeparate
      (omega (arith, fresh.count))
