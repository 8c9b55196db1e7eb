-- ===== src/Kernel/Protection.antt =====
-- src/shell.c: the commands that lead to a page fault, for a processor that checks the page tables.
use kfs.Paging.Fault.{verdict}
use kfs.Paging.Map.{walk}
use kfs.Paging.{user_zone_start, is_present}
use kfs.Machine.Outcome.{Outcome, ◌>>=◌}
use kfs.Paging.Registers.{IsOn, IsOn-SameRegisters}
use kfs.Base.{
  Bool-cases, Bool, ℕ, ◌+◌, ◌*◌, ◌/◌, ◌%◌, ◌^◌, ◌≤◌, ◌<◌, ◌≡◌, ◌⊎◌, inl, inr, refl, arith, ◌==◌,
  ==-ne, ltb, false, List, bit_or,
}
use kfs.Machine.Outcome.{Panic, ok, halted, >>=-eq-halted, ok->>=}
use kfs.Machine.Bits.{bit_or-add, bit_or-div, bit_or-mod_two}
use kfs.Pmm.{Pmm, pmm_alloc_page, pmm_start, page_size, take_page}
use kfs.Pmm.Alloc.{pmm_alloc_page-IsLowestFree, pmm_alloc_page-IsValid}
use kfs.Paging.{Paging, vmm_get_mapping, page_fault_handler, page_present, pte_value}
use kfs.Paging.Map.{IsSeparate}
use kfs.Paging.Table.{IsSeparate-take_page}
use kfs.Paging.Mapping.{Mapped, vmm_map_page-Mapped}
use kfs.Paging.Fault.{page_fault_handler-verdict}
use kfs.Kernel.{Kernel, Board, load_virt, store_virt}
use kfs.Kernel.Faults.{cmd_rotest, write_protected}

-- What the processor documents of a store of the kernel: with write protection and paging on, and the
-- directory in CR3, it faults at a page whose entry lacks the write bit.
pub record IsProtected (b : Board) : Type 0 where
  pub read_only :
      (virt v pte : ℕ) (s : Paging)
      → IsOn b.page_directory s
      → vmm_get_mapping b.page_directory virt s ≡ ok pte
      → pte / 2 % 2 ≡ 0
      → (stack_word : ℕ) × (b.store virt v s ≡ inl stack_word)

-- a panic of the page fault handler for an address of the user zone
abbrev pub FaultPanic : Panic → Type 0
FaultPanic p = (p ≡ Panic.page_fault) ⊎ (p ≡ Panic.user_access_supervisor)

-- The outcome is such a panic.
abbrev pub Faults : {A : Type 0} → Outcome A → Type 0
Faults {A} o = (p : Panic) × FaultPanic p × (◌≡◌ {A = Outcome A} o (halted p))

Faults->>= : {A B : Type 0} (o : Outcome A) (f : A → Outcome B) → Faults o → Faults (o >>= f)
Faults->>= o f (p, which, e) = (p, which, >>=-eq-halted o f p e)

Faults-after :
    {A B : Type 0} (o : Outcome A) (f : A → Outcome B) (a : A)
    → o ≡ ok a
    → Faults (f a)
    → Faults (o >>= f)
Faults-after o f a e (p, which, h) = (p, which, ok->>= o f a (halted p) e h)

either_way : {A B : Type 0} (o : A ⊎ B) → ((a : A) × (o ≡ inl a)) ⊎ ((c : B) × (o ≡ inr c))
either_way (inl a) = inl (a, refl)
either_way (inr c) = inr (c, refl)

verdict-FaultPanic :
    (addr pte : ℕ) (user : Bool) → user_zone_start ≤ addr → FaultPanic (verdict addr user pte)
verdict-FaultPanic addr pte user zone =
    let high : ltb addr 0x0010_0000 ≡ false = ground arith in
    let up : ltb addr user_zone_start ≡ false = ground arith in
    elim (Bool-cases user) [
      | inr kernel ↦ rw (high, kernel) (inl refl)
      | inl by_user ↦ elim (Bool-cases (is_present pte)) [
        | inl there ↦ rw (high, by_user, up, there) (inr refl)
        | inr gone ↦ rw (high, by_user, up, gone) (inl refl)
      ]
    ]

handler-Faults :
    (pd addr stack_word : ℕ) (s : Paging)
    → user_zone_start ≤ addr
    → Faults (page_fault_handler pd addr stack_word s)
handler-Faults pd addr stack_word s zone = (
  _,
  verdict-FaultPanic addr (walk pd s.mem addr) (stack_word / 2 ^ 2 % 2 == 1) zone,
  page_fault_handler-verdict pd addr stack_word s,
)

load_virt-Faults :
    (b : Board) (virt w : ℕ) (k : Kernel)
    → user_zone_start ≤ virt
    → b.load virt k.paging ≡ inl w
    → Faults (load_virt b virt k)
unfolding load_virt
load_virt-Faults b virt w k zone e =
    rw (load_virt, e) (Faults->>= _ _ (handler-Faults b.page_directory virt w k.paging zone))

store_virt-Faults :
    (b : Board) (virt v w : ℕ) (k : Kernel)
    → user_zone_start ≤ virt
    → b.store virt v k.paging ≡ inl w
    → Faults (store_virt b virt v k)
unfolding store_virt
store_virt-Faults b virt v w k zone e =
    rw (store_virt, e) (Faults->>= _ _ (handler-Faults b.page_directory virt w k.paging zone))

load_virt-word :
    (b : Board) (virt w : ℕ) (k : Kernel) → b.load virt k.paging ≡ inr w → load_virt b virt k ≡ ok w
unfolding load_virt
load_virt-word b virt w k e = rw (load_virt, e) refl

write_protected-Faults :
    (b : Board) (virt phys pte : ℕ) (k : Kernel)
    → IsProtected b
    → user_zone_start ≤ virt
    → IsOn b.page_directory k.paging
    → vmm_get_mapping b.page_directory virt k.paging ≡ ok pte
    → pte / 2 % 2 ≡ 0
    → Faults (write_protected b virt phys k)
unfolding write_protected
write_protected-Faults b virt phys pte k p zone on e clear =
    elim (either_way (b.load virt k.paging)) [
      | inl (w, l) ↦ Faults->>= (load_virt b virt k) _ (load_virt-Faults b virt w k zone l)
      | inr (x, l) ↦
          let (w, st) = p.read_only virt 0xdead_beef pte k.paging on e clear in
          Faults-after (load_virt b virt k) _ x (load_virt-word b virt x k l) (
            Faults->>= (store_virt b virt 0xdead_beef _) _
              (store_virt-Faults b virt 0xdead_beef w _ zone st))
    ]

-- a page that was taken and mapped
record FreshPage (pd virt flags : ℕ) (s : Paging) : Type 0 where
  phys : ℕ
  pmm : Pmm
  allocated : pmm_alloc_page s.pmm ≡ ok (phys, pmm)
  nonnull : (phys == 0) ≡ false
  aligned : phys % 2 ^ 12 ≡ 0
  mapped : Mapped pd virt phys flags (record s { pmm = pmm })

fresh_page :
    (pd virt flags : ℕ) (s : Paging)
    → virt < 2 ^ 32
    → IsSeparate pd s
    → 1 < s.pmm.free_pages
    → FreshPage pd virt flags s
fresh_page pd virt flags s hv v two =
    let (j, low, e) = pmm_alloc_page-IsLowestFree v.valid (omega arith) in
    let (valid, left) = pmm_alloc_page-IsValid v.valid e in
    let taken = record s { pmm = take_page j s.pmm } in
    record {
      phys = pmm_start + j * page_size;
      pmm = take_page j s.pmm;
      allocated = e;
      nonnull = ==-ne _ 0 (omega arith);
      aligned = omega arith;
      mapped =
          vmm_map_page-Mapped pd virt (pmm_start + j * page_size) flags taken hv
            (omega (arith, low.inside, v.valid.small)) (omega (arith, left))
            (IsSeparate-take_page pd s j v low);
    }

-- the entry of a page that is mapped for reading only
read_only-entry : (phys : ℕ) → phys % 2 ^ 12 ≡ 0 → pte_value phys page_present / 2 % 2 ≡ 0
read_only-entry phys aligned =
    let frame : ℕ = phys / 2 ^ 12 in
    let first : bit_or (frame * 2 ^ 12) 1 ≡ frame * 2 ^ 12 + 1 =
      bit_or-add 12 frame 1 (omega arith) in
    let again : bit_or (frame * 2 ^ 12 + 1) 1 / 2 ≡ bit_or ((frame * 2 ^ 12 + 1) / 2) 0 =
      bit_or-div 1 (frame * 2 ^ 12 + 1) 1 in
    rw (first, again) (ground (arith, bit_or-mod_two ((frame * 2 ^ 12 + 1) / 2) 0))

-- With write protection and paging on, the directory in CR3, the tables apart and two free pages,
-- `cmd_rotest` ends in one of the panics of the page fault handler for the user zone, if the processor
-- then refuses a store to a page without the write bit: it never gets to its last lines.
pub cmd_rotest-Faults :
    (b : Board) (argv : List (List ℕ)) (k : Kernel)
    → IsProtected b
    → IsOn b.page_directory k.paging
    → IsSeparate b.page_directory k.paging
    → 1 < k.paging.pmm.free_pages
    → Faults (cmd_rotest b argv k)
unfolding cmd_rotest
cmd_rotest-Faults b argv k p on v two =
    let f = fresh_page b.page_directory 0x5000_0000 page_present k.paging (omega arith) v two in
    let kept = IsOn-SameRegisters b.page_directory k.paging f.mapped.after f.mapped.registers on in
    Faults-after _ _ (f.phys, _) (ok->>= _ _ (f.phys, f.pmm) _ f.allocated refl)
      (rw f.nonnull (
        Faults-after _ _ (0, _) (ok->>= _ _ (0, f.mapped.after) _ f.mapped.returns refl)
          (write_protected-Faults b 0x5000_0000 f.phys _ _ p (omega arith) kept f.mapped.mapped
            (read_only-entry f.phys f.aligned))))
