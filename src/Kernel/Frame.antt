-- ===== src/Kernel/Frame.antt =====
-- src/shell.c: what a command leaves alone on the console: which screen is active, the other screens,
-- and the length of the typed line and the place in it.
pub mod Commands
pub mod Trials
pub mod Access
pub mod Shell
use kfs.Kheap.{kfree}
use kfs.Vmem.{vfree}
use kfs.Pmm.{pmm_free_page}
use kfs.Kernel.Alloc.{call_kfree, call_vfree}
use kfs.Kernel.Trials.{call_free_page}
use kfs.Machine.Mem.{load32}
use kfs.Kheap.{is_valid_kheap_block, magic_allocated, outside_heap, magic_at, header_size}
use kfs.Vmem.{
  is_valid_allocated_block, vmem_magic_allocated, kvmem_start, block_magic_at, block_size,
}
use kfs.Kernel.{out8, out16, interrupt}
use Prim.Native.String.{[], String}
use kfs.Base.{
  [], ◌∷◌, ◌∷◌, leb, ◌||◌, not, ltb, ◌==◌, ◌⊎◌, Option, ℕ, ◌≡◌, refl, ◌∙◌, Bool, Bool-cases, true,
  false, inl, inr, if◌then◌else◌, List, none, some,
}
use kfs.Machine.Word.{sub32}
use kfs.Machine.Outcome.{Panic, Outcome, ok, halted, ◌>>=◌}
use kfs.Machine.Yields.{
  Yields, Yields-ok, Yields-halted, Yields-if, Yields->>=, Yields-nested, Yields-after,
}
use kfs.Screen.{screen_clear, Console, screen_putstring}
use kfs.Screen.Frame.{frame-screen_clear, frame, frame-screen_putstring}
use kfs.Print.{word, Arg, kprintfv}
use kfs.Kernel.{
  set_mem, page_fault_handler, Mem, note, Kernel, Board, Command, kprintf, codes, print, give,
  load_virt, store_virt,
}
use kfs.Kernel.Alloc.{refused, ksize_message, vsize_message}

-- the console `d` has the frame of `c`
pub record IsFramed (c d : Console) : Type 0 where
  pub same : frame d ≡ frame c

frame-shown :
    (o : Option (List ℕ)) (c : Console)
    → frame (elim o [ none ↦ c | some out ↦ screen_putstring out c ]) ≡ frame c
frame-shown none c = refl
frame-shown (some out) c = frame-screen_putstring out c

frame-kprintf :
    (fmt : String) (args : List Arg) (c : Console) → frame (kprintf fmt args c) ≡ frame c
unfolding kprintf
frame-kprintf fmt args c = frame-shown (kprintfv (codes fmt) args) c

pub IsFramed-kprintf :
    (c d : Console) (fmt : String) (args : List Arg)
    → IsFramed c d
    → IsFramed c (kprintf fmt args d)
IsFramed-kprintf c d fmt args h = record { same = frame-kprintf fmt args d ∙ h.same }

pub IsFramed-refl : (c : Console) → IsFramed c c
IsFramed-refl c = record { same = refl }

-- the messages of `ksize` and `vsize`: none, or one of three
IsFramed-tests :
    (null outside free refused : Bool) (c d : Console) (f : String) (fa : List Arg) (g : String)
    (ga : List Arg) (h : String) (ha : List Arg)
    → IsFramed c d
    → IsFramed c (
        if null
        then d
        else if outside
        then kprintf f fa d
        else if free
        then kprintf g ga d
        else if refused
        then kprintf h ha d
        else d)
IsFramed-tests true o a r c d f fa g ga h ha i = i
IsFramed-tests false true a r c d f fa g ga h ha i = IsFramed-kprintf c d f fa i
IsFramed-tests false false true r c d f fa g ga h ha i = IsFramed-kprintf c d g ga i
IsFramed-tests false false false true c d f fa g ga h ha i = IsFramed-kprintf c d h ha i
IsFramed-tests false false false false c d f fa g ga h ha i = i

-- the kernel's console has the frame of `c`
abbrev pub Within : Console → Kernel → Type 0
Within c k = IsFramed c k.console

pub Within-if :
    (b : Bool) (c : Console) (k l : Kernel)
    → Within c k
    → Within c l
    → Within c (if b then k else l)
Within-if true c k l h h' = h
Within-if false c k l h h' = h'

pub Within-print :
    (c : Console) (k : Kernel) (fmt : String) (args : List Arg)
    → Within c k
    → Within c (print fmt args k)
Within-print c k fmt args h = IsFramed-kprintf c k.console fmt args h

pub IsFramed-ksize_message :
    (c : Console) (p : ℕ) (k : Kernel) → Within c k → IsFramed c (ksize_message p k)
unfolding ksize_message
IsFramed-ksize_message c p k h =
    let blk : ℕ = sub32 p header_size in
    let magic : ℕ = load32 k.paging.mem (magic_at blk) in
    IsFramed-tests (p == 0) (outside_heap k.kheap p) (not (magic == magic_allocated))
      (refused (is_valid_kheap_block blk k.kheap k.paging.mem)) c k.console
      "[ERROR]ksize: invalid pointer %x (outside kernel heap)\n" (word p ∷ [])
      "[ERROR] ksize: pointer %x refers to non-allocated block (magic=%x)\n"
      (word p ∷ word magic ∷ []) "[ERROR] ksize: pointer %x fails allocation validation\n"
      (word p ∷ []) h

pub IsFramed-vsize_message :
    (c : Console) (p : ℕ) (k : Kernel) → Within c k → IsFramed c (vsize_message p k)
unfolding vsize_message
IsFramed-vsize_message c p k h =
    let blk : ℕ = sub32 p block_size in
    let magic : ℕ = load32 k.paging.mem (block_magic_at blk) in
    IsFramed-tests (p == 0) (ltb p kvmem_start || leb k.vmem.vmem_current p)
      (not (magic == vmem_magic_allocated))
      (refused (is_valid_allocated_block blk k.vmem k.paging.mem)) c k.console
      "[ERROR] vsize: invalid pointer %x (outside vmalloc allocated region)\n" (word p ∷ [])
      "[ERROR] vsize: pointer %x refers to non-allocated block (magic=%x)\n"
      (word p ∷ word magic ∷ []) "[ERROR] vsize: pointer %x fails allocation validation\n"
      (word p ∷ []) h

pub IsFramed-clear : (c d : Console) → IsFramed c d → IsFramed c (screen_clear d)
IsFramed-clear c d h = record { same = frame-screen_clear d ∙ h.same }

IsFramed-note : (m : Command) (c d : Console) → IsFramed c d → IsFramed c (note m d)
IsFramed-note (out8 port v) c d h = record { same = h.same }
IsFramed-note (out16 port v) c d h = record { same = h.same }
IsFramed-note (interrupt n) c d h = h

module _ (b : Board) (c : Console) where
  give-Within : (m : Command) (k : Kernel) → Within c k → Yields (Within c) (give b m k)
  unfolding give
  give-Within m k h =
      Yields-if (b.stops m) _ _ (Yields-halted Panic.machine_stops)
        (Yields-ok _ (IsFramed-note m c k.console h))

  stored-Within :
      (virt : ℕ) (k : Kernel) (r : ℕ ⊎ Mem)
      → Within c k
      → Yields (Within c) (elim r [
        | inl stack_word ↦ page_fault_handler b.page_directory virt stack_word k.paging >>= λ _.
            halted Panic.page_fault
        | inr m ↦ ok (set_mem m k)
      ])
  stored-Within virt k (inl stack_word) h = Yields->>= _ _ (λ u. Yields-halted Panic.page_fault)
  stored-Within virt k (inr m) h = Yields-ok _ h

  store_virt-Within :
      (virt v : ℕ) (k : Kernel) → Within c k → Yields (Within c) (store_virt b virt v k)
  unfolding store_virt
  store_virt-Within virt v k h = stored-Within virt k (b.store virt v k.paging) h

  -- what follows a command to the machine, or a store at a virtual address
  pub Yields-give :
      (m : Command) (k : Kernel) (f : Kernel → Outcome Kernel)
      → Within c k
      → ((k' : Kernel) → Within c k' → Yields (Within c) (f k'))
      → Yields (Within c) (give b m k >>= f)
  Yields-give m k f h g = Yields-after (Within c) (give b m k) f (give-Within m k h) g

  pub Yields-store_virt :
      (virt v : ℕ) (k : Kernel) (f : Kernel → Outcome Kernel)
      → Within c k
      → ((k' : Kernel) → Within c k' → Yields (Within c) (f k'))
      → Yields (Within c) (store_virt b virt v k >>= f)
  Yields-store_virt virt v k f h g =
      Yields-after (Within c) (store_virt b virt v k) f (store_virt-Within virt v k h) g

pub Within-trans :
    (c d : Console) (o : Outcome Kernel) → IsFramed c d → Yields (Within d) o → Yields (Within c) o
Within-trans c d o h y = record { at = λ k e. record { same = (y.at k e).same ∙ h.same } }

-- a command that ends with one of the calls that give memory back
pub Yields-call_kfree :
    (c : Console) (p : ℕ) (k : Kernel) → Within c k → Yields (Within c) (call_kfree p k)
Yields-call_kfree c p k h = Yields->>= (kfree p k.kheap k.paging.mem) _ (λ r. Yields-ok _ h)

pub Yields-call_vfree :
    (c : Console) (p : ℕ) (k : Kernel) → Within c k → Yields (Within c) (call_vfree p k)
Yields-call_vfree c p k h = Yields->>= (vfree p k.vmem k.paging.mem) _ (λ r. Yields-ok _ h)

pub Yields-call_free_page :
    (c : Console) (p : ℕ) (k : Kernel) → Within c k → Yields (Within c) (call_free_page p k)
Yields-call_free_page c p k h = Yields->>= (pmm_free_page p k.paging.pmm) _ (λ r. Yields-ok _ h)

pub ruleset frame_rules = (
  Yields-call_kfree, Yields-call_vfree, Yields-call_free_page, Yields-ok, Yields-halted, Yields-if,
  Yields-give, Yields-store_virt, Yields-nested, Yields->>=, IsFramed-kprintf, IsFramed-refl,
  IsFramed-clear, Within-if, IsFramed-ksize_message, IsFramed-vsize_message,
)
