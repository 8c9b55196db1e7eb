-- ===== src/Kernel.antt =====
-- The state of the whole kernel, for the parts that work on more than one component: the shell's
-- commands (src/shell.c), the keyboard handler (src/keyboard.c) and the start (src/kernel_main.c).
pub mod Info
pub mod Alloc
pub mod Access
pub mod Trials
pub mod Faults
pub mod Fatal
pub mod Boot
pub mod Frame
pub mod Screens
pub mod Rehearsal
pub mod Shell
pub mod Keys
pub mod Start
pub mod Text
pub mod Typing
pub mod Guard
pub mod Protection
pub mod Dispatch
use Prim.Native.Char.{code}
use Prim.Native.String.{String}
use kfs.Base.{if◌then◌else◌, Bool, ℕ, ◌⊎◌, inl, inr, Option, none, some, List, [], ◌∷◌}
use kfs.Machine.Mem.{Mem}
use kfs.Machine.Outcome.{Panic, Outcome, ok, halted, ◌>>=◌}
use kfs.Paging.{Paging, page_fault_handler}
use kfs.Kheap.{Kheap}
use kfs.Vmem.{Vmem}
use kfs.Screen.{Console, screen_putstring}
use kfs.Print.{Arg, kprintfv}
use kfs.Keyboard.{KeyboardState}

-- `shell_buffer` is the string in the buffer; the statics `boot_time` and `shell_buffer_pos` of the
-- shell are always 0. `extended` is the static of `keyboard_handler`, as a condition.
pub record Kernel : Type 0 where
  pub console : Console
  pub keyboard : KeyboardState
  pub extended : Bool
  pub shell_buffer : List ℕ
  pub paging : Paging
  pub kheap : Kheap
  pub vmem : Vmem

-- A command to the machine: `outb` and `outw` with port and value, and the instruction `int`, on the
-- interrupt table that is loaded then.
pub data Command : Type 0 where
  out8 out16 : ℕ → ℕ → Command
  interrupt : ℕ → Command

-- What the kernel takes from the machine and the build: the addresses of the page tables; the
-- processor's access to a word at a virtual address, which gives the word or the memory after it, or
-- the error code of a page fault; the segment registers `cs` to `ss`, in the order they are printed;
-- the date and time of the build; whether the machine stops or starts again at a command; and what
-- the reads of the keyboard's status give, by their number.
pub record Board : Type 0 where
  pub page_directory : ℕ
  pub page_tables : ℕ
  pub load : ℕ → Paging → ℕ ⊎ ℕ
  pub store : ℕ → ℕ → Paging → ℕ ⊎ Mem
  pub segments : ℕ → ℕ
  pub date : List ℕ
  pub time : List ℕ
  pub stops : Command → Bool
  pub status : ℕ → ℕ

-- the characters of a text of the source
abbrev pub codes : String → List ℕ
codes String.[] = []
codes (String.◌∷◌ c s) = code c ∷ codes s

-- `kprintf` on the screen. Where an argument is missing, which C leaves undefined and no call in the
-- source does, nothing is printed.
unfoldable pub kprintf : String → List Arg → Console → Console
kprintf fmt args c = elim (kprintfv (codes fmt) args) [
  | none ↦ c
  | some out ↦ screen_putstring out c
]

abbrev pub print : String → List Arg → Kernel → Kernel
print fmt args k = record k { console = kprintf fmt args k.console }

-- one statement after another
infixl 4 ◌|>◌
abbrev pub ◌|>◌ : Kernel → (Kernel → Kernel) → Kernel
k |> f = f k

abbrev pub set_mem : Mem → Kernel → Kernel
set_mem m k = record k { paging = record k.paging { mem = m } }

abbrev pub note : Command → Console → Console
note (out8 port v) c = record c { ports = (port, v) ∷ c.ports }
note (out16 port v) c = record c { ports = (port, v) ∷ c.ports }
note (interrupt n) c = c

-- one command to the machine, which may be its last
unfoldable pub give : Board → Command → Kernel → Outcome Kernel
give b c k =
    if b.stops c then halted Panic.machine_stops else ok (record k { console = note c k.console })

-- A word at a virtual address. A fault goes to the handler, which does not return; the machine then
-- gives the word that the handler finds at 28(%esp).
unfoldable pub load_virt : Board → ℕ → Kernel → Outcome ℕ
load_virt b virt k = elim (b.load virt k.paging) [
  | inl stack_word ↦
      page_fault_handler b.page_directory virt stack_word k.paging >>= λ _. halted Panic.page_fault
  | inr w ↦ ok w
]

unfoldable pub store_virt : Board → ℕ → ℕ → Kernel → Outcome Kernel
store_virt b virt v k = elim (b.store virt v k.paging) [
  | inl stack_word ↦
      page_fault_handler b.page_directory virt stack_word k.paging >>= λ _. halted Panic.page_fault
  | inr m ↦ ok (set_mem m k)
]
