-- ===== src/Kernel/Frame/Commands.antt =====
-- src/shell.c: the frame of the console behind the commands.
use kfs.Kernel.Info.{
  cmd_help, cmd_clear, cmd_reboot, cmd_halt, cmd_gdt_info, cmd_version, cmd_shutdown, cmd_meminfo,
  cmd_pmminfo,
}
use kfs.Kernel.Alloc.{
  cmd_kmalloc, cmd_kfree, cmd_ksize, cmd_kbrk, cmd_vmalloc, cmd_vfree, cmd_vsize, cmd_vbrk,
  cmd_vget,
}
use kfs.Base.{ℕ, List, ◌∷◌, []}
use kfs.Machine.Yields.{Yields}
use kfs.Kernel.{Kernel, Board}
use kfs.Kernel.Frame.{Within, frame_rules}

pub cmd_help-Within :
    (argv : List (List ℕ)) (k : Kernel) → Yields (Within k.console) (cmd_help argv k)
unfolding cmd_help
cmd_help-Within argv k = search frame_rules depth 40

pub cmd_clear-Within :
    (argv : List (List ℕ)) (k : Kernel) → Yields (Within k.console) (cmd_clear argv k)
unfolding cmd_clear
cmd_clear-Within argv k = search frame_rules depth 12

pub cmd_reboot-Within :
    (b : Board) (argv : List (List ℕ)) (k : Kernel)
    → Yields (Within k.console) (cmd_reboot b argv k)
unfolding cmd_reboot
cmd_reboot-Within b argv k = search frame_rules depth 20

pub cmd_halt-Within :
    (argv : List (List ℕ)) (k : Kernel) → Yields (Within k.console) (cmd_halt argv k)
unfolding cmd_halt
cmd_halt-Within argv k = search frame_rules depth 12

pub cmd_gdt_info-Within :
    (b : Board) (argv : List (List ℕ)) (k : Kernel)
    → Yields (Within k.console) (cmd_gdt_info b argv k)
unfolding cmd_gdt_info
cmd_gdt_info-Within b argv k = search frame_rules depth 20

pub cmd_version-Within :
    (b : Board) (argv : List (List ℕ)) (k : Kernel)
    → Yields (Within k.console) (cmd_version b argv k)
unfolding cmd_version
cmd_version-Within b argv k = search frame_rules depth 12

pub cmd_shutdown-Within :
    (b : Board) (argv : List (List ℕ)) (k : Kernel)
    → Yields (Within k.console) (cmd_shutdown b argv k)
unfolding cmd_shutdown
cmd_shutdown-Within b argv k = search frame_rules depth 30

pub cmd_meminfo-Within :
    (argv : List (List ℕ)) (k : Kernel) → Yields (Within k.console) (cmd_meminfo argv k)
unfolding cmd_meminfo cmd_pmminfo
cmd_meminfo-Within argv k = search frame_rules depth 20

pub cmd_kmalloc-Within :
    (argv : List (List ℕ)) (k : Kernel) → Yields (Within k.console) (cmd_kmalloc argv k)
unfolding cmd_kmalloc
cmd_kmalloc-Within [] k = search frame_rules depth 12
cmd_kmalloc-Within (n ∷ []) k = search frame_rules depth 12
cmd_kmalloc-Within (n ∷ a ∷ rest) k = search frame_rules depth 12

pub cmd_kfree-Within :
    (argv : List (List ℕ)) (k : Kernel) → Yields (Within k.console) (cmd_kfree argv k)
unfolding cmd_kfree
cmd_kfree-Within [] k = search frame_rules depth 12
cmd_kfree-Within (n ∷ []) k = search frame_rules depth 12
cmd_kfree-Within (n ∷ a ∷ rest) k = search frame_rules depth 12

pub cmd_ksize-Within :
    (argv : List (List ℕ)) (k : Kernel) → Yields (Within k.console) (cmd_ksize argv k)
unfolding cmd_ksize
cmd_ksize-Within [] k = search frame_rules depth 12
cmd_ksize-Within (n ∷ []) k = search frame_rules depth 12
cmd_ksize-Within (n ∷ a ∷ rest) k = search frame_rules depth 12

pub cmd_kbrk-Within :
    (argv : List (List ℕ)) (k : Kernel) → Yields (Within k.console) (cmd_kbrk argv k)
unfolding cmd_kbrk
cmd_kbrk-Within [] k = search frame_rules depth 12
cmd_kbrk-Within (n ∷ []) k = search frame_rules depth 12
cmd_kbrk-Within (n ∷ a ∷ rest) k = search frame_rules depth 12

pub cmd_vfree-Within :
    (argv : List (List ℕ)) (k : Kernel) → Yields (Within k.console) (cmd_vfree argv k)
unfolding cmd_vfree
cmd_vfree-Within [] k = search frame_rules depth 12
cmd_vfree-Within (n ∷ []) k = search frame_rules depth 12
cmd_vfree-Within (n ∷ a ∷ rest) k = search frame_rules depth 12

pub cmd_vsize-Within :
    (argv : List (List ℕ)) (k : Kernel) → Yields (Within k.console) (cmd_vsize argv k)
unfolding cmd_vsize
cmd_vsize-Within [] k = search frame_rules depth 12
cmd_vsize-Within (n ∷ []) k = search frame_rules depth 12
cmd_vsize-Within (n ∷ a ∷ rest) k = search frame_rules depth 12

pub cmd_vmalloc-Within :
    (b : Board) (argv : List (List ℕ)) (k : Kernel)
    → Yields (Within k.console) (cmd_vmalloc b argv k)
unfolding cmd_vmalloc
cmd_vmalloc-Within b [] k = search frame_rules depth 12
cmd_vmalloc-Within b (n ∷ []) k = search frame_rules depth 12
cmd_vmalloc-Within b (n ∷ a ∷ rest) k = search frame_rules depth 12

pub cmd_vbrk-Within :
    (b : Board) (argv : List (List ℕ)) (k : Kernel) → Yields (Within k.console) (cmd_vbrk b argv k)
unfolding cmd_vbrk
cmd_vbrk-Within b [] k = search frame_rules depth 12
cmd_vbrk-Within b (n ∷ []) k = search frame_rules depth 12
cmd_vbrk-Within b (n ∷ a ∷ rest) k = search frame_rules depth 12

pub cmd_vget-Within :
    (b : Board) (argv : List (List ℕ)) (k : Kernel) → Yields (Within k.console) (cmd_vget b argv k)
unfolding cmd_vget
cmd_vget-Within b [] k = search frame_rules depth 12
cmd_vget-Within b (n ∷ []) k = search frame_rules depth 12
cmd_vget-Within b (n ∷ a ∷ rest) k = search frame_rules depth 12
