-- ===== src/Kernel/Frame/Trials.antt =====
-- src/shell.c: the frame of the console behind the commands that try out the memory system.
use kfs.Kernel.Trials.{
  kmalloc_trial, vmalloc_trial, cmd_page_ops, use_page, cmd_kmalloc_test, cmd_vmalloc_test,
}
use kfs.Kernel.Info.{cmd_pmminfo}
use kfs.Kernel.Faults.{
  cmd_present, unmap_and_touch, cmd_rotest, write_protected, cmd_pftest, cmd_pftest2,
  cmd_panic_test,
}
use kfs.Base.{ℕ, List}
use kfs.Machine.Yields.{Yields, Yields-after}
use kfs.Kernel.{Kernel, Board}
use kfs.Paging.{vmm_get_mapping}
use kfs.Kernel.{store_virt, load_virt}
use kfs.Kernel.Frame.{
  Within-trans, Yields-store_virt, IsFramed-kprintf, Within, IsFramed-refl, frame_rules,
}
use kfs.Screen.{Console}
use Prim.Native.String.{String}

cmd_pmminfo-Within : (c : Console) (k : Kernel) → Within c k → Within c (cmd_pmminfo k)
unfolding cmd_pmminfo
cmd_pmminfo-Within c k h =
    IsFramed-kprintf c _ _ _ (IsFramed-kprintf c _ _ _ (IsFramed-kprintf c _ _ _ h))

kmalloc_trial-own :
    (n : ℕ) (fmt : String) (k : Kernel) → Yields (Within k.console) (kmalloc_trial n fmt k)
unfolding kmalloc_trial cmd_pmminfo
kmalloc_trial-own n fmt k = search frame_rules depth 20

kmalloc_trial-Within :
    (n : ℕ) (fmt : String) (c : Console) (k : Kernel)
    → Within c k
    → Yields (Within c) (kmalloc_trial n fmt k)
kmalloc_trial-Within n fmt c k h = Within-trans c k.console _ h (kmalloc_trial-own n fmt k)

vmalloc_trial-own :
    (b : Board) (n : ℕ) (fmt : String) (k : Kernel)
    → Yields (Within k.console) (vmalloc_trial b n fmt k)
unfolding vmalloc_trial cmd_pmminfo
vmalloc_trial-own b n fmt k = search frame_rules depth 20

vmalloc_trial-Within :
    (b : Board) (n : ℕ) (fmt : String) (c : Console) (k : Kernel)
    → Within c k
    → Yields (Within c) (vmalloc_trial b n fmt k)
vmalloc_trial-Within b n fmt c k h = Within-trans c k.console _ h (vmalloc_trial-own b n fmt k)

pub cmd_kmalloc_test-Within :
    (argv : List (List ℕ)) (k : Kernel) → Yields (Within k.console) (cmd_kmalloc_test argv k)
unfolding cmd_kmalloc_test
cmd_kmalloc_test-Within argv k =
    Yields-after (Within k.console) _ _
      (kmalloc_trial-Within 100 _ k.console (cmd_pmminfo k)
        (cmd_pmminfo-Within _ k (IsFramed-refl _)))
      (λ k1 h. kmalloc_trial-Within 5000 _ k.console k1 h)

pub cmd_vmalloc_test-Within :
    (b : Board) (argv : List (List ℕ)) (k : Kernel)
    → Yields (Within k.console) (cmd_vmalloc_test b argv k)
unfolding cmd_vmalloc_test
cmd_vmalloc_test-Within b argv k =
    Yields-after (Within k.console) _ _
      (vmalloc_trial-Within b 200 _ k.console (cmd_pmminfo k)
        (cmd_pmminfo-Within _ k (IsFramed-refl _)))
      (λ k1 h. vmalloc_trial-Within b 5000 _ k.console k1 h)

pub cmd_panic_test-Within :
    (argv : List (List ℕ)) (k : Kernel) → Yields (Within k.console) (cmd_panic_test argv k)
unfolding cmd_panic_test
cmd_panic_test-Within argv k = search frame_rules depth 12

use_page-own :
    (b : Board) (virt phys : ℕ) (k : Kernel) → Yields (Within k.console) (use_page b virt phys k)
unfolding use_page store_virt load_virt vmm_get_mapping
use_page-own b virt phys k = search frame_rules depth 20

use_page-Within :
    (b : Board) (virt phys : ℕ) (c : Console) (k : Kernel)
    → Within c k
    → Yields (Within c) (use_page b virt phys k)
use_page-Within b virt phys c k h = Within-trans c k.console _ h (use_page-own b virt phys k)

unmap_and_touch-own :
    (b : Board) (virt phys : ℕ) (k : Kernel)
    → Yields (Within k.console) (unmap_and_touch b virt phys k)
unfolding unmap_and_touch load_virt vmm_get_mapping
unmap_and_touch-own b virt phys k =
    Yields-store_virt b k.console virt 0xcafe_babe k _ (IsFramed-refl _)
      (λ k1 h. search frame_rules depth 30 fits 20000)

unmap_and_touch-Within :
    (b : Board) (virt phys : ℕ) (c : Console) (k : Kernel)
    → Within c k
    → Yields (Within c) (unmap_and_touch b virt phys k)
unmap_and_touch-Within b virt phys c k h =
    Within-trans c k.console _ h (unmap_and_touch-own b virt phys k)

write_protected-own :
    (b : Board) (virt phys : ℕ) (k : Kernel)
    → Yields (Within k.console) (write_protected b virt phys k)
unfolding write_protected
write_protected-own b virt phys k = search frame_rules depth 20

write_protected-Within :
    (b : Board) (virt phys : ℕ) (c : Console) (k : Kernel)
    → Within c k
    → Yields (Within c) (write_protected b virt phys k)
write_protected-Within b virt phys c k h =
    Within-trans c k.console _ h (write_protected-own b virt phys k)

pub cmd_page_ops-Within :
    (b : Board) (argv : List (List ℕ)) (k : Kernel)
    → Yields (Within k.console) (cmd_page_ops b argv k)
unfolding cmd_page_ops
cmd_page_ops-Within b argv k = search (frame_rules, use_page-Within) depth 12

pub cmd_present-Within :
    (b : Board) (argv : List (List ℕ)) (k : Kernel)
    → Yields (Within k.console) (cmd_present b argv k)
unfolding cmd_present
cmd_present-Within b argv k = search (frame_rules, unmap_and_touch-Within) depth 12

pub cmd_rotest-Within :
    (b : Board) (argv : List (List ℕ)) (k : Kernel)
    → Yields (Within k.console) (cmd_rotest b argv k)
unfolding cmd_rotest
cmd_rotest-Within b argv k = search (frame_rules, write_protected-Within) depth 12

pub cmd_pftest-Within :
    (b : Board) (argv : List (List ℕ)) (k : Kernel)
    → Yields (Within k.console) (cmd_pftest b argv k)
unfolding cmd_pftest
cmd_pftest-Within b argv k = search frame_rules depth 12

pub cmd_pftest2-Within :
    (b : Board) (argv : List (List ℕ)) (k : Kernel)
    → Yields (Within k.console) (cmd_pftest2 b argv k)
unfolding cmd_pftest2
cmd_pftest2-Within b argv k = search frame_rules depth 12
