-- ===== src/Kernel/Frame/Access.antt =====
-- src/shell.c: the frame of the console behind the commands that read and write allocated memory, and
-- behind `echo`.
use kfs.Base.{ℕ, List, ◌∷◌, []}
use kfs.Machine.Yields.{Yields, Yields-after, Yields-ok}
use kfs.Screen.{Console}
use kfs.Kernel.{Kernel, Board}
use kfs.Kernel.Info.{cmd_echo, echo_from}
use kfs.Kernel.Access.{
  allocation, write_found, write_word, cmd_write, read_found, read_word, cmd_read, ktest_block,
  cmd_ktest, vtest_block, cmd_vtest,
}
use kfs.Kernel.Frame.{Within, Within-trans, IsFramed-refl, IsFramed-kprintf, frame_rules}

allocation-own : (addr : ℕ) (k : Kernel) → Yields (λ r. Within k.console r.2) (allocation addr k)
unfolding allocation
allocation-own addr k = search frame_rules depth 12

write_found-own :
    (addr val size : ℕ) (type : List ℕ) (k : Kernel)
    → Yields (Within k.console) (write_found addr val size type k)
unfolding write_found
write_found-own addr val size type k = search frame_rules depth 12

read_found-own :
    (addr size : ℕ) (type : List ℕ) (k : Kernel)
    → Yields (Within k.console) (read_found addr size type k)
unfolding read_found
read_found-own addr size type k = search frame_rules depth 12

write_word-own : (addr val : ℕ) (k : Kernel) → Yields (Within k.console) (write_word addr val k)
unfolding write_word
write_word-own addr val k =
    Yields-after (λ r. Within k.console r.2) (allocation addr k) _ (allocation-own addr k)
      (λ r h. Within-trans k.console r.2.console _ h (write_found-own addr val r.0 r.1 r.2))

read_word-own : (addr : ℕ) (k : Kernel) → Yields (Within k.console) (read_word addr k)
unfolding read_word
read_word-own addr k =
    Yields-after (λ r. Within k.console r.2) (allocation addr k) _ (allocation-own addr k)
      (λ r h. Within-trans k.console r.2.console _ h (read_found-own addr r.0 r.1 r.2))

pub cmd_write-Within :
    (argv : List (List ℕ)) (k : Kernel) → Yields (Within k.console) (cmd_write argv k)
unfolding cmd_write
cmd_write-Within [] k = search frame_rules depth 12
cmd_write-Within (n ∷ []) k = search frame_rules depth 12
cmd_write-Within (n ∷ a ∷ []) k = search frame_rules depth 12
cmd_write-Within (n ∷ a ∷ v ∷ rest) k = search (frame_rules, write_word-own) depth 12

pub cmd_read-Within :
    (argv : List (List ℕ)) (k : Kernel) → Yields (Within k.console) (cmd_read argv k)
unfolding cmd_read
cmd_read-Within [] k = search frame_rules depth 12
cmd_read-Within (n ∷ []) k = search frame_rules depth 12
cmd_read-Within (n ∷ a ∷ rest) k = read_word-own _ k

ktest_block-own :
    (ptr nbytes value : ℕ) (k : Kernel) → Yields (Within k.console) (ktest_block ptr nbytes value k)
unfolding ktest_block
ktest_block-own ptr nbytes value k = search frame_rules depth 20

ktest_block-Within :
    (ptr nbytes value : ℕ) (c : Console) (k : Kernel)
    → Within c k
    → Yields (Within c) (ktest_block ptr nbytes value k)
ktest_block-Within ptr nbytes value c k h =
    Within-trans c k.console _ h (ktest_block-own ptr nbytes value k)

vtest_block-own :
    (ptr nbytes value : ℕ) (k : Kernel) → Yields (Within k.console) (vtest_block ptr nbytes value k)
unfolding vtest_block
vtest_block-own ptr nbytes value k = search frame_rules depth 20

vtest_block-Within :
    (ptr nbytes value : ℕ) (c : Console) (k : Kernel)
    → Within c k
    → Yields (Within c) (vtest_block ptr nbytes value k)
vtest_block-Within ptr nbytes value c k h =
    Within-trans c k.console _ h (vtest_block-own ptr nbytes value k)

pub cmd_ktest-Within :
    (argv : List (List ℕ)) (k : Kernel) → Yields (Within k.console) (cmd_ktest argv k)
unfolding cmd_ktest
cmd_ktest-Within [] k = search frame_rules depth 12
cmd_ktest-Within (n ∷ []) k = search frame_rules depth 12
cmd_ktest-Within (n ∷ a ∷ []) k = search frame_rules depth 12
cmd_ktest-Within (n ∷ a ∷ v ∷ rest) k = search (frame_rules, ktest_block-Within) depth 12

pub cmd_vtest-Within :
    (b : Board) (argv : List (List ℕ)) (k : Kernel) → Yields (Within k.console) (cmd_vtest b argv k)
unfolding cmd_vtest
cmd_vtest-Within b [] k = search frame_rules depth 12
cmd_vtest-Within b (n ∷ []) k = search frame_rules depth 12
cmd_vtest-Within b (n ∷ a ∷ []) k = search frame_rules depth 12
cmd_vtest-Within b (n ∷ a ∷ v ∷ rest) k = search (frame_rules, vtest_block-Within) depth 12

echo_from-Within :
    (c : Console) (args : List (List ℕ)) (k : Kernel) → Within c k → Within c (echo_from args k)
unfolding echo_from
echo_from-Within c [] k h = h
echo_from-Within c (arg ∷ []) k h = IsFramed-kprintf c k.console _ _ h
echo_from-Within c (arg ∷ next ∷ rest) k h =
    echo_from-Within c (next ∷ rest) _
      (IsFramed-kprintf c _ _ _ (IsFramed-kprintf c k.console _ _ h))

pub cmd_echo-Within :
    (argv : List (List ℕ)) (k : Kernel) → Yields (Within k.console) (cmd_echo argv k)
unfolding cmd_echo
cmd_echo-Within [] k = search frame_rules depth 12
cmd_echo-Within (n ∷ args) k =
    Yields-ok _
      (IsFramed-kprintf k.console _ _ _ (echo_from-Within k.console args k (IsFramed-refl _)))
