-- ===== src/Kernel/Frame/Shell.antt =====
-- src/shell.c: a line that the shell runs leaves the other screens alone, and ends with an empty line.
use kfs.Screen.Input.{input_set_start_position}
use kfs.Base.{
  ℕ, ◌≡◌, refl, ap, Bool-cases, inl, inr, List, [], ◌∷◌, Option, none, some, length, ltb, ◌==◌,
}
use kfs.Machine.Outcome.{Outcome, ok}
use kfs.Machine.Yields.{Yields, Yields-ok, Yields-if, Yields-after}
use kfs.Screen.{Console, ScreenState}
use kfs.Screen.Frame.{held}
use kfs.Shell.{shell_parse_args}
use kfs.Print.{string}
use kfs.Kernel.{Kernel, Board, print, ◌|>◌}
use kfs.Kernel.Shell.{
  ShellCommand, commands, find_command, same_text, shell_execute_command, shell_process_input,
  shell_print_prompt,
}
use kfs.Kernel.Dispatch.{AllRows}
use kfs.Kernel.Frame.{Within, Within-trans, IsFramed-refl, IsFramed-kprintf}
use kfs.Kernel.Frame.Commands
use kfs.Kernel.Frame.Trials
use kfs.Kernel.Frame.Access

-- the command keeps the frame of the console
IsFramedRow : ShellCommand → Type 0
IsFramedRow c = (argv : List (List ℕ)) (k : Kernel) → Yields (Within k.console) (c.function argv k)

commands-IsFramedRow : (b : Board) → AllRows IsFramedRow (commands b)
unfolding commands IsFramedRow
commands-IsFramedRow b = (
  Commands.cmd_help-Within,
  (
    Commands.cmd_clear-Within,
    (
      Access.cmd_echo-Within,
      (
        Commands.cmd_reboot-Within b,
        (
          Commands.cmd_halt-Within,
          (
            Commands.cmd_gdt_info-Within b,
            (
              Commands.cmd_version-Within b,
              (
                Commands.cmd_shutdown-Within b,
                (
                  Commands.cmd_meminfo-Within,
                  (
                    Commands.cmd_kmalloc-Within,
                    (
                      Commands.cmd_kfree-Within,
                      (
                        Commands.cmd_ksize-Within,
                        (
                          Commands.cmd_kbrk-Within,
                          (
                            Commands.cmd_vmalloc-Within b,
                            (
                              Commands.cmd_vfree-Within,
                              (
                                Commands.cmd_vsize-Within,
                                (
                                  Commands.cmd_vbrk-Within b,
                                  (
                                    Commands.cmd_vget-Within b,
                                    (
                                      Trials.cmd_present-Within b,
                                      (
                                        Trials.cmd_page_ops-Within b,
                                        (
                                          Trials.cmd_kmalloc_test-Within,
                                          (
                                            Trials.cmd_vmalloc_test-Within b,
                                            (
                                              Access.cmd_ktest-Within,
                                              (
                                                Access.cmd_vtest-Within b,
                                                (
                                                  Access.cmd_write-Within,
                                                  (
                                                    Access.cmd_read-Within,
                                                    (
                                                      Trials.cmd_rotest-Within b,
                                                      (
                                                        Trials.cmd_pftest-Within b,
                                                        (
                                                          Trials.cmd_pftest2-Within b,
                                                          (Trials.cmd_panic_test-Within, tt),
                                                        ),
                                                      ),
                                                    ),
                                                  ),
                                                ),
                                              ),
                                            ),
                                          ),
                                        ),
                                      ),
                                    ),
                                  ),
                                ),
                              ),
                            ),
                          ),
                        ),
                      ),
                    ),
                  ),
                ),
              ),
            ),
          ),
        ),
      ),
    ),
  ),
)

AllSome : (ShellCommand → Type 0) → Option ShellCommand → Type 0
AllSome P none = Unit {0}
AllSome P (some c) = P c

find_command-AllRows :
    (P : ShellCommand → Type 0) (arg : List ℕ) (rows : List ShellCommand)
    → AllRows P rows
    → AllSome P (find_command arg rows)
unfolding find_command AllSome
find_command-AllRows P arg [] all = tt
find_command-AllRows P arg (r ∷ rows) (p, all) = elim (Bool-cases (same_text arg r.name)) [
  | inl same ↦ rw same p
  | inr other ↦ rw other (find_command-AllRows P arg rows all)
]

-- what `shell_execute_command` does with the row it found
run : Option ShellCommand → List ℕ → List (List ℕ) → Kernel → Outcome Kernel
run o arg args k = elim o [
  | some c ↦ c.function (arg ∷ args) (k |> print "Executing command: %s\n" (string c.name ∷ []))
  | none ↦ ok (
      k
      |> print "Unknown command: %s\n" (string arg ∷ [])
      |> print "Type 'help' for available commands.\n" [])
]

run-Within :
    (o : Option ShellCommand) (arg : List ℕ) (args : List (List ℕ)) (k : Kernel)
    → AllSome IsFramedRow o
    → Yields (Within k.console) (run o arg args k)
unfolding run AllSome IsFramedRow
run-Within none arg args k all =
    Yields-ok _
      (IsFramed-kprintf k.console _ _ _ (IsFramed-kprintf k.console _ _ _ (IsFramed-refl _)))
run-Within (some c) arg args k all =
    Within-trans k.console _ _ (IsFramed-kprintf k.console k.console _ _ (IsFramed-refl _))
      (all (arg ∷ args) (k |> print "Executing command: %s\n" (string c.name ∷ [])))

parsed-Within :
    (b : Board) (argv : List (List ℕ)) (k : Kernel)
    → Yields
        (Within k.console)
        (elim argv [ [] ↦ ok k | arg ∷ args ↦ run (find_command arg (commands b)) arg args k ])
parsed-Within b [] k = Yields-ok k (IsFramed-refl _)
parsed-Within b (arg ∷ args) k =
    run-Within _ arg args k
      (find_command-AllRows IsFramedRow arg (commands b) (commands-IsFramedRow b))

-- Whatever the line is, if `shell_execute_command` returns, the active screen, the other screens and
-- the typed line's length are as they were.
pub shell_execute_command-Within :
    (b : Board) (command_line : List ℕ) (k : Kernel)
    → Yields (Within k.console) (shell_execute_command b command_line k)
unfolding shell_execute_command run
shell_execute_command-Within b command_line k = parsed-Within b (shell_parse_args command_line) k

-- the same screens are there, and the line is empty
pub record IsPrompted (c : Console) (k : Kernel) : Type 0 where
  pub screens : held k.console ≡ held c
  pub empty : (k.console.screen.input_length ≡ 0) × (k.console.screen.input_cursor ≡ 0)

pub IsPrompted-shell_print_prompt :
    (c : Console) (k : Kernel) → Within c k → IsPrompted c (shell_print_prompt k)
unfolding shell_print_prompt input_set_start_position
IsPrompted-shell_print_prompt c k h =
    let shown = IsFramed-kprintf c k.console "kfs> " [] h in
    record {
      screens = ap (λ (f : ℕ × (ℕ → ScreenState) × ℕ × ℕ). (f.0, f.1)) shown.same;
      empty = (refl, refl);
    }

-- A line that is handed to the shell, whatever it is: if the shell returns, the same screen is active,
-- the other screens are as they were, and the typed line is empty.
pub shell_process_input-IsPrompted :
    (b : Board) (input : List ℕ) (k : Kernel)
    → Yields (IsPrompted k.console) (shell_process_input b input k)
unfolding shell_process_input
shell_process_input-IsPrompted b input k =
    Yields-if (length input == 0) _ _
      (Yields-ok _ (IsPrompted-shell_print_prompt k.console k (IsFramed-refl _)))
      (Yields-if (ltb (length input) 255) _ _
        (Yields-after (Within k.console)
          (shell_execute_command b input (record k { shell_buffer = input })) _
          (shell_execute_command-Within b input (record k { shell_buffer = input }))
          (λ k' h. Yields-ok _ (IsPrompted-shell_print_prompt k.console k' h)))
        (Yields-ok _ (
          IsPrompted-shell_print_prompt k.console _
            (IsFramed-kprintf k.console _ _ _ (IsFramed-refl _)))))
