-- ===== src/Kernel/Shell.antt =====
-- src/shell.c: the table of commands, and how a line is run. `input_newline` of src/screen.c stands
-- here, since it calls the shell.
use Prim.Native.String.{String}
use kfs.Base.{
  ◌+◌, length, ℕ, zero, suc, ◌-◌, ltb, ◌==◌, if◌then◌else◌, true, false, Bool, ◌&&◌, Option, none,
  some, ◌∷◌, [], List,
}
use kfs.Machine.Outcome.{Outcome, ok, ◌>>=◌}
use kfs.Screen.{set_at, screen_putchar}
use kfs.Screen.Input.{input_set_start_position}
use kfs.Print.{string}
use kfs.Shell.{shell_parse_args}
use kfs.Kernel.{Kernel, Board, codes, print, ◌|>◌}
use kfs.Kernel.Info.{
  cmd_help, cmd_clear, cmd_echo, cmd_reboot, cmd_halt, cmd_gdt_info, cmd_version, cmd_shutdown,
  cmd_meminfo,
}
use kfs.Kernel.Alloc.{
  cmd_kmalloc, cmd_kfree, cmd_ksize, cmd_kbrk, cmd_vmalloc, cmd_vfree, cmd_vsize, cmd_vbrk,
  cmd_vget,
}
use kfs.Kernel.Access.{cmd_ktest, cmd_vtest, cmd_write, cmd_read}
use kfs.Kernel.Trials.{cmd_page_ops, cmd_kmalloc_test, cmd_vmalloc_test}
use kfs.Kernel.Faults.{cmd_present, cmd_rotest, cmd_pftest, cmd_pftest2, cmd_panic_test}

abbrev pub shell_buffer_size : ℕ
shell_buffer_size = 256

-- a row of the table: the description is not printed
pub record ShellCommand : Type 0 where
  pub name : List ℕ
  pub function : List (List ℕ) → Kernel → Outcome Kernel

abbrev row : String → (List (List ℕ) → Kernel → Outcome Kernel) → ShellCommand
row n f = record { name = codes n; function = f }

unfoldable pub commands : Board → List ShellCommand
commands b =
    row "help" cmd_help
    ∷ row "clear" cmd_clear
    ∷ row "echo" cmd_echo
    ∷ row "reboot" (cmd_reboot b)
    ∷ row "halt" cmd_halt
    ∷ row "gdt" (cmd_gdt_info b)
    ∷ row "version" (cmd_version b)
    ∷ row "shutdown" (cmd_shutdown b)
    ∷ row "meminfo" cmd_meminfo
    ∷ row "kmalloc" cmd_kmalloc
    ∷ row "kfree" cmd_kfree
    ∷ row "ksize" cmd_ksize
    ∷ row "kbrk" cmd_kbrk
    ∷ row "vmalloc" (cmd_vmalloc b)
    ∷ row "vfree" cmd_vfree
    ∷ row "vsize" cmd_vsize
    ∷ row "vbrk" (cmd_vbrk b)
    ∷ row "vget" (cmd_vget b)
    ∷ row "present" (cmd_present b)
    ∷ row "pageops" (cmd_page_ops b)
    ∷ row "kmalloctest" cmd_kmalloc_test
    ∷ row "vmalloctest" (cmd_vmalloc_test b)
    ∷ row "ktest" cmd_ktest
    ∷ row "vtest" (cmd_vtest b)
    ∷ row "write" cmd_write
    ∷ row "read" cmd_read
    ∷ row "rotest" (cmd_rotest b)
    ∷ row "pftest" (cmd_pftest b)
    ∷ row "pftest2" (cmd_pftest2 b)
    ∷ row "panictest" cmd_panic_test
    ∷ []

-- `strcmp(s, t) == 0`, on the characters of two strings
unfoldable pub same_text : List ℕ → List ℕ → Bool
same_text [] [] = true
same_text [] (d ∷ t) = false
same_text (c ∷ s) [] = false
same_text (c ∷ s) (d ∷ t) = (c == d) && same_text s t

-- the loop of `shell_execute_command`: the first row with the name
unfoldable pub find_command : List ℕ → List ShellCommand → Option ShellCommand
find_command arg [] = none
find_command arg (c ∷ rest) =
    let later = find_command arg rest in if same_text arg c.name then some c else later

unfoldable pub shell_print_prompt : Kernel → Kernel
shell_print_prompt k =
    let k' = k |> print "kfs> " [] in record k' { console = input_set_start_position k'.console }

unfoldable pub shell_init : Kernel → Kernel
shell_init k =
    record k { shell_buffer = [] }
    |> print "KFS Debug Shell v1.0\n" []
    |> print "Type 'help' for available commands.\n\n" []
    |> shell_print_prompt

module _ (b : Board) where
  unfoldable pub shell_execute_command : List ℕ → Kernel → Outcome Kernel
  shell_execute_command command_line k = elim (shell_parse_args command_line) [
    | [] ↦ ok k
    | arg ∷ args ↦ elim (find_command arg (commands b)) [
      | some c ↦ c.function (arg ∷ args) (k |> print "Executing command: %s\n" (string c.name ∷ []))
      | none ↦ ok (
          k
          |> print "Unknown command: %s\n" (string arg ∷ [])
          |> print "Type 'help' for available commands.\n" [])
    ]
  ]

  unfoldable pub shell_process_input : List ℕ → Kernel → Outcome Kernel
  shell_process_input input k =
      let len : ℕ = length input in
      if len == 0
      then ok (shell_print_prompt k)
      else if ltb len (shell_buffer_size - 1)
      then (shell_execute_command input (record k { shell_buffer = input }) >>= λ k'.
          ok (shell_print_prompt k'))
      else ok (shell_print_prompt (k |> print "Command too long!\n" []))

-- the string at the start of a buffer whose first `n` characters end it at the latest
unfoldable pub string_from : ℕ → ℕ → (ℕ → ℕ) → List ℕ
string_from zero i buffer = []
string_from (suc n) i buffer = elim (buffer i == 0) [
  | true ↦ []
  | false ↦ buffer i ∷ string_from n (i + 1) buffer
]

-- the line that is not empty goes to the shell
unfoldable pub input_newline : Board → Kernel → Outcome Kernel
input_newline b k =
    let s = k.console.screen in
    let n : ℕ = s.input_length in
    let c =
      screen_putchar 10 (record k.console { screen = record s { buffer = set_at s.buffer n 0 } }) in
    let k1 = record k { console = c } in
    let reset : Kernel → Kernel = λ k'. record k' {
      console = record k'.console {
        screen = record k'.console.screen { input_length = 0; input_cursor = 0 };
      };
    } in
    if ltb 0 c.screen.input_length
    then (shell_process_input b (string_from n 0 c.screen.buffer) k1 >>= λ k2. ok (reset k2))
    else ok (reset (shell_print_prompt k1))
