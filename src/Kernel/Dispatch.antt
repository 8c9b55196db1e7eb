-- ===== src/Kernel/Dispatch.antt =====
-- src/shell.c: which command a line runs.
use kfs.Base.{
  not, subst, ℕ, zero, suc, ◌≤◌, ◌<◌, ◌≡◌, ◌≢◌, ◌⊎◌, refl, ap, sym, ◌∙◌, arith, ◌==◌, ==-ne, ltb,
  Bool, true, false, inl, inr, ◌&&◌, ◌∷◌, [], ◌++◌, length, List, some,
}
use kfs.Machine.Outcome.{Outcome, ok, ◌>>=◌}
use kfs.Shell.{is_blank, shell_parse_args}
use kfs.Shell.Args.{AreWords, NoBlank, spaced, spaces, shell_parse_args-spaced}
use kfs.Print.{string}
use kfs.Kernel.{Kernel, Board, print, ◌|>◌}
use kfs.Kernel.Shell.{
  ShellCommand, commands, find_command, same_text, shell_execute_command, shell_process_input,
  shell_print_prompt,
}

-- `c` is one of the rows
abbrev pub IsRow : ShellCommand → List ShellCommand → Type 0
IsRow c [] = ⊥
IsRow c (r ∷ rows) = (c ≡ r) ⊎ IsRow c rows

abbrev pub AllRows : (ShellCommand → Type 0) → List ShellCommand → Type 0
AllRows P [] = Unit {0}
AllRows P (r ∷ rows) = P r × AllRows P rows

AllRows_at :
    (P : ShellCommand → Type 0) (rows : List ShellCommand) (c : ShellCommand)
    → AllRows P rows
    → IsRow c rows
    → P c
AllRows_at P [] c all row = absurd row
AllRows_at P (r ∷ rows) c (p, all) (inl e) = subst P (sym e) p
AllRows_at P (r ∷ rows) c (p, all) (inr row) = AllRows_at P rows c all row

-- the tests of a row: no character of its name is a blank, and the name leads to the row
abbrev no_blank : List ℕ → Bool
no_blank [] = true
no_blank (c ∷ s) = not (is_blank c) && no_blank s

not-and-true : (a b : Bool) → (not a && b) ≡ true → (a ≡ false) × (b ≡ true)
not-and-true false b h = (refl, h)
not-and-true true b h = absurd (cc)

no_blank-NoBlank : (s : List ℕ) → no_blank s ≡ true → NoBlank s
no_blank-NoBlank [] h = tt
no_blank-NoBlank (c ∷ s) h =
    let (other, more) = not-and-true (is_blank c) (no_blank s) h in (other, no_blank-NoBlank s more)

cons-ne-nil : (c : ℕ) (s : List ℕ) → (c ∷ s) ≢ []
cons-ne-nil c s e = absurd (cc)

record IsReached (b : Board) (c : ShellCommand) : Type 0 where
  found : find_command c.name (commands b) ≡ some c
  nonempty : c.name ≢ []
  word : NoBlank c.name

reached :
    {b : Board} {c : ℕ} {s : List ℕ} {f : List (List ℕ) → Kernel → Outcome Kernel}
    → let r : ShellCommand = record { name = c ∷ s; function = f } in
      find_command (c ∷ s) (commands b) ≡ some r → no_blank (c ∷ s) ≡ true → IsReached b r
reached {c = c} {s = s} h k = record {
  found = h;
  nonempty = cons-ne-nil c s;
  word = no_blank-NoBlank (c ∷ s) k;
}

infixr 4 ◌also◌
◌also◌ : {P Q : Type 0} → P → Q → P × Q
p also q = (p, q)

commands-IsReached : (b : Board) → AllRows (IsReached b) (commands b)
unfolding commands find_command same_text
commands-IsReached b =
    reached refl refl
    also reached refl refl
    also reached refl refl
    also reached refl refl
    also reached refl refl
    also reached refl refl
    also reached refl refl
    also reached refl refl
    also reached refl refl
    also reached refl refl
    also reached refl refl
    also reached refl refl
    also reached refl refl
    also reached refl refl
    also reached refl refl
    also reached refl refl
    also reached refl refl
    also reached refl refl
    also reached refl refl
    also reached refl refl
    also reached refl refl
    also reached refl refl
    also reached refl refl
    also reached refl refl
    also reached refl refl
    also reached refl refl
    also reached refl refl
    also reached refl refl
    also reached refl refl
    also reached refl refl
    also tt

shell_execute_command-found :
    (b : Board) (line arg : List ℕ) (args : List (List ℕ)) (c : ShellCommand) (k : Kernel)
    → shell_parse_args line ≡ arg ∷ args
    → find_command arg (commands b) ≡ some c
    → shell_execute_command b line k
      ≡ c.function (arg ∷ args) (k |> print "Executing command: %s\n" (string c.name ∷ []))
unfolding shell_execute_command
shell_execute_command-found b line arg args c k parsed found =
    rw (shell_execute_command, parsed, found) refl

shell_process_input_short :
    (b : Board) (input : List ℕ) (k : Kernel)
    → 0 < length input
    → length input < 255
    → shell_process_input b input k ≡ (
        shell_execute_command b input (record k { shell_buffer = input }) >>= λ k'.
        ok (shell_print_prompt k'))
unfolding shell_process_input
shell_process_input_short b input k pos short =
    let nonempty : (length input == 0) ≡ false = ==-ne (length input) 0 (omega arith) in
    let fits : ltb (length input) 255 ≡ true = ground arith in rw (nonempty, fits) refl

length-spaces : (gap : ℕ) (s : List ℕ) → length s ≤ length (spaces gap s)
length-spaces zero s = omega arith
length-spaces (suc k) s = omega (arith, length-spaces k s)

length-spaced :
    (gap behind c : ℕ) (gaps w : List ℕ) (ws : List (List ℕ))
    → 0 < length (spaced gap behind gaps ((c ∷ w) ∷ ws))
length-spaced gap behind c gaps w [] =
    omega (arith, length-spaces gap ((c ∷ w) ++ spaces behind []))
length-spaced gap behind c [] w (v ∷ ws) =
    omega (arith, length-spaces gap ((c ∷ w) ++ (32 ∷ spaced 0 behind [] (v ∷ ws))))
length-spaced gap behind c (g ∷ gaps) w (v ∷ ws) =
    omega (arith, length-spaces gap ((c ∷ w) ++ (32 ∷ spaced g behind gaps (v ∷ ws))))

length-spaced_ne :
    (gap behind : ℕ) (gaps w : List ℕ) (ws : List (List ℕ))
    → w ≢ []
    → 0 < length (spaced gap behind gaps (w ∷ ws))
length-spaced_ne gap behind gaps [] ws ne = absurd (ne refl)
length-spaced_ne gap behind gaps (c ∷ w) ws ne = length-spaced gap behind c gaps w ws

-- A line of at most 15 words and less than 255 characters, with any number of spaces in front of the
-- first word, at least one between two words, a number of its own for each two, and any number behind
-- the last, also none, whose first word is the name of a row of the table, runs the function of that
-- row on the words, and prints the prompt when it returns.
pub shell_process_input-IsRow :
    (b : Board) (c : ShellCommand) (gap behind : ℕ) (gaps : List ℕ) (args : List (List ℕ))
    (k : Kernel)
    → IsRow c (commands b)
    → AreWords args
    → length args ≤ 14
    → length (spaced gap behind gaps (c.name ∷ args)) < 255
    → let input = spaced gap behind gaps (c.name ∷ args) in
      shell_process_input b input k ≡ (
        c.function (c.name ∷ args) (
          record k { shell_buffer = input } |> print "Executing command: %s\n" (string c.name ∷ []))
        >>= λ k'. ok (shell_print_prompt k'))
shell_process_input-IsRow b c gap behind gaps args k row words few short =
    let input = spaced gap behind gaps (c.name ∷ args) in
    let r = AllRows_at (IsReached b) (commands b) c (commands-IsReached b) row in
    let parsed =
      shell_parse_args-spaced gap behind gaps (c.name ∷ args) (r.nonempty, r.word, words)
        (omega arith) in
    shell_process_input_short b input k (length-spaced_ne gap behind gaps c.name args r.nonempty)
      short
    ∙ ap (λ (o : Outcome Kernel). o >>= λ k'. ok (shell_print_prompt k'))
        (shell_execute_command-found b input c.name args c _ parsed r.found)
