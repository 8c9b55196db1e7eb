-- ===== src/Examples/Screens.antt =====
-- Three screens with empty lines, and keys on them.
use kfs.Base.{ℕ, arith, [], ◌∷◌, List}
use kfs.Machine.Yields.{Yields}
use kfs.Screen.{Console, screen_putstring}
use kfs.Screen.Output.{Shown, screen_putstring-Shown}
use kfs.Kernel.{codes}
use kfs.Kernel.Shell.{shell_process_input}
use kfs.Kernel.Typing.{press_all}
use kfs.Kernel.Frame.Shell.{IsPrompted, shell_process_input-IsPrompted}
use kfs.Kernel.Screens.Keys.{InOrder, press_all-InOrder}
use kfs.Examples.Console.{console}
use kfs.Examples.Session.{board, idle}

idle-InOrder : InOrder idle
idle-InOrder = record {
  active = omega arith;
  screen = record { place = omega arith; room = omega arith };
  others = λ i hi. record { place = omega arith; room = omega arith };
}

-- the third screen, a letter, an arrow key and Enter
press_all-InOrder_example :
    Yields InOrder (press_all board (0x3D ∷ 0x23 ∷ 0xE0 ∷ 0x4B ∷ 0x1C ∷ []) idle)
press_all-InOrder_example =
    press_all-InOrder board (0x3D ∷ 0x23 ∷ 0xE0 ∷ 0x4B ∷ 0x1C ∷ []) idle idle-InOrder

shell_process_input-IsPrompted_example :
    Yields (IsPrompted idle.console) (shell_process_input board (codes "kmalloc 24") idle)
shell_process_input-IsPrompted_example =
    shell_process_input-IsPrompted board (codes "kmalloc 24") idle

-- a console with room for a prompt in the last row
abbrev wide : Console
wide = record console { screen = record console.screen { cursor_x = 0 } }

abbrev prompt : List ℕ
prompt = 107 ∷ 102 ∷ 115 ∷ 62 ∷ 32 ∷ []

screen_putstring-Shown_example : Shown prompt wide (screen_putstring prompt wide)
screen_putstring-Shown_example =
    screen_putstring-Shown prompt wide
      (
        omega arith,
        omega arith,
        (
          omega arith,
          omega arith,
          (omega arith, omega arith, (omega arith, omega arith, (omega arith, omega arith, tt))),
        ),
      )
      (omega arith) (omega arith)
