-- ===== src/Kernel/Screens/Start.antt =====
-- src/screen.c: `screen_init` sets up three screens with empty lines.
use kfs.Base.{ℕ, suc, ◌<◌, ◌≡◌, ap, ◌∙◌, arith, ◌==◌, Bool-cases, inl, inr, if◌then◌else◌}
use kfs.Screen.{
  Console, ScreenState, set_at, screen_clear, screen_set_color, update_hardware_cursor,
}
use kfs.Screen.Frame.{held, frame-screen_clear, frame-screen_set_color}
use kfs.Kernel.{Kernel}
use kfs.Kernel.Frame.{Within, IsFramed, IsFramed-refl, IsFramed-kprintf, Within-if}
use kfs.Kernel.Frame.Shell.{IsPrompted, IsPrompted-shell_print_prompt}
use kfs.Kernel.Start.{load_home_screen, blank_state, point_to, init_screen, screen_init}
use kfs.Kernel.Screens.{InLine, IsConsole}

IsFramed-color : (fg bg : ℕ) (c d : Console) → IsFramed c d → IsFramed c (screen_set_color fg bg d)
IsFramed-color fg bg c d h = record { same = frame-screen_set_color fg bg d ∙ h.same }

load_home_screen-Within : (k : Kernel) → Within k.console (load_home_screen k)
unfolding load_home_screen
load_home_screen-Within k = search (IsFramed-color, IsFramed-kprintf, IsFramed-refl) depth 12

-- screen `i` is active with an empty line, and the others are as they were
init_screen-IsPrompted : (i : ℕ) (k : Kernel) → IsPrompted (point_to i k.console) (init_screen i k)
unfolding init_screen update_hardware_cursor
init_screen-IsPrompted i k =
    let c = point_to i k.console in
    let k1 = record k { console = screen_clear (record c { screen = blank_state i c.screen }) } in
    let clear : held k1.console ≡ held c =
      ap (λ (f : ℕ × (ℕ → ScreenState) × ℕ × ℕ). (f.0, f.1))
        (frame-screen_clear (record c { screen = blank_state i c.screen })) in
    let home : Within k1.console (if i == 0 then load_home_screen k1 else k1) =
      Within-if (i == 0) k1.console _ _ (load_home_screen-Within k1) (IsFramed-refl k1.console) in
    let p = IsPrompted-shell_print_prompt k1.console _ home in
    record { screens = p.screens ∙ clear; empty = p.empty }

-- screens below `n` have been set up, and `n` is the active one
record IsUpTo (n : ℕ) (c : Console) : Type 0 where
  active : c.current ≡ n
  screen : InLine c.screen
  below : (i : ℕ) → i < n → InLine (c.others i)

IsUpTo-first : (k : Kernel) → IsUpTo 0 (init_screen 0 k).console
IsUpTo-first k =
    let p = init_screen-IsPrompted 0 k in
    record {
      active = ap (λ (h : ℕ × (ℕ → ScreenState)). h.0) p.screens;
      screen = record {
        place = omega (arith, p.empty.0, p.empty.1);
        room = omega (arith, p.empty.0);
      };
      below = λ i hi. absurd (omega arith);
    }

-- the entry of a screen after the active one is stored
stored-InLine :
    (n i : ℕ) (c : Console) → IsUpTo n c → i < suc n → InLine (set_at c.others c.current c.screen i)
stored-InLine n i c u hi = elim (Bool-cases (i == c.current)) [
  | inl here ↦ rw here u.screen
  | inr there ↦ rw there (u.below i (ground (arith, u.active)))
]

IsUpTo-next :
    (n : ℕ) (k : Kernel) → IsUpTo n k.console → IsUpTo (suc n) (init_screen (suc n) k).console
IsUpTo-next n k u =
    let p = init_screen-IsPrompted (suc n) k in
    let others = ap (λ (h : ℕ × (ℕ → ScreenState)). h.1) p.screens in
    record {
      active = ap (λ (h : ℕ × (ℕ → ScreenState)). h.0) p.screens;
      screen = record {
        place = omega (arith, p.empty.0, p.empty.1);
        room = omega (arith, p.empty.0);
      };
      below = λ i hi. rw others (stored-InLine n i k.console u hi);
    }

-- After `screen_init` the first screen is active, and the lines of all three are in order.
pub screen_init-IsConsole : (k : Kernel) → IsConsole (screen_init k).console
unfolding screen_init update_hardware_cursor
screen_init-IsConsole k =
    let k0 = init_screen 0 k in
    let k1 = init_screen 1 k0 in
    let k2 = init_screen 2 k1 in
    let u = IsUpTo-next 1 k1 (IsUpTo-next 0 k0 (IsUpTo-first k)) in
    record {
      active = omega arith;
      screen = stored-InLine 2 0 k2.console u (omega arith);
      others = λ i hi. stored-InLine 2 i k2.console u hi;
    }
