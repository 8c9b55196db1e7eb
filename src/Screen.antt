-- ===== src/Screen.antt =====
-- src/screen.c: the text screen, the three virtual screens and the line that is being typed. A cell
-- of the VGA memory is a 16-bit word by its index; a character is its unsigned byte.
pub mod Scroll
pub mod Cursor
pub mod Switch
pub mod Input
pub mod Frame
pub mod Output
use kfs.Base.{
  ℕ, zero, suc, ◌+◌, ◌-◌, ◌*◌, ◌/◌, ◌%◌, ◌^◌, bit_or, ◌==◌, ltb, leb, if◌then◌else◌, true, false,
  List, [], ◌∷◌, Bool, ◌||◌, ◌&&◌,
}
use kfs.Machine.Word.{add32, sub32, mul32}

abbrev pub screen_width : ℕ
screen_width = 80

abbrev pub screen_height : ℕ
screen_height = 25

abbrev pub screen_size : ℕ
screen_size = screen_width * screen_height * 2

abbrev pub max_screens : ℕ
max_screens = 3

pub record ScreenState : Type 0 where
  pub buffer : ℕ → ℕ
  pub cursor_x : ℕ
  pub cursor_y : ℕ
  pub input_length : ℕ
  pub input_cursor : ℕ
  pub input_start_x : ℕ
  pub input_start_y : ℕ
  pub color : ℕ

-- `screen` is the entry of `states` that `current_screen` points to, and `current` its index;
-- `others` holds the other entries. `ports` lists the calls of `outb`, the last one first.
pub record Console : Type 0 where
  pub screen : ScreenState
  pub current : ℕ
  pub others : ℕ → ScreenState
  pub vga : ℕ → ℕ
  pub ports : List (ℕ × ℕ)

-- an assignment to an element of an array
abbrev pub set_at : {A : Type 0} → (ℕ → A) → ℕ → A → ℕ → A
set_at f i v j = if j == i then v else f j

abbrev pub vga_entry : ℕ → ℕ → ℕ
vga_entry uc color = bit_or (uc % 2 ^ 8) (color * 2 ^ 8 % 2 ^ 16)

abbrev pub vga_color : ℕ → ℕ → ℕ
vga_color fg bg = bit_or fg (bg * 2 ^ 4) % 2 ^ 8

-- the index of a cell
abbrev pub cell_at : ℕ → ℕ → ℕ
cell_at x y = add32 (mul32 y screen_width) x

unfoldable pub update_hardware_cursor : Console → Console
update_hardware_cursor c =
    let p : ℕ = cell_at c.screen.cursor_x c.screen.cursor_y % 2 ^ 16 in
    record c {
      ports =
          (0x3D5, p / 2 ^ 8 % 2 ^ 8) ∷ (0x3D4, 0x0E) ∷ (0x3D5, p % 2 ^ 8) ∷ (0x3D4, 0x0F) ∷ c.ports;
    }

-- `for (i = first; ...; i++) VGA_BUFFER[i] = v`, by the rounds left
unfoldable pub fill_cells : ℕ → ℕ → ℕ → (ℕ → ℕ) → ℕ → ℕ
fill_cells zero i v vga = vga
fill_cells (suc left) i v vga = fill_cells left (i + 1) v (set_at vga i v)

unfoldable pub screen_clear : Console → Console
screen_clear c = update_hardware_cursor (record c {
  screen = record c.screen { cursor_x = 0; cursor_y = 0 };
  vga = fill_cells (screen_width * screen_height) 0 (vga_entry 32 c.screen.color) c.vga;
})

-- The two nested loops of `screen_scroll`, whose `dst_index` counts from 0, by the rounds left.
unfoldable pub copy_rows : ℕ → ℕ → (ℕ → ℕ) → ℕ → ℕ
copy_rows zero i vga = vga
copy_rows (suc left) i vga = copy_rows left (i + 1) (set_at vga i (vga (i + screen_width)))

unfoldable pub screen_scroll : Console → Console
screen_scroll c = update_hardware_cursor (record c {
  screen = record c.screen { cursor_y = screen_height - 1 };
  vga =
      fill_cells screen_width ((screen_height - 1) * screen_width) (vga_entry 32 c.screen.color)
        (copy_rows ((screen_height - 1) * screen_width) 0 c.vga);
})

unfoldable pub screen_set_color : ℕ → ℕ → Console → Console
screen_set_color fg bg c =
    update_hardware_cursor (record c { screen = record c.screen { color = vga_color fg bg } })

-- the three cases of `screen_putchar` on the character
unfoldable pub put_cell : ℕ → Console → Console
put_cell ch c =
    let s = c.screen in
    if ch == 10
    then record c { screen = record s { cursor_x = 0; cursor_y = add32 s.cursor_y 1 } }
    else if ch == 8
    then if ltb 0 s.cursor_x
      then record c {
        screen = record s { cursor_x = s.cursor_x - 1 };
        vga = set_at c.vga (cell_at (s.cursor_x - 1) s.cursor_y) (vga_entry 32 s.color);
      }
      else c
    else record c {
      screen = record s { cursor_x = add32 s.cursor_x 1 };
      vga = set_at c.vga (cell_at s.cursor_x s.cursor_y) (vga_entry ch s.color);
    }

-- `// line overflow //`
unfoldable pub wrap_line : Console → Console
wrap_line c =
    if ltb screen_width c.screen.cursor_x
    then record c {
      screen = record c.screen { cursor_x = 0; cursor_y = add32 c.screen.cursor_y 1 };
    }
    else c

-- `// screen overflow`
unfoldable pub wrap_screen : Console → Console
wrap_screen c = if leb screen_height c.screen.cursor_y then screen_scroll c else c

unfoldable pub screen_putchar : ℕ → Console → Console
screen_putchar ch c = update_hardware_cursor (wrap_screen (wrap_line (put_cell ch c)))

-- on the characters of the string
unfoldable pub screen_putstring : List ℕ → Console → Console
screen_putstring [] c = c
screen_putstring (ch ∷ str) c = screen_putstring str (screen_putchar ch c)

unfoldable pub screen_set_cursor : ℕ → ℕ → Console → Console
screen_set_cursor x y c =
    if ltb x screen_width && ltb y screen_height
    then update_hardware_cursor
        (record c { screen = record c.screen { cursor_x = x; cursor_y = y } })
    else c

-- `memcpy` of the VGA memory into a buffer, byte by byte
abbrev pub save_cells : (ℕ → ℕ) → (ℕ → ℕ) → ℕ → ℕ
save_cells vga buffer b =
    if ltb b screen_size
    then if b % 2 == 0 then vga (b / 2) % 2 ^ 8 else vga (b / 2) / 2 ^ 8 % 2 ^ 8
    else buffer b

-- `memcpy` of a buffer into the VGA memory
abbrev pub load_cells : (ℕ → ℕ) → (ℕ → ℕ) → ℕ → ℕ
load_cells buffer vga i =
    if ltb i (screen_width * screen_height)
    then buffer (2 * i) + 2 ^ 8 * buffer (2 * i + 1)
    else vga i

-- for `n` that is not negative
unfoldable pub switch_screen : ℕ → Console → Console
switch_screen n c =
    if leb max_screens n || (c.current == n)
    then c
    else update_hardware_cursor (record c {
      screen = c.others n;
      current = n;
      others =
          set_at c.others c.current (record c.screen { buffer = save_cells c.vga c.screen.buffer });
      vga = load_cells (c.others n).buffer c.vga;
    })
