-- ===== src/Monitor.antt =====
-- src/drivers/monitor.c: the text screen.
-- The buffer at 0xb8000 is a function from a cell's index to its word; what is written to the ports is
-- a list, the newest write first.
pub mod Screen
pub mod BackSpace
pub mod Print
mod Tests
use titanix.Base.{
  ℕ, zero, suc, ◌+◌, ◌-◌, ◌*◌, ◌/◌, ◌%◌, ◌^◌, Bool, true, false, not, ◌&&◌, ◌||◌, Option, none,
  some, List, [], ◌∷◌, ◌==◌, ltb, leb, if◌then◌else◌, bit_and, bit_or, u8, u16, u32,
}

abbrev pub black : ℕ
black = 0

abbrev pub white : ℕ
white = 15

abbrev pub Cells : Type 0
Cells = ℕ → ℕ

abbrev pub set_cell : ℕ → ℕ → Cells → Cells
set_cell i w t k = if k == i then w else t k

pub record Monitor : Type 0 where
  pub cursor_x : ℕ
  pub cursor_y : ℕ
  pub terminal_buffer : Cells
  pub outs : List (ℕ × ℕ)

pub create_cell : (c fore_color back_color : ℕ) → ℕ
create_cell c fore_color back_color =
    let upper = u8 (back_color * 2 ^ 4) in
    let upper1 = u8 (bit_or upper fore_color) in
    let word = u16 (upper1 * 2 ^ 8) in u16 (bit_or word (u8 c))

pub blank : ℕ
blank = create_cell 32 white black

abbrev pub outb : ℕ → ℕ → List (ℕ × ℕ) → List (ℕ × ℕ)
outb port value outs = (port, u8 value) ∷ outs

pub move_cursor : Monitor → Monitor
move_cursor m =
    let pos = u16 (m.cursor_y * 80 + m.cursor_x) in
    let o1 = outb 0x3d4 14 m.outs in
    let o2 = outb 0x3d5 (bit_and (pos / 2 ^ 8) 0xff) o1 in
    let o3 = outb 0x3d4 15 o2 in let o4 = outb 0x3d5 (bit_and pos 0xff) o3 in record m { outs = o4 }

-- The two loops of `scroll`, with `n` rounds left.
pub scroll_loop : (n i : ℕ) → Cells → Cells
scroll_loop zero i t = t
scroll_loop (suc n) i t = scroll_loop n (i + 1) (set_cell i (t (i + 80)) t)

pub blank_loop : (n i : ℕ) → Cells → Cells
blank_loop zero i t = t
blank_loop (suc n) i t = blank_loop n (i + 1) (set_cell i blank t)

pub scroll : Monitor → Monitor
scroll m =
    if leb 25 m.cursor_y
    then record m {
      terminal_buffer = blank_loop 80 (24 * 80) (scroll_loop (24 * 80) 0 m.terminal_buffer);
      cursor_y = 24;
    }
    else m

-- The chain of tests in `monitor_put` on the character. `~ (8 - 1)` is an `int` of ones above the
-- low three bits.
pub put_char : ℕ → Monitor → Monitor
put_char c m =
    if (c == 0x08) && not (m.cursor_x == 0)
    then (let x = u8 (m.cursor_x + 2 ^ 8 - 1) in
        record m {
          cursor_x = x;
          terminal_buffer = set_cell (x + 80 * m.cursor_y) blank m.terminal_buffer;
        })
    else if c == 0x09
    then record m { cursor_x = u8 (bit_and (m.cursor_x + 8) (2 ^ 32 - 8)) }
    else if c == 13
    then record m { cursor_x = 0 }
    else if c == 10
    then record m { cursor_x = 0; cursor_y = u8 (m.cursor_y + 1) }
    else if (ltb 32 c || c == 32) || (ltb c 57 && ltb 48 c)
    then record m {
      terminal_buffer =
          set_cell (m.cursor_x + 80 * m.cursor_y) (create_cell c white black) m.terminal_buffer;
      cursor_x = u8 (m.cursor_x + 1);
    }
    else m

-- "New line is needed."
pub wrap_line : Monitor → Monitor
wrap_line m =
    if leb 80 m.cursor_x then record m { cursor_x = 0; cursor_y = u8 (m.cursor_y + 1) } else m

pub monitor_put : ℕ → Monitor → Monitor
monitor_put c m = move_cursor (scroll (wrap_line (put_char c m)))

pub monitor_clear : Monitor → Monitor
monitor_clear m =
    let cleared = blank_loop (25 * 80) 0 m.terminal_buffer in
    move_cursor (record m { terminal_buffer = cleared; cursor_x = 0; cursor_y = 0 })

pub init_monitor : Monitor → Monitor
init_monitor m = monitor_clear (record m { cursor_x = 0; cursor_y = 0 })

-- `handle_back_space` calls itself while the cell that it comes to is blank: recursion on fuel.
pub handle_back_space : ℕ → Monitor → Option Monitor
handle_back_space zero m = none
handle_back_space (suc fuel) m =
    if (m.cursor_x == 0) && (m.cursor_y == 0)
    then some m
    else (let m1 = move_cursor (
          if m.cursor_x == 0
          then record m { cursor_x = 79; cursor_y = u8 (m.cursor_y + 2 ^ 8 - 1) }
          else record m { cursor_x = u8 (m.cursor_x + 2 ^ 8 - 1) }) in
        let rest = handle_back_space fuel m1 in
        elim (if m1.terminal_buffer (m1.cursor_x + 80 * m1.cursor_y) == blank
          then rest
          else some m1) [
            | none ↦ none
            | some m2 ↦ some (record m2 {
              terminal_buffer = set_cell (m2.cursor_x + 80 * m2.cursor_y) blank m2.terminal_buffer;
            })
          ])

-- `monitor_write` of the characters before the end of a string.
pub monitor_write : List ℕ → Monitor → Monitor
monitor_write [] m = m
monitor_write (c ∷ cs) m = if c == 0 then m else monitor_write cs (monitor_put c m)
