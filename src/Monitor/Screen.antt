-- ===== src/Monitor/Screen.antt =====
-- src/drivers/monitor.c: the screen of 80 columns and 25 rows, the cursor and the cells.
use titanix.Base.{
  ℕ, zero, suc, ◌+◌, ◌-◌, ◌*◌, ◌/◌, ◌%◌, ◌^◌, ◌≤◌, ◌<◌, ◌≡◌, ◌∙◌, ap, ◌&&◌, arith, List, ◌∷◌, ltb,
  leb, if◌then◌else◌, bit_and, u8, u16,
}
use titanix.Base.Bits.{bit_and-mask, bit_and-high_mask}
use titanix.Monitor.{
  Monitor, Cells, set_cell, blank, move_cursor, scroll_loop, blank_loop, scroll, put_char,
  wrap_line, monitor_put,
}

pub record OnScreen (m : Monitor) : Type 0 where
  pub column : m.cursor_x < 80
  pub row : m.cursor_y < 25

-- What the two loops of `scroll` leave at each cell.
pub scroll_loop_lem :
    (n i : ℕ) (t : Cells) (k : ℕ)
    → scroll_loop n i t k ≡ (if leb i k && ltb k (i + n) then t (k + 80) else t k)
unfolding scroll_loop
scroll_loop_lem zero i t k = ground arith
scroll_loop_lem (suc n) i t k =
    let e = scroll_loop_lem n (i + 1) (set_cell i (t (i + 80)) t) k in ground arith

pub blank_loop_lem :
    (n i : ℕ) (t : Cells) (k : ℕ)
    → blank_loop n i t k ≡ (if leb i k && ltb k (i + n) then blank else t k)
unfolding blank_loop
blank_loop_lem zero i t k = ground arith
blank_loop_lem (suc n) i t k =
    let e = blank_loop_lem n (i + 1) (set_cell i blank t) k in ground arith

-- When the cursor is below the last row, `scroll` leaves in each of the first 24 rows what stood
-- in the next row, blanks in the last row, and every cell beyond the screen as it was.
pub scroll_lem :
    (m : Monitor) (k : ℕ)
    → 25 ≤ m.cursor_y
    → (scroll m).terminal_buffer k ≡ (
        if ltb k 1920
        then m.terminal_buffer (k + 80)
        else if ltb k 2000
        then blank
        else m.terminal_buffer k)
unfolding scroll
scroll_lem m k h =
    let t1 = scroll_loop 1920 0 m.terminal_buffer in
    let e1 = scroll_loop_lem 1920 0 m.terminal_buffer k in
    let e2 = blank_loop_lem 80 1920 t1 k in ground arith

-- The character writes at most one cell, on the screen, and leaves the cursor near it.
record Near (m m' : Monitor) : Type 0 where
  column : m'.cursor_x ≤ 80
  row : m'.cursor_y ≤ 25
  corner : m'.cursor_y ≡ 25 → m'.cursor_x ≡ 0
  beyond : (k : ℕ) → 2000 ≤ k → m'.terminal_buffer k ≡ m.terminal_buffer k

tab_stop : (x : ℕ) → x < 80 → bit_and (x + 8) (2 ^ 32 - 8) ≤ 80
tab_stop x h =
    omega (arith, bit_and-high_mask 3 (2 ^ 29 - 1) (x + 8), bit_and-mask 29 ((x + 8) / 2 ^ 3))

put_char-Near : (c : ℕ) (m : Monitor) → OnScreen m → Near m (put_char c m)
unfolding put_char
put_char-Near c m h =
    let x = h.column in
    let y = h.row in
    let stop = tab_stop m.cursor_x x in
    record {
      column = ground arith;
      row = ground arith;
      corner = λ e. ground arith;
      beyond = λ k hk. ground arith;
    }

wrap_line-Near : (m m' : Monitor) → Near m m' → Near m (wrap_line m')
unfolding wrap_line
wrap_line-Near m m' n =
    let c = n.column in
    let r = n.row in
    let e = n.corner in
    record {
      column = ground arith;
      row = ground arith;
      corner = λ h. ground arith;
      beyond = λ k hk. let b = n.beyond k hk in ground arith;
    }

wrap_line-column : (m m' : Monitor) → Near m m' → (wrap_line m').cursor_x < 80
unfolding wrap_line
wrap_line-column m m' n = let c = n.column in ground arith

scroll-OnScreen : (m : Monitor) → m.cursor_x < 80 → m.cursor_y ≤ 25 → OnScreen (scroll m)
unfolding scroll
scroll-OnScreen m x y = record { column = ground arith; row = ground arith }

scroll-beyond :
    (m : Monitor) (k : ℕ) → 2000 ≤ k → (scroll m).terminal_buffer k ≡ m.terminal_buffer k
unfolding scroll
scroll-beyond m k h =
    let t1 = scroll_loop 1920 0 m.terminal_buffer in
    let e1 = scroll_loop_lem 1920 0 m.terminal_buffer k in
    let e2 = blank_loop_lem 80 1920 t1 k in ground arith

move_cursor-outs :
    (m : Monitor)
    → OnScreen m
    → let pos = m.cursor_y * 80 + m.cursor_x in
      (move_cursor m).outs
      ≡ (0x3d5, pos % 256) ∷ (0x3d4, 15) ∷ (0x3d5, pos / 256) ∷ (0x3d4, 14) ∷ m.outs
unfolding move_cursor
move_cursor-outs m h =
    let x = h.column in
    let y = h.row in
    let pos = m.cursor_y * 80 + m.cursor_x in
    let fits : u16 pos ≡ pos = omega arith in
    let low : u8 (bit_and pos 0xff) ≡ pos % 256 = omega (arith, bit_and-mask 8 pos) in
    let high : u8 (bit_and (pos / 256) 0xff) ≡ pos / 256 =
      omega (arith, bit_and-mask 8 (pos / 256)) in
    simp (fits, low, high)

put_char-outs : (c : ℕ) (m : Monitor) → (scroll (wrap_line (put_char c m))).outs ≡ m.outs
unfolding put_char wrap_line scroll
put_char-outs c m = ground arith

-- For a cursor on the screen, `monitor_put` of any character leaves the cursor on the screen,
-- writes no cell `k` beyond the 2000 of the screen, and tells the hardware the new position, high
-- byte first.
pub monitor_put-OnScreen :
    (c : ℕ) (m : Monitor) (k : ℕ)
    → OnScreen m
    → 2000 ≤ k
    → let m' = monitor_put c m in
      let pos = m'.cursor_y * 80 + m'.cursor_x in
      OnScreen m'
      × (m'.terminal_buffer k ≡ m.terminal_buffer k)
      × (m'.outs ≡ (0x3d5, pos % 256) ∷ (0x3d4, 15) ∷ (0x3d5, pos / 256) ∷ (0x3d4, 14) ∷ m.outs)
unfolding monitor_put move_cursor
monitor_put-OnScreen c m k h hk =
    let n = wrap_line-Near m (put_char c m) (put_char-Near c m h) in
    let m1 = wrap_line (put_char c m) in
    let on = scroll-OnScreen m1 (wrap_line-column m (put_char c m) (put_char-Near c m h)) n.row in
    let outs = move_cursor-outs (scroll m1) on in
    let same = put_char-outs c m in
    let pos = (scroll m1).cursor_y * 80 + (scroll m1).cursor_x in
    (
      record { column = on.column; row = on.row },
      scroll-beyond m1 k hk ∙ n.beyond k hk,
      outs
          ∙ ap
              (λ (l : List (ℕ × ℕ)).
                (0x3d5, pos % 256) ∷ (0x3d4, 15) ∷ (0x3d5, pos / 256) ∷ (0x3d4, 14) ∷ l)
              same,
    )
