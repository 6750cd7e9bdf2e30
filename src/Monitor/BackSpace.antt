-- ===== src/Monitor/BackSpace.antt =====
-- `handle_back_space`: the search for the last character.
use native.Mathlib.Nat.{le_refl}
use titanix.Base.{
  ℕ, zero, suc, ◌+◌, ◌-◌, ◌*◌, ◌^◌, ◌≤◌, ◌<◌, ◌≡◌, inl, inr, refl, ◌∙◌, ap, true, false, ◌&&◌,
  arith, Bool-cases, some, ◌==◌, if◌then◌else◌, u8,
}
use titanix.Monitor.{Monitor, set_cell, blank, move_cursor, handle_back_space}
use titanix.Monitor.Screen.{OnScreen}

-- One cell back.
pub step_back : Monitor → Monitor
step_back m = move_cursor (
    if m.cursor_x == 0
    then record m { cursor_x = 79; cursor_y = u8 (m.cursor_y + 2 ^ 8 - 1) }
    else record m { cursor_x = u8 (m.cursor_x + 2 ^ 8 - 1) })

pub erase : Monitor → Monitor
erase m = record m {
  terminal_buffer = set_cell (m.cursor_x + 80 * m.cursor_y) blank m.terminal_buffer;
}

record Back (m m' : Monitor) : Type 0 where
  column : m'.cursor_x < 80
  row : m'.cursor_y < 25
  closer : 80 * m'.cursor_y + m'.cursor_x + 1 ≡ 80 * m.cursor_y + m.cursor_x
  cells : m'.terminal_buffer ≡ m.terminal_buffer

step_back-Back :
    (m : Monitor)
    → OnScreen m
    → ((m.cursor_x == 0) && (m.cursor_y == 0)) ≡ false
    → Back m (step_back m)
unfolding step_back move_cursor
step_back-Back m h e =
    let x = h.column in
    let y = h.row in
    record {
      column = ground arith;
      row = ground arith;
      closer = ground arith;
      cells = ground arith;
    }

handle_back_space-home :
    (fuel : ℕ) (m : Monitor)
    → ((m.cursor_x == 0) && (m.cursor_y == 0)) ≡ true
    → handle_back_space (suc fuel) m ≡ some m
unfolding handle_back_space
handle_back_space-home fuel m e = rw e

handle_back_space-more :
    (fuel : ℕ) (m m2 : Monitor)
    → ((m.cursor_x == 0) && (m.cursor_y == 0)) ≡ false
    → ((step_back m).terminal_buffer ((step_back m).cursor_x + 80 * (step_back m).cursor_y)
        == blank)
      ≡ true
    → handle_back_space fuel (step_back m) ≡ some m2
    → handle_back_space (suc fuel) m ≡ some (erase m2)
unfolding handle_back_space step_back erase
handle_back_space-more fuel m m2 e b r = simp (e, b, r)

handle_back_space-found :
    (fuel : ℕ) (m : Monitor)
    → ((m.cursor_x == 0) && (m.cursor_y == 0)) ≡ false
    → ((step_back m).terminal_buffer ((step_back m).cursor_x + 80 * (step_back m).cursor_y)
        == blank)
      ≡ false
    → handle_back_space (suc fuel) m ≡ some (erase (step_back m))
unfolding handle_back_space step_back erase
handle_back_space-found fuel m e b = simp (e, b)

erase-beyond :
    (m : Monitor) (k : ℕ)
    → OnScreen m
    → 2000 ≤ k
    → (erase m).terminal_buffer k ≡ m.terminal_buffer k
unfolding erase
erase-beyond m k h hk = let x = h.column in let y = h.row in ground arith

erase-OnScreen : (m : Monitor) → OnScreen m → OnScreen (erase m)
unfolding erase
erase-OnScreen m h = record { column = h.column; row = h.row }

erase-position :
    (m : Monitor) (n : ℕ)
    → 80 * m.cursor_y + m.cursor_x ≤ n
    → 80 * (erase m).cursor_y + (erase m).cursor_x ≤ n
unfolding erase
erase-position m n h = h

-- For a cursor on the screen, fuel above its position is enough for `handle_back_space` to return,
-- with the cursor on the screen and not after where it was, and with no cell `k` beyond the 2000
-- of the screen changed.
pub handle_back_space-OnScreen :
    (fuel : ℕ) (m : Monitor) (k : ℕ)
    → OnScreen m
    → 2000 ≤ k
    → 80 * m.cursor_y + m.cursor_x < fuel
    → (m' : Monitor) × (handle_back_space fuel m ≡ some m')
      × OnScreen m'
      × (80 * m'.cursor_y + m'.cursor_x ≤ 80 * m.cursor_y + m.cursor_x)
      × (m'.terminal_buffer k ≡ m.terminal_buffer k)
handle_back_space-OnScreen zero m k h hk hf = absurd (omega arith)
handle_back_space-OnScreen (suc fuel) m k h hk hf =
    elim (Bool-cases ((m.cursor_x == 0) && (m.cursor_y == 0))) [
      | inl e ↦ (m, handle_back_space-home fuel m e, h, le_refl _, refl)
      | inr e ↦
          let b = step_back-Back m h e in
          let m1 = step_back m in
          let on1 : OnScreen m1 = record { column = b.column; row = b.row } in
          let c1 = ap (λ (t : ℕ → ℕ). t k) b.cells in
          let near = b.closer in
          elim (Bool-cases (m1.terminal_buffer (m1.cursor_x + 80 * m1.cursor_y) == blank)) [
            | inl f ↦
                let (m2, run, on2, le2, c2) =
                  handle_back_space-OnScreen fuel m1 k on1 hk (omega arith) in
                (
                  erase m2,
                  handle_back_space-more fuel m m2 e f run,
                  erase-OnScreen m2 on2,
                  erase-position m2 (80 * m.cursor_y + m.cursor_x) (omega arith),
                  erase-beyond m2 k on2 hk ∙ c2 ∙ c1,
                )
            | inr f ↦ (
              erase m1,
              handle_back_space-found fuel m e f,
              erase-OnScreen m1 on1,
              erase-position m1 (80 * m.cursor_y + m.cursor_x) (omega arith),
              erase-beyond m1 k on1 hk ∙ c1,
            )
          ]
    ]
