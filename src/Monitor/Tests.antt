-- ===== src/Monitor/Tests.antt =====
-- Tests and witnesses of the screen.
use titanix.Base.{◌+◌, ◌*◌, ◌/◌, ◌%◌, ◌≤◌, ◌≡◌, refl, arith, [], ◌∷◌, some}
use titanix.Base.{ℕ, List}
use titanix.Monitor.{Monitor, create_cell, blank, monitor_put, handle_back_space}
use titanix.Monitor.Screen.{OnScreen, monitor_put-OnScreen}
use titanix.Monitor.BackSpace.{handle_back_space-OnScreen}

-- The cursor in the last cell of a screen of dots.
abbrev corner : Monitor
corner = record { cursor_x = 79; cursor_y = 24; terminal_buffer = λ k. 0x0f2e; outs = [] }

abbrev below : Monitor
below = record corner { cursor_x = 0; cursor_y = 25 }

corner-OnScreen : OnScreen corner
corner-OnScreen = record { column = omega arith; row = omega arith }

blank_word : blank ≡ 0x0f20
unfolding blank create_cell
blank_word = refl

monitor_put-OnScreen_example :
    let m' = monitor_put 65 corner in
    let pos = m'.cursor_y * 80 + m'.cursor_x in
    OnScreen m'
    × (m'.terminal_buffer 2000 ≡ 0x0f2e)
    × (m'.outs ≡ (0x3d5, pos % 256) ∷ (0x3d4, 15) ∷ (0x3d5, pos / 256) ∷ (0x3d4, 14) ∷ [])
monitor_put-OnScreen_example = monitor_put-OnScreen 65 corner 2000 corner-OnScreen (omega arith)

handle_back_space-OnScreen_example :
    (m' : Monitor) × (handle_back_space 2000 corner ≡ some m')
    × OnScreen m'
    × (80 * m'.cursor_y + m'.cursor_x ≤ 80 * 24 + 79)
    × (m'.terminal_buffer 2000 ≡ 0x0f2e)
handle_back_space-OnScreen_example =
    handle_back_space-OnScreen 2000 corner 2000 corner-OnScreen (omega arith) (omega arith)

abbrev above_words : ℕ
above_words = 0x100000000
