-- ===== src/Keyboard/Device/Letter.antt =====
-- The interrupt of the keyboard, when a letter is typed.
use titanix.Ports.{Ports}
use titanix.Base.{
  ℕ, ◌+◌, ◌*◌, ◌^◌, Bool, not, ◌&&◌, ◌||◌, List, ◌∷◌, ◌==◌, if◌then◌else◌, leb, u64, bit_or,
}
use titanix.Monitor.{Monitor}
use titanix.Keyboard.{Keyboard}
use titanix.Keyboard.Letters.{letter_code}
use titanix.Keyboard.Device.Wire.{Wire}

-- A letter's scan code is one byte that stands for itself.
single_test : ℕ → Bool
single_test j =
    let c = letter_code j in
    not ((c == 0xe0 || c == 0xf0) || c == 0xe1) && (bit_or (u64 (0 * 2 ^ 8)) c == c)

-- The keyboard after one more interrupt.
abbrev pub counted : Keyboard → Keyboard
counted k = record k { counter = u64 (k.counter + 1) }

-- The character of a letter, by the keys that are down.
abbrev pub letter_char : ℕ → Keyboard → ℕ
letter_char j k = (if k.shiftdown || k.capslock then 65 else 97) + j

-- The writes that end an interrupt.
abbrev pub eoi_writes : ℕ → List (ℕ × ℕ) → List (ℕ × ℕ)
eoi_writes vector before = (0x20, 0x20) ∷ (if leb 40 vector then (0xa0, 0x20) ∷ before else before)
