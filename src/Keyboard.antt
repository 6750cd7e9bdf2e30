-- ===== src/Keyboard.antt =====
-- src/drivers/ps2_keyboard.c: scan codes, the modifier keys and the characters typed.
-- The commands that the driver sends to the keyboard are not here.
pub mod Device
pub mod Letters
pub mod Scan
mod Tests
use titanix.Ports.{Ports}
use titanix.Monitor.{Monitor, handle_back_space, monitor_put}
use titanix.Pic.{pic_mask_irq, pic_unmask_irq}
use titanix.Base.{
  ℕ, zero, suc, ◌+◌, ◌*◌, ◌%◌, ◌^◌, Bool, true, false, not, ◌&&◌, ◌||◌, Option, none, some, List,
  [], ◌∷◌, ◌==◌, if◌then◌else◌, bit_or, u64,
}

-- The static variables of the driver.
pub record Keyboard : Type 0 where
  pub keyboard_vector : ℕ
  pub scan_set : ℕ
  pub capslock : Bool
  pub numlock : Bool
  pub scrolllock : Bool
  pub ctrldown : Bool
  pub altdown : Bool
  pub fndown : Bool
  pub shiftdown : Bool
  pub is_masked : Bool
  pub counter : ℕ

abbrev pub Buffer : Type 0
Buffer = ℕ → ℕ

abbrev pub set_byte : ℕ → ℕ → Buffer → Buffer
set_byte i v b k = if k == i then v else b k

-- Whether more bytes follow the first `bytes` ones.
pub next_byte_check : Buffer → ℕ → Bool
next_byte_check scancode bytes =
    if bytes == 1
    then (scancode 0 == 0xe0 || scancode 0 == 0xf0) || scancode 0 == 0xe1
    else if bytes == 2
    then (scancode 1 == 0xf0 || (scancode 0 == 0xe0 && scancode 1 == 0x12))
      || (scancode 0 == 0xe1 && scancode 1 == 0x14)
    else if bytes == 3
    then (scancode 2 == 0x77 || scancode 2 == 0x7c) || scancode 2 == 0xe0
    else if bytes == 4
    then scancode 3 == 0xe0 || scancode 3 == 0xe1
    else if bytes == 5
    then scancode 4 == 0xf0
    else if bytes == 6
    then scancode 5 == 0x14
    else if bytes == 7
    then scancode 6 == 0xf0
    else false

pub is_valid_keyboard : Keyboard → Bool
is_valid_keyboard k = (k.scan_set == 2) && not k.is_masked

-- The scan codes of A to Z in `enum CODES`, in the order of the alphabet.
abbrev pub letter_codes : List ℕ
letter_codes =
    0x1c ∷ 0x32 ∷ 0x21 ∷ 0x23 ∷ 0x24 ∷ 0x2b ∷ 0x34 ∷ 0x33 ∷ 0x43 ∷ 0x3b ∷ 0x42 ∷ 0x4b ∷ 0x3a ∷ 0x31
    ∷ 0x44 ∷ 0x4d ∷ 0x15 ∷ 0x2d ∷ 0x1b ∷ 0x2c ∷ 0x3c ∷ 0x2a ∷ 0x1d ∷ 0x22 ∷ 0x35 ∷ 0x1a ∷ []

-- The cases of `analayze_ascii` that choose by a modifier: label, character with it, without it.
abbrev pub letters_to_m : List (ℕ × ℕ × ℕ)
letters_to_m =
    (0x1c, 65, 97)
    ∷ (0x32, 66, 98)
    ∷ (0x21, 67, 99)
    ∷ (0x23, 68, 100)
    ∷ (0x24, 69, 101)
    ∷ (0x2b, 70, 102)
    ∷ (0x34, 71, 103)
    ∷ (0x33, 72, 104)
    ∷ (0x43, 73, 105)
    ∷ (0x3b, 74, 106)
    ∷ (0x42, 75, 107)
    ∷ (0x4b, 76, 108)
    ∷ (0x3a, 77, 109)
    ∷ []

abbrev pub letters_from_n : List (ℕ × ℕ × ℕ)
letters_from_n =
    (0x31, 78, 110)
    ∷ (0x44, 79, 111)
    ∷ (0x4d, 80, 112)
    ∷ (0x15, 81, 113)
    ∷ (0x2d, 82, 114)
    ∷ (0x1b, 83, 115)
    ∷ (0x2c, 84, 116)
    ∷ (0x3c, 85, 117)
    ∷ (0x2a, 86, 118)
    ∷ (0x1d, 87, 119)
    ∷ (0x22, 88, 120)
    ∷ (0x35, 89, 121)
    ∷ (0x1a, 90, 122)
    ∷ []

abbrev pub digit_keys : List (ℕ × ℕ × ℕ)
digit_keys =
    (0x16, 33, 49)
    ∷ (0x1e, 64, 50)
    ∷ (0x26, 35, 51)
    ∷ (0x25, 36, 52)
    ∷ (0x2e, 37, 53)
    ∷ (0x36, 94, 54)
    ∷ (0x3d, 38, 55)
    ∷ (0x3e, 42, 56)
    ∷ (0x46, 40, 57)
    ∷ (0x45, 41, 48)
    ∷ []

abbrev pub mark_keys : List (ℕ × ℕ × ℕ)
mark_keys = (0x4a, 63, 47) ∷ (0x49, 62, 46) ∷ (0x41, 60, 44) ∷ []

-- The case of a table that has the label, or else `d`.
pub select : List (ℕ × ℕ × ℕ) → ℕ → Bool → ℕ → ℕ
select [] scancode upper d = d
select ((label, u, l) ∷ rest) scancode upper d =
    if scancode == label then (if upper then u else l) else select rest scancode upper d

-- The cases that change no state.
pub key_char : ℕ → Keyboard → ℕ
key_char scancode k =
    let capital = k.shiftdown || k.capslock in
    if scancode == 0x5a
    then 10
    else if scancode == 0x29
    then 32
    else select mark_keys scancode k.shiftdown (
        select letters_to_m scancode capital
          (select letters_from_n scancode capital (select digit_keys scancode k.shiftdown 126)))

-- `analayze_ascii`; 126 is '~', for no character. The statement of the case SCROLLLOCK is a comparison.
pub analayze_ascii : (fuel scancode : ℕ) → Keyboard → Monitor → Option (ℕ × Keyboard × Monitor)
analayze_ascii fuel scancode k m =
    if scancode == 0x12
    then some (126, record k { shiftdown = true }, m)
    else if scancode == 0xf012
    then some (126, record k { shiftdown = false }, m)
    else if scancode == 0x58
    then some (126, record k { capslock = not k.capslock }, m)
    else if scancode == 0x7e
    then some (126, k, m)
    else if scancode == 0x14
    then some (126, record k { ctrldown = true }, m)
    else if scancode == 0xf014
    then some (126, record k { ctrldown = false }, m)
    else if scancode == 0x66
    then elim (handle_back_space fuel m) [ none ↦ none | some m' ↦ some (126, k, m') ]
    else some (key_char scancode k, k, m)

-- The bytes of a scan code as one number; `n` bytes are left from `i` on.
pub render : (n i rendered_scancode : ℕ) → Buffer → ℕ
render zero i rendered_scancode scancode = rendered_scancode
render (suc n) i rendered_scancode scancode =
    render n (i + 1) (bit_or (u64 (rendered_scancode * 2 ^ 8)) (scancode i)) scancode

module _ (P : Ports) where
  pub set_mask : Bool → Keyboard → P.State → P.State
  set_mask mask k s =
      if mask then pic_mask_irq P k.keyboard_vector s else pic_unmask_irq P k.keyboard_vector s

  -- The loop of `ps2_keyboard_get_scancode` at `bytes`, with `n` rounds left.
  pub get_loop : (n bytes : ℕ) → Buffer → P.State → ℕ × Buffer × P.State
  get_loop zero bytes scancode_out s = (0, scancode_out, s)
  get_loop (suc n) bytes scancode_out s =
      let (byte, s') = P.inb 0x60 s in
      let scancode = set_byte bytes byte scancode_out in
      let rest = get_loop n (bytes + 1) scancode s' in
      if not (next_byte_check scancode (bytes + 1)) then (bytes + 1, scancode, s') else rest

  pub ps2_keyboard_get_scancode : Keyboard → Buffer → P.State → ℕ × Buffer × P.State
  ps2_keyboard_get_scancode k scancode_out s =
      if not (is_valid_keyboard k) then (0, scancode_out, s) else get_loop 8 0 scancode_out s

  pub ps2_keyboard_handle_scancode :
      (fuel : ℕ)
      → Buffer
      → (bytes : ℕ) → Keyboard
      → Monitor
      → P.State
      → Option (Keyboard × Monitor × P.State)
  ps2_keyboard_handle_scancode fuel scancode bytes k m s =
      if k.counter == 100000
      then some (k, m, set_mask false k s)
      else (let k1 = record k { counter = u64 (k.counter + 1) } in
          if bytes == 0
          then some (k1, m, s)
          else elim (analayze_ascii fuel (render bytes 0 0 scancode) k1 m) [
            | none ↦ none
            | some (c, k2, m2) ↦ some (k2, if c == 126 then m2 else monitor_put c m2, s)
          ])
