-- ===== src/Keyboard/Tests.antt =====
-- Tests and witnesses of the keyboard.
use titanix.Ports.{Ports}
use titanix.Monitor.{Monitor}
use titanix.Idt.{Idt}
use titanix.Keyboard.Device.Wire.{Wire}
use titanix.Base.{
  List, ◌∷◌, ltb, ℕ, ◌+◌, ◌≤◌, ◌<◌, ◌≡◌, refl, arith, true, false, [], ◌==◌, ◌%◌, ◌-◌, ◌&&◌, ◌||◌,
  not, bit_and, Bool-cases, inl, inr, ◌≢◌, if◌then◌else◌,
}
use titanix.Keyboard.{
  Keyboard, next_byte_check, is_valid_keyboard, get_loop, ps2_keyboard_get_scancode,
}
use titanix.Keyboard.Scan.{ps2_keyboard_get_scancode_lem}

abbrev keyboard : Keyboard
keyboard = record {
  keyboard_vector = 33;
  scan_set = 2;
  capslock = false;
  numlock = false;
  scrolllock = false;
  ctrldown = false;
  altdown = false;
  fndown = false;
  shiftdown = true;
  is_masked = false;
  counter = 0;
}

abbrev screen : Monitor
screen = record { cursor_x = 0; cursor_y = 0; terminal_buffer = λ k. 0x0f20; outs = [] }

-- Every port reads the next byte of a script: the release of a shift key.
abbrev script : ℕ → ℕ
script i = if i == 0 then 0xf0 else 0x12

abbrev scripted : Ports
scripted = record { State = ℕ; inb = λ p i. (script i, i + 1); outb = λ p v i. i }

abbrev pop : List ℕ → List (ℕ × ℕ) → ℕ × (List ℕ × List (ℕ × ℕ))
pop [] sent = (0, ([], sent))
pop (v ∷ rest) sent = (v, (rest, sent))

read_keyboard : is_valid_keyboard keyboard ≡ true
unfolding is_valid_keyboard
read_keyboard = refl

two_bytes : (ps2_keyboard_get_scancode scripted keyboard (λ i. 0) 0).0 ≡ 2
unfolding ps2_keyboard_get_scancode get_loop next_byte_check is_valid_keyboard
two_bytes = refl

ps2_keyboard_get_scancode_lem_example :
    let r = ps2_keyboard_get_scancode scripted keyboard (λ i. 0) 0 in
    (0 < r.0)
    × (r.0 ≤ 8)
    × (next_byte_check r.1 r.0 ≡ false)
    × ((j : ℕ) → 0 < j → j < r.0 → next_byte_check r.1 j ≡ true)
ps2_keyboard_get_scancode_lem_example =
    ps2_keyboard_get_scancode_lem scripted keyboard (λ i. 0) 0 read_keyboard

-- Ports behind which a keyboard answers with the bytes of a list; the writes that are taken are
-- kept. After a write the controller is busy for two polls, and loses what is written then; it
-- takes the byte for its configuration at once.
abbrev line : Ports
line = record {
  State = List ℕ × (List (ℕ × ℕ) × ℕ);
  inb = λ p s.
      if p == 0x60
      then (let r = pop s.0 s.1.0 in (r.0, (r.1.0, (r.1.1, 0))))
      else if p == 0x64
      then ((if s.1.1 % 3 == 0 then 0 else 2), (s.0, (s.1.0, s.1.1 % 3 - 1)))
      else (0, s);
  outb = λ p v s.
      if not (p == 0x60 || p == 0x64)
      then (s.0, ((p, v) ∷ s.1.0, s.1.1))
      else if s.1.1 % 3 == 0
      then (s.0, ((p, v) ∷ s.1.0, (if p == 0x64 && v == 0x60 then 0 else 2)))
      else s;
}

line-taken :
    (p v : ℕ) (s : line.State)
    → s.1.1 % 3 ≡ 0
    → ((line.outb p v s).0 ≡ s.0) × ((line.outb p v s).1.0 ≡ (p, v) ∷ s.1.0)
line-taken p v s z =
    let e : (s.1.1 % 3 == 0) ≡ true = ground arith in
    elim (Bool-cases (not (p == 0x60 || p == 0x64))) [
      | inl o ↦ (simp o, simp o)
      | inr o ↦ (simp (o, e), simp (o, e))
    ]

line-elsewhere :
    (p v : ℕ) (s : line.State)
    → p ≢ 0x60
    → p ≢ 0x64
    → ((line.outb p v s).0 ≡ s.0) × ((line.outb p v s).1.0 ≡ (p, v) ∷ s.1.0)
line-elsewhere p v s n n' =
    let o : not (p == 0x60 || p == 0x64) ≡ true = ground arith in (simp o, simp o)

line-idle :
    (s : line.State)
    → s.1.1 % 3 ≡ 0
    → (bit_and (line.inb 0x64 s).0 0x02 ≡ 0) × ((line.inb 0x64 s).1.1.1 % 3 ≡ 0)
line-idle s z = let e : (s.1.1 % 3 == 0) ≡ true = ground arith in (simp e, omega arith)

line-at_work :
    (s : line.State)
    → s.1.1 % 3 ≢ 0
    → (bit_and (line.inb 0x64 s).0 0x02 ≢ 0) × ((line.inb 0x64 s).1.1.1 % 3 < s.1.1 % 3)
line-at_work s z =
    let e : (s.1.1 % 3 == 0) ≡ false = ground arith in
    let set : bit_and (line.inb 0x64 s).0 0x02 ≡ 2 = simp e in (omega (arith, set), omega arith)

line-Wire : Wire line
line-Wire = record {
  incoming = λ s. s.0;
  sent = λ s. s.1.0;
  busy = λ s. s.1.1 % 3;
  limit = 2;
  bounded = λ s. omega arith;
  reads = λ s v rest e. simp e (refl, refl, refl, refl);
  polls = λ s. (refl, refl);
  idle = line-idle;
  at_work = line-at_work;
  writes = line-taken;
  elsewhere = line-elsewhere;
}

abbrev unset : Keyboard
unset = record keyboard { keyboard_vector = 0; scan_set = 0; shiftdown = false }

abbrev empty_idt : Idt
empty_idt = record {
  idt = λ i. record {
    isr_low = 0;
    segment_selector = 0;
    ist = 0;
    atrributes = 0;
    isr_mid = 0;
    isr_high = 0;
    reserved = 0;
  };
  vectors = λ i. ltb i 32;
  routine_services = λ i. 0;
  base = 0;
  limit = 0;
  interrupts = true;
}

abbrev script_of_start : List ℕ
script_of_start = 0x61 ∷ 0xee ∷ 0xee ∷ 0xfe ∷ 0xfa ∷ 0 ∷ 2 ∷ 0xee ∷ 0xee ∷ 0xfa ∷ 0xee ∷ []
