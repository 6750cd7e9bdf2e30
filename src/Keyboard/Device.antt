-- ===== src/Keyboard/Device.antt =====
-- src/drivers/ps2_keyboard.c: the commands to the keyboard, its start and its interrupt.
-- The loops that poll a port take fuel. The line that `init_keyboard` logs is left out.
pub mod Wire
pub mod Answer
pub mod Command
pub mod Letter
pub mod Initial
use titanix.Ports.{Ports}
use titanix.Pic.{pic_mask_irq, pic_send_eoi}
use titanix.Idt.{Idt, idt_allocate_vector, idt_install_irq}
use titanix.Monitor.{Monitor}
use titanix.Keyboard.{
  Keyboard, Buffer, is_valid_keyboard, ps2_keyboard_get_scancode, ps2_keyboard_handle_scancode,
}
use titanix.Base.{
  ◌>>=◌, ℕ, zero, suc, ◌+◌, ◌-◌, ◌*◌, ◌%◌, ◌^◌, Bool, true, false, not, ◌&&◌, Option, none, some,
  ◌==◌, ltb, if◌then◌else◌, bit_and, bit_or, u8, add64,
}

abbrev pub data_port : ℕ
data_port = 0x60

-- Commands go to this port, and the status is read there.
abbrev pub command_port : ℕ
command_port = 0x64

abbrev pub ack : ℕ
ack = 0xfa

abbrev pub failure : ℕ
failure = 0xfc

abbrev pub resend : ℕ
resend = 0xfe

abbrev pub no_operand : ℕ
no_operand = 0xff

-- The byte that `keyboard_sync_leds` sends.
pub leds_of : Keyboard → ℕ
leds_of k =
    let leds = if k.scrolllock then bit_or 0 1 else 0 in
    let leds1 = if k.numlock then bit_or leds 2 else leds in
    if k.capslock then bit_or leds1 4 else leds1

module _ (P : Ports) where
  pub responsivity_test : P.State → Bool × P.State
  responsivity_test s = let (st, s') = P.inb data_port (P.outb data_port 0xee s) in (st == 0xee, s')

  pub ps2_wait : (fuel : ℕ) → P.State → Option P.State
  ps2_wait zero s = none
  ps2_wait (suc fuel) s =
      let (status, s') = P.inb command_port s in
      let rest = ps2_wait fuel s' in if not (bit_and status 0x02 == 0) then rest else some s'

  -- The second loop of `keyboard_send_command`, for the answer `st`.
  pub answer_loop : (fuel command st timeout : ℕ) → P.State → Option (Bool × P.State)
  answer_loop zero command st timeout s = none
  answer_loop (suc fuel) command st timeout s =
      let again = (st == resend) && ltb timeout 1 in
      let s1 = if again then P.outb command_port command s else s in
      let timeout' = if again then add64 timeout 1 else timeout in
      let (st', s2) = P.inb data_port s1 in
      let rest = answer_loop fuel command st' timeout' s2 in
      if st == ack then some (true, s) else if st == failure then some (false, s1) else rest

  -- The command and its operand, unless an error was read.
  pub send_bytes : (fuel command operand st : ℕ) → P.State → Option P.State
  send_bytes fuel command operand st s =
      if st == failure then some s else elim (ps2_wait fuel (P.outb data_port command s)) [
        | none ↦ none
        | some s1 ↦ some (if operand == no_operand then s1 else P.outb data_port operand s1)
      ]

  pub keyboard_send_command : (fuel command operand : ℕ) → P.State → Option (Bool × P.State)
  keyboard_send_command fuel command operand s =
      let (responds, s1) = responsivity_test s in
      let (st, s2) = P.inb data_port s1 in
      if not responds then some (false, s1) else elim (send_bytes fuel command operand st s2) [
        | none ↦ none
        | some s3 ↦ answer_loop fuel command st 0 s3
      ]

  pub keyboard_sync_leds : (fuel : ℕ) → Keyboard → P.State → Option P.State
  keyboard_sync_leds fuel k s = elim (keyboard_send_command fuel 0xed (leds_of k) s) [
    | none ↦ none
    | some (sent, s') ↦ some s'
  ]

  pub keyboard_reset_state : (fuel : ℕ) → Keyboard → P.State → Option (Keyboard × P.State)
  keyboard_reset_state fuel k s =
      let k' = record k {
        capslock = false;
        numlock = false;
        scrolllock = false;
        ctrldown = false;
        altdown = false;
        shiftdown = false;
        fndown = false;
      } in
      elim (keyboard_sync_leds fuel k' s) [ none ↦ none | some s' ↦ some (k', s') ]

  pub ps2_keyboard_disable_set_translation : (fuel : ℕ) → Keyboard → P.State → Option P.State
  ps2_keyboard_disable_set_translation fuel k s = do
    s1 ← ps2_wait fuel s
    s2 ← ps2_wait fuel (P.outb command_port k.keyboard_vector s1)
    let (config, s3) = P.inb data_port s2
    let config_byte = u8 (bit_and config (2 ^ 32 - 1 - 2 ^ 6))
    ps2_wait fuel (P.outb data_port config_byte (P.outb command_port 0x60 s3))

  -- The statements of `ps2_keyboard_set_scancodes` before it looks at the set that it reads back.
  pub request_set : (fuel scancode_set : ℕ) → P.State → Option (ℕ × P.State)
  request_set fuel scancode_set s = do
    (sent, s1) ← keyboard_send_command fuel 0xf0 scancode_set s
    s2 ← ps2_wait fuel s1
    s3 ← ps2_wait fuel (P.outb data_port 0xf0 s2)
    s4 ← ps2_wait fuel (P.outb data_port 0x00 s3)
    let (ignored, s5) = P.inb data_port s4
    some (P.inb data_port s5)

  -- It calls itself, at most `calls` times, until the set is the one asked for.
  pub ps2_keyboard_set_scancodes :
      (calls fuel scancode_set : ℕ) → Keyboard → P.State → Option (Keyboard × P.State)
  ps2_keyboard_set_scancodes zero fuel scancode_set k s = none
  ps2_keyboard_set_scancodes (suc calls) fuel scancode_set k s =
      let k1 = record k { scan_set = scancode_set } in
      elim (ps2_keyboard_disable_set_translation fuel k s) [
        | none ↦ none
        | some s1 ↦
            if scancode_set == 0 then some (k1, s1) else elim (request_set fuel scancode_set s1) [
              | none ↦ none
              | some (set, s2) ↦
                  let again = ps2_keyboard_set_scancodes calls fuel scancode_set k1 s2 in
                  if not (set == scancode_set) then again else some (k1, s2)
            ]
      ]

  -- `init_keyboard`; `handler` is the address of `keyboard_handler`.
  pub init_keyboard :
      (isr_stub_table : ℕ → ℕ) (handler calls fuel : ℕ)
      → Keyboard
      → Idt
      → P.State
      → Option (Keyboard × Idt × P.State)
  init_keyboard isr_stub_table handler calls fuel k idt s =
      if not (k.keyboard_vector == 0) then some (k, idt, s) else (do
        let k0 = record k { keyboard_vector = 3 }
        (k1, s1) ← ps2_keyboard_set_scancodes calls fuel 2 k0 (P.outb command_port 0xae s)
        (k2, s2) ← keyboard_reset_state fuel k1 s1
        let (vector, idt1) = idt_allocate_vector idt
        let idt2 = idt_install_irq isr_stub_table vector handler idt1
        let (responds, s3) = responsivity_test s2
        some (record k2 { keyboard_vector = vector }, idt2, s3))

  -- `keyboard_handler`. Its `scancode` is initialised to the address 0: `at_null` is the memory
  -- there.
  pub keyboard_handler :
      (fuel : ℕ) → Buffer → Keyboard → Monitor → P.State → Option (Keyboard × Monitor × P.State)
  keyboard_handler fuel at_null k m s =
      if not (is_valid_keyboard k) && not k.is_masked
      then some (k, m, s)
      else (let s1 = if not (is_valid_keyboard k) then pic_mask_irq P k.keyboard_vector s else s in
          let (scancode_size, scancode, s2) = ps2_keyboard_get_scancode P k at_null s1 in
          if scancode_size == 0 then some (k, m, s2) else (do
            (k1, m1, s3) ← ps2_keyboard_handle_scancode P fuel scancode scancode_size k m s2
            s4 ← keyboard_sync_leds fuel k1 s3
            some (k1, m1, pic_send_eoi P k1.keyboard_vector s4)))
