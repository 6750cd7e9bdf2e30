-- ===== src/Pic.antt =====
-- src/pic8259/pic.c: the two interrupt controllers, by their ports.
pub mod Masks
pub mod Lines
mod Tests
use titanix.Ports.{Ports}
use titanix.Base.{
  ℕ, zero, suc, ◌+◌, ◌-◌, ◌*◌, ◌/◌, ◌%◌, ◌^◌, Bool, true, false, ltb, leb, if◌then◌else◌, bit_and,
  bit_or, u8,
}

abbrev pub master_data : ℕ
master_data = 0x21

abbrev pub slave_data : ℕ
slave_data = 0xa1

module _ (P : Ports) where
  pub pic_remap : P.State → P.State
  pic_remap s0 =
      let (master_mask, s1) = P.inb master_data s0 in
      let (slave_mask, s2) = P.inb slave_data s1 in
      let s3 = P.outb 0x20 (bit_or 0x10 0x01) s2 in
      let s4 = P.outb 0xa0 (bit_or 0x10 0x01) s3 in
      let s5 = P.outb master_data 0x20 s4 in
      let s6 = P.outb slave_data (0x20 + 0x08) s5 in
      let s7 = P.outb master_data 0x04 s6 in
      let s8 = P.outb slave_data 0x02 s7 in
      let s9 = P.outb master_data 0x01 s8 in
      let s10 = P.outb slave_data 0x01 s9 in
      let s11 = P.outb master_data (u8 master_mask) s10 in P.outb slave_data (u8 slave_mask) s11

  -- The port and the line there, of an interrupt.
  pub select_port : ℕ → ℕ × ℕ
  select_port irq_vector =
      if ltb irq_vector 8 then (master_data, irq_vector) else (slave_data, u8 (irq_vector - 8))

  -- `1 << irq_vector` is an `int`; of a byte's mask only its low byte is kept.
  pub pic_mask_irq : ℕ → P.State → P.State
  pic_mask_irq irq_vector s0 =
      let (port, line) = select_port irq_vector in
      let (masks, s1) = P.inb port s0 in P.outb port (u8 (bit_or masks (2 ^ line))) s1

  pub pic_unmask_irq : ℕ → P.State → P.State
  pic_unmask_irq irq_vector s0 =
      let (port, line) = select_port irq_vector in
      let (masks, s1) = P.inb port s0 in P.outb port (u8 (bit_and masks (2 ^ 32 - 1 - 2 ^ line))) s1

  unfoldable pub pic_send_eoi : ℕ → P.State → P.State
  pic_send_eoi irq_vector s0 =
      let s1 = if leb 40 irq_vector then P.outb 0xa0 0x20 s0 else s0 in P.outb 0x20 0x20 s1

  -- The loop of `pic_disable` at `i`, with `n` rounds left.
  pub disable_loop : (n i : ℕ) → P.State → P.State
  disable_loop zero i s = s
  disable_loop (suc n) i s = disable_loop n (i + 1) (pic_mask_irq i s)

  pub pic_disable : P.State → P.State
  pic_disable s = disable_loop 16 0 (pic_remap s)
