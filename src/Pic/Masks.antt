-- ===== src/Pic/Masks.antt =====
-- src/pic8259/pic.c: the mask registers, bit by bit.
use titanix.Ports.{Ports}
use titanix.Base.{
  ℕ, ◌/◌, ◌%◌, ◌^◌, ◌<◌, ◌≡◌, ◌≢◌, ◌⊎◌, Bool, ltb, ◌==◌, ◌&&◌, if◌then◌else◌, bit_or, u8,
}
use titanix.Pic.{master_data, slave_data, select_port}

-- Bit `i` of a number.
abbrev pub bit : ℕ → ℕ → ℕ
bit n i = n / 2 ^ i % 2

-- The data ports of the two controllers.
abbrev pub IsData : ℕ → Type 0
IsData p = (p ≡ master_data) ⊎ (p ≡ slave_data)

-- What the drivers rely on: a data port reads back the byte last written to it, a read of one
-- changes neither, and a write to one does not change the other. Of other ports nothing is said.
pub record Registers (P : Ports) : Type 0 where
  pub reads_byte : (p : ℕ) (s : P.State) → IsData p → (P.inb p s).0 < 2 ^ 8
  pub reads_back : (p v : ℕ) (s : P.State) → IsData p → v < 2 ^ 8 → (P.inb p (P.outb p v s)).0 ≡ v
  pub reads_other :
      (p q v : ℕ) (s : P.State)
      → IsData p
      → IsData q
      → p ≢ q
      → (P.inb q (P.outb p v s)).0 ≡ (P.inb q s).0
  pub reads_keep :
      (p q : ℕ) (s : P.State) → IsData p → IsData q → (P.inb q (P.inb p s).1).0 ≡ (P.inb q s).0

-- The mask bit of an interrupt line, 0 to 15.
abbrev pub mask_bit : (P : Ports) → ℕ → P.State → ℕ
mask_bit P irq s = let (port, line) = select_port P irq in bit (P.inb port s).0 line

power_bit_test : ℕ → ℕ → Bool
power_bit_test k i = (bit (2 ^ k) i == (if k == i then 1 else 0)) && ltb (2 ^ k) 256

module _ (P : Ports) (r : Registers P) where
  bit_at : ℕ → ℕ → P.State → ℕ
  bit_at p i s = bit (P.inb p s).0 i

  mask_at : ℕ → ℕ → P.State → P.State
  mask_at p k s = P.outb p (u8 (bit_or (P.inb p s).0 (2 ^ k))) (P.inb p s).1
