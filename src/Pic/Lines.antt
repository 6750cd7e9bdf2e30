-- ===== src/Pic/Lines.antt =====
-- src/pic8259/pic.c: calls with a number that is no line of a controller.
use titanix.Ports.{Ports}
use titanix.Base.{
  ℕ, ◌+◌, ◌-◌, ◌^◌, ◌<◌, ◌≤◌, ◌≡◌, refl, ◌∙◌, Bool, true, false, arith, ltb, ◌==◌, ◌&&◌, Bool-cases,
  inl, inr, bit_or, bit_and, u8,
}
use titanix.Base.Below.{every_below, every_below_lem}
use titanix.Pic.{slave_data, select_port, pic_mask_irq, pic_unmask_irq}
use titanix.Pic.Masks.{Registers, IsData}

-- Above the eighth line, a byte stays as it is.
byte_test : ℕ → ℕ → Bool
byte_test k b =
    (u8 (bit_or b (2 ^ (k + 8))) == b) && (u8 (bit_and b (2 ^ 32 - 1 - 2 ^ (k + 8))) == b)

byte_tests : every_below (λ k. every_below (byte_test k) 256) 24 ≡ true
unfolding every_below byte_test
byte_tests = refl

byte_kept :
    (k b : ℕ)
    → 8 ≤ k
    → k < 32
    → b < 2 ^ 8
    → (u8 (bit_or b (2 ^ k)) ≡ b) × (u8 (bit_and b (2 ^ 32 - 1 - 2 ^ k)) ≡ b)
unfolding byte_test
byte_kept k b low high h =
    let line : k - 8 + 8 ≡ k = omega arith in
    let t =
      every_below_lem (byte_test (k - 8)) 256 b
        (every_below_lem (λ x. every_below (byte_test x) 256) 24 (k - 8) byte_tests (omega arith))
        h in
    let u : ((u8 (bit_or b (2 ^ k)) == b) && (u8 (bit_and b (2 ^ 32 - 1 - 2 ^ k)) == b)) ≡ true =
      rw line at t in
    (ground arith, ground arith)

module _ (P : Ports) (r : Registers P) where
  -- A write of what was read changes no port.
  written_back :
      (p q v : ℕ) (s : P.State)
      → IsData p
      → IsData q
      → v ≡ (P.inb p s).0
      → (P.inb q (P.outb p v (P.inb p s).1)).0 ≡ (P.inb q s).0
  written_back p q v s d d' e = elim (Bool-cases (p == q)) [
    | inl same ↦
        let eq : p ≡ q = ground arith in
        let fits = r.reads_byte p s d in
        rw (← eq) (r.reads_back p v (P.inb p s).1 d (omega arith) ∙ e)
    | inr apart ↦ r.reads_other p q v (P.inb p s).1 d d' (ground arith) ∙ r.reads_keep p q s d d'
  ]

  no_line : (v : ℕ) → 16 ≤ v → v < 39 → select_port P v ≡ (slave_data, v - 8)
  unfolding select_port
  no_line v low high =
      let h : ltb v 8 ≡ false = ground arith in
      let e : u8 (v - 8) ≡ v - 8 = omega arith in rw (h, e)

  module _ (v q : ℕ) (s : P.State) (d : IsData q) (low : 16 ≤ v) (high : v < 39) where
    pub pic_mask_irq-kept : (P.inb q (pic_mask_irq P v s)).0 ≡ (P.inb q s).0
    unfolding pic_mask_irq
    pic_mask_irq-kept =
        let kept =
          byte_kept (v - 8) (P.inb slave_data s).0 (omega arith) (omega arith)
            (r.reads_byte slave_data s (inr refl)) in
        rw (pic_mask_irq, no_line v low high) (written_back slave_data q _ s (inr refl) d kept.0)

    pub pic_unmask_irq-kept : (P.inb q (pic_unmask_irq P v s)).0 ≡ (P.inb q s).0
    unfolding pic_unmask_irq
    pic_unmask_irq-kept =
        let kept =
          byte_kept (v - 8) (P.inb slave_data s).0 (omega arith) (omega arith)
            (r.reads_byte slave_data s (inr refl)) in
        rw (pic_unmask_irq, no_line v low high) (written_back slave_data q _ s (inr refl) d kept.1)
