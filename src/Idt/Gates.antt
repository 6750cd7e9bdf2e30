-- ===== src/Idt/Gates.antt =====
-- src/interrupts/idt.c: the address in a gate.
use titanix.Base.{
  ℕ, zero, suc, ◌≤◌, ◌+◌, ◌*◌, ◌/◌, ◌%◌, ◌^◌, ◌<◌, ◌≡◌, ◌∙◌, ap, refl, arith, bit_and, bit_or, u16,
  u32, u64, ◌==◌, if◌then◌else◌,
}
use titanix.Base.Bits.Step.{bit_or_step}
use titanix.Base.Bits.{bit_and-mask, bit_or-fields}
use titanix.Idt.{Idt, make_gate, gate_isr, idt_set_discriptor, update}

update-at : {A : Type 0} (i : ℕ) (a : A) (t : ℕ → A) → update i a t i ≡ a
update-at i a t = ground arith

bit_or_comm : (n a b : ℕ) → a ≤ n → b ≤ n → bit_or a b ≡ bit_or b a
bit_or_comm zero zero zero p q = refl
bit_or_comm zero (suc a) b p q = absurd (omega arith)
bit_or_comm zero zero (suc b) p q = absurd (omega arith)
bit_or_comm (suc n) a b p q = omega (
  arith,
  bit_or_step a b,
  bit_or_step b a,
  bit_or_comm n (a / 2) (b / 2) (omega arith) (omega arith),
)

or_above : (a b k : ℕ) → a < 2 ^ k → bit_or a (b * 2 ^ k) ≡ a + b * 2 ^ k
or_above a b k h =
    bit_or_comm (a + b * 2 ^ k) a (b * 2 ^ k) (omega arith) (omega arith)
    ∙ bit_or-fields k b a h
    ∙ omega arith

make_gate-gate_isr : (isr flags ist : ℕ) → isr < 2 ^ 64 → gate_isr (make_gate isr flags ist) ≡ isr
unfolding make_gate gate_isr
make_gate-gate_isr isr flags ist h =
    let m0 = bit_and-mask 16 isr in
    let m1 = bit_and-mask 16 (isr / 2 ^ 16) in
    let m2 = bit_and-mask 32 (isr / 2 ^ 32) in
    let low : u16 (bit_and isr 0xffff) ≡ isr % 2 ^ 16 = omega arith in
    let mid : u64 (u16 (bit_and (isr / 2 ^ 16) 0xffff) * 2 ^ 16) ≡ isr / 2 ^ 16 % 2 ^ 16 * 2 ^ 16 =
      omega arith in
    let high : u64 (u32 (bit_and (isr / 2 ^ 32) 0xffffffff) * 2 ^ 32) ≡ isr / 2 ^ 32 * 2 ^ 32 =
      omega arith in
    let o1 = or_above (isr % 2 ^ 16) (isr / 2 ^ 16 % 2 ^ 16) 16 (omega arith) in
    let o2 = or_above (isr % 2 ^ 32) (isr / 2 ^ 32) 32 (omega arith) in
    let both : isr % 2 ^ 16 + isr / 2 ^ 16 % 2 ^ 16 * 2 ^ 16 ≡ isr % 2 ^ 32 = omega arith in
    let whole : isr % 2 ^ 32 + isr / 2 ^ 32 * 2 ^ 32 ≡ isr = omega arith in
    rw (low, mid, high, o1, both, o2, whole)

-- After `idt_set_discriptor` with a 64-bit handler address, the gate of the vector gives back that
-- address when it is put together as `print_idt` does, and every other gate is as it was.
pub idt_set_discriptor_lem :
    (vector isr flags ist other : ℕ) (s : Idt)
    → isr < 2 ^ 64
    → let s' = idt_set_discriptor vector isr flags ist s in
      (gate_isr (s'.idt vector) ≡ isr)
      × (s'.idt other ≡ (if other == vector then make_gate isr flags ist else s.idt other))
unfolding idt_set_discriptor
idt_set_discriptor_lem vector isr flags ist other s h =
    let e = make_gate-gate_isr isr flags ist h in
    (ap gate_isr (update-at vector (make_gate isr flags ist) s.idt) ∙ e, refl)
