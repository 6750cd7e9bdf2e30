-- ===== src/Idt/Tests.antt =====
-- Tests and witnesses of the interrupt descriptor table.
use titanix.Base.{◌≡◌, refl, arith, true, false, ltb}
use titanix.Idt.{Idt, Gate, gate_isr, idt_set_discriptor, idt_allocate_vector, idt_free_vector}
use titanix.Idt.Gates.{idt_set_discriptor_lem}
use titanix.Idt.Vectors.{idt_allocate_vector-first}

abbrev empty_gate : Gate
empty_gate = record {
  isr_low = 0;
  segment_selector = 0;
  ist = 0;
  atrributes = 0;
  isr_mid = 0;
  isr_high = 0;
  reserved = 0;
}

-- The vectors of the exceptions are in use.
abbrev booted : Idt
booted = record {
  idt = λ v. empty_gate;
  vectors = λ v. ltb v 32;
  routine_services = λ v. 0;
  base = 0x8000;
  limit = 4095;
  interrupts = true;
}

idt_set_discriptor_lem_example :
    let s' = idt_set_discriptor 33 0xffff800012345678 0x8e 0 booted in
    (gate_isr (s'.idt 33) ≡ 0xffff800012345678) × (s'.idt 34 ≡ empty_gate)
idt_set_discriptor_lem_example =
    idt_set_discriptor_lem 33 0xffff800012345678 0x8e 0 34 booted (omega arith)

idt_allocate_vector-first_example :
    let (w, s') = idt_allocate_vector booted in
    let s'' = idt_free_vector w s' in
    (w ≡ 32)
    × (s'.vectors 40 ≡ false)
    × (s''.vectors 40 ≡ false)
    × (s''.routine_services 32 ≡ 0)
    × (s''.interrupts ≡ false)
idt_allocate_vector-first_example =
    idt_allocate_vector-first 32 40 booted (omega arith) refl (λ i h. ground arith)
