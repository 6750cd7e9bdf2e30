-- ===== src/Idt.antt =====
-- src/interrupts/idt.c: the interrupt descriptor table and the vectors in use.
-- The table `isr_stub_table` and the address of the table `idt` come from the assembly and the
-- linker, and are given.
pub mod Gates
pub mod Vectors
mod Tests
use titanix.Ports.{Ports}
use titanix.Pic.{pic_remap}
use titanix.Base.{
  ℕ, zero, suc, ◌+◌, ◌-◌, ◌*◌, ◌/◌, ◌%◌, ◌^◌, Bool, true, false, ◌==◌, if◌then◌else◌, bit_and,
  bit_or, u8, u16, u32, u64,
}

pub record Gate : Type 0 where
  pub isr_low : ℕ
  pub segment_selector : ℕ
  pub ist : ℕ
  pub atrributes : ℕ
  pub isr_mid : ℕ
  pub isr_high : ℕ
  pub reserved : ℕ

-- The variables of the file, and whether interrupts are enabled (`sti` and `cli`).
pub record Idt : Type 0 where
  pub idt : ℕ → Gate
  pub vectors : ℕ → Bool
  pub routine_services : ℕ → ℕ
  pub base : ℕ
  pub limit : ℕ
  pub interrupts : Bool

abbrev pub update : {A : Type 0} → ℕ → A → (ℕ → A) → ℕ → A
update i a t k = if k == i then a else t k

pub make_gate : (isr flags ist : ℕ) → Gate
make_gate isr flags ist = record {
  isr_low = u16 (bit_and isr 0xffff);
  segment_selector = 0x0008;
  ist = ist;
  atrributes = flags;
  isr_mid = u16 (bit_and (isr / 2 ^ 16) 0xffff);
  isr_high = u32 (bit_and (isr / 2 ^ 32) 0xffffffff);
  reserved = 0;
}

unfoldable pub idt_set_discriptor : (vector isr flags ist : ℕ) → Idt → Idt
idt_set_discriptor vector isr flags ist s = record s {
  idt = update vector (make_gate isr flags ist) s.idt;
}

-- The address as `print_idt` puts it together.
pub gate_isr : Gate → ℕ
gate_isr gate =
    bit_or (bit_or gate.isr_low (u64 (gate.isr_mid * 2 ^ 16))) (u64 (gate.isr_high * 2 ^ 32))

-- `idt_allocate_vector` from vector `i` on, with `n` left to look at.
pub allocate_loop : (n i : ℕ) → Idt → ℕ × Idt
allocate_loop zero i s = (0, s)
allocate_loop (suc n) i s =
    let rest = allocate_loop n (i + 1) s in
    if s.vectors i then rest else (u8 i, record s { vectors = update i true s.vectors })

pub idt_allocate_vector : Idt → ℕ × Idt
idt_allocate_vector s = allocate_loop 256 0 s

-- Both `cli` are in the source.
unfoldable pub idt_free_vector : ℕ → Idt → Idt
idt_free_vector vector s =
    let s1 = record s { interrupts = false } in
    let s2 = idt_set_discriptor vector 0 0 0 s1 in
    let s3 = record s2 { routine_services = update vector 0 s2.routine_services } in
    let s4 = record s3 { vectors = update vector false s3.vectors } in
    record s4 { interrupts = false }

module _ (isr_stub_table : ℕ → ℕ) where
  unfoldable pub idt_install_irq : (vector handler : ℕ) → Idt → Idt
  idt_install_irq vector handler s =
      let s1 = record s { routine_services = update vector handler s.routine_services } in
      idt_set_discriptor vector (isr_stub_table vector) 0x8e 0 s1

  -- The loop of `init_idt` at `vector`, with `n` rounds left.
  pub exceptions_loop : (n vector : ℕ) → Idt → Idt
  exceptions_loop zero vector s = s
  exceptions_loop (suc n) vector s =
      let s1 = idt_set_discriptor vector (isr_stub_table vector) 0x8e 0 s in
      exceptions_loop n (vector + 1) (record s1 { vectors = update vector true s1.vectors })

  -- `load_idt` hands the table to the processor; the last step enables interrupts.
  pub init_idt : (P : Ports) → (idt_address : ℕ) → Idt → P.State → Idt × P.State
  init_idt P idt_address s ports =
      let s1 = record s { base = idt_address; limit = u16 (16 * 256 - 1) } in
      let s2 = exceptions_loop 32 0 s1 in (record s2 { interrupts = true }, pic_remap P ports)
