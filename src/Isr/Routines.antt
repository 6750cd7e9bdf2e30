-- ===== src/Isr/Routines.antt =====
-- `irq_handler`, with the routines that src/interrupts/idt.c installs and removes.
use titanix.Base.{ℕ, ◌≡◌, ◌≢◌, false, ◌==◌, if◌then◌else◌, arith, inl, inr, Bool-cases}
use titanix.Idt.{Idt, idt_set_discriptor, idt_install_irq, idt_free_vector}
use titanix.Isr.{IsrFrame, irq_handler}

module _ {S : Type 0} (call : ℕ → IsrFrame → S → S) (isr_stub_table : ℕ → ℕ) where
  -- After `idt_install_irq` of a handler that is not at 0, `irq_handler` calls it on an interrupt
  -- of its vector, and after `idt_free_vector` nothing there; on another vector both leave what
  -- `irq_handler` does as it was.
  pub irq_handler-install :
      (vector handler : ℕ) (idt : Idt) (irq : IsrFrame) (s : S)
      → handler ≢ 0
      → let installed = idt_install_irq isr_stub_table vector handler idt in
        let freed = idt_free_vector vector installed in
        let same = irq.basic_frame.vector == vector in
        (irq_handler call installed irq s
          ≡ (if same then call handler irq s else irq_handler call idt irq s))
        × (irq_handler call freed irq s ≡ (if same then s else irq_handler call idt irq s))
  unfolding irq_handler idt_install_irq idt_free_vector idt_set_discriptor
  irq_handler-install vector handler idt irq s ne =
      let set : (handler == 0) ≡ false = ground arith in
      elim (Bool-cases (irq.basic_frame.vector == vector)) [
        | inl e ↦ (simp (e, set), simp e)
        | inr e ↦ (simp e, simp e)
      ]
