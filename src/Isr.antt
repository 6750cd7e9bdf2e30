-- ===== src/Isr.antt =====
-- src/interrupts/isr.c: what the kernel does on a processor exception, and the call of the routine
-- of an interrupt. The stubs of isr.s, which build the frame, are assembly and not modelled.
mod Tests
pub mod Screen
pub mod Faults
pub mod Routines
use titanix.Memory.{Memory}
use titanix.Monitor.{Monitor, monitor_put, monitor_write}
use titanix.Monitor.Print.{monitor_put_hex, monitor_put_dec}
use titanix.Console.{error}
use titanix.Idt.{Idt}
use titanix.Base.{
  ℕ, zero, suc, ◌+◌, ◌-◌, ◌*◌, ◌/◌, ◌%◌, ◌^◌, Bool, true, false, not, Option, none, some, List, [],
  ◌∷◌, ◌++◌, ◌==◌, if◌then◌else◌, bit_and, u8, codes, ◌>>=◌,
}

pub record ControlRegisters : Type 0 where
  pub cr4 : ℕ
  pub cr3 : ℕ
  pub cr2 : ℕ
  pub cr0 : ℕ

pub record GeneralPurposeRegisters : Type 0 where
  pub r15 : ℕ
  pub r14 : ℕ
  pub r13 : ℕ
  pub r12 : ℕ
  pub r11 : ℕ
  pub r10 : ℕ
  pub r9 : ℕ
  pub r8 : ℕ
  pub rdi : ℕ
  pub rsi : ℕ
  pub rdx : ℕ
  pub rcx : ℕ
  pub rbx : ℕ
  pub rax : ℕ

pub record BasicFrame : Type 0 where
  pub rbp : ℕ
  pub vector : ℕ
  pub error_code : ℕ
  pub rip : ℕ
  pub segment_selector : ℕ
  pub rflags : ℕ
  pub rsp : ℕ
  pub dss : ℕ

-- `isr_frame_t`
pub record IsrFrame : Type 0 where
  pub control_registers : ControlRegisters
  pub general_purpose_registers : GeneralPurposeRegisters
  pub basic_frame : BasicFrame

-- The bytes of the texts before their ends.
pub exception_labels : List (List ℕ)
exception_labels =
    codes "[0x00] Divide by Zero Exception"
    ∷ codes "[0x01] Debug Exception"
    ∷ codes "[0x02] Unhandled Non-maskable Interrupt"
    ∷ codes "[0x03] Breakpoint Exception"
    ∷ codes "[0x04] Overflow Exception"
    ∷ codes "[0x05] Bound Range Exceeded Exception"
    ∷ codes "[0x06] Invalid Opcode/Operand Exception"
    ∷ codes "[0x07] Device Unavailable Exception"
    ∷ codes "[0x08] Double Fault"
    ∷ codes "[0x09] Coprocessor Segment Overrun"
    ∷ codes "[0x0A] Invalid TSS Exception"
    ∷ codes "[0x0B] Absent Segment Exception"
    ∷ codes "[0x0C] Stack-segment Fault"
    ∷ codes "[0x0D] General Protection Fault"
    ∷ codes "[0x0E] Page Fault "
    ∷ codes "[0x0F] Inexplicable Error"
    ∷ codes "[0x10] x87 Floating Exception"
    ∷ codes "[0x11] Alignment Check"
    ∷ codes "[0x12] Machine Check"
    ∷ codes "[0x13] SIMD Floating Exception"
    ∷ codes "[0x14] Virtualized Exception"
    ∷ codes "[0x15] Control Protection Exception"
    ∷ codes "[0x16] Inexplicable Error"
    ∷ codes "[0x17] Inexplicable Error"
    ∷ codes "[0x18] Inexplicable Error"
    ∷ codes "[0x19] Inexplicable Error"
    ∷ codes "[0x1A] Inexplicable Error"
    ∷ codes "[0x1B] Inexplicable Error"
    ∷ codes "[0x1C] Hypervisor Intrusion Exception"
    ∷ codes "[0x1D] VMM Communications Exception"
    ∷ codes "[0x1E] Security Exception"
    ∷ codes "[0x1F] Inexplicable Error"
    ∷ codes "[0x20] For Now Thing"
    ∷ []

-- What the handlers work on: the screen, the bytes written to the serial port, and whether the
-- processor has halted with interrupts disabled.
pub record Cpu : Type 0 where
  pub monitor : Monitor
  pub serial : List ℕ
  pub halted : Bool

abbrev pub on_screen : (Monitor → Monitor) → Cpu → Cpu
on_screen f c = record c { monitor = f c.monitor }

-- `exception_labels[frame->basic_frame.vector]`: to read behind the table has no result.
pub label_at : List (List ℕ) → ℕ → Option (List ℕ)
label_at [] i = none
label_at (l ∷ ls) zero = some l
label_at (l ∷ ls) (suc i) = label_at ls i

-- `cli;hlt`
pub cli_hlt : Cpu → Cpu
cli_hlt c = record c { halted = true }

-- The bits of the error code, as `analyze_page_fault` names them.
pub present_bit : ℕ → ℕ
present_bit err = u8 (bit_and err 0x01)

pub write_bit : ℕ → ℕ
write_bit err = u8 (bit_and err 0x02 / 2 ^ 1)

pub reserved_bit : ℕ → ℕ
reserved_bit err = u8 (bit_and err 0x04 / 2 ^ 2)

-- The statements of `analyze_page_fault` that write to the screen.
pub page_fault_screen : (label : List ℕ) (faulting_address error_code : ℕ) → Monitor → Monitor
page_fault_screen label faulting_address error_code m =
    let m1 = monitor_write label m in
    let m2 = monitor_put_hex faulting_address m1 in
    let m3 = monitor_put 10 m2 in
    let err = u8 error_code in
    let m4 = monitor_write (10 ∷ codes "present-bit = ") m3 in
    let m5 = monitor_put_dec (present_bit err) m4 in
    let m6 = monitor_write (10 ∷ codes "write-bit = ") m5 in
    let m7 = monitor_put_dec (write_bit err) m6 in
    let m8 = monitor_write (10 ∷ codes "reserved-bit = ") m7 in
    monitor_put_dec (reserved_bit err) m8

-- `cr2` is the register, `text` the address of the format "%x\n" in memory.
pub analyze_page_fault : (cr2 text : ℕ) → Memory → IsrFrame → Cpu → Option Cpu
analyze_page_fault cr2 text memory frame c = do
  label ← label_at exception_labels frame.basic_frame.vector
  let c1 = on_screen (page_fault_screen label cr2 frame.basic_frame.error_code) c
  (line, stopped) ← error text (cr2 ∷ []) memory
  some (cli_hlt (record c1 { serial = c.serial ++ line }))

pub analyze_double_fault : IsrFrame → Cpu → Option Cpu
analyze_double_fault frame c = do
  label ← label_at exception_labels frame.basic_frame.vector
  some (cli_hlt (on_screen (λ m. monitor_put 10 (monitor_write label m)) c))

pub analyze_general_protection : IsrFrame → Cpu → Option Cpu
analyze_general_protection frame c = do
  label ← label_at exception_labels frame.basic_frame.vector
  some (cli_hlt (on_screen (λ m. monitor_put 10 (monitor_write label m)) c))

pub analyze_division_by_zero : IsrFrame → Cpu → Option Cpu
analyze_division_by_zero frame c = do
  label ← label_at exception_labels frame.basic_frame.vector
  some (cli_hlt (on_screen (λ m. monitor_put 10 (monitor_write label m)) c))

pub analyze_software_interrupt : IsrFrame → Cpu → Option Cpu
analyze_software_interrupt frame c = do
  label ← label_at exception_labels frame.basic_frame.vector
  some (cli_hlt (on_screen (λ m. monitor_put 10 (monitor_write label m)) c))

pub exception_handler : (cr2 text : ℕ) → Memory → IsrFrame → Cpu → Option Cpu
exception_handler cr2 text memory frame c =
    if frame.basic_frame.vector == 0x0e
    then analyze_page_fault cr2 text memory frame c
    else if frame.basic_frame.vector == 0x08
    then analyze_double_fault frame c
    else if frame.basic_frame.vector == 0x0d
    then analyze_general_protection frame c
    else if frame.basic_frame.vector == 0x00
    then analyze_division_by_zero frame c
    else analyze_software_interrupt frame c

-- `call` runs the routine at an address, which the kernel does not choose, on what it works on.
pub irq_handler : {S : Type 0} → (call : ℕ → IsrFrame → S → S) → Idt → IsrFrame → S → S
irq_handler call idt irq s =
    if not (idt.routine_services irq.basic_frame.vector == 0)
    then call (idt.routine_services irq.basic_frame.vector) irq s
    else s
