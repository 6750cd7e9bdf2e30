-- ===== src/Isr/Tests.antt =====
-- A divide error, a page fault and a routine, and the theorems at them.
use mathlib.Core.List.{map}
use titanix.Base.{
  ℕ, ◌^◌, ◌%◌, ◌≡◌, ◌≢◌, refl, true, false, some, List, [], ◌∷◌, ◌++◌, arith, ◌==◌, if◌then◌else◌,
  codes,
}
use titanix.Memory.{Memory}
use titanix.Numbers.Digits.{AllBelow, value}
use titanix.Monitor.{Monitor}
use titanix.Monitor.Print.{put_all, hex_char}
use titanix.Console.Report.{HexLine, error_line}
use titanix.Idt.{Idt, idt_install_irq, idt_free_vector}
use titanix.Isr.{IsrFrame, Cpu, exception_handler, exception_labels, label_at, irq_handler}
use titanix.Isr.Screen.{tag}
use titanix.Isr.Faults.{stopped, bits_text, exception_handler-other, exception_handler-page}
use titanix.Isr.Routines.{irq_handler-install}

-- "%x\n" at 8, and zeros.
abbrev texts : Memory
texts q = if q == 8 then b'%' else if q == 9 then b'x' else if q == 10 then 10 else 0

abbrev frame_of : (vector error_code : ℕ) → IsrFrame
frame_of vector error_code = record {
  control_registers = record { cr4 = 0; cr3 = 0; cr2 = 0; cr0 = 0 };
  general_purpose_registers = record {
    r15 = 0;
    r14 = 0;
    r13 = 0;
    r12 = 0;
    r11 = 0;
    r10 = 0;
    r9 = 0;
    r8 = 0;
    rdi = 0;
    rsi = 0;
    rdx = 0;
    rcx = 0;
    rbx = 0;
    rax = 0;
  };
  basic_frame = record {
    rbp = 0;
    vector = vector;
    error_code = error_code;
    rip = 0;
    segment_selector = 8;
    rflags = 0;
    rsp = 0;
    dss = 0;
  };
}

abbrev screen : Monitor
screen = record { cursor_x = 0; cursor_y = 0; terminal_buffer = λ i. 0; outs = [] }

abbrev cpu : Cpu
cpu = record { monitor = screen; serial = []; halted = false }

exception_handler-other_example :
    (name : List ℕ) × (exception_handler 0 8 texts (frame_of 10 0) cpu
      ≡ some (stopped (tag 10 ++ name ++ 10 ∷ []) cpu))
    × (label_at exception_labels 10 ≡ some (tag 10 ++ name))
exception_handler-other_example =
    exception_handler-other 0 8 texts (frame_of 10 0) cpu (omega arith) (omega arith)

texts-HexLine : HexLine 8 texts
texts-HexLine = record { percent = refl; letter = refl; newline = refl; end = refl }

-- An address above four gigabytes.
abbrev far : ℕ
far = 0x123456789a

-- The screen shows its low half.
exception_handler-page_example :
    (hs ds : List ℕ) × (exception_handler far 8 texts (frame_of 14 2) cpu
      ≡ some (record {
        monitor =
            put_all
              (codes "[0x0E] Page Fault " ++ (codes "0x" ++ (map hex_char hs ++ bits_text 2)))
              screen;
        serial = error_line ds;
        halted = true;
      }))
    × AllBelow 16 hs
    × (value 16 hs ≡ far % 2 ^ 32)
    × (far ≢ 0 → far % 2 ^ 32 ≡ 0 → hs ≡ [])
    × AllBelow 16 ds
    × (value 16 ds ≡ far)
exception_handler-page_example =
    exception_handler-page far 8 texts (frame_of 14 2) cpu refl texts-HexLine (omega arith)

abbrev empty_idt : Idt
empty_idt = record {
  idt = λ i. record {
    isr_low = 0;
    segment_selector = 0;
    ist = 0;
    atrributes = 0;
    isr_mid = 0;
    isr_high = 0;
    reserved = 0;
  };
  vectors = λ i. false;
  routine_services = λ i. 0;
  base = 0;
  limit = 0;
  interrupts = true;
}

-- A routine that its address tells.
abbrev noted : ℕ → IsrFrame → List ℕ → List ℕ
noted h irq s = h ∷ s

irq_handler-install_example :
    let installed = idt_install_irq (λ i. i) 33 77 empty_idt in
    let freed = idt_free_vector 33 installed in
    (irq_handler noted installed (frame_of 33 0) [] ≡ 77 ∷ [])
    × (irq_handler noted freed (frame_of 33 0) [] ≡ [])
irq_handler-install_example =
    irq_handler-install noted (λ i. i) 33 77 empty_idt (frame_of 33 0) [] (omega arith)
