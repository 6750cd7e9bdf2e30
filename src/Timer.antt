-- ===== src/Timer.antt =====
-- src/pit/pit.c: the timer, and the wait for a number of its interrupts.
pub mod Waiting
pub mod Line
mod Tests
use titanix.Ports.{Ports}
use titanix.Pic.{pic_mask_irq, pic_unmask_irq, pic_send_eoi}
use titanix.Idt.{Idt, idt_allocate_vector, idt_install_irq, idt_free_vector}
use titanix.Monitor.{Monitor, monitor_write}
use titanix.Monitor.Print.{monitor_put_dec}
use titanix.Base.{
  ℕ, ◌+◌, ◌-◌, ◌*◌, ◌/◌, ◌%◌, ◌^◌, ◌<◌, ◌≤◌, Bool, true, false, not, List, [], ◌∷◌, ◌≡◌,
  if◌then◌else◌, bit_and, u8, u32, add64,
}

-- The variables of the file.
pub record Timer : Type 0 where
  pub current_tick : ℕ
  pub global_tick : ℕ
  pub pit_vector : ℕ
  pub watching : Bool
  pub masked : Bool
  pub activated : Bool

-- The timer, and what it works on.
pub record Machine (P : Ports) : Type 0 where
  pub timer : Timer
  pub idt : Idt
  pub monitor : Monitor
  pub ports : P.State

abbrev tick_text : List ℕ
tick_text = b'T' ∷ b'I' ∷ b'C' ∷ b'K' ∷ b':' ∷ b' ' ∷ []

module _ (P : Ports) where
  -- The timer's interrupt.
  pub timer_func : Machine P → Machine P
  timer_func m =
      let t = m.timer in
      let m1 =
        if t.watching
        then record m {
          timer = record t {
            current_tick = add64 t.current_tick 1;
            global_tick = add64 t.global_tick 1;
          };
          monitor =
              monitor_write (10 ∷ [])
                (monitor_put_dec (u32 (add64 t.global_tick 1)) (monitor_write tick_text m.monitor));
        }
        else m in
      record m1 { ports = pic_send_eoi P t.pit_vector m1.ports }

  -- The frequency is not 0. `timer` is the address of `timer_func`.
  pub init_timer : (isr_stub_table : ℕ → ℕ) (timer frequency : ℕ) → Machine P → Machine P
  init_timer isr_stub_table timer frequency m =
      let devisor = u32 (1193180 / frequency) in
      let (vector, idt0) = idt_allocate_vector m.idt in
      let idt1 = record idt0 { interrupts = false } in
      let p1 = P.outb 0x43 0x34 m.ports in
      let l = u8 (bit_and devisor 0xff) in
      let h = u8 (bit_and (devisor / 2 ^ 8) 0xff) in
      let p2 = P.outb 0x40 l p1 in
      let p3 = P.outb 0x40 h p2 in
      let idt2 = record idt1 { interrupts = true } in
      let idt3 = idt_install_irq isr_stub_table vector timer idt2 in
      let p4 = if m.timer.masked then pic_unmask_irq P vector p3 else p3 in
      record m { timer = record (m.timer) { pit_vector = vector }; idt = idt3; ports = p4 }

  pub pit_disable : Machine P → Machine P
  pit_disable m =
      let p1 = pic_mask_irq P m.timer.pit_vector m.ports in
      let idt1 = idt_free_vector m.timer.pit_vector m.idt in
      record m {
        timer = record (m.timer) { masked = true; pit_vector = 0 };
        idt = idt1;
        ports = p1;
      }

  -- The statements of `pit_deadline`, one by one: between any two of them there may be
  -- interrupts. A call of the interrupt controllers is one step.
  pub activate : Machine P → Machine P
  activate m = record m { timer = record (m.timer) { activated = true } }

  -- `first` is whether the timer was not activated before.
  pub unmask_line : (first : Bool) → Machine P → Machine P
  unmask_line first m =
      if first then record m { ports = pic_unmask_irq P m.timer.pit_vector m.ports } else m

  pub reset_tick : Machine P → Machine P
  reset_tick m = record m { timer = record (m.timer) { current_tick = 0 } }

  pub watch : Machine P → Machine P
  watch m = record m { timer = record (m.timer) { watching = true } }

  pub mask_line : Machine P → Machine P
  mask_line m = record m { ports = pic_mask_irq P m.timer.pit_vector m.ports }

  pub note_masked : Machine P → Machine P
  note_masked m = record m { timer = record (m.timer) { masked = true } }

  pub unwatch : Machine P → Machine P
  unwatch m = record m { timer = record (m.timer) { watching = false } }

  -- One interrupt: one of the timer runs `timer_func`; another may do anything but to the
  -- variables of the timer. The index counts those of the timer.
  pub data Interrupt : ℕ → Machine P → Machine P → Type 0 where
    tick : {m : Machine P} → Interrupt 1 m (timer_func m)
    other : {m m' : Machine P} → m'.timer ≡ m.timer → Interrupt 0 m m'

  -- Any number of interrupts.
  pub data Interrupts : ℕ → Machine P → Machine P → Type 0 where
    done : {m : Machine P} → Interrupts 0 m m
    more :
        {j n : ℕ} {m m1 m' : Machine P}
        → Interrupt j m m1
        → Interrupts n m1 m'
        → Interrupts (j + n) m m'

  -- The loop. Interrupts may come between the test and `hlt`, which then waits for one more,
  -- and others before the next test.
  pub data Wait (delay : ℕ) : ℕ → Machine P → Machine P → Type 0 where
    reached : {m : Machine P} → delay ≤ m.timer.current_tick → Wait delay 0 m m
    round :
        {k j i n : ℕ} {m m1 m2 m3 m' : Machine P}
        → m.timer.current_tick < delay
        → Interrupts k m m1
        → Interrupt j m1 m2
        → Interrupts i m2 m3
        → Wait delay n m3 m'
        → Wait delay (k + (j + (i + n))) m m'

  -- A call of `pit_deadline` that returns. The index counts the interrupts of the timer from
  -- `watching = TRUE` to `watching = FALSE`.
  pub data Deadline (delay : ℕ) : ℕ → Machine P → Machine P → Type 0 where
    deadline :
        {a b c d n e f g : ℕ} {m m1 m2 m3 m4 m5 m6 m7 m8 : Machine P}
        → Interrupts a (if m.timer.activated then m else activate m) m1
        → Interrupts b (unmask_line (not m.timer.activated) m1) m2
        → Interrupts c (reset_tick m2) m3
        → Interrupts d (watch m3) m4
        → Wait delay n m4 m5
        → Interrupts e m5 m6
        → Interrupts f (mask_line m6) m7
        → Interrupts g (note_masked m7) m8
        → Deadline delay (d + (n + (e + (f + g)))) m (unwatch m8)
