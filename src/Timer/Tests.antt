-- ===== src/Timer/Tests.antt =====
-- A wait for two interrupts of the timer on vector 32, on ports whose data ports are registers.
use titanix.Ports.{Ports}
use titanix.Base.{ℕ, ◌+◌, ◌≡◌, ◌≤◌, refl, inl, true, false, arith, ◌==◌, if◌then◌else◌, u8, []}
use titanix.Pic.Masks.{Registers}
use titanix.Timer.{
  Machine, timer_func, pit_disable, activate, unmask_line, reset_tick, watch, mask_line,
  note_masked, unwatch, tick, done, more, Wait, Deadline, deadline,
}
use titanix.Timer.Waiting.{Wait-run, Deadline-ticks}
use titanix.Timer.Line.{pit-masks_kept}

abbrev registers : Ports
registers = record {
  State = ℕ → ℕ;
  inb = λ p s. (u8 (s p), s);
  outb = λ p v s q. if q == p then v else s q;
}

registers-Registers : Registers registers
registers-Registers = record {
  reads_byte = λ p s d. omega arith;
  reads_back = λ p v s d h. ground arith;
  reads_other = λ p q v s d d' n. ground arith;
  reads_keep = λ p q s d d'. refl;
}

abbrev delay : ℕ
delay = 2

abbrev started : Machine registers
started = record {
  timer = record {
    current_tick = 7;
    global_tick = 7;
    pit_vector = 32;
    watching = false;
    masked = false;
    activated = false;
  };
  idt = record {
    idt = λ i. record {
      isr_low = 0;
      segment_selector = 0;
      ist = 0;
      atrributes = 0;
      isr_mid = 0;
      isr_high = 0;
      reserved = 0;
    };
    vectors = λ i. false;
    routine_services = λ i. 0;
    base = 0;
    limit = 0;
    interrupts = true;
  };
  monitor = record { cursor_x = 0; cursor_y = 0; terminal_buffer = λ i. 0; outs = [] };
  ports = λ p. 0xb8;
}

-- A call of two ticks, with one more between the loop and the masking.
abbrev watched : Machine registers
watched =
    watch registers (reset_tick registers (unmask_line registers true (activate registers started)))

watched-watching : watched.timer.watching ≡ true
unfolding watch
watched-watching = refl

watched_tick : watched.timer.current_tick + 2 ≡ 2
unfolding watch reset_tick
watched_tick = refl

two_ticks : (m' : Machine registers) × Wait registers 2 2 watched m'
two_ticks = Wait-run registers 2 2 watched (omega arith) watched-watching watched_tick

abbrev ended : Machine registers
ended =
    unwatch registers
      (note_masked registers (mask_line registers (timer_func registers two_ticks.0)))

a_call : Deadline registers 2 3 started ended
a_call = deadline done done done done two_ticks.1 (more tick done) done done

Deadline-ticks_example :
    (delay ≤ 3)
    × (ended.timer ≡ record {
      current_tick = 3;
      global_tick = 10;
      pit_vector = 32;
      watching = false;
      masked = true;
      activated = true;
    })
Deadline-ticks_example = Deadline-ticks registers 2 (omega arith) refl a_call

pit-masks_kept_example :
    ((registers.inb 0x21 (pit_disable registers started).ports).0 ≡ 0xb8)
    × ((registers.inb 0x21 (unmask_line registers true started).ports).0 ≡ 0xb8)
    × ((registers.inb 0x21 (mask_line registers started).ports).0 ≡ 0xb8)
pit-masks_kept_example =
    pit-masks_kept registers registers-Registers started 0x21 true (inl refl) (omega arith)
      (omega arith)
