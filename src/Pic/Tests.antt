-- ===== src/Pic/Tests.antt =====
-- The mask of one line, on ports whose data ports are registers.
use titanix.Ports.{Ports}
use titanix.Base.{ℕ, ◌==◌, if◌then◌else◌, u8}

abbrev registers : Ports
registers = record {
  State = ℕ → ℕ;
  inb = λ p s. (u8 (s p), s);
  outb = λ p v s q. if q == p then v else s q;
}
