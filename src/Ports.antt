-- ===== src/Ports.antt =====
-- The machine's ports, which the drivers read and write by `inb` and `outb`.
use titanix.Base.{ℕ}

pub record Ports : Type 1 where
  pub State : Type 0
  pub inb : ℕ → State → ℕ × State
  pub outb : ℕ → ℕ → State → State
