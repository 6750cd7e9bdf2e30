-- ===== src/Base/Division.antt =====
-- A remainder taken in two steps.
use native.Mathlib.Nat.{div-div-eq-div-mul, div-add-mod'}
use Prim.Native.Nat.{ℕ, ◌+◌, ◌*◌, ◌/◌, ◌%◌}
use mathlib.Core.Path.{◌≡◌, ap}
use native.Mathlib.Omega.{arith}

pub mod-mul : (n c b : ℕ) → (n / c % b) * c + n % c ≡ n % (c * b)
mod-mul n c b =
    let e3 : n / c / b * (c * b) + n % (c * b) ≡ n =
      rw (div-div-eq-div-mul n c b) (div-add-mod' n (c * b)) in
    omega (arith, ap (λ (t : ℕ). t * c) (div-add-mod' (n / c) b), div-add-mod' n c, e3)
