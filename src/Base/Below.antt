-- ===== src/Base/Below.antt =====
-- A Boolean test of every number below a bound, to prove facts about small tables by computation.
use Prim.Native.Nat.{ℕ, zero, suc, ◌<◌}
use mathlib.Core.Path.{ap, ◌∙◌, ◌≡◌}
use mathlib.Core.Logic.{inl, inr}
use mathlib.Core.Bool.{Bool, true, ◌&&◌}
use native.Mathlib.Omega.{arith}
use titanix.Base.Tests.{◌==◌, Bool-cases}

-- A test of every number below `n`.
unfoldable pub every_below : (ℕ → Bool) → ℕ → Bool
every_below test zero = true
every_below test (suc n) = every_below test n && test n

pub every_below_lem :
    (test : ℕ → Bool) (n x : ℕ) → every_below test n ≡ true → x < n → test x ≡ true
unfolding every_below
every_below_lem test zero x all less = absurd (omega arith)
every_below_lem test (suc n) x all less = elim (Bool-cases (x == n)) [
  | inl same ↦
      let here : x ≡ n = ground arith in
      let last : test n ≡ true = ground arith in ap test here ∙ last
  | inr other ↦ every_below_lem test n x (ground arith) (ground arith)
]
