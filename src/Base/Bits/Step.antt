-- ===== src/Base/Bits/Step.antt =====
-- The lowest binary digit of `&` and `|`, and recursion on the halves of a number.
-- The native operations stand for `digits`, which counts down while it halves its first number.
use Prim.Native.Nat.{ℕ, zero, suc, ◌+◌, ◌*◌, ◌/◌, ◌%◌, ◌≤◌, min, max, digits}
use Prim.Native.Nat.{bit_and, bit_or, bit_and-bitwise, bit_or-bitwise}
use mathlib.Core.Path.{◌≡◌, refl, ◌∙◌, ap, sym}
use mathlib.Core.Logic.{◌⊎◌, inl, inr}
use native.Mathlib.Omega.{arith}

-- What holds of 0, and of a positive number when it holds of its half, holds of all numbers.
module _ (P : ℕ → Type 0) (base : P 0) (half : (x : ℕ) → P (suc x / 2) → P (suc x)) where
  halving_up_to : (bound x : ℕ) → x ≤ bound → P x
  halving_up_to bound zero le = base
  halving_up_to zero (suc x) le = absurd (omega arith)
  halving_up_to (suc bound) (suc x) le = half x (halving_up_to bound (suc x / 2) (omega arith))

  pub halving : (x : ℕ) → P x
  halving x = halving_up_to x x (omega arith)

split_le : (x n : ℕ) → x ≤ suc n → (x ≤ n) ⊎ (x ≡ suc n)
split_le x n le = ground arith

module _ (out : ℕ → ℕ) (op : ℕ → ℕ → ℕ) where
  -- One more than enough is enough.
  spare_round : (n x y : ℕ) → x ≤ n → digits out op (suc n) x y ≡ digits out op n x y
  spare_round zero zero y le = refl
  spare_round zero (suc x) y le = absurd (omega arith)
  spare_round (suc n) zero y le = refl
  spare_round (suc n) (suc x) y le =
      ap (λ (t : ℕ). t * 2 + op (suc x % 2) (y % 2))
        (spare_round n (suc x / 2) (y / 2) (omega arith))

  settled : (n x y : ℕ) → x ≤ n → digits out op n x y ≡ digits out op x x y
  settled zero zero y le = refl
  settled zero (suc x) y le = absurd (omega arith)
  settled (suc n) x y le = elim (split_le x n le) [
    | inl less ↦ spare_round n x y less ∙ settled n x y less
    | inr same ↦ ap (λ (t : ℕ). digits out op t x y) (sym same)
  ]

  lowest_digit :
      (x y : ℕ)
      → digits out op (suc x) (suc x) y
        ≡ op (suc x % 2) (y % 2) + 2 * digits out op (suc x / 2) (suc x / 2) (y / 2)
  lowest_digit x y = let rest = settled x (suc x / 2) (y / 2) (omega arith) in omega arith

pub bit_and_step : (x y : ℕ) → bit_and x y ≡ min (x % 2) (y % 2) + 2 * bit_and (x / 2) (y / 2)
bit_and_step zero y =
    let whole = bit_and-bitwise 0 y in let part = bit_and-bitwise 0 (y / 2) in omega arith
bit_and_step (suc x) y =
    let whole = bit_and-bitwise (suc x) y in
    let part = bit_and-bitwise (suc x / 2) (y / 2) in
    let digit = lowest_digit (λ t. 0) min x y in omega arith

pub bit_or_step : (x y : ℕ) → bit_or x y ≡ max (x % 2) (y % 2) + 2 * bit_or (x / 2) (y / 2)
bit_or_step zero y =
    let whole = bit_or-bitwise 0 y in let part = bit_or-bitwise 0 (y / 2) in omega arith
bit_or_step (suc x) y =
    let whole = bit_or-bitwise (suc x) y in
    let part = bit_or-bitwise (suc x / 2) (y / 2) in
    let digit = lowest_digit (λ t. t) max x y in omega arith
