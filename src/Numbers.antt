-- ===== src/Numbers.antt =====
-- src/lib/functions.c: `len`, `pow` and the loops of `puts` and `puts_with_va` that print a number.
pub mod Digits
mod Tests
use titanix.Base.{
  ℕ, zero, suc, ◌+◌, ◌-◌, ◌/◌, ◌%◌, ◌^◌, Option, none, some, List, [], ◌∷◌, ◌==◌, if◌then◌else◌,
  mul64, add64, ltb, u8,
}

-- `len`, with fuel. Without fuel there is no result: `n / base` does not fall for a base below 2.
unfoldable pub len_loop : ℕ → ℕ → ℕ → ℕ → Option ℕ
len_loop zero q n base = none
len_loop (suc fuel) q n base =
    let rest = len_loop fuel q (n / base) base in
    if q == 0
    then some 1
    else if n == 0
    then some 0
    else elim rest [ none ↦ none | some k ↦ some (add64 1 k) ]

unfoldable pub len : ℕ → ℕ → ℕ → Option ℕ
len q n base = len_loop (suc n) q n base

unfoldable pub pow : ℕ → ℕ → ℕ
pow base zero = if base == 0 then 0 else 1
pow base (suc power) = if base == 0 then 0 else mul64 base (pow base power)

-- The character of one digit: `'0' + d`, and for base 16 from 10 on `'a' + d - 10`.
unfoldable pub digit : ℕ → ℕ → ℕ
digit base d = if ltb 9 d then b'a' + d - 10 else b'0' + d

-- `while (bound) { putch(...); bound /= base; }`, as the list of the digits that are printed.
unfoldable pub print_loop : ℕ → ℕ → ℕ → ℕ → Option (List ℕ)
print_loop zero base num bound = none
print_loop (suc fuel) base num bound =
    let rest = print_loop fuel base num (bound / base) in
    if bound == 0
    then some []
    else elim rest [ none ↦ none | some ds ↦ some ((num / bound % base) ∷ ds) ]

-- The three statements of a case of `puts`: `len`, `pow` and the loop.
unfoldable pub print_number : ℕ → ℕ → Option (List ℕ)
print_number base num = elim (len num num base) [
  | none ↦ none
  | some digits ↦
      let bound = pow base ((digits + 2 ^ 64 - 1) % 2 ^ 64) in print_loop (suc bound) base num bound
]
