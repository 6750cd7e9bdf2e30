-- ===== src/Numbers/Tests.antt =====
-- Numbers printed by the loops of `puts`.
use titanix.Base.{ℕ, suc, ◌^◌, ◌≤◌, ◌≡◌, ◌⊎◌, refl, List, [], ◌∷◌, some, arith, length}
use titanix.Numbers.{len_loop, len, pow, print_loop, print_number}
use titanix.Numbers.Digits.{AllBelow, value, print_number-AreDigits}

prints : print_number 10 2026 ≡ some (2 ∷ 0 ∷ 2 ∷ 6 ∷ [])
unfolding print_number len len_loop pow print_loop
prints = refl

print_zero : print_number 16 0 ≡ some (0 ∷ [])
unfolding print_number len len_loop pow print_loop
print_zero = refl

print_number-AreDigits_example :
    (j : ℕ) × (ds : List ℕ) × (print_number 16 0xb8000 ≡ some ds)
    × (length ds ≡ suc j)
    × AllBelow 16 ds
    × (value 16 ds ≡ 0xb8000)
    × ((j ≡ 0) ⊎ (16 ^ j ≤ 0xb8000))
print_number-AreDigits_example = print_number-AreDigits 16 (omega arith) 0xb8000 (omega arith)
