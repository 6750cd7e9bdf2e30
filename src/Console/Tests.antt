-- ===== src/Console/Tests.antt =====
-- Formats printed by `puts`, and the theorems at them.
use titanix.Base.{ℕ, ◌+◌, ◌<◌, ◌≡◌, refl, some, [], ◌∷◌, arith, ◌==◌, if◌then◌else◌}
use titanix.Memory.{Memory, strlen, strlen_loop}
use titanix.Numbers.{print_number, len, len_loop, pow, print_loop, digit}
use titanix.Console.{puts, format_loop, convert, print_in, next_argument}

-- "%x!" at 100, "ab" at 200, and zeros.
abbrev texts : Memory
texts q =
    if q == 100
    then b'%'
    else if q == 101
    then b'x'
    else if q == 102
    then b'!'
    else if q == 200
    then b'a'
    else if q == 201
    then b'b'
    else 0

print_hex :
    puts 100 (0xbeef ∷ []) texts ≡ some (b'0' ∷ b'x' ∷ b'b' ∷ b'e' ∷ b'e' ∷ b'f' ∷ b'!' ∷ [])
unfolding puts format_loop convert print_in next_argument strlen strlen_loop print_number len
    len_loop pow print_loop digit
print_hex = refl

nonzero : (k : ℕ) → k < 2 → texts (200 + k) ≡ 0 → ⊥
nonzero k h = ground arith

plain : (k : ℕ) → k < 2 → texts (200 + k) ≡ b'%' → ⊥
plain k h = ground arith

ends : strlen 200 texts ≡ some 2
unfolding strlen strlen_loop
ends = refl
