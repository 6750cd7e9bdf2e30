-- ===== src/Monitor/Print.antt =====
-- src/drivers/monitor.c: `monitor_put_hex` and `monitor_put_dec`.
pub mod Digits
pub mod Whole
use titanix.Base.{
  ℕ, zero, suc, ◌+◌, ◌-◌, ◌*◌, ◌/◌, ◌%◌, ◌^◌, Bool, true, false, List, [], ◌∷◌, ◌==◌, ltb,
  if◌then◌else◌, u8, u32,
}
use titanix.Monitor.{Monitor, monitor_put, monitor_write}

-- The chain of tests on a digit in `monitor_put_hex`: the letters, or `'0' + m`.
pub hex_char : ℕ → ℕ
hex_char m =
    if m == 10
    then b'a'
    else if m == 11
    then b'b'
    else if m == 12
    then b'c'
    else if m == 13
    then b'd'
    else if m == 14
    then b'e'
    else if m == 15
    then b'f'
    else u8 (b'0' + m)

pub dec_char : ℕ → ℕ
dec_char m = u8 (b'0' + m)

-- The loop that both functions have. `filled` is what the array holds, the cell filled last first: the
-- order in which the second loop prints. A number below 2 ^ 32 is used up before the fuel that they
-- give.
unfoldable pub digits_loop : (base : ℕ) (char : ℕ → ℕ) (fuel num : ℕ) → List ℕ → List ℕ
digits_loop base char zero num filled = filled
digits_loop base char (suc fuel) num filled =
    let rest = digits_loop base char fuel (num / base) (char (num % base) ∷ filled) in
    if num == 0 then filled else rest

-- The second loop.
pub put_all : List ℕ → Monitor → Monitor
put_all [] m = m
put_all (c ∷ cs) m = put_all cs (monitor_put c m)

pub monitor_put_hex : ℕ → Monitor → Monitor
monitor_put_hex n m =
    let m1 = monitor_write (b'0' ∷ b'x' ∷ []) m in
    if n == 0
    then monitor_write (b'0' ∷ []) m1
    else put_all (digits_loop 16 hex_char 9 (u32 n) []) m1

pub monitor_put_dec : ℕ → Monitor → Monitor
monitor_put_dec n m =
    if n == 0 then monitor_put b'0' m else put_all (digits_loop 10 dec_char 11 n []) m
