-- ===== src/Console.antt =====
-- src/lib/functions.c: `putch`, `puts`, `puts_with_va` and the log functions. The serial port is the
-- list of the bytes written to it. A variable argument is one 64-bit word of the list of arguments;
-- to take one more than there are is undefined in C, and has no result here.
pub mod Text
pub mod Report
mod Tests
use titanix.Base.{
  ◌>>=◌, ℕ, zero, suc, ◌+◌, ◌-◌, ◌%◌, ◌^◌, Bool, true, false, Option, none, some, List, [], ◌∷◌,
  ◌++◌, ◌==◌, if◌then◌else◌, u8, u32, ltb, ◌&&◌,
}
use titanix.Memory.{Memory, strlen}
use titanix.Numbers.{digit, print_number}
use mathlib.Core.List.{map}

-- What a conversion leaves: the bytes that it prints, the arguments that are left, and the
-- characters of the format that it takes beside its own letter.
pub record Printed : Type 0 where
  pub bytes : List ℕ
  pub rest : List ℕ
  pub extra : ℕ

-- `va_arg`
pub next_argument : List ℕ → Option (ℕ × List ℕ)
next_argument [] = none
next_argument (a ∷ args) = some (a, args)

-- The digits of a number, behind the prefix that its case prints.
pub print_in : ℕ → List ℕ → ℕ → List ℕ → Option Printed
print_in base prefix num rest = do
  ds ← print_number base num
  some (record { bytes = prefix ++ map (digit base) ds; rest = rest; extra = 0 })

-- The bytes that case 'm' prints: `n` of them from `st` on.
pub bytes_from : ℕ → ℕ → Memory → List ℕ
bytes_from zero st m = []
bytes_from (suc n) st m = u8 (m st) ∷ bytes_from n (st + 1) m

-- The loop of case 's' of `puts`, which has an empty body. The index is a `uint32_t`, so that it has
-- been through all that it ever sees after 2 ^ 32 rounds.
pub skip_loop : (fuel i sentence : ℕ) → Memory → Option ℕ
skip_loop zero i sentence m = none
skip_loop (suc fuel) i sentence m = do
  n ← strlen sentence m
  if ltb i n then skip_loop fuel ((i + 1) % 2 ^ 32) sentence m else some i

pub skip_sentence : ℕ → Memory → List ℕ → Option Printed
skip_sentence sentence m rest = do
  i ← skip_loop (2 ^ 32) 0 sentence m
  some (record { bytes = []; rest = rest; extra = 0 })

-- The `switch` on the character behind a '%'. `has_s` tells `puts`, which has a case 's', from
-- `puts_with_va`, which has none. `after` is the character behind the letter.
pub convert : Bool → Memory → ℕ → ℕ → List ℕ → Option Printed
convert has_s m letter after args =
    if letter == b'd'
    then (do (a, rest) ← next_argument args; print_in 10 [] (u32 a) rest)
    else if letter == b'c'
    then (do
      (a, rest) ← next_argument args
      some (record { bytes = u8 a ∷ []; rest = rest; extra = 0 }))
    else if letter == b'q'
    then (do (a, rest) ← next_argument args; print_in 10 [] a rest)
    else if letter == b'x'
    then (do (a, rest) ← next_argument args; print_in 16 (b'0' ∷ b'x' ∷ []) a rest)
    else if letter == b'b'
    then (do (a, rest) ← next_argument args; print_in 2 (b'0' ∷ b'b' ∷ []) a rest)
    else if letter == b'm'
    then (do
      (a, rest) ← next_argument args
      some (record { bytes = bytes_from (u8 (after + 2 ^ 8 - b'0')) a m; rest = rest; extra = 1 }))
    else if (has_s && (letter == b's'))
    then (do (a, rest) ← next_argument args; skip_sentence a m rest)
    else some (record { bytes = []; rest = args; extra = 0 })

-- The loop of both functions at index `i`. Each round takes at least one character, so `length`
-- rounds are enough; fuel left over is not used.
pub format_loop : ℕ → Bool → Memory → (str length i : ℕ) → List ℕ → Option (List ℕ)
format_loop zero has_s m str length i args = some []
format_loop (suc fuel) has_s m str length i args =
    if ltb i length
    then (if m (str + i) == b'%'
        then (do
          p ← convert has_s m (m (str + i + 1)) (m (str + i + 2)) args
          out ← format_loop fuel has_s m str length (i + 2 + p.extra) p.rest
          some (p.bytes ++ out))
        else (do out ← format_loop fuel has_s m str length (i + 1) args; some (m (str + i) ∷ out)))
    else some []

pub puts : ℕ → List ℕ → Memory → Option (List ℕ)
puts str args m = do length ← strlen str m; format_loop length true m str length 0 args

pub puts_with_va : ℕ → List ℕ → Memory → Option (List ℕ)
puts_with_va str args m = do length ← strlen str m; format_loop length false m str length 0 args

-- A log line: a coloured tag, the message, and the reset of the colour. The tags hold no '%', so
-- `puts` prints them as they are.
pub log_line : List ℕ → ℕ → List ℕ → Memory → Option (List ℕ)
log_line tag str args m = do
  body ← puts_with_va str args m
  some (tag ++ (body ++ (27 ∷ b'[' ∷ b'0' ∷ b'm' ∷ [])))

abbrev coloured : ℕ → List ℕ → List ℕ
coloured colour word = 27 ∷ b'[' ∷ b'3' ∷ colour ∷ b'm' ∷ b'[' ∷ (word ++ (b']' ∷ 9 ∷ []))

pub debug : ℕ → List ℕ → Memory → Option (List ℕ)
debug = log_line (coloured b'5' (b'D' ∷ b'E' ∷ b'B' ∷ b'U' ∷ b'G' ∷ []))

pub info : ℕ → List ℕ → Memory → Option (List ℕ)
info = log_line (coloured b'6' (b'I' ∷ b'N' ∷ b'F' ∷ b'O' ∷ []))

-- `ERROR` halts the machine after its line, which the flag tells.
pub error : ℕ → List ℕ → Memory → Option (List ℕ × Bool)
error str args m = do
  line ← log_line (coloured b'1' (b'E' ∷ b'R' ∷ b'R' ∷ b'O' ∷ b'R' ∷ [])) str args m
  some (line, true)
