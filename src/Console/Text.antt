-- ===== src/Console/Text.antt =====
-- What `puts` prints of plain text, and of a number.
use mathlib.Core.List.{map}
use titanix.Base.{
  ℕ, zero, suc, ◌+◌, ◌^◌, ◌≤◌, ◌<◌, ◌≡◌, ◌≢◌, refl, ◌∙◌, ap, Bool, true, some, List, [], ◌∷◌, ◌++◌,
  arith, u32,
}
use titanix.Memory.{Memory}
use titanix.Memory.Laws.{strlen_lem}
use titanix.Numbers.{digit}
use titanix.Numbers.Digits.{AllBelow, value, print_number-AreDigits}
use titanix.Console.{Printed, next_argument, print_in, convert, format_loop, puts}

abbrev pub text_from : ℕ → ℕ → Memory → List ℕ
text_from zero p m = []
text_from (suc n) p m = m p ∷ text_from n (p + 1) m

format_loop_plain :
    (fuel str length i : ℕ) (args : List ℕ) (m : Memory)
    → i + fuel ≡ length
    → ((k : ℕ) → k < length → m (str + k) ≢ b'%')
    → format_loop fuel true m str length i args ≡ some (text_from fuel (str + i) m)
unfolding format_loop
format_loop_plain zero str length i args m e plain = refl
format_loop_plain (suc fuel) str length i args m e plain =
    let here : m (str + i) ≢ b'%' = plain i (omega arith) in
    let next : text_from fuel (str + (i + 1)) m ≡ text_from fuel (str + i + 1) m =
      ap (λ k. text_from fuel k m) (omega arith) in
    let rest = format_loop_plain fuel str length (i + 1) args m (omega arith) plain in
    ground (arith, here, next, rest)

-- `puts` prints a text of `n` bytes, fewer than 2 ^ 32, none of them zero or '%' and with a zero
-- behind them, as it stands, whatever the arguments.
pub puts_plain :
    (n str : ℕ) (args : List ℕ) (m : Memory)
    → m (str + n) ≡ 0
    → ((k : ℕ) → k < n → m (str + k) ≢ 0)
    → ((k : ℕ) → k < n → m (str + k) ≢ b'%')
    → n < 2 ^ 32
    → puts str args m ≡ some (text_from n str m)
unfolding puts
puts_plain n str args m end nonzero plain w = rw (strlen_lem n str m end nonzero w) (
    format_loop_plain n str n 0 args m (omega arith) plain
    ∙ ap (λ k. some (text_from n k m)) (omega arith))

-- What a conversion of the number `num` in base `base` prints: a prefix and digits that stand for it.
pub record Shows (base num : ℕ) (prefix rest : List ℕ) (p : Printed) : Type 0 where
  pub ds : List ℕ
  pub printed : p.bytes ≡ prefix ++ map (digit base) ds
  pub below : AllBelow base ds
  pub stands : value base ds ≡ num
  pub left : p.rest ≡ rest
  pub no_more : p.extra ≡ 0

print_in-Shows :
    (base num : ℕ) (prefix rest : List ℕ)
    → 2 ≤ base
    → num < 2 ^ 64
    → (p : Printed) × (print_in base prefix num rest ≡ some p) × Shows base num prefix rest p
unfolding print_in
print_in-Shows base num prefix rest h w =
    let (j, ds, e, _, below, stands, _) = print_number-AreDigits base h num w in
    (
      record { bytes = prefix ++ map (digit base) ds; rest = rest; extra = 0 },
      rw e,
      record {
        ds = ds;
        printed = refl;
        below = below;
        stands = stands;
        left = refl;
        no_more = refl;
      },
    )

pub convert-Shows :
    (has_s : Bool) (m : Memory) (after a : ℕ) (rest : List ℕ)
    → a < 2 ^ 64
    → ((p : Printed) × (convert has_s m b'd' after (a ∷ rest) ≡ some p)
        × Shows 10 (u32 a) [] rest p)
      × ((p : Printed) × (convert has_s m b'q' after (a ∷ rest) ≡ some p) × Shows 10 a [] rest p)
      × ((p : Printed) × (convert has_s m b'x' after (a ∷ rest) ≡ some p)
          × Shows 16 a (b'0' ∷ b'x' ∷ []) rest p)
      × ((p : Printed) × (convert has_s m b'b' after (a ∷ rest) ≡ some p)
          × Shows 2 a (b'0' ∷ b'b' ∷ []) rest p)
unfolding convert next_argument
convert-Shows has_s m after a rest w = (
  print_in-Shows 10 (u32 a) [] rest (omega arith) (omega arith),
  print_in-Shows 10 a [] rest (omega arith) w,
  print_in-Shows 16 a (b'0' ∷ b'x' ∷ []) rest (omega arith) w,
  print_in-Shows 2 a (b'0' ∷ b'b' ∷ []) rest (omega arith) w,
)
