-- ===== src/Base/Bits.antt =====
-- `&` and `|` on words, as arithmetic on bit fields, at every width.
pub mod Step
use Step.{bit_or_step, bit_and_step, halving}
use native.Mathlib.Nat.{pow-suc, one-le-pow, div-div-eq-div-mul, pow-zero, div-one, mul-one}
use Prim.Native.Nat.{bit_or-bitwise}
use Prim.Native.Nat.{ℕ, zero, suc, ◌+◌, ◌-◌, ◌*◌, ◌/◌, ◌%◌, ◌^◌, ◌<◌, ◌≤◌, bit_and, bit_or}
use mathlib.Core.Path.{◌≡◌, refl, ◌∙◌, ap, ap₂, sym}
use native.Mathlib.Omega.{arith}
use titanix.Base.Division.{mod-mul}

double_pow : (m j : ℕ) → m * 2 ^ suc j ≡ 2 * (m * 2 ^ j)
double_pow m j = let power = ap (λ (x : ℕ). m * x) (pow-suc 2 j) in omega arith

pub bit_and-zero : (x : ℕ) → bit_and x 0 ≡ 0
bit_and-zero =
    halving (λ x. bit_and x 0 ≡ 0) refl (λ x rest. omega (arith, bit_and_step (suc x) 0, rest))

pub bit_or-zero : (x : ℕ) → bit_or x 0 ≡ x
bit_or-zero =
    halving (λ x. bit_or x 0 ≡ x) refl (λ x rest. omega (arith, bit_or_step (suc x) 0, rest))

pub zero-bit_or : (b : ℕ) → bit_or 0 b ≡ b
zero-bit_or b = bit_or-bitwise 0 b

-- `&` and `|` commute with a right shift.
bit_and-half : (a b : ℕ) → bit_and a b / 2 ≡ bit_and (a / 2) (b / 2)
bit_and-half a b = omega (arith, bit_and_step a b)

bit_or-half : (a b : ℕ) → bit_or a b / 2 ≡ bit_or (a / 2) (b / 2)
bit_or-half a b = omega (arith, bit_or_step a b)

pub shr-suc : (x k : ℕ) → x / 2 ^ suc k ≡ x / 2 ^ k / 2
shr-suc x k = ap (λ (t : ℕ). x / t) (pow-suc 2 k) ∙ sym (div-div-eq-div-mul x (2 ^ k) 2)

pub bit_and-shr : (k a b : ℕ) → bit_and a b / 2 ^ k ≡ bit_and (a / 2 ^ k) (b / 2 ^ k)
bit_and-shr zero a b = omega (arith, ap₂ bit_and (div-one a) (div-one b))
bit_and-shr (suc k) a b =
    shr-suc (bit_and a b) k
    ∙ ap (λ (t : ℕ). t / 2) (bit_and-shr k a b)
    ∙ bit_and-half (a / 2 ^ k) (b / 2 ^ k)
    ∙ ap₂ bit_and (sym (shr-suc a k)) (sym (shr-suc b k))

pub bit_or-shr : (k a b : ℕ) → bit_or a b / 2 ^ k ≡ bit_or (a / 2 ^ k) (b / 2 ^ k)
bit_or-shr zero a b = omega (arith, ap₂ bit_or (div-one a) (div-one b))
bit_or-shr (suc k) a b =
    shr-suc (bit_or a b) k
    ∙ ap (λ (t : ℕ). t / 2) (bit_or-shr k a b)
    ∙ bit_or-half (a / 2 ^ k) (b / 2 ^ k)
    ∙ ap₂ bit_or (sym (shr-suc a k)) (sym (shr-suc b k))

-- A mask of low bits is a remainder, and one of higher bits a remainder of the shifted number.
pub bit_and-mask : (w a : ℕ) → bit_and a (2 ^ w - 1) ≡ a % 2 ^ w
bit_and-mask zero a = omega (arith, bit_and-zero a)
bit_and-mask (suc w) a =
    let pos = one-le-pow w 2 (omega arith) in
    let half : (2 ^ suc w - 1) / 2 ≡ 2 ^ w - 1 = omega (arith, pow-suc 2 w) in
    let step : bit_and a (2 ^ suc w - 1) ≡ bit_and (a / 2) ((2 ^ suc w - 1) / 2) * 2 + a % 2 =
      omega (arith, bit_and_step a (2 ^ suc w - 1), pow-suc 2 w) in
    step
    ∙ ap (λ (t : ℕ). bit_and (a / 2) t * 2 + a % 2) half
    ∙ ap (λ (t : ℕ). t * 2 + a % 2) (bit_and-mask w (a / 2))
    ∙ mod-mul a 2 (2 ^ w)
    ∙ ap (λ (t : ℕ). a % t) (omega (arith, pow-suc 2 w))

pub bit_and-high_mask : (j m a : ℕ) → bit_and a (m * 2 ^ j) ≡ bit_and (a / 2 ^ j) m * 2 ^ j
bit_and-high_mask zero m a =
    ap₂ bit_and (sym (div-one a)) (mul-one m) ∙ sym (mul-one (bit_and (a / 2 ^ 0) m))
bit_and-high_mask (suc j) m a =
    let even : m * 2 ^ suc j ≡ 2 * (m * 2 ^ j) = double_pow m j in
    let half : m * 2 ^ suc j / 2 ≡ m * 2 ^ j = omega arith in
    let step : bit_and a (m * 2 ^ suc j) ≡ bit_and (a / 2) (m * 2 ^ suc j / 2) * 2 =
      omega (arith, bit_and_step a (m * 2 ^ suc j)) in
    let shift : a / 2 / 2 ^ j ≡ a / 2 ^ suc j =
      div-div-eq-div-mul a 2 (2 ^ j) ∙ ap (λ (t : ℕ). a / t) (omega (arith, pow-suc 2 j)) in
    step
    ∙ ap (λ (t : ℕ). bit_and (a / 2) t * 2) half
    ∙ ap (λ (t : ℕ). t * 2) (bit_and-high_mask j m (a / 2))
    ∙ omega (
      arith,
      ap (λ (t : ℕ). bit_and t m) shift,
      double_pow (bit_and (a / 2 / 2 ^ j) m) j,
      ap (λ (t : ℕ). bit_and t m * 2 ^ suc j) shift,
    )

-- `|` of disjoint fields is their sum.
pub bit_or-fields : (w hi lo : ℕ) → lo < 2 ^ w → bit_or (hi * 2 ^ w) lo ≡ hi * 2 ^ w + lo
bit_or-fields zero hi lo below =
    let none : lo ≡ 0 = omega (arith, pow-zero 2) in
    rw none (bit_or-zero (hi * 2 ^ 0) ∙ omega arith)
bit_or-fields (suc w) hi lo below =
    let even : hi * 2 ^ suc w ≡ 2 * (hi * 2 ^ w) = double_pow hi w in
    let half : hi * 2 ^ suc w / 2 ≡ hi * 2 ^ w = omega arith in
    omega (
      arith,
      bit_or_step (hi * 2 ^ suc w) lo,
      ap (λ (t : ℕ). bit_or t (lo / 2)) half,
      bit_or-fields w hi (lo / 2) (omega (arith, pow-suc 2 w)),
    )
