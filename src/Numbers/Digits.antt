-- ===== src/Numbers/Digits.antt =====
-- The loops that print a number, and its digits.
use native.Mathlib.Nat.{
  pow-suc, one-le-pow, div-lt_iff_lt-mul, div-lt_self, div-add-mod', pow-zero, mul-div_cancel,
  div-eq_of_lt, mod-eq_of_lt, mod-lt,
}
use mathlib.Core.Path.{subst}
use titanix.Base.{
  ℕ, zero, suc, ◌+◌, ◌-◌, ◌*◌, ◌/◌, ◌%◌, ◌^◌, ◌≤◌, ◌<◌, ◌≡◌, ◌≢◌, refl, ◌∙◌, ap, sym, some, List,
  [], ◌∷◌, arith, length, ◌⊎◌, inl, inr,
}
use titanix.Base.Division.{mod-mul}
use titanix.Numbers.{len_loop, len, pow, print_loop, print_number}

-- `n` has exactly `k` digits in base `b`; zero has none.
record HasDigits (b n k : ℕ) : Type 0 where
  below : n < b ^ k
  least : (j : ℕ) → k ≡ suc j → b ^ j ≤ n
  small : k ≤ n

module _ (b : ℕ) (base : 2 ≤ b) where
  least-suc : (n k j : ℕ) → 0 < n → ((i : ℕ) → k ≡ suc i → b ^ i ≤ n / b) → k ≡ j → b ^ j ≤ n
  least-suc n zero j pos h e = rw (← e, pow-zero) (omega arith)
  least-suc n (suc i) j pos h e = rw (← e, pow-suc) (grind (arith, h i refl, div-add-mod' n b))

  HasDigits-suc : (n k : ℕ) → 0 < n → HasDigits b (n / b) k → HasDigits b n (suc k)
  HasDigits-suc n k pos h = record {
    below = rw pow-suc ((div-lt_iff_lt-mul {k = b} {x = n} {y = b ^ k} (omega arith)).0 h.below);
    least = λ j e. least-suc n k j pos h.least (omega arith);
    small = omega (arith, h.small, div-lt_self {n = n} {k = b} pos base);
  }

  len_loop_lem :
      (fuel q n : ℕ)
      → n < fuel
      → q ≢ 0
      → n < 2 ^ 64
      → (k : ℕ) × (len_loop fuel q n b ≡ some k) × HasDigits b n k
  unfolding len_loop
  len_loop_lem zero q n h nz w = elim h [ ]
  len_loop_lem (suc fuel) q zero h nz w = (
    0,
    ground arith,
    record {
      below = rw pow-zero (omega arith);
      least = λ j e. absurd (omega arith);
      small = omega arith;
    },
  )
  len_loop_lem (suc fuel) q (suc n) h nz w =
      let lt = div-lt_self {n = suc n} {k = b} (omega arith) base in
      let (k, e, d) = len_loop_lem fuel q (suc n / b) (omega arith) nz (omega arith) in
      (suc k, ground (arith, e, d.small), HasDigits-suc (suc n) k (omega arith) d)

-- The number that digits stand for, the first one most significant.
abbrev pub value : ℕ → List ℕ → ℕ
value b [] = 0
value b (d ∷ ds) = d * b ^ length ds + value b ds

abbrev pub AllBelow : ℕ → List ℕ → Type 0
AllBelow b [] = Unit {0}
AllBelow b (d ∷ ds) = (d < b) × AllBelow b ds

-- The digits of `n`, `k` of them.
pub record AreDigits (b n k : ℕ) (ds : List ℕ) : Type 0 where
  pub count : length ds ≡ k
  pub below : AllBelow b ds
  pub stands : value b ds ≡ n % b ^ k

module _ (b : ℕ) (base : 2 ≤ b) where
  print_loop-zero : (fuel n : ℕ) → print_loop (suc fuel) b n 0 ≡ some []
  unfolding print_loop
  print_loop-zero fuel n = refl

  print_loop-suc :
      (fuel n bound : ℕ) (ds : List ℕ)
      → bound ≢ 0
      → print_loop fuel b n (bound / b) ≡ some ds
      → print_loop (suc fuel) b n bound ≡ some ((n / bound % b) ∷ ds)
  unfolding print_loop
  print_loop-suc fuel n bound ds ne e = ground (arith, e)

  print_loop_lem :
      (j fuel n : ℕ)
      → b ^ j < fuel
      → (ds : List ℕ) × (print_loop fuel b n (b ^ j) ≡ some ds) × AreDigits b n (suc j) ds
  print_loop_lem j zero n h = absurd (omega arith)
  print_loop_lem zero (suc zero) n h = absurd (omega (arith, pow-zero b))
  print_loop_lem zero (suc (suc fuel)) n h =
      let q : 1 / b ≡ 0 = div-eq_of_lt (omega arith) in
      let one_step =
        print_loop-suc (suc fuel) n 1 [] (omega arith) (rw q (print_loop-zero fuel n)) in
      let one_digit : n % b ^ 1 ≡ n % b =
        ap (λ (k : ℕ). n % k) (pow-suc b 0 ∙ rw (pow-zero b) (omega arith)) in
      let whole : n / 1 % b ≡ n % b = ap (λ (k : ℕ). k % b) (omega arith) in
      (
        n % b ∷ [],
        rw (pow-zero, ← whole) one_step,
        record {
          count = refl;
          below = (mod-lt n (omega arith), tt);
          stands = rw (pow-zero b, one_digit) (omega arith);
        },
      )
  print_loop_lem (suc j) (suc fuel) n h =
      let pos = one-le-pow j b (omega arith) in
      let q : b ^ suc j / b ≡ b ^ j = rw pow-suc (mul-div_cancel (b ^ j) (omega arith)) in
      let big : 2 * b ^ j ≤ b ^ suc j = rw pow-suc (grind arith) in
      let (ds, e, d) = print_loop_lem j fuel n (omega arith) in
      (
        (n / b ^ suc j % b) ∷ ds,
        print_loop-suc fuel n (b ^ suc j) ds (omega arith)
            (subst (λ k. print_loop fuel b n k ≡ some ds) (sym q) e),
        record {
          count = ap suc d.count;
          below = (mod-lt (n / b ^ suc j) (omega arith), d.below);
          stands = rw (d.count, d.stands, pow-suc b (suc j)) (mod-mul n (b ^ suc j) b);
        },
      )

  -- `pow` does not wrap where the power is a word.
  pow_lem : (j : ℕ) → b ^ j < 2 ^ 64 → pow b j ≡ b ^ j
  unfolding pow
  pow_lem zero h = rw pow-zero (ground arith)
  pow_lem (suc j) h =
      let big : b ^ j ≤ b ^ suc j = rw pow-suc (grind arith) in
      let e = pow_lem j (omega arith) in
      let c : b * b ^ j ≡ b ^ suc j = rw pow-suc (omega arith) in ground (arith, e, c)

  after :
      (n j : ℕ) (ds : List ℕ)
      → len n n b ≡ some (suc j)
      → (let bound = pow b ((suc j + 2 ^ 64 - 1) % 2 ^ 64) in
          print_loop (suc bound) b n bound ≡ some ds)
      → print_number b n ≡ some ds
  unfolding print_number
  after n j ds counted e = rw (counted, print_number) e

  -- What `print_number` prints once `len` has counted `j + 1` digits.
  printed :
      (n j : ℕ)
      → len n n b ≡ some (suc j)
      → n < b ^ suc j
      → b ^ j < 2 ^ 64
      → j < 2 ^ 64 - 1
      → (ds : List ℕ) × (print_number b n ≡ some ds) × AreDigits b n (suc j) ds
  unfolding print_number
  printed n j counted below fits small =
      let (ds, e, d) = print_loop_lem j (suc (b ^ j)) n (omega arith) in
      let back : (suc j + 2 ^ 64 - 1) % 2 ^ 64 ≡ j = omega arith in
      (ds, after n j ds counted (rw (back, pow_lem j fits) e), d)

  len-zero : len 0 0 b ≡ some 1
  unfolding len len_loop
  len-zero = refl

  len-HasDigits : (n : ℕ) → 0 < n → n < 2 ^ 64 → (k : ℕ) × (len n n b ≡ some k) × HasDigits b n k
  unfolding len
  len-HasDigits n pos w = len_loop_lem b base (suc n) n n (omega arith) (omega arith) w

  -- In a base of at least 2, every 64-bit number is printed: by digits below the base that stand
  -- for the number, as many as it needs, one for zero.
  pub print_number-AreDigits :
      (n : ℕ)
      → n < 2 ^ 64
      → (j : ℕ) × (ds : List ℕ) × (print_number b n ≡ some ds)
        × (length ds ≡ suc j)
        × AllBelow b ds
        × (value b ds ≡ n)
        × ((j ≡ 0) ⊎ (b ^ j ≤ n))
  print_number-AreDigits zero w =
      let one_digit : 0 < b ^ 1 = rw (pow-suc b 0, pow-zero b) (omega arith) in
      let (ds, e, d) =
        printed 0 0 len-zero one_digit (rw (pow-zero b) (omega arith)) (omega arith) in
      (0, ds, e, d.count, d.below, d.stands ∙ mod-eq_of_lt one_digit, inl refl)
  print_number-AreDigits (suc n) w = from_len (len-HasDigits (suc n) (omega arith) w)
    where
      from_len :
          (k : ℕ) × (len (suc n) (suc n) b ≡ some k) × HasDigits b (suc n) k
          → (j : ℕ) × (ds : List ℕ) × (print_number b (suc n) ≡ some ds)
            × (length ds ≡ suc j)
            × AllBelow b ds
            × (value b ds ≡ suc n)
            × ((j ≡ 0) ⊎ (b ^ j ≤ suc n))
      from_len (zero, e, h) = absurd (omega (arith, h.below, pow-zero b))
      from_len (suc j, e, h) =
          let least = h.least j refl in
          let (ds, e', d) = printed (suc n) j e h.below (omega arith) (omega (arith, h.small)) in
          (j, ds, e', d.count, d.below, d.stands ∙ mod-eq_of_lt h.below, inr least)
