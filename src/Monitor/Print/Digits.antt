-- ===== src/Monitor/Print/Digits.antt =====
-- The digits that `monitor_put_hex` and `monitor_put_dec` print.
use native.Mathlib.Nat.{pow-suc, pow-zero, mod-lt, div-add-mod', div-lt_iff_lt-mul}
use mathlib.Core.List.{map, append-nil}
use titanix.Base.{
  ℕ, zero, suc, ◌+◌, ◌*◌, ◌/◌, ◌%◌, ◌^◌, ◌<◌, ◌≤◌, ◌≡◌, ◌≢◌, inl, inr, refl, ◌∙◌, ap, sym, true,
  List, [], ◌∷◌, ◌++◌, ◌==◌, arith, length, u32, Bool-cases,
}
use titanix.Numbers.Digits.{value, AllBelow}
use titanix.Monitor.{Monitor, monitor_write}
use titanix.Monitor.Print.{digits_loop, put_all, monitor_put_hex, hex_char}

length-snoc : (d : ℕ) (ds : List ℕ) → length (ds ++ d ∷ []) ≡ length ds + 1
length-snoc d [] = refl
length-snoc d (c ∷ ds) = omega (arith, length-snoc d ds)

-- A digit behind the others.
value-snoc : (b d : ℕ) (ds : List ℕ) → value b (ds ++ d ∷ []) ≡ value b ds * b + d
value-snoc b d [] = rw pow-zero (omega arith)
value-snoc b d (c ∷ ds) =
    let rest = value-snoc b d ds in
    let longer : length (ds ++ d ∷ []) ≡ suc (length ds) = omega (arith, length-snoc d ds) in
    let power : b ^ length (ds ++ d ∷ []) ≡ b ^ length ds * b =
      ap (λ (n : ℕ). b ^ n) longer ∙ pow-suc b (length ds) in
    grind (arith, power, rest)

AllBelow-snoc : (b d : ℕ) (ds : List ℕ) → AllBelow b ds → d < b → AllBelow b (ds ++ d ∷ [])
AllBelow-snoc b d [] a h = (h, tt)
AllBelow-snoc b d (c ∷ ds) (x, a) h = (x, AllBelow-snoc b d ds a h)

chars-snoc :
    (char : ℕ → ℕ) (d : ℕ) (ds filled : List ℕ)
    → map char ds ++ char d ∷ filled ≡ map char (ds ++ d ∷ []) ++ filled
chars-snoc char d [] filled = refl
chars-snoc char d (c ∷ ds) filled = ap (λ (l : List ℕ). char c ∷ l) (chars-snoc char d ds filled)

-- What the loop fills in: the digits of the number, of which there are at most `k`.
record Filled (b num k : ℕ) (char : ℕ → ℕ) (filled result : List ℕ) : Type 0 where
  digits : List ℕ
  chars : result ≡ map char digits ++ filled
  below : AllBelow b digits
  stands : value b digits ≡ num
  few : length digits ≤ k
  none_of_zero : num ≡ 0 → digits ≡ []

digits_loop-Filled :
    (b : ℕ) (char : ℕ → ℕ) (k num : ℕ) (filled : List ℕ)
    → 0 < b
    → num < b ^ k
    → Filled b num k char filled (digits_loop b char (suc k) num filled)
unfolding digits_loop
digits_loop-Filled b char zero num filled pos h =
    let none : num ≡ 0 = omega (arith, h, pow-zero b) in
    let zeros : (num == 0) ≡ true = ground arith in
    record {
      digits = [];
      chars = simp zeros;
      below = tt;
      stands = sym none;
      few = omega arith;
      none_of_zero = λ z. refl;
    }
digits_loop-Filled b char (suc k) num filled pos h = elim (Bool-cases (num == 0)) [
  | inl z ↦ record {
    digits = [];
    chars = simp z;
    below = tt;
    stands = ground arith;
    few = omega arith;
    none_of_zero = λ z. refl;
  }
  | inr z ↦
      let less : num < b ^ k * b = rw (pow-suc b k) at h in
      let r =
        digits_loop-Filled b char k (num / b) (char (num % b) ∷ filled) pos
          ((div-lt_iff_lt-mul {k = b} {x = num} {y = b ^ k} pos).1 less) in
      record {
        digits = r.digits ++ num % b ∷ [];
        chars = (simp z) ∙ r.chars ∙ chars-snoc char (num % b) r.digits filled;
        below = AllBelow-snoc b (num % b) r.digits r.below (mod-lt num pos);
        stands =
            value-snoc b (num % b) r.digits
            ∙ ap (λ (x : ℕ). x * b + num % b) r.stands
            ∙ div-add-mod' num b;
        few = omega (arith, r.few, length-snoc (num % b) r.digits);
        none_of_zero = λ e. absurd (ground arith);
      }
]

pub monitor_put_hex-Filled :
    (n : ℕ) (m : Monitor)
    → n < 2 ^ 64
    → (ds : List ℕ) × (monitor_put_hex n m
        ≡ put_all (map hex_char ds) (monitor_write (b'0' ∷ b'x' ∷ []) m))
      × AllBelow 16 ds
      × (value 16 ds ≡ n % 2 ^ 32)
      × (length ds ≤ 8)
      × (n ≢ 0 → n % 2 ^ 32 ≡ 0 → ds ≡ [])
unfolding monitor_put_hex monitor_write put_all hex_char
monitor_put_hex-Filled n m h = elim (Bool-cases (n == 0)) [
  | inl z ↦
      (0 ∷ [], simp z, (omega arith, tt), ground arith, omega arith, λ ne. absurd (ground arith))
  | inr z ↦
      let r = digits_loop-Filled 16 hex_char 8 (u32 n) [] (omega arith) (omega arith) in
      (
        r.digits,
        (simp z)
            ∙ ap (λ (l : List ℕ). put_all l (monitor_write (b'0' ∷ b'x' ∷ []) m))
                (r.chars ∙ append-nil (map hex_char r.digits)),
        r.below,
        r.stands,
        r.few,
        λ ne e. r.none_of_zero e,
      )
]
