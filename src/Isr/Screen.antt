-- ===== src/Isr/Screen.antt =====
-- What the handlers print: the labels, and the bits of an error code.
use titanix.Base.{
  ℕ, ◌+◌, ◌-◌, ◌/◌, ◌%◌, ◌^◌, ◌<◌, ◌≡◌, ◌≢◌, ◌⊎◌, refl, Bool, true, false, ◌&&◌, Option, none, some,
  List, [], ◌∷◌, ◌++◌, ◌==◌, if◌then◌else◌, ltb, arith, inl, inr, Bool-cases, u8, codes,
}
use titanix.Base.Below.{every_below, every_below_lem}
use titanix.Monitor.Print.Whole.{no_zero}
use titanix.Isr.{exception_labels, label_at, present_bit, write_bit, reserved_bit}

-- The bit `k` of an error code.
abbrev pub bit : (k error_code : ℕ) → ℕ
bit k error_code = error_code / 2 ^ k % 2

bit_test : ℕ → Bool
bit_test err =
    (present_bit err == bit 0 err)
    && (write_bit err == bit 1 err)
    && (reserved_bit err == bit 2 err)

bit_tests : every_below bit_test 256 ≡ true
unfolding every_below bit_test present_bit write_bit reserved_bit
bit_tests = refl

pub bits_lem :
    (error_code : ℕ)
    → (present_bit (u8 error_code) ≡ bit 0 error_code)
      × (write_bit (u8 error_code) ≡ bit 1 error_code)
      × (reserved_bit (u8 error_code) ≡ bit 2 error_code)
unfolding bit_test
bits_lem error_code =
    let t = every_below_lem bit_test 256 (u8 error_code) bit_tests (omega arith) in
    (ground arith, ground arith, ground arith)

-- A digit of base 16, in capitals.
abbrev capital_digit : ℕ → ℕ
capital_digit d = if ltb d 10 then b'0' + d else b'A' + (d - 10)

-- How the label of a vector starts.
abbrev pub tag : ℕ → List ℕ
tag v = codes "[0x" ++ (capital_digit (v / 16) ∷ capital_digit (v % 16) ∷ codes "] ")

-- What stands behind a prefix.
abbrev pub behind : List ℕ → List ℕ → Option (List ℕ)
behind [] ys = some ys
behind (x ∷ xs) [] = none
behind (x ∷ xs) (y ∷ ys) = let rest = behind xs ys in if x == y then rest else none

none-some : {A : Type 0} (a : A) → none ≢ some a
none-some a e = cc e

behind_lem : (xs ys zs : List ℕ) → behind xs ys ≡ some zs → ys ≡ xs ++ zs
behind_lem [] ys zs h = cc h
behind_lem (x ∷ xs) [] zs h = absurd (none-some zs h)
behind_lem (x ∷ xs) (y ∷ ys) zs h = elim (Bool-cases (x == y)) [
  | inl e ↦ let same : x ≡ y = ground arith in rw (same, behind_lem xs ys zs (simp e at h)) refl
  | inr e ↦ absurd (none-some zs (simp e at h))
]

abbrev is_labelled : Option (List ℕ) → ℕ → Bool
is_labelled none v = false
is_labelled (some l) v = elim (behind (tag v) l) [ none ↦ false | some name ↦ no_zero l ]

label_test : ℕ → Bool
label_test v = is_labelled (label_at exception_labels v) v

label_tests : every_below label_test 33 ≡ true
unfolding every_below label_test label_at exception_labels
label_tests = refl

-- The label of a vector: its tag, and a name.
pub record Label (v : ℕ) (l : List ℕ) : Type 0 where
  pub name : List ℕ
  pub tagged : l ≡ tag v ++ name
  pub whole : no_zero l ≡ true

Option-cases : {A : Type 0} (o : Option A) → (o ≡ none) ⊎ ((a : A) × (o ≡ some a))
Option-cases none = inl refl
Option-cases (some a) = inr (a, refl)

labelled :
    (v : ℕ) (o : Option (List ℕ)) → is_labelled o v ≡ true → (l : List ℕ) × (o ≡ some l) × Label v l
labelled v none t = absurd (ground arith)
labelled v (some l) t = elim (Option-cases (behind (tag v) l)) [
  | inl e ↦ absurd (ground (arith, simp e at t))
  | inr (name, e) ↦
      (l, refl, record { name = name; tagged = behind_lem (tag v) l name e; whole = simp e at t })
]

pub label_at-Label :
    (v : ℕ) → v < 33 → (l : List ℕ) × (label_at exception_labels v ≡ some l) × Label v l
unfolding label_test
label_at-Label v h =
    let t = every_below_lem label_test 33 v label_tests h in
    labelled v (label_at exception_labels v) t
