-- ===== src/Console/Report.antt =====
-- What `ERROR` writes when it reports an address.
use mathlib.Core.List.{map}
use titanix.Base.{
  ℕ, ◌+◌, ◌^◌, ◌<◌, ◌≡◌, ◌≢◌, refl, ◌∙◌, ap, true, false, some, List, [], ◌∷◌, ◌++◌, arith, codes,
  sym, ◌==◌, Bool-cases, inl, inr,
}
use titanix.Memory.{Memory, strlen}
use titanix.Memory.Laws.{strlen_lem}
use titanix.Numbers.{digit}
use titanix.Numbers.Digits.{AllBelow, value}
use titanix.Console.{Printed, convert, format_loop, puts_with_va, log_line, error}
use titanix.Console.Text.{convert-Shows}

-- The memory holds the format "%x\n" at an address.
pub record HexLine (text : ℕ) (m : Memory) : Type 0 where
  pub percent : m text ≡ b'%'
  pub letter : m (text + 1) ≡ b'x'
  pub newline : m (text + 2) ≡ 10
  pub end : m (text + 3) ≡ 0

-- The line with a number in hexadecimal digits.
abbrev pub error_line : List ℕ → List ℕ
error_line ds =
    (27 ∷ codes "[31m[ERROR]")
    ++ (9 ∷ (((codes "0x" ++ map (digit 16) ds) ++ 10 ∷ []) ++ (27 ∷ codes "[0m")))

module _ (text : ℕ) (m : Memory) (h : HexLine text m) where
  nonzero : (k : ℕ) → k < 3 → m (text + k) ≢ 0
  nonzero k l e =
      let p = h.percent in
      let q = h.letter in
      let r = h.newline in
      let at : (j : ℕ) → k ≡ j → m (text + j) ≡ 0 =
        λ j s. ap (λ (i : ℕ). m (text + i)) (sym s) ∙ e in
      let first : m (text + 0) ≡ m text = ap m (omega arith) in
      elim (Bool-cases (k == 0)) [
        | inl z ↦ let z0 = at 0 (ground arith) in omega arith
        | inr z ↦ elim (Bool-cases (k == 1)) [
          | inl y ↦ let y0 = at 1 (ground arith) in omega arith
          | inr y ↦ let x0 = at 2 (ground arith) in omega arith
        ]
      ]

  length_of : strlen text m ≡ some 3
  length_of = strlen_lem 3 text m h.end nonzero (omega arith)

  body :
      (a : ℕ) (p : Printed)
      → convert false m b'x' (m (text + 2)) (a ∷ []) ≡ some p
      → p.extra ≡ 0
      → p.rest ≡ []
      → puts_with_va text (a ∷ []) m ≡ some (p.bytes ++ 10 ∷ [])
  unfolding puts_with_va format_loop
  body a p e z r =
      let a0 : (m (text + 0) == b'%') ≡ true =
        let q = h.percent in let i : m (text + 0) ≡ m text = ap m (omega arith) in ground arith in
      let a1 : m (text + 0 + 1) ≡ b'x' = ap m (omega arith) ∙ h.letter in
      let a2 : m (text + 0 + 2) ≡ m (text + 2) = ap m (omega arith) in
      let c : convert false m (m (text + 0 + 1)) (m (text + 0 + 2)) (a ∷ []) ≡ some p =
        ap (λ (x : ℕ). convert false m x (m (text + 0 + 2)) (a ∷ [])) a1
        ∙ ap (λ (x : ℕ). convert false m b'x' x (a ∷ [])) a2
        ∙ e in
      let a3 : (m (text + 2) == b'%') ≡ false = let q = h.newline in ground arith in
      let l = h.newline in simp (length_of, a0, c, z, r, a3, l)

  pub error-hex :
      (a : ℕ)
      → a < 2 ^ 64
      → (ds : List ℕ) × (error text (a ∷ []) m ≡ some (error_line ds, true))
        × AllBelow 16 ds
        × (value 16 ds ≡ a)
  unfolding error log_line
  error-hex a w =
      let (d, q, (p, e, s), b) = convert-Shows false m (m (text + 2)) a [] w in
      (s.ds, rw (error, log_line, body a p e s.no_more s.left, s.printed) refl, s.below, s.stands)
