-- ===== src/Frames/Owner.antt =====
-- The type of each byte of memory, as the ranges tell it, before and after a page is taken.
use mathlib.Core.Path.{subst}
use titanix.Base.{
  ℕ, ◌+◌, ◌-◌, ◌*◌, ◌≤◌, ◌≡◌, ◌≢◌, inl, inr, refl, ◌∙◌, sym, Option, none, some, List, [], ◌∷◌,
  ◌==◌, Bool, ltb, leb, ◌&&◌, Bool-cases, if◌then◌else◌, arith,
}
use titanix.Pmm.{section_used, section_free, page_size}
use titanix.Pmm.Chain.{Range}
use titanix.Frames.Split.{cut_off}
use titanix.Frames.Scan.{grab, Finds, dropped, grabbed, skipped}

abbrev pub within : ℕ → ℕ → ℕ → Bool
within start pages a = leb start a && ltb a (start + pages * page_size)

-- The type of the range that an address lies in.
abbrev pub type_at : List Range → ℕ → Option ℕ
type_at [] a = none
type_at (r ∷ rs) a = if within r.start r.pages a then some r.free else type_at rs a

-- Each range ends where the next one starts.
abbrev pub Contiguous : List Range → Type 0
Contiguous [] = Unit {0}
Contiguous (r ∷ []) = Unit {0}
Contiguous (r ∷ q ∷ rs) = (r.start + r.pages * page_size ≡ q.start) × Contiguous (q ∷ rs)

pub Contiguous-tail : (r : Range) (rs : List Range) → Contiguous (r ∷ rs) → Contiguous rs
Contiguous-tail r [] c = tt
Contiguous-tail r (q ∷ rs) c = c.1

abbrev pub StartsAt : ℕ → List Range → Type 0
StartsAt a [] = ⊥
StartsAt a (r ∷ rs) = r.start ≡ a

-- Of `p ∷ es` the page at `base` was taken, and `ls` is left.
pub record Taken (p : Range) (es : List Range) (base : ℕ) (ls : List Range) : Type 0 where
  pub was_free : type_at (p ∷ es) base ≡ some section_free
  pub types :
      (a : ℕ) → type_at ls a ≡ (if within base 1 a then some section_used else type_at (p ∷ es) a)
  pub contiguous : Contiguous ls
  pub starts : StartsAt p.start ls
  pub behind : p.start + p.pages * page_size ≤ base

-- A first range that ends where another one did.
Contiguous-head :
    (r r' : Range) (es : List Range)
    → r'.start + r'.pages * page_size ≡ r.start + r.pages * page_size
    → Contiguous (r ∷ es)
    → Contiguous (r' ∷ es)
Contiguous-head r r' [] e c = tt
Contiguous-head r r' (q ∷ es) e (j, c) = (e ∙ j, c)

module _ (p e : Range) (es : List Range) (j : p.start + p.pages * page_size ≡ e.start)
    (c : Contiguous (e ∷ es)) (ne : e.pages ≢ 0) (f : e.free ≡ section_free) where
  Taken-by :
      (ls : List Range)
      → ((a : ℕ)
          → type_at ls a
            ≡ (if within e.start 1 a then some section_used else type_at (p ∷ e ∷ es) a))
      → Contiguous ls
      → StartsAt p.start ls
      → Taken p (e ∷ es) e.start ls
  Taken-by ls types contiguous starts = record {
    was_free = ground arith;
    types = types;
    contiguous = contiguous;
    starts = starts;
    behind = omega arith;
  }

  grab-Taken : Taken p (e ∷ es) e.start (grab p e es)
  unfolding grab
  grab-Taken = elim (Bool-cases (p.free == section_used)) [
    | inl u ↦ rw u (
        Taken-by _ (λ a. ground arith)
          (
            omega arith,
            Contiguous-head e
                (record { start = e.start + page_size; pages = e.pages - 1; free = e.free }) es
                (omega arith) c,
          )
          refl)
    | inr u ↦ elim (Bool-cases (e.pages == 1)) [
      | inl one ↦
          rw (u, one)
            (Taken-by _ (λ a. ground arith)
              (j, Contiguous-head e (record e { free = section_used }) es refl c) refl)
      | inr many ↦
          let two : e.pages ≢ 1 = ground arith in
          rw (u, many)
            (Taken-by _ (λ a. ground arith)
              (j, (omega arith, Contiguous-head e (cut_off 1 e) es (omega arith) c)) refl)
    ]
  ]

Taken-drop :
    (p z : Range) (es : List Range) (base : ℕ) (ls : List Range)
    → z.pages ≡ 0
    → Taken p es base ls
    → Taken p (z ∷ es) base ls
Taken-drop p z es base ls none_in t =
    let w = t.was_free in
    record {
      was_free = ground arith;
      types = λ a. let e = t.types a in ground arith;
      contiguous = t.contiguous;
      starts = t.starts;
      behind = t.behind;
    }

StartsAt-Contiguous :
    (p : Range) (ls : List Range)
    → StartsAt (p.start + p.pages * page_size) ls
    → Contiguous ls
    → Contiguous (p ∷ ls)
StartsAt-Contiguous p [] s c = tt
StartsAt-Contiguous p (l ∷ ls) s c = (sym s, c)

Taken-skip :
    (p e : Range) (es : List Range) (base : ℕ) (ls : List Range)
    → p.start + p.pages * page_size ≡ e.start
    → Taken e es base ls
    → Taken p (e ∷ es) base (p ∷ ls)
Taken-skip p e es base ls j t =
    let w = t.was_free in
    let b = t.behind in
    let at_most : p.start + p.pages * page_size ≤ base = omega arith in
    record {
      was_free = ground arith;
      types = λ a. let h = t.types a in ground arith;
      contiguous =
          StartsAt-Contiguous p ls (subst (λ x. StartsAt x ls) (sym j) t.starts) t.contiguous;
      starts = refl;
      behind = at_most;
    }

-- The scan takes a page that was free, and nothing else changes its type.
pub Finds-Taken :
    {p : Range} {es : List Range} {base : ℕ} {ls : List Range}
    → Contiguous (p ∷ es)
    → Finds p es base ls
    → Taken p es base ls
Finds-Taken {p} {base} {ls} c (dropped {e} {es} z f) =
    Taken-drop p e es base ls z (Finds-Taken (Contiguous-head e p es (omega (arith, c.0)) c.1) f)
Finds-Taken {p} c (grabbed {e} {es} ne f at_start left) =
    rw (at_start, left) (grab-Taken p e es c.0 c.1 ne f)
Finds-Taken {p} {base} c (skipped {e} {es} {ls} ne f left rest) =
    rw left (Taken-skip p e es base ls c.0 (Finds-Taken c.1 rest))
