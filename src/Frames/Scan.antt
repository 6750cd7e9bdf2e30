-- ===== src/Frames/Scan.antt =====
-- What `pmm_alloc_page` is for: the first free page of a list of ranges.
use titanix.Base.{
  ℕ, ◌+◌, ◌-◌, ◌≡◌, ◌≢◌, ◌⊎◌, inl, inr, Bool-cases, arith, Option, none, some, List, [], ◌∷◌, ◌==◌,
  if◌then◌else◌,
}
use titanix.Pmm.{section_used, section_free, page_size}
use titanix.Pmm.Chain.{Range}
use titanix.Frames.Split.{cut_off}

-- The first page of the free range `e` behind `p` goes to `p`, if that is used, and is cut off as a used range
-- of its own if it is not.
unfoldable pub grab : Range → Range → List Range → List Range
grab p e es =
    if p.free == section_used
    then record p { pages = p.pages + 1 }
      ∷ record e { start = e.start + page_size; pages = e.pages - 1 }
      ∷ es
    else if e.pages == 1
    then p ∷ record e { free = section_used } ∷ es
    else p ∷ record e { pages = 1; free = section_used } ∷ cut_off 1 e ∷ es

abbrev pub put_before : Range → Option (ℕ × List Range) → Option (ℕ × List Range)
put_before p none = none
put_before p (some (base, ls)) = some (base, p ∷ ls)

-- The first free page of `es` behind `p`, and what is left of both. Ranges without pages before it
-- are dropped.
unfoldable pub first_free : Range → List Range → Option (ℕ × List Range)
first_free p [] = none
first_free p (e ∷ es) =
    let dropped = first_free p es in
    let rest = put_before p (first_free e es) in
    if e.pages == 0
    then dropped
    else if e.free == section_free
    then some (e.start, grab p e es)
    else rest

-- How the scan comes to a page, step by step.
pub data Finds : Range → List Range → ℕ → List Range → Type 0 where
  dropped :
      {p e : Range} {es : List Range} {base : ℕ} {ls : List Range}
      → e.pages ≡ 0
      → Finds p es base ls
      → Finds p (e ∷ es) base ls
  grabbed :
      {p e : Range} {es : List Range} {base : ℕ} {ls : List Range}
      → e.pages ≢ 0
      → e.free ≡ section_free
      → base ≡ e.start
      → ls ≡ grab p e es
      → Finds p (e ∷ es) base ls
  skipped :
      {p e : Range} {es : List Range} {base : ℕ} {ls ls' : List Range}
      → e.pages ≢ 0
      → e.free ≢ section_free
      → ls' ≡ p ∷ ls
      → Finds e es base ls
      → Finds p (e ∷ es) base ls'

put_before-some :
    (p : Range) (o : Option (ℕ × List Range)) (base : ℕ) (ls : List Range)
    → put_before p o ≡ some (base, ls)
    → (ks : List Range) × (o ≡ some (base, ks)) × (ls ≡ p ∷ ks)
put_before-some p none base ls h = cc
put_before-some p (some (b, ks)) base ls h = (ks, cc, cc)

pub first_free-Finds :
    (p : Range) (es : List Range) (base : ℕ) (ls : List Range)
    → first_free p es ≡ some (base, ls)
    → Finds p es base ls
unfolding first_free
first_free-Finds p [] base ls h = cc
first_free-Finds p (e ∷ es) base ls h = elim (Bool-cases (e.pages == 0)) [
  | inl z ↦ dropped (ground arith) (first_free-Finds p es base ls (rw z at h))
  | inr z ↦ elim (Bool-cases (e.free == section_free)) [
    | inl f ↦
        let got : ◌≡◌ {A = Option (ℕ × List Range)} (some (e.start, grab p e es))
            (some (base, ls)) =
          rw (z, f) at h in
        grabbed (ground arith) (ground arith) (cc) (cc)
    | inr f ↦
        let got : put_before p (first_free e es) ≡ some (base, ls) = rw (z, f) at h in
        let (ks, o, l) = put_before-some p (first_free e es) base ls got in
        skipped (ground arith) (ground arith) l (first_free-Finds e es base ks o)
  ]
]

pub Finds-nil : {p : Range} {base : ℕ} {ls : List Range} → Finds p [] base ls → ⊥
Finds-nil f = elim f [ ]

pub Finds-cons :
    {p e : Range} {es : List Range} {base : ℕ} {ls : List Range}
    → Finds p (e ∷ es) base ls
    → (e.pages ≡ 0) × Finds p es base ls
      ⊎ ((e.pages ≢ 0) × (e.free ≡ section_free) × (base ≡ e.start) × (ls ≡ grab p e es)
          ⊎ (e.pages ≢ 0)
            × (e.free ≢ section_free)
            × (ks : List Range) × (ls ≡ p ∷ ks)
            × Finds e es base ks)
Finds-cons (dropped z f) = inl (z, f)
Finds-cons (grabbed ne f b l) = inr (inl (ne, f, b, l))
Finds-cons (skipped {ls} ne f l r) = inr (inr (ne, f, ls, l, r))
