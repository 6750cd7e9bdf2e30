-- ===== src/Pmm/Merge.antt =====
-- What `pmm_recombine` is for: lists of ranges where no two neighbours have one type.
use titanix.Base.{
  length, ℕ, ◌+◌, ◌*◌, ◌^◌, ◌<◌, ◌≡◌, ◌≢◌, ◌⊎◌, inl, inr, refl, List, [], ◌∷◌, arith,
}
use titanix.Pmm.{page_size}
use titanix.Pmm.Chain.{Range}
use titanix.Frames.Done.{AllFit}
use titanix.Frames.Owner.{type_at, Contiguous}

abbrev pub Differs : ℕ → List Range → Type 0
Differs t [] = Unit {0}
Differs t (r ∷ rs) = t ≢ r.free

abbrev pub Merged : List Range → Type 0
Merged [] = Unit {0}
Merged (r ∷ rs) = Differs r.free rs × Merged rs

-- Where the list starts, if it is not empty.
abbrev pub After : ℕ → List Range → Type 0
After a [] = Unit {0}
After a (r ∷ rs) = a ≡ r.start

After-Contiguous :
    (r : Range) (rs : List Range)
    → After (r.start + r.pages * page_size) rs
    → Contiguous rs
    → Contiguous (r ∷ rs)
After-Contiguous r [] a c = tt
After-Contiguous r (q ∷ rs) a c = (a, c)

-- `ls` says of memory what `rs` does; and either it is `rs`, which is merged, and nothing was detected, or it
-- is shorter.
pub record Pairs (detected : ℕ) (rs : List Range) (detected' : ℕ) (ls : List Range) : Type 0 where
  pub types : (a : ℕ) → type_at ls a ≡ type_at rs a
  pub contiguous : Contiguous ls
  pub starts : (a : ℕ) → After a rs → After a ls
  pub fit : AllFit ls
  pub change :
      (detected' ≡ detected) × (ls ≡ rs) × Merged rs ⊎ (detected' ≡ 1) × (length ls < length rs)

pub Pairs-nil : (d : ℕ) → Pairs d [] d []
Pairs-nil d = record {
  types = λ a. refl;
  contiguous = tt;
  starts = λ a s. s;
  fit = tt;
  change = inl (refl, refl, tt);
}

pub Pairs-one : (d : ℕ) (r : Range) → AllFit (r ∷ []) → Pairs d (r ∷ []) d (r ∷ [])
Pairs-one d r f = record {
  types = λ a. refl;
  contiguous = tt;
  starts = λ a s. s;
  fit = f;
  change = inl (refl, refl, (tt, tt));
}

module _ (d d' : ℕ) (a b : Range) (rs ls : List Range) (j : a.start + a.pages * page_size ≡ b.start)
    (f : a.start + a.pages * page_size + page_size < 2 ^ 63) where
  pub Pairs-skip : a.free ≢ b.free → Pairs d (b ∷ rs) d' ls → Pairs d (a ∷ b ∷ rs) d' (a ∷ ls)
  Pairs-skip ne p = record {
    types = λ q. let e = p.types q in ground arith;
    contiguous = After-Contiguous a ls (p.starts _ j) p.contiguous;
    starts = λ q s. s;
    fit = (f, p.fit);
    change = elim p.change [
      | inl w ↦ inl (w.0, rw w.1 refl, (ne, w.2))
      | inr w ↦ inr (w.0, omega (arith, w.1))
    ];
  }

-- The first two of them become one.
abbrev pub joined : Range → Range → Range
joined a b = record a { pages = a.pages + b.pages }

module _ (d d' : ℕ) (a b : Range) (rs ls : List Range) (j : a.start + a.pages * page_size ≡ b.start)
    (behind : After (b.start + b.pages * page_size) rs)
    (f : b.start + b.pages * page_size + page_size < 2 ^ 63) where
  joined-end : (joined a b).start + (joined a b).pages * page_size ≡ b.start + b.pages * page_size
  joined-end = omega (arith, j)

  pub Pairs-join : a.free ≡ b.free → Pairs 1 rs d' ls → Pairs d (a ∷ b ∷ rs) d' (joined a b ∷ ls)
  Pairs-join same p = record {
    types = λ q. let e = p.types q in ground arith;
    contiguous = After-Contiguous (joined a b) ls (p.starts _ (rw joined-end behind)) p.contiguous;
    starts = λ q s. s;
    fit = (omega (arith, f, j), p.fit);
    change = elim p.change [
      | inl w ↦ inr (w.0, rw w.1 (omega arith))
      | inr w ↦ inr (w.0, omega (arith, w.1))
    ];
  }
