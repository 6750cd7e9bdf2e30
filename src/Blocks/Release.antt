-- ===== src/Blocks/Release.antt =====
-- Which data addresses are in use after a segment is given back.
use titanix.Base.{
  ℕ, ◌+◌, ◌≡◌, ◌≢◌, refl, true, List, [], ◌∷◌, ◌++◌, arith, ap, ◌∙◌, inl, inr, Bool-cases,
}
use titanix.Blocks.{
  Block, block, span, end_of, merged, coalesce, join, release, InUse, coalesce-free, coalesce_used,
  join-free, join_used, le-end_of,
}
use titanix.Blocks.InUse.{InUse-lower}

-- Two views of the same stretch of memory: the same data in use, and the same end.
pub record SameUse (a : ℕ) (bs cs : List Block) : Type 0 where
  pub to : (q m : ℕ) → InUse a bs q m → InUse a cs q m
  pub back : (q m : ℕ) → InUse a cs q m → InUse a bs q m
  pub same_end : end_of a cs ≡ end_of a bs

SameUse-refl : (a : ℕ) (bs : List Block) → SameUse a bs bs
SameUse-refl a bs = record { to = λ q m u. u; back = λ q m u. u; same_end = refl }

SameUse-trans :
    (a : ℕ) (bs cs ds : List Block) → SameUse a bs cs → SameUse a cs ds → SameUse a bs ds
SameUse-trans a bs cs ds s t = record {
  to = λ q m u. t.to q m (s.to q m u);
  back = λ q m u. s.back q m (t.back q m u);
  same_end = t.same_end ∙ s.same_end;
}

SameUse-cons :
    (a : ℕ) (b : Block) (bs cs : List Block)
    → SameUse (a + span b) bs cs
    → SameUse a (b ∷ bs) (b ∷ cs)
SameUse-cons a b bs cs s = record {
  to = λ q m u. elim u [ inl h ↦ inl h | inr h ↦ inr (s.to q m h) ];
  back = λ q m u. elim u [ inl h ↦ inl h | inr h ↦ inr (s.back q m h) ];
  same_end = s.same_end;
}

-- Two free neighbours hold no data in use, before and after they are merged.
SameUse-merged :
    (a : ℕ) (b c : Block) (cs : List Block)
    → b.free ≡ true
    → c.free ≡ true
    → SameUse a (b ∷ c ∷ cs) (merged b c ∷ cs)
SameUse-merged a b c cs f g =
    let z : a + span (merged b c) ≡ a + span b + span c = omega arith in
    record {
      to = λ q m u. elim u [
        | inl h ↦ cc (h.0)
        | inr (inl h) ↦ cc (h.0)
        | inr (inr h) ↦ inr (rw z h)
      ];
      back = λ q m u. elim u [ inl h ↦ cc (h.0) | inr h ↦ inr (inr (rw z at h)) ];
      same_end = ap (λ k. end_of k cs) z;
    }

SameUse-coalesce :
    (a : ℕ) (b : Block) (ys : List Block) → b.free ≡ true → SameUse a (b ∷ ys) (coalesce b ys)
unfolding coalesce
SameUse-coalesce a b [] f = SameUse-refl a (b ∷ [])
SameUse-coalesce a b (c ∷ ys) f = elim (Bool-cases c.free) [
  | inl g ↦ rw (coalesce-free b c ys g) (SameUse-merged a b c ys f g)
  | inr g ↦ rw (coalesce_used b c ys g) (SameUse-refl a (b ∷ c ∷ ys))
]

SameUse-join : (a : ℕ) (w : Block) (rest : List Block) → SameUse a (w ∷ rest) (join w rest)
SameUse-join a w rest = elim (Bool-cases w.free) [
  | inl g ↦ rw (join-free w rest g) (SameUse-coalesce a w rest g)
  | inr g ↦ rw (join_used w rest g) (SameUse-refl a (w ∷ rest))
]

release-SameUse :
    (a : ℕ) (xs : List Block) (b : Block) (ys : List Block)
    → SameUse a (xs ++ (block b.length true ∷ ys)) (release xs b ys)
unfolding release
release-SameUse a [] b ys = SameUse-coalesce a (block b.length true) ys refl
release-SameUse a (w ∷ []) b ys =
    SameUse-trans a (w ∷ block b.length true ∷ ys) (w ∷ coalesce (block b.length true) ys)
      (join w (coalesce (block b.length true) ys))
      (SameUse-cons a w (block b.length true ∷ ys) (coalesce (block b.length true) ys)
        (SameUse-coalesce (a + span w) (block b.length true) ys refl))
      (SameUse-join a w (coalesce (block b.length true) ys))
release-SameUse a (w ∷ v ∷ ws) b ys =
    SameUse-cons a w (v ∷ (ws ++ (block b.length true ∷ ys))) (release (v ∷ ws) b ys)
      (release-SameUse (a + span w) (v ∷ ws) b ys)

-- What is in use after `b` between `xs` and `ys` has been given back.
pub record Freed (a : ℕ) (xs : List Block) (b : Block) (ys cs : List Block) : Type 0 where
  pub gone : (q m : ℕ) → InUse a cs q m → q ≢ end_of a xs + 32
  pub kept : (q m : ℕ) → InUse a (xs ++ (b ∷ ys)) q m → q ≢ end_of a xs + 32 → InUse a cs q m
  pub only : (q m : ℕ) → InUse a cs q m → InUse a (xs ++ (b ∷ ys)) q m
  pub same_end : end_of a cs ≡ end_of a (xs ++ (b ∷ ys))

marked-Freed :
    (a : ℕ) (xs : List Block) (b : Block) (ys : List Block)
    → Freed a xs b ys (xs ++ (block b.length true ∷ ys))
marked-Freed a [] b ys = record {
  gone = λ q m u. elim u [
    | inl h ↦ cc (h.0)
    | inr h ↦ omega (arith, InUse-lower (a + span b) ys q m h)
  ];
  kept = λ q m u ne. elim u [ inl h ↦ absurd (ne h.1) | inr h ↦ inr h ];
  only = λ q m u. elim u [ inl h ↦ cc (h.0) | inr h ↦ inr h ];
  same_end = refl;
}
marked-Freed a (x ∷ xs) b ys =
    let f = marked-Freed (a + span x) xs b ys in
    record {
      gone = λ q m u. elim u [
        | inl h ↦ omega (arith, le-end_of (a + span x) xs)
        | inr h ↦ f.gone q m h
      ];
      kept = λ q m u ne. elim u [ inl h ↦ inl h | inr h ↦ inr (f.kept q m h ne) ];
      only = λ q m u. elim u [ inl h ↦ inl h | inr h ↦ inr (f.only q m h) ];
      same_end = f.same_end;
    }

-- Giving back one segment takes exactly its own data out of use.
pub release-Freed :
    (a : ℕ) (xs : List Block) (b : Block) (ys : List Block) → Freed a xs b ys (release xs b ys)
release-Freed a xs b ys =
    let f = marked-Freed a xs b ys in
    let s = release-SameUse a xs b ys in
    record {
      gone = λ q m u. f.gone q m (s.back q m u);
      kept = λ q m u ne. s.to q m (f.kept q m u ne);
      only = λ q m u. f.only q m (s.back q m u);
      same_end = s.same_end ∙ f.same_end;
    }
