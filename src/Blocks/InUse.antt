-- ===== src/Blocks/InUse.antt =====
-- Which data addresses are in use before and after the operations on blocks.
use titanix.Base.{
  ℕ, ◌+◌, ◌-◌, ◌≤◌, ◌<◌, ◌≡◌, ◌≢◌, refl, true, false, ◌&&◌, Option, none, some, List, [], ◌∷◌,
  arith, ap, ◌∙◌, sym, ◌⊎◌, inl, inr, Bool-cases, leb,
}
use titanix.Blocks.{
  Block, block, span, end_of, carve, first_fit, later, InUse, first_fit-take, first_fit-skip,
  first_fit-nil,
}

-- Data in use lies above the headers from `a` on.
pub InUse-lower : (a : ℕ) (bs : List Block) (p n : ℕ) → InUse a bs p n → a + 32 ≤ p
InUse-lower a [] p n h = elim h [ ]
InUse-lower a (b ∷ bs) p n (inl h) = omega arith
InUse-lower a (b ∷ bs) p n (inr h) = omega (arith, InUse-lower (a + span b) bs p n h)

-- The data of two segments in use does not overlap: a header lies between them.
pub InUse-disjoint :
    (a : ℕ) (bs : List Block) (p n q m : ℕ)
    → InUse a bs p n
    → InUse a bs q m
    → p < q
    → p + n + 32 ≤ q
InUse-disjoint a [] p n q m h k lt = elim h [ ]
InUse-disjoint a (b ∷ bs) p n q m (inl h) (inl k) lt = absurd (omega arith)
InUse-disjoint a (b ∷ bs) p n q m (inl h) (inr k) lt =
    omega (arith, InUse-lower (a + span b) bs q m k)
InUse-disjoint a (b ∷ bs) p n q m (inr h) (inl k) lt =
    absurd (omega (arith, InUse-lower (a + span b) bs p n h))
InUse-disjoint a (b ∷ bs) p n q m (inr h) (inr k) lt = InUse-disjoint (a + span b) bs p n q m h k lt

-- What first fit makes of the blocks from `a` on when it answers with `p`.
pub record Taken (n a : ℕ) (bs : List Block) (p : ℕ) (cs : List Block) : Type 0 where
  pub got : (m : ℕ) × (n ≤ m) × (m < n + 48) × InUse a cs p m
  pub fresh : (q m : ℕ) → InUse a bs q m → q ≢ p
  pub kept : (q m : ℕ) → InUse a bs q m → InUse a cs q m
  pub only : (q m : ℕ) → InUse a cs q m → (q ≡ p) ⊎ InUse a bs q m
  pub same_end : end_of a cs ≡ end_of a bs

carve-cut :
    (n : ℕ) (b : Block) (bs : List Block)
    → leb (n + 48) b.length ≡ true
    → carve n b bs ≡ block n false ∷ block (b.length - n - 32) true ∷ bs
unfolding carve
carve-cut n b bs h = rw h

carve_whole :
    (n : ℕ) (b : Block) (bs : List Block)
    → leb (n + 48) b.length ≡ false
    → carve n b bs ≡ block b.length false ∷ bs
unfolding carve
carve_whole n b bs h = rw h

-- A free first segment, cut in two or taken whole.
Taken-cut :
    (n m a : ℕ) (b : Block) (bs : List Block)
    → b.free ≡ true
    → n + 32 + m ≡ b.length
    → Taken n a (b ∷ bs) (a + 32) (block n false ∷ block m true ∷ bs)
Taken-cut n m a b bs free len =
    let z : a + (32 + n) + (32 + m) ≡ a + span b = omega arith in
    record {
      got = (n, omega arith, omega arith, inl (refl, refl, refl));
      fresh = λ q k u. elim u [
        | inl h ↦ cc (h.0)
        | inr h ↦ omega (arith, InUse-lower (a + span b) bs q k h)
      ];
      kept = λ q k u. elim u [ inl h ↦ cc (h.0) | inr h ↦ inr (inr (rw z h)) ];
      only = λ q k u. elim u [
        | inl h ↦ inl h.1
        | inr (inl h) ↦ cc (h.0)
        | inr (inr h) ↦ inr (inr (rw z at h))
      ];
      same_end = ap (λ k. end_of k bs) z;
    }

Taken-whole :
    (n a : ℕ) (b : Block) (bs : List Block)
    → b.free ≡ true
    → n ≤ b.length
    → b.length < n + 48
    → Taken n a (b ∷ bs) (a + 32) (block b.length false ∷ bs)
Taken-whole n a b bs free le lt = record {
  got = (b.length, le, lt, inl (refl, refl, refl));
  fresh = λ q k u. elim u [
    | inl h ↦ cc (h.0)
    | inr h ↦ omega (arith, InUse-lower (a + span b) bs q k h)
  ];
  kept = λ q k u. elim u [ inl h ↦ cc (h.0) | inr h ↦ inr h ];
  only = λ q k u. elim u [ inl h ↦ inl h.1 | inr h ↦ inr (inr h) ];
  same_end = refl;
}

carve-Taken :
    (n a : ℕ) (b : Block) (bs : List Block)
    → (b.free && leb n b.length) ≡ true
    → Taken n a (b ∷ bs) (a + 32) (carve n b bs)
carve-Taken n a b bs fit = elim (Bool-cases (leb (n + 48) b.length)) [
  | inl cut ↦
      rw (carve-cut n b bs cut)
        (Taken-cut n (b.length - n - 32) a b bs (ground arith) (ground arith))
  | inr whole ↦
      rw (carve_whole n b bs whole)
        (Taken-whole n a b bs (ground arith) (ground arith) (ground arith))
]

-- A segment that is passed over changes nothing.
Taken-later :
    (n a : ℕ) (b : Block) (bs : List Block) (p : ℕ) (cs : List Block)
    → Taken n (a + span b) bs p cs
    → a + 64 ≤ p
    → Taken n a (b ∷ bs) p (b ∷ cs)
Taken-later n a b bs p cs t above =
    let (m, le, lt, u) = t.got in
    record {
      got = (m, le, lt, inr u);
      fresh = λ q k u. elim u [ inl h ↦ omega arith | inr h ↦ t.fresh q k h ];
      kept = λ q k u. elim u [ inl h ↦ inl h | inr h ↦ inr (t.kept q k h) ];
      only = λ q k u. elim u [
        | inl h ↦ inr (inl h)
        | inr h ↦ elim (t.only q k h) [ inl e ↦ inl e | inr v ↦ inr (inr v) ]
      ];
      same_end = t.same_end;
    }

later-some :
    (b : Block) (o : Option (ℕ × List Block)) (p : ℕ) (cs : List Block)
    → later b o ≡ some (p, cs)
    → (ds : List Block) × (o ≡ some (p, ds)) × (cs ≡ b ∷ ds)
later-some b none p cs h = cc
later-some b (some (q, ds)) p cs h = (ds, ground arith, ground arith)

-- First fit answers with a segment of at least `n` bytes, and of less than 48 more, whose address
-- was not in use. What was in use stays in use at its address and length, and nothing else is.
pub first_fit-Taken :
    (n a : ℕ) (bs : List Block) (p : ℕ) (cs : List Block)
    → first_fit n a bs ≡ some (p, cs)
    → Taken n a bs p cs
first_fit-Taken n a [] p cs h = cc (first_fit-nil n a)
first_fit-Taken n a (b ∷ bs) p cs h = elim (Bool-cases (b.free && leb n b.length)) [
  | inl fit ↦
      let e = sym (first_fit-take n a b bs fit) ∙ h in
      let at_p : p ≡ a + 32 = ground arith in
      let at_cs : cs ≡ carve n b bs = ground arith in rw (at_p, at_cs) (carve-Taken n a b bs fit)
  | inr no_fit ↦
      let (ds, e, k) = later-some b _ p cs (sym (first_fit-skip n a b bs no_fit) ∙ h) in
      let t = first_fit-Taken n (a + span b) bs p ds e in
      let (m, _, _, u) = t.got in
      rw k (Taken-later n a b bs p ds t (omega (arith, InUse-lower (a + span b) ds p m u)))
]
