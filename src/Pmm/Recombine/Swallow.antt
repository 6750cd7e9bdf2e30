-- ===== src/Pmm/Recombine/Swallow.antt =====
-- A section that swallows the one behind it, and what calls leave that give out no record.
use titanix.Base.{
  ℕ, ◌+◌, ◌%◌, ◌^◌, ◌<◌, ◌≡◌, ◌≢◌, inl, inr, refl, ◌∙◌, ap, true, false, List, [], ◌∷◌, arith, ◌==◌,
}
use titanix.Pmm.{Pmm, delete_section, join_next}
use titanix.Pmm.Chain.{Range, Entry, In, ranges, Distinct, head_at, Linked, Linked-frame, ne_of_In}
use titanix.Pmm.Table.{Holds}
use titanix.Pmm.Merge.{joined}
use titanix.Frames.Done.{Done, same_of, Done-Holds}

-- What a call that gives out no record leaves: the ranges `ls` in some of the records of `xs`.
pub record Within (s s' : Pmm) (p : ℕ) (xs : List Entry) (ls : List Range) : Type 0 where
  pub entries : List Entry
  pub is_ranges : ranges entries ≡ ls
  pub chain : Linked s'.section p entries
  pub first : head_at entries ≡ head_at xs
  pub distinct : Distinct entries
  pub inside : (q : ℕ) → In q entries → In q xs
  pub outside : (q : ℕ) → (In q xs → ⊥) → s'.section q ≡ s.section q
  pub same : s' ≡ record s { section = s'.section }

pub Within-Done :
    {s s' : Pmm} {p : ℕ} {xs : List Entry} {ls : List Range} (w : Within s s' p xs ls)
    → Done s s' p xs ls
Within-Done {s} {s'} w =
    let heads : s'.section_head ≡ s.section_head = ap (λ (x : Pmm). x.section_head) w.same in
    record {
      entries = w.entries;
      is_ranges = w.is_ranges;
      chain = w.chain;
      first = w.first;
      distinct = w.distinct;
      inside = λ q i. inl (w.inside q i);
      grown = inl heads;
      outside = λ q o h. w.outside q o;
      same = same_of s s' s.section_head s'.section w.same;
    }

pub Within-Holds :
    (s s' : Pmm) (xs : List Entry) (ls : List Range) (w : Within s s' 0 xs ls)
    → Holds s xs
    → Holds s' w.entries
unfolding Within-Done
Within-Holds s s' xs ls w v = Done-Holds s s' xs ls (Within-Done w) v

-- Nothing is done.
pub Within-refl :
    (s : Pmm) (p : ℕ) (xs : List Entry)
    → Linked s.section p xs
    → Distinct xs
    → Within s s p xs (ranges xs)
Within-refl s p xs l d = record {
  entries = xs;
  is_ranges = refl;
  chain = l;
  first = refl;
  distinct = d;
  inside = λ q i. i;
  outside = λ q o. refl;
  same = refl;
}

-- The first section is left as it was.
pub Within-skip :
    (s s' : Pmm) (p : ℕ) (a : Entry) (xs : List Entry) (ls : List Range)
    → Linked s.section p (a ∷ xs)
    → Distinct (a ∷ xs)
    → Within s s' a.at xs ls
    → Within s s' p (a ∷ xs) (a.range ∷ ls)
Within-skip s s' p a xs ls (ha, c) (oa, d) g = record {
  entries = a ∷ g.entries;
  is_ranges = ap (λ (l : List Range). a.range ∷ l) g.is_ranges;
  chain = (g.outside a.at oa ∙ ha ∙ rw g.first refl, g.chain);
  first = refl;
  distinct = ((λ i. oa (g.inside a.at i)), g.distinct);
  inside = λ q i. elim i [ inl x ↦ inl x | inr j ↦ inr (g.inside q j) ];
  outside = λ q o. g.outside q (λ i. o (inr i));
  same = g.same;
}

abbrev pub wide : Entry → Entry → Entry
wide a b = record { at = a.at; range = joined a.range b.range }

-- A section that has swallowed the one behind it.
pub record Swallowed (s s' : Pmm) (p : ℕ) (a b : Entry) (ys : List Entry) : Type 0 where
  pub chain : Linked s'.section p (wide a b ∷ ys)
  pub outside : (q : ℕ) → (In q (a ∷ b ∷ ys) → ⊥) → s'.section q ≡ s.section q
  pub same : s' ≡ record s { section = s'.section }

pub join_next-Swallowed :
    (s : Pmm) (p : ℕ) (a b : Entry) (ys : List Entry)
    → Linked s.section p (a ∷ b ∷ ys)
    → Distinct (a ∷ b ∷ ys)
    → ((q : ℕ) → In q ys → 0 < q)
    → (a.range.pages + b.range.pages) % 2 ^ 64 ≡ a.range.pages + b.range.pages
    → Swallowed s (join_next a.at s) p a b ys
unfolding join_next delete_section
join_next-Swallowed s p a b [] (ha, (hb, c)) (oa, (ob, d)) pos fit =
    let nab : a.at ≢ b.at = λ x. oa (inl x) in
    let ab : (a.at == b.at) ≡ false = ground arith in
    let ba : (b.at == a.at) ≡ false = ground arith in
    let aa : (a.at == a.at) ≡ true = ground arith in
    record {
      chain = (simp (ha, hb, ab, ba, aa, fit), tt);
      outside = λ q o.
          let na : q ≢ a.at = λ x. o (inl x) in
          let nb : q ≢ b.at = λ x. o (inr (inl x)) in
          let ta : (q == a.at) ≡ false = ground arith in
          let tb : (q == b.at) ≡ false = ground arith in simp (ha, hb, ab, ba, aa, ta, tb);
      same = simp (ha, hb, ab, ba, aa);
    }
join_next-Swallowed s p a b (y ∷ ys) (ha, (hb, (hy, c))) (oa, (ob, (oy, d))) pos fit =
    let nab : a.at ≢ b.at = λ x. oa (inl x) in
    let nay : a.at ≢ y.at = λ x. oa (inr (inl x)) in
    let nby : b.at ≢ y.at = λ x. ob (inl x) in
    let py = pos y.at (inl refl) in
    let y0 : (y.at == 0) ≡ false = ground arith in
    let ab : (a.at == b.at) ≡ false = ground arith in
    let ay : (a.at == y.at) ≡ false = ground arith in
    let ba : (b.at == a.at) ≡ false = ground arith in
    let by : (b.at == y.at) ≡ false = ground arith in
    let ya : (y.at == a.at) ≡ false = ground arith in
    let yb : (y.at == b.at) ≡ false = ground arith in
    let aa : (a.at == a.at) ≡ true = ground arith in
    let yy : (y.at == y.at) ≡ true = ground arith in
    let away : (q : ℕ)
        → q ≢ a.at
        → q ≢ b.at
        → q ≢ y.at
        → (join_next a.at s).section q ≡ s.section q =
      λ q na nb ny.
        let ta : (q == a.at) ≡ false = ground arith in
        let tb : (q == b.at) ≡ false = ground arith in
        let ty : (q == y.at) ≡ false = ground arith in
        simp (ha, hb, hy, y0, ab, ay, ba, by, ya, yb, aa, yy, ta, tb, ty) in
    record {
      chain = (
        simp (ha, hb, hy, y0, ab, ay, ba, by, ya, yb, aa, yy, fit),
        (
          simp (ha, hb, hy, y0, ab, ay, ba, by, ya, yb, aa, yy),
          Linked-frame s.section (join_next a.at s).section y.at ys
              (λ q i.
                away q (ne_of_In q a.at ys i (λ j. oa (inr (inr j))))
                  (ne_of_In q b.at ys i (λ j. ob (inr j))) (ne_of_In q y.at ys i oy))
              c,
        ),
      );
      outside = λ q o. away q (λ x. o (inl x)) (λ x. o (inr (inl x))) (λ x. o (inr (inr (inl x))));
      same = simp (ha, hb, hy, y0, ab, ay, ba, by, ya, yb, aa, yy);
    }

pub Within-swallow :
    (s s1 s' : Pmm) (p : ℕ) (a b : Entry) (ys : List Entry) (ls : List Range)
    → Swallowed s s1 p a b ys
    → Within s1 s' p (wide a b ∷ ys) ls
    → Within s s' p (a ∷ b ∷ ys) ls
Within-swallow s s1 s' p a b ys ls w g = record {
  entries = g.entries;
  is_ranges = g.is_ranges;
  chain = g.chain;
  first = g.first;
  distinct = g.distinct;
  inside = λ q i. elim (g.inside q i) [ inl x ↦ inl x | inr j ↦ inr (inr j) ];
  outside =
      λ q o. g.outside q (λ i. o (elim i [ inl x ↦ inl x | inr j ↦ inr (inr j) ])) ∙ w.outside q o;
  same = g.same ∙ ap (λ (x : Pmm). record x { section = s'.section }) w.same;
}

pub Distinct-wide :
    (a b : Entry) (ys : List Entry) → Distinct (a ∷ b ∷ ys) → Distinct (wide a b ∷ ys)
Distinct-wide a b ys (oa, (ob, d)) = ((λ i. oa (inr i)), d)
