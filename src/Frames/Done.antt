-- ===== src/Frames/Done.antt =====
-- What a call on the list of sections leaves: other ranges, in the same records and one new one.
use mathlib.Core.Path.{subst}
use titanix.Base.{
  ℕ, ◌+◌, ◌*◌, ◌^◌, ◌<◌, ◌≤◌, ◌≡◌, ◌≢◌, ◌⊎◌, inl, inr, refl, ◌∙◌, ap, sym, List, [], ◌∷◌, arith,
}
use titanix.Pmm.{Section, Store, Pmm, section_size, page_size}
use titanix.Pmm.Chain.{Range, Entry, In, ranges, Distinct, head_at, Linked}
use titanix.Pmm.Table.{Old, Holds, top}

-- No range reaches far: the sums of the code do not wrap.
abbrev pub AllFit : List Range → Type 0
AllFit [] = Unit {0}
AllFit (r ∷ rs) = (r.start + r.pages * page_size + page_size < 2 ^ 63) × AllFit rs

-- What a call that works on the records of `xs` leaves: the list of the ranges `ls`, in these records
-- and at most the one new one.
pub record Done (s s' : Pmm) (p : ℕ) (xs : List Entry) (ls : List Range) : Type 0 where
  pub entries : List Entry
  pub is_ranges : ranges entries ≡ ls
  pub chain : Linked s'.section p entries
  pub first : head_at entries ≡ head_at xs
  pub distinct : Distinct entries
  pub inside :
      (q : ℕ) → In q entries → In q xs ⊎ (q ≡ top s) × (s'.section_head ≡ s.section_head + 1)
  pub grown : (s'.section_head ≡ s.section_head) ⊎ (s'.section_head ≡ s.section_head + 1)
  pub outside :
      (q : ℕ)
      → (In q xs → ⊥)
      → (q ≢ top s) ⊎ (s'.section_head ≡ s.section_head)
      → s'.section q ≡ s.section q
  pub same : s' ≡ record s { section_head = s'.section_head; section = s'.section }

pub same_of :
    (s s' : Pmm) (h : ℕ) (g : Store)
    → s' ≡ record s { section_head = h; section = g }
    → s' ≡ record s { section_head = s'.section_head; section = s'.section }
same_of s s' h g e =
    subst (λ x. x ≡ record s { section_head = x.section_head; section = x.section }) (sym e) refl

-- A step before the call, and one record more in front of it.
module _ (s s' : Pmm) (p : ℕ) (a : Entry) where
  -- The section before the list is left as it was.
  pub Done-skip :
      (xs : List Entry) (ls : List Range)
      → Old s (a ∷ xs)
      → Linked s.section p (a ∷ xs)
      → Distinct (a ∷ xs)
      → Done s s' a.at xs ls
      → Done s s' p (a ∷ xs) (a.range ∷ ls)
  Done-skip xs ls old (ha, c) (oa, d) g =
      let not_top : a.at ≢ top s = let (_, l) = old a.at (inl refl) in omega arith in
      record {
        entries = a ∷ g.entries;
        is_ranges = ap (λ (l : List Range). a.range ∷ l) g.is_ranges;
        chain = (g.outside a.at oa (inl not_top) ∙ ha ∙ rw g.first refl, g.chain);
        first = refl;
        distinct = (λ i. elim (g.inside a.at i) [ inl j ↦ oa j | inr w ↦ not_top w.0 ], g.distinct);
        inside = λ q i. elim i [
          | inl x ↦ inl (inl x)
          | inr j ↦ elim (g.inside q j) [ inl k ↦ inl (inr k) | inr w ↦ inr w ]
        ];
        grown = g.grown;
        outside = λ q o w. g.outside q (λ i. o (inr i)) w;
        same = g.same;
      }

-- Such a call leaves a state that holds the new list.
pub Done-Holds :
    (s s' : Pmm) (xs : List Entry) (ls : List Range) (d : Done s s' 0 xs ls)
    → Holds s xs
    → Holds s' d.entries
Done-Holds s s' xs ls d v =
    let bases : s'.sections ≡ s.sections = ap (λ (x : Pmm). x.sections) d.same in
    let sizes : s'.data_size ≡ s.data_size = ap (λ (x : Pmm). x.data_size) d.same in
    let tops : top s ≤ top s' = elim d.grown [ inl h ↦ omega arith | inr h ↦ omega arith ] in
    let t = v.table in
    let heads : s.section_head ≤ s'.section_head = elim d.grown [
      | inl h ↦ omega arith
      | inr h ↦ omega arith
    ] in
    let same_at : (i : ℕ)
        → s'.section_head ≤ i
        → s'.section (s.sections + i * section_size) ≡ s.section (s.sections + i * section_size) =
      λ i h.
        d.outside (s.sections + i * section_size)
          (λ j. let (_, l) = v.old (s.sections + i * section_size) j in omega arith)
          (elim d.grown [ inl e ↦ inr e | inr e ↦ inl (omega arith) ]) in
    record {
      table = record {
        pos = omega (arith, t.pos);
        fits = omega (arith, t.fits);
        blank = λ i h h'.
            let (x, y) = t.blank i (omega arith) (omega arith) in
            let e1 : s'.section (s'.sections + i * section_size)
                ≡ s.section (s.sections + i * section_size) =
              ap (λ (n : ℕ). s'.section (n + i * section_size)) bases ∙ same_at i h in
            (ap (λ (z : Section). z.prev) e1 ∙ x, ap (λ (z : Section). z.next) e1 ∙ y);
      };
      first = bases ∙ v.first ∙ sym d.first;
      chain = d.chain;
      distinct = d.distinct;
      old = λ q i. elim (d.inside q i) [
        | inl j ↦ let (x, y) = v.old q j in (x, omega arith)
        | inr w ↦ let (e, g) = w in let pos = t.pos in (omega arith, omega arith)
      ];
    }
