-- ===== src/Frames/Take.antt =====
-- The branch of `pmm_alloc_page` that takes a page of a free section.
use mathlib.Core.Path.{subst}
use titanix.Base.{
  ℕ, ◌+◌, ◌*◌, ◌-◌, ◌<◌, ◌≡◌, ◌≢◌, inl, inr, refl, ◌∙◌, ap, sym, true, false, List, ◌∷◌, arith,
  ◌==◌, leb, add64, sub64, mul64,
}
use titanix.Pmm.{Pmm, put, section_size, page_size, section_used, set_free}
use titanix.Pmm.Chain.{Entry, In, ranges, Distinct, Linked, Linked-frame, ne_of_In}
use titanix.Pmm.Table.{Old, top, Table}
use titanix.Frames.{section_split, take_page}
use titanix.Frames.Split.{section_split-Cut, cut_off}
use titanix.Frames.Done.{Done, AllFit, same_of}

module _ (s : Pmm) (p : ℕ) (a e : Entry) (ys : List Entry) where
  abbrev pub ls_used : List Entry
  ls_used =
      record { at = a.at; range = record a.range { pages = a.range.pages + 1 } }
      ∷ record {
        at = e.at;
        range = record {
          start = e.range.start + page_size;
          pages = e.range.pages - 1;
          free = e.range.free;
        };
      }
      ∷ ys

  -- A page for the used section before it.
  pub take_page-used :
      Linked s.section p (a ∷ e ∷ ys)
      → Distinct (a ∷ e ∷ ys)
      → AllFit (ranges (a ∷ e ∷ ys))
      → a.range.free ≡ section_used
      → e.range.pages ≢ 0
      → Done s (take_page e.at s) p (a ∷ e ∷ ys) (ranges ls_used)
  unfolding take_page
  take_page-used (ha, (he, c)) (oa, (oe, d)) (fa, (fe, _)) used ne =
      let ae : (a.at == e.at) ≡ false = let n : a.at ≢ e.at = λ x. oa (inl x) in ground arith in
      let ea : (e.at == a.at) ≡ false = ground arith in
      let aa : (a.at == a.at) ≡ true = ground arith in
      let ee : (e.at == e.at) ≡ true = ground arith in
      let u : (a.range.free == section_used) ≡ true = ground arith in
      let more : add64 a.range.pages 1 ≡ a.range.pages + 1 = omega arith in
      let less : sub64 e.range.pages 1 ≡ e.range.pages - 1 = omega arith in
      let up : add64 e.range.start page_size ≡ e.range.start + page_size = omega arith in
      let s' = take_page e.at s in
      let away : (q : ℕ) → q ≢ a.at → q ≢ e.at → s'.section q ≡ s.section q = λ q qa qe.
        let ta : (q == a.at) ≡ false = ground arith in
        let te : (q == e.at) ≡ false = ground arith in simp (ha, he, u, ae, ea, aa, ee, ta, te) in
      record {
        entries = ls_used;
        is_ranges = refl;
        chain = (
          simp (ha, he, u, ae, ea, aa, ee, more),
          (
            simp (ha, he, u, ae, ea, aa, ee, less, up),
            Linked-frame s.section s'.section e.at ys
                (λ q i. away q (λ x. oa (inr (subst (λ y. In y ys) x i))) (ne_of_In q e.at ys i oe))
                c,
          ),
        );
        first = refl;
        distinct = (oa, (oe, d));
        inside = λ q i. inl i;
        grown = inl (simp (ha, he, u));
        outside = λ q o _. away q (λ x. o (inl x)) (λ x. o (inr (inl x)));
        same = simp (ha, he, u);
      }

  abbrev pub ls_single : List Entry
  ls_single = a ∷ record { at = e.at; range = record e.range { free = section_used } } ∷ ys

  -- The only page of the section becomes used.
  pub take_page-single :
      Linked s.section p (a ∷ e ∷ ys)
      → Distinct (a ∷ e ∷ ys)
      → AllFit (ranges (a ∷ e ∷ ys))
      → a.range.free ≢ section_used
      → e.range.pages ≡ 1
      → Done s (take_page e.at s) p (a ∷ e ∷ ys) (ranges ls_single)
  unfolding take_page section_split
  take_page-single (ha, (he, c)) (oa, (oe, d)) (fa, (fe, _)) unused one =
      let u : (a.range.free == section_used) ≡ false = ground arith in
      let ae : (a.at == e.at) ≡ false = let n : a.at ≢ e.at = λ x. oa (inl x) in ground arith in
      let ee : (e.at == e.at) ≡ true = ground arith in
      let whole : leb (add64 e.range.start (mul64 1 page_size)) (add64 e.range.start page_size)
          ≡ true =
        ground arith in
      let s' = take_page e.at s in
      let run : s' ≡ set_free e.at section_used s = simp (ha, he, u, one, whole) in
      let away : (q : ℕ) → q ≢ e.at → s'.section q ≡ s.section q =
        λ q qe. let te : (q == e.at) ≡ false = ground arith in simp (ha, he, u, one, whole, te) in
      record {
        entries = ls_single;
        is_ranges = refl;
        chain = (
          simp (ha, he, u, one, whole, ae),
          (
            simp (ha, he, u, one, whole, ee),
            Linked-frame s.section s'.section e.at ys (λ q i. away q (ne_of_In q e.at ys i oe)) c,
          ),
        );
        first = refl;
        distinct = (oa, (oe, d));
        inside = λ q i. inl i;
        grown = inl (simp (ha, he, u, one, whole));
        outside = λ q o _. away q (λ x. o (inr (inl x)));
        same = simp (ha, he, u, one, whole);
      }

  abbrev pub ls_split : List Entry
  ls_split =
      a
      ∷ record { at = e.at; range = record e.range { pages = 1; free = section_used } }
      ∷ record { at = top s; range = cut_off 1 e.range }
      ∷ ys

  -- The first page of the section is cut off.
  pub take_page-split :
      Table s
      → s.section_head * section_size < s.data_size
      → Old s (a ∷ e ∷ ys)
      → Linked s.section p (a ∷ e ∷ ys)
      → Distinct (a ∷ e ∷ ys)
      → AllFit (ranges (a ∷ e ∷ ys))
      → a.range.free ≢ section_used
      → 1 < e.range.pages
      → Done s (take_page e.at s) p (a ∷ e ∷ ys) (ranges ls_split)
  unfolding take_page
  take_page-split t room old (ha, (he, c)) (oa, (oe, d)) (fa, (fe, _)) unused many =
      let u : (a.range.free == section_used) ≡ false = ground arith in
      let ee : (e.at == e.at) ≡ true = ground arith in
      let at_idx : add64 e.range.start page_size ≡ e.range.start + 1 * page_size = omega arith in
      let s1 = section_split e.at (e.range.start + 1 * page_size) s in
      let cut =
        section_split-Cut s a.at 1 e ys t room (he, c) (oe, d) (λ q i. old q (inr i)) many
          (omega arith) in
      let s' = take_page e.at s in
      let run : s' ≡ set_free e.at section_used s1 = simp (ha, he, u, at_idx) in
      let away : (q : ℕ) → (In q (e ∷ ys) → ⊥) → q ≢ top s → s'.section q ≡ s.section q = λ q o qt.
        let te : (q == e.at) ≡ false = let n : q ≢ e.at = λ x. o (inl x) in ground arith in
        ap (λ (x : Pmm). x.section q) run ∙ (simp te) ∙ cut.outside q o qt in
      let tail : (q : ℕ) → q ≢ e.at → s'.section q ≡ s1.section q = λ q n.
        let te : (q == e.at) ≡ false = ground arith in
        ap (λ (x : Pmm). x.section q) run ∙ simp te in
      let (he1, (hn1, c1)) = cut.chain in
      let at_e : s'.section e.at ≡ record (s1.section e.at) { free = section_used } =
        ap (λ (x : Pmm). x.section e.at) run ∙ simp ee in
      let not_top : (q : ℕ) → In q (a ∷ e ∷ ys) → q ≢ top s =
        λ q i. let (_, l) = old q i in omega arith in
      let head_up : s'.section_head ≡ s.section_head + 1 =
        ap (λ (x : Pmm). x.section_head) run ∙ ap (λ (x : Pmm). x.section_head) cut.same in
      record {
        entries = ls_split;
        is_ranges = refl;
        chain = (
          away a.at oa (not_top a.at (inl refl)) ∙ ha,
          (
            at_e ∙ rw he1 refl,
            (
              tail (top s) (λ x. not_top e.at (inr (inl refl)) (sym x)) ∙ hn1,
              Linked-frame s1.section s'.section (top s) ys
                  (λ q i. tail q (ne_of_In q e.at ys i oe)) c1,
            ),
          ),
        );
        first = refl;
        distinct = (
          λ i. elim i [
            | inl x ↦ oa (inl x)
            | inr j ↦ elim j [ inl x ↦ not_top a.at (inl refl) x | inr k ↦ oa (inr k) ]
          ],
          (
            λ i. elim i [ inl x ↦ not_top e.at (inr (inl refl)) x | inr j ↦ oe j ],
            (λ i. not_top (top s) (inr (inr i)) refl, d),
          ),
        );
        inside = λ q i. elim i [
          | inl x ↦ inl (inl x)
          | inr j ↦ elim j [
            | inl x ↦ inl (inr (inl x))
            | inr k ↦ elim k [ inl x ↦ inr (x, head_up) | inr l ↦ inl (inr (inr l)) ]
          ]
        ];
        grown = inr head_up;
        outside = λ q o w.
            away q (λ i. o (inr i))
              (elim w [ inl n ↦ n | inr g ↦ absurd (omega (arith, g, head_up)) ]);
        same =
            same_of s s' (s.section_head + 1)
              (put s1.section e.at (record (s1.section e.at) { free = section_used }))
              (run
                ∙ ap
                    (λ (x : Pmm). record x {
                      section =
                          put s1.section e.at (record (s1.section e.at) { free = section_used });
                    })
                    cut.same);
      }
