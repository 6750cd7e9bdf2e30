-- ===== src/Frames/Drop.antt =====
-- The branch of `pmm_alloc_page` that takes a section without pages out of the list.
use titanix.Base.{
  ℕ, ◌+◌, ◌*◌, ◌≤◌, ◌≡◌, ◌≢◌, inl, inr, refl, ◌∙◌, ap, sym, true, false, List, ◌∷◌, arith, ◌==◌,
}
use titanix.Pmm.{Section, Pmm, section_size, delete_section}
use titanix.Pmm.Chain.{Range, Entry, Distinct, head_at, section_of, Linked, Linked-frame, ne_of_In}
use titanix.Pmm.Table.{Old, top, Table}
use titanix.Frames.{drop_section}
use titanix.Frames.Done.{Done, same_of}

module _ (s : Pmm) (p : ℕ) (a e b : Entry) (ys : List Entry) where
  -- A section that is taken out of the list.
  pub record Dropped (s' : Pmm) : Type 0 where
    pub front : s'.section a.at ≡ section_of a.range p b.at
    pub back : s'.section b.at ≡ section_of b.range a.at (head_at ys)
    pub away : (q : ℕ) → q ≢ a.at → q ≢ e.at → q ≢ b.at → s'.section q ≡ s.section q
    pub same : s' ≡ record s { section = s'.section }

  pub drop_section-Dropped :
      Linked s.section p (a ∷ e ∷ b ∷ ys)
      → Distinct (a ∷ e ∷ b ∷ ys)
      → Dropped (drop_section e.at s).1 × ((drop_section e.at s).0 ≡ b.at)
  unfolding drop_section delete_section
  drop_section-Dropped (ha, (he, (hb, c))) (oa, (oe, (ob, d))) =
      let nae : a.at ≢ e.at = λ x. oa (inl x) in
      let nab : a.at ≢ b.at = λ x. oa (inr (inl x)) in
      let neb : e.at ≢ b.at = λ x. oe (inl x) in
      let ae : (a.at == e.at) ≡ false = ground arith in
      let ab : (a.at == b.at) ≡ false = ground arith in
      let eb : (e.at == b.at) ≡ false = ground arith in
      let ea : (e.at == a.at) ≡ false = ground arith in
      let ba : (b.at == a.at) ≡ false = ground arith in
      let be : (b.at == e.at) ≡ false = ground arith in
      let aa : (a.at == a.at) ≡ true = ground arith in
      let bb : (b.at == b.at) ≡ true = ground arith in
      (
        record {
          front = simp (ha, he, hb, ae, ab, eb, ea, ba, be, aa, bb);
          back = simp (ha, he, hb, ae, ab, eb, ea, ba, be, aa, bb);
          away = λ q qa qe qb.
              let ta : (q == a.at) ≡ false = ground arith in
              let te : (q == e.at) ≡ false = ground arith in
              let tb : (q == b.at) ≡ false = ground arith in
              simp (ha, he, hb, ae, ab, eb, ea, ba, be, aa, bb, ta, te, tb);
          same = refl;
        },
        simp (ha, he, hb, ae, ab, eb, ea, ba, be, aa, bb),
      )

  -- A call on the list without the section is one on the list with it.
  pub Done-drop :
      (s' s'' : Pmm) (ls : List Range)
      → Linked s.section p (a ∷ e ∷ b ∷ ys)
      → Distinct (a ∷ e ∷ b ∷ ys)
      → Dropped s'
      → Done s' s'' p (a ∷ b ∷ ys) ls
      → Done s s'' p (a ∷ e ∷ b ∷ ys) ls
  Done-drop s' s'' ls l d r g =
      let tops : top s' ≡ top s = ap top r.same in
      let heads : s'.section_head ≡ s.section_head = ap (λ (x : Pmm). x.section_head) r.same in
      record {
        entries = g.entries;
        is_ranges = g.is_ranges;
        chain = g.chain;
        first = g.first;
        distinct = g.distinct;
        inside = λ q i. elim (g.inside q i) [
          | inl j ↦ inl (elim j [ inl x ↦ inl x | inr k ↦ inr (inr k) ])
          | inr w ↦ inr (w.0 ∙ tops, w.1 ∙ ap (λ (n : ℕ). n + 1) heads)
        ];
        grown = elim g.grown [
          | inl h ↦ inl (h ∙ heads)
          | inr h ↦ inr (h ∙ ap (λ (n : ℕ). n + 1) heads)
        ];
        outside = λ q o w.
            g.outside q (λ i. o (elim i [ inl x ↦ inl x | inr k ↦ inr (inr k) ]))
              (elim w [ inl n ↦ inl (λ x. n (x ∙ tops)) | inr h ↦ inr (h ∙ sym heads) ])
            ∙ r.away q (λ x. o (inl x)) (λ x. o (inr (inl x))) (λ x. o (inr (inr (inl x))));
        same = same_of s s'' s''.section_head s''.section (
            g.same
            ∙ ap (λ (x : Pmm). record x { section_head = s''.section_head; section = s''.section })
                r.same);
      }

  pub Linked-drop :
      (s' : Pmm)
      → Linked s.section p (a ∷ e ∷ b ∷ ys)
      → Distinct (a ∷ e ∷ b ∷ ys)
      → Dropped s'
      → Linked s'.section p (a ∷ b ∷ ys) × Distinct (a ∷ b ∷ ys)
  Linked-drop s' (ha, (he, (hb, c))) (oa, (oe, (ob, d))) r = (
    (
      r.front,
      (
        r.back,
        Linked-frame s.section s'.section b.at ys
            (λ q i.
              r.away q (ne_of_In q a.at ys i (λ j. oa (inr (inr j))))
                (ne_of_In q e.at ys i (λ j. oe (inr j))) (ne_of_In q b.at ys i ob))
            c,
      ),
    ),
    ((λ i. oa (inr i)), (ob, d)),
  )

  pub Table-drop :
      (s' : Pmm) → Table s → Old s (a ∷ e ∷ b ∷ ys) → Dropped s' → Table s' × Old s' (a ∷ b ∷ ys)
  Table-drop s' t old r =
      let tops : top s' ≡ top s = ap top r.same in
      let off : (q : ℕ) → top s ≤ q → s'.section q ≡ s.section q = λ q h.
        r.away q (let (_, l) = old a.at (inl refl) in omega arith)
          (let (_, l) = old e.at (inr (inl refl)) in omega arith)
          (let (_, l) = old b.at (inr (inr (inl refl))) in omega arith) in
      let heads : s'.section_head ≡ s.section_head = ap (λ (x : Pmm). x.section_head) r.same in
      let bases : s'.sections ≡ s.sections = ap (λ (x : Pmm). x.sections) r.same in
      let sizes : s'.data_size ≡ s.data_size = ap (λ (x : Pmm). x.data_size) r.same in
      (
        record {
          pos = omega (arith, t.pos);
          fits = omega (arith, t.fits);
          blank = λ i h h'.
              let (x, y) = t.blank i (omega arith) (omega arith) in
              let e1 : s'.section (s'.sections + i * section_size)
                  ≡ s.section (s.sections + i * section_size) =
                ap (λ (n : ℕ). s'.section (n + i * section_size)) bases
                ∙ off (s.sections + i * section_size) (omega arith) in
              (ap (λ (z : Section). z.prev) e1 ∙ x, ap (λ (z : Section). z.next) e1 ∙ y);
        },
        λ q i.
            let (x, y) = old q (elim i [ inl z ↦ inl z | inr k ↦ inr (inr k) ]) in (x, omega arith),
      )
