-- ===== src/Frames/Alloc.antt =====
-- `pmm_alloc_page` on the list of sections is the scan of its ranges.
use titanix.Base.{
  length, ℕ, zero, suc, ◌*◌, ◌<◌, ◌≡◌, ◌≢◌, inl, inr, refl, ◌∙◌, ap, true, false, some, List, [],
  ◌∷◌, arith, ◌==◌, sub64, Bool-cases,
}
use titanix.Pmm.{Pmm, section_size, page_size, section_used, section_free}
use titanix.Pmm.Chain.{Range, Entry, ranges, Distinct, head_at, section_of, Linked}
use titanix.Pmm.Table.{Old, Holds, Table}
use titanix.Frames.{drop_section, take_page, alloc_loop}
use titanix.Frames.Scan.{grab, Finds}
use titanix.Frames.Done.{Done, AllFit, Done-skip, Done-Holds}
use titanix.Frames.Take.{take_page-used, take_page-single, take_page-split}
use titanix.Frames.Drop.{drop_section-Dropped, Done-drop, Linked-drop, Table-drop}
use titanix.Frames.Scan.{Finds-nil, Finds-cons, first_free, first_free-Finds}
use titanix.Frames.Owner.{Contiguous, Taken, Finds-Taken}
use titanix.Frames.{alloc_page}

module _ (fuel q : ℕ) (s : Pmm) (r : Range) (p n : ℕ) (here : s.section q ≡ section_of r p n)
    (pos : 0 < q) where
  alloc_loop-drop :
      r.pages ≡ 0
      → alloc_loop (suc fuel) q s ≡ alloc_loop fuel (drop_section q s).0 (drop_section q s).1
  unfolding alloc_loop
  alloc_loop-drop z = let e0 : (q == 0) ≡ false = ground arith in simp (e0, here, z)

  alloc_loop-take :
      r.pages ≢ 0
      → r.free ≡ section_free
      → alloc_loop (suc fuel) q s ≡ some (r.start, take_page q s)
  unfolding alloc_loop
  alloc_loop-take z f =
      let e0 : (q == 0) ≡ false = ground arith in
      let e1 : (r.pages == 0) ≡ false = ground arith in simp (e0, here, e1, f)

  alloc_loop-go :
      r.pages ≢ 0 → r.free ≢ section_free → alloc_loop (suc fuel) q s ≡ alloc_loop fuel n s
  unfolding alloc_loop
  alloc_loop-go z f =
      let e0 : (q == 0) ≡ false = ground arith in
      let e1 : (r.pages == 0) ≡ false = ground arith in
      let e2 : (r.free == section_free) ≡ false = ground arith in simp (e0, here, e1, e2)

-- The section is free, and `take_page` does what `grab` says.
take_page-grab :
    (s : Pmm) (p : ℕ) (a e : Entry) (ys : List Entry)
    → Table s
    → s.section_head * section_size < s.data_size
    → Old s (a ∷ e ∷ ys)
    → Linked s.section p (a ∷ e ∷ ys)
    → Distinct (a ∷ e ∷ ys)
    → AllFit (ranges (a ∷ e ∷ ys))
    → e.range.pages ≢ 0
    → Done s (take_page e.at s) p (a ∷ e ∷ ys) (grab a.range e.range (ranges ys))
unfolding grab
take_page-grab s p a e ys t room old l d f ne = elim (Bool-cases (a.range.free == section_used)) [
  | inl u ↦ rw u (take_page-used s p a e ys l d f (ground arith) ne)
  | inr u ↦ elim (Bool-cases (e.range.pages == 1)) [
    | inl one ↦ rw (u, one) (take_page-single s p a e ys l d f (ground arith) (ground arith))
    | inr many ↦
        let two : e.range.pages ≢ 1 = ground arith in
        rw (u, many) (take_page-split s p a e ys t room old l d f (ground arith) (omega arith))
  ]
]

-- The round that takes a page.
take_round :
    (fuel : ℕ) (s : Pmm) (p : ℕ) (a e : Entry) (ys : List Entry) (base : ℕ) (ls : List Range)
    → Table s
    → s.section_head * section_size < s.data_size
    → Old s (a ∷ e ∷ ys)
    → Linked s.section p (a ∷ e ∷ ys)
    → Distinct (a ∷ e ∷ ys)
    → AllFit (ranges (a ∷ e ∷ ys))
    → (e.range.pages ≢ 0)
      × (e.range.free ≡ section_free)
      × (base ≡ e.range.start)
      × (ls ≡ grab a.range e.range (ranges ys))
    → (s' : Pmm) × (alloc_loop (suc fuel) e.at s ≡ some (base, s')) × Done s s' p (a ∷ e ∷ ys) ls
take_round fuel s p a e ys base ls t room old l d f (ne, free, b, k) = (
  take_page e.at s,
  rw b (
      alloc_loop-take fuel e.at s e.range a.at (head_at ys) l.1.0 ((old e.at (inr (inl refl))).0) ne
        free),
  rw k (take_page-grab s p a e ys t room old l d f ne),
)

-- The loop behind the section `a` finds what the scan finds.
pub alloc_loop-Done :
    (fuel : ℕ) (s : Pmm) (p : ℕ) (a : Entry) (es : List Entry) (base : ℕ) (ls : List Range)
    → Table s
    → s.section_head * section_size < s.data_size
    → Old s (a ∷ es)
    → Linked s.section p (a ∷ es)
    → Distinct (a ∷ es)
    → AllFit (ranges (a ∷ es))
    → Finds a.range (ranges es) base ls
    → length es < fuel
    → (s' : Pmm) × (alloc_loop fuel (head_at es) s ≡ some (base, s')) × Done s s' p (a ∷ es) ls
alloc_loop-Done zero s p a es base ls t room old l d f g h = absurd (omega arith)
alloc_loop-Done (suc fuel) s p a [] base ls t room old l d f g h = absurd (Finds-nil g)
alloc_loop-Done (suc fuel) s p a (e ∷ []) base ls t room old l d f g h = elim (Finds-cons g) [
  | inl (z, g') ↦ absurd (Finds-nil g')
  | inr g' ↦ elim g' [
    | inl got ↦ take_round fuel s p a e [] base ls t room old l d f got
    | inr (ne, unfree, ks, b, g'') ↦ absurd (Finds-nil g'')
  ]
]
alloc_loop-Done (suc fuel) s p a (e ∷ b ∷ es) base ls t room old l d f g h =
    let (pos, _) = old e.at (inr (inl refl)) in
    elim (Finds-cons g) [
      | inl (z, g') ↦
          let (r, at_b) = drop_section-Dropped s p a e b es l d in
          let sd = (drop_section e.at s).1 in
          let (ld, dd) = Linked-drop s p a e b es sd l d r in
          let (td, od) = Table-drop s p a e b es sd t old r in
          let heads : sd.section_head ≡ s.section_head = ap (λ (x : Pmm). x.section_head) r.same in
          let sizes : sd.data_size ≡ s.data_size = ap (λ (x : Pmm). x.data_size) r.same in
          let (s', run, done) =
            alloc_loop-Done fuel sd p a (b ∷ es) base ls td (omega arith) od ld dd (f.0, f.1.1) g'
              (omega arith) in
          (
            s',
            alloc_loop-drop fuel e.at s e.range a.at b.at l.1.0 pos z
                ∙ ap (λ (x : ℕ). alloc_loop fuel x sd) at_b
                ∙ run,
            Done-drop s p a e b es sd s' ls l d r done,
          )
      | inr g' ↦ elim g' [
        | inl got ↦ take_round fuel s p a e (b ∷ es) base ls t room old l d f got
        | inr (ne, unfree, ks, bs, g'') ↦
            let (s', run, done) =
              alloc_loop-Done fuel s a.at e (b ∷ es) base ks t room (λ q i. old q (inr i)) l.1 d.1
                f.1 g'' (omega arith) in
            (
              s',
              alloc_loop-go fuel e.at s e.range a.at b.at l.1.0 pos ne unfree ∙ run,
              rw bs (Done-skip s s' p a (e ∷ b ∷ es) ks old l d done),
            )
      ]
    ]

module _ (s : Pmm) (base : ℕ) where
  counted : Pmm → Pmm
  counted s' = record s' { free_memory = sub64 s'.free_memory page_size }

  alloc_page-counted :
      (fuel : ℕ) (s' : Pmm)
      → s.allowing ≡ true
      → 0 < base
      → alloc_loop fuel s.sections s ≡ some (base, s')
      → alloc_page fuel s ≡ some (base, counted s')
  unfolding alloc_page counted
  alloc_page-counted fuel s' ready pos run =
      let e0 : (base == 0) ≡ false = ground arith in simp (ready, run, e0)

-- Where pages are given out, the sections are contiguous ranges whose sums do not wrap, the first
-- of them neither free nor empty, with room in the table for one more record, and the scan of the
-- ranges finds a page at `base`: `pmm_alloc_page` returns `base`, on fuel above the number of
-- sections, and counts a page less of free memory. The sections then are what the scan leaves,
-- which says of every byte of the page, which was free, that it is used, and of every other byte
-- what was said before.
pub alloc_page-Taken :
    (fuel : ℕ) (s : Pmm) (a : Entry) (es : List Entry) (base : ℕ) (ls : List Range)
    → s.allowing ≡ true
    → Holds s (a ∷ es)
    → s.section_head * section_size < s.data_size
    → AllFit (ranges (a ∷ es))
    → Contiguous (ranges (a ∷ es))
    → a.range.free ≢ section_free
    → a.range.pages ≢ 0
    → first_free a.range (ranges es) ≡ some (base, ls)
    → length (a ∷ es) < fuel
    → (s' : Pmm) × (xs : List Entry) × (alloc_page fuel s ≡ some (base, s'))
      × Holds s' xs
      × (ranges xs ≡ ls)
      × Taken a.range (ranges es) base ls
      × (s'.free_memory ≡ sub64 s.free_memory page_size)
      × (s'.allowing ≡ true)
unfolding counted
alloc_page-Taken zero s a es base ls ready v room f c unfree full found h = absurd (omega arith)
alloc_page-Taken (suc fuel) s a es base ls ready v room f c unfree full found h =
    let g = first_free-Finds a.range (ranges es) base ls found in
    let t = Finds-Taken c g in
    let b = t.behind in
    let pos : 0 < base = omega arith in
    let (pos_a, _) = v.old a.at (inl refl) in
    let (s', run, d) =
      alloc_loop-Done fuel s 0 a es base ls v.table room v.old v.chain v.distinct f g
        (omega arith) in
    let start : alloc_loop (suc fuel) s.sections s ≡ some (base, s') =
      ap (λ (x : ℕ). alloc_loop (suc fuel) x s) v.first
      ∙ alloc_loop-go fuel a.at s a.range 0 (head_at es) v.chain.0 pos_a full unfree
      ∙ run in
    (
      counted s base s',
      d.entries,
      alloc_page-counted s base (suc fuel) s' ready pos start,
      let w = Done-Holds s s' (a ∷ es) ls d v in
          record {
            table = record { pos = w.table.pos; fits = w.table.fits; blank = w.table.blank };
            first = w.first;
            chain = w.chain;
            distinct = w.distinct;
            old = w.old;
          },
      d.is_ranges,
      t,
      ap (λ (x : Pmm). sub64 x.free_memory page_size) d.same,
      ap (λ (x : Pmm). x.allowing) d.same ∙ ready,
    )
