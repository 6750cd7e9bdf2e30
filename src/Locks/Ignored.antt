-- ===== src/Locks/Ignored.antt =====
-- `pmm_free_page` at a page inside a section.
use titanix.Base.{
  length, ℕ, zero, suc, ◌+◌, ◌-◌, ◌^◌, ◌<◌, ◌≡◌, ◌≢◌, inl, inr, refl, ◌∙◌, ap, true, false, some,
  List, [], ◌∷◌, ◌++◌, arith, ◌==◌, ltb, add64, sub64,
}
use titanix.Pmm.{Section, Pmm, page_size, section_free}
use titanix.Pmm.Chain.{Range, Entry, In, ranges, section_of, Linked}
use titanix.Pmm.Table.{Holds}
use titanix.Frames.Owner.{Contiguous}
use titanix.Locks.{free_round, free_loop, free_page}
use titanix.Locks.Walk.{NonEmpty, In-behind, Contiguous-behind, free_loop-walk, Linked-behind}

abbrev pub raised : Pmm → Pmm
raised s = record s { free_memory = add64 s.free_memory page_size }

module _ (s : Pmm) (f page : ℕ) (x : Range) (q p n : ℕ) (here : s.section q ≡ section_of x p n)
    (pos : 0 < q) where
  -- The loop passes a section behind the page.
  free_loop-behind : page < x.start → free_loop (suc f) page q s ≡ free_loop f page n s
  unfolding free_loop free_round
  free_loop-behind above =
      let e0 : (q == 0) ≡ false = ground arith in
      let e1 : (x.start == page) ≡ false = ground arith in
      let e3 : ltb x.start page ≡ false = ground arith in simp (e0, here, e1, e3)

  -- And the section that the page lies in, if it is not the last page there.
  free_loop-inside :
      x.free ≢ section_free
      → x.start < page
      → page + page_size < (s.section n).start
      → (s.section n).start < 2 ^ 63
      → free_loop (suc f) page q s ≡ free_loop f page n s
  unfolding free_loop free_round
  free_loop-inside used before below fit =
      let e0 : (q == 0) ≡ false = ground arith in
      let e1 : (x.start == page) ≡ false = ground arith in
      let e2 : ltb page (s.section n).start ≡ true = ground arith in
      let e3 : ltb x.start page ≡ true = ground arith in
      let e4 : (x.free == section_free) ≡ false = ground arith in
      let e5 : (sub64 (s.section n).start page_size == page) ≡ false = ground arith in
      simp (e0, here, e1, e2, e3, e4, e5)

free_loop-rest :
    (f page p : ℕ) (s : Pmm) (y : Entry) (ys : List Entry)
    → Linked s.section p (y ∷ ys)
    → ((q : ℕ) → In q (y ∷ ys) → 0 < q)
    → Contiguous (ranges (y ∷ ys))
    → page < y.range.start
    → length (y ∷ ys) < f
    → free_loop f page y.at s ≡ some (raised s)
unfolding free_loop
free_loop-rest zero page p s y ys l pos c above h = absurd (omega arith)
free_loop-rest (suc zero) page p s y ys l pos c above h = absurd (omega arith)
free_loop-rest (suc (suc f)) page p s y [] l pos c above h =
    free_loop-behind s (suc f) page y.range y.at p 0 l.0 (pos y.at (inl refl)) above
free_loop-rest (suc (suc f)) page p s y (z ∷ ys) l pos c above h =
    free_loop-behind s (suc f) page y.range y.at p z.at l.0 (pos y.at (inl refl)) above
    ∙ free_loop-rest (suc f) page y.at s z ys l.1 (λ q i. pos q (inr i)) c.1 (omega (arith, c.0))
        (omega arith)

-- Where pages are given out, the sections are contiguous and none is empty: to free a page inside
-- a section `e` that is not free and not the last, neither in the first page there nor in the
-- last, on fuel above the number of sections returns, and leaves every section as it was; but
-- `free_memory` counts a page more.
pub free_page-ignored :
    (fuel page : ℕ) (s : Pmm) (xs : List Entry) (e b : Entry) (ys : List Entry)
    → s.allowing ≡ true
    → Holds s (xs ++ e ∷ b ∷ ys)
    → Contiguous (ranges (xs ++ e ∷ b ∷ ys))
    → NonEmpty (ranges (xs ++ e ∷ b ∷ ys))
    → e.range.free ≢ section_free
    → e.range.start < page
    → page + page_size < b.range.start
    → b.range.start < 2 ^ 63
    → length xs + length ys + 2 < fuel
    → free_page fuel page s ≡ some (raised s)
unfolding free_page
free_page-ignored fuel page s xs e b ys ready v c ne used before below fit h =
    let zs = e ∷ b ∷ ys in
    let k = fuel - length xs - 1 in
    let (p, l) = Linked-behind s.section 0 xs e (b ∷ ys) v.chain in
    let pos : (q : ℕ) → In q (xs ++ zs) → 0 < q = λ q i. (v.old q i).0 in
    let start : (s.section b.at).start ≡ b.range.start = ap (λ (x : Section). x.start) l.1.0 in
    let fuels : fuel ≡ length xs + suc k = omega arith in
    let run : free_loop fuel page s.sections s ≡ some (raised s) =
      ap (λ (n : ℕ). free_loop n page s.sections s) fuels
      ∙ ap (λ (q : ℕ). free_loop (length xs + suc k) page q s) v.first
      ∙ free_loop-walk (suc k) page 0 s xs e (b ∷ ys) v.chain pos c ne (omega arith)
      ∙ free_loop-inside s k page e.range e.at p b.at l.0
          (pos e.at (In-behind xs zs e.at (inl refl))) used before (omega arith) (omega arith)
      ∙ free_loop-rest k page e.at s b ys l.1 (λ q i. pos q (In-behind xs zs q (inr i)))
          (Contiguous-behind xs zs c).1 (omega arith) (omega arith) in
    simp (ready, run)
