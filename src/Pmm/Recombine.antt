-- ===== src/Pmm/Recombine.antt =====
-- `pmm_recombine` on the list of sections: it ends, and no two neighbours have one type.
pub mod Swallow
use mathlib.Core.Path.{subst}
use titanix.Base.{
  ◌≤◌, length, ℕ, zero, suc, ◌+◌, ◌*◌, ◌<◌, ◌≡◌, ◌≢◌, inl, inr, refl, ◌∙◌, ap, sym, true, false,
  Option, some, List, [], ◌∷◌, arith, ◌==◌, Bool-cases,
}
use titanix.Pmm.{Section, Pmm, page_size, join_next, recombine_pass, recombine_loop, recombine}
use titanix.Pmm.Chain.{Range, Entry, In, ranges, Distinct, head_at, section_of, Linked}
use titanix.Pmm.Table.{Holds}
use titanix.Pmm.Merge.{After, Merged, Pairs, Pairs-nil, Pairs-one, Pairs-skip, Pairs-join, joined}
use titanix.Frames.Owner.{Contiguous, Contiguous-tail, type_at}
use titanix.Frames.Done.{AllFit}
use titanix.Pmm.Recombine.Swallow.{
  Within, Within-Holds, Within-refl, Within-skip, wide, join_next-Swallowed, Within-swallow,
  Distinct-wide,
}
use titanix.Pmm.Chain.{length-ranges}

-- What a pass of the inner loop is on the list.
abbrev Passed : (fuel d : ℕ) (s : Pmm) (p : ℕ) (xs : List Entry) → Type 0
Passed fuel d s p xs =
    (d' : ℕ) × (ls : List Range) × (s' : Pmm) × (recombine_pass fuel (head_at xs) d s
      ≡ some (d', s'))
    × Within s s' p xs ls
    × Pairs d (ranges xs) d' ls

module _ (fuel d : ℕ) (s : Pmm) (p : ℕ) (a b : Entry) (ys : List Entry)
    (here : s.section a.at ≡ section_of a.range p b.at)
    (next : s.section b.at ≡ section_of b.range a.at (head_at ys)) (pa : 0 < a.at)
    (pb : 0 < b.at) where
  pass-skip :
      a.range.free ≢ b.range.free
      → recombine_pass (suc fuel) a.at d s ≡ recombine_pass fuel b.at d s
  unfolding recombine_pass
  pass-skip ne =
      let e0 : (a.at == 0) ≡ false = ground arith in
      let e1 : (b.at == 0) ≡ false = ground arith in
      let e2 : (a.range.free == b.range.free) ≡ false = ground arith in
      simp (e0, here, e1, next, e2)

  pass-join :
      a.range.free ≡ b.range.free
      → recombine_pass (suc fuel) a.at d s
        ≡ recombine_pass fuel ((join_next a.at s).section a.at).next 1 (join_next a.at s)
  unfolding recombine_pass
  pass-join same =
      let e0 : (a.at == 0) ≡ false = ground arith in
      let e1 : (b.at == 0) ≡ false = ground arith in
      let e2 : (b.range.free == b.range.free) ≡ true = ground arith in
      simp (e0, here, e1, next, same, e2)

Contiguous-After :
    (r : Range) (rs : List Range) → Contiguous (r ∷ rs) → After (r.start + r.pages * page_size) rs
Contiguous-After r [] c = tt
Contiguous-After r (q ∷ rs) c = c.0

recombine_pass-Passed :
    (fuel d : ℕ) (s : Pmm) (p : ℕ) (xs : List Entry)
    → Linked s.section p xs
    → Distinct xs
    → ((q : ℕ) → In q xs → 0 < q)
    → AllFit (ranges xs)
    → Contiguous (ranges xs)
    → length xs < fuel
    → Passed fuel d s p xs
unfolding recombine_pass
recombine_pass-Passed zero d s p xs l ds pos f c h = absurd (omega arith)
recombine_pass-Passed (suc fuel) d s p [] l ds pos f c h =
    (d, [], s, refl, Within-refl s p [] l ds, Pairs-nil d)
recombine_pass-Passed (suc fuel) d s p (a ∷ []) l ds pos f c h =
    let pa = pos a.at (inl refl) in
    let e0 : (a.at == 0) ≡ false = ground arith in
    (d, a.range ∷ [], s, simp (e0, l.0), Within-refl s p (a ∷ []) l ds, Pairs-one d a.range f)
recombine_pass-Passed (suc fuel) d s p (a ∷ b ∷ ys) l ds pos f c h =
    let pa = pos a.at (inl refl) in
    let pb = pos b.at (inr (inl refl)) in
    let fa = f.0 in
    let fb = f.1.0 in
    let j = c.0 in
    elim (Bool-cases (a.range.free == b.range.free)) [
      | inr other ↦
          let ne : a.range.free ≢ b.range.free = ground arith in
          let (d', ls, s', run, w, g) =
            recombine_pass-Passed fuel d s a.at (b ∷ ys) l.1 ds.1 (λ q i. pos q (inr i)) f.1 c.1
              (omega arith) in
          (
            d',
            a.range ∷ ls,
            s',
            pass-skip fuel d s p a b ys l.0 l.1.0 pa pb ne ∙ run,
            Within-skip s s' p a (b ∷ ys) ls l ds w,
            Pairs-skip d d' a.range b.range (ranges ys) ls j fa ne g,
          )
      | inl alike ↦
          let eq : a.range.free ≡ b.range.free = ground arith in
          let s1 = join_next a.at s in
          let w1 = join_next-Swallowed s p a b ys l ds (λ q i. pos q (inr (inr i))) (omega arith) in
          let ds1 = Distinct-wide a b ys ds in
          let (d', ls, s', run, w, g) =
            recombine_pass-Passed fuel 1 s1 a.at ys w1.chain.1 ds1.1 (λ q i. pos q (inr (inr i)))
              f.1.1 (Contiguous-tail b.range (ranges ys) c.1) (omega arith) in
          (
            d',
            joined a.range b.range ∷ ls,
            s',
            pass-join fuel d s p a b ys l.0 l.1.0 pa pb eq
                ∙ ap (λ (x : Section). recombine_pass fuel x.next 1 s1) w1.chain.0
                ∙ run,
            Within-swallow s s1 s' p a b ys (joined a.range b.range ∷ ls) w1
                (Within-skip s1 s' p (wide a b) ys ls w1.chain ds1 w),
            Pairs-join d d' a.range b.range (ranges ys) ls j
                (Contiguous-After b.range (ranges ys) c.1) fb eq g,
          )
    ]

module _ (rounds fuel : ℕ) (s s' : Pmm) where
  recombine_loop-end :
      recombine_pass fuel s.sections 0 s ≡ some (0, s')
      → recombine_loop (suc rounds) fuel s ≡ some s'
  unfolding recombine_loop
  recombine_loop-end run = rw (recombine_loop, run) refl

  recombine_loop-on :
      recombine_pass fuel s.sections 0 s ≡ some (1, s')
      → recombine_loop (suc rounds) fuel s ≡ recombine_loop rounds fuel s'
  unfolding recombine_loop
  recombine_loop-on run = rw (recombine_loop, run) refl

-- The list that is left says of memory what `rs` does, and is merged.
abbrev pub Result : List Range → Option Pmm → Type 0
Result rs o =
    (s' : Pmm) × (ys : List Entry) × (o ≡ some s')
    × Holds s' ys
    × Merged (ranges ys)
    × AllFit (ranges ys)
    × Contiguous (ranges ys)
    × (length ys ≤ length rs)
    × ((a : ℕ) → type_at (ranges ys) a ≡ type_at rs a)

recombine_loop-Result :
    (rounds fuel : ℕ) (s : Pmm) (xs : List Entry)
    → Holds s xs
    → AllFit (ranges xs)
    → Contiguous (ranges xs)
    → length xs < fuel
    → length xs < rounds
    → Result (ranges xs) (recombine_loop rounds fuel s)
recombine_loop-Result zero fuel s xs v f c h h' = absurd (omega arith)
recombine_loop-Result (suc rounds) fuel s xs v f c h h' =
    let (d', ls, s', run, w, g) =
      recombine_pass-Passed fuel 0 s 0 xs v.chain v.distinct (λ q i. (v.old q i).0) f c h in
    let ys = w.entries in
    let v' = Within-Holds s s' xs ls w v in
    let start : recombine_pass fuel s.sections 0 s ≡ some (d', s') =
      ap (λ (x : ℕ). recombine_pass fuel x 0 s) v.first ∙ run in
    let size = length-ranges xs in
    let size' = length-ranges ys in
    let lengths : length (ranges ys) ≡ length ls = ap (λ (x : List Range). length x) w.is_ranges in
    let types : (a : ℕ) → type_at (ranges ys) a ≡ type_at (ranges xs) a =
      λ a. ap (λ (x : List Range). type_at x a) w.is_ranges ∙ g.types a in
    elim g.change [
      | inl e ↦ (
        s',
        ys,
        recombine_loop-end rounds fuel s s' (rw e.0 at start),
        v',
        subst Merged (sym (w.is_ranges ∙ e.1)) e.2,
        subst AllFit (sym w.is_ranges) g.fit,
        subst Contiguous (sym w.is_ranges) g.contiguous,
        let same : length ls ≡ length (ranges xs) = ap (λ (x : List Range). length x) e.1 in
            omega arith,
        types,
      )
      | inr e ↦
          let (s2, zs, run2, v2, m, f2, c2, l2, t2) =
            recombine_loop-Result rounds fuel s' ys v' (subst AllFit (sym w.is_ranges) g.fit)
              (subst Contiguous (sym w.is_ranges) g.contiguous) (omega (arith, e.1))
              (omega (arith, e.1)) in
          (
            s2,
            zs,
            recombine_loop-on rounds fuel s s' (rw e.0 at start) ∙ run2,
            v2,
            m,
            f2,
            c2,
            omega (arith, e.1),
            λ a. t2 a ∙ types a,
          )
    ]

-- On a list of contiguous sections whose sums do not wrap, and fuel above their number,
-- `pmm_recombine` returns. The sections that it leaves are no more than there were, contiguous, do
-- not wrap, have no two neighbours of one type, and give every byte the type that it had.
pub recombine-Result :
    (fuel : ℕ) (s : Pmm) (xs : List Entry)
    → Holds s xs
    → AllFit (ranges xs)
    → Contiguous (ranges xs)
    → length xs < fuel
    → Result (ranges xs) (recombine fuel s)
unfolding recombine
recombine-Result fuel s xs v f c h = recombine_loop-Result fuel fuel s xs v f c h h
