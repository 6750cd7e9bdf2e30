-- ===== src/Locks/Returned.antt =====
-- `pmm_free_page` at the last page of a used section, behind which a free section lies.
use titanix.Base.{
  length, ℕ, suc, ◌+◌, ◌-◌, ◌*◌, ◌^◌, ◌<◌, ◌≤◌, ◌≡◌, ◌≢◌, inl, inr, refl, ◌∙◌, ap, true, false,
  some, List, [], ◌∷◌, ◌++◌, arith, ◌==◌, ltb, add64, sub64,
}
use mathlib.Core.Path.{subst}
use titanix.Pmm.{Section, Pmm, section_free, page_size, set_start, set_pages}
use titanix.Pmm.Chain.{Range, Entry, In, Distinct, ranges, head_at, Linked, Linked-frame, ne_of_In}
use titanix.Pmm.Table.{Old, Holds}
use titanix.Frames.Owner.{Contiguous}
use titanix.Frames.Done.{Done, Done-skip, Done-Holds}
use titanix.Locks.{goes_on, free_first, free_round, free_loop, free_page}
use titanix.Locks.Walk.{
  NonEmpty, free_loop-stop, In-behind, Contiguous-behind, NonEmpty-behind, free_loop-walk,
  Linked-behind,
}

-- A section without its last page, and one with the page before it.
abbrev pub shrunk : Range → Range
shrunk r = record r { pages = r.pages - 1 }

abbrev pub extended : Range → Range
extended r = record r { start = r.start - page_size; pages = r.pages + 1 }

free_loop-goes_on :
    (s s' : Pmm) (f page q r : ℕ)
    → 0 < q
    → free_round page q s ≡ goes_on r s'
    → free_loop (suc f) page q s ≡ free_loop f page (s'.section r).next s'
unfolding free_loop
free_loop-goes_on s s' f page q r pos e = let z : (q == 0) ≡ false = ground arith in simp (z, e)

-- A section that is free by now.
free_first-free : (s : Pmm) (q : ℕ) → (s.section q).free ≡ section_free → free_first q s ≡ s
unfolding free_first
free_first-free s q h = let e : ((s.section q).free == section_free) ≡ true = ground arith in simp e

Done-behind :
    (s s' : Pmm) (p : ℕ) (xs zs : List Entry) (ls : List Range)
    → Old s (xs ++ zs)
    → Linked s.section p (xs ++ zs)
    → Distinct (xs ++ zs)
    → ((p' : ℕ) → Linked s.section p' zs → Distinct zs → Done s s' p' zs ls)
    → Done s s' p (xs ++ zs) (ranges xs ++ ls)
Done-behind s s' p [] zs ls old l d h = h p l d
Done-behind s s' p (x ∷ xs) zs ls old l d h =
    Done-skip s s' p x (xs ++ zs) (ranges xs ++ ls) old l d
      (Done-behind s s' x.at xs zs ls (λ q i. old q (inr i)) l.1 d.1 h)

Distinct-behind : (xs zs : List Entry) → Distinct (xs ++ zs) → Distinct zs
Distinct-behind [] zs d = d
Distinct-behind (x ∷ xs) zs d = Distinct-behind xs zs d.1

module _ (s : Pmm) (a b : Entry) where
  -- The three assignments.
  abbrev given_back : Pmm
  given_back =
      set_pages a.at (a.range.pages - 1)
        (set_pages b.at (b.range.pages + 1) (set_start b.at (b.range.start - page_size) s))

  free_round-last :
      (p : ℕ) (ys : List Entry) (page : ℕ)
      → Linked s.section p (a ∷ b ∷ ys)
      → a.at ≢ b.at
      → a.range.free ≢ section_free
      → b.range.free ≡ section_free
      → a.range.start < page
      → page + page_size ≡ b.range.start
      → a.range.pages ≢ 0
      → a.range.pages < 2 ^ 63
      → b.range.start < 2 ^ 63
      → b.range.pages < 2 ^ 63
      → free_round page a.at s ≡ goes_on a.at given_back
  unfolding free_round
  free_round-last p ys page (ha, (hb, l)) ne used is_open above last full few fit few' =
      let ab : (a.at == b.at) ≡ false = ground arith in
      let ba : (b.at == a.at) ≡ false = ground arith in
      let aa : (a.at == a.at) ≡ true = ground arith in
      let bb : (b.at == b.at) ≡ true = ground arith in
      let e1 : (a.range.start == page) ≡ false = ground arith in
      let e2 : ltb a.range.start page ≡ true = ground arith in
      let e3 : ltb page b.range.start ≡ true = ground arith in
      let e4 : (a.range.free == section_free) ≡ false = ground arith in
      let e5 : (b.range.free == section_free) ≡ true = ground arith in
      let e6 : sub64 b.range.start page_size ≡ b.range.start - page_size = omega arith in
      let e7 : (b.range.start - page_size == page) ≡ true = ground arith in
      let e8 : add64 b.range.pages 1 ≡ b.range.pages + 1 = omega arith in
      let e9 : sub64 a.range.pages 1 ≡ a.range.pages - 1 = omega arith in
      simp (ha, hb, ab, ba, aa, bb, e1, e2, e3, e4, e5, e6, e7, e8, e9)

  given_back-away : (q : ℕ) → q ≢ a.at → q ≢ b.at → given_back.section q ≡ s.section q
  given_back-away q qa qb =
      let ta : (a.at == q) ≡ false = ground arith in
      let tb : (b.at == q) ≡ false = ground arith in
      let ta' : (q == a.at) ≡ false = ground arith in
      let tb' : (q == b.at) ≡ false = ground arith in simp (ta, tb, ta', tb')

  given_back-chain :
      (p : ℕ) (ys : List Entry)
      → Linked s.section p (a ∷ b ∷ ys)
      → Distinct (a ∷ b ∷ ys)
      → Linked given_back.section p (
          record { at = a.at; range = shrunk a.range }
          ∷ record { at = b.at; range = extended b.range }
          ∷ ys)
  given_back-chain p ys (ha, (hb, l)) (oa, (ob, d)) =
      let ab : (a.at == b.at) ≡ false = let n : a.at ≢ b.at = λ x. oa (inl x) in ground arith in
      let ba : (b.at == a.at) ≡ false = ground arith in
      let aa : (a.at == a.at) ≡ true = ground arith in
      let bb : (b.at == b.at) ≡ true = ground arith in
      (
        simp (ha, hb, ab, ba, aa, bb),
        (
          simp (ha, hb, ab, ba, aa, bb),
          Linked-frame s.section given_back.section b.at ys
              (λ q i.
                given_back-away q (λ x. oa (inr (subst (λ y. In y ys) x i)))
                  (ne_of_In q b.at ys i ob))
              l,
        ),
      )

  given_back-Done :
      (p : ℕ) (ys : List Entry)
      → Linked s.section p (a ∷ b ∷ ys)
      → Distinct (a ∷ b ∷ ys)
      → Done s given_back p (a ∷ b ∷ ys) (shrunk a.range ∷ extended b.range ∷ ranges ys)
  given_back-Done p ys l (oa, (ob, d)) = record {
    entries =
        record { at = a.at; range = shrunk a.range }
        ∷ record { at = b.at; range = extended b.range }
        ∷ ys;
    is_ranges = refl;
    chain = given_back-chain p ys l (oa, (ob, d));
    first = refl;
    distinct = (oa, (ob, d));
    inside = λ q i. inl i;
    grown = inl refl;
    outside = λ q o _. given_back-away q (λ x. o (inl x)) (λ x. o (inr (inl x)));
    same = refl;
  }

  free_loop-last :
      (k p : ℕ) (ys : List Entry) (page : ℕ)
      → Linked s.section p (a ∷ b ∷ ys)
      → Distinct (a ∷ b ∷ ys)
      → free_round page a.at s ≡ goes_on a.at given_back
      → 0 < a.at
      → 0 < b.at
      → b.range.free ≡ section_free
      → page + page_size ≡ b.range.start
      → free_loop (suc (suc k)) page a.at s ≡ some given_back
  free_loop-last k p ys page l d round pos_a pos_b is_open last =
      let (ca, (cb, rest)) = given_back-chain p ys l d in
      let next : (given_back.section a.at).next ≡ b.at = ap (λ (e : Section). e.next) ca in
      free_loop-goes_on s given_back (suc k) page a.at a.at pos_a round
      ∙ ap (λ (q : ℕ). free_loop (suc k) page q given_back) next
      ∙ free_loop-stop given_back k page (extended b.range) b.at a.at (head_at ys) cb pos_b
          (omega arith)
      ∙ ap (λ (x : Pmm). some x)
          (free_first-free given_back b.at (ap (λ (e : Section). e.free) cb ∙ is_open))

-- Where pages are given out, the sections are contiguous and none is empty: to free the last page of
-- a section `a` of more than a page that is not free, behind which a free section `b` lies, on fuel
-- for the sections up to `b` returns. The page has gone from `a` to `b`, and `free_memory` is what
-- it was.
pub free_page-last :
    (fuel page : ℕ) (s : Pmm) (xs : List Entry) (a b : Entry) (ys : List Entry)
    → s.allowing ≡ true
    → Holds s (xs ++ a ∷ b ∷ ys)
    → Contiguous (ranges (xs ++ a ∷ b ∷ ys))
    → NonEmpty (ranges (xs ++ a ∷ b ∷ ys))
    → a.range.free ≢ section_free
    → b.range.free ≡ section_free
    → a.range.start < page
    → page + page_size ≡ b.range.start
    → b.range.start + b.range.pages * page_size < 2 ^ 63
    → length xs + 2 ≤ fuel
    → (s' : Pmm) × (zs : List Entry) × (free_page fuel page s ≡ some s')
      × Holds s' zs
      × (ranges zs ≡ ranges xs ++ shrunk a.range ∷ extended b.range ∷ ranges ys)
      × (s'.free_memory ≡ s.free_memory)
unfolding free_page
free_page-last fuel page s xs a b ys ready v c ne used is_open above last fit h =
    let zs = a ∷ b ∷ ys in
    let k = fuel - length xs - 2 in
    let (p, l) = Linked-behind s.section 0 xs a (b ∷ ys) v.chain in
    let d = Distinct-behind xs zs v.distinct in
    let pos : (q : ℕ) → In q (xs ++ zs) → 0 < q = λ q i. (v.old q i).0 in
    let fuels : fuel ≡ length xs + suc (suc k) = omega arith in
    let c' = Contiguous-behind xs zs c in
    let ne' = NonEmpty-behind xs zs ne in
    let round =
      free_round-last s a b p ys page l (λ x. d.0 (inl x)) used is_open above last ne'.0
        (omega (arith, c'.0)) (omega arith) (omega arith) in
    let s' = given_back s a b in
    let run : free_loop fuel page s.sections s ≡ some s' =
      ap (λ (n : ℕ). free_loop n page s.sections s) fuels
      ∙ ap (λ (q : ℕ). free_loop (length xs + suc (suc k)) page q s) v.first
      ∙ free_loop-walk (suc (suc k)) page 0 s xs a (b ∷ ys) v.chain pos c ne (omega arith)
      ∙ free_loop-last s a b k p ys page l d round (pos a.at (In-behind xs zs a.at (inl refl)))
          (pos b.at (In-behind xs zs b.at (inr (inl refl)))) is_open last in
    let done =
      Done-behind s s' 0 xs zs (shrunk a.range ∷ extended b.range ∷ ranges ys) v.old v.chain
        v.distinct (λ p' l' d'. given_back-Done s a b p' ys l' d') in
    (
      s',
      done.entries,
      simp (ready, run),
      Done-Holds s s' (xs ++ zs) (ranges xs ++ shrunk a.range ∷ extended b.range ∷ ranges ys) done
          v,
      done.is_ranges,
      refl,
    )
