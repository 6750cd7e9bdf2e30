-- ===== src/Locks/Lost.antt =====
-- `pmm_free_page` at a section of one page beside a free section.
use mathlib.Core.Path.{subst}
use titanix.Base.{
  length, ℕ, suc, ◌+◌, ◌-◌, ◌<◌, ◌≤◌, ◌≡◌, ◌≢◌, ◌⊎◌, inl, inr, refl, ◌∙◌, ap, sym, true, false,
  some, List, [], ◌∷◌, ◌++◌, arith, ◌==◌, Bool-cases,
}
use titanix.Pmm.{Section, Store, Pmm, section_free}
use titanix.Pmm.Chain.{Entry, In, ranges, Linked}
use titanix.Pmm.Table.{Holds}
use titanix.Pmm.Merge.{Differs, Merged}
use titanix.Frames.Combine.{combine_next-other, combine_prev-other}
use titanix.Frames.Owner.{Contiguous}
use titanix.Locks.{free_first, free_loop, free_page}
use titanix.Locks.Walk.{
  NonEmpty, free_loop-pass, free_loop-stop, In-behind, NonEmpty-behind, Contiguous-behind,
  free_loop-walk,
}

-- The section `a` in the middle of the list, and what its predecessor has for a type.
Merged-before :
    (h : Store) (p : ℕ) (xs : List Entry) (a : Entry) (zs : List Entry)
    → Linked h p (xs ++ a ∷ zs)
    → Merged (ranges (xs ++ a ∷ zs))
    → (p ≡ 0) ⊎ Differs (h p).free (ranges (xs ++ a ∷ zs))
    → (p' : ℕ) × Linked h p' (a ∷ zs)
      × Merged (ranges (a ∷ zs))
      × ((p' ≡ 0) ⊎ (h p').free ≢ a.range.free)
Merged-before h p [] a zs l m w = (p, l, m, w)
Merged-before h p (x ∷ xs) a zs l m w = Merged-before h x.at xs a zs l.1 m.1 (
    inr
      (subst (λ t. Differs t (ranges (xs ++ a ∷ zs))) (sym (ap (λ (e : Section). e.free) l.0)) m.0))

-- At the page's section, nothing is done.
free_first-lost :
    (s : Pmm) (p : ℕ) (a e b : Entry) (ys : List Entry)
    → Linked s.section p (a ∷ e ∷ b ∷ ys)
    → Merged (ranges (a ∷ e ∷ b ∷ ys))
    → ((p ≡ 0) ⊎ (s.section p).free ≢ a.range.free)
    → e.range.pages ≡ 1
    → e.range.free ≢ section_free
    → (a.range.free ≡ section_free) ⊎ (b.range.free ≡ section_free)
    → free_first e.at s ≡ s
unfolding free_first
free_first-lost s p a e b ys (ha, (he, (hb, l))) (nae, (neb, m)) w one used near =
    let cn = combine_next-other s e.at (rw (he, hb) neb) in
    let cp = combine_prev-other s e.at (inr (rw (he, ha) (λ x. nae (sym x)))) in
    let ca =
      combine_prev-other s a.at
        (elim w [ inl z ↦ inl (rw ha z) | inr ne ↦ inr (rw ha (λ x. ne (sym x))) ]) in
    let u : (e.range.free == section_free) ≡ false = ground arith in
    let o : (e.range.pages == 1) ≡ true = ground arith in
    elim (Bool-cases (a.range.free == section_free)) [
      | inl fa ↦ elim (Bool-cases (b.range.free == section_free)) [
        | inl fb ↦ simp (he, ha, hb, fa, fb, u, o, cn, ca)
        | inr fb ↦ simp (he, ha, hb, fa, fb, u, o, cp)
      ]
      | inr fa ↦
          let fb : (b.range.free == section_free) ≡ true = elim near [
            | inl z ↦ ground arith
            | inr z ↦ ground arith
          ] in
          simp (he, ha, hb, fa, fb, u, o, cn)
    ]

-- Where pages are given out, the sections are contiguous, none is empty, and no two neighbours
-- have one type: to free the page of a section `e` of one page that is not free, with sections
-- before and behind it of which one is free, on enough fuel returns and changes nothing. The page
-- stays taken, and `free_memory` is what it was.
pub free_page-lost :
    (fuel : ℕ) (s : Pmm) (xs : List Entry) (a e b : Entry) (ys : List Entry)
    → s.allowing ≡ true
    → Holds s (xs ++ a ∷ e ∷ b ∷ ys)
    → Contiguous (ranges (xs ++ a ∷ e ∷ b ∷ ys))
    → NonEmpty (ranges (xs ++ a ∷ e ∷ b ∷ ys))
    → Merged (ranges (xs ++ a ∷ e ∷ b ∷ ys))
    → e.range.pages ≡ 1
    → e.range.free ≢ section_free
    → (a.range.free ≡ section_free) ⊎ (b.range.free ≡ section_free)
    → length xs + 2 ≤ fuel
    → free_page fuel e.range.start s ≡ some s
unfolding free_page
free_page-lost fuel s xs a e b ys ready v c ne m one used near h =
    let zs = a ∷ e ∷ b ∷ ys in
    let k = fuel - length xs - 2 in
    let (p, l, m', w) = Merged-before s.section 0 xs a (e ∷ b ∷ ys) v.chain m (inl refl) in
    let c' = Contiguous-behind xs zs c in
    let ne_a = (NonEmpty-behind xs zs ne).0 in
    let pos : (q : ℕ) → In q (xs ++ zs) → 0 < q = λ q i. (v.old q i).0 in
    let start : (s.section e.at).start ≡ e.range.start = ap (λ (x : Section). x.start) l.1.0 in
    let fuels : fuel ≡ length xs + suc (suc k) = omega arith in
    let run : free_loop fuel e.range.start s.sections s ≡ some s =
      ap (λ (n : ℕ). free_loop n e.range.start s.sections s) fuels
      ∙ ap (λ (q : ℕ). free_loop (length xs + suc (suc k)) e.range.start q s) v.first
      ∙ free_loop-walk (suc (suc k)) e.range.start 0 s xs a (e ∷ b ∷ ys) v.chain pos c ne
          (omega (arith, c'.0))
      ∙ free_loop-pass s (suc k) e.range.start a.range a.at p e.at l.0
          (pos a.at (In-behind xs zs a.at (inl refl))) (omega (arith, c'.0)) (omega arith)
      ∙ free_loop-stop s k e.range.start e.range e.at a.at b.at l.1.0
          (pos e.at (In-behind xs zs e.at (inr (inl refl)))) refl
      ∙ ap (λ (x : Pmm). some x) (free_first-lost s p a e b ys l m' w one used near) in
    simp (ready, run)
