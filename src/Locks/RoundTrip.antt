-- ===== src/Locks/RoundTrip.antt =====
-- `pmm_alloc_page` and then `pmm_free_page`, where the page is taken for the used section before it.
pub mod Moved
use mathlib.Core.Path.{subst}
use titanix.Base.{
  length, length-append, ℕ, ◌+◌, ◌-◌, ◌*◌, ◌^◌, ◌<◌, ◌≤◌, ◌≡◌, ◌≢◌, refl, ◌∙◌, ap, sym, true, some,
  List, ◌∷◌, ◌++◌, arith, sub64,
}
use titanix.Pmm.{Pmm, section_free, section_used, page_size, section_size}
use titanix.Pmm.Chain.{Range, Entry, ranges, length-ranges, ranges-append}
use titanix.Pmm.Table.{Holds}
use titanix.Frames.{alloc_page}
use titanix.Frames.Scan.{first_free}
use titanix.Frames.Owner.{Contiguous}
use titanix.Frames.Done.{AllFit}
use titanix.Frames.Alloc.{alloc_page-Taken}
use titanix.Locks.{free_page}
use titanix.Locks.Walk.{NonEmpty}
use titanix.Locks.Returned.{free_page-last}
use titanix.Locks.RoundTrip.Moved.{
  longer, shorter, AllTaken, first_free-behind, ranges-Parts, NonEmpty-moved, NonEmpty-at,
  AllFit-behind, Contiguous-behind, given, taken,
}

-- The call on the state that `pmm_alloc_page` leaves.
free_again :
    (fuel : ℕ) (s : Pmm) (zs : List Entry) (rs : List Range) (a e : Range) (qs : List Range)
    → s.allowing ≡ true
    → Holds s zs
    → ranges zs ≡ rs ++ longer a ∷ shorter e ∷ qs
    → Contiguous (rs ++ longer a ∷ shorter e ∷ qs)
    → NonEmpty (rs ++ longer a ∷ shorter e ∷ qs)
    → a.free ≡ section_used
    → e.free ≡ section_free
    → a.start < e.start
    → 1 < e.pages
    → e.start + e.pages * page_size < 2 ^ 63
    → length rs + 2 ≤ fuel
    → (s' : Pmm) × (zs' : List Entry) × (free_page fuel e.start s ≡ some s')
      × Holds s' zs'
      × (ranges zs' ≡ rs ++ a ∷ e ∷ qs)
      × (s'.free_memory ≡ s.free_memory)
free_again fuel s zs rs a e qs ready v same c ne used is_open above many fit h =
    let t = ranges-Parts zs rs (longer a) (shorter e) qs same in
    let list = t.before ++ t.here ∷ t.behind ∷ t.after in
    let shape : ranges list ≡ rs ++ longer a ∷ shorter e ∷ qs = ap ranges (sym t.whole) ∙ same in
    let ha = t.here_range in
    let hb = t.behind_range in
    let len : length t.before ≡ length rs =
      sym (length-ranges t.before) ∙ ap (λ (l : List Range). length l) t.before_ranges in
    let (s', zs', run, v', shape', mem) =
      free_page-last fuel e.start s t.before t.here t.behind t.after ready
        (subst (λ (l : List Entry). Holds s l) t.whole v)
        (subst (λ (l : List Range). Contiguous l) (sym shape) c)
        (subst (λ (l : List Range). NonEmpty l) (sym shape) ne)
        (subst (λ (r : Range). r.free ≢ section_free) (sym ha) (omega arith))
        (ap (λ (r : Range). r.free) hb ∙ is_open)
        (subst (λ (r : Range). r.start < e.start) (sym ha) above)
        (sym (ap (λ (r : Range). r.start) hb))
        (subst (λ (r : Range). r.start + r.pages * page_size < 2 ^ 63) (sym hb) (omega arith))
        (omega arith) in
    (
      s',
      zs',
      run,
      v',
      shape' ∙ rw (t.before_ranges, ha, hb, t.after_ranges, given a, taken e many) refl,
      mem,
    )

-- Where pages are given out, the sections are contiguous, do not wrap, and none is empty, with
-- room in the table for one more record, and the first free section has at least two pages and
-- stands behind a used one, with at least one section before that, and none of those free: on fuel
-- above the number of sections `pmm_alloc_page` returns the start of the free section, and
-- `pmm_free_page` of that page returns. The sections are then the ranges that they were before,
-- but `free_memory` stays a page less.
pub free_page-alloc_page :
    (fuel : ℕ) (s : Pmm) (p : Entry) (xs : List Entry) (a e : Entry) (ys : List Entry)
    → s.allowing ≡ true
    → Holds s (p ∷ xs ++ a ∷ e ∷ ys)
    → s.section_head * section_size < s.data_size
    → AllFit (ranges (p ∷ xs ++ a ∷ e ∷ ys))
    → Contiguous (ranges (p ∷ xs ++ a ∷ e ∷ ys))
    → NonEmpty (ranges (p ∷ xs ++ a ∷ e ∷ ys))
    → AllTaken (ranges (p ∷ xs))
    → a.range.free ≡ section_used
    → e.range.free ≡ section_free
    → 1 < e.range.pages
    → length (p ∷ xs ++ a ∷ e ∷ ys) < fuel
    → (s' s'' : Pmm) × (zs : List Entry) × (alloc_page fuel s ≡ some (e.range.start, s'))
      × (free_page fuel e.range.start s' ≡ some s'')
      × Holds s'' zs
      × (ranges zs ≡ ranges (p ∷ xs ++ a ∷ e ∷ ys))
      × (s''.free_memory ≡ sub64 s.free_memory page_size)
free_page-alloc_page fuel s p xs a e ys ready v room f c ne (free_p, full_p, all) used is_open many
      h =
    let qs = a.range ∷ e.range ∷ ranges ys in
    let tail = ranges-append xs (a ∷ e ∷ ys) in
    let shape : ranges (p ∷ xs ++ a ∷ e ∷ ys) ≡ p.range ∷ ranges xs ++ qs =
      ap (λ (l : List Range). p.range ∷ l) tail in
    let f' =
      AllFit-behind (p.range ∷ ranges xs) qs (subst (λ (l : List Range). AllFit l) shape f) in
    let c' =
      Contiguous-behind (p.range ∷ ranges xs) a.range (e.range ∷ ranges ys)
        (subst (λ (l : List Range). Contiguous l) shape c) in
    let ne0 : NonEmpty (p.range ∷ ranges xs ++ qs) =
      subst (λ (l : List Range). NonEmpty l) shape ne in
    let full = (NonEmpty-at (p.range ∷ ranges xs) a.range (e.range ∷ ranges ys) ne0) in
    let found =
      ap (λ (l : List Range). first_free p.range l) tail
      ∙ first_free-behind p.range (ranges xs) a.range e.range (ranges ys) all used full is_open
          (omega arith) in
    let (s', zs, run, v', shape', t, mem, ready') =
      alloc_page-Taken fuel s p (xs ++ a ∷ e ∷ ys) e.range.start
        (p.range ∷ ranges xs ++ longer a.range ∷ shorter e.range ∷ ranges ys) ready v room f c
        free_p full_p found h in
    let count = length-append xs (a ∷ e ∷ ys) in
    let (s'', zs', run', v'', shape'', mem') =
      free_again fuel s' zs (p.range ∷ ranges xs) a.range e.range (ranges ys) ready' v' shape'
        t.contiguous (NonEmpty-moved (p.range ∷ ranges xs) a.range e.range (ranges ys) ne0 many)
        used is_open (omega (arith, c'.0)) many (omega (arith, f'.1.0))
        (omega (arith, length-ranges xs)) in
    (s', s'', zs', run, run', v'', shape'' ∙ sym shape, mem' ∙ mem)
