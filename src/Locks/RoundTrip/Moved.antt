-- ===== src/Locks/RoundTrip/Moved.antt =====
-- A page that goes from a free range to the used one before it, and back.
use titanix.Base.{
  ◌+◌, ◌-◌, ◌<◌, ◌≡◌, ◌≢◌, refl, ◌∙◌, ap, true, false, some, List, [], ◌∷◌, ◌++◌, arith, ◌==◌,
}
use titanix.Pmm.{section_free, section_used, page_size}
use titanix.Pmm.Chain.{Range, Entry, ranges}
use titanix.Frames.Scan.{first_free, grab, put_before}
use titanix.Frames.Owner.{Contiguous}
use titanix.Frames.Done.{AllFit}
use titanix.Locks.Walk.{NonEmpty}
use titanix.Locks.Returned.{shrunk, extended}

-- The two sections when a page has gone from the second to the first.
abbrev pub longer : Range → Range
longer r = record r { pages = r.pages + 1 }

abbrev pub shorter : Range → Range
shorter r = record r { start = r.start + page_size; pages = r.pages - 1 }

-- None of the ranges is free, or empty.
abbrev pub AllTaken : List Range → Type 0
AllTaken [] = Unit {0}
AllTaken (r ∷ rs) = (r.free ≢ section_free) × (r.pages ≢ 0) × AllTaken rs

first_free-grab :
    (a e : Range) (es : List Range)
    → a.free ≡ section_used
    → e.free ≡ section_free
    → e.pages ≢ 0
    → first_free a (e ∷ es) ≡ some (e.start, longer a ∷ shorter e ∷ es)
unfolding first_free grab
first_free-grab a e es used is_open ne =
    let e0 : (e.pages == 0) ≡ false = ground arith in
    let e1 : (e.free == section_free) ≡ true = ground arith in
    let e2 : (a.free == section_used) ≡ true = ground arith in simp (e0, e1, e2)

first_free-skip :
    (p r : Range) (es : List Range)
    → r.free ≢ section_free
    → r.pages ≢ 0
    → first_free p (r ∷ es) ≡ put_before p (first_free r es)
unfolding first_free
first_free-skip p r es used ne =
    let e0 : (r.pages == 0) ≡ false = ground arith in
    let e1 : (r.free == section_free) ≡ false = ground arith in simp (e0, e1)

pub first_free-behind :
    (p : Range) (rs : List Range) (a e : Range) (es : List Range)
    → AllTaken rs
    → a.free ≡ section_used
    → a.pages ≢ 0
    → e.free ≡ section_free
    → e.pages ≢ 0
    → first_free p (rs ++ a ∷ e ∷ es) ≡ some (e.start, p ∷ rs ++ longer a ∷ shorter e ∷ es)
first_free-behind p [] a e es all used full is_open ne =
    first_free-skip p a (e ∷ es) (omega arith) full
    ∙ ap (put_before p) (first_free-grab a e es used is_open ne)
first_free-behind p (r ∷ rs) a e es (n, f, all) used full is_open ne =
    first_free-skip p r (rs ++ a ∷ e ∷ es) n f
    ∙ ap (put_before p) (first_free-behind r rs a e es all used full is_open ne)

-- Where a list of ranges is cut, so are the sections.
pub record Parts (zs : List Entry) (rs : List Range) (r q : Range) (qs : List Range) : Type 0 where
  pub before : List Entry
  pub here : Entry
  pub behind : Entry
  pub after : List Entry
  pub whole : zs ≡ before ++ here ∷ behind ∷ after
  pub before_ranges : ranges before ≡ rs
  pub here_range : here.range ≡ r
  pub behind_range : behind.range ≡ q
  pub after_ranges : ranges after ≡ qs

pub ranges-Parts :
    (zs : List Entry) (rs : List Range) (r q : Range) (qs : List Range)
    → ranges zs ≡ rs ++ r ∷ q ∷ qs
    → Parts zs rs r q qs
ranges-Parts [] [] r q qs h = cc
ranges-Parts [] (x ∷ rs) r q qs h = cc
ranges-Parts (z ∷ []) [] r q qs h = cc
ranges-Parts (z ∷ y ∷ zs) [] r q qs h = record {
  before = [];
  here = z;
  behind = y;
  after = zs;
  whole = refl;
  before_ranges = refl;
  here_range = cc h;
  behind_range = cc h;
  after_ranges = cc h;
}
ranges-Parts (z ∷ zs) (x ∷ rs) r q qs h =
    let t = ranges-Parts zs rs r q qs (cc h) in
    let first : z.range ≡ x = cc h in
    record {
      before = z ∷ t.before;
      here = t.here;
      behind = t.behind;
      after = t.after;
      whole = ap (λ (l : List Entry). z ∷ l) t.whole;
      before_ranges = rw (first, t.before_ranges) refl;
      here_range = t.here_range;
      behind_range = t.behind_range;
      after_ranges = t.after_ranges;
    }

pub NonEmpty-moved :
    (rs : List Range) (a e : Range) (es : List Range)
    → NonEmpty (rs ++ a ∷ e ∷ es)
    → 1 < e.pages
    → NonEmpty (rs ++ longer a ∷ shorter e ∷ es)
NonEmpty-moved [] a e es (na, (ne, n)) many = (omega arith, (omega arith, n))
NonEmpty-moved (r ∷ rs) a e es (nr, n) many = (nr, NonEmpty-moved rs a e es n many)

pub NonEmpty-at :
    (rs : List Range) (q : Range) (qs : List Range) → NonEmpty (rs ++ q ∷ qs) → q.pages ≢ 0
NonEmpty-at [] q qs n = n.0
NonEmpty-at (r ∷ rs) q qs n = NonEmpty-at rs q qs n.1

pub AllFit-behind : (rs qs : List Range) → AllFit (rs ++ qs) → AllFit qs
AllFit-behind [] qs f = f
AllFit-behind (r ∷ rs) qs f = AllFit-behind rs qs f.1

pub Contiguous-behind :
    (rs : List Range) (q : Range) (qs : List Range)
    → Contiguous (rs ++ q ∷ qs)
    → Contiguous (q ∷ qs)
Contiguous-behind [] q qs c = c
Contiguous-behind (r ∷ []) q qs c = c.1
Contiguous-behind (r ∷ r' ∷ rs) q qs c = Contiguous-behind (r' ∷ rs) q qs c.1

-- The page is freed again: the ranges are those before it was taken.
pub given : (r : Range) → shrunk (longer r) ≡ r
given r = let e : r.pages + 1 - 1 ≡ r.pages = omega arith in rw e refl

pub taken : (r : Range) → 1 < r.pages → extended (shorter r) ≡ r
taken r h =
    let e : r.pages - 1 + 1 ≡ r.pages = omega arith in
    let e' : r.start + page_size - page_size ≡ r.start = omega arith in rw (e, e') refl
