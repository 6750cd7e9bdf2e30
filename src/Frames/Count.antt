-- ===== src/Frames/Count.antt =====
-- `pmm_alloc_page` keeps `free_memory` the number of bytes in the free sections.
use titanix.Base.{true, length, ℕ, ◌+◌, ◌*◌, ◌<◌, ◌≡◌, ◌≢◌, ◌∙◌, ap, some, List, ◌∷◌, arith}
use titanix.Pmm.{Pmm, page_size, section_free, section_size}
use titanix.Pmm.Chain.{Range, Entry, ranges}
use titanix.Pmm.Table.{Holds}
use titanix.Pmm.Count.{free_bytes, IsCounted}
use titanix.Frames.{alloc_page}
use titanix.Frames.Scan.{grab, Finds, dropped, grabbed, skipped, first_free, first_free-Finds}
use titanix.Frames.Done.{AllFit}
use titanix.Frames.Owner.{Contiguous}
use titanix.Frames.Alloc.{alloc_page-Taken}

grab-free_bytes :
    (p e : Range) (es : List Range)
    → e.pages ≢ 0
    → e.free ≡ section_free
    → free_bytes (grab p e es) + page_size ≡ free_bytes (p ∷ e ∷ es)
unfolding grab
grab-free_bytes p e es ne f = ground arith

-- Taking a page takes its bytes from the free ones.
Finds-free_bytes :
    {p : Range} {es : List Range} {base : ℕ} {ls : List Range}
    → Finds p es base ls
    → free_bytes ls + page_size ≡ free_bytes (p ∷ es)
Finds-free_bytes {p} (dropped {e} {es} z f) = let h = Finds-free_bytes f in ground arith
Finds-free_bytes {p} (grabbed {e} {es} ne f b l) = rw l (grab-free_bytes p e es ne f)
Finds-free_bytes {p} (skipped {e} {es} {ls} ne f l r) =
    let h = Finds-free_bytes r in rw l (omega (arith, h))

-- Where pages are given out, `free_memory` is the number of bytes in the free sections, below 2 ^
-- 64, and the sections are contiguous, do not wrap, and start with one neither free nor empty, and
-- there is room for a record: `pmm_alloc_page`, on fuel above their number, where the scan finds a
-- page, leaves a list of sections of which `free_memory` is again the number of free bytes.
pub alloc_page-IsCounted :
    (fuel : ℕ) (s : Pmm) (a : Entry) (es : List Entry) (base : ℕ) (ls : List Range)
    → s.allowing ≡ true
    → Holds s (a ∷ es)
    → IsCounted s (ranges (a ∷ es))
    → s.section_head * section_size < s.data_size
    → AllFit (ranges (a ∷ es))
    → Contiguous (ranges (a ∷ es))
    → a.range.free ≢ section_free
    → a.range.pages ≢ 0
    → first_free a.range (ranges es) ≡ some (base, ls)
    → length (a ∷ es) < fuel
    → (s' : Pmm) × (xs : List Entry) × (alloc_page fuel s ≡ some (base, s'))
      × Holds s' xs
      × IsCounted s' (ranges xs)
      × (s'.allowing ≡ true)
alloc_page-IsCounted fuel s a es base ls ready v (count, small) room f c unfree full found h =
    let (s', xs, run, v', is_ranges, t, less, ready') =
      alloc_page-Taken fuel s a es base ls ready v room f c unfree full found h in
    let taken = Finds-free_bytes (first_free-Finds a.range (ranges es) base ls found) in
    let same : free_bytes (ranges xs) ≡ free_bytes ls = ap free_bytes is_ranges in
    (s', xs, run, v', (less ∙ omega arith, omega arith), ready')
