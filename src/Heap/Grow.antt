-- ===== src/Heap/Grow.antt =====
-- `malloc` where no segment of the heap fits the request.
use titanix.Pager.{Pager}
use titanix.Base.{
  ℕ, zero, suc, ◌+◌, ◌-◌, ◌*◌, ◌/◌, ◌^◌, ◌≤◌, ◌<◌, ◌≡◌, none, some, List, [], ◌∷◌, ◌++◌, arith, ap,
  ◌∙◌,
}
use titanix.Blocks.{
  end_of-append, Block, end_of, carve, first_fit, behind, later, aligned, whole_pages, new_segment,
  first_fit-append, first_fit-take, first_fit-skip, first_fit-nil,
}
use titanix.Heap.{Heap, expand_heap, malloc}
use titanix.Heap.Chain.{Holds}
use titanix.Heap.Expand.{heap_start-expand_heap, map_from, expand_heap-map_from}
use titanix.Heap.Malloc.{
  malloc_without_fuel, malloc-first_fit, malloc-expand_heap, round_up-whole_pages,
}

-- The new segment has room for `n` bytes beside its own header.
abbrev pub Suffices : ℕ → Type 0
Suffices n = n ≤ whole_pages n - 32

module _ (n a : ℕ) (bs : List Block) (none_fits : first_fit n a bs ≡ none) where
  first_fit-new_segment :
      Suffices n
      → first_fit n a (bs ++ (new_segment n ∷ []))
        ≡ some (end_of a bs + 32, bs ++ carve n (new_segment n) [])
  first_fit-new_segment h =
      first_fit-append n a bs (new_segment n ∷ []) none_fits
      ∙ ap (behind bs) (first_fit-take n (end_of a bs) (new_segment n) [] (ground arith))

  first_fit_still_none : whole_pages n - 32 < n → first_fit n a (bs ++ (new_segment n ∷ [])) ≡ none
  first_fit_still_none h =
      first_fit-append n a bs (new_segment n ∷ []) none_fits
      ∙ ap (behind bs) (
          first_fit-skip n (end_of a bs) (new_segment n) [] (ground arith)
          ∙ ap (later (new_segment n)) (first_fit-nil n _))

aligned-aligned : (r : ℕ) → aligned (aligned r) ≡ aligned r
aligned-aligned r = omega arith

module _ (pager : Pager) where
  -- On a heap that holds a list of segments, for a positive request that no segment fits, whose
  -- rounded length fits into whole pages beside a header, and with room for it below 2 ^ 63: on
  -- fuel 2 or more, `malloc` returns an address one header behind the old end of the heap. It maps
  -- as many pages of the allocator as the rounded request takes, one behind the other from the old
  -- end on, and no others. The new segment, less what is cut off, stands behind the old ones,
  -- which stay.
  pub malloc_grown :
      (f r : ℕ) (s : Heap pager.State) (b : Block) (bs : List Block)
      → Holds s (b ∷ bs)
      → 0 < r
      → s.heap_end + aligned r + 4096 < 2 ^ 63
      → first_fit (aligned r) s.heap_start (b ∷ bs) ≡ none
      → Suffices (aligned r)
      → (s' : Heap pager.State) × (malloc pager (suc (suc f)) r s ≡ some (s.heap_end + 32, s'))
        × (s'.heap_start ≡ s.heap_start)
        × Holds s' (b ∷ (bs ++ carve (aligned r) (new_segment (aligned r)) []))
        × (s'.pages ≡ map_from pager (whole_pages (aligned r) / 4096) s.heap_end s.pages)
  malloc_grown f r s b bs v pos room none_fits suffices =
      let n = aligned r in
      let (e, w) = malloc-expand_heap pager (suc f) r s b bs v pos room none_fits in
      let st = heap_start-expand_heap pager s n room in
      let fit = first_fit-new_segment n s.heap_start (b ∷ bs) none_fits suffices in
      let (s', e', h', v', kept) =
        malloc-first_fit pager f n (s.heap_end + 32) (expand_heap pager n s) b
          (bs ++ (new_segment n ∷ [])) (b ∷ (bs ++ carve n (new_segment n) [])) w (omega arith)
          (omega arith) (rw (st, aligned-aligned r, v.end_at) fit) in
      let mapped = expand_heap-map_from pager s n room in
      let whole = round_up-whole_pages n (omega arith) in
      (
        s',
        e ∙ e',
        h' ∙ st,
        v',
        kept ∙ mapped ∙ ap (λ (k : ℕ). map_from pager (k / 4096) s.heap_end s.pages) whole,
      )

  -- On a heap that holds a list of segments, a positive request that no segment fits, and that
  -- leaves less than a header of its last page, is not answered on any fuel with which the heap
  -- stays below 2 ^ 63: every expansion adds a segment that is too short.
  pub malloc_never :
      (f r : ℕ) (s : Heap pager.State) (b : Block) (bs : List Block)
      → Holds s (b ∷ bs)
      → 0 < r
      → s.heap_end + f * (aligned r + 4096) + aligned r + 4096 < 2 ^ 63
      → first_fit (aligned r) s.heap_start (b ∷ bs) ≡ none
      → whole_pages (aligned r) - 32 < aligned r
      → malloc pager f r s ≡ none
  malloc_never zero r s b bs v pos room none_fits short = malloc_without_fuel pager r s
  malloc_never (suc f) r s b bs v pos room none_fits short =
      let n = aligned r in
      let (e, w) = malloc-expand_heap pager f r s b bs v pos (omega arith) none_fits in
      let st = heap_start-expand_heap pager s n (omega arith) in
      let still = first_fit_still_none n s.heap_start (b ∷ bs) none_fits short in
      let t = expand_heap pager n s in
      let grown = bs ++ (new_segment n ∷ []) in
      let end : t.heap_end ≡ end_of (end_of s.heap_start (b ∷ bs)) (new_segment n ∷ []) =
        w.end_at
        ∙ ap (λ k. end_of k (b ∷ grown)) st
        ∙ end_of-append s.heap_start (b ∷ bs) (new_segment n ∷ []) in
      e
      ∙ malloc_never f n t b grown w (omega arith)
          (rw aligned-aligned (grind (arith, end, v.end_at))) (rw (st, aligned-aligned r) still)
          (rw aligned-aligned short)
