-- ===== src/Heap/Expand.antt =====
-- `expand_heap` on a heap that holds a list of blocks.
use mathlib.Core.Path.{subst₂}
use titanix.Pager.{Pager}
use titanix.Base.{
  ℕ, zero, suc, ◌+◌, ◌-◌, ◌*◌, ◌/◌, ◌%◌, ◌^◌, ◌≤◌, ◌<◌, ◌≡◌, ◌≢◌, refl, true, List, [], ◌∷◌, ◌++◌,
  arith, ap, ◌∙◌, sym,
}
use titanix.Blocks.{end_of-append, Block, block, end_of}
use titanix.Heap.{
  Heap, Store, page_size, round_up, expand_pages, append_header, expand_heap, combine_with_next,
  kernel_page, absorb_next,
}
use titanix.Heap.Chain.{
  header_of, last_of, Seg, Holds, SameFrame, last_of-append, Seg-append, Seg-extend, last_of-lt,
}
use titanix.Heap.Combine.{heap_start-combine_with_next}

-- A request of `r` bytes rounded up to whole pages, as a number.
pub round_up-pages :
    (r : ℕ)
    → r < 2 ^ 63
    → (r ≤ round_up page_size r)
      × (round_up page_size r % 4096 ≡ 0)
      × (round_up page_size r < r + 4096)
round_up-pages r h = ground arith

-- `n` pages of the allocator mapped, one behind the other, from the address `a` on.
abbrev pub map_from : (pager : Pager) → (n a : ℕ) → pager.State → pager.State
map_from pager zero a w = w
map_from pager (suc n) a w =
    let (page, w1) = pager.alloc_page w in
    map_from pager n (a + 4096) (pager.map_page a page kernel_page w1)

-- What the loop of `expand_heap` has done after `n` pages.
record Grown {P : Type 0} (s t : Heap P) (n : ℕ) : Type 0 where
  start : t.heap_start ≡ s.heap_start
  end : t.heap_end ≡ s.heap_end + n * 4096
  last : t.last ≡ s.last
  init : t.heap_initialized ≡ s.heap_initialized
  header : t.header ≡ s.header

module _ {P : Type 0} where
  -- The state after `append_header` at `a`, above the header at `l`.
  record Appended (s t : Heap P) (a l m : ℕ) : Type 0 where
    frame : SameFrame s t
    last : t.last ≡ a
    here : t.header a ≡ header_of (block m true) l 0
    at_last : t.header l ≡ record (s.header l) { next = a }
    others : (q : ℕ) → q ≢ a → q ≢ l → t.header q ≡ s.header q

  append_header-Appended :
      (s : Heap P) (a k : ℕ)
      → s.last < a
      → 32 ≤ k
      → k < 2 ^ 64
      → Appended s (append_header a k s) a s.last (k - 32)
  unfolding append_header combine_with_next
  append_header-Appended s a k lt big small = record {
    frame = ground arith;
    last = ground arith;
    here = ground arith;
    at_last = ground arith;
    others = λ q na nl. ground arith;
  }

  -- One more segment behind the last one.
  appended-Holds :
      (s t : Heap P) (b : Block) (bs : List Block) (m : ℕ)
      → Holds s (b ∷ bs)
      → t.heap_start ≡ s.heap_start
      → t.heap_initialized ≡ s.heap_initialized
      → t.heap_end ≡ s.heap_end + (32 + m)
      → s.heap_end + (32 + m) < 2 ^ 63
      → t.last ≡ s.heap_end
      → t.header s.heap_end ≡ header_of (block m true) s.last 0
      → t.header s.last ≡ record (s.header s.last) { next = s.heap_end }
      → ((q : ℕ) → q ≢ s.heap_end → q ≢ s.last → t.header q ≡ s.header q)
      → Holds t (b ∷ (bs ++ (block m true ∷ [])))
  appended-Holds s t b bs m v start init end fits last here at_last others =
      let st = s.heap_start in
      let new = block m true in
      let e : end_of st (b ∷ bs) ≡ s.heap_end = sym v.end_at in
      let l : last_of 0 st (b ∷ bs) ≡ s.last = sym v.last_at in
      let grown : Seg t.header 0 st (b ∷ bs) (end_of st (b ∷ bs)) =
        Seg-extend s.header t.header 0 st b bs (end_of st (b ∷ bs)) v.chain (rw (l, e) at_last)
          (λ q ne lt. others q (omega arith) (rw l at ne)) in
      record {
        ready = init ∙ v.ready;
        chain =
            rw start (Seg-append t.header 0 st (b ∷ bs) (new ∷ []) 0 grown (rw (l, e) here, tt));
        last_at = rw start (last ∙ v.end_at ∙ sym (last_of-append 0 st (b ∷ bs) (new ∷ [])));
        end_at =
            rw start
              (end ∙ ap (λ k. k + (32 + m)) v.end_at ∙ sym (end_of-append st (b ∷ bs) (new ∷ [])));
        start_pos = rw start v.start_pos;
        end_fits = rw end fits;
      }

module _ (pager : Pager) where
  expand_pages-Grown :
      (n : ℕ) (s : Heap pager.State)
      → s.heap_end + n * 4096 < 2 ^ 64
      → Grown s (expand_pages pager n s) n
  unfolding expand_pages
  expand_pages-Grown zero s h = record {
    start = refl;
    end = omega arith;
    last = refl;
    init = refl;
    header = refl;
  }
  expand_pages-Grown (suc n) s h =
      let (page, w1) = pager.alloc_page s.pages in
      let s' : Heap pager.State = record s {
        heap_end = (s.heap_end + 4096) % 2 ^ 64;
        pages = pager.map_page s.heap_end page 3 w1;
      } in
      let g = expand_pages-Grown n s' (omega arith) in
      record {
        start = g.start;
        end = g.end ∙ omega arith;
        last = g.last;
        init = g.init;
        header = g.header;
      }

  expand_pages-map_from :
      (n : ℕ) (s : Heap pager.State)
      → s.heap_end + n * 4096 < 2 ^ 64
      → (expand_pages pager n s).pages ≡ map_from pager n s.heap_end s.pages
  unfolding expand_pages
  expand_pages-map_from zero s h = refl
  expand_pages-map_from (suc n) s h =
      let (page, w1) = pager.alloc_page s.pages in
      let w2 = pager.map_page s.heap_end page kernel_page w1 in
      let e : (s.heap_end + 4096) % 2 ^ 64 ≡ s.heap_end + 4096 = omega arith in
      expand_pages-map_from n (record s { heap_end = (s.heap_end + 4096) % 2 ^ 64; pages = w2 })
        (omega arith)
      ∙ ap (λ (a : ℕ). map_from pager n a w2) e

  append_header-pages : (a k : ℕ) (s : Heap pager.State) → (append_header a k s).pages ≡ s.pages
  unfolding append_header combine_with_next absorb_next
  append_header-pages a k s = ground arith

  pub expand_heap-map_from :
      (s : Heap pager.State) (r : ℕ)
      → s.heap_end + r + 4096 < 2 ^ 63
      → (expand_heap pager r s).pages
        ≡ map_from pager (round_up page_size r / page_size) s.heap_end s.pages
  unfolding expand_heap
  expand_heap-map_from s r room =
      let (k_le, k_mod, k_lt) = round_up-pages r (omega arith) in
      append_header-pages s.heap_end (round_up page_size r) _
      ∙ expand_pages-map_from (round_up page_size r / page_size) s (omega arith)

  -- `expand_heap` adds one free segment at the end: the request in whole pages, less a header.
  pub expand_heap-Holds :
      (s : Heap pager.State) (b : Block) (bs : List Block) (r : ℕ)
      → Holds s (b ∷ bs)
      → 0 < r
      → s.heap_end + r + 4096 < 2 ^ 63
      → Holds (expand_heap pager r s) (b ∷ (bs ++ (block (round_up page_size r - 32) true ∷ [])))
  unfolding expand_heap
  expand_heap-Holds s b bs r v pos room =
      let k = round_up page_size r in
      let (k_le, k_mod, k_lt) = round_up-pages r (omega arith) in
      let s1 = expand_pages pager (k / page_size) s in
      let t = append_header s.heap_end k s1 in
      let g = expand_pages-Grown (k / page_size) s (omega arith) in
      let e = s.heap_end in
      let st = s.heap_start in
      let lt : s1.last < e = omega (arith, g.last, v.last_at, v.end_at, last_of-lt 0 st b bs) in
      let p = append_header-Appended s1 e k lt (omega arith) (omega arith) in
      appended-Holds s t b bs (k - 32) v (p.frame.start ∙ g.start) (p.frame.init ∙ g.init)
        (p.frame.end ∙ g.end ∙ omega arith) (omega arith) p.last
        (p.here ∙ ap (λ j. header_of (block (k - 32) true) j 0) g.last)
        (subst₂ {A = ℕ} {B = Store} (λ l h. t.header l ≡ record (h l) { next = e }) g.last g.header
          p.at_last)
        (λ q ne nl. p.others q ne (omega (arith, g.last)) ∙ ap (λ (h : Store). h q) g.header)

  pub heap_start-expand_heap :
      (s : Heap pager.State) (r : ℕ)
      → s.heap_end + r + 4096 < 2 ^ 63
      → (expand_heap pager r s).heap_start ≡ s.heap_start
  unfolding expand_heap append_header
  heap_start-expand_heap s r room =
      let (k_le, k_mod, k_lt) = round_up-pages r (omega arith) in
      heap_start-combine_with_next s.heap_end _
      ∙ (expand_pages-Grown (round_up page_size r / page_size) s (omega arith)).start
