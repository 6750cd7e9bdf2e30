-- ===== src/Heap/Malloc.antt =====
-- The loop of `malloc`, and `malloc` itself, on a heap that holds a list of blocks.
use mathlib.Core.Path.{subst}
use mathlib.Core.List.{append_assoc}
use titanix.Base.{sym}
use titanix.Heap.{out_of_fuel, split_header, insert_header}
use titanix.Pager.{Pager}
use titanix.Base.{
  ℕ, zero, suc, ◌+◌, ◌-◌, ◌≤◌, ◌<◌, ◌≡◌, refl, true, false, ◌&&◌, Option, none, some, List, [], ◌∷◌,
  ◌++◌, arith, ap, ◌∙◌, ◌^◌, inl, inr, Bool-cases, leb, length, ◌==◌,
}
use titanix.Blocks.{
  end_of-append, Block, span, end_of, first_fit, later, first_fit-take, first_fit-skip,
  first_fit-nil, aligned, whole_pages, new_segment, length-le-end_of,
}
use titanix.Heap.{
  Heap, Found, returned, exhausted, find_segment, take_segment, round_up, page_size, ensure_heap,
  expand_heap, malloc,
}
use titanix.Heap.Chain.{header_of, link, last_of, Holds, Seg-drop}
use titanix.Heap.Expand.{expand_heap-Holds}
use titanix.Heap.Split.{
  take_segment-Holds, address-take_segment, heap_start-take_segment, block_length-lt,
}

-- What the loop finds from a segment on, as first fit does: `xs` are the segments before it.
-- `st` is the start of the heap, which stays.
abbrev pub Finds : {P : Type 0} → ℕ → List Block → Option (ℕ × List Block) → Found P → Type 0
Finds st xs none r = r ≡ exhausted
Finds {P} st xs (some (p, cs)) r =
    (s' : Heap P) × (r ≡ returned p s') × (s'.heap_start ≡ st) × Holds s' (xs ++ cs)

module _ {P : Type 0} where
  find_segment-take :
      (fuel a n : ℕ) (s : Heap P)
      → (s.header a).free ≡ true
      → n ≤ (s.header a).length
      → find_segment (suc fuel) a n s ≡ returned (take_segment a n s).0 (take_segment a n s).1
  unfolding find_segment
  find_segment-take fuel a n s free fit = ground arith

  find_segment-stop :
      (fuel a n : ℕ) (s : Heap P)
      → ((s.header a).free && leb n (s.header a).length) ≡ false
      → (s.header a).next ≡ 0
      → find_segment (suc fuel) a n s ≡ exhausted
  unfolding find_segment
  find_segment-stop fuel a n s no_fit e = ground arith

  find_segment-next :
      (fuel a n z : ℕ) (s : Heap P)
      → ((s.header a).free && leb n (s.header a).length) ≡ false
      → (s.header a).next ≡ z
      → 0 < z
      → find_segment (suc fuel) a n s ≡ find_segment fuel z n s
  unfolding find_segment
  find_segment-next fuel a n z s no_fit e pos = ground arith

  Finds-later :
      (st : ℕ) (xs : List Block) (b : Block) (o : Option (ℕ × List Block)) (r : Found P)
      → Finds st (xs ++ (b ∷ [])) o r
      → Finds st xs (later b o) r
  Finds-later st xs b none r f = f
  Finds-later st xs b (some (p, cs)) r (s', e, h, v) = (s', e, h, rw append_assoc at v)

  module _ (n : ℕ) (s : Heap P) (xs : List Block) (b : Block) (ys : List Block) (a : ℕ) where
    header_at :
        Holds s (xs ++ (b ∷ ys))
        → a ≡ end_of s.heap_start xs
        → s.header a ≡ header_of b (last_of 0 s.heap_start xs) (link (a + span b) ys 0)
    header_at v at_a = rw at_a ((Seg-drop s.header 0 s.heap_start xs (b ∷ ys) 0 v.chain).0)

    find_segment_here :
        (fuel : ℕ)
        → Holds s (xs ++ (b ∷ ys))
        → a ≡ end_of s.heap_start xs
        → 16 ≤ n
        → (b.free && leb n b.length) ≡ true
        → Finds s.heap_start xs (first_fit n a (b ∷ ys)) (find_segment (suc fuel) a n s)
    find_segment_here fuel v at_a h fit =
        let e = header_at v at_a in
        rw (first_fit-take n a b ys fit) (
          (take_segment a n s).1,
          find_segment-take fuel a n s (ground arith) (ground arith)
              ∙ ap (λ p. returned p (take_segment a n s).1)
                  (address-take_segment a n s (omega (arith, block_length-lt s xs b ys v))),
          heap_start-take_segment a n s,
          take_segment-Holds s a xs b ys n v at_a h (ground arith) (ground arith),
        )

  -- The loop from the first segment of `b ∷ ys` on is first fit.
  find_segment-Finds :
      (fuel n : ℕ) (s : Heap P) (xs : List Block) (b : Block) (ys : List Block) (a : ℕ)
      → Holds s (xs ++ (b ∷ ys))
      → a ≡ end_of s.heap_start xs
      → 16 ≤ n
      → length (b ∷ ys) ≤ fuel
      → Finds s.heap_start xs (first_fit n a (b ∷ ys)) (find_segment fuel a n s)
  find_segment-Finds zero n s xs b ys a v at_a h enough = absurd (omega arith)
  find_segment-Finds (suc fuel) n s xs b [] a v at_a h enough =
      let e = header_at n s xs b [] a v at_a in
      elim (Bool-cases (b.free && leb n b.length)) [
        | inl fit ↦ find_segment_here n s xs b [] a fuel v at_a h fit
        | inr no_fit ↦
            rw (first_fit-skip n a b [] no_fit, first_fit-nil n (a + span b))
              (find_segment-stop fuel a n s (rw e no_fit) (ap (λ k. k.next) e))
      ]
  find_segment-Finds (suc fuel) n s xs b (y ∷ ys) a v at_a h enough =
      let e = header_at n s xs b (y ∷ ys) a v at_a in
      let z = a + span b in
      elim (Bool-cases (b.free && leb n b.length)) [
        | inl fit ↦ find_segment_here n s xs b (y ∷ ys) a fuel v at_a h fit
        | inr no_fit ↦
            rw
              (
                first_fit-skip n a b (y ∷ ys) no_fit,
                find_segment-next fuel a n z s (rw e no_fit) (ap (λ k. k.next) e) (omega arith),
              )
              (Finds-later s.heap_start xs b (first_fit n z (y ∷ ys)) (find_segment fuel z n s) (
                find_segment-Finds fuel n s (xs ++ (b ∷ [])) y ys z (rw append_assoc v)
                  (rw (end_of-append s.heap_start xs (b ∷ []), at_a)) h (omega arith)))
      ]

-- The pages of the state that the loop ends with.
abbrev pages_in : {P : Type 0} → Found P → P → P
pages_in (returned p s) w = s.pages
pages_in exhausted w = w
pages_in out_of_fuel w = w

module _ {P : Type 0} where
  take_segment-pages : (p n : ℕ) (s : Heap P) → (take_segment p n s).1.pages ≡ s.pages
  unfolding take_segment split_header insert_header
  take_segment-pages p n s = ground arith

  find_segment-pages :
      (fuel p n : ℕ) (s : Heap P) → pages_in (find_segment fuel p n s) s.pages ≡ s.pages
  unfolding find_segment
  find_segment-pages zero p n s = refl
  find_segment-pages (suc fuel) p n s =
      let rest = find_segment-pages fuel (s.header p).next n s in
      elim (Bool-cases ((s.header p).free && leb n (s.header p).length)) [
        | inl e ↦ rw e (take_segment-pages p n s)
        | inr e ↦ elim (Bool-cases ((s.header p).next == 0)) [
          | inl z ↦ simp (e, z)
          | inr z ↦ simp (e, z) rest
        ]
      ]

-- Rounding in machine words, where nothing wraps.
round_up-aligned : (r : ℕ) → r < 2 ^ 63 → round_up 0x10 r ≡ aligned r
round_up-aligned r h = ground arith

pub round_up-whole_pages : (n : ℕ) → n < 2 ^ 63 → round_up page_size n ≡ whole_pages n
round_up-whole_pages n h = ground arith

module _ (pager : Pager) where
  ensure_heap-ready : (s : Heap pager.State) → s.heap_initialized ≡ true → ensure_heap pager s ≡ s
  unfolding ensure_heap
  ensure_heap-ready s ready = simp ready

  pub malloc_without_fuel : (r : ℕ) (s : Heap pager.State) → malloc pager 0 r s ≡ none
  unfolding malloc
  malloc_without_fuel r s = refl

  malloc-returned :
      (f r p : ℕ) (s s' : Heap pager.State)
      → s.heap_initialized ≡ true
      → 0 < r
      → r < 2 ^ 63
      → find_segment (s.heap_end - s.heap_start) s.heap_start (aligned r) s ≡ returned p s'
      → malloc pager (suc f) r s ≡ some (p, s')
  unfolding malloc
  malloc-returned f r p s s' ready pos small found =
      let nonzero : (aligned r == 0) ≡ false = ground arith in
      rw (ensure_heap-ready s ready, round_up-aligned r small, nonzero, found)

  malloc-exhausted :
      (f r : ℕ) (s : Heap pager.State)
      → s.heap_initialized ≡ true
      → 0 < r
      → r < 2 ^ 63
      → find_segment (s.heap_end - s.heap_start) s.heap_start (aligned r) s ≡ exhausted
      → malloc pager (suc f) r s ≡ malloc pager f (aligned r) (expand_heap pager (aligned r) s)
  unfolding malloc
  malloc-exhausted f r s ready pos small found =
      let nonzero : (aligned r == 0) ≡ false = ground arith in
      rw (ensure_heap-ready s ready, round_up-aligned r small, nonzero, found)
        (rw (ensure_heap-ready s ready, round_up-aligned r small))

  -- The loop starts at the first segment, with enough rounds for all of them.
  find_segment_all :
      (n : ℕ) (s : Heap pager.State) (b : Block) (bs : List Block)
      → Holds s (b ∷ bs)
      → 16 ≤ n
      → Finds s.heap_start []
          (first_fit n s.heap_start (b ∷ bs))
          (find_segment (s.heap_end - s.heap_start) s.heap_start n s)
  find_segment_all n s b bs v h =
      find_segment-Finds (s.heap_end - s.heap_start) n s [] b bs s.heap_start v refl h
        (omega (arith, v.end_at, length-le-end_of s.heap_start (b ∷ bs)))

  -- A request that some segment fits gets the segment of first fit, and no page is mapped.
  pub malloc-first_fit :
      (f r p : ℕ) (s : Heap pager.State) (b : Block) (bs cs : List Block)
      → Holds s (b ∷ bs)
      → 0 < r
      → r < 2 ^ 63
      → first_fit (aligned r) s.heap_start (b ∷ bs) ≡ some (p, cs)
      → (s' : Heap pager.State) × (malloc pager (suc f) r s ≡ some (p, s'))
        × (s'.heap_start ≡ s.heap_start)
        × Holds s' cs
        × (s'.pages ≡ s.pages)
  malloc-first_fit f r p s b bs cs v pos small fits =
      let (s', e, h, v') =
        subst
          (λ o.
            Finds s.heap_start [] o
              (find_segment (s.heap_end - s.heap_start) s.heap_start (aligned r) s))
          fits (find_segment_all (aligned r) s b bs v (omega arith)) in
      let kept =
        ap (λ (o : Found pager.State). pages_in o s.pages) (sym e)
        ∙ find_segment-pages (s.heap_end - s.heap_start) s.heap_start (aligned r) s in
      (s', malloc-returned f r p s s' v.ready pos small e, h, v', kept)

  -- A request for which none fits grows the heap by one segment, and starts again.
  pub malloc-expand_heap :
      (f r : ℕ) (s : Heap pager.State) (b : Block) (bs : List Block)
      → Holds s (b ∷ bs)
      → 0 < r
      → s.heap_end + aligned r + 4096 < 2 ^ 63
      → first_fit (aligned r) s.heap_start (b ∷ bs) ≡ none
      → let t = expand_heap pager (aligned r) s in
        (malloc pager (suc f) r s ≡ malloc pager f (aligned r) t)
        × Holds t (b ∷ (bs ++ (new_segment (aligned r) ∷ [])))
  malloc-expand_heap f r s b bs v pos room none_fits =
      let all =
        subst
          (λ o.
            Finds s.heap_start [] o
              (find_segment (s.heap_end - s.heap_start) s.heap_start (aligned r) s))
          none_fits (find_segment_all (aligned r) s b bs v (omega arith)) in
      (
        malloc-exhausted f r s v.ready pos (omega arith) all,
        rw (← round_up-whole_pages (aligned r) (omega arith))
            (expand_heap-Holds pager s b bs (aligned r) v (omega arith) room),
      )
