-- ===== src/Heap/Free.antt =====
-- `free` on a heap that holds a list of blocks.
use mathlib.Core.Path.{subst}
use mathlib.Core.List.{append_assoc}
use titanix.Base.{
  ℕ, ◌+◌, ◌≡◌, refl, Bool, true, List, [], ◌∷◌, ◌++◌, arith, ap, ◌∙◌, sym, ◌⊎◌, inl, inr, sub64,
  ◌<◌, ◌^◌,
}
use titanix.Blocks.{
  le-end_of, end_of-append, Block, block, span, end_of, coalesce, release, coalesce-cons,
  release-snoc,
}
use titanix.Heap.{Header, Heap, set_free, combine_with_next, combine_with_prev, free}
use titanix.Heap.Chain.{
  header_of, link, last_of, Seg, Holds, Seg-drop, Seg-frame, splice, last_of-append, put_here,
  put_other,
}
use titanix.Heap.Combine.{
  combine_with_next-Holds, combine_with_prev-Holds, combine_with_prev-first,
  heap_start-combine_with_next,
}

-- A list is empty, or has a last element.
pub snoc-cases :
    (xs : List Block) → (xs ≡ []) ⊎ ((ws : List Block) × (w : Block) × (xs ≡ ws ++ (w ∷ [])))
snoc-cases [] = inl refl
snoc-cases (x ∷ xs) = elim (snoc-cases xs) [
  | inl e ↦ inr ([], x, rw e)
  | inr (ws, w, e) ↦ inr (x ∷ ws, w, rw e)
]

module _ {P : Type 0} where
  -- Writing the flag of one header.
  pub set_free-Holds :
      (s : Heap P) (a : ℕ) (xs : List Block) (b : Block) (ys : List Block) (f : Bool)
      → Holds s (xs ++ (b ∷ ys))
      → a ≡ end_of s.heap_start xs
      → Holds (set_free a f s) (xs ++ (block b.length f ∷ ys))
  set_free-Holds s a xs b ys f v at_a =
      let p = last_of 0 s.heap_start xs in
      let (e, c) = Seg-drop s.header 0 s.heap_start xs (b ∷ ys) 0 v.chain in
      let t = set_free a f s in
      let e' : s.header a ≡ header_of b p (link (a + span b) ys 0) = rw at_a e in
      let here : t.header a ≡ header_of (block b.length f) p (link (a + span b) ys 0) =
        put_here s.header a _ ∙ ap (λ (h : Header). record h { free = f }) e' in
      let c' : Seg t.header a (a + span b) ys 0 =
        Seg-frame s.header t.header a (a + span b) ys 0
          (λ q l r. put_other s.header a q _ (omega arith)) (rw at_a c) in
      splice s t xs b ys (block b.length f) ys v (record { start = refl; end = refl; init = refl })
        (λ q l r. put_other s.header a q _ (omega arith))
        (subst (λ k. Seg t.header p k (block b.length f ∷ ys) 0) at_a (here, c'))
        (v.last_at ∙ last_of-append 0 s.heap_start xs (b ∷ ys)) refl

  module _ (s : Heap P) (b : Block) (ys : List Block) where
    -- The state when `free` has marked the header and looked to the right.
    abbrev marked : ℕ → Heap P
    marked a = combine_with_next a (set_free a true s)

    marked-Holds :
        (xs : List Block)
        → Holds s (xs ++ (b ∷ ys))
        → Holds (marked (end_of s.heap_start xs)) (xs ++ coalesce (block b.length true) ys)
    marked-Holds xs v =
        combine_with_next-Holds (set_free (end_of s.heap_start xs) true s) xs (block b.length true)
          ys (set_free-Holds s (end_of s.heap_start xs) xs b ys true v refl)

    start-marked : (a : ℕ) → (marked a).heap_start ≡ s.heap_start
    start-marked a = heap_start-combine_with_next a (set_free a true s)

    free_steps : (a : ℕ) → a < 2 ^ 64 → free (a + 32) s ≡ combine_with_prev a (marked a)
    unfolding free
    free_steps a h = let e : sub64 (a + 32) 32 ≡ a = omega arith in rw e

    -- On a heap that holds a list of segments, `free` of the data address of any of them leaves a
    -- heap that holds the list where this segment is released: marked free, and joined with each
    -- neighbour that is free.
    pub free-Holds :
        (xs : List Block)
        → Holds s (xs ++ (b ∷ ys))
        → Holds (free (end_of s.heap_start xs + 32) s) (release xs b ys)
    unfolding release
    free-Holds xs v =
        let a = end_of s.heap_start xs in
        let near : a < 2 ^ 64 = omega (
          arith,
          v.end_fits,
          v.end_at,
          end_of-append s.heap_start xs (b ∷ ys),
          le-end_of a (b ∷ ys),
        ) in
        let (c, cs, k) = coalesce-cons (block b.length true) ys in
        let m : Holds (marked a) (xs ++ (c ∷ cs)) = rw k at (marked-Holds xs v) in
        elim (snoc-cases xs) [
          | inl e ↦
              let m0 : Holds (marked a) (c ∷ cs) =
                subst (λ l. Holds (marked a) (l ++ (c ∷ cs))) e m in
              let start : a ≡ (marked a).heap_start =
                ap (end_of s.heap_start) e ∙ sym (start-marked a) in
              rw (free_steps a near, combine_with_prev-first (marked a) a c cs m0 start)
                (subst (λ l. Holds (marked a) (release l b ys)) (sym e) (rw k m0))
          | inr (ws, w, e) ↦
              let m1 : Holds (marked a) (ws ++ (w ∷ c ∷ cs)) =
                rw append_assoc at (subst (λ l. Holds (marked a) (l ++ (c ∷ cs))) e m) in
              let next : a ≡ end_of (marked a).heap_start ws + span w =
                ap (end_of s.heap_start) e
                ∙ end_of-append s.heap_start ws (w ∷ [])
                ∙ rw (start-marked a) in
              rw (free_steps a near) (
                subst (λ l. Holds (combine_with_prev a (marked a)) (release l b ys)) (sym e)
                  (rw (release-snoc ws w b ys, k)
                    (combine_with_prev-Holds (marked a) a ws w c cs m1 next)))
        ]
