-- ===== src/Heap/Combine.antt =====
-- `combine_with_next` and `combine_with_prev` on a heap that holds a list of blocks.
use titanix.Base.{
  ℕ, ◌+◌, ◌≤◌, ◌<◌, ◌≡◌, ◌≢◌, true, false, List, [], ◌∷◌, ◌++◌, arith, ◌^◌, ◌∙◌, ap, ◌⊎◌, inl, inr,
  Bool-cases,
}
use titanix.Blocks.{
  le-end_of, end_of-append, Block, span, end_of, merged, coalesce, join, coalesce-free,
  coalesce_used, join-free, join_used,
}
use titanix.Heap.{Heap, absorb_next, combine_with_next, combine_with_prev}
use titanix.Heap.Chain.{
  header_of, link, last_of, Seg, Holds, last_of-append, Seg-drop, Seg-relink, SameFrame, splice,
  le-last_of, ne-link,
}

module _ {P : Type 0} where
  -- The state after `absorb_next` at the segment before the last one.
  record Absorbed (s t : Heap P) (b c : Block) (p a nn : ℕ) : Type 0 where
    frame : SameFrame s t
    here : t.header a ≡ header_of (merged b c) p nn
    others : (q : ℕ) → q ≢ a → q ≢ nn → t.header q ≡ s.header q
    last_moves : s.last ≡ a + span b → t.last ≡ a
    last_stays : s.last ≢ a + span b → t.last ≡ s.last

  absorb_next_end :
      (s : Heap P) (b c : Block) (p a : ℕ)
      → s.header a ≡ header_of b p (a + span b)
      → s.header (a + span b) ≡ header_of c a 0
      → 0 < a
      → a + span b + span c < 2 ^ 64
      → Absorbed s (absorb_next a s) b c p a 0
  unfolding absorb_next
  absorb_next_end s b c p a e f pos fits = record {
    frame = ground arith;
    here = ground arith;
    others = λ q ne nz. ground arith;
    last_moves = λ l. ground arith;
    last_stays = λ l. ground arith;
  }

  absorb_next_mid :
      (s : Heap P) (b c : Block) (p a z : ℕ)
      → s.header a ≡ header_of b p (a + span b)
      → s.header (a + span b) ≡ header_of c a z
      → a + span b < z
      → 0 < a
      → a + span b + span c < 2 ^ 64
      → Absorbed s (absorb_next a s) b c p a z
        × ((absorb_next a s).header z ≡ record (s.header z) { prev = a })
  unfolding absorb_next
  absorb_next_mid s b c p a z e f lt pos fits = (
    record {
      frame = ground arith;
      here = ground arith;
      others = λ q ne nz. ground arith;
      last_moves = λ l. ground arith;
      last_stays = λ l. ground arith;
    },
    ground arith,
  )

  -- The chain after it, from the merged segment on.
  absorb_next-Seg :
      (s : Heap P) (b c : Block) (ds : List Block) (p a : ℕ)
      → Seg s.header p a (b ∷ c ∷ ds) 0
      → 0 < a
      → end_of a (b ∷ c ∷ ds) < 2 ^ 64
      → Absorbed s (absorb_next a s) b c p a (link (a + span b + span c) ds 0)
        × Seg (absorb_next a s).header p a (merged b c ∷ ds) 0
  absorb_next-Seg s b c [] p a (e, (f, u)) pos fits =
      let t = absorb_next_end s b c p a e f pos fits in (t, (t.here, tt))
  absorb_next-Seg s b c (d ∷ ds) p a (e, (f, u)) pos fits =
      let z = a + span b + span c in
      let (t, tz) =
        absorb_next_mid s b c p a z e f (omega arith) pos
          (omega (arith, le-end_of (a + span b + span c) (d ∷ ds))) in
      let same : z ≡ a + span (merged b c) = omega arith in
      (
        t,
        (
          rw (← same) t.here,
          rw (← same) (
              Seg-relink s.header (absorb_next a s).header (a + span b) a z d ds 0 u tz
                (λ q l r. t.others q (omega arith) (omega arith))),
        ),
      )

  absorb_next-last :
      (s : Heap P) (b c : Block) (ds : List Block) (p a nn : ℕ)
      → Absorbed s (absorb_next a s) b c p a nn
      → s.last ≡ last_of p a (b ∷ c ∷ ds)
      → (absorb_next a s).last ≡ last_of p a (merged b c ∷ ds)
  absorb_next-last s b c [] p a nn t l = t.last_moves l
  absorb_next-last s b c (d ∷ ds) p a nn t l =
      let z = a + span b + span c in
      let same : z ≡ a + span (merged b c) = omega arith in
      let far : z ≤ last_of (a + span b) z (d ∷ ds) = le-last_of (a + span b) z d ds in
      rw (← same) (t.last_stays (omega arith) ∙ l)

  absorb_next-Holds :
      (s : Heap P) (xs : List Block) (b c : Block) (ys : List Block)
      → Holds s (xs ++ (b ∷ c ∷ ys))
      → Holds (absorb_next (end_of s.heap_start xs) s) (xs ++ (merged b c ∷ ys))
  absorb_next-Holds s xs b c ys v =
      let a = end_of s.heap_start xs in
      let p = last_of 0 s.heap_start xs in
      let (t, chain) =
        absorb_next-Seg s b c ys p a (Seg-drop s.header 0 s.heap_start xs (b ∷ c ∷ ys) 0 v.chain)
          (omega (arith, v.start_pos, le-end_of s.heap_start xs))
          (omega (arith, v.end_fits, v.end_at, end_of-append s.heap_start xs (b ∷ c ∷ ys))) in
      let last = v.last_at ∙ last_of-append 0 s.heap_start xs (b ∷ c ∷ ys) in
      splice s (absorb_next a s) xs b (c ∷ ys) (merged b c) ys v t.frame
        (λ q l r.
          t.others q (omega arith)
            (ne-link q (a + span b + span c) ys (omega (arith, v.start_pos)) (omega arith)))
        chain (absorb_next-last s b c ys p a (link (a + span b + span c) ys 0) t last)
        (ap (λ k. end_of k ys) (omega arith))

  pub combine_with_next-stop :
      (s : Heap P) (a : ℕ)
      → ((s.header a).next ≡ 0) ⊎ ((s.header (s.header a).next).free ≡ false)
      → combine_with_next a s ≡ s
  unfolding combine_with_next
  combine_with_next-stop s a h = ground arith

  combine_with_next-go :
      (s : Heap P) (a : ℕ)
      → (s.header a).next ≢ 0
      → (s.header (s.header a).next).free ≡ true
      → combine_with_next a s ≡ absorb_next a s
  unfolding combine_with_next
  combine_with_next-go s a h f = ground arith

  -- On a heap that holds a list of segments, `combine_with_next` at any of them leaves a heap that
  -- holds the list where this segment takes in the next one if that is free, header and data.
  pub combine_with_next-Holds :
      (s : Heap P) (xs : List Block) (b : Block) (ys : List Block)
      → Holds s (xs ++ (b ∷ ys))
      → Holds (combine_with_next (end_of s.heap_start xs) s) (xs ++ coalesce b ys)
  unfolding coalesce
  combine_with_next-Holds s xs b [] v =
      let (e, _) = Seg-drop s.header 0 s.heap_start xs (b ∷ []) 0 v.chain in
      rw (combine_with_next-stop s (end_of s.heap_start xs) (inl (ground arith))) v
  combine_with_next-Holds s xs b (c ∷ ys) v =
      let (e, (f, _)) = Seg-drop s.header 0 s.heap_start xs (b ∷ c ∷ ys) 0 v.chain in
      elim (Bool-cases c.free) [
        | inl h ↦
            rw
              (
                combine_with_next-go s (end_of s.heap_start xs) (ground arith) (ground arith),
                coalesce-free b c ys h,
              )
              (absorb_next-Holds s xs b c ys v)
        | inr h ↦
            rw
              (
                combine_with_next-stop s (end_of s.heap_start xs) (inr (ground arith)),
                coalesce_used b c ys h,
              )
              v
      ]

  combine_with_prev-stop :
      (s : Heap P) (a : ℕ)
      → ((s.header a).prev ≡ 0) ⊎ ((s.header (s.header a).prev).free ≡ false)
      → combine_with_prev a s ≡ s
  unfolding combine_with_prev
  combine_with_prev-stop s a h = ground arith

  combine_with_prev-go :
      (s : Heap P) (a : ℕ)
      → (s.header a).prev ≢ 0
      → (s.header (s.header a).prev).free ≡ true
      → combine_with_prev a s ≡ combine_with_next (s.header a).prev s
  unfolding combine_with_prev
  combine_with_prev-go s a h f = ground arith

  -- `combine_with_prev` at the segment behind `w` joins the two if both are free.
  pub combine_with_prev-Holds :
      (s : Heap P) (a : ℕ) (ws : List Block) (w b : Block) (ys : List Block)
      → Holds s (ws ++ (w ∷ b ∷ ys))
      → a ≡ end_of s.heap_start ws + span w
      → Holds (combine_with_prev a s) (ws ++ join w (b ∷ ys))
  combine_with_prev-Holds s a ws w b ys v at_a =
      let (e, (f, _)) = Seg-drop s.header 0 s.heap_start ws (w ∷ b ∷ ys) 0 v.chain in
      let prev : (s.header a).prev ≡ end_of s.heap_start ws = rw at_a (ap (λ h. h.prev) f) in
      let pos : end_of s.heap_start ws ≢ 0 =
        omega (arith, v.start_pos, le-end_of s.heap_start ws) in
      elim (Bool-cases w.free) [
        | inl h ↦
            rw
              (combine_with_prev-go s a (ground arith) (ground arith), prev, join-free w (b ∷ ys) h)
              (combine_with_next-Holds s ws w (b ∷ ys) v)
        | inr h ↦ rw (combine_with_prev-stop s a (inr (ground arith)), join_used w (b ∷ ys) h) v
      ]

  -- Nothing stands before the first segment.
  pub combine_with_prev-first :
      (s : Heap P) (a : ℕ) (b : Block) (ys : List Block)
      → Holds s (b ∷ ys)
      → a ≡ s.heap_start
      → combine_with_prev a s ≡ s
  combine_with_prev-first s a b ys v at_a =
      combine_with_prev-stop s a (inl (rw at_a (ap (λ h. h.prev) v.chain.0)))

  pub heap_start-combine_with_next :
      (a : ℕ) (s : Heap P) → (combine_with_next a s).heap_start ≡ s.heap_start
  unfolding combine_with_next absorb_next
  heap_start-combine_with_next a s = ground arith
