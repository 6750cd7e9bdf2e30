-- ===== src/Heap/Split.antt =====
-- `split_header` and the branch of `malloc` that takes a segment.
use mathlib.Core.Path.{subst, subst₂}
use titanix.Base.{
  ℕ, ◌+◌, ◌-◌, ◌≤◌, ◌<◌, ◌≡◌, ◌≢◌, List, [], ◌∷◌, ◌++◌, arith, ◌^◌, sub64, ap, ◌∙◌, true,
  Bool-cases, leb, inl, inr, ltb, lt→ltb, false, sym,
}
use titanix.Blocks.{le-end_of, end_of-append, Block, block, span, end_of, carve}
use titanix.Heap.{Heap, insert_header, split_header, take_segment, set_free}
use titanix.Heap.Free.{set_free-Holds}
use titanix.Heap.Chain.{
  header_of, link, last_of, Holds, SameFrame, Seg, Seg-drop, Seg-relink, splice, last_of-append,
  le-last_of, ne-link,
}

module _ {P : Type 0} where
  -- The state after `insert_header`: `w` is the new header, `m` its length.
  record Inserted (s t : Heap P) (b : Block) (p a n m nn : ℕ) : Type 0 where
    frame : SameFrame s t
    here : t.header a ≡ header_of (block n b.free) p (a + 32 + n)
    there : t.header (a + 32 + n) ≡ header_of (block m b.free) a nn
    others : (q : ℕ) → q ≢ a → q ≢ a + 32 + n → q ≢ nn → t.header q ≡ s.header q
    last_moves : s.last ≡ a → t.last ≡ a + 32 + n
    last_stays : s.last ≢ a → t.last ≡ s.last

  insert_header_end :
      (s : Heap P) (b : Block) (p a n m : ℕ)
      → s.header a ≡ header_of b p 0
      → n + 32 + m ≡ b.length
      → a + span b < 2 ^ 64
      → Inserted s (insert_header a n m s).1 b p a n m 0 × ((insert_header a n m s).0 ≡ a + 32 + n)
  unfolding insert_header
  insert_header_end s b p a n m e len fits = (
    record {
      frame = ground arith;
      here = ground arith;
      there = ground arith;
      others = λ q na nw nz. ground arith;
      last_moves = λ l. ground arith;
      last_stays = λ l. ground arith;
    },
    ground arith,
  )

  insert_header_mid :
      (s : Heap P) (b : Block) (p a n m z : ℕ)
      → s.header a ≡ header_of b p z
      → n + 32 + m ≡ b.length
      → a + span b ≤ z
      → a + span b < 2 ^ 64
      → Inserted s (insert_header a n m s).1 b p a n m z
        × ((insert_header a n m s).1.header z ≡ record (s.header z) { prev = a + 32 + n })
  unfolding insert_header
  insert_header_mid s b p a n m z e len far fits = (
    record {
      frame = ground arith;
      here = ground arith;
      there = ground arith;
      others = λ q na nw nz. ground arith;
      last_moves = λ l. ground arith;
      last_stays = λ l. ground arith;
    },
    ground arith,
  )

  insert_header-Seg :
      (s : Heap P) (b : Block) (ys : List Block) (p a n m : ℕ)
      → Seg s.header p a (b ∷ ys) 0
      → n + 32 + m ≡ b.length
      → end_of a (b ∷ ys) < 2 ^ 64
      → Inserted s (insert_header a n m s).1 b p a n m (link (a + span b) ys 0)
        × Seg (insert_header a n m s).1.header p a (block n b.free ∷ block m b.free ∷ ys) 0
  insert_header-Seg s b [] p a n m (e, u) len fits =
      let (t, _) = insert_header_end s b p a n m e len fits in
      let w : a + 32 + n ≡ a + (32 + n) = omega arith in
      (t, (rw (← w) t.here, (rw (← w) t.there, tt)))
  insert_header-Seg s b (y ∷ ys) p a n m (e, c) len fits =
      let z = a + span b in
      let (t, tz) =
        insert_header_mid s b p a n m z e len (omega arith)
          (omega (arith, le-end_of (a + span b) (y ∷ ys))) in
      let w : a + 32 + n ≡ a + (32 + n) = omega arith in
      let same : z ≡ a + (32 + n) + (32 + m) = omega arith in
      let c' : Seg (insert_header a n m s).1.header (a + 32 + n) z (y ∷ ys) 0 =
        Seg-relink s.header (insert_header a n m s).1.header a (a + 32 + n) z y ys 0 c tz
          (λ q l r. t.others q (omega arith) (omega arith) (omega arith)) in
      (
        t,
        (
          rw (← w) t.here,
          (
            rw (← same, ← w) t.there,
            subst₂ (λ i j. Seg (insert_header a n m s).1.header i j (y ∷ ys) 0) w same c',
          ),
        ),
      )

  insert_header-last :
      (s : Heap P) (b : Block) (ys : List Block) (p a n m nn : ℕ)
      → Inserted s (insert_header a n m s).1 b p a n m nn
      → n + 32 + m ≡ b.length
      → s.last ≡ last_of p a (b ∷ ys)
      → (insert_header a n m s).1.last ≡ last_of p a (block n b.free ∷ block m b.free ∷ ys)
  insert_header-last s b [] p a n m nn t len l = t.last_moves l ∙ omega arith
  insert_header-last s b (y ∷ ys) p a n m nn t len l =
      let z = a + span b in
      let same : z ≡ a + (32 + n) + (32 + m) = omega arith in
      let far : z ≤ last_of a z (y ∷ ys) = le-last_of a z y ys in
      rw (← same) (t.last_stays (omega arith) ∙ l)

  -- A new header inside a segment cuts it in two.
  pub insert_header-Holds :
      (s : Heap P) (xs : List Block) (b : Block) (ys : List Block) (n m : ℕ)
      → Holds s (xs ++ (b ∷ ys))
      → n + 32 + m ≡ b.length
      → Holds
          (insert_header (end_of s.heap_start xs) n m s).1
          (xs ++ (block n b.free ∷ block m b.free ∷ ys))
  insert_header-Holds s xs b ys n m v len =
      let a = end_of s.heap_start xs in
      let p = last_of 0 s.heap_start xs in
      let (t, chain) =
        insert_header-Seg s b ys p a n m (Seg-drop s.header 0 s.heap_start xs (b ∷ ys) 0 v.chain)
          len (omega (arith, v.end_fits, v.end_at, end_of-append s.heap_start xs (b ∷ ys))) in
      let last = v.last_at ∙ last_of-append 0 s.heap_start xs (b ∷ ys) in
      splice s (insert_header a n m s).1 xs b ys (block n b.free) (block m b.free ∷ ys) v t.frame
        (λ q l r.
          t.others q (omega arith) (omega arith)
            (ne-link q (a + span b) ys (omega (arith, v.start_pos)) (omega arith)))
        chain (insert_header-last s b ys p a n m (link (a + span b) ys 0) t len last)
        (ap (λ k. end_of k ys) (omega arith))

  heap_start-insert_header :
      (a n m : ℕ) (s : Heap P) → (insert_header a n m s).1.heap_start ≡ s.heap_start
  unfolding insert_header
  heap_start-insert_header a n m s = ground arith

  -- The two branches of `malloc` on a free segment that is long enough.
  split_header-go :
      (s : Heap P) (a n : ℕ)
      → 16 ≤ n
      → n + 48 ≤ (s.header a).length
      → (s.header a).length < 2 ^ 63
      → split_header a n s ≡ insert_header a n ((s.header a).length - n - 32) s
  unfolding split_header
  split_header-go s a n h fit small = ground arith

  split_header-stop :
      (s : Heap P) (a n : ℕ)
      → n ≤ (s.header a).length
      → (s.header a).length < n + 48
      → (s.header a).length < 2 ^ 63
      → split_header a n s ≡ (0, s)
  unfolding split_header
  split_header-stop s a n h fit small = ground arith

  heap_start-split_header :
      (a n : ℕ) (s : Heap P) → (split_header a n s).1.heap_start ≡ s.heap_start
  unfolding split_header
  heap_start-split_header a n s =
      ground (arith, heap_start-insert_header a n (sub64 (sub64 (s.header a).length n) 32) s)

  pub heap_start-take_segment :
      (a n : ℕ) (s : Heap P) → (take_segment a n s).1.heap_start ≡ s.heap_start
  unfolding take_segment
  heap_start-take_segment a n s = ground (arith, heap_start-split_header a n s)

  pub address-take_segment : (a n : ℕ) (s : Heap P) → a < 2 ^ 63 → (take_segment a n s).0 ≡ a + 32
  unfolding take_segment
  address-take_segment a n s h = omega arith

  pub block_length-lt :
      (s : Heap P) (xs : List Block) (b : Block) (ys : List Block)
      → Holds s (xs ++ (b ∷ ys))
      → end_of s.heap_start xs + 32 + b.length < 2 ^ 63
  block_length-lt s xs b ys v =
      let a = end_of s.heap_start xs in
      omega (
        arith,
        v.end_fits,
        v.end_at,
        end_of-append s.heap_start xs (b ∷ ys),
        le-end_of (a + span b) ys,
      )

  take_segment-cut :
      (s : Heap P) (a n : ℕ)
      → 16 ≤ n
      → n + 48 ≤ (s.header a).length
      → (s.header a).length < 2 ^ 63
      → (take_segment a n s).1
        ≡ set_free a false (insert_header a n ((s.header a).length - n - 32) s).1
  unfolding take_segment
  take_segment-cut s a n h fit small =
      rw (lt→ltb n (s.header a).length (omega arith), split_header-go s a n h fit small)

  take_segment_whole :
      (s : Heap P) (a n : ℕ)
      → n ≤ (s.header a).length
      → (s.header a).length < n + 48
      → (s.header a).length < 2 ^ 63
      → (take_segment a n s).1 ≡ set_free a false s
  unfolding take_segment
  take_segment_whole s a n h fit small = elim (Bool-cases (ltb n (s.header a).length)) [
    | inl t ↦ rw (t, split_header-stop s a n h fit small)
    | inr t ↦ rw t
  ]

  -- `malloc` takes the segment `b`: it is cut if it is long enough, and marked as in use.
  pub take_segment-Holds :
      (s : Heap P) (a : ℕ) (xs : List Block) (b : Block) (ys : List Block) (n : ℕ)
      → Holds s (xs ++ (b ∷ ys))
      → a ≡ end_of s.heap_start xs
      → 16 ≤ n
      → n ≤ b.length
      → b.free ≡ true
      → Holds (take_segment a n s).1 (xs ++ carve n b ys)
  unfolding carve
  take_segment-Holds s a xs b ys n v at_a h fit free =
      let (e, _) = Seg-drop s.header 0 s.heap_start xs (b ∷ ys) 0 v.chain in
      let len : (s.header a).length ≡ b.length = rw at_a (ap (λ k. k.length) e) in
      let small = block_length-lt s xs b ys v in
      elim (Bool-cases (leb (n + 48) b.length)) [
        | inl cut ↦
            let m = b.length - n - 32 in
            let t = (insert_header a n m s).1 in
            let ins : Holds t (xs ++ (block n b.free ∷ block m b.free ∷ ys)) =
              subst
                (λ k.
                  Holds (insert_header k n m s).1 (xs ++ (block n b.free ∷ block m b.free ∷ ys)))
                (sym at_a) (insert_header-Holds s xs b ys n m v (ground arith)) in
            let at_t : a ≡ end_of t.heap_start xs = rw (heap_start-insert_header a n m s) at_a in
            let used : Holds (set_free a false t) (xs ++ (block n false ∷ block m b.free ∷ ys)) =
              set_free-Holds t a xs (block n b.free) (block m b.free ∷ ys) false ins at_t in
            rw (take_segment-cut s a n h (ground arith) (omega arith), len, cut) (rw free at used)
        | inr whole ↦
            rw (take_segment_whole s a n (omega arith) (ground arith) (omega arith), whole)
              (set_free-Holds s a xs b ys false v at_a)
      ]
