-- ===== src/Heap/Chain.antt =====
-- The doubly linked headers of the heap as a chain, the relation of its state to a list of blocks,
-- and what a write to one header does to the rest of a chain.
use titanix.Base.{ℕ, ◌+◌, ◌≤◌, ◌<◌, ◌≡◌, ◌≢◌, refl, true, List, [], ◌∷◌, ◌++◌, arith, ◌^◌, ◌∙◌}
use titanix.Blocks.{Block, span, end_of, le-end_of, end_of-append}
use titanix.Heap.{Header, Store, put, Heap}

abbrev pub header_of : Block → ℕ → ℕ → Header
header_of b p n = record { length = b.length; prev = p; next = n; free = b.free }

-- The address of the first header of `bs`, which starts at `a`, or what stands behind it.
abbrev pub link : ℕ → List Block → ℕ → ℕ
link a [] nxt = nxt
link a (b ∷ bs) nxt = a

-- The address of the last header of `bs`, or what stands before it.
abbrev pub last_of : ℕ → ℕ → List Block → ℕ
last_of p a [] = p
last_of p a (b ∷ bs) = last_of a (a + span b) bs

-- From address `a` on the headers of `bs` follow one another. The first points back to `p`, and
-- the last points on to `nxt`.
abbrev pub Seg : Store → ℕ → ℕ → List Block → ℕ → Type 0
Seg h p a [] nxt = Unit {0}
Seg h p a (b ∷ bs) nxt =
    (h a ≡ header_of b p (link (a + span b) bs nxt)) × Seg h a (a + span b) bs nxt

-- The state of the heap stands for a list of blocks.
pub record Holds {P : Type 0} (s : Heap P) (bs : List Block) : Type 0 where
  pub ready : s.heap_initialized ≡ true
  pub chain : Seg s.header 0 s.heap_start bs 0
  pub last_at : s.last ≡ last_of 0 s.heap_start bs
  pub end_at : s.heap_end ≡ end_of s.heap_start bs
  pub start_pos : 0 < s.heap_start
  pub end_fits : s.heap_end < 2 ^ 63

pub put_here : (h : Store) (a : ℕ) (v : Header) → put h a v a ≡ v
put_here h a v = ground arith

pub put_other : (h : Store) (a q : ℕ) (v : Header) → q ≢ a → put h a v q ≡ h q
put_other h a q v ne = ground arith

pub last_of-append :
    (p a : ℕ) (xs ys : List Block)
    → last_of p a (xs ++ ys) ≡ last_of (last_of p a xs) (end_of a xs) ys
last_of-append p a [] ys = refl
last_of-append p a (x ∷ xs) ys = last_of-append a (a + span x) xs ys

-- A chain survives a change of the store outside its addresses.
pub Seg-frame :
    (h g : Store) (p a : ℕ) (bs : List Block) (nxt : ℕ)
    → ((q : ℕ) → a ≤ q → q < end_of a bs → g q ≡ h q)
    → Seg h p a bs nxt
    → Seg g p a bs nxt
Seg-frame h g p a [] nxt same c = tt
Seg-frame h g p a (b ∷ bs) nxt same (e, c) = (
  same a (omega arith) (omega (arith, le-end_of (a + span b) bs)) ∙ e,
  Seg-frame h g a (a + span b) bs nxt (λ q l r. same q (omega arith) r) c,
)

pub Seg-append :
    (h : Store) (p a : ℕ) (xs ys : List Block) (nxt : ℕ)
    → Seg h p a xs (link (end_of a xs) ys nxt)
    → Seg h (last_of p a xs) (end_of a xs) ys nxt
    → Seg h p a (xs ++ ys) nxt
Seg-append h p a [] ys nxt c d = d
Seg-append h p a (x ∷ []) ys nxt (e, c) d = (e, d)
Seg-append h p a (x ∷ y ∷ xs) ys nxt (e, c) d = (e, Seg-append h a (a + span x) (y ∷ xs) ys nxt c d)

-- Below a point of the chain nothing changes; from there on it is another chain.
pub Seg-replace :
    (h g : Store) (p a : ℕ) (xs : List Block) (y : Block) (ys : List Block) (z : Block)
    (zs : List Block) (nxt : ℕ)
    → Seg h p a (xs ++ (y ∷ ys)) nxt
    → ((q : ℕ) → a ≤ q → q < end_of a xs → g q ≡ h q)
    → Seg g (last_of p a xs) (end_of a xs) (z ∷ zs) nxt
    → Seg g p a (xs ++ (z ∷ zs)) nxt
Seg-replace h g p a [] y ys z zs nxt c same d = d
Seg-replace h g p a (x ∷ []) y ys z zs nxt (e, c) same d =
    (same a (omega arith) (omega arith) ∙ e, d)
Seg-replace h g p a (x ∷ w ∷ xs) y ys z zs nxt (e, c) same d = (
  same a (omega arith) (omega (arith, le-end_of (a + span x) (w ∷ xs))) ∙ e,
  Seg-replace h g a (a + span x) (w ∷ xs) y ys z zs nxt c (λ q l r. same q (omega arith) r) d,
)

-- The chain from a point inside it.
pub Seg-drop :
    (h : Store) (p a : ℕ) (xs ys : List Block) (nxt : ℕ)
    → Seg h p a (xs ++ ys) nxt
    → Seg h (last_of p a xs) (end_of a xs) ys nxt
Seg-drop h p a [] ys nxt c = c
Seg-drop h p a (x ∷ xs) ys nxt (e, c) = Seg-drop h a (a + span x) xs ys nxt c

-- A nonempty chain whose first header is given another predecessor.
pub Seg-relink :
    (h g : Store) (p p' a : ℕ) (b : Block) (bs : List Block) (nxt : ℕ)
    → Seg h p a (b ∷ bs) nxt
    → g a ≡ record (h a) { prev = p' }
    → ((q : ℕ) → a < q → q < end_of a (b ∷ bs) → g q ≡ h q)
    → Seg g p' a (b ∷ bs) nxt
Seg-relink h g p p' a b bs nxt (e, c) first same =
    (rw (first, e) refl, Seg-frame h g a (a + span b) bs nxt (λ q l r. same q (omega arith) r) c)

pub le-last_of : (p a : ℕ) (b : Block) (bs : List Block) → a ≤ last_of p a (b ∷ bs)
le-last_of p a b [] = omega arith
le-last_of p a b (c ∷ bs) = omega (arith, le-last_of a (a + span b) c bs)

pub ne-link : (q a : ℕ) (bs : List Block) → 0 < q → q < a → q ≢ link a bs 0
ne-link q a [] pos lt = omega arith
ne-link q a (b ∷ bs) pos lt = omega arith

module _ {P : Type 0} where
  -- What most calls keep of the state.
  pub record SameFrame (s t : Heap P) : Type 0 where
    pub start : t.heap_start ≡ s.heap_start
    pub end : t.heap_end ≡ s.heap_end
    pub init : t.heap_initialized ≡ s.heap_initialized

  -- A call that works above one point of the chain, and leaves the end of the heap alone.
  pub splice :
      (s t : Heap P) (xs : List Block) (y : Block) (ys : List Block) (z : Block) (zs : List Block)
      → Holds s (xs ++ (y ∷ ys))
      → SameFrame s t
      → ((q : ℕ) → s.heap_start ≤ q → q < end_of s.heap_start xs → t.header q ≡ s.header q)
      → Seg t.header (last_of 0 s.heap_start xs) (end_of s.heap_start xs) (z ∷ zs) 0
      → t.last ≡ last_of (last_of 0 s.heap_start xs) (end_of s.heap_start xs) (z ∷ zs)
      → end_of (end_of s.heap_start xs) (z ∷ zs) ≡ end_of (end_of s.heap_start xs) (y ∷ ys)
      → Holds t (xs ++ (z ∷ zs))
  splice s t xs y ys z zs v f same c l e = record {
    ready = f.init ∙ v.ready;
    chain = rw f.start (Seg-replace s.header t.header 0 s.heap_start xs y ys z zs 0 v.chain same c);
    last_at = rw (f.start, last_of-append 0 s.heap_start xs (z ∷ zs)) l;
    end_at =
        rw
          (
            f.start,
            end_of-append s.heap_start xs (z ∷ zs),
            e,
            ← end_of-append s.heap_start xs (y ∷ ys),
          )
          (f.end ∙ v.end_at);
    start_pos = rw f.start v.start_pos;
    end_fits = rw f.end v.end_fits;
  }

-- A nonempty chain whose last header is given another successor.
pub Seg-extend :
    (h g : Store) (p a : ℕ) (b : Block) (bs : List Block) (nxt : ℕ)
    → Seg h p a (b ∷ bs) 0
    → g (last_of p a (b ∷ bs)) ≡ record (h (last_of p a (b ∷ bs))) { next = nxt }
    → ((q : ℕ) → q ≢ last_of p a (b ∷ bs) → q < end_of a (b ∷ bs) → g q ≡ h q)
    → Seg g p a (b ∷ bs) nxt
Seg-extend h g p a b [] nxt (e, c) at_last same = (rw (at_last, e) refl, tt)
Seg-extend h g p a b (d ∷ bs) nxt (e, c) at_last same =
    let z = a + span b in
    (
      same a (omega (arith, le-last_of a z d bs)) (omega (arith, le-end_of z (d ∷ bs))) ∙ e,
      Seg-extend h g a z d bs nxt c at_last same,
    )

pub last_of-lt : (p a : ℕ) (b : Block) (bs : List Block) → last_of p a (b ∷ bs) < end_of a (b ∷ bs)
last_of-lt p a b [] = omega arith
last_of-lt p a b (c ∷ bs) = last_of-lt a (a + span b) c bs
