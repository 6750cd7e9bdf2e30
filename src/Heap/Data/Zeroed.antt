-- ===== src/Heap/Data/Zeroed.antt =====
-- `calloc` on a heap that holds a list of segments.
use titanix.Pager.{Pager}
use titanix.Base.{ℕ, suc, ◌+◌, ◌*◌, ◌<◌, ◌≡◌, ◌^◌, refl, some, List, ◌∷◌, arith, mul64}
use titanix.Memory.{Memory, memset}
use titanix.Memory.Laws.{memset_lem}
use titanix.Blocks.{Block, InUse, first_fit, aligned}
use titanix.Blocks.InUse.{Taken}
use titanix.Heap.{Heap, malloc}
use titanix.Heap.Chain.{Holds}
use titanix.Heap.Safety.{malloc-Taken}
use titanix.Heap.Data.{calloc}
use titanix.Heap.Data.Apart.{InUse-apart}

-- The bytes of all data in use are as they were.
abbrev pub SameData : (a : ℕ) → List Block → (m m' : Memory) → Type 0
SameData a bs m m' = (q l k : ℕ) → InUse a bs q l → k < l → m' (q + k) ≡ m (q + k)

module _ (pager : Pager) where
  calloc_runs :
      (f num size p : ℕ) (s s' : Heap pager.State) (m : Memory)
      → num * size < 2 ^ 63
      → malloc pager f (num * size) s ≡ some (p, s')
      → calloc pager f num size s m ≡ some (p, s', (memset p 0 (num * size) m).1)
  unfolding calloc
  calloc_runs f num size p s s' m w run =
      let e : mul64 num size ≡ num * size = omega arith in rw (calloc, e, run) refl

  -- On a heap that holds a list of segments, for a positive product of number and size below 2 ^
  -- 63 that some segment fits, `calloc` returns, on any fuel above zero, the address that first
  -- fit finds for the product, which was not in use. The heap holds the segments that first fit
  -- leaves. The bytes of the product from the address on are zero, and the bytes of all data in
  -- use are as they were.
  pub calloc-Taken :
      (f num size p : ℕ) (s : Heap pager.State) (m : Memory) (b : Block) (bs cs : List Block)
      → Holds s (b ∷ bs)
      → 0 < num * size
      → num * size < 2 ^ 63
      → first_fit (aligned (num * size)) s.heap_start (b ∷ bs) ≡ some (p, cs)
      → (s' : Heap pager.State) × (m' : Memory) × (calloc pager (suc f) num size s m
          ≡ some (p, s', m'))
        × Holds s' cs
        × Taken (aligned (num * size)) s.heap_start (b ∷ bs) p cs
        × ((k : ℕ) → k < num * size → m' (p + k) ≡ 0)
        × SameData s.heap_start (b ∷ bs) m m'
  calloc-Taken f num size p s m b bs cs v pos w fits =
      let n = num * size in
      let (s', run, start, v', t) = malloc-Taken pager f n p s b bs cs v pos w fits in
      let (g, enough, few, u) = t.got in
      (
        s',
        (memset p 0 n m).1,
        calloc_runs (suc f) num size p s s' m w run,
        v',
        t,
        λ k h. (memset_lem p 0 n k (p + n) m h (omega arith)).1,
        λ q l k i h.
            let apart = InUse-apart s.heap_start cs p g q l u (t.kept q l i) (t.fresh q l i) in
            (memset_lem p 0 n 0 (q + k) m pos (omega arith)).2,
      )
