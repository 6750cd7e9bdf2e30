-- ===== src/Heap/Data/Moved.antt =====
-- `realloc` on a heap that holds a list of segments.
use titanix.Pager.{Pager}
use mathlib.Core.Path.{subst}
use titanix.Base.{
  true, leb, ◌==◌, ◌||◌, ℕ, suc, ◌+◌, ◌≤◌, ◌<◌, ◌≡◌, ◌^◌, refl, some, List, ◌∷◌, arith, sub64, u32,
  sym,
}
use titanix.Memory.{Memory, memcpy}
use titanix.Memory.Laws.{memcpy_lem}
use titanix.Blocks.{Block, InUse, first_fit, aligned}
use titanix.Blocks.InUse.{Taken}
use titanix.Heap.{Heap, malloc, free}
use titanix.Heap.Chain.{Holds}
use titanix.Heap.Safety.{malloc-Taken, free-Without, Without}
use titanix.Heap.Data.{realloc, copy_within}
use titanix.Heap.Data.Apart.{InUse-apart, length_at}
use titanix.Heap.Data.Zeroed.{SameData}

module _ (pager : Pager) where
  realloc_runs :
      (f address size l p : ℕ) (s s' : Heap pager.State) (m m' : Memory)
      → (s.header (sub64 address 32)).length ≡ l
      → l < 2 ^ 31
      → malloc pager f size s ≡ some (p, s')
      → l ≤ (s'.header (sub64 p 32)).length
      → memcpy p address l m ≡ some (p, m')
      → realloc pager f address size s m ≡ some (free address s', m')
  unfolding realloc copy_within
  realloc_runs f address size l p s s' m m' e w run room copies =
      let e' : u32 (s.header (sub64 address 32)).length ≡ l = omega arith in
      let guard : ((p == 0) || leb l (s'.header (sub64 p 32)).length) ≡ true = ground arith in
      rw (realloc, run, e', copy_within, guard, copies) refl

  -- On a heap that holds a list of segments, with data of `l` bytes in use at the address, `l`
  -- positive, below 2 ^ 31 and not above the request rounded up to 16 bytes, for a request below 2
  -- ^ 63 that some segment fits: `realloc` returns, on any fuel above zero. The heap then holds
  -- what first fit leaves, without the data at the old address. The `l` bytes lie at the address
  -- that first fit found, and the bytes of all data that was in use are as they were.
  pub realloc-Taken :
      (f address size l p : ℕ) (s : Heap pager.State) (m : Memory) (b : Block) (bs cs : List Block)
      → Holds s (b ∷ bs)
      → InUse s.heap_start (b ∷ bs) address l
      → 0 < l
      → l < 2 ^ 31
      → l ≤ aligned size
      → size < 2 ^ 63
      → first_fit (aligned size) s.heap_start (b ∷ bs) ≡ some (p, cs)
      → (s' : Heap pager.State) × (m' : Memory) × (ds : List Block) × (realloc pager
            (suc f)
            address
            size
            s
            m
          ≡ some (s', m'))
        × Holds s' ds
        × Taken (aligned size) s.heap_start (b ∷ bs) p cs
        × Without s.heap_start address cs ds
        × ((k : ℕ) → k < l → m' (p + k) ≡ m (address + k))
        × SameData s.heap_start (b ∷ bs) m m'
  realloc-Taken f address size l p s m b bs cs v old pos short grows w fits =
      let (s', run, start, v', t) = malloc-Taken pager f size p s b bs cs v (omega arith) w fits in
      let (g, enough, few, u) = t.got in
      let old' = t.kept address l old in
      let ne = t.fresh address l old in
      let (ds, v'', gone) =
        free-Without s' cs address l v' (subst (λ k. InUse k cs address l) (sym start) old') in
      let apart = InUse-apart s.heap_start cs p g address l u old' ne in
      let room = length_at s' cs p g v' (subst (λ k. InUse k cs p g) (sym start) u) in
      let (m', copies, inside, outside) = memcpy_lem p address l m (omega arith) short in
      (
        free address s',
        m',
        ds,
        realloc_runs (suc f) address size l p s s' m m' (length_at s (b ∷ bs) address l v old) short
            run (omega arith) copies,
        v'',
        t,
        subst (λ k. Without k address cs ds) start gone,
        inside,
        λ q j k i h.
            let other = InUse-apart s.heap_start cs p g q j u (t.kept q j i) (t.fresh q j i) in
            outside (q + k) (omega arith),
      )
