-- ===== src/Heap/Init.antt =====
-- `init_heap`, and the first call of `malloc`.
use titanix.Pager.{Pager}
use titanix.Base.{ℕ, ◌+◌, ◌-◌, ◌*◌, ◌^◌, ◌<◌, ◌≡◌, refl, true, false, [], ◌∷◌, arith, ◌∙◌}
use titanix.Blocks.{block}
use titanix.Heap.{Heap, init_heap}
use titanix.Heap.Chain.{Holds, put_here}

module _ (pager : Pager) where
  -- At an address that is not zero, for a positive number of pages that end below 2 ^ 63,
  -- `init_heap` of a heap that is not initialized makes a heap at that address that holds one free
  -- segment: all the pages less a header. A second call changes nothing.
  pub init_heap-Holds :
      (s : Heap pager.State) (address n : ℕ)
      → 0 < address
      → 0 < n
      → address + n * 4096 < 2 ^ 63
      → s.heap_initialized ≡ false
      → let t = init_heap pager address n s in
        Holds t (block (n * 4096 - 32) true ∷ [])
        × (t.heap_start ≡ address)
        × ((a k : ℕ) → init_heap pager a k t ≡ t)
  unfolding init_heap
  init_heap-Holds s address n pos some_page room fresh = rw fresh (
    record {
      ready = refl;
      chain = (put_here s.header address _ ∙ ground arith, tt);
      last_at = refl;
      end_at = omega arith;
      start_pos = pos;
      end_fits = omega arith;
    },
    refl,
    λ a k. refl,
  )
