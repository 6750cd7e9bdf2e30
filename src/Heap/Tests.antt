-- ===== src/Heap/Tests.antt =====
-- Runs of the heap on one page with three segments, and the theorems at this heap.
use titanix.Pager.{Pager}
use titanix.Base.{ℕ, ◌+◌, ◌%◌, ◌<◌, ◌≡◌, refl, true, false, some, none, List, [], ◌∷◌, arith, inl}
use titanix.Memory.{Memory}
use titanix.Heap.Data.{realloc, calloc}
use titanix.Heap.Data.Zeroed.{SameData, calloc-Taken}
use titanix.Heap.Data.Moved.{realloc-Taken}
use titanix.Blocks.{Block, block, first_fit, carve, new_segment}
use titanix.Blocks.InUse.{Taken}
use titanix.Blocks.Release.{SameUse}
use titanix.Heap.{
  Header, Store, put, Heap, free, malloc, init_heap, find_segment, take_segment, split_header,
  insert_header, ensure_heap, init_pages,
}
use titanix.Heap.Chain.{header_of, Holds}
use titanix.Heap.Grow.{malloc_grown, malloc_never}
use titanix.Heap.Init.{init_heap-Holds}
use titanix.Heap.Safety.{Without, free-Without, malloc-Taken, free-malloc}

-- A pager that hands out pages one after the other.
abbrev counting : Pager
counting = record {
  State = ℕ;
  alloc_page = λ n. (n, n + 0x1000);
  map_page = λ v p f n. n;
  invlpg = λ v n. n;
}

abbrev first : Block
first = block 64 false

abbrev gap : Block
gap = block 128 true

abbrev rest : Block
rest = block 3808 false

abbrev three : List Block
three = first ∷ gap ∷ rest ∷ []

abbrev unmapped : Header
unmapped = record { length = 0; prev = 0; next = 0; free = false }

abbrev demo_headers : Store
demo_headers =
    put (put (put (λ q. unmapped) 4096 (header_of first 0 4192)) 4192 (header_of gap 4096 4352))
      4352 (header_of rest 4192 0)

abbrev demo : Heap ℕ
demo = record {
  heap_start = 4096;
  heap_end = 8192;
  last = 4352;
  heap_initialized = true;
  header = demo_headers;
  pages = 0x10000;
}

abbrev fresh : Heap ℕ
fresh = record demo { heap_initialized = false }

demo-Holds : Holds demo three
demo-Holds = record {
  ready = refl;
  chain = (refl, (refl, (refl, tt)));
  last_at = refl;
  end_at = refl;
  start_pos = omega arith;
  end_fits = omega arith;
}

fits_here :
    first_fit 48 4096 three ≡ some (4224, first ∷ block 48 false ∷ block 48 true ∷ rest ∷ [])
unfolding first_fit
fits_here = refl

fits_nowhere : first_fit 208 4096 three ≡ none
unfolding first_fit
fits_nowhere = refl

page_fits_nowhere : first_fit 4096 4096 three ≡ none
unfolding first_fit
page_fits_nowhere = refl

malloc-Taken_example :
    (s' : Heap ℕ) × (malloc counting 1 40 demo ≡ some (4224, s'))
    × (s'.heap_start ≡ 4096)
    × Holds s' (first ∷ block 48 false ∷ block 48 true ∷ rest ∷ [])
    × Taken 48 4096 three 4224 (first ∷ block 48 false ∷ block 48 true ∷ rest ∷ [])
malloc-Taken_example =
    malloc-Taken counting 0 40 4224 demo first (gap ∷ rest ∷ [])
      (first ∷ block 48 false ∷ block 48 true ∷ rest ∷ []) demo-Holds (omega arith) (omega arith)
      fits_here

free-malloc_example :
    (s' : Heap ℕ) × (ds : List Block) × (malloc counting 1 40 demo ≡ some (4224, s'))
    × Holds (free 4224 s') ds
    × SameUse 4096 three ds
free-malloc_example =
    free-malloc counting 0 40 4224 demo first (gap ∷ rest ∷ [])
      (first ∷ block 48 false ∷ block 48 true ∷ rest ∷ []) demo-Holds (omega arith) (omega arith)
      fits_here

malloc_grown_example :
    (s' : Heap ℕ) × (malloc counting 2 200 demo ≡ some (8224, s'))
    × (s'.heap_start ≡ 4096)
    × Holds s' (first ∷ gap ∷ rest ∷ carve 208 (new_segment 208) [])
    × (s'.pages ≡ 0x11000)
malloc_grown_example =
    malloc_grown counting 0 200 demo first (gap ∷ rest ∷ []) demo-Holds (omega arith) (omega arith)
      fits_nowhere (omega arith)

malloc_never_example : malloc counting 5 4096 demo ≡ none
malloc_never_example =
    malloc_never counting 5 4096 demo first (gap ∷ rest ∷ []) demo-Holds (omega arith) (omega arith)
      page_fits_nowhere (omega arith)

free-Without_example : (cs : List Block) × Holds (free 4128 demo) cs × Without 4096 4128 three cs
free-Without_example = free-Without demo three 4128 64 demo-Holds (inl (refl, refl, refl))

init_heap-Holds_example :
    Holds (init_heap counting 0x10000f000 256 fresh) (block 1048544 true ∷ [])
    × ((init_heap counting 0x10000f000 256 fresh).heap_start ≡ 0x10000f000)
    × ((a k : ℕ)
        → init_heap counting a k (init_heap counting 0x10000f000 256 fresh)
          ≡ init_heap counting 0x10000f000 256 fresh)
init_heap-Holds_example =
    init_heap-Holds counting fresh 0x10000f000 256 (omega arith) (omega arith) (omega arith) refl

-- The first call sets the heap up; the second segment starts behind the first.
address_of : ℕ → ℕ
unfolding malloc ensure_heap init_heap init_pages find_segment take_segment split_header
    insert_header
address_of r = elim (malloc counting 2 r fresh) [ none ↦ 0 | some (p, s) ↦ p ]

first_address : address_of 100 ≡ 0x10000f020
unfolding address_of
first_address = refl

abbrev bytes : Memory
bytes q = q % 256

abbrev grown : List Block
grown = first ∷ block 80 false ∷ block 16 true ∷ rest ∷ []

grown_fits : first_fit 80 4096 three ≡ some (4224, grown)
unfolding first_fit
grown_fits = refl

calloc-Taken_example :
    (s' : Heap ℕ) × (m' : Memory) × (calloc counting 1 10 8 demo bytes ≡ some (4224, s', m'))
    × Holds s' grown
    × Taken 80 4096 three 4224 grown
    × ((k : ℕ) → k < 80 → m' (4224 + k) ≡ 0)
    × SameData 4096 three bytes m'
calloc-Taken_example =
    calloc-Taken counting 0 10 8 4224 demo bytes first (gap ∷ rest ∷ []) grown demo-Holds
      (omega arith) (omega arith) grown_fits

-- The 64 bytes at 4128 move to 4224.
realloc-Taken_example :
    (s' : Heap ℕ) × (m' : Memory) × (ds : List Block) × (realloc counting 1 4128 70 demo bytes
      ≡ some (s', m'))
    × Holds s' ds
    × Taken 80 4096 three 4224 grown
    × Without 4096 4128 grown ds
    × ((k : ℕ) → k < 64 → m' (4224 + k) ≡ bytes (4128 + k))
    × SameData 4096 three bytes m'
realloc-Taken_example =
    realloc-Taken counting 0 4128 70 64 4224 demo bytes first (gap ∷ rest ∷ []) grown demo-Holds
      (inl (refl, refl, refl)) (omega arith) (omega arith) (omega arith) (omega arith) grown_fits
