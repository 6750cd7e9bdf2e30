-- ===== src/Heap/Data.antt =====
-- src/heap/heap.c: `realloc` and `calloc`, which work on the headers and on the bytes of the data.
-- A header and the data of a segment do not overlap, so that they stand in two memories; a write
-- beyond the data of its segment would overwrite headers, and has no result here.
pub mod Apart
pub mod Zeroed
pub mod Moved
use titanix.Pager.{Pager}
use titanix.Memory.{Memory, memcpy, memset}
use titanix.Heap.{Heap, header_size, free, malloc}
use titanix.Base.{
  ℕ, ◌^◌, ◌%◌, Option, none, some, ◌>>=◌, mul64, sub64, u32, leb, ◌==◌, ◌||◌, if◌then◌else◌,
}

-- `memcpy` to the address that `malloc` gave, 0 or the data of a segment.
pub copy_within : {P : Type 0} → (dest src bytes : ℕ) → Heap P → Memory → Option (ℕ × Memory)
copy_within dest src bytes s m =
    if (dest == 0) || leb bytes (s.header (sub64 dest header_size)).length
    then memcpy dest src bytes m
    else none

module _ (pager : Pager) where
  -- It has no `return`: the address of the new data is not told.
  pub realloc :
      (fuel address size : ℕ) → Heap pager.State → Memory → Option (Heap pager.State × Memory)
  realloc fuel address size s m = do
    let length = (s.header (sub64 address header_size)).length
    (header, s1) ← malloc pager fuel size s
    (copied, m1) ← copy_within header address (u32 length) s1 m
    some (free address s1, m1)

  pub calloc :
      (fuel num_of_elements size_of_elements : ℕ)
      → Heap pager.State
      → Memory
      → Option (ℕ × Heap pager.State × Memory)
  calloc fuel num_of_elements size_of_elements s m = do
    let real_length = mul64 num_of_elements size_of_elements
    (allocated, s1) ← malloc pager fuel real_length s
    some (allocated, s1, (memset allocated 0 real_length m).1)
