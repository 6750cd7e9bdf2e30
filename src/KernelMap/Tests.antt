-- ===== src/KernelMap/Tests.antt =====
-- A list of two entries, and the theorem at it.
use titanix.Base.{ℕ, ◌+◌, ◌≡◌, refl, some, ◌++◌, [], ◌∷◌, ◌==◌, if◌then◌else◌, arith, ◌>>=◌}
use titanix.Mmap.{MmapEntry, Nodes, empty_node, type_usable}
use titanix.Paging.{Paging, clear_table, walk_page}
use titanix.KernelMap.{
  virtual_load, get_kernel_physical, get_kernel_virtual_offset, paging_load_kernel_map,
}
use titanix.KernelMap.Pages.{all_pages, map_all, paging_load_kernel_map-pages}

-- A page and a half, and memory that is left out.
abbrev low : MmapEntry
low = record { base = 0x1000; length = 0x1800; type = type_usable; acpi_extended_attr = 1 }

abbrev kept : MmapEntry
kept = record { base = 0x8000; length = 0x1000; type = 3; acpi_extended_attr = 1 }

abbrev nodes : Nodes
nodes q =
    if q == 0x500
    then record { entry = low; next = 0x528; prev = 0 }
    else if q == 0x528
    then record { entry = kept; next = 0; prev = 0x500 }
    else empty_node

abbrev next_frame : ℕ → ℕ × ℕ
next_frame n = (n, n + 0x1000)

abbrev nothing : Paging ℕ
nothing = record { pml4 = 0; tables = λ q k. 0; frames = 0x10000 }

pages_of_low :
    all_pages (low ∷ kept ∷ [])
    ≡ (0x1000, 0x1000)
      ∷ (0xffff800000001000, 0x1000)
      ∷ (0x2000, 0x2000)
      ∷ (0xffff800000002000, 0x2000)
      ∷ []
pages_of_low = refl

kernel_load : get_kernel_physical + get_kernel_virtual_offset ≡ virtual_load
unfolding get_kernel_physical get_kernel_virtual_offset
kernel_load = refl

paging_load_kernel_map-pages_example :
    paging_load_kernel_map next_frame 9 3 4 0x500 nodes nothing ≡ (
      map_all next_frame 9
        (all_pages (low ∷ kept ∷ []) ++ (0xb8000, 0xb8000) ∷ [])
        (record { pml4 = 0x10000; tables = clear_table 0x10000 (λ q k. 0); frames = 0x11000 })
      >>= λ (s' : Paging ℕ). some (s'.pml4, walk_page s'.pml4 s', s'))
paging_load_kernel_map-pages_example =
    paging_load_kernel_map-pages next_frame 9 (low ∷ kept ∷ []) 3 4 0x500 nodes nothing
      (omega arith, refl, (omega arith, refl, refl))
      (omega arith, omega arith, (omega arith, omega arith, tt)) (omega arith)
