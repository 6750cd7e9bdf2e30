-- ===== src/Mmap/Tests.antt =====
-- A map of two usable entries, of which the second ends inside a page.
use titanix.Base.{ℕ, ◌+◌, ◌%◌, ◌≤◌, ◌≡◌, ◌≢◌, refl, ◌==◌, if◌then◌else◌, arith}
use titanix.Mmap.{
  Mmap, MmapEntry, Nodes, empty_node, type_usable, page_size, align, chosen_loop, alloc,
  make_entries_list,
}
use titanix.Mmap.Chosen.{Last, alloc-Last}
use titanix.Mmap.Entries.{IsList, make_entries_list-IsList}

abbrev low : MmapEntry
low = record { base = 0; length = 0x9f000; type = type_usable; acpi_extended_attr = 1 }

abbrev high : MmapEntry
high = record { base = 0x100000; length = 0x7ee0800; type = type_usable; acpi_extended_attr = 1 }

abbrev map : Mmap
map = record { length = 2; mmap_entries = λ i. if i == 0 then low else high }

abbrev nodes : Nodes
nodes = λ q. empty_node

-- It runs past the end of the entry, 0x7fe0800.
run : (alloc 280 map nodes).0 ≡ 0x7fe0000
unfolding alloc chosen_loop
run = refl

alloc-Last_example :
    (i : ℕ) × Last map 0x1000 2 i
    × (((alloc 280 map nodes).1.mmap_entries i).length + 0x1000 ≡ (map.mmap_entries i).length)
    × ((j : ℕ) → j ≢ i → (alloc 280 map nodes).1.mmap_entries j ≡ map.mmap_entries j)
    × ((alloc 280 map nodes).0 % page_size ≡ 0)
    × ((map.mmap_entries i).base ≤ (alloc 280 map nodes).0)
    × ((alloc 280 map nodes).0 + 0x1000
        ≡ align ((map.mmap_entries i).base + (map.mmap_entries i).length))
alloc-Last_example =
    alloc-Last 280 map nodes 1 (omega arith) (omega arith) refl (λ j h. ground arith)

make_entries_list-IsList_example :
    IsList
      (make_entries_list map nodes).0
      (make_entries_list map nodes).1.mmap_entries
      (make_entries_list map nodes).2
make_entries_list-IsList_example = make_entries_list-IsList map nodes (omega (arith, run))
