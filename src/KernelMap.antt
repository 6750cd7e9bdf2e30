-- ===== src/KernelMap.antt =====
-- src/paging/load_page_tables.c and include/lib/paging.h: the page tables that the kernel makes at
-- boot. The list of entries lies in a store of nodes, as in Mmap.
pub mod Pages
mod Tests
use titanix.Mmap.{MmapEntry, EntriesList, Nodes, get_size}
use titanix.Paging.{Paging, clear_table, kernel_page, walk_page, map_page}
use titanix.Base.{
  ℕ, zero, suc, ◌+◌, ◌-◌, ◌%◌, ◌^◌, Bool, true, false, not, Option, none, some, ◌==◌, ltb,
  if◌then◌else◌, add64, sub64, ◌>>=◌,
}

abbrev pub virtual_offset : ℕ
virtual_offset = 0xffff800000000000

abbrev pub virtual_load : ℕ
virtual_load = 0xffffffff80000000

abbrev pub page_size : ℕ
page_size = 0x1000

pub get_kernel_physical : ℕ
get_kernel_physical = 0x7c00

pub get_kernel_virtual_offset : ℕ
get_kernel_virtual_offset = sub64 0xffffffff80000000 get_kernel_physical

module _ {F : Type 0} (alloc_page : F → ℕ × F) (depth : ℕ) where
  -- The inner loop at `i`. `depth` is the fuel of each `paging_map_page`.
  pub map_loop : (fuel i end : ℕ) → Paging F → Option (Paging F)
  map_loop zero i end s = none
  map_loop (suc fuel) i end s =
      if ltb i end
      then (do
        s1 ← map_page alloc_page depth i i kernel_page s
        s2 ← map_page alloc_page depth (add64 i virtual_offset) i kernel_page s1
        map_loop fuel (add64 i page_size) end s2)
      else some s

  -- The pages of one entry, unless it is of type 3.
  pub map_entry : (fuel : ℕ) → MmapEntry → Paging F → Option (Paging F)
  map_entry fuel e s =
      if not (e.type == 3) then map_loop fuel e.base (add64 e.base e.length) s else some s

  -- The outer loop at the node `selected`.
  pub entries_loop : (rounds fuel selected : ℕ) → Nodes → Paging F → Option (Paging F)
  entries_loop zero fuel selected nodes s = none
  entries_loop (suc rounds) fuel selected nodes s =
      if not (selected == 0)
      then (do
        s1 ← map_entry fuel (nodes selected).entry s
        entries_loop rounds fuel (nodes selected).next nodes s1)
      else some s

  -- The address that is returned, the one that `sync` loads into the register cr3, and the tables.
  pub paging_load_kernel_map : (rounds fuel list : ℕ) → Nodes → Paging F → Option (ℕ × ℕ × Paging F)
  paging_load_kernel_map rounds fuel list nodes s = do
    let (pml4, f) = alloc_page s.frames
    n ← get_size rounds list nodes
    s1 ←
        entries_loop rounds fuel list nodes
          (record { pml4 = pml4; tables = clear_table pml4 s.tables; frames = f })
    s2 ← map_page alloc_page depth 0xb8000 0xb8000 kernel_page s1
    some (s2.pml4, walk_page s2.pml4 s2, s2)
