-- ===== src/Mmap.antt =====
-- src/boot/mmap.c and src/pmm/full_mmap.c: the memory map, memory taken from it at boot, and the list of its entries.
-- The map at `MMAP` is a function from an index to its entry: what the code reads behind the last entry is what the
-- function has there. The nodes of the list lie in a store by address.
pub mod Chosen
pub mod Entries
mod Tests
use titanix.Base.{
  ℕ, zero, suc, ◌+◌, ◌-◌, ◌*◌, ◌/◌, ◌%◌, ◌^◌, Bool, true, false, not, ◌&&◌, Option, none, some, ltb,
  leb, ◌==◌, if◌then◌else◌, add64, sub64,
}

-- `mmap_entry_t`
pub record MmapEntry : Type 0 where
  pub base : ℕ
  pub length : ℕ
  pub type : ℕ
  pub acpi_extended_attr : ℕ

-- `mmap_t`
pub record Mmap : Type 0 where
  pub length : ℕ
  pub mmap_entries : ℕ → MmapEntry

-- `entries_list_t`, of 40 bytes
pub record EntriesList : Type 0 where
  pub entry : MmapEntry
  pub next : ℕ
  pub prev : ℕ

abbrev pub Nodes : Type 0
Nodes = ℕ → EntriesList

abbrev pub type_usable : ℕ
type_usable = 1

abbrev pub page_size : ℕ
page_size = 0x1000

-- `ALIGN(num, PAGE_SIZE)`
abbrev pub align : ℕ → ℕ
align num = add64 num (page_size - 1) / page_size * page_size

abbrev pub fits : MmapEntry → ℕ → Bool
fits e len = (e.type == type_usable) && ltb len e.length

-- The loop of `alloc` at `i`, with `n` rounds left.
unfoldable pub chosen_loop : (n i : ℕ) → Mmap → (len chosen_chunk : ℕ) → ℕ
chosen_loop zero i m len chosen_chunk = chosen_chunk
chosen_loop (suc n) i m len chosen_chunk =
    chosen_loop n (i + 1) m len (if fits (m.mmap_entries i) len then i else chosen_chunk)

abbrev pub empty_node : EntriesList
empty_node = record {
  entry = record { base = 0; length = 0; type = 0; acpi_extended_attr = 0 };
  next = 0;
  prev = 0;
}

-- `memset(allocated, 0, length)`, on the nodes that lie there
abbrev pub clear_nodes : (allocated len : ℕ) → Nodes → Nodes
clear_nodes allocated len s q =
    if leb allocated q && ltb q (allocated + len) then empty_node else s q

unfoldable pub alloc : ℕ → Mmap → Nodes → ℕ × Mmap × Nodes
alloc length m s =
    let len = align length in
    let chosen_chunk = chosen_loop m.length 0 m len m.length in
    let e = m.mmap_entries chosen_chunk in
    let allocated = align (sub64 (add64 e.base e.length) len) in
    let m' = record m {
      mmap_entries = λ i.
          if i == chosen_chunk then record e { length = sub64 e.length len } else m.mmap_entries i;
    } in
    (allocated, m', if not (allocated == 0) then clear_nodes allocated len s else s)

abbrev pub set_entry : ℕ → MmapEntry → Nodes → Nodes
set_entry p e s q = if q == p then record (s p) { entry = e } else s q

abbrev pub set_next : ℕ → ℕ → Nodes → Nodes
set_next p v s q = if q == p then record (s p) { next = v } else s q

abbrev pub set_prev : ℕ → ℕ → Nodes → Nodes
set_prev p v s q = if q == p then record (s p) { prev = v } else s q

-- `p->next->...->next`, `k` times
abbrev pub follow : ℕ → ℕ → Nodes → ℕ
follow zero p s = p
follow (suc k) p s = (s (follow k p s)).next

-- The statements of `make_entries_list` that link node `k` to its successor.
abbrev link : (k p v : ℕ) → Nodes → Nodes
link k p v s = set_next (follow k p s) v s

-- Those that fill in node `k + 1`.
abbrev fill : (k p : ℕ) → MmapEntry → Nodes → Nodes
fill k p e s =
    let s1 = set_entry (follow (suc k) p s) e s in set_prev (follow (suc k) p s1) (follow k p s1) s1

abbrev pub last_entry : MmapEntry
last_entry = record {
  base = 0x100000000;
  length = 0x80000000;
  type = type_usable;
  acpi_extended_attr = 1;
}

-- The list, made in the memory at `a`.
pub link_entries : (a : ℕ) → (ℕ → MmapEntry) → Nodes → Nodes
link_entries a entries s =
    let s0 = link 0 a (a + 40) s in
    let s1 = link 1 a (a + 80) s0 in
    let s2 = link 2 a (a + 120) s1 in
    let s3 = link 3 a (a + 160) s2 in
    let s4 = link 4 a (a + 200) s3 in
    let s5 = link 5 a (a + 240) s4 in
    let s6 = set_prev a 0 (set_entry a (entries 0) s5) in
    let s7 = fill 0 a (entries 1) s6 in
    let s8 = fill 1 a (entries 2) s7 in
    let s9 = fill 2 a (entries 3) s8 in
    let s10 = fill 3 a (entries 4) s9 in
    let s11 = fill 4 a (entries 5) s10 in fill 5 a last_entry s11

pub make_entries_list : Mmap → Nodes → ℕ × Mmap × Nodes
make_entries_list m s =
    let (a, m', s') = alloc 280 m s in (a, m', link_entries a m'.mmap_entries s')

unfoldable pub get_entry_by_index : (lst idx : ℕ) → Nodes → MmapEntry
get_entry_by_index lst idx s = (s (follow idx lst s)).entry

-- The loop of `get_size`, with the count so far.
unfoldable pub size_loop : (fuel helper i : ℕ) → Nodes → Option ℕ
size_loop zero helper i s = none
size_loop (suc fuel) helper i s =
    let rest = size_loop fuel (s helper).next (i + 1) s in if helper == 0 then some i else rest

unfoldable pub get_size : (fuel lst : ℕ) → Nodes → Option ℕ
get_size fuel lst s = size_loop fuel lst 0 s
