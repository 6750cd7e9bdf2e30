-- ===== src/Paging/Tests.antt =====
-- Tests and witnesses of the page tables.
use titanix.Base.{ℕ, ◌≡◌, ◌≢◌, inr, refl, arith, ◌==◌, ◌&&◌, if◌then◌else◌, some, ◌+◌}
use titanix.Paging.{
  Paging, Tables, set_indexer, descriptor_get_address, descriptor_get_flag, walk_page, unmap_page,
  map_page,
}
use titanix.Paging.Descriptor.{frame_of}
use titanix.Paging.Walk.{Path3, unmap_page-walk_page}
use titanix.Paging.Map.{map_page-walk_page}

-- One table of each level; frames are given out in turn.
abbrev example_tables : Tables
example_tables q k =
    if q == 0x1000 && k == 0
    then 0x2003
    else if q == 0x2000 && k == 0
    then 0x3003
    else if q == 0x3000 && k == 0
    then 0x4003
    else if q == 0x4000 && k == 6
    then 0x9003
    else 0

abbrev example_paging : Paging ℕ
example_paging = record { pml4 = 0x1000; tables = example_tables; frames = 0x10000 }

abbrev next_frame : ℕ → ℕ × ℕ
next_frame n = (n, n + 0x1000)

-- An address in a page of the page table at 0x4000.
example_path :
    (v : ℕ)
    → (set_indexer v).pml4 ≡ 0
    → (set_indexer v).pml3 ≡ 0
    → (set_indexer v).pml2 ≡ 0
    → Path3 example_tables 0x1000 (set_indexer v) 0x2000 0x3000 0x4000
unfolding descriptor_get_flag descriptor_get_address
example_path v e4 e3 e2 = record {
  there4 = simp e4;
  next4 = simp e4;
  there3 = simp e3;
  next3 = simp e3;
  there2 = simp e2;
  next2 = simp e2;
}

path_5000 : Path3 example_tables 0x1000 (set_indexer 0x5000) 0x2000 0x3000 0x4000
unfolding set_indexer
path_5000 = example_path 0x5000 refl refl refl

path_6000 : Path3 example_tables 0x1000 (set_indexer 0x6000) 0x2000 0x3000 0x4000
unfolding set_indexer
path_6000 = example_path 0x6000 refl refl refl

other_leaf : (set_indexer 0x6000).pml1 ≢ (set_indexer 0x5000).pml1
unfolding set_indexer
other_leaf = ground arith

map_page-walk_page_example :
    (s' : Paging ℕ) × (map_page next_frame 1 0x5000 0x7000 3 example_paging ≡ some s')
    × (walk_page 0x5000 s' ≡ frame_of 0x7000)
    × (walk_page 0x6000 s' ≡ walk_page 0x6000 example_paging)
map_page-walk_page_example =
    map_page-walk_page next_frame 0 0x5000 0x6000 0x7000 3 example_paging 0x2000 0x3000 0x4000
      0x2000 0x3000 0x4000 (omega arith) (omega arith) path_5000 (ground arith) (ground arith)
      (ground arith) path_6000 (ground arith) (ground arith) (inr other_leaf)

unmap_page-walk_page_example : walk_page 0x6000 (unmap_page 0x6000 example_paging) ≡ 0
unmap_page-walk_page_example =
    unmap_page-walk_page 0x6000 example_paging 0x2000 0x3000 0x4000 path_6000 (ground arith)
      (ground arith) (ground arith)
