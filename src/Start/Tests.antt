-- ===== src/Start/Tests.antt =====
-- `pmm_start` on two memory maps.
use titanix.Base.{ℕ, ◌≡◌, refl, false, ◌==◌, if◌then◌else◌}
use titanix.Mmap.{Nodes, MmapEntry, empty_node}
use titanix.Pmm.{Pmm}
use titanix.Mmap.{get_entry_by_index}
use titanix.Pmm.{new_section, interpret_signal}
use titanix.Start.{
  make_sections, sum_loop, estimate, place_loop, section_manager_create, first_section, build_loop,
  append_section, fill_gap, end_of, pages_of,
}

abbrev entry : (base length type : ℕ) → MmapEntry
entry base length type = record {
  base = base;
  length = length;
  type = type;
  acpi_extended_attr = 1;
}

-- A list of three entries, at 8, 16 and 24.
abbrev nodes : MmapEntry → MmapEntry → MmapEntry → Nodes
nodes e f g q =
    if q == 8
    then record { entry = e; next = 16; prev = 0 }
    else if q == 16
    then record { entry = f; next = 24; prev = 8 }
    else if q == 24
    then record { entry = g; next = 0; prev = 16 }
    else empty_node

abbrev unset : Pmm
unset = record {
  allowing = false;
  free_memory = 0;
  sections = 0;
  section_head = 0;
  data_size = 0;
  estimated_total_memory = 0;
  section = λ q. record { prev = 0; next = 0; start = 0; pages = 0; free = 0 };
}

abbrev plain_nodes : Nodes
plain_nodes = nodes (entry 0 0x9f000 1) (entry 0x100000 0x4000000 1) (entry 0x4101000 0x1000 2)

-- Low memory, 64 megabytes behind the first one, and a reserved page behind a gap of a page.
abbrev plain : Pmm
plain = make_sections 3 8 plain_nodes unset

plain_sections :
    (plain.section 0x100000
      ≡ record { prev = 0; next = 0x100028; start = 0; pages = 256; free = 2 })
    × (plain.section 0x100028
        ≡ record { prev = 0x100000; next = 0x100078; start = 0x100000; pages = 0x4000; free = 1 })
    × (plain.section 0x100078
        ≡ record { prev = 0x100028; next = 0x100050; start = 0x4100000; pages = 1; free = 2 })
    × (plain.section 0x100050
        ≡ record { prev = 0x100078; next = 0; start = 0x4101000; pages = 1; free = 0 })
unfolding make_sections sum_loop estimate place_loop section_manager_create first_section build_loop
    append_section fill_gap end_of pages_of get_entry_by_index new_section interpret_signal
plain_sections = (refl, refl, refl, refl)

-- The last kilobyte of low memory is reserved: it starts inside the first section, and the size of the
-- gap before it wraps.
abbrev reserved : Pmm
reserved =
    make_sections 3 8
      (nodes (entry 0 0x9fc00 1) (entry 0x9fc00 0x400 2) (entry 0x100000 0x4000000 1)) unset

reserved_gap : (reserved.section 0x100050).pages ≡ 4503599627370400
unfolding make_sections sum_loop estimate place_loop section_manager_create first_section build_loop
    append_section fill_gap end_of pages_of get_entry_by_index new_section interpret_signal
reserved_gap = refl
