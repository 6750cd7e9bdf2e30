-- ===== src/Start.antt =====
-- src/pmm/pmm.c: `pmm_start`, which makes the sections from the list of the memory map.
-- The nodes of that list and the records of the sections are stores of their own: they do not overlap.
mod Tests
use titanix.Base.{
  ℕ, zero, suc, ◌+◌, ◌-◌, ◌*◌, ◌/◌, ◌%◌, ◌^◌, Bool, true, false, not, ◌&&◌, Option, none, some, ltb,
  leb, ◌==◌, if◌then◌else◌, add64, sub64, mul64,
}
use titanix.Mmap.{Nodes, MmapEntry, type_usable, get_size, get_entry_by_index}
use titanix.Pmm.{
  Section, Pmm, Store, page_size, section_bad, set_prev, set_next, set_start, set_pages, set_free,
  new_section, interpret_signal, recombine, recalculate_free_memory,
}

abbrev empty_section : Section
empty_section = record { prev = 0; next = 0; start = 0; pages = 0; free = 0 }

-- `memset(pmm_sections, 0, pmm_data_size)`, on the records that lie there
abbrev clear_sections : (base size : ℕ) → Store → Store
clear_sections base size h q = if leb base q && ltb q (base + size) then empty_section else h q

pub section_manager_create : ℕ → Pmm → Pmm
section_manager_create base s = if s.allowing then s else record s {
  sections = base;
  section = clear_sections base s.data_size s.section;
  section_head = 1;
}

abbrev pub megabyte : ℕ
megabyte = 1024 * 1024

abbrev pub round_off : ℕ
round_off = 64

abbrev pub max_pmm_header_proportion : ℕ
max_pmm_header_proportion = 64

-- The first loop, over the entries from `i` on.
pub sum_loop : (n i list : ℕ) → Nodes → Pmm → Pmm
sum_loop zero i list nodes s = s
sum_loop (suc n) i list nodes s =
    let e = get_entry_by_index list i nodes in
    sum_loop n (i + 1) list nodes
      (if e.type == type_usable then record s { free_memory = add64 s.free_memory e.length } else s)

-- What is worked out from the sum.
pub estimate : Pmm → Pmm
estimate s =
    let unit = round_off * megabyte in
    let n = s.free_memory / unit in
    let n' = if not (s.free_memory % unit == 0) then add64 n 1 else n in
    let total = mul64 n' unit in
    record s { estimated_total_memory = total; data_size = total / max_pmm_header_proportion }

-- The loop that finds a place for the sections.
pub place_loop : (n i list : ℕ) → Nodes → Pmm → Pmm
place_loop zero i list nodes s = s
place_loop (suc n) i list nodes s =
    let e = get_entry_by_index list i nodes in
    let rest = place_loop n (i + 1) list nodes s in
    if (e.type == type_usable) && leb s.data_size e.length
    then section_manager_create e.base s
    else rest

-- The first section: the first megabyte.
pub first_section : Pmm → Pmm
first_section s =
    let p = s.sections in
    let s1 = set_prev p 0 s in
    let s2 = set_next p 0 s1 in
    let s3 = set_start p 0 s2 in
    let s4 = set_pages p (megabyte / page_size) s3 in set_free p section_bad s4

pub pages_of : ℕ → ℕ
pages_of bytes =
    if not (bytes % page_size == 0) then add64 (bytes / page_size) 1 else bytes / page_size

-- A section for the entry behind `current`.
pub append_section : MmapEntry → ℕ → Pmm → ℕ × Pmm
append_section e current s =
    let (p, s0) = new_section s in
    let s1 = set_next current p s0 in
    let n = (s1.section current).next in
    let s2 = set_prev n current s1 in
    let s3 = set_next n 0 s2 in
    let s4 = set_start n e.base s3 in
    let s5 = set_free n (interpret_signal e.type) s4 in (n, set_pages n (pages_of e.length) s5)

pub end_of : Section → ℕ
end_of c = add64 c.start (mul64 c.pages page_size)

-- A bad section for the gap before `current`.
pub fill_gap : ℕ → Pmm → Pmm
fill_gap current s =
    let before = (s.section current).prev in
    let (p, s0) = new_section s in
    let s1 = set_next before p s0 in
    let gap = (s1.section before).next in
    let s2 = set_prev gap before s1 in
    let s3 = set_next gap current s2 in
    let s4 = set_start gap (end_of (s3.section before)) s3 in
    let bytes = sub64 (s4.section current).start (s4.section gap).start in
    let s5 = set_pages gap (pages_of bytes) s4 in
    let s6 = set_free gap section_bad s5 in set_prev current gap s6

-- The loop that makes the sections.
pub build_loop : (n i list : ℕ) → Nodes → (current : ℕ) → Pmm → Pmm
build_loop zero i list nodes current s = s
build_loop (suc n) i list nodes current s =
    let e = get_entry_by_index list i nodes in
    let (next, s1) = append_section e current s in
    let touches = end_of (s1.section (s1.section next).prev) == (s1.section next).start in
    let skip = build_loop n (i + 1) list nodes current s in
    let joined = build_loop n (i + 1) list nodes next s1 in
    let gapped = build_loop n (i + 1) list nodes next (fill_gap next s1) in
    if e.base == (s.section current).start then skip else if touches then joined else gapped

-- Before the sections are joined. The list keeps its size, which each loop asks for again.
pub make_sections : (size list : ℕ) → Nodes → Pmm → Pmm
make_sections size list nodes s =
    let s0 = record s {
      data_size = 0;
      section_head = 0;
      estimated_total_memory = 0;
      free_memory = 0;
    } in
    let s1 = estimate (sum_loop size 0 list nodes s0) in
    let s2 = first_section (place_loop size 0 list nodes s1) in
    build_loop size 0 list nodes s2.sections s2

pub pmm_start : (fuel list : ℕ) → Nodes → Pmm → Option Pmm
pmm_start fuel list nodes s = if s.allowing then some s else elim (get_size fuel list nodes) [
  | none ↦ none
  | some size ↦ elim (recombine fuel (make_sections size list nodes s)) [
    | none ↦ none
    | some s1 ↦ elim (recalculate_free_memory fuel s1) [
      | none ↦ none
      | some s2 ↦ some (record s2 { allowing = true })
    ]
  ]
]
