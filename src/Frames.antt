-- ===== src/Frames.antt =====
-- src/pmm/page_frame_allocator.c: sections split and joined, and `pmm_alloc_page`.
pub mod Split
pub mod Scan
pub mod Done
pub mod Take
pub mod Drop
pub mod Alloc
pub mod Count
pub mod Combine
pub mod Owner
mod Tests
use titanix.Base.{
  ℕ, zero, suc, ◌+◌, ◌-◌, ◌*◌, ◌/◌, ◌%◌, ◌^◌, Bool, true, false, not, ◌&&◌, ◌||◌, Option, none,
  some, ltb, leb, ◌==◌, if◌then◌else◌, add64, sub64, mul64,
}
use titanix.Pmm.{
  Section, Pmm, section_used, section_free, page_size, put, set_prev, set_next, set_start,
  set_pages, set_free, new_section, delete_section,
}

-- The link statements of `pmm_section_split`: a new record behind `target`.
pub link_behind : ℕ → Pmm → Pmm
link_behind target s =
    let (p, s0) = new_section s in
    if not ((s.section target).next == 0)
    then (let s1 = set_prev (s0.section target).next p s0 in
        let s2 = set_prev (s1.section (s1.section target).next).prev target s1 in
        let s3 = set_next (s2.section (s2.section target).next).prev (s2.section target).next s2 in
        set_next target (s3.section (s3.section target).next).prev s3)
    else (let s1 = set_next target p s0 in set_prev (s1.section target).next target s1)

-- Its statements that share out the pages.
pub share_pages : (target split_idx : ℕ) → Pmm → Pmm
share_pages target split_idx s =
    let n = (s.section target).next in
    let s1 = set_free n (s.section target).free s in
    let t1 = s1.section target in
    let s2 = set_pages n (sub64 t1.pages (sub64 split_idx t1.start / page_size)) s1 in
    let s3 = set_start n split_idx s2 in
    let t3 = s3.section target in
    set_pages target
      (sub64 t3.pages (sub64 (add64 t3.start (mul64 t3.pages page_size)) split_idx / page_size)) s3

pub section_split : (target split_idx : ℕ) → Pmm → Pmm
section_split target split_idx s =
    let t = s.section target in
    if leb (add64 t.start (mul64 t.pages page_size)) split_idx
    then s
    else share_pages target split_idx (link_behind target s)

pub section_combine_next : ℕ → Pmm → Pmm
section_combine_next target s =
    let t = s.section target in
    if t.next == 0
    then s
    else if not (t.free == (s.section t.next).free)
    then s
    else (let s1 = set_start t.next t.start s in
        let s2 = set_pages t.next (add64 (s1.section t.next).pages (s1.section target).pages) s1 in
        let s3 = set_prev t.next (s2.section target).prev s2 in
        let s4 = set_next (s3.section target).prev (s3.section target).next s3 in
        delete_section target s4)

pub section_combine_prev : ℕ → Pmm → Pmm
section_combine_prev target s =
    let t = s.section target in
    if t.prev == 0
    then s
    else if not (t.free == (s.section t.prev).free)
    then s
    else (let s1 = set_pages t.prev (add64 (s.section t.prev).pages t.pages) s in
        let s2 = set_next (s1.section target).prev (s1.section target).next s1 in
        let s3 = set_prev (s2.section target).next (s2.section target).prev s2 in
        delete_section target s3)

-- The branch of `pmm_alloc_page` for a section without pages: it is taken out of the list. The first
-- result is where the loop goes on.
pub drop_section : ℕ → Pmm → ℕ × Pmm
drop_section selected s =
    let s1 = set_prev (s.section selected).next (s.section selected).prev s in
    let s2 = set_next (s1.section selected).prev (s1.section selected).next s1 in
    let before = (s2.section selected).prev in
    let s3 = delete_section selected s2 in ((s3.section before).next, s3)

-- The branch for a free section.
pub take_page : ℕ → Pmm → Pmm
take_page selected s =
    let e = s.section selected in
    if (s.section e.prev).free == section_used
    then (let s1 = set_pages e.prev (add64 (s.section e.prev).pages 1) s in
        let s2 = set_pages selected (sub64 (s1.section selected).pages 1) s1 in
        set_start selected (add64 (s2.section selected).start page_size) s2)
    else set_free selected section_used (section_split selected (add64 e.start page_size) s)

-- The loop of `pmm_alloc_page` from `selected` on, with the page that it finds.
pub alloc_loop : (fuel selected : ℕ) → Pmm → Option (ℕ × Pmm)
alloc_loop zero selected s = none
alloc_loop (suc fuel) selected s =
    let e = s.section selected in
    let (after, s') = drop_section selected s in
    let dropped = alloc_loop fuel after s' in
    let rest = alloc_loop fuel e.next s in
    if selected == 0
    then some (0, s)
    else if e.pages == 0
    then dropped
    else if e.free == section_free
    then some (e.start, take_page selected s)
    else rest

pub alloc_page : (fuel : ℕ) → Pmm → Option (ℕ × Pmm)
alloc_page fuel s = if not s.allowing then some (0, s) else elim (alloc_loop fuel s.sections s) [
  | none ↦ none
  | some (base, s') ↦ some (
    base,
    if not (base == 0) then record s' { free_memory = sub64 s'.free_memory page_size } else s',
  )
]
