-- ===== src/Locks.antt =====
-- src/pmm/page_frame_allocator.c: `pmm_free_page`, `pmm_lock_page` and the loops over them.
pub mod Ignored
pub mod Lost
pub mod Returned
pub mod RoundTrip
pub mod Walk
mod Tests
use titanix.Base.{
  ℕ, zero, suc, ◌+◌, ◌-◌, ◌*◌, ◌/◌, ◌%◌, ◌^◌, Bool, true, false, not, ◌&&◌, ◌||◌, Option, none,
  some, ltb, leb, ◌==◌, if◌then◌else◌, add64, sub64, mul64,
}
use titanix.Pmm.{
  Section, Pmm, section_used, section_free, page_size, put, set_prev, set_next, set_start,
  set_pages, set_free, new_section, delete_section,
}
use titanix.Frames.{section_split, section_combine_next, section_combine_prev}

-- How a round of a loop ends: by a `return`, or with the section whose `next` comes next.
pub data Round : Type 0 where
  returned : Pmm → Round
  goes_on : ℕ → Pmm → Round

-- `pmm_free_page` at the section that starts with the page.
pub free_first : ℕ → Pmm → Pmm
free_first selected s =
    let e = s.section selected in
    let free_before = (s.section e.prev).free == section_free in
    let free_behind = (s.section e.next).free == section_free in
    if e.free == section_free
    then s
    else if e.pages == 1
    then if free_before && free_behind
      then section_combine_prev e.prev (section_combine_next selected s)
      else if free_before
      then section_combine_prev selected s
      else if free_behind
      then section_combine_next selected s
      else set_free selected section_free s
    else if free_before
    then (let s1 = set_pages e.prev (add64 (s.section e.prev).pages 1) s in
        let s2 = set_start selected (add64 (s1.section selected).start page_size) s1 in
        set_pages selected (sub64 (s2.section selected).pages 1) s2)
    else section_split selected (add64 e.start page_size) s

-- One round of the loop of `pmm_free_page`.
pub free_round : (page selected : ℕ) → Pmm → Round
free_round page selected s =
    let e = s.section selected in
    let n = s.section e.next in
    if e.start == page
    then returned (free_first selected s)
    else if not (ltb e.start page && ltb page n.start)
    then goes_on selected s
    else if e.free == section_free
    then returned s
    else if not (sub64 n.start page_size == page)
    then goes_on selected s
    else if n.free == section_free
    then (let s1 = set_start e.next (sub64 n.start page_size) s in
        let s2 = set_pages e.next (add64 (s1.section e.next).pages 1) s1 in
        goes_on selected (set_pages selected (sub64 (s2.section selected).pages 1) s2))
    else (let s1 = section_split selected page s in
        let behind = (s1.section selected).next in
        let s2 = section_split behind (add64 (s1.section behind).start page_size) s1 in
        goes_on behind (set_free behind section_free s2))

-- The loop; the memory counts as free again only if it runs to its end.
pub free_loop : (fuel page selected : ℕ) → Pmm → Option Pmm
free_loop zero page selected s = none
free_loop (suc fuel) page selected s =
    if selected == 0
    then some (record s { free_memory = add64 s.free_memory page_size })
    else elim (free_round page selected s) [
      | returned s' ↦ some s'
      | goes_on q s' ↦ free_loop fuel page (s'.section q).next s'
    ]

pub free_page : (fuel page : ℕ) → Pmm → Option Pmm
free_page fuel page s = if not s.allowing then some s else free_loop fuel page s.sections s

-- `pmm_lock_page` at a section of one page, which is the page.
pub lock_single : ℕ → Pmm → Pmm
lock_single selected s0 =
    let s = set_free selected section_used s0 in
    let e = s.section selected in
    let used_before = (s.section e.prev).free == section_used in
    let used_behind = (s.section e.next).free == section_used in
    if used_before && used_behind
    then section_combine_prev e.prev (section_combine_next selected s)
    else if used_before
    then section_combine_prev selected s
    else if used_behind
    then section_combine_next selected s
    else s

-- At a page inside a section.
pub lock_inside : (page selected : ℕ) → Pmm → ℕ × Pmm
lock_inside page selected s =
    let e = s.section selected in
    let n = s.section e.next in
    if sub64 n.start page_size == page
    then if n.free == section_used
      then (let s1 = set_start e.next (sub64 n.start page_size) s in
          let s2 = set_pages e.next (add64 (s1.section e.next).pages 1) s1 in
          (selected, set_pages selected (sub64 (s2.section selected).pages 1) s2))
      else (let s1 = section_split selected page s in
          let behind = (s1.section selected).next in (behind, set_free behind section_used s1))
    else (let s1 = section_split selected page s in
        let behind = (s1.section selected).next in
        let s2 = section_split behind (add64 (s1.section behind).start page_size) s1 in
        (behind, set_free behind section_used s2))

-- One round of the loop of `pmm_lock_page`.
pub lock_round : (page selected : ℕ) → Pmm → Round
lock_round page selected s =
    let e = s.section selected in
    if (e.pages == 1) && (e.start == page)
    then returned (lock_single selected s)
    else if e.start == page
    then if e.free == section_used
      then returned s
      else if (s.section e.prev).free == section_used
      then (let s1 = set_pages e.prev (add64 (s.section e.prev).pages 1) s in
          let s2 = set_pages selected (sub64 (s1.section selected).pages 1) s1 in
          returned (set_start selected (add64 (s2.section selected).start page_size) s2))
      else goes_on selected
          (set_free selected section_used (section_split selected (add64 e.start page_size) s))
    else if not (ltb e.start page && ltb page (s.section e.next).start)
    then goes_on selected s
    else if e.free == section_used
    then returned s
    else (let (q, s') = lock_inside page selected s in goes_on q s')

pub lock_loop : (fuel page selected : ℕ) → Pmm → Option Pmm
lock_loop zero page selected s = none
lock_loop (suc fuel) page selected s =
    if selected == 0 then some s else elim (lock_round page selected s) [
      | returned s' ↦ some s'
      | goes_on q s' ↦ lock_loop fuel page (s'.section q).next s'
    ]

pub lock_page : (fuel page : ℕ) → Pmm → Option Pmm
lock_page fuel page s = if not s.allowing then some s else lock_loop fuel page s.sections s

pub unlock_page : (fuel page : ℕ) → Pmm → Option Pmm
unlock_page fuel page s = if not s.allowing then some s else free_page fuel page s

-- The loops of `pmm_lock_pages` and `pmm_unlock_pages`, with `count` rounds left.
pub pages_loop : (ℕ → Pmm → Option Pmm) → (count page : ℕ) → Pmm → Option Pmm
pages_loop call zero page s = some s
pages_loop call (suc count) page s = elim (call page s) [
  | none ↦ none
  | some s' ↦ pages_loop call count (add64 page page_size) s'
]

pub lock_pages : (fuel page count : ℕ) → Pmm → Option Pmm
lock_pages fuel page count s =
    if not s.allowing then some s else pages_loop (lock_page fuel) count page s

pub unlock_pages : (fuel page count : ℕ) → Pmm → Option Pmm
unlock_pages fuel page count s =
    if not s.allowing then some s else pages_loop (unlock_page fuel) count page s
