-- ===== src/Pmm.antt =====
-- src/pmm/pmm.c and include/lib/pmm.h: the sections of physical memory.
-- A section is a range of page frames and its type; the sections are a doubly linked list of records
-- in a table. The records lie in a store by address, so that two pointers to one record are aliases;
-- what the code reads through NULL is what the store has at 0.
pub mod Chain
pub mod Count
pub mod Merge
pub mod Recombine
pub mod Sample
pub mod Table
mod Tests
use titanix.Base.{
  ℕ, zero, suc, ◌+◌, ◌-◌, ◌*◌, ◌/◌, ◌%◌, ◌^◌, Bool, true, false, not, ◌&&◌, ◌||◌, Option, none,
  some, ltb, leb, ◌==◌, if◌then◌else◌, add64, sub64, mul64,
}

-- `pmm_section_t`, of 40 bytes
pub record Section : Type 0 where
  pub prev : ℕ
  pub next : ℕ
  pub start : ℕ
  pub pages : ℕ
  pub free : ℕ

abbrev pub section_size : ℕ
section_size = 40

abbrev pub page_size : ℕ
page_size = 0x1000

abbrev pub section_used : ℕ
section_used = 0

abbrev pub section_free : ℕ
section_free = 1

abbrev pub section_bad : ℕ
section_bad = 2

abbrev pub Store : Type 0
Store = ℕ → Section

abbrev pub put : Store → ℕ → Section → Store
put h a v q = if q == a then v else h q

-- The variables of the two files.
pub record Pmm : Type 0 where
  pub allowing : Bool
  pub free_memory : ℕ
  pub sections : ℕ
  pub section_head : ℕ
  pub data_size : ℕ
  pub estimated_total_memory : ℕ
  pub section : Store

-- Assignments through a pointer, one for each field.
abbrev pub set_prev : ℕ → ℕ → Pmm → Pmm
set_prev p v s = record s { section = put s.section p (record (s.section p) { prev = v }) }

abbrev pub set_next : ℕ → ℕ → Pmm → Pmm
set_next p v s = record s { section = put s.section p (record (s.section p) { next = v }) }

abbrev pub set_start : ℕ → ℕ → Pmm → Pmm
set_start p v s = record s { section = put s.section p (record (s.section p) { start = v }) }

abbrev pub set_pages : ℕ → ℕ → Pmm → Pmm
set_pages p v s = record s { section = put s.section p (record (s.section p) { pages = v }) }

abbrev pub set_free : ℕ → ℕ → Pmm → Pmm
set_free p v s = record s { section = put s.section p (record (s.section p) { free = v }) }

-- `&pmm_sections[i]`
abbrev pub section_at : Pmm → ℕ → ℕ
section_at s i = add64 s.sections (mul64 i section_size)

abbrev pub is_linked : Section → Bool
is_linked e = not (e.prev == 0) || not (e.next == 0)

-- The loop of `pmm_section_manager_reindex` at index `i`, with `n` rounds left.
pub reindex_loop : (n i : ℕ) → Pmm → Pmm
reindex_loop zero i s = s
reindex_loop (suc n) i s =
    let rest = reindex_loop n (i + 1) s in
    if is_linked (s.section (section_at s i)) then rest else record s { section_head = i }

pub section_manager_reindex : Pmm → Pmm
section_manager_reindex s =
    reindex_loop ((s.data_size + section_size - 1) / section_size) 0 (record s { section_head = 0 })

-- `pmm_new_section`; 0 is the NULL that it returns when the table is full.
unfoldable pub new_section : Pmm → ℕ × Pmm
new_section s =
    if leb s.data_size (mul64 s.section_head section_size)
    then (0, s)
    else if is_linked (s.section (section_at s s.section_head))
    then (let s1 = section_manager_reindex s in
        let p = section_at s1 s1.section_head in
        if is_linked (s1.section p)
        then (0, s1)
        else (p, record s1 { section_head = add64 s1.section_head 1 }))
    else (section_at s s.section_head, record s { section_head = add64 s.section_head 1 })

-- All five fields are cleared.
unfoldable pub delete_section : ℕ → Pmm → Pmm
delete_section p s = record s {
  section = put s.section p (record { prev = 0; next = 0; start = 0; pages = 0; free = 0 });
}

unfoldable pub interpret_signal : ℕ → ℕ
interpret_signal signal =
    if signal == 2 then section_used else if signal == 1 then section_free else section_bad

-- The body of the inner loop of `pmm_recombine` where the types match.
pub join_next : ℕ → Pmm → Pmm
join_next current s =
    let h = s.section in
    let s1 = set_pages current (add64 (h current).pages (h (h current).next).pages) s in
    let h1 = s1.section in
    let after = (h1 (h1 current).next).next in
    if not (after == 0)
    then (let s2 = set_next current after s1 in
        let s3 = delete_section (s2.section (s2.section current).next).prev s2 in
        set_prev (s3.section current).next current s3)
    else set_next current 0 (delete_section (h1 current).next s1)

-- The inner loop from `current` on, with `detected`.
pub recombine_pass : (fuel current detected : ℕ) → Pmm → Option (ℕ × Pmm)
recombine_pass zero current detected s = none
recombine_pass (suc fuel) current detected s =
    let c = s.section current in
    let s' = join_next current s in
    let skip = recombine_pass fuel c.next detected s in
    let join = recombine_pass fuel (s'.section current).next 1 s' in
    if current == 0
    then some (detected, s)
    else if c.next == 0
    then some (detected, s)
    else if not (c.free == (s.section c.next).free)
    then skip
    else join

-- The outer loop; `fuel` bounds both loops.
pub recombine_loop : (rounds fuel : ℕ) → Pmm → Option Pmm
recombine_loop zero fuel s = none
recombine_loop (suc rounds) fuel s = elim (recombine_pass fuel s.sections 0 s) [
  | none ↦ none
  | some (detected, s') ↦
      let rest = recombine_loop rounds fuel s' in if detected == 0 then some s' else rest
]

pub recombine : (fuel : ℕ) → Pmm → Option Pmm
recombine fuel s = recombine_loop fuel fuel s

-- The loop of `pmm_recalculate_free_memory`, with the sum so far.
pub recalculate_loop : (fuel current sum : ℕ) → Pmm → Option ℕ
recalculate_loop zero current sum s = none
recalculate_loop (suc fuel) current sum s =
    let c = s.section current in
    let sum' = if c.free == section_free then add64 sum (mul64 c.pages page_size) else sum in
    let rest = recalculate_loop fuel c.next sum' s in if current == 0 then some sum else rest

pub recalculate_free_memory : (fuel : ℕ) → Pmm → Option Pmm
recalculate_free_memory fuel s = elim (recalculate_loop fuel s.sections 0 s) [
  | none ↦ none
  | some sum ↦ some (record s { free_memory = sum })
]
