-- ===== src/Pmm/Table.antt =====
-- The table that new records come from: the records at and behind the head have never been linked.
use titanix.Pmm.Chain.{Entry, In, Distinct, head_at, Linked}
use titanix.Base.{List, ℕ, ◌+◌, ◌*◌, ◌^◌, ◌<◌, ◌≤◌, ◌≡◌, ◌%◌, false, arith, leb}
use titanix.Pmm.{Section, Pmm, section_size, new_section}

-- The address of the next new record.
abbrev pub top : Pmm → ℕ
top s = s.sections + s.section_head * section_size

abbrev pub IsBlank : Section → Type 0
IsBlank e = (e.prev ≡ 0) × (e.next ≡ 0)

pub record Table (s : Pmm) : Type 0 where
  pub pos : 0 < s.sections
  pub fits : s.sections + s.data_size < 2 ^ 63
  pub blank :
      (i : ℕ)
      → s.section_head ≤ i
      → i * section_size < s.data_size
      → IsBlank (s.section (s.sections + i * section_size))

-- While there is room the record at the head is given out.
pub new_section_lem :
    (s : Pmm)
    → Table s
    → s.section_head * section_size < s.data_size
    → new_section s ≡ (top s, record s { section_head = s.section_head + 1 })
unfolding new_section
new_section_lem s t room =
    let (bp, bn) = t.blank s.section_head (omega arith) room in
    let fits = t.fits in
    let small : s.section_head * section_size % 2 ^ 64 ≡ s.section_head * section_size =
      omega arith in
    let here : (s.sections + s.section_head * section_size) % 2 ^ 64 ≡ top s = omega arith in
    let more : (s.section_head + 1) % 2 ^ 64 ≡ s.section_head + 1 = omega arith in
    let full : leb s.data_size (s.section_head * section_size) ≡ false = ground arith in
    simp (small, full, here, bp, bn, more)

-- The records are old ones of the table.
abbrev pub Old : Pmm → List Entry → Type 0
Old s xs = (q : ℕ) → In q xs → (0 < q) × (q < top s)

-- The state holds the list of sections `xs`, the first record of the table first.
pub record Holds (s : Pmm) (xs : List Entry) : Type 0 where
  pub table : Table s
  pub first : s.sections ≡ head_at xs
  pub chain : Linked s.section 0 xs
  pub distinct : Distinct xs
  pub old : Old s xs
