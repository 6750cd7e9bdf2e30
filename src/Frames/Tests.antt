-- ===== src/Frames/Tests.antt =====
-- A page taken of a small list: a section without pages is dropped on the way.
use titanix.Base.{true, ◌≡◌, refl, List, [], ◌∷◌, some, arith, sub64}
use titanix.Pmm.{Pmm, page_size, section_used, section_free, section_bad}
use titanix.Pmm.Chain.{Range, Entry, ranges}
use titanix.Pmm.Table.{Holds}
use titanix.Pmm.Count.{IsCounted}
use titanix.Pmm.Sample.{four_state, four-Holds}
use titanix.Frames.{alloc_page}
use titanix.Frames.Scan.{first_free, grab}
use titanix.Frames.Owner.{Taken}
use titanix.Frames.Alloc.{alloc_page-Taken}
use titanix.Frames.Count.{alloc_page-IsCounted}

abbrev low : Range
low = record { start = 0; pages = 1; free = section_bad }

abbrev empty : Range
empty = record { start = 0x1000; pages = 0; free = section_free }

abbrev high : Range
high = record { start = 0x1000; pages = 4; free = section_free }

abbrev kernel : Range
kernel = record { start = 0x5000; pages = 16; free = section_used }

abbrev state : Pmm
state = four_state true 0x4000 low empty high kernel

abbrev first : Entry
first = record { at = 0x10000; range = low }

abbrev others : List Entry
others =
    record { at = 0x10028; range = empty }
    ∷ record { at = 0x10050; range = high }
    ∷ record { at = 0x10078; range = kernel }
    ∷ []

abbrev left : List Range
left =
    low
    ∷ record { start = 0x1000; pages = 1; free = section_used }
    ∷ record { start = 0x2000; pages = 3; free = section_free }
    ∷ kernel
    ∷ []

found : first_free low (ranges others) ≡ some (0x1000, left)
unfolding first_free grab
found = refl

alloc_page-Taken_example :
    (s' : Pmm) × (xs : List Entry) × (alloc_page 5 state ≡ some (0x1000, s'))
    × Holds s' xs
    × (ranges xs ≡ left)
    × Taken low (ranges others) 0x1000 left
    × (s'.free_memory ≡ sub64 0x4000 page_size)
    × (s'.allowing ≡ true)
alloc_page-Taken_example =
    alloc_page-Taken 5 state first others 0x1000 left refl
      (four-Holds true 0x4000 low empty high kernel) (omega arith)
      (omega arith, (omega arith, (omega arith, (omega arith, tt)))) (refl, (refl, (refl, tt)))
      (omega arith) (omega arith) found (omega arith)

alloc_page-IsCounted_example :
    (s' : Pmm) × (xs : List Entry) × (alloc_page 5 state ≡ some (0x1000, s'))
    × Holds s' xs
    × IsCounted s' (ranges xs)
    × (s'.allowing ≡ true)
alloc_page-IsCounted_example =
    alloc_page-IsCounted 5 state first others 0x1000 left refl
      (four-Holds true 0x4000 low empty high kernel) (refl, omega arith) (omega arith)
      (omega arith, (omega arith, (omega arith, (omega arith, tt)))) (refl, (refl, (refl, tt)))
      (omega arith) (omega arith) found (omega arith)
