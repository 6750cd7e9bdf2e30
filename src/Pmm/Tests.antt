-- ===== src/Pmm/Tests.antt =====
-- The joins and the count on four sections, of which the middle two are free.
use titanix.Base.{false, refl, List, arith}
use titanix.Pmm.{Pmm, section_used, section_free, section_bad, recombine}
use titanix.Pmm.Chain.{Range, Entry, ranges}
use titanix.Pmm.Sample.{four_sections, four_state, four-Holds}
use titanix.Pmm.Recombine.{Result, recombine-Result}

abbrev low : Range
low = record { start = 0; pages = 1; free = section_bad }

abbrev left : Range
left = record { start = 0x1000; pages = 4; free = section_free }

abbrev right : Range
right = record { start = 0x5000; pages = 2; free = section_free }

abbrev kernel : Range
kernel = record { start = 0x7000; pages = 16; free = section_used }

abbrev state : Pmm
state = four_state false 0 low left right kernel

abbrev sections : List Entry
sections = four_sections low left right kernel

recombine-Result_example : Result (ranges sections) (recombine 5 state)
recombine-Result_example =
    recombine-Result 5 state sections (four-Holds false 0 low left right kernel)
      (omega arith, (omega arith, (omega arith, (omega arith, tt)))) (refl, (refl, (refl, tt)))
      (omega arith)
