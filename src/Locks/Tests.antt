-- ===== src/Locks/Tests.antt =====
-- Pages that `pmm_free_page` frees and does not free.
use titanix.Base.{true, ℕ, ◌≡◌, inl, refl, List, [], ◌∷◌, some, arith, sub64}
use titanix.Pmm.{Pmm, page_size, section_used, section_free, section_bad}
use titanix.Pmm.Chain.{Range, Entry, ranges}
use titanix.Pmm.Table.{Holds}
use titanix.Frames.{alloc_page}
use titanix.Locks.RoundTrip.{free_page-alloc_page}
use titanix.Pmm.Sample.{four_state, four-Holds}
use titanix.Locks.{free_page}
use titanix.Locks.Lost.{free_page-lost}
use titanix.Locks.Ignored.{raised, free_page-ignored}

abbrev low : Range
low = record { start = 0; pages = 1; free = section_bad }

abbrev spare : Range
spare = record { start = 0x1000; pages = 4; free = section_free }

abbrev single : Range
single = record { start = 0x5000; pages = 1; free = section_used }

abbrev device : Range
device = record { start = 0x6000; pages = 3; free = section_bad }

abbrev kernel : Range
kernel = record { start = 0x5000; pages = 16; free = section_used }

abbrev rest : Range
rest = record { start = 0x15000; pages = 8; free = section_free }

abbrev entry : ℕ → Range → Entry
entry q r = record { at = q; range = r }

free_page-lost_example :
    free_page 3 0x5000 (four_state true 0x4000 low spare single device)
    ≡ some (four_state true 0x4000 low spare single device)
free_page-lost_example =
    free_page-lost 3 (four_state true 0x4000 low spare single device) (entry 0x10000 low ∷ [])
      (entry 0x10028 spare) (entry 0x10050 single) (entry 0x10078 device) [] refl
      (four-Holds true 0x4000 low spare single device) (refl, (refl, (refl, tt)))
      (omega arith, (omega arith, (omega arith, (omega arith, tt))))
      (omega arith, (omega arith, (omega arith, (tt, tt)))) refl (omega arith) (inl refl)
      (omega arith)

free_page-ignored_example :
    free_page 5 0x6000 (four_state true 0xc000 low spare kernel rest)
    ≡ some (raised (four_state true 0xc000 low spare kernel rest))
free_page-ignored_example =
    free_page-ignored 5 0x6000 (four_state true 0xc000 low spare kernel rest)
      (entry 0x10000 low ∷ entry 0x10028 spare ∷ []) (entry 0x10050 kernel) (entry 0x10078 rest) []
      refl (four-Holds true 0xc000 low spare kernel rest) (refl, (refl, (refl, tt)))
      (omega arith, (omega arith, (omega arith, (omega arith, tt)))) (omega arith) (omega arith)
      (omega arith) (omega arith) (omega arith)

abbrev used : Range
used = record { start = 0x1000; pages = 4; free = section_used }

abbrev spares : Range
spares = record { start = 0x5000; pages = 16; free = section_free }

abbrev high : Range
high = record { start = 0x15000; pages = 8; free = section_bad }

-- The page at 0x5000 is taken, and freed again; the count of free memory stays one page short.
free_page-alloc_page_example :
    (s' s'' : Pmm) × (zs : List Entry) × (alloc_page 5
        (four_state true 0x10000 low used spares high)
      ≡ some (0x5000, s'))
    × (free_page 5 0x5000 s' ≡ some s'')
    × Holds s'' zs
    × (ranges zs ≡ low ∷ used ∷ spares ∷ high ∷ [])
    × (s''.free_memory ≡ sub64 0x10000 page_size)
free_page-alloc_page_example =
    free_page-alloc_page 5 (four_state true 0x10000 low used spares high) (entry 0x10000 low) []
      (entry 0x10028 used) (entry 0x10050 spares) (entry 0x10078 high ∷ []) refl
      (four-Holds true 0x10000 low used spares high) (omega arith)
      (omega arith, (omega arith, (omega arith, (omega arith, tt)))) (refl, (refl, (refl, tt)))
      (omega arith, (omega arith, (omega arith, (omega arith, tt)))) (omega arith, omega arith, tt)
      refl refl (omega arith) (omega arith)
