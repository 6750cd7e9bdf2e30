-- ===== src/Pmm/Sample.antt =====
-- A table of four sections, of any ranges, for runs of the code.
use titanix.Base.{
  Bool, ℕ, ◌+◌, ◌*◌, ◌≡◌, inl, inr, refl, List, [], ◌∷◌, false, ◌==◌, if◌then◌else◌, arith,
}
use titanix.Pmm.{Pmm, Store}
use titanix.Pmm.Chain.{Range, Entry, section_of}
use titanix.Pmm.Table.{Table, Holds, Old}

-- The four records, one behind the other.
abbrev pub four_sections : (a b c d : Range) → List Entry
four_sections a b c d =
    record { at = 0x10000; range = a }
    ∷ record { at = 0x10028; range = b }
    ∷ record { at = 0x10050; range = c }
    ∷ record { at = 0x10078; range = d }
    ∷ []

abbrev four_store : (a b c d : Range) → Store
four_store a b c d q =
    if q == 0x10000
    then section_of a 0 0x10028
    else if q == 0x10028
    then section_of b 0x10000 0x10050
    else if q == 0x10050
    then section_of c 0x10028 0x10078
    else if q == 0x10078
    then section_of d 0x10050 0
    else record { prev = 0; next = 0; start = 0; pages = 0; free = 0 }

abbrev pub four_state : (allowing : Bool) → (free_memory : ℕ) → (a b c d : Range) → Pmm
four_state allowing n a b c d = record {
  allowing = allowing;
  free_memory = n;
  sections = 0x10000;
  section_head = 4;
  data_size = 4000;
  estimated_total_memory = 0;
  section = four_store a b c d;
}

module _ (o : Bool) (n : ℕ) (a b c d : Range) where
  four-Table : Table (four_state o n a b c d)
  four-Table = record {
    pos = omega arith;
    fits = omega arith;
    blank = λ i h h'.
        let e0 : (0x10000 + i * 40 == 0x10000) ≡ false = ground arith in
        let e1 : (0x10000 + i * 40 == 0x10028) ≡ false = ground arith in
        let e2 : (0x10000 + i * 40 == 0x10050) ≡ false = ground arith in
        let e3 : (0x10000 + i * 40 == 0x10078) ≡ false = ground arith in
        (simp (e0, e1, e2, e3), simp (e0, e1, e2, e3));
  }

  four-Old : Old (four_state o n a b c d) (four_sections a b c d)
  four-Old q (inl e) = (omega arith, omega arith)
  four-Old q (inr (inl e)) = (omega arith, omega arith)
  four-Old q (inr (inr (inl e))) = (omega arith, omega arith)
  four-Old q (inr (inr (inr (inl e)))) = (omega arith, omega arith)
  four-Old q (inr (inr (inr (inr i)))) = absurd i

  pub four-Holds : Holds (four_state o n a b c d) (four_sections a b c d)
  four-Holds = record {
    table = four-Table;
    first = refl;
    chain = (refl, (refl, (refl, (refl, tt))));
    distinct = (
      λ i. elim i [
        | inl e ↦ omega arith
        | inr j ↦ elim j [
          | inl e ↦ omega arith
          | inr k ↦ elim k [ inl e ↦ omega arith | inr m ↦ m ]
        ]
      ],
      (
        λ i. elim i [ inl e ↦ omega arith | inr j ↦ elim j [ inl e ↦ omega arith | inr k ↦ k ] ],
        (λ i. elim i [ inl e ↦ omega arith | inr k ↦ k ], ((λ k. k), tt)),
      ),
    );
    old = four-Old;
  }
