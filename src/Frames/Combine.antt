-- ===== src/Frames/Combine.antt =====
-- The joins of neighbours, where their types differ.
use titanix.Base.{ℕ, ◌≡◌, ◌≢◌, ◌⊎◌, inl, inr, arith}
use titanix.Pmm.{Pmm}
use titanix.Frames.{section_combine_next, section_combine_prev}

-- Joining sections of different types does nothing.
pub combine_next-other :
    (s : Pmm) (q : ℕ)
    → (s.section q).free ≢ (s.section (s.section q).next).free
    → section_combine_next q s ≡ s
unfolding section_combine_next
combine_next-other s q ne = ground arith

pub combine_prev-other :
    (s : Pmm) (q : ℕ)
    → ((s.section q).prev ≡ 0) ⊎ (s.section q).free ≢ (s.section (s.section q).prev).free
    → section_combine_prev q s ≡ s
unfolding section_combine_prev
combine_prev-other s q w = elim w [ inl z ↦ ground arith | inr ne ↦ ground arith ]
