-- ===== src/Pmm/Count.antt =====
-- `pmm_recalculate_free_memory` on the list of sections.
use titanix.Base.{
  length, ℕ, zero, suc, ◌+◌, ◌*◌, ◌^◌, ◌<◌, ◌≡◌, inl, inr, refl, ◌∙◌, ap, false, some, List, [],
  ◌∷◌, arith, ◌==◌, if◌then◌else◌, add64, mul64, Bool-cases,
}
use titanix.Pmm.{Pmm, page_size, section_free, recalculate_loop, recalculate_free_memory}
use titanix.Pmm.Chain.{Range, Entry, In, ranges, head_at, Linked}
use titanix.Pmm.Table.{Holds}

abbrev pub free_in : Range → ℕ
free_in r = if r.free == section_free then r.pages * page_size else 0

-- The bytes of the free ranges.
abbrev pub free_bytes : List Range → ℕ
free_bytes [] = 0
free_bytes (r ∷ rs) = free_in r + free_bytes rs

recalculate_loop-free_bytes :
    (fuel sum : ℕ) (s : Pmm) (p : ℕ) (xs : List Entry)
    → Linked s.section p xs
    → ((q : ℕ) → In q xs → 0 < q)
    → sum + free_bytes (ranges xs) < 2 ^ 64
    → length xs < fuel
    → recalculate_loop fuel (head_at xs) sum s ≡ some (sum + free_bytes (ranges xs))
unfolding recalculate_loop
recalculate_loop-free_bytes zero sum s p xs l pos f h = absurd (omega arith)
recalculate_loop-free_bytes (suc fuel) sum s p [] l pos f h = ap (λ (x : ℕ). some x) (omega arith)
recalculate_loop-free_bytes (suc fuel) sum s p (x ∷ xs) (here, l) pos f h =
    let px = pos x.at (inl refl) in
    let e0 : (x.at == 0) ≡ false = ground arith in
    let rest : (t : ℕ)
        → t ≡ sum + free_in x.range
        → recalculate_loop fuel (head_at xs) t s ≡ some (sum + free_bytes (ranges (x ∷ xs))) =
      λ t e.
        recalculate_loop-free_bytes fuel t s x.at xs l (λ q i. pos q (inr i)) (omega arith)
          (omega arith)
        ∙ ap (λ (y : ℕ). some y) (omega arith) in
    elim (Bool-cases (x.range.free == section_free)) [
      | inl u ↦
          let e : free_in x.range ≡ x.range.pages * page_size = ground arith in
          (simp (e0, here, u)) ∙ rest (add64 sum (mul64 x.range.pages page_size)) (omega arith)
      | inr u ↦
          let e : free_in x.range ≡ 0 = ground arith in
          (simp (e0, here, u)) ∙ rest sum (omega arith)
    ]

-- `free_memory` is the number of bytes in the free sections.
abbrev pub IsCounted : Pmm → List Range → Type 0
IsCounted s rs = (s.free_memory ≡ free_bytes rs) × (free_bytes rs < 2 ^ 64)

-- After `pmm_recalculate_free_memory`, on fuel above the number of sections, `free_memory` is the
-- number of bytes in the free sections, if that fits 64 bits; nothing else has changed.
pub recalculate_free_memory-free_bytes :
    (fuel : ℕ) (s : Pmm) (xs : List Entry)
    → Holds s xs
    → free_bytes (ranges xs) < 2 ^ 64
    → length xs < fuel
    → recalculate_free_memory fuel s ≡ some (record s { free_memory = free_bytes (ranges xs) })
unfolding recalculate_free_memory
recalculate_free_memory-free_bytes fuel s xs v f h =
    let run : recalculate_loop fuel s.sections 0 s ≡ some (free_bytes (ranges xs)) =
      ap (λ (x : ℕ). recalculate_loop fuel x 0 s) v.first
      ∙ recalculate_loop-free_bytes fuel 0 s 0 xs v.chain (λ q i. (v.old q i).0) (omega arith) h
      ∙ ap (λ (x : ℕ). some x) (omega arith) in
    rw (recalculate_free_memory, run) refl
