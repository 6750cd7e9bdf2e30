-- ===== src/Idt/Vectors.antt =====
-- src/interrupts/idt.c: which vectors are in use.
use mathlib.Core.Path.{subst}
use titanix.Base.{
  ℕ, zero, suc, ◌+◌, ◌≤◌, ◌<◌, ◌≡◌, inl, inr, ◌∙◌, ap, sym, refl, true, false, Bool-cases, arith,
  u8, ◌==◌, ◌||◌,
}
use titanix.Idt.{
  Idt, update, allocate_loop, idt_allocate_vector, idt_free_vector, idt_set_discriptor,
}

allocate_loop-taken :
    (n i : ℕ) (s : Idt) → s.vectors i ≡ true → allocate_loop (suc n) i s ≡ allocate_loop n (i + 1) s
unfolding allocate_loop
allocate_loop-taken n i s h = rw h

allocate_loop-free :
    (n i : ℕ) (s : Idt)
    → s.vectors i ≡ false
    → allocate_loop (suc n) i s ≡ (u8 i, record s { vectors = update i true s.vectors })
unfolding allocate_loop
allocate_loop-free n i s h = rw h

-- The loop finds the first free vector.
allocate_loop_lem :
    (n i v : ℕ) (s : Idt)
    → i ≤ v
    → v < i + n
    → i + n ≤ 256
    → s.vectors v ≡ false
    → ((j : ℕ) → i ≤ j → j < v → s.vectors j ≡ true)
    → allocate_loop n i s ≡ (v, record s { vectors = update v true s.vectors })
allocate_loop_lem zero i v s p q b f t = absurd (omega arith)
allocate_loop_lem (suc n) i v s p q b f t = elim (Bool-cases (i == v)) [
  | inl e ↦
      let same : i ≡ v = ground arith in
      allocate_loop-free n i s (ap s.vectors same ∙ f)
      ∙ ap (λ (x : ℕ). (u8 x, record s { vectors = update x true s.vectors })) same
      ∙ ap (λ (x : ℕ). (x, record s { vectors = update v true s.vectors })) (omega arith)
  | inr e ↦
      allocate_loop-taken n i s (t i (omega arith) (ground arith))
      ∙ allocate_loop_lem n (i + 1) v s (ground arith) (omega arith) (omega arith) f
          (λ j h h'. t j (omega arith) h')
]

-- `vectors[vector] = TRUE` and then the release.
freed :
    (v j : ℕ) (s : Idt)
    → s.vectors v ≡ false
    → let s' = record s { vectors = update v true s.vectors } in
      let s'' = idt_free_vector v s' in
      (s''.vectors j ≡ s.vectors j) × (s''.routine_services v ≡ 0) × (s''.interrupts ≡ false)
unfolding idt_free_vector idt_set_discriptor
freed v j s f = (
  elim (Bool-cases (j == v)) [
    | inl e ↦ let same : j ≡ v = ground arith in let g = ap s.vectors same ∙ f in ground arith
    | inr e ↦ ground arith
  ],
  ground arith,
  refl,
)

marked : (v j : ℕ) (s : Idt) → update v true s.vectors j ≡ (j == v) || s.vectors j
marked v j s = ground arith

-- If `v` is the first vector below 256 that is not in use, `idt_allocate_vector` returns `v` and
-- marks it and no other vector. `idt_free_vector` of it then leaves every vector marked as it was
-- before, clears the service of `v`, and leaves interrupts disabled.
pub idt_allocate_vector-first :
    (v j : ℕ) (s : Idt)
    → v < 256
    → s.vectors v ≡ false
    → ((i : ℕ) → i < v → s.vectors i ≡ true)
    → let (w, s') = idt_allocate_vector s in
      let s'' = idt_free_vector w s' in
      (w ≡ v)
      × (s'.vectors j ≡ (j == v) || s.vectors j)
      × (s''.vectors j ≡ s.vectors j)
      × (s''.routine_services v ≡ 0)
      × (s''.interrupts ≡ false)
unfolding idt_allocate_vector
idt_allocate_vector-first v j s b f t =
    let s1 = record s { vectors = update v true s.vectors } in
    let run : allocate_loop 256 0 s ≡ (v, s1) =
      allocate_loop_lem 256 0 v s (omega arith) (omega arith) (omega arith) f (λ i p q. t i q) in
    subst
      (λ (x : ℕ × Idt).
        let s'' = idt_free_vector x.0 x.1 in
        (x.0 ≡ v)
        × (x.1.vectors j ≡ (j == v) || s.vectors j)
        × (s''.vectors j ≡ s.vectors j)
        × (s''.routine_services v ≡ 0)
        × (s''.interrupts ≡ false))
      (sym run) (refl, marked v j s, (freed v j s f).0, (freed v j s f).1, (freed v j s f).2)
