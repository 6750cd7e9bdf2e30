-- ===== src/Mmap/Chosen.antt =====
-- `alloc` takes the end of the last entry that is large enough.
use mathlib.Core.Path.{subst}
use titanix.Base.{
  ℕ, zero, suc, ◌+◌, ◌%◌, ◌^◌, ◌<◌, ◌≤◌, ◌≡◌, ◌≢◌, ◌⊎◌, inl, inr, refl, ◌∙◌, ap, sym, true, false,
  ◌==◌, arith, sub64, Bool-cases,
}
use titanix.Mmap.{Mmap, Nodes, fits, align, chosen_loop, alloc, page_size}

-- The last entry below a bound that is large enough.
pub record Last (m : Mmap) (len bound i : ℕ) : Type 0 where
  pub below : i < bound
  pub large : fits (m.mmap_entries i) len ≡ true
  pub behind : (j : ℕ) → i < j → j < bound → fits (m.mmap_entries j) len ≡ false

chosen_loop-Last :
    (n i : ℕ) (m : Mmap) (len c : ℕ)
    → ((k : ℕ) × (i ≤ k) × (k < i + n) × (fits (m.mmap_entries k) len ≡ true)) ⊎ Last m len i c
    → Last m len (i + n) (chosen_loop n i m len c)
unfolding chosen_loop
chosen_loop-Last zero i m len c (inl (k, low, high, f)) = absurd (omega arith)
chosen_loop-Last zero i m len c (inr l) = record {
  below = omega (arith, l.below);
  large = l.large;
  behind = λ j h h'. l.behind j h (omega arith);
}
chosen_loop-Last (suc n) i m len c w =
    let shift : i + 1 + n ≡ i + suc n = omega arith in
    elim (Bool-cases (fits (m.mmap_entries i) len)) [
      | inl yes_fits ↦
          subst (λ x. Last m len x (chosen_loop (suc n) i m len c)) shift
            (rw (chosen_loop, yes_fits)
              (chosen_loop-Last n (i + 1) m len i (
                inr (record {
                  below = omega arith;
                  large = yes_fits;
                  behind = λ j h h'. absurd (omega arith);
                }))))
      | inr none_fits ↦
          subst (λ x. Last m len x (chosen_loop (suc n) i m len c)) shift
            (rw (chosen_loop, none_fits) (chosen_loop-Last n (i + 1) m len c (go none_fits)))
    ]
  where
    go :
        fits (m.mmap_entries i) len ≡ false
        → ((k : ℕ) × (i + 1 ≤ k) × (k < i + 1 + n) × (fits (m.mmap_entries k) len ≡ true))
          ⊎ Last m len (i + 1) c
    go none_fits = elim w [
      | inl v ↦
          let (k, low, high, f) = v in
          elim (Bool-cases (k == i)) [
            | inl e ↦
                let same : k ≡ i = ground arith in
                let clash : true ≡ false =
                  sym f ∙ ap (λ x. fits (m.mmap_entries x) len) same ∙ none_fits in
                cc
            | inr e ↦ inl (k, ground arith, omega arith, f)
          ]
      | inr l ↦ inr (record {
        below = omega (arith, l.below);
        large = l.large;
        behind = λ j h h'. elim (Bool-cases (j == i)) [
          | inl e ↦
              let same : j ≡ i = ground arith in
              ap (λ x. fits (m.mmap_entries x) len) same ∙ none_fits
          | inr e ↦ l.behind j h (ground arith)
        ];
      })
    ]

-- For a length below 2 ^ 63: if some entry of the map, none of which reaches 2 ^ 63, is usable and
-- larger than the length in whole pages, `alloc` takes the memory from the last such entry: that
-- entry is shorter by the length, no other entry changes, the memory starts at a page in that
-- entry, and it ends where the entry ended, rounded up to a page. So it reaches past the end of
-- the entry if that is not at a page.
pub alloc-Last :
    (length : ℕ) (m : Mmap) (s : Nodes) (k : ℕ)
    → length < 2 ^ 63
    → k < m.length
    → fits (m.mmap_entries k) (align length) ≡ true
    → ((j : ℕ) → j < m.length → (m.mmap_entries j).base + (m.mmap_entries j).length < 2 ^ 63)
    → (i : ℕ) × Last m (align length) m.length i
      × (((alloc length m s).1.mmap_entries i).length + align length ≡ (m.mmap_entries i).length)
      × ((j : ℕ) → j ≢ i → (alloc length m s).1.mmap_entries j ≡ m.mmap_entries j)
      × ((alloc length m s).0 % page_size ≡ 0)
      × ((m.mmap_entries i).base ≤ (alloc length m s).0)
      × ((alloc length m s).0 + align length
          ≡ align ((m.mmap_entries i).base + (m.mmap_entries i).length))
unfolding alloc
alloc-Last length m s k small h f fit =
    let len = align length in
    let i = chosen_loop m.length 0 m len m.length in
    let zero_up : 0 + m.length ≡ m.length = omega arith in
    let l : Last m len m.length i =
      subst (λ x. Last m len x (chosen_loop m.length 0 m len m.length)) zero_up
        (chosen_loop-Last m.length 0 m len m.length (inl (k, omega arith, omega arith, f))) in
    let e = m.mmap_entries i in
    let large = l.large in
    let more : len < e.length = ground arith in
    let top = fit i l.below in
    let gone : sub64 e.length len + len ≡ e.length = omega arith in
    let self : (i == i) ≡ true = ground arith in
    (
      i,
      l,
      rw self gone,
      λ j ne. let o : (j == i) ≡ false = ground arith in rw o refl,
      omega arith,
      omega arith,
      omega arith,
    )
