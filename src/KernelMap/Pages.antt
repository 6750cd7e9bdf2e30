-- ===== src/KernelMap/Pages.antt =====
-- The calls of `paging_map_page` that `paging_load_kernel_map` makes, as a list of pages.
use titanix.Mmap.{MmapEntry, Nodes, get_size, size_loop}
use titanix.Paging.{Paging, clear_table, kernel_page, walk_page, map_page}
use titanix.KernelMap.{
  virtual_offset, page_size, map_loop, map_entry, entries_loop, paging_load_kernel_map,
}
use titanix.Base.{
  ℕ, zero, suc, ◌+◌, ◌-◌, ◌*◌, ◌/◌, ◌^◌, ◌<◌, ◌≤◌, ◌≡◌, ◌≢◌, ◌∙◌, ap, sym, refl, true, false,
  Option, none, some, List, [], ◌∷◌, ◌++◌, length, ◌==◌, ltb, if◌then◌else◌, add64, ◌>>=◌, arith,
  Bool-cases, inl, inr,
}

-- Each page twice: at its own address, and `virtual_offset` above it.
abbrev pub pages : (n base : ℕ) → List (ℕ × ℕ)
pages zero base = []
pages (suc n) base = (base, base) ∷ (add64 base virtual_offset, base) ∷ pages n (base + page_size)

-- The pages that start in an entry, if it is not of type 3.
abbrev entry_pages : MmapEntry → List (ℕ × ℕ)
entry_pages e = if e.type == 3 then [] else pages ((e.length + (page_size - 1)) / page_size) e.base

abbrev pub all_pages : List MmapEntry → List (ℕ × ℕ)
all_pages [] = []
all_pages (e ∷ es) = entry_pages e ++ all_pages es

-- From node `p` on the list has these entries.
abbrev pub Chain : Nodes → ℕ → List MmapEntry → Type 0
Chain nodes p [] = p ≡ 0
Chain nodes p (e ∷ es) = (p ≢ 0) × ((nodes p).entry ≡ e) × Chain nodes (nodes p).next es

-- No entry comes near the end of the address space, nor has more than `fuel` pages.
abbrev pub AllFit : (fuel : ℕ) → List MmapEntry → Type 0
AllFit fuel [] = Unit {0}
AllFit fuel (e ∷ es) =
    (e.base + e.length + page_size ≤ 2 ^ 64)
    × ((e.length + (page_size - 1)) / page_size < fuel)
    × AllFit fuel es

>>=-cong :
    {A B : Type 0} (o : Option A) (k k' : A → Option B)
    → ((a : A) → k a ≡ k' a)
    → (o >>= k) ≡ (o >>= k')
>>=-cong none k k' h = refl
>>=-cong (some a) k k' h = h a

>>=-assoc :
    {A B C : Type 0} (o : Option A) (k : A → Option B) (j : B → Option C)
    → ((o >>= k) >>= j) ≡ (o >>= λ (a : A). k a >>= j)
>>=-assoc none k j = refl
>>=-assoc (some a) k j = refl

module _ {F : Type 0} (alloc_page : F → ℕ × F) (depth : ℕ) where
  -- One call of `paging_map_page` for each pair of a virtual and a physical address.
  abbrev pub map_all : List (ℕ × ℕ) → Paging F → Option (Paging F)
  map_all [] s = some s
  map_all (v ∷ ps) s = map_page alloc_page depth v.0 v.1 kernel_page s >>= map_all ps

  map_all-append :
      (ps qs : List (ℕ × ℕ)) (s : Paging F) → map_all (ps ++ qs) s ≡ (map_all ps s >>= map_all qs)
  map_all-append [] qs s = refl
  map_all-append (v ∷ ps) qs s =
      let m = map_page alloc_page depth v.0 v.1 kernel_page s in
      >>=-cong m _ _ (map_all-append ps qs) ∙ sym (>>=-assoc m (map_all ps) (map_all qs))

  map_loop-pages :
      (n fuel i end : ℕ) (s : Paging F)
      → n < fuel
      → end + page_size ≤ 2 ^ 64
      → end ≤ i + n * page_size
      → i + n * page_size < end + page_size
      → map_loop alloc_page depth fuel i end s ≡ map_all (pages n i) s
  unfolding map_loop
  map_loop-pages n zero i end s few w up down = absurd (omega arith)
  map_loop-pages zero (suc fuel) i end s few w up down =
      let e : ltb i end ≡ false = ground arith in rw e refl
  map_loop-pages (suc n) (suc fuel) i end s few w up down =
      let e : ltb i end ≡ true = ground arith in
      let z : add64 i page_size ≡ i + page_size = omega arith in
      rw (map_loop, e, z)
        (>>=-cong (map_page alloc_page depth i i kernel_page s) _ _ (λ s1.
          >>=-cong (map_page alloc_page depth (add64 i virtual_offset) i kernel_page s1) _ _ (λ s2.
            map_loop-pages n fuel (i + page_size) end s2 (omega arith) w (omega arith)
              (omega arith))))

  map_entry-pages :
      (fuel : ℕ) (e : MmapEntry) (s : Paging F)
      → e.base + e.length + page_size ≤ 2 ^ 64
      → (e.length + (page_size - 1)) / page_size < fuel
      → map_entry alloc_page depth fuel e s ≡ map_all (entry_pages e) s
  unfolding map_entry
  map_entry-pages fuel e s w few = elim (Bool-cases (e.type == 3)) [
    | inl h ↦ rw h refl
    | inr h ↦
        let z : add64 e.base e.length ≡ e.base + e.length = omega arith in
        rw (h, z)
          (map_loop-pages ((e.length + (page_size - 1)) / page_size) fuel e.base (e.base + e.length)
            s few w (omega arith) (omega arith))
  ]

  entries_loop-pages :
      (es : List MmapEntry) (rounds fuel p : ℕ) (nodes : Nodes) (s : Paging F)
      → Chain nodes p es
      → AllFit fuel es
      → length es < rounds
      → entries_loop alloc_page depth rounds fuel p nodes s ≡ map_all (all_pages es) s
  unfolding entries_loop
  entries_loop-pages es zero fuel p nodes s c fit few = absurd (omega arith)
  entries_loop-pages [] (suc rounds) fuel p nodes s c fit few =
      let e : (p == 0) ≡ true = ground arith in rw e refl
  entries_loop-pages (e ∷ es) (suc rounds) fuel p nodes s (ne, here, next) (w, many, fit) few =
      let z : (p == 0) ≡ false = ground arith in
      rw (entries_loop, z, here, map_entry-pages fuel e s w many)
        (>>=-cong (map_all (entry_pages e) s) _ _
            (λ s1. entries_loop-pages es rounds fuel (nodes p).next nodes s1 next fit (omega arith))
          ∙ sym (map_all-append (entry_pages e) (all_pages es) s))

size_loop-Chain :
    (es : List MmapEntry) (rounds p i : ℕ) (nodes : Nodes)
    → Chain nodes p es
    → length es < rounds
    → size_loop rounds p i nodes ≡ some (i + length es)
unfolding size_loop
size_loop-Chain es zero p i nodes c few = absurd (omega arith)
size_loop-Chain [] (suc rounds) p i nodes c few =
    let e : (p == 0) ≡ true = ground arith in rw e (ap some (omega arith))
size_loop-Chain (e ∷ es) (suc rounds) p i nodes (ne, here, next) few =
    let z : (p == 0) ≡ false = ground arith in
    rw z (
      size_loop-Chain es rounds (nodes p).next (i + 1) nodes next (omega arith)
      ∙ ap some (omega arith))

module _ {F : Type 0} (alloc_page : F → ℕ × F) (depth : ℕ) where
  -- On a list of entries whose number is below one fuel and whose numbers of pages are below the
  -- other, none of them within a page of the end of the address space: `paging_load_kernel_map`
  -- makes a cleared root table in a page of the allocator, and then calls `paging_map_page` once
  -- for each page that starts in an entry of a type other than 3 at its own address, once
  -- `VIRTUAL_OFFSET` above it, in the order of the list, and at last for 0xb8000. It answers if
  -- all these calls do, with the root table and with what `paging_walk_page` finds at it, which is
  -- loaded into cr3.
  pub paging_load_kernel_map-pages :
      (es : List MmapEntry) (rounds fuel list : ℕ) (nodes : Nodes) (s : Paging F)
      → Chain nodes list es
      → AllFit fuel es
      → length es < rounds
      → let (pml4, f) = alloc_page s.frames in
        paging_load_kernel_map alloc_page depth rounds fuel list nodes s ≡ (
          map_all alloc_page depth
            (all_pages es ++ (0xb8000, 0xb8000) ∷ [])
            (record { pml4 = pml4; tables = clear_table pml4 s.tables; frames = f })
          >>= λ (s' : Paging F). some (s'.pml4, walk_page s'.pml4 s', s'))
  unfolding paging_load_kernel_map get_size
  paging_load_kernel_map-pages es rounds fuel list nodes s c fit few =
      let (pml4, f) = alloc_page s.frames in
      let s0 : Paging F = record { pml4 = pml4; tables = clear_table pml4 s.tables; frames = f } in
      let vga = (0xb8000, 0xb8000) ∷ [] in
      let answer : Paging F → Option (ℕ × ℕ × Paging F) =
        λ s'. some (s'.pml4, walk_page s'.pml4 s', s') in
      let all = map_all alloc_page depth in
      let ps = all_pages es in
      rw
        (
          paging_load_kernel_map,
          get_size,
          size_loop-Chain es rounds list 0 nodes c few,
          entries_loop-pages alloc_page depth es rounds fuel list nodes s0 c fit few,
        )
        (>>=-cong (all ps s0) _ _ (λ s1.
            sym (>>=-assoc (map_page alloc_page depth 0xb8000 0xb8000 kernel_page s1) some answer))
          ∙ sym (>>=-assoc (all ps s0) (all vga) answer)
          ∙ ap (λ (o : Option (Paging F)). o >>= answer)
              (sym (map_all-append alloc_page depth ps vga s0)))
