-- ===== src/Paging/Map.antt =====
-- `paging_map_page` where the upper tables are there, and then `paging_walk_page`.
use titanix.Base.{
  ℕ, suc, ◌+◌, ◌*◌, ◌/◌, ◌%◌, ◌^◌, ◌<◌, ◌≡◌, ◌≢◌, ◌⊎◌, inl, inr, ◌∙◌, ap, sym, true, arith, bit_or,
  bit_and, Option, some,
}
use titanix.Base.Bits.{bit_and-mask}
use titanix.Base.Bits.Step.{bit_and_step}
use titanix.Paging.{
  Paging, Tables, set_entry, present, kernel_page, set_indexer, descriptor_get_address,
  descriptor_get_flag, walk_page, enter_level, set_page, map_page,
}
use titanix.Paging.Descriptor.{present_bit, frame_of, get_address_lem, leaf_lem}
use titanix.Paging.Walk.{
  Path3, Gains, Gains-trans, Gains-or_flags, Gains-Path3, walk_page-Path3, Path3-set_entry,
  set_entry-at, set_entry-off, set_entry-off_index,
}

-- A present entry shares the present bit with odd flags.
shares_flag :
    (d f : ℕ) → descriptor_get_flag d present ≡ true → f % 2 ≡ 1 → descriptor_get_flag d f ≡ true
unfolding descriptor_get_flag
shares_flag d f h o =
    let b = present_bit d h in
    let odd : bit_and d f % 2 ≡ 1 = omega (arith, bit_and_step d f) in ground arith

low_flags : (f : ℕ) → f < 2 ^ 12 → bit_and f 0xfff ≡ f
low_flags f h = omega (arith, bit_and-mask 12 f)

elsewhere_leaf :
    (t : Tables) (pt pt' i i' d : ℕ) → (pt' ≢ pt ⊎ i' ≢ i) → set_entry pt i d t pt' i' ≡ t pt' i'
elsewhere_leaf t pt pt' i i' d (inl n) = set_entry-off pt i d t pt' i' n
elsewhere_leaf t pt pt' i i' d (inr n) = set_entry-off_index pt i d t pt' i' n

module _ {F : Type 0} (alloc_page : F → ℕ × F) where
  -- A level that is there: the allocator is not called.
  enter_level-there :
      (self : ℕ → Paging F → Option (Paging F)) (table i f : ℕ) (s : Paging F)
      → descriptor_get_flag (s.tables table i) present ≡ true
      → f % 2 ≡ 1
      → enter_level alloc_page self table i f s
        ≡ some (
          descriptor_get_address (s.tables table i),
          record s { tables = set_entry table i (bit_or (s.tables table i) f) s.tables },
        )
  unfolding enter_level
  enter_level-there self table i f s h o = rw (shares_flag (s.tables table i) f h o)

  -- Three levels that are there: the entries gain flags, and the leaf is written.
  record Mapped (fuel v p f pt : ℕ) (s : Paging F) : Type 0 where
    tables3 : Tables
    gains : Gains s.tables tables3
    maps :
        map_page alloc_page (suc fuel) v p f s
        ≡ some (set_page alloc_page pt (set_indexer v).pml1 p f (record s { tables = tables3 }))

  map_page-Mapped :
      (fuel v p f : ℕ) (s : Paging F) (pdp pd pt : ℕ)
      → f < 2 ^ 12
      → f % 2 ≡ 1
      → Path3 s.tables s.pml4 (set_indexer v) pdp pd pt
      → Mapped fuel v p f pt s
  unfolding map_page
  map_page-Mapped fuel v p f s pdp pd pt h o w =
      let i = set_indexer v in
      let self =
        λ (table : ℕ) (s' : Paging F). map_page alloc_page fuel table table kernel_page s' in
      let t1 : Tables = set_entry s.pml4 i.pml4 (bit_or (s.tables s.pml4 i.pml4) f) s.tables in
      let t2 : Tables = set_entry pdp i.pml3 (bit_or (t1 pdp i.pml3) f) t1 in
      let t3 : Tables = set_entry pd i.pml2 (bit_or (t2 pd i.pml2) f) t2 in
      let g1 = Gains-or_flags s.tables s.pml4 i.pml4 f h in
      let g2 = Gains-trans s.tables t1 t2 g1 (Gains-or_flags t1 pdp i.pml3 f h) in
      let g3 = Gains-trans s.tables t2 t3 g2 (Gains-or_flags t2 pd i.pml2 f h) in
      let e1 = enter_level-there self s.pml4 i.pml4 f s w.there4 o in
      let e2 =
        enter_level-there self pdp i.pml3 f (record s { tables = t1 })
          (g1.stays pdp i.pml3 w.there3) o in
      let e3 =
        enter_level-there self pd i.pml2 f (record s { tables = t2 }) (g2.stays pd i.pml2 w.there2)
          o in
      record {
        tables3 = t3;
        gains = g3;
        maps = simp (
          low_flags f h,
          e1,
          w.next4,
          e2,
          g1.same pdp i.pml3,
          w.next3,
          e3,
          g2.same pd i.pml2,
          w.next2,
        );
      }

  -- The leaf's address is the page frame asked for.
  set_page_lem :
      (pt i p f : ℕ) (s : Paging F)
      → f < 2 ^ 12
      → set_page alloc_page pt i p f s
        ≡ record s { tables = set_entry pt i (p / 2 ^ 12 % 2 ^ 52 * 2 ^ 12 + f) s.tables }
  unfolding set_page
  set_page_lem pt i p f s h = let e = leaf_lem (s.tables pt i) p f h in simp e

  leaf_frame :
      (p f : ℕ)
      → f < 2 ^ 12
      → descriptor_get_address (p / 2 ^ 12 % 2 ^ 52 * 2 ^ 12 + f) ≡ frame_of p
  leaf_frame p f h = let e = get_address_lem (p / 2 ^ 12 % 2 ^ 52 * 2 ^ 12 + f) in omega (arith, e)

  -- Where the three upper tables of the virtual address `v` are there, with a page table that is
  -- none of them, and the flags fit 12 bits and have the present bit, `paging_map_page` returns on
  -- any fuel above zero, and `paging_walk_page` then finds the frame of the physical address at
  -- `v`. Any other address `u` that has its tables, none of its upper ones being the written page
  -- table, and another leaf entry, is translated as before.
  pub map_page-walk_page :
      (fuel v u p f : ℕ) (s : Paging F) (pdp pd pt pdp' pd' pt' : ℕ)
      → f < 2 ^ 12
      → f % 2 ≡ 1
      → Path3 s.tables s.pml4 (set_indexer v) pdp pd pt
      → s.pml4 ≢ pt
      → pdp ≢ pt
      → pd ≢ pt
      → Path3 s.tables s.pml4 (set_indexer u) pdp' pd' pt'
      → pdp' ≢ pt
      → pd' ≢ pt
      → (pt' ≢ pt ⊎ (set_indexer u).pml1 ≢ (set_indexer v).pml1)
      → (s' : Paging F) × (map_page alloc_page (suc fuel) v p f s ≡ some s')
        × (walk_page v s' ≡ frame_of p)
        × (walk_page u s' ≡ walk_page u s)
  map_page-walk_page fuel v u p f s pdp pd pt pdp' pd' pt' h o w n4 n3 n2 w' n3' n2' n =
      let m = map_page-Mapped fuel v p f s pdp pd pt h o w in
      let i = (set_indexer v).pml1 in
      let leaf = p / 2 ^ 12 % 2 ^ 52 * 2 ^ 12 + f in
      let s' : Paging F = record s { tables = set_entry pt i leaf m.tables3 } in
      let path : Path3 s'.tables s'.pml4 (set_indexer v) pdp pd pt =
        Path3-set_entry m.tables3 s.pml4 (set_indexer v) pdp pd pt pt i leaf n4 n3 n2
          (Gains-Path3 s.tables m.tables3 s.pml4 (set_indexer v) pdp pd pt m.gains w) in
      let path' : Path3 s'.tables s'.pml4 (set_indexer u) pdp' pd' pt' =
        Path3-set_entry m.tables3 s.pml4 (set_indexer u) pdp' pd' pt' pt i leaf n4 n3' n2'
          (Gains-Path3 s.tables m.tables3 s.pml4 (set_indexer u) pdp' pd' pt' m.gains w') in
      (
        s',
        m.maps ∙ ap some (set_page_lem pt i p f (record s { tables = m.tables3 }) h),
        walk_page-Path3 v s' pdp pd pt path
            ∙ ap descriptor_get_address (set_entry-at pt i leaf m.tables3)
            ∙ leaf_frame p f h,
        walk_page-Path3 u s' pdp' pd' pt' path'
            ∙ ap descriptor_get_address
                (elsewhere_leaf m.tables3 pt pt' i (set_indexer u).pml1 leaf n)
            ∙ m.gains.same pt' (set_indexer u).pml1
            ∙ sym (walk_page-Path3 u s pdp' pd' pt' w'),
      )
