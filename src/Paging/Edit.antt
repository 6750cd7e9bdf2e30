-- ===== src/Paging/Edit.antt =====
-- `paging_edit_page`, and the translations before and after it.
use mathlib.Core.Path.{subst}
use titanix.Base.{
  ℕ, inl, inr, ◌+◌, ◌-◌, ◌*◌, ◌/◌, ◌%◌, ◌^◌, ◌<◌, ◌≡◌, ◌∙◌, ap, sym, refl, true, arith, bit_or,
}
use titanix.Base.Bits.{bit_and-high_mask, bit_and-mask, bit_or-fields}
use titanix.Paging.{
  Paging, Tables, set_entry, present, set_indexer, descriptor_get_address, descriptor_get_flag,
  descriptor_set_flags, walk_page, edit_page,
}
use titanix.Paging.Descriptor.{is_present, get_address_lem}
use titanix.Paging.Walk.{
  Path3, Gains, Gains-trans, Gains-or_flags, Gains-Path3, walk_page-Path3, set_entry-cases,
}

-- The flags replace the low twelve bits.
set_flags_lem : (d f : ℕ) → f < 2 ^ 12 → descriptor_set_flags d f ≡ d / 2 ^ 12 % 2 ^ 52 * 2 ^ 12 + f
unfolding descriptor_set_flags
set_flags_lem d f h =
    ap (λ (t : ℕ). bit_or t f)
      (bit_and-high_mask 12 (2 ^ 52 - 1) d
        ∙ ap (λ (t : ℕ). t * 2 ^ 12) (bit_and-mask 52 (d / 2 ^ 12)))
    ∙ bit_or-fields 12 (d / 2 ^ 12 % 2 ^ 52) f h

set_flags-address :
    (d f : ℕ)
    → f < 2 ^ 12
    → descriptor_get_address (descriptor_set_flags d f) ≡ descriptor_get_address d
set_flags-address d f h =
    let e = set_flags_lem d f h in
    let g = get_address_lem (descriptor_set_flags d f) in let g' = get_address_lem d in omega arith

set_flags-present :
    (d f : ℕ)
    → f < 2 ^ 12
    → f % 2 ≡ 1
    → descriptor_get_flag (descriptor_set_flags d f) present ≡ true
set_flags-present d f h o =
    is_present (descriptor_set_flags d f) (omega (arith, set_flags_lem d f h))

Gains-set_flags :
    (t : Tables) (table i f : ℕ)
    → f < 2 ^ 12
    → f % 2 ≡ 1
    → Gains t (set_entry table i (descriptor_set_flags (t table i) f) t)
Gains-set_flags t table i f h o = record {
  same = λ q k. elim (set_entry-cases table i (descriptor_set_flags (t table i) f) t q k) [
    | inl (eq, ek, e) ↦ let g = set_flags-address (t table i) f h in rw (e, eq, ek, g)
    | inr e ↦ rw e
  ];
  stays = λ q k p. elim (set_entry-cases table i (descriptor_set_flags (t table i) f) t q k) [
    | inl (eq, ek, e) ↦ rw (e, set_flags-present (t table i) f h o)
    | inr e ↦ rw (e, p)
  ];
}

edit_page-Gains :
    {F : Type 0} (v f : ℕ) (s : Paging F)
    → f < 2 ^ 12
    → f % 2 ≡ 1
    → Gains s.tables ((edit_page v f s).1).tables
unfolding edit_page
edit_page-Gains v f s h o =
    let i = set_indexer v in
    let e4 = s.tables s.pml4 i.pml4 in
    let t1 = set_entry s.pml4 i.pml4 (bit_or e4 f) s.tables in
    let pdp = descriptor_get_address e4 in
    let t2 = set_entry pdp i.pml3 (bit_or (t1 pdp i.pml3) f) t1 in
    let pd = descriptor_get_address (t2 pdp i.pml3) in
    let t3 = set_entry pd i.pml2 (bit_or (t2 pd i.pml2) f) t2 in
    let pt = descriptor_get_address (t3 pd i.pml2) in
    let t4 = set_entry pt i.pml1 (descriptor_set_flags (t3 pt i.pml1) f) t3 in
    let g2 =
      Gains-trans s.tables t1 t2 (Gains-or_flags s.tables s.pml4 i.pml4 f h)
        (Gains-or_flags t1 pdp i.pml3 f h) in
    let g3 = Gains-trans s.tables t2 t3 g2 (Gains-or_flags t2 pd i.pml2 f h) in
    Gains-trans s.tables t3 t4 g3 (Gains-set_flags t3 pt i.pml1 f h o)

edit_page-root : {F : Type 0} (v f : ℕ) (s : Paging F) → ((edit_page v f s).1).pml4 ≡ s.pml4
unfolding edit_page
edit_page-root v f s = refl

-- With flags of 12 bits among which is the present bit, `paging_edit_page` of any address `v`
-- leaves the translation of every address `u` whose upper tables are there as it was.
pub edit_page-walk_page :
    {F : Type 0} (v u f : ℕ) (s : Paging F) (pdp pd pt : ℕ)
    → f < 2 ^ 12
    → f % 2 ≡ 1
    → Path3 s.tables s.pml4 (set_indexer u) pdp pd pt
    → walk_page u ((edit_page v f s).1) ≡ walk_page u s
edit_page-walk_page v u f s pdp pd pt h o w =
    let s' = (edit_page v f s).1 in
    let g = edit_page-Gains v f s h o in
    let path = Gains-Path3 s.tables s'.tables s.pml4 (set_indexer u) pdp pd pt g w in
    let path' : Path3 s'.tables s'.pml4 (set_indexer u) pdp pd pt =
      subst (λ (r : ℕ). Path3 s'.tables r (set_indexer u) pdp pd pt) (sym (edit_page-root v f s))
        path in
    walk_page-Path3 u s' pdp pd pt path'
    ∙ g.same pt (set_indexer u).pml1
    ∙ sym (walk_page-Path3 u s pdp pd pt w)
