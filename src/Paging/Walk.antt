-- ===== src/Paging/Walk.antt =====
-- Paths through the tables: what `paging_walk_page` follows, and writes beside it.
use titanix.Base.{ℕ, ◌^◌, ◌<◌, ◌≡◌, ◌≢◌, ◌⊎◌, inl, inr, refl, ◌∙◌, ap, sym, true, arith, bit_or}
use titanix.Paging.{
  Paging, Tables, Indexer, set_entry, present, set_indexer, descriptor_get_address,
  descriptor_get_flag, walk_page, unmap_page,
}
use titanix.Paging.Descriptor.{get_address-or_flags, is_present, present_bit, or_flags-low}

-- The tables of the three upper levels are there for an index path, and lead to table `pt`.
pub record Path3 (t : Tables) (root : ℕ) (i : Indexer) (pdp pd pt : ℕ) : Type 0 where
  pub there4 : descriptor_get_flag (t root i.pml4) present ≡ true
  pub next4 : descriptor_get_address (t root i.pml4) ≡ pdp
  pub there3 : descriptor_get_flag (t pdp i.pml3) present ≡ true
  pub next3 : descriptor_get_address (t pdp i.pml3) ≡ pd
  pub there2 : descriptor_get_flag (t pd i.pml2) present ≡ true
  pub next2 : descriptor_get_address (t pd i.pml2) ≡ pt

-- The walk ends at the leaf entry.
pub walk_page-Path3 :
    {F : Type 0} (v : ℕ) (s : Paging F) (pdp pd pt : ℕ)
    → Path3 s.tables s.pml4 (set_indexer v) pdp pd pt
    → walk_page v s ≡ descriptor_get_address (s.tables pt (set_indexer v).pml1)
unfolding walk_page
walk_page-Path3 v s pdp pd pt w = rw (w.there4, w.next4, w.there3, w.next3, w.there2, w.next2)

pub unmap_page-Path3 :
    {F : Type 0} (v : ℕ) (s : Paging F) (pdp pd pt : ℕ)
    → Path3 s.tables s.pml4 (set_indexer v) pdp pd pt
    → unmap_page v s ≡ record s { tables = set_entry pt (set_indexer v).pml1 0 s.tables }
unfolding unmap_page
unmap_page-Path3 v s pdp pd pt w = simp (w.there4, w.next4, w.there3, w.next3, w.there2, w.next2)

-- Entries may gain flags: each keeps its address, and stays present.
pub record Gains (t t' : Tables) : Type 0 where
  pub same : (q k : ℕ) → descriptor_get_address (t' q k) ≡ descriptor_get_address (t q k)
  pub stays :
      (q k : ℕ)
      → descriptor_get_flag (t q k) present ≡ true
      → descriptor_get_flag (t' q k) present ≡ true

pub Gains-trans : (t u w : Tables) → Gains t u → Gains u w → Gains t w
Gains-trans t u w g h = record {
  same = λ q k. h.same q k ∙ g.same q k;
  stays = λ q k e. h.stays q k (g.stays q k e);
}

pub or_flags-present :
    (d f : ℕ)
    → descriptor_get_flag d present ≡ true
    → descriptor_get_flag (bit_or d f) present ≡ true
or_flags-present d f h = is_present (bit_or d f) (omega (arith, or_flags-low d f, present_bit d h))

-- What a write leaves at an entry.
pub set_entry-cases :
    (table i d : ℕ) (t : Tables) (q k : ℕ)
    → (q ≡ table) × (k ≡ i) × (set_entry table i d t q k ≡ d) ⊎ (set_entry table i d t q k ≡ t q k)
set_entry-cases table i d t q k = ground arith

-- `|=` on one entry.
pub Gains-or_flags :
    (t : Tables) (table i f : ℕ) → f < 2 ^ 12 → Gains t (set_entry table i (bit_or (t table i) f) t)
Gains-or_flags t table i f h = record {
  same = λ q k. elim (set_entry-cases table i (bit_or (t table i) f) t q k) [
    | inl (eq, ek, e) ↦ let g = get_address-or_flags (t table i) f h in rw (e, eq, ek, g)
    | inr e ↦ rw e
  ];
  stays = λ q k p. elim (set_entry-cases table i (bit_or (t table i) f) t q k) [
    | inl (eq, ek, e) ↦
        let p' : descriptor_get_flag (t table i) present ≡ true =
          ap (λ (x : ℕ). descriptor_get_flag (t x i) present) (sym eq)
          ∙ ap (λ (x : ℕ). descriptor_get_flag (t q x) present) (sym ek)
          ∙ p in
        rw (e, or_flags-present (t table i) f p')
    | inr e ↦ rw (e, p)
  ];
}

-- A path survives.
pub Gains-Path3 :
    (t t' : Tables) (root : ℕ) (i : Indexer) (pdp pd pt : ℕ)
    → Gains t t'
    → Path3 t root i pdp pd pt
    → Path3 t' root i pdp pd pt
Gains-Path3 t t' root i pdp pd pt g w = record {
  there4 = g.stays root i.pml4 w.there4;
  next4 = g.same root i.pml4 ∙ w.next4;
  there3 = g.stays pdp i.pml3 w.there3;
  next3 = g.same pdp i.pml3 ∙ w.next3;
  there2 = g.stays pd i.pml2 w.there2;
  next2 = g.same pd i.pml2 ∙ w.next2;
}

pub set_entry-off :
    (table i d : ℕ) (t : Tables) (q k : ℕ) → q ≢ table → set_entry table i d t q k ≡ t q k
set_entry-off table i d t q k h = ground arith

pub set_entry-off_index :
    (table i d : ℕ) (t : Tables) (q k : ℕ) → k ≢ i → set_entry table i d t q k ≡ t q k
set_entry-off_index table i d t q k h = ground arith

pub set_entry-at : (table i d : ℕ) (t : Tables) → set_entry table i d t table i ≡ d
set_entry-at table i d t = ground arith

-- A write to a table that is none of the three.
pub Path3-set_entry :
    (t : Tables) (root : ℕ) (x : Indexer) (pdp pd pt table i d : ℕ)
    → root ≢ table
    → pdp ≢ table
    → pd ≢ table
    → Path3 t root x pdp pd pt
    → Path3 (set_entry table i d t) root x pdp pd pt
Path3-set_entry t root x pdp pd pt table i d h4 h3 h2 w =
    let e4 = set_entry-off table i d t root x.pml4 h4 in
    let e3 = set_entry-off table i d t pdp x.pml3 h3 in
    let e2 = set_entry-off table i d t pd x.pml2 h2 in
    record {
      there4 = rw (e4, w.there4);
      next4 = rw (e4, w.next4);
      there3 = rw (e3, w.there3);
      next3 = rw (e3, w.next3);
      there2 = rw (e2, w.there2);
      next2 = rw (e2, w.next2);
    }

zero_address : descriptor_get_address 0 ≡ 0
unfolding descriptor_get_address
zero_address = refl

-- After `paging_unmap_page` of an address whose upper tables are there, with a page table that is
-- none of them, `paging_walk_page` finds NULL at it.
pub unmap_page-walk_page :
    {F : Type 0} (v : ℕ) (s : Paging F) (pdp pd pt : ℕ)
    → Path3 s.tables s.pml4 (set_indexer v) pdp pd pt
    → s.pml4 ≢ pt
    → pdp ≢ pt
    → pd ≢ pt
    → walk_page v (unmap_page v s) ≡ 0
unmap_page-walk_page {F} v s pdp pd pt w n4 n3 n2 =
    let i = set_indexer v in
    let s' : Paging F = record s { tables = set_entry pt i.pml1 0 s.tables } in
    ap (walk_page v) (unmap_page-Path3 v s pdp pd pt w)
    ∙ walk_page-Path3 v s' pdp pd pt
        (Path3-set_entry s.tables s.pml4 i pdp pd pt pt i.pml1 0 n4 n3 n2 w)
    ∙ ap descriptor_get_address (set_entry-at pt i.pml1 0 s.tables)
    ∙ zero_address
