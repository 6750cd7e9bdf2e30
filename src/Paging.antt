-- ===== src/Paging.antt =====
-- src/vmm/vmm.c and include/lib/vmm.h: the page tables.
-- A table is named by its physical address, by which the kernel also reads it. The entries of all
-- tables lie in one store, by table and index. What the page allocator does is its own affair: it is
-- given with the state it keeps.
pub mod Descriptor
pub mod Walk
pub mod Map
pub mod Edit
mod Tests
use titanix.Base.{
  ◌>>=◌, ℕ, zero, suc, ◌+◌, ◌-◌, ◌*◌, ◌/◌, ◌%◌, ◌^◌, Bool, true, false, not, ◌&&◌, Option, none,
  some, ◌==◌, if◌then◌else◌, bit_and, bit_or, u8, u16, u64,
}

abbrev pub present : ℕ
present = 1

abbrev pub kernel_page : ℕ
kernel_page = 3

-- `~flag` on 64 bits
abbrev pub complement : ℕ → ℕ
complement flag = 2 ^ 64 - 1 - flag

-- `paging_indexer_t`
pub record Indexer : Type 0 where
  pub pml4 : ℕ
  pub pml3 : ℕ
  pub pml2 : ℕ
  pub pml1 : ℕ

pub set_indexer : ℕ → Indexer
set_indexer addr =
    let u1 = addr / 2 ^ 12 in
    let u2 = u1 / 2 ^ 9 in
    let u3 = u2 / 2 ^ 9 in
    let u4 = u3 / 2 ^ 9 in
    record {
      pml4 = bit_and u4 0x1ff;
      pml3 = bit_and u3 0x1ff;
      pml2 = bit_and u2 0x1ff;
      pml1 = bit_and u1 0x1ff;
    }

-- `paging_descriptor_*`: a descriptor is a 64-bit word, and each setter returns the new one.
pub descriptor_set_address : ℕ → ℕ → ℕ
descriptor_set_address desc addr = bit_and addr 0xfffffffffffff000

pub descriptor_get_address : ℕ → ℕ
descriptor_get_address desc = bit_and desc 0xffffffffff000

-- The result goes through a `bool_t`, a byte.
pub descriptor_get_flag : ℕ → ℕ → Bool
descriptor_get_flag desc flag = not (u8 (bit_and desc flag) == 0)

pub descriptor_set_flag : ℕ → ℕ → Bool → ℕ
descriptor_set_flag desc flag value =
    let cleared = bit_and desc (complement flag) in if value then bit_or cleared flag else cleared

pub descriptor_set_flags : ℕ → ℕ → ℕ
descriptor_set_flags desc flags = bit_or (bit_and desc (complement 0xfff)) flags

abbrev pub Tables : Type 0
Tables = ℕ → ℕ → ℕ

abbrev pub set_entry : ℕ → ℕ → ℕ → Tables → Tables
set_entry table i desc t q k = if (q == table) && (k == i) then desc else t q k

-- `memset` of a whole page.
abbrev pub clear_table : ℕ → Tables → Tables
clear_table table t q k = if q == table then 0 else t q k

-- The state: the root table, the entries of all tables, and what the allocator keeps. `invlpg` drops
-- a cached translation, of which the model has none.
pub record Paging (F : Type 0) : Type 0 where
  pub pml4 : ℕ
  pub tables : Tables
  pub frames : F

-- `paging_walk_page`; 0 is the NULL that it returns.
pub walk_page : {F : Type 0} → ℕ → Paging F → ℕ
walk_page virtual s =
    let i = set_indexer virtual in
    let e4 = s.tables s.pml4 i.pml4 in
    if not (descriptor_get_flag e4 present)
    then 0
    else (let e3 = s.tables (descriptor_get_address e4) i.pml3 in
        if not (descriptor_get_flag e3 present)
        then 0
        else (let e2 = s.tables (descriptor_get_address e3) i.pml2 in
            if not (descriptor_get_flag e2 present)
            then 0
            else descriptor_get_address (s.tables (descriptor_get_address e2) i.pml1)))

-- `paging_unmap_page`
pub unmap_page : {F : Type 0} → ℕ → Paging F → Paging F
unmap_page virtual s =
    let i = set_indexer virtual in
    let e4 = s.tables s.pml4 i.pml4 in
    if not (descriptor_get_flag e4 present)
    then s
    else (let e3 = s.tables (descriptor_get_address e4) i.pml3 in
        if not (descriptor_get_flag e3 present)
        then s
        else (let e2 = s.tables (descriptor_get_address e3) i.pml2 in
            if not (descriptor_get_flag e2 present)
            then s
            else record s { tables = set_entry (descriptor_get_address e2) i.pml1 0 s.tables }))

-- `paging_edit_page`: every level is assumed to be there.
pub edit_page : {F : Type 0} → ℕ → ℕ → Paging F → ℕ × Paging F
edit_page virtual flags s =
    let i = set_indexer virtual in
    let e4 = s.tables s.pml4 i.pml4 in
    let t1 = set_entry s.pml4 i.pml4 (bit_or e4 flags) s.tables in
    let pdp = descriptor_get_address e4 in
    let t2 = set_entry pdp i.pml3 (bit_or (t1 pdp i.pml3) flags) t1 in
    let pd = descriptor_get_address (t2 pdp i.pml3) in
    let t3 = set_entry pd i.pml2 (bit_or (t2 pd i.pml2) flags) t2 in
    let pt = descriptor_get_address (t3 pd i.pml2) in
    let t4 = set_entry pt i.pml1 (descriptor_set_flags (t3 pt i.pml1) flags) t3 in
    (virtual, record s { tables = t4 })

-- `paging_load_pml4` and `paging_get_pml4`
pub load_pml4 : {F : Type 0} → ℕ → Paging F → Paging F
load_pml4 root s = record s { pml4 = root }

pub get_pml4 : {F : Type 0} → Paging F → ℕ
get_pml4 s = s.pml4

module _ {F : Type 0} (alloc_page : F → ℕ × F) where
  -- One level of `paging_map_page`, at entry `i` of `table`. A missing table is made, entered, and
  -- then mapped to itself by `self`, the recursive call. The result is the table below.
  pub enter_level :
      (self : ℕ → Paging F → Option (Paging F))
      → (table i flags : ℕ) → Paging F
      → Option (ℕ × Paging F)
  enter_level self table i flags s =
      let pde = s.tables table i in
      if not (descriptor_get_flag pde flags)
      then (let (next, f) = alloc_page s.frames in
          let cleared = clear_table next s.tables in
          let pde1 =
            bit_or (descriptor_set_flag (descriptor_set_address pde next) present true) flags in
          elim (self next (record s { tables = set_entry table i pde1 cleared; frames = f })) [
            | none ↦ none
            | some s' ↦ some (next, s')
          ])
      else some (
        descriptor_get_address pde,
        record s { tables = set_entry table i (bit_or pde flags) s.tables },
      )

  -- The last level of `paging_map_page`.
  pub set_page : (pt i physical flags : ℕ) → Paging F → Paging F
  set_page pt i physical flags s =
      let pde = descriptor_set_address (s.tables pt i) physical in
      let pde1 = descriptor_set_flag pde kernel_page true in
      record s { tables = set_entry pt i (descriptor_set_flags pde1 flags) s.tables }

  -- `paging_map_page`, with fuel for the calls that map new tables. It returns `virtual`, which is
  -- left out here.
  pub map_page : ℕ → (virtual physical flags : ℕ) → Paging F → Option (Paging F)
  map_page zero virtual physical flags s = none
  map_page (suc fuel) virtual physical flags s =
      let self = λ (table : ℕ) (s' : Paging F). map_page fuel table table kernel_page s' in
      let flags' = bit_and flags 0xfff in
      let i = set_indexer virtual in
      do
        (pdp, s1) ← enter_level self s.pml4 i.pml4 flags' s
        (pd, s2) ← enter_level self pdp i.pml3 flags' s1
        (pt, s3) ← enter_level self pd i.pml2 flags' s2
        some (set_page pt i.pml1 physical flags' s3)

  -- `paging_remap_page`. Its call of `paging_map_page` reads `old_pde` in one argument and assigns to
  -- it in another, in no order that C fixes; here the read comes first. 0 in the pair is the NULL that it returns.
  pub remap_page : ℕ → (old new : ℕ) → Paging F → Option (ℕ × Paging F)
  remap_page fuel old new s =
      let i = set_indexer old in
      let e4 = s.tables s.pml4 i.pml4 in
      if not (descriptor_get_flag e4 present)
      then some (0, s)
      else (let e3 = s.tables (descriptor_get_address e4) i.pml3 in
          if not (descriptor_get_flag e3 present)
          then some (0, s)
          else (let e2 = s.tables (descriptor_get_address e3) i.pml2 in
              if not (descriptor_get_flag e2 present)
              then some (0, s)
              else (let old_pde = s.tables (descriptor_get_address e2) i.pml1 in
                  do
                    s' ←
                        map_page fuel new (descriptor_get_address old_pde) (bit_and old_pde 0xfff)
                          (unmap_page old s)
                    some (new, s'))))
