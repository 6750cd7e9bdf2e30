-- ===== src/Paging/Descriptor.antt =====
-- Descriptors as numbers: the address is bits 12 to 51, above the flags.
use Prim.Native.Nat.{max}
use titanix.Base.{
  ℕ, ◌+◌, ◌-◌, ◌*◌, ◌/◌, ◌%◌, ◌^◌, ◌<◌, ◌≡◌, ◌∙◌, ap, sym, true, arith, bit_and, bit_or,
}
use titanix.Base.Bits.{
  bit_and-mask, bit_and-high_mask, bit_or-shr, bit_and-shr, bit_or-fields, bit_or-zero,
}
use titanix.Base.Bits.Step.{bit_or_step}
use titanix.Paging.{
  present, set_indexer, descriptor_set_address, descriptor_get_address, descriptor_get_flag,
  descriptor_set_flag, descriptor_set_flags, complement, kernel_page,
}

-- The page frame that an address lies in, within the 52 bits of a physical address.
abbrev pub frame_of : ℕ → ℕ
frame_of a = a / 2 ^ 12 % 2 ^ 40 * 2 ^ 12

pub get_address_lem : (d : ℕ) → descriptor_get_address d ≡ frame_of d
unfolding descriptor_get_address
get_address_lem d =
    bit_and-high_mask 12 (2 ^ 40 - 1) d ∙ ap (λ (t : ℕ). t * 2 ^ 12) (bit_and-mask 40 (d / 2 ^ 12))

set_address_lem : (d a : ℕ) → descriptor_set_address d a ≡ a / 2 ^ 12 % 2 ^ 52 * 2 ^ 12
unfolding descriptor_set_address
set_address_lem d a =
    bit_and-high_mask 12 (2 ^ 52 - 1) a ∙ ap (λ (t : ℕ). t * 2 ^ 12) (bit_and-mask 52 (a / 2 ^ 12))

-- Flags lie below the address.
pub or_flags-shr : (d f : ℕ) → f < 2 ^ 12 → bit_or d f / 2 ^ 12 ≡ d / 2 ^ 12
or_flags-shr d f h =
    bit_or-shr 12 d f ∙ ap (bit_or (d / 2 ^ 12)) (omega arith) ∙ bit_or-zero (d / 2 ^ 12)

pub get_address-or_flags :
    (d f : ℕ) → f < 2 ^ 12 → descriptor_get_address (bit_or d f) ≡ descriptor_get_address d
get_address-or_flags d f h =
    get_address_lem (bit_or d f)
    ∙ ap (λ (t : ℕ). t % 2 ^ 40 * 2 ^ 12) (or_flags-shr d f h)
    ∙ sym (get_address_lem d)

pub is_present : (d : ℕ) → d % 2 ≡ 1 → descriptor_get_flag d present ≡ true
unfolding descriptor_get_flag
is_present d h = let low = bit_and-mask 1 d in ground (arith, low)

pub present_bit : (d : ℕ) → descriptor_get_flag d present ≡ true → d % 2 ≡ 1
unfolding descriptor_get_flag
present_bit d h = let low = bit_and-mask 1 d in ground (arith, low)

pub or_flags-low : (d f : ℕ) → bit_or d f % 2 ≡ max (d % 2) (f % 2)
or_flags-low d f = omega (arith, bit_or_step d f)

-- A leaf entry is the page frame and exactly the given flags: what `paging_map_page` sets before is
-- cleared again.
pub leaf_lem :
    (d p f : ℕ)
    → f < 2 ^ 12
    → descriptor_set_flags (descriptor_set_flag (descriptor_set_address d p) kernel_page true) f
      ≡ p / 2 ^ 12 % 2 ^ 52 * 2 ^ 12 + f
unfolding descriptor_set_flags descriptor_set_flag
leaf_lem d p f h =
    let a = descriptor_set_address d p in
    let y = bit_or (bit_and a (complement kernel_page)) kernel_page in
    let high : bit_and y (complement 0xfff) ≡ y / 2 ^ 12 % 2 ^ 52 * 2 ^ 12 =
      bit_and-high_mask 12 (2 ^ 52 - 1) y
      ∙ ap (λ (t : ℕ). t * 2 ^ 12) (bit_and-mask 52 (y / 2 ^ 12)) in
    let inner : y / 2 ^ 12 ≡ a / 2 ^ 12 % 2 ^ 52 =
      or_flags-shr (bit_and a (complement kernel_page)) kernel_page (omega arith)
      ∙ bit_and-shr 12 a (complement kernel_page)
      ∙ bit_and-mask 52 (a / 2 ^ 12) in
    let frame : a / 2 ^ 12 % 2 ^ 52 ≡ p / 2 ^ 12 % 2 ^ 52 = omega (arith, set_address_lem d p) in
    ap (λ (t : ℕ). bit_or t f) (high ∙ omega (arith, inner, frame))
    ∙ bit_or-fields 12 (p / 2 ^ 12 % 2 ^ 52) f h

-- Each index that `paging_set_indexer` takes from an address names one of the 512 entries of a
-- table, and the four of them with the offset give back the low 48 bits of the address.
pub set_indexer_lem :
    (a : ℕ)
    → let i = set_indexer a in
      (i.pml4 < 512)
      × (i.pml3 < 512)
      × (i.pml2 < 512)
      × (i.pml1 < 512)
      × ((((i.pml4 * 512 + i.pml3) * 512 + i.pml2) * 512 + i.pml1) * 4096 + a % 4096 ≡ a % 2 ^ 48)
unfolding set_indexer
set_indexer_lem a =
    let m1 = bit_and-mask 9 (a / 2 ^ 12) in
    let m2 = bit_and-mask 9 (a / 2 ^ 12 / 2 ^ 9) in
    let m3 = bit_and-mask 9 (a / 2 ^ 12 / 2 ^ 9 / 2 ^ 9) in
    let m4 = bit_and-mask 9 (a / 2 ^ 12 / 2 ^ 9 / 2 ^ 9 / 2 ^ 9) in
    (omega arith, omega arith, omega arith, omega arith, omega arith)
