-- ===== src/Heap/Data/Apart.antt =====
-- Where the data of the segments in use lies: apart from other data, and behind its header.
use titanix.Base.{
  ℕ, ◌+◌, ◌≤◌, ◌≡◌, ◌≢◌, ◌⊎◌, ◌∙◌, List, [], ◌∷◌, arith, ap, inl, inr, ltb, Bool-cases, sym, ltb→lt,
  ltb→le, sub64,
}
use titanix.Blocks.{Block, span, end_of, InUse, le-end_of}
use titanix.Blocks.InUse.{InUse-disjoint, InUse-lower}
use titanix.Heap.{Header, Store, Heap}
use titanix.Heap.Chain.{Seg, Holds}

-- Two addresses in use: no byte of the one lies in the data of the other.
pub InUse-apart :
    (a : ℕ) (bs : List Block) (p n q l : ℕ)
    → InUse a bs p n
    → InUse a bs q l
    → q ≢ p
    → (p + n + 32 ≤ q) ⊎ (q + l + 32 ≤ p)
InUse-apart a bs p n q l u v ne = elim (Bool-cases (ltb p q)) [
  | inl h ↦ inl (InUse-disjoint a bs p n q l u v (ltb→lt p q h))
  | inr h ↦ inr (InUse-disjoint a bs q l p n v u (omega (arith, ltb→le p q h)))
]

InUse-upper : (a : ℕ) (bs : List Block) (p n : ℕ) → InUse a bs p n → p + n ≤ end_of a bs
InUse-upper a [] p n u = elim u [ ]
InUse-upper a (b ∷ bs) p n (inl h) = omega (arith, le-end_of (a + span b) bs)
InUse-upper a (b ∷ bs) p n (inr h) = InUse-upper (a + span b) bs p n h

used_length :
    (h : Store) (prev a : ℕ) (bs : List Block) (nxt q p n : ℕ)
    → Seg h prev a bs nxt
    → InUse a bs p n
    → q + 32 ≡ p
    → (h q).length ≡ n
used_length h prev a [] nxt q p n s u e = elim u [ ]
used_length h prev a (b ∷ bs) nxt q p n s (inl i) e =
    let same : q ≡ a = omega arith in
    ap (λ (x : ℕ). (h x).length) same ∙ ap (λ (x : Header). x.length) s.0 ∙ sym i.2
used_length h prev a (b ∷ bs) nxt q p n s (inr i) e =
    used_length h a (a + span b) bs nxt q p n s.1 i e

module _ {P : Type 0} where
  -- The header below an address in use holds the length of the data there.
  pub length_at :
      (s : Heap P) (bs : List Block) (p n : ℕ)
      → Holds s bs
      → InUse s.heap_start bs p n
      → (s.header (sub64 p 32)).length ≡ n
  length_at s bs p n v u =
      let low = InUse-lower s.heap_start bs p n u in
      let high = InUse-upper s.heap_start bs p n u in
      let fits = v.end_fits in
      let end = v.end_at in
      used_length s.header 0 s.heap_start bs 0 (sub64 p 32) p n v.chain u (omega arith)
