-- ===== src/Heap/Safety.antt =====
-- What a caller of `malloc` and `free` may rely on: the data in use, at its addresses and lengths.
use mathlib.Core.Path.{subst}
use titanix.Pager.{Pager}
use titanix.Base.{
  ℕ, suc, ◌+◌, ◌<◌, ◌≡◌, ◌≢◌, ◌^◌, refl, ◌∙◌, sym, some, List, [], ◌∷◌, ◌++◌, inl, inr,
}
use titanix.Blocks.{Block, span, end_of, release, InUse, first_fit, aligned}
use titanix.Blocks.InUse.{Taken, first_fit-Taken}
use titanix.Blocks.Release.{SameUse, release-Freed}
use titanix.Heap.{Heap, free, malloc}
use titanix.Heap.Chain.{Holds}
use titanix.Heap.Free.{free-Holds}
use titanix.Heap.Malloc.{malloc-first_fit}

-- A segment in use stands between two parts of the list.
record Placed (a : ℕ) (bs : List Block) (p : ℕ) : Type 0 where
  before : List Block
  here : Block
  after : List Block
  parts : bs ≡ before ++ (here ∷ after)
  address : p ≡ end_of a before + 32

InUse-Placed : (a : ℕ) (bs : List Block) (p n : ℕ) → InUse a bs p n → Placed a bs p
InUse-Placed a [] p n u = elim u [ ]
InUse-Placed a (b ∷ bs) p n (inl h) = record {
  before = [];
  here = b;
  after = bs;
  parts = refl;
  address = h.1;
}
InUse-Placed a (b ∷ bs) p n (inr h) =
    let r = InUse-Placed (a + span b) bs p n h in
    record {
      before = b ∷ r.before;
      here = r.here;
      after = r.after;
      parts = rw r.parts;
      address = r.address;
    }

-- The data in use in `cs` is that in `bs`, without what lies at `p`.
pub record Without (a p : ℕ) (bs cs : List Block) : Type 0 where
  pub gone : (q m : ℕ) → InUse a cs q m → q ≢ p
  pub kept : (q m : ℕ) → InUse a bs q m → q ≢ p → InUse a cs q m
  pub only : (q m : ℕ) → InUse a cs q m → InUse a bs q m
  pub same_end : end_of a cs ≡ end_of a bs

module _ {P : Type 0} where
  -- On a heap that holds a list of segments, `free` of an address in use leaves a heap that holds
  -- the same data in use, at the same addresses and lengths, without the data at that address, and
  -- that ends where it ended.
  pub free-Without :
      (s : Heap P) (bs : List Block) (p n : ℕ)
      → Holds s bs
      → InUse s.heap_start bs p n
      → (cs : List Block) × Holds (free p s) cs × Without s.heap_start p bs cs
  free-Without s bs p n v u =
      let r = InUse-Placed s.heap_start bs p n u in
      let f = release-Freed s.heap_start r.before r.here r.after in
      let v' = free-Holds s r.here r.after r.before (rw r.parts at v) in
      (
        release r.before r.here r.after,
        rw r.address v',
        rw (r.parts, r.address)
            (record { gone = f.gone; kept = f.kept; only = f.only; same_end = f.same_end }),
      )

module _ (pager : Pager) where
  -- On a heap that holds a list of segments, for a positive request below 2 ^ 63 that some segment
  -- fits, `malloc` returns at once, on any fuel above zero. It answers with the first segment that
  -- fits, of at least the request rounded up to 16 bytes and less than 48 bytes more. The address
  -- was not in use; all data in use stays in use, at its address and length; nothing else comes
  -- into use; the heap holds the segments that are left.
  pub malloc-Taken :
      (f r p : ℕ) (s : Heap pager.State) (b : Block) (bs cs : List Block)
      → Holds s (b ∷ bs)
      → 0 < r
      → r < 2 ^ 63
      → first_fit (aligned r) s.heap_start (b ∷ bs) ≡ some (p, cs)
      → (s' : Heap pager.State) × (malloc pager (suc f) r s ≡ some (p, s'))
        × (s'.heap_start ≡ s.heap_start)
        × Holds s' cs
        × Taken (aligned r) s.heap_start (b ∷ bs) p cs
  malloc-Taken f r p s b bs cs v pos small fits =
      let (s', e, h, v', kept) = malloc-first_fit pager f r p s b bs cs v pos small fits in
      (s', e, h, v', first_fit-Taken (aligned r) s.heap_start (b ∷ bs) p cs fits)

  -- On a heap that holds a list of segments, for a positive request below 2 ^ 63 that some segment
  -- fits, `malloc` returns, and `free` of its answer leaves a heap that holds the data that were
  -- held before, at the same addresses and lengths, and that ends where it ended.
  pub free-malloc :
      (f r p : ℕ) (s : Heap pager.State) (b : Block) (bs cs : List Block)
      → Holds s (b ∷ bs)
      → 0 < r
      → r < 2 ^ 63
      → first_fit (aligned r) s.heap_start (b ∷ bs) ≡ some (p, cs)
      → (s' : Heap pager.State) × (ds : List Block) × (malloc pager (suc f) r s ≡ some (p, s'))
        × Holds (free p s') ds
        × SameUse s.heap_start (b ∷ bs) ds
  free-malloc f r p s b bs cs v pos small fits =
      let (s', e, h, v', t) = malloc-Taken f r p s b bs cs v pos small fits in
      let (m, _, _, u) = t.got in
      let (ds, w, x) = free-Without s' cs p m v' (subst (λ k. InUse k cs p m) (sym h) u) in
      let y = subst (λ k. Without k p cs ds) h x in
      (
        s',
        ds,
        e,
        w,
        record {
          to = λ q k i. y.kept q k (t.kept q k i) (t.fresh q k i);
          back = λ q k i. elim (t.only q k (y.only q k i)) [
            | inl same ↦ absurd (y.gone q k i same)
            | inr old ↦ old
          ];
          same_end = y.same_end ∙ t.same_end;
        },
      )
