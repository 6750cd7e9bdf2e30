-- ===== src/Mmap/Entries.antt =====
-- The list that `make_entries_list` makes.
use mathlib.Core.Path.{subst}
use titanix.Base.{
  ℕ, zero, suc, ◌+◌, ◌*◌, ◌<◌, ◌≤◌, ◌≡◌, ◌≢◌, inl, inr, refl, ◌∙◌, ap, sym, Bool, true, false, not,
  ltb, leb, ◌==◌, if◌then◌else◌, arith, some, Bool-cases,
}
use titanix.Mmap.{
  Mmap, MmapEntry, Nodes, alloc, last_entry, link_entries, link, fill, set_entry, set_prev,
  make_entries_list, follow, size_loop, get_size, get_entry_by_index, clear_nodes,
}

-- The addresses of the nodes.
abbrev node_at : ℕ → ℕ → ℕ
node_at a zero = a
node_at a (suc k) = a + suc k * 40

-- The entries, by their place in the list.
abbrev pub listed : (ℕ → MmapEntry) → ℕ → MmapEntry
listed es k = if k == 6 then last_entry else es k

abbrev before : ℕ → ℕ → ℕ
before a zero = 0
before a (suc k) = node_at a k

node_at_lem : (a k : ℕ) → node_at a k ≡ a + k * 40
node_at_lem a zero = omega arith
node_at_lem a (suc k) = refl

apart : (a j k : ℕ) → j ≢ k → (node_at a j == node_at a k) ≡ false
apart a j k ne = let e = node_at_lem a j in let f = node_at_lem a k in ground arith

itself : (q : ℕ) → (q == q) ≡ true
itself q = ground arith

-- The first `links` nodes point to the next one, and the first `fills` are filled in.
record Made (a : ℕ) (es : ℕ → MmapEntry) (s0 s : Nodes) (links fills : ℕ) : Type 0 where
  next :
      (j : ℕ)
      → j ≤ 6
      → (s (node_at a j)).next
        ≡ (if ltb j links then node_at a (suc j) else (s0 (node_at a j)).next)
  filled :
      (j : ℕ)
      → j < fills
      → ((s (node_at a j)).entry ≡ listed es j) × ((s (node_at a j)).prev ≡ before a j)

module _ (a : ℕ) (es : ℕ → MmapEntry) (s0 : Nodes) where
  Made-follow :
      (s : Nodes) (links fills k : ℕ)
      → links ≤ 6
      → k ≤ links
      → Made a es s0 s links fills
      → follow k a s ≡ node_at a k
  Made-follow s links fills zero small h m = refl
  Made-follow s links fills (suc k) small h m =
      let less : ltb k links ≡ true = ground arith in
      ap (λ (q : ℕ). (s q).next) (Made-follow s links fills k small (omega arith) m)
      ∙ m.next k (omega arith)
      ∙ rw less refl

  Made-link :
      (s : Nodes) (k : ℕ)
      → k < 6
      → Made a es s0 s k 0
      → Made a es s0 (link k a (node_at a (suc k)) s) (suc k) 0
  Made-link s k h m =
      let here = Made-follow s k 0 k (omega arith) (omega arith) m in
      rw here (record {
        next = λ j small. elim (Bool-cases (j == k)) [
          | inl e ↦
              let same : j ≡ k = ground arith in
              let less : ltb k (suc k) ≡ true = ground arith in
              rw same (simp (itself (node_at a k), less))
          | inr e ↦
              let one : ltb j (suc k) ≡ ltb j k = ground arith in
              (simp (apart a j k (ground arith)))
              ∙ m.next j small
              ∙ ap (λ (b : Bool). if b then node_at a (suc j) else (s0 (node_at a j)).next)
                  (sym one)
        ];
        filled = λ j none_yet. absurd (omega arith);
      })

  -- The entry of node `k + 1` is set.
  Made-entry :
      (s : Nodes) (k : ℕ) (e : MmapEntry)
      → Made a es s0 s 6 (suc k)
      → Made a es s0 (set_entry (node_at a (suc k)) e s) 6 0
  Made-entry s k e m = record {
    next = λ j small. elim (Bool-cases (j == suc k)) [
      | inl x ↦
          let same : j ≡ suc k = ground arith in
          let rest = m.next (suc k) (omega arith) in
          rw same ((simp (itself (node_at a (suc k)))) ∙ rest)
      | inr x ↦ (simp (apart a j (suc k) (ground arith))) ∙ m.next j small
    ];
    filled = λ j none_yet. absurd (omega arith);
  }

  fill-eq :
      (s : Nodes) (k : ℕ) (e : MmapEntry)
      → k < 6
      → Made a es s0 s 6 (suc k)
      → fill k a e s
        ≡ set_prev (node_at a (suc k)) (node_at a k) (set_entry (node_at a (suc k)) e s)
  fill-eq s k e h m =
      let q = node_at a (suc k) in
      let s1 = set_entry q e s in
      let m1 = Made-entry s k e m in
      ap
        (λ (x : ℕ).
          set_prev (follow (suc k) a (set_entry x e s)) (follow k a (set_entry x e s))
            (set_entry x e s))
        (Made-follow s 6 (suc k) (suc k) (omega arith) (omega arith) m)
      ∙ ap (λ (x : ℕ). set_prev x (follow k a s1) s1)
          (Made-follow s1 6 0 (suc k) (omega arith) (omega arith) m1)
      ∙ ap (λ (x : ℕ). set_prev q x s1) (Made-follow s1 6 0 k (omega arith) (omega arith) m1)

  Made-fill :
      (s : Nodes) (k : ℕ)
      → k < 6
      → Made a es s0 s 6 (suc k)
      → Made a es s0 (fill k a (listed es (suc k)) s) 6 (suc (suc k))
  Made-fill s k h m =
      let q = node_at a (suc k) in
      let t = set_prev q (node_at a k) (set_entry q (listed es (suc k)) s) in
      subst (λ x. Made a es s0 x 6 (suc (suc k))) (sym (fill-eq s k (listed es (suc k)) h m))
        (record {
          next = λ j small. elim (Bool-cases (j == suc k)) [
            | inl x ↦
                let same : j ≡ suc k = ground arith in
                let rest = m.next (suc k) (omega arith) in rw same ((simp (itself q)) ∙ rest)
            | inr x ↦ (simp (apart a j (suc k) (ground arith))) ∙ m.next j small
          ];
          filled = λ j less. elim (Bool-cases (j == suc k)) [
            | inl x ↦
                let same : j ≡ suc k = ground arith in rw same (simp (itself q), simp (itself q))
            | inr x ↦
                let o = apart a j (suc k) (ground arith) in
                let (f, g) = m.filled j (ground arith) in ((simp o) ∙ f, (simp o) ∙ g)
          ];
        })

  Made-first :
      (s : Nodes) → Made a es s0 s 6 0 → Made a es s0 (set_prev a 0 (set_entry a (es 0) s)) 6 1
  Made-first s m = record {
    next = λ j small. elim (Bool-cases (j == 0)) [
      | inl x ↦
          let same : j ≡ 0 = ground arith in
          let rest = m.next 0 (omega arith) in rw same ((simp (itself a)) ∙ rest)
      | inr x ↦ (simp (apart a j 0 (ground arith))) ∙ m.next j small
    ];
    filled = λ j less. let same : j ≡ 0 = omega arith in rw same (simp (itself a), simp (itself a));
  }

  link_entries-Made : Made a es s0 (link_entries a es s0) 6 7
  unfolding link_entries
  link_entries-Made =
      let m0 : Made a es s0 s0 0 0 = record {
        next = λ j small.
            let z : ltb j 0 ≡ false = ground arith in
            ap (λ (b : Bool). if b then node_at a (suc j) else (s0 (node_at a j)).next) (sym z);
        filled = λ j less. absurd (omega arith);
      } in
      let m1 = Made-link _ 0 (omega arith) m0 in
      let m2 = Made-link _ 1 (omega arith) m1 in
      let m3 = Made-link _ 2 (omega arith) m2 in
      let m4 = Made-link _ 3 (omega arith) m3 in
      let m5 = Made-link _ 4 (omega arith) m4 in
      let m6 = Made-link _ 5 (omega arith) m5 in
      let f0 = Made-first _ m6 in
      let f1 = Made-fill _ 0 (omega arith) f0 in
      let f2 = Made-fill _ 1 (omega arith) f1 in
      let f3 = Made-fill _ 2 (omega arith) f2 in
      let f4 = Made-fill _ 3 (omega arith) f3 in
      let f5 = Made-fill _ 4 (omega arith) f4 in Made-fill _ 5 (omega arith) f5

  size_loop-step :
      (s : Nodes) (fuel q i : ℕ)
      → 0 < q
      → size_loop (suc fuel) q i s ≡ size_loop fuel (s q).next (i + 1) s
  unfolding size_loop
  size_loop-step s fuel q i pos = let e : (q == 0) ≡ false = ground arith in simp e

  size_loop-Made :
      (s : Nodes) (n j i : ℕ)
      → 0 < a
      → Made a es s0 s 6 7
      → (s0 (a + 240)).next ≡ 0
      → j + n ≡ 6
      → size_loop (suc (suc n)) (node_at a j) i s ≡ some (i + n + 1)
  unfolding size_loop
  size_loop-Made s zero j i pos m end h =
      let last : j ≡ 6 = omega arith in
      let stop : (s (node_at a 6)).next ≡ 0 = m.next 6 (omega arith) ∙ end in
      rw last (
        size_loop-step s 1 (a + 240) i (omega arith)
        ∙ ap (λ (q : ℕ). size_loop 1 q (i + 1) s) stop
        ∙ ap (λ (x : ℕ). some x) (omega arith))
  size_loop-Made s (suc n) j i pos m end h =
      let where_at = node_at_lem a j in
      let less : ltb j 6 ≡ true = ground arith in
      let on : (s (node_at a j)).next ≡ node_at a (suc j) = m.next j (omega arith) ∙ rw less refl in
      size_loop-step s (suc (suc n)) (node_at a j) i (omega arith)
      ∙ ap (λ (q : ℕ). size_loop (suc (suc n)) q (i + 1) s) on
      ∙ size_loop-Made s n (suc j) (i + 1) pos m end (omega arith)
      ∙ ap (λ (x : ℕ). some x) (omega arith)

cleared :
    (a : ℕ) (s : Nodes)
    → a ≢ 0
    → ((if not (a == 0) then clear_nodes a 4096 s else s) (a + 240)).next ≡ 0
cleared a s ne =
    let e0 : (a == 0) ≡ false = ground arith in
    let e1 : leb a (a + 240) ≡ true = ground arith in
    let e2 : ltb (a + 240) (a + 4096) ≡ true = ground arith in simp (e0, e1, e2)

-- A list of seven nodes, at `a`, of the first six entries and the last one; each points back to the node before it, the first
-- to NULL.
pub record IsList (a : ℕ) (es : ℕ → MmapEntry) (s : Nodes) : Type 0 where
  pub size : get_size 8 a s ≡ some 7
  pub entry : (j : ℕ) → j < 7 → get_entry_by_index a j s ≡ listed es j
  pub first : (s a).prev ≡ 0
  pub back : (j : ℕ) → j < 6 → (s (follow (suc j) a s)).prev ≡ follow j a s

-- Where `alloc` gives memory that does not start at 0, `make_entries_list` makes a doubly linked
-- list of seven nodes in it: the first six entries of the map as `alloc` leaves it, then the fixed
-- entry.
pub make_entries_list-IsList :
    (m : Mmap) (s : Nodes)
    → (alloc 280 m s).0 ≢ 0
    → IsList
        (make_entries_list m s).0
        (make_entries_list m s).1.mmap_entries
        (make_entries_list m s).2
unfolding make_entries_list alloc get_size get_entry_by_index
make_entries_list-IsList m s ne =
    let (a, m', s') = alloc 280 m s in
    let es = m'.mmap_entries in
    let t = link_entries a es s' in
    let made = link_entries-Made a es s' in
    let at_node : (j : ℕ) → j ≤ 6 → follow j a t ≡ node_at a j =
      λ j h. Made-follow a es s' t 6 7 j (omega arith) h made in
    let end : (s' (a + 240)).next ≡ 0 = cleared a s ne in
    record {
      size = size_loop-Made a es s' t 6 0 0 (omega arith) made end (omega arith);
      entry = λ j h. ap (λ (q : ℕ). (t q).entry) (at_node j (omega arith)) ∙ (made.filled j h).0;
      first = (made.filled 0 (omega arith)).1;
      back = λ j h.
          ap (λ (q : ℕ). (t q).prev) (at_node (suc j) (omega arith))
          ∙ (made.filled (suc j) (omega arith)).1
          ∙ sym (at_node j (omega arith));
    }
