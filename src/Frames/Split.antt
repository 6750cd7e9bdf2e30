-- ===== src/Frames/Split.antt =====
-- `pmm_section_split` on the list of sections.
use mathlib.Core.Path.{subst}
use titanix.Base.{
  ℕ, ◌+◌, ◌*◌, ◌-◌, ◌/◌, ◌^◌, ◌<◌, ◌≡◌, ◌≢◌, inl, inr, refl, ◌∙◌, ap, sym, true, false, List, [],
  ◌∷◌, arith, ◌==◌, leb, add64, sub64, mul64,
}
use titanix.Pmm.{Store, Pmm, put, section_size, page_size}
use titanix.Pmm.Chain.{
  Range, Entry, In, Distinct, head_at, section_of, Linked, Linked-frame, ne_of_In,
}
use titanix.Pmm.Table.{top, Table, new_section_lem}
use titanix.Frames.{link_behind, share_pages, section_split}

-- What is cut off a range behind its first `k` pages.
abbrev pub cut_off : ℕ → Range → Range
cut_off k r = record { start = r.start + k * page_size; pages = r.pages - k; free = r.free }

module _ (s : Pmm) (e : ℕ) (t : Table s) (room : s.section_head * section_size < s.data_size) where
  -- The store after `link_behind`, where nothing stands behind the section.
  last_store : Store
  last_store =
      put (put s.section e (record (s.section e) { next = top s })) (top s)
        (record (s.section (top s)) { prev = e })

  link_behind-last :
      (s.section e).next ≡ 0
      → e ≢ top s
      → link_behind e s ≡ record s { section_head = s.section_head + 1; section = last_store }
  unfolding link_behind last_store
  link_behind-last last ne =
      let new = new_section_lem s t room in
      let self : (e == e) ≡ true = ground arith in
      let other : (top s == e) ≡ false = ground arith in simp (new, last, self, other)

  -- Where another section stands behind it.
  inner_store : Store
  inner_store =
      let c = (s.section e).next in
      let h1 = put s.section c (record (s.section c) { prev = top s }) in
      let h2 = put h1 (top s) (record (s.section (top s)) { prev = e }) in
      let h3 = put h2 (top s) (record (s.section (top s)) { prev = e; next = c }) in
      put h3 e (record (s.section e) { next = top s })

  link_behind-inner :
      (s.section e).next ≢ 0
      → e ≢ top s
      → (s.section e).next ≢ e
      → (s.section e).next ≢ top s
      → link_behind e s ≡ record s { section_head = s.section_head + 1; section = inner_store }
  unfolding link_behind inner_store
  link_behind-inner inner ne nce nc =
      let c = (s.section e).next in
      let new = new_section_lem s t room in
      let e0 : (c == 0) ≡ false = ground arith in
      let e1 : (e == c) ≡ false = ground arith in
      let e2 : (c == c) ≡ true = ground arith in
      let e3 : (e == top s) ≡ false = ground arith in
      let e4 : (c == top s) ≡ false = ground arith in
      let e5 : (top s == c) ≡ false = ground arith in
      let e6 : (top s == top s) ≡ true = ground arith in simp (new, e0, e1, e2, e3, e4, e5, e6)

-- What `share_pages` leaves of a section `e` of the range `r`, cut after `k` pages, and of the record
-- behind it.
record Shared (s s' : Pmm) (e n k : ℕ) (r : Range) : Type 0 where
  front : s'.section e ≡ section_of (record r { pages = k }) (s.section e).prev n
  back : s'.section n ≡ section_of (cut_off k r) (s.section n).prev (s.section n).next
  other : (q : ℕ) → q ≢ e → q ≢ n → s'.section q ≡ s.section q
  rest : s' ≡ record s { section = s'.section }

share_pages_lem :
    (s : Pmm) (e n p k : ℕ) (r : Range)
    → s.section e ≡ section_of r p n
    → n ≢ e
    → k < r.pages
    → r.start + r.pages * page_size < 2 ^ 63
    → Shared s (share_pages e (r.start + k * page_size) s) e n k r
unfolding share_pages
share_pages_lem s e n p k r here ne lt fits =
    let a = r.start in
    let m = r.pages in
    let idx = a + k * page_size in
    let e1 : (e == n) ≡ false = ground arith in
    let e2 : (n == e) ≡ false = ground arith in
    let e3 : (e == e) ≡ true = ground arith in
    let e4 : (n == n) ≡ true = ground arith in
    let size : sub64 idx a / page_size ≡ k = omega arith in
    let behind : sub64 m k ≡ m - k = omega arith in
    let over : sub64 (add64 a (mul64 m page_size)) idx / page_size ≡ m - k = omega arith in
    let front : sub64 m (m - k) ≡ k = omega arith in
    record {
      front = simp (here, e1, e3, e4, over, front);
      back = simp (here, e1, e2, e4, size, behind);
      other = λ q qe qn.
          let q1 : (q == e) ≡ false = ground arith in
          let q2 : (q == n) ≡ false = ground arith in simp (here, e1, e4, q1, q2);
      rest = refl;
    }

-- A section `e` before `ys` is cut after `k` pages, into itself and a new record.
pub record Cut (s s' : Pmm) (p k : ℕ) (e : Entry) (ys : List Entry) : Type 0 where
  pub chain : Linked s'.section p (
      record { at = e.at; range = record e.range { pages = k } }
      ∷ record { at = top s; range = cut_off k e.range }
      ∷ ys)
  pub outside : (q : ℕ) → (In q (e ∷ ys) → ⊥) → q ≢ top s → s'.section q ≡ s.section q
  pub same : s' ≡ record s { section_head = s.section_head + 1; section = s'.section }

section_split-go :
    (s : Pmm) (e p n k : ℕ) (r : Range)
    → s.section e ≡ section_of r p n
    → k < r.pages
    → r.start + r.pages * page_size < 2 ^ 63
    → section_split e (r.start + k * page_size) s
      ≡ share_pages e (r.start + k * page_size) (link_behind e s)
unfolding section_split
section_split-go s e p n k r here lt fits =
    let guard : leb (add64 r.start (mul64 r.pages page_size)) (r.start + k * page_size) ≡ false =
      ground arith in
    simp (here, guard)

pub section_split-Cut :
    (s : Pmm) (p k : ℕ) (e : Entry) (ys : List Entry)
    → Table s
    → s.section_head * section_size < s.data_size
    → Linked s.section p (e ∷ ys)
    → Distinct (e ∷ ys)
    → ((q : ℕ) → In q (e ∷ ys) → (0 < q) × (q < top s))
    → k < e.range.pages
    → e.range.start + e.range.pages * page_size < 2 ^ 63
    → Cut s (section_split e.at (e.range.start + k * page_size) s) p k e ys
unfolding last_store inner_store
section_split-Cut s p k e [] t room (here, c) d below lt fits =
    let a = e.at in
    let idx = e.range.start + k * page_size in
    let (pos, under) = below a (inl refl) in
    let ne : a ≢ top s = ground arith in
    let ne' : top s ≢ a = ground arith in
    let (bp, bn) = t.blank s.section_head (omega arith) room in
    let next : (s.section a).next ≡ 0 = ground arith in
    let s1 : Pmm = record s {
      section_head = s.section_head + 1;
      section = last_store s a t room;
    } in
    let run : section_split a idx s ≡ share_pages a idx s1 =
      section_split-go s a p 0 k e.range here lt fits
      ∙ ap (share_pages a idx) (link_behind-last s a t room next ne) in
    let here1 : s1.section a ≡ section_of e.range p (top s) = ground arith in
    let new1 : s1.section (top s) ≡ record (s.section (top s)) { prev = a } = ground arith in
    let sh = share_pages_lem s1 a (top s) p k e.range here1 ne' lt fits in
    subst (λ x. Cut s x p k e []) (sym run)
      (record {
        chain = (ground arith, (ground arith, tt));
        outside =
            λ q out away. let qa : q ≢ a = λ x. out (inl x) in sh.other q qa away ∙ ground arith;
        same = sh.rest;
      })
section_split-Cut s p k e (b ∷ ys) t room (here, (there, c)) (out, (out', d)) below lt fits =
    let a = e.at in
    let idx = e.range.start + k * page_size in
    let (pos, under) = below a (inl refl) in
    let (posb, underb) = below b.at (inr (inl refl)) in
    let ne : a ≢ top s = ground arith in
    let ne' : top s ≢ a = ground arith in
    let apart : b.at ≢ a = λ x. out (inl (sym x)) in
    let next : (s.section a).next ≡ b.at = ground arith in
    let next0 : (s.section a).next ≢ 0 = ground arith in
    let next_a : (s.section a).next ≢ a = ground arith in
    let next_t : (s.section a).next ≢ top s = ground arith in
    let s1 : Pmm = record s {
      section_head = s.section_head + 1;
      section = inner_store s a t room;
    } in
    let run : section_split a idx s ≡ share_pages a idx s1 =
      section_split-go s a p b.at k e.range here lt fits
      ∙ ap (share_pages a idx) (link_behind-inner s a t room next0 ne next_a next_t) in
    let here1 : s1.section a ≡ section_of e.range p (top s) = ground arith in
    let new1 : s1.section (top s) ≡ record (s.section (top s)) { prev = a; next = b.at } =
      ground arith in
    let back1 : s1.section b.at ≡ section_of b.range (top s) (head_at ys) = ground arith in
    let sh = share_pages_lem s1 a (top s) p k e.range here1 ne' lt fits in
    let s2 = share_pages a idx s1 in
    let back2 : s2.section b.at ≡ section_of b.range (top s) (head_at ys) =
      sh.other b.at apart (ground arith) ∙ back1 in
    let away : (q : ℕ) → q ≢ a → q ≢ b.at → q ≢ top s → s2.section q ≡ s.section q =
      λ q qa qb qt. sh.other q qa qt ∙ ground arith in
    let tail : (q : ℕ) → In q ys → s2.section q ≡ s.section q = λ q i.
      let (_, u) = below q (inr (inr i)) in
      away q (λ x. out (inr (subst (λ y. In y ys) x i))) (ne_of_In q b.at ys i out')
        (ground arith) in
    subst (λ x. Cut s x p k e (b ∷ ys)) (sym run)
      (record {
        chain = (
          ground arith,
          (ground arith, (back2, Linked-frame s.section s2.section b.at ys tail c)),
        );
        outside = λ q o qt. away q (λ x. o (inl x)) (λ x. o (inr (inl x))) qt;
        same = sh.rest;
      })
