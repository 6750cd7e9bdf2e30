-- ===== src/Locks/Walk.antt =====
-- `pmm_free_page` comes to the page's section.
use titanix.Base.{
  length, ℕ, suc, ◌+◌, ◌*◌, ◌<◌, ◌≤◌, ◌≡◌, ◌≢◌, inl, inr, refl, ◌∙◌, ap, true, false, some, List,
  [], ◌∷◌, ◌++◌, arith, ◌==◌, ltb,
}
use titanix.Pmm.{Section, Store, Pmm, page_size}
use titanix.Pmm.Chain.{Range, Entry, In, ranges, head_at, section_of, Linked}
use titanix.Frames.Owner.{Contiguous, Contiguous-tail}
use titanix.Locks.{free_first, free_round, free_loop}

abbrev pub NonEmpty : List Range → Type 0
NonEmpty [] = Unit {0}
NonEmpty (r ∷ rs) = (r.pages ≢ 0) × NonEmpty rs

module _ (s : Pmm) (f page : ℕ) (x : Range) (q p n : ℕ) (here : s.section q ≡ section_of x p n)
    (pos : 0 < q) where
  -- The loop passes a section before the page.
  pub free_loop-pass :
      x.start < page
      → (s.section n).start ≤ page
      → free_loop (suc f) page q s ≡ free_loop f page n s
  unfolding free_loop free_round
  free_loop-pass before h =
      let e0 : (q == 0) ≡ false = ground arith in
      let e1 : (x.start == page) ≡ false = ground arith in
      let e2 : ltb page (s.section n).start ≡ false = ground arith in
      let e3 : ltb x.start page ≡ true = ground arith in simp (e0, here, e1, e2, e3)

  pub free_loop-stop : x.start ≡ page → free_loop (suc f) page q s ≡ some (free_first q s)
  unfolding free_loop free_round
  free_loop-stop at_page =
      let e0 : (q == 0) ≡ false = ground arith in
      let e1 : (page == page) ≡ true = ground arith in simp (e0, here, at_page, e1)

Contiguous-before :
    (x : Entry) (xs : List Entry) (a : Entry) (zs : List Entry)
    → Contiguous (ranges (x ∷ xs ++ a ∷ zs))
    → x.range.start + x.range.pages * page_size ≤ a.range.start
Contiguous-before x [] a zs c = omega (arith, c.0)
Contiguous-before x (y ∷ xs) a zs c =
    let rest = Contiguous-before y xs a zs c.1 in omega (arith, c.0)

pub In-behind : (xs zs : List Entry) (q : ℕ) → In q zs → In q (xs ++ zs)
In-behind [] zs q i = i
In-behind (x ∷ xs) zs q i = inr (In-behind xs zs q i)

pub NonEmpty-behind : (xs zs : List Entry) → NonEmpty (ranges (xs ++ zs)) → NonEmpty (ranges zs)
NonEmpty-behind [] zs n = n
NonEmpty-behind (x ∷ xs) zs n = NonEmpty-behind xs zs n.1

pub Contiguous-behind :
    (xs zs : List Entry) → Contiguous (ranges (xs ++ zs)) → Contiguous (ranges zs)
Contiguous-behind [] zs c = c
Contiguous-behind (x ∷ xs) zs c =
    Contiguous-behind xs zs (Contiguous-tail x.range (ranges (xs ++ zs)) c)

-- The loop comes to the section `a`, which starts at or before the page.
pub free_loop-walk :
    (f page p : ℕ) (s : Pmm) (xs : List Entry) (a : Entry) (zs : List Entry)
    → Linked s.section p (xs ++ a ∷ zs)
    → ((q : ℕ) → In q (xs ++ a ∷ zs) → 0 < q)
    → Contiguous (ranges (xs ++ a ∷ zs))
    → NonEmpty (ranges (xs ++ a ∷ zs))
    → a.range.start ≤ page
    → free_loop (length xs + f) page (head_at (xs ++ a ∷ zs)) s ≡ free_loop f page a.at s
free_loop-walk f page p s [] a zs l pos c ne h =
    ap (λ (n : ℕ). free_loop n page a.at s) (omega arith)
free_loop-walk f page p s (x ∷ []) a zs l pos c ne h =
    let start : (s.section a.at).start ≡ a.range.start = ap (λ (e : Section). e.start) l.1.0 in
    let n0 = ne.0 in
    ap (λ (n : ℕ). free_loop n page x.at s) (omega arith)
    ∙ free_loop-pass s f page x.range x.at p a.at l.0 (pos x.at (inl refl)) (omega (arith, c.0))
        (omega arith)
free_loop-walk f page p s (x ∷ y ∷ xs) a zs l pos c ne h =
    let start : (s.section y.at).start ≡ y.range.start = ap (λ (e : Section). e.start) l.1.0 in
    let n0 = ne.0 in
    let before = Contiguous-before y xs a zs c.1 in
    ap (λ (n : ℕ). free_loop n page x.at s) (omega arith)
    ∙ free_loop-pass s (length (y ∷ xs) + f) page x.range x.at p y.at l.0 (pos x.at (inl refl))
        (omega (arith, c.0)) (omega arith)
    ∙ free_loop-walk f page x.at s (y ∷ xs) a zs l.1 (λ q i. pos q (inr i)) c.1 ne.1 h

pub Linked-behind :
    (h : Store) (p : ℕ) (xs : List Entry) (a : Entry) (zs : List Entry)
    → Linked h p (xs ++ a ∷ zs)
    → (p' : ℕ) × Linked h p' (a ∷ zs)
Linked-behind h p [] a zs l = (p, l)
Linked-behind h p (x ∷ xs) a zs l = Linked-behind h x.at xs a zs l.1
