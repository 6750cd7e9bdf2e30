-- ===== src/Pmm/Chain.antt =====
-- The list of sections in the store, and the ranges of memory that it stands for.
use mathlib.Core.Path.{subst}
use titanix.Base.{length, suc, ap, ◌++◌, ℕ, ◌≡◌, ◌≢◌, ◌⊎◌, inl, inr, refl, ◌∙◌, List, [], ◌∷◌}
use titanix.Pmm.{Section, Store}

-- What a section says: a range of pages and their type.
pub record Range : Type 0 where
  pub start : ℕ
  pub pages : ℕ
  pub free : ℕ

-- A record of the table, by its address.
pub record Entry : Type 0 where
  pub at : ℕ
  pub range : Range

abbrev pub ranges : List Entry → List Range
ranges [] = []
ranges (e ∷ xs) = e.range ∷ ranges xs

abbrev pub In : ℕ → List Entry → Type 0
In q [] = ⊥
In q (e ∷ xs) = (q ≡ e.at) ⊎ In q xs

abbrev pub Distinct : List Entry → Type 0
Distinct [] = Unit {0}
Distinct (e ∷ xs) = (In e.at xs → ⊥) × Distinct xs

-- The address of the first record, or what stands behind the list.
abbrev pub head_at : List Entry → ℕ
head_at [] = 0
head_at (e ∷ xs) = e.at

abbrev pub section_of : Range → ℕ → ℕ → Section
section_of r p n = record { prev = p; next = n; start = r.start; pages = r.pages; free = r.free }

-- The records of `xs` follow one another; the first points back to `p`, the last to NULL.
abbrev pub Linked : Store → ℕ → List Entry → Type 0
Linked h p [] = Unit {0}
Linked h p (e ∷ xs) = (h e.at ≡ section_of e.range p (head_at xs)) × Linked h e.at xs

-- A list survives a change of the store outside its records.
pub Linked-frame :
    (h g : Store) (p : ℕ) (xs : List Entry)
    → ((q : ℕ) → In q xs → g q ≡ h q)
    → Linked h p xs
    → Linked g p xs
Linked-frame h g p [] same c = tt
Linked-frame h g p (e ∷ xs) same (here, c) =
    (same e.at (inl refl) ∙ here, Linked-frame h g e.at xs (λ q i. same q (inr i)) c)

-- Members differ from what is no member.
pub ne_of_In : (q r : ℕ) (xs : List Entry) → In q xs → (In r xs → ⊥) → q ≢ r
ne_of_In q r xs i out e = out (subst (λ x. In x xs) e i)

-- A list whose first record is given another predecessor.
pub Linked-relink :
    (h g : Store) (p p' : ℕ) (xs : List Entry)
    → Distinct xs
    → ((q : ℕ) → In q xs → q ≢ head_at xs → g q ≡ h q)
    → g (head_at xs) ≡ record (h (head_at xs)) { prev = p' }
    → Linked h p xs
    → Linked g p' xs
Linked-relink h g p p' [] d same first c = tt
Linked-relink h g p p' (e ∷ xs) (out, d) same first (here, c) = (
  rw (first, here) refl,
  Linked-frame h g e.at xs (λ q i. same q (inr i) (ne_of_In q e.at xs i out)) c,
)

pub length-ranges : (xs : List Entry) → length (ranges xs) ≡ length xs
length-ranges [] = refl
length-ranges (x ∷ xs) = ap suc (length-ranges xs)

pub ranges-append : (xs zs : List Entry) → ranges (xs ++ zs) ≡ ranges xs ++ ranges zs
ranges-append [] zs = refl
ranges-append (x ∷ xs) zs = ap (λ (l : List Range). x.range ∷ l) (ranges-append xs zs)
