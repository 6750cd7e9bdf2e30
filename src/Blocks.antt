-- ===== src/Blocks.antt =====
-- The abstract view of the kernel heap: the sequence of its segments from `heap_start` on, each
-- with the length of its data and whether it is free. No pointers and no words.
pub mod InUse
pub mod Release
use titanix.Base.{
  ℕ, ◌+◌, ◌-◌, ◌≡◌, ◌⊎◌, Bool, true, false, ◌&&◌, Option, none, some, List, [], ◌∷◌, ◌++◌, refl, ap,
  arith, inl, inr, Bool-cases, sym, ◌∙◌, ◌*◌, ◌/◌, length, ◌≤◌, leb, if◌then◌else◌,
}

pub record Block : Type 0 where
  pub length : ℕ
  pub free : Bool

abbrev pub block : ℕ → Bool → Block
block n f = record { length = n; free = f }

-- A header of 32 bytes stands before the data of each segment.
abbrev pub span : Block → ℕ
span b = 32 + b.length

abbrev pub end_of : ℕ → List Block → ℕ
end_of a [] = a
end_of a (b ∷ bs) = end_of (a + span b) bs

-- A segment that has swallowed its right neighbour, header included.
abbrev pub merged : Block → Block → Block
merged b c = block (b.length + c.length + 32) b.free

-- A segment together with its right neighbour, if that is free.
unfoldable pub coalesce : Block → List Block → List Block
coalesce b [] = b ∷ []
coalesce b (c ∷ cs) = if c.free then merged b c ∷ cs else b ∷ c ∷ cs

-- A segment before `rest`, which takes in its right neighbour if both are free.
unfoldable pub join : Block → List Block → List Block
unfolding coalesce
join w rest = if w.free then coalesce w rest else w ∷ rest

-- The segment `b` between `ws` and `ys` is given back.
unfoldable pub release : List Block → Block → List Block → List Block
unfolding coalesce join
release [] b ys = coalesce (block b.length true) ys
release (w ∷ []) b ys = join w (coalesce (block b.length true) ys)
release (w ∷ v ∷ ws) b ys = w ∷ release (v ∷ ws) b ys

-- A free segment is cut for `n` bytes if at least 16 bytes of data are left behind a new header.
unfoldable pub carve : ℕ → Block → List Block → List Block
carve n b bs =
    if leb (n + 48) b.length
    then block n false ∷ block (b.length - n - 32) true ∷ bs
    else block b.length false ∷ bs

-- What is found behind a segment that is passed over.
abbrev pub later : Block → Option (ℕ × List Block) → Option (ℕ × List Block)
later b none = none
later b (some (p, cs)) = some (p, b ∷ cs)

-- First fit from address `a`: the address of the data, and the segments afterwards.
unfoldable pub first_fit : ℕ → ℕ → List Block → Option (ℕ × List Block)
unfolding carve
first_fit n a [] = none
first_fit n a (b ∷ bs) =
    let rest = later b (first_fit n (a + span b) bs) in
    if b.free && leb n b.length then some (a + 32, carve n b bs) else rest

-- A request of `r` bytes in units of 16, and in whole pages.
abbrev pub aligned : ℕ → ℕ
aligned r = (r + 15) / 16 * 16

abbrev pub whole_pages : ℕ → ℕ
whole_pages n = (n + 4095) / 4096 * 4096

-- The segment that the heap grows by for a request of `n` bytes.
abbrev pub new_segment : ℕ → Block
new_segment n = block (whole_pages n - 32) true

-- A segment in use holds `n` bytes of data at address `p`.
abbrev pub InUse : ℕ → List Block → ℕ → ℕ → Type 0
InUse a [] p n = ⊥
InUse a (b ∷ bs) p n =
    ((b.free ≡ false) × (p ≡ a + 32) × (n ≡ b.length)) ⊎ InUse (a + span b) bs p n

pub coalesce-free :
    (b c : Block) (cs : List Block) → c.free ≡ true → coalesce b (c ∷ cs) ≡ merged b c ∷ cs
unfolding coalesce
coalesce-free b c cs h = rw h

pub coalesce_used :
    (b c : Block) (cs : List Block) → c.free ≡ false → coalesce b (c ∷ cs) ≡ b ∷ c ∷ cs
unfolding coalesce
coalesce_used b c cs h = rw h

pub join-free : (w : Block) (rest : List Block) → w.free ≡ true → join w rest ≡ coalesce w rest
unfolding join
join-free w rest h = ground arith

pub join_used : (w : Block) (rest : List Block) → w.free ≡ false → join w rest ≡ w ∷ rest
unfolding join
join_used w rest h = ground arith

-- `coalesce` leaves a first segment, whose header stands where it stood.
pub coalesce-cons :
    (b : Block) (ys : List Block) → (c : Block) × (cs : List Block) × (coalesce b ys ≡ c ∷ cs)
unfolding coalesce
coalesce-cons b [] = (b, [], refl)
coalesce-cons b (y ∷ ys) = elim (Bool-cases y.free) [
  | inl h ↦ (merged b y, ys, coalesce-free b y ys h)
  | inr h ↦ (b, y ∷ ys, coalesce_used b y ys h)
]

pub release-snoc :
    (ws : List Block) (w b : Block) (ys : List Block)
    → release (ws ++ (w ∷ [])) b ys ≡ ws ++ join w (coalesce (block b.length true) ys)
unfolding release
release-snoc [] w b ys = refl
release-snoc (v ∷ []) w b ys = refl
release-snoc (v ∷ u ∷ ws) w b ys = ap (λ k. v ∷ k) (release-snoc (u ∷ ws) w b ys)

pub first_fit-take :
    (n a : ℕ) (b : Block) (bs : List Block)
    → (b.free && leb n b.length) ≡ true
    → first_fit n a (b ∷ bs) ≡ some (a + 32, carve n b bs)
unfolding first_fit
first_fit-take n a b bs h = rw h

pub first_fit-skip :
    (n a : ℕ) (b : Block) (bs : List Block)
    → (b.free && leb n b.length) ≡ false
    → first_fit n a (b ∷ bs) ≡ later b (first_fit n (a + span b) bs)
unfolding first_fit
first_fit-skip n a b bs h = rw h

pub first_fit-nil : (n a : ℕ) → first_fit n a [] ≡ none
unfolding first_fit
first_fit-nil n a = refl

abbrev pub behind : List Block → Option (ℕ × List Block) → Option (ℕ × List Block)
behind bs none = none
behind bs (some (p, cs)) = some (p, bs ++ cs)

later-behind :
    (b : Block) (bs : List Block) (o : Option (ℕ × List Block))
    → later b (behind bs o) ≡ behind (b ∷ bs) o
later-behind b bs none = refl
later-behind b bs (some (p, cs)) = refl

later-none : (b : Block) (o : Option (ℕ × List Block)) → later b o ≡ none → o ≡ none
later-none b none h = refl
later-none b (some (p, cs)) h = cc

-- Where no segment of `bs` fits, first fit goes on behind them.
pub first_fit-append :
    (n a : ℕ) (bs cs : List Block)
    → first_fit n a bs ≡ none
    → first_fit n a (bs ++ cs) ≡ behind bs (first_fit n (end_of a bs) cs)
first_fit-append n a [] cs h = sym (behind-nil (first_fit n a cs))
  where
    behind-nil : (o : Option (ℕ × List Block)) → behind [] o ≡ o
    behind-nil none = refl
    behind-nil (some (p, ds)) = refl
first_fit-append n a (b ∷ bs) cs h = elim (Bool-cases (b.free && leb n b.length)) [
  | inl fit ↦ cc (first_fit-take n a b bs fit)
  | inr no_fit ↦
      let none_left = later-none b _ (sym (first_fit-skip n a b bs no_fit) ∙ h) in
      first_fit-skip n a b (bs ++ cs) no_fit
      ∙ ap (later b) (first_fit-append n (a + span b) bs cs none_left)
      ∙ later-behind b bs (first_fit n (end_of a (b ∷ bs)) cs)
]

pub length-le-end_of : (a : ℕ) (bs : List Block) → a + length bs ≤ end_of a bs
length-le-end_of a [] = omega arith
length-le-end_of a (b ∷ bs) = omega (arith, length-le-end_of (a + span b) bs)

pub le-end_of : (a : ℕ) (bs : List Block) → a ≤ end_of a bs
le-end_of a [] = omega arith
le-end_of a (b ∷ bs) = omega (arith, le-end_of (a + span b) bs)

pub end_of-append : (a : ℕ) (xs ys : List Block) → end_of a (xs ++ ys) ≡ end_of (end_of a xs) ys
end_of-append a [] ys = refl
end_of-append a (x ∷ xs) ys = end_of-append (a + span x) xs ys
