-- ===== src/Memory/Laws.antt =====
-- What the memory functions write, compare and find.
use titanix.Base.{ltb}
use titanix.Base.{
  ℕ, zero, suc, ◌+◌, ◌%◌, ◌^◌, ◌≤◌, ◌<◌, ◌≡◌, ◌≢◌, ◌↔◌, ◌⊎◌, inl, inr, refl, ◌∙◌, ap, sym, true,
  some, arith, ◌==◌, Bool-cases, u8,
}
use titanix.Memory.{Memory, store, copy_loop, memcpy, memcmp, strlen_loop, strlen, set_loop, memset}

module _ (dest src : ℕ) where
  copy_loop-outside :
      (n i : ℕ) (m : Memory) (q : ℕ)
      → (q < dest + i) ⊎ (dest + i + n ≤ q)
      → copy_loop n i dest src m q ≡ m q
  unfolding copy_loop
  copy_loop-outside zero i m q out = refl
  copy_loop-outside (suc n) i m q out =
      copy_loop-outside n (i + 1) (store (dest + i) (m (src + i)) m) q (omega arith) ∙ ground arith

  -- What the loop has still to read is not overwritten if the destination lies below the source or
  -- wholly behind it.
  copy_loop-inside :
      (n i : ℕ) (m : Memory) (k : ℕ)
      → (dest ≤ src) ⊎ (src + i + n ≤ dest)
      → i ≤ k
      → k < i + n
      → copy_loop n i dest src m (dest + k) ≡ m (src + k)
  unfolding copy_loop
  copy_loop-inside zero i m k apart l r = absurd (omega arith)
  copy_loop-inside (suc n) i m k apart l r =
      let m' = store (dest + i) (m (src + i)) m in
      elim (Bool-cases (k == i)) [
        | inl same ↦
            let e : k ≡ i = ground arith in
            rw e (copy_loop-outside n (i + 1) m' (dest + i) (omega arith) ∙ ground arith)
        | inr other ↦
            let ne : k ≢ i = ground arith in
            copy_loop-inside n (i + 1) m' k (omega arith) (omega arith) (omega arith) ∙ ground arith
      ]

-- If the destination does not lie above the source, or lies wholly behind it, `memcpy` of fewer than
-- 2 ^ 31 bytes returns `dest`, and copies the byte at each index below the length; a byte at an
-- address outside the destination is unchanged.
pub memcpy_lem :
    (dest src bytes : ℕ) (m : Memory)
    → (dest ≤ src) ⊎ (src + bytes ≤ dest)
    → bytes < 2 ^ 31
    → (m' : Memory) × (memcpy dest src bytes m ≡ some (dest, m'))
      × ((k : ℕ) → k < bytes → m' (dest + k) ≡ m (src + k))
      × ((q : ℕ) → (q < dest) ⊎ (dest + bytes ≤ q) → m' q ≡ m q)
unfolding memcpy
memcpy_lem dest src bytes m apart short =
    let e : ltb bytes (2 ^ 31) ≡ true = ground arith in
    (
      copy_loop bytes 0 dest src m,
      simp e,
      λ k r. copy_loop-inside dest src bytes 0 m k (omega arith) (omega arith) (omega arith),
      λ q out. copy_loop-outside dest src bytes 0 m q (omega arith),
    )

set_loop-outside :
    (n i p val : ℕ) (m : Memory) (q : ℕ)
    → (q < p + i) ⊎ (p + i + n ≤ q)
    → set_loop n i p val m q ≡ m q
unfolding set_loop
set_loop-outside zero i p val m q out = refl
set_loop-outside (suc n) i p val m q out =
    set_loop-outside n (i + 1) p val (store (p + i) (u8 val) m) q (omega arith) ∙ ground arith

set_loop-inside :
    (n i p val : ℕ) (m : Memory) (k : ℕ) → i ≤ k → k < i + n → set_loop n i p val m (p + k) ≡ u8 val
unfolding set_loop
set_loop-inside zero i p val m k l r = absurd (omega arith)
set_loop-inside (suc n) i p val m k l r =
    let m' = store (p + i) (u8 val) m in
    elim (Bool-cases (k == i)) [
      | inl same ↦
          let e : k ≡ i = ground arith in
          rw e (set_loop-outside n (i + 1) p val m' (p + i) (omega arith) ∙ ground arith)
      | inr other ↦
          let ne : k ≢ i = ground arith in
          set_loop-inside n (i + 1) p val m' k (omega arith) (omega arith)
    ]

-- `memset` returns `p` and leaves the low byte of the value at each index `k` below the length; a
-- byte at an address `q` outside of these is unchanged.
pub memset_lem :
    (p val bytes k q : ℕ) (m : Memory)
    → k < bytes
    → (q < p) ⊎ (p + bytes ≤ q)
    → ((memset p val bytes m).0 ≡ p)
      × ((memset p val bytes m).1 (p + k) ≡ u8 val)
      × ((memset p val bytes m).1 q ≡ m q)
unfolding memset
memset_lem p val bytes k q m r out = (
  refl,
  set_loop-inside bytes 0 p val m k (omega arith) (omega arith),
  set_loop-outside bytes 0 p val m q (omega arith),
)

module _ (m : Memory) where
  -- The byte at the next address.
  next_byte : (p k : ℕ) → m (p + 1 + k) ≡ m (p + suc k)
  next_byte p k = ap m (omega arith)

  first_byte : (p : ℕ) → m (p + 0) ≡ m p
  first_byte p = ap m (omega arith)

  memcmp_sound :
      (p1 p2 bytes : ℕ)
      → memcmp p1 p2 bytes m ≡ true
      → (k : ℕ) → k < bytes
      → m (p1 + k) ≡ m (p2 + k)
  unfolding memcmp
  memcmp_sound p1 p2 zero h k lt = absurd (omega arith)
  memcmp_sound p1 p2 (suc n) h zero lt = ground (arith, first_byte p1, first_byte p2)
  memcmp_sound p1 p2 (suc n) h (suc k) lt = ground (
    arith,
    next_byte p1 k,
    next_byte p2 k,
    λ (e : memcmp (p1 + 1) (p2 + 1) n m ≡ true). memcmp_sound (p1 + 1) (p2 + 1) n e k (omega arith),
  )

  memcmp_complete :
      (p1 p2 bytes : ℕ)
      → ((k : ℕ) → k < bytes → m (p1 + k) ≡ m (p2 + k))
      → memcmp p1 p2 bytes m ≡ true
  unfolding memcmp
  memcmp_complete p1 p2 zero h = refl
  memcmp_complete p1 p2 (suc n) h =
      let rest : memcmp (p1 + 1) (p2 + 1) n m ≡ true =
        memcmp_complete (p1 + 1) (p2 + 1) n
          (λ k lt. next_byte p1 k ∙ h (suc k) (omega arith) ∙ sym (next_byte p2 k)) in
      let same : m p1 ≡ m p2 = sym (first_byte p1) ∙ h 0 (omega arith) ∙ first_byte p2 in
      ground (arith, rest, same)

-- `memcmp` is true exactly if the bytes at the two addresses agree one by one.
pub memcmp_iff :
    (p1 p2 bytes : ℕ) (m : Memory)
    → (memcmp p1 p2 bytes m ≡ true) ↔ ((k : ℕ) → k < bytes → m (p1 + k) ≡ m (p2 + k))
memcmp_iff p1 p2 bytes m = (memcmp_sound m p1 p2 bytes, memcmp_complete m p1 p2 bytes)

strlen_loop_lem :
    (n fuel i p : ℕ) (m : Memory)
    → m (p + i + n) ≡ 0
    → ((k : ℕ) → k < n → m (p + i + k) ≢ 0)
    → n < fuel
    → i + n < 2 ^ 32
    → strlen_loop fuel i p m ≡ some (i + n)
unfolding strlen_loop
strlen_loop_lem n zero i p m e ne h w = elim h [ ]
strlen_loop_lem zero (suc fuel) i p m e ne h w =
    let here : m (p + i) ≡ 0 = ap m (omega arith) ∙ e in ground (arith, here)
strlen_loop_lem (suc n) (suc fuel) i p m e ne h w =
    let here : m (p + i) ≢ 0 = λ z. ne 0 (omega arith) (ap m (omega arith) ∙ z) in
    let next : (i + 1) % 2 ^ 32 ≡ i + 1 = omega arith in
    let rest =
      strlen_loop_lem n fuel (i + 1) p m (ap m (omega arith) ∙ e)
        (λ k lt z. ne (suc k) (omega arith) (ap m (omega arith) ∙ z)) (omega arith) (omega arith) in
    ground (arith, here, next, rest)

-- If the byte `n` behind the address is zero, the bytes before it are not, and `n` is less than 2
-- ^ 32, `strlen` returns `n`.
pub strlen_lem :
    (n p : ℕ) (m : Memory)
    → m (p + n) ≡ 0
    → ((k : ℕ) → k < n → m (p + k) ≢ 0)
    → n < 2 ^ 32
    → strlen p m ≡ some n
unfolding strlen
strlen_lem n p m e ne w =
    strlen_loop_lem n (2 ^ 32) 0 p m (ap m (omega arith) ∙ e)
      (λ k lt z. ne k lt (ap m (omega arith) ∙ z)) w (omega arith)
    ∙ ap some (omega arith)
