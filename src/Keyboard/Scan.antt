-- ===== src/Keyboard/Scan.antt =====
-- src/drivers/ps2_keyboard.c: reading a scan code byte by byte.
use mathlib.Core.Path.{subst}
use mathlib.Core.Bool.{true≢false}
use titanix.Ports.{Ports}
use titanix.Base.{
  ℕ, zero, suc, ◌+◌, ◌≤◌, ◌<◌, ◌≡◌, refl, ◌∙◌, ap, sym, true, false, ◌==◌, arith, Bool-cases, inl,
  inr,
}
use titanix.Keyboard.{
  Keyboard, Buffer, set_byte, next_byte_check, is_valid_keyboard, get_loop,
  ps2_keyboard_get_scancode,
}

next_byte_check-beyond : (b : Buffer) (n : ℕ) → 8 ≤ n → next_byte_check b n ≡ false
unfolding next_byte_check
next_byte_check-beyond b n h =
    let e1 : (n == 1) ≡ false = ground arith in
    let e2 : (n == 2) ≡ false = ground arith in
    let e3 : (n == 3) ≡ false = ground arith in
    let e4 : (n == 4) ≡ false = ground arith in
    let e5 : (n == 5) ≡ false = ground arith in
    let e6 : (n == 6) ≡ false = ground arith in
    let e7 : (n == 7) ≡ false = ground arith in rw (e1, e2, e3, e4, e5, e6, e7)

-- The check reads the first `j` bytes only.
next_byte_check-below :
    (b b' : Buffer) (j : ℕ)
    → ((i : ℕ) → i < j → b i ≡ b' i)
    → next_byte_check b j ≡ next_byte_check b' j
unfolding next_byte_check
next_byte_check-below b b' zero h = refl
next_byte_check-below b b' (suc zero) h = rw (h 0 (omega arith))
next_byte_check-below b b' (suc (suc zero)) h = rw (h 0 (omega arith), h 1 (omega arith))
next_byte_check-below b b' (suc (suc (suc zero))) h = rw (h 2 (omega arith))
next_byte_check-below b b' (suc (suc (suc (suc zero)))) h = rw (h 3 (omega arith))
next_byte_check-below b b' (suc (suc (suc (suc (suc zero))))) h = rw (h 4 (omega arith))
next_byte_check-below b b' (suc (suc (suc (suc (suc (suc zero)))))) h = rw (h 5 (omega arith))
next_byte_check-below b b' (suc (suc (suc (suc (suc (suc (suc zero))))))) h = rw (h 6 (omega arith))
next_byte_check-below b b' (suc (suc (suc (suc (suc (suc (suc (suc j)))))))) h =
    next_byte_check-beyond b (suc (suc (suc (suc (suc (suc (suc (suc j)))))))) (omega arith)
    ∙ sym
        (next_byte_check-beyond b' (suc (suc (suc (suc (suc (suc (suc (suc j)))))))) (omega arith))

module _ (P : Ports) where
  -- The buffer after one more byte.
  next_buffer : ℕ → Buffer → P.State → Buffer
  next_buffer bytes b s = set_byte bytes (P.inb 0x60 s).0 b

  get_loop-stop :
      (n bytes : ℕ) (b : Buffer) (s : P.State)
      → next_byte_check (next_buffer bytes b s) (bytes + 1) ≡ false
      → get_loop P (suc n) bytes b s ≡ (bytes + 1, next_buffer bytes b s, (P.inb 0x60 s).1)
  unfolding get_loop next_buffer
  get_loop-stop n bytes b s h = rw h

  get_loop-go :
      (n bytes : ℕ) (b : Buffer) (s : P.State)
      → next_byte_check (next_buffer bytes b s) (bytes + 1) ≡ true
      → get_loop P (suc n) bytes b s
        ≡ get_loop P n (bytes + 1) (next_buffer bytes b s) (P.inb 0x60 s).1
  unfolding get_loop next_buffer
  get_loop-go n bytes b s h = rw h

  next_buffer-below :
      (bytes : ℕ) (b : Buffer) (s : P.State) (i : ℕ) → i < bytes → next_buffer bytes b s i ≡ b i
  unfolding next_buffer
  next_buffer-below bytes b s i h = ground arith

  -- What the loop read is a whole scan code, none of whose beginnings is.
  record Whole (bytes : ℕ) (b : Buffer) (r : ℕ × Buffer × P.State) : Type 0 where
    some_bytes : bytes < r.0
    at_most : r.0 ≤ 8
    whole : next_byte_check r.1 r.0 ≡ false
    opened : (j : ℕ) → bytes < j → j < r.0 → next_byte_check r.1 j ≡ true
    kept : (i : ℕ) → i < bytes → r.1 i ≡ b i

  -- One byte more.
  Whole-more :
      (bytes : ℕ) (b : Buffer) (s : P.State) (r : ℕ × Buffer × P.State)
      → next_byte_check (next_buffer bytes b s) (bytes + 1) ≡ true
      → Whole (bytes + 1) (next_buffer bytes b s) r
      → Whole bytes b r
  Whole-more bytes b s r h w =
      let open1 : next_byte_check r.1 (bytes + 1) ≡ true =
        next_byte_check-below r.1 (next_buffer bytes b s) (bytes + 1) w.kept ∙ h in
      let p = w.some_bytes in
      record {
        some_bytes = omega arith;
        at_most = w.at_most;
        whole = w.whole;
        opened = λ j q q'. elim (Bool-cases (j == bytes + 1)) [
          | inl e ↦ ap (next_byte_check r.1) (ground arith) ∙ open1
          | inr e ↦ w.opened j (ground arith) q'
        ];
        kept = λ i q. w.kept i (omega arith) ∙ next_buffer-below bytes b s i q;
      }

  Whole-round :
      (n bytes : ℕ) (b : Buffer) (s : P.State)
      → bytes < 8
      → (next_byte_check (next_buffer bytes b s) (bytes + 1) ≡ true
          → Whole bytes b (get_loop P n (bytes + 1) (next_buffer bytes b s) (P.inb 0x60 s).1))
      → Whole bytes b (get_loop P (suc n) bytes b s)
  Whole-round n bytes b s e rest =
      elim (Bool-cases (next_byte_check (next_buffer bytes b s) (bytes + 1))) [
        | inr h ↦ subst (Whole bytes b) (sym (get_loop-stop n bytes b s h)) (record {
          some_bytes = omega arith;
          at_most = omega arith;
          whole = h;
          opened = λ j p q. absurd (omega arith);
          kept = next_buffer-below bytes b s;
        })
        | inl h ↦ subst (Whole bytes b) (sym (get_loop-go n bytes b s h)) (rest h)
      ]

  get_loop-Whole :
      (n bytes : ℕ) (b : Buffer) (s : P.State)
      → suc n + bytes ≡ 8
      → Whole bytes b (get_loop P (suc n) bytes b s)
  get_loop-Whole zero bytes b s e = Whole-round zero bytes b s (omega arith) (λ h.
      let last = next_byte_check-beyond (next_buffer bytes b s) (bytes + 1) (omega arith) in
      absurd (true≢false (sym h ∙ last)))
  get_loop-Whole (suc n) bytes b s e =
      let b' = next_buffer bytes b s in
      let s' = (P.inb 0x60 s).1 in
      Whole-round (suc n) bytes b s (omega arith) (λ h.
        Whole-more bytes b s (get_loop P (suc n) (bytes + 1) b' s') h
          (get_loop-Whole n (bytes + 1) b' s' (omega arith)))

  when_valid :
      (k : Keyboard) (b : Buffer) (s : P.State)
      → is_valid_keyboard k ≡ true
      → ps2_keyboard_get_scancode P k b s ≡ get_loop P 8 0 b s
  unfolding ps2_keyboard_get_scancode
  when_valid k b s v = rw v

  -- For a valid keyboard, the count that `ps2_keyboard_get_scancode` returns is from 1 to 8,
  -- `next_byte_check` asks for no more bytes at it, and asks for more at every smaller count above
  -- zero.
  pub ps2_keyboard_get_scancode_lem :
      (k : Keyboard) (b : Buffer) (s : P.State)
      → is_valid_keyboard k ≡ true
      → let r = ps2_keyboard_get_scancode P k b s in
        (0 < r.0)
        × (r.0 ≤ 8)
        × (next_byte_check r.1 r.0 ≡ false)
        × ((j : ℕ) → 0 < j → j < r.0 → next_byte_check r.1 j ≡ true)
  ps2_keyboard_get_scancode_lem k b s v =
      let w = subst (Whole 0 b) (sym (when_valid k b s v)) (get_loop-Whole 7 0 b s refl) in
      (w.some_bytes, w.at_most, w.whole, w.opened)
