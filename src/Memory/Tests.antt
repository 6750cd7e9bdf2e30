-- ===== src/Memory/Tests.antt =====
-- The memory functions on a short text, and the theorems at it.
use titanix.Base.{ℕ, ◌+◌, ◌<◌, ◌≡◌, ◌↔◌, refl, true, arith, ◌==◌, if◌then◌else◌}
use titanix.Memory.{Memory, memcmp, memsetw, setw_loop, store_word}
use titanix.Memory.Laws.{memcmp_iff}

-- "hi" at 100, "ho" at 200, and zeros.
abbrev text : Memory
text q =
    if q == 100
    then b'h'
    else if q == 101
    then b'i'
    else if q == 200
    then b'h'
    else if q == 201
    then b'o'
    else 0

words_low_first : (memsetw 8 0x0720 2 text).1 11 ≡ 0x07
unfolding memsetw setw_loop store_word
words_low_first = refl

memcmp_iff_example :
    (memcmp 100 200 2 text ≡ true) ↔ ((k : ℕ) → k < 2 → text (100 + k) ≡ text (200 + k))
memcmp_iff_example = memcmp_iff 100 200 2 text

text_nonzero : (k : ℕ) → k < 2 → (text (100 + k) ≡ 0) → ⊥
text_nonzero k h = ground arith
