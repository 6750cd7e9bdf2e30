-- ===== src/Memory.antt =====
-- src/lib/functions.c: `memcpy`, `memcmp`, `strlen`, `memset` and `memsetw` on a memory of bytes.
-- A pointer is the address of a byte. Addresses are not wrapped: an object that reaches past the end
-- of the address space is undefined in C.
pub mod Laws
mod Tests
use titanix.Base.{
  ℕ, zero, suc, ◌+◌, ◌*◌, ◌/◌, ◌%◌, ◌^◌, Bool, true, false, not, Option, none, some, ◌==◌, ltb,
  if◌then◌else◌, u8, u16,
}

abbrev pub Memory : Type 0
Memory = ℕ → ℕ

abbrev pub store : ℕ → ℕ → Memory → Memory
store a v m q = if a == q then v else m q

-- The loop of `memcpy` at index `i`, with `n` rounds left.
pub copy_loop : ℕ → ℕ → ℕ → ℕ → Memory → Memory
copy_loop zero i dest src m = m
copy_loop (suc n) i dest src m = copy_loop n (i + 1) dest src (store (dest + i) (m (src + i)) m)

-- `dest` is returned, beside the memory. The index is an `int`: with 2 ^ 31 bytes or more it
-- overflows, which is undefined in C and has no result here.
pub memcpy : ℕ → ℕ → ℕ → Memory → Option (ℕ × Memory)
memcpy dest src bytes m =
    if ltb bytes (2 ^ 31) then some (dest, copy_loop bytes 0 dest src m) else none

pub memcmp : ℕ → ℕ → ℕ → Memory → Bool
memcmp p1 p2 zero m = true
memcmp p1 p2 (suc bytes) m = if not (m p1 == m p2) then false else memcmp (p1 + 1) (p2 + 1) bytes m

-- The loop of `strlen` at index `i`; it has no bound, so it runs on fuel.
unfoldable pub strlen_loop : ℕ → ℕ → ℕ → Memory → Option ℕ
strlen_loop zero i p m = none
strlen_loop (suc fuel) i p m =
    let rest = strlen_loop fuel ((i + 1) % 2 ^ 32) p m in if m (p + i) == 0 then some i else rest

-- The index is a `uint32_t`, so the loop has seen all that it ever sees after 2 ^ 32 rounds.
unfoldable pub strlen : ℕ → Memory → Option ℕ
strlen p m = strlen_loop (2 ^ 32) 0 p m

pub set_loop : ℕ → ℕ → ℕ → ℕ → Memory → Memory
set_loop zero i p val m = m
set_loop (suc n) i p val m = set_loop n (i + 1) p val (store (p + i) (u8 val) m)

pub memset : ℕ → ℕ → ℕ → Memory → ℕ × Memory
memset p val bytes m = (p, set_loop bytes 0 p val m)

-- A word lies in memory with its low byte first.
pub store_word : ℕ → ℕ → Memory → Memory
store_word a v m = store (a + 1) (u16 v / 2 ^ 8) (store a (u8 v) m)

pub setw_loop : ℕ → ℕ → ℕ → ℕ → Memory → Memory
setw_loop zero i p val m = m
setw_loop (suc n) i p val m = setw_loop n (i + 1) p val (store_word (p + 2 * i) val m)

pub memsetw : ℕ → ℕ → ℕ → Memory → ℕ × Memory
memsetw p val words m = (p, setw_loop words 0 p val m)
