-- ===== src/Heap.antt =====
-- src/heap/heap.c and include/lib/heap.h: the kernel heap.
-- The headers lie in a store by address, so that two pointers to one header are aliases. A header
-- takes 32 bytes: three 8-byte words and a byte, padded to the alignment of the words.
pub mod Chain
pub mod Combine
pub mod Free
pub mod Split
pub mod Expand
pub mod Malloc
pub mod Grow
pub mod Init
pub mod Safety
pub mod Data
mod Tests
use titanix.Pager.{Pager}
use titanix.Base.{
  ℕ, zero, suc, ◌+◌, ◌-◌, ◌/◌, ◌%◌, ◌^◌, Bool, true, false, not, ◌&&◌, ◌||◌, Option, none, some,
  ltb, leb, ◌==◌, if◌then◌else◌, add64, sub64, mul64,
}

-- `heap_segment_header_t`
pub record Header : Type 0 where
  pub length : ℕ
  pub prev : ℕ
  pub next : ℕ
  pub free : Bool

abbrev pub header_size : ℕ
header_size = 32

abbrev pub page_size : ℕ
page_size = 0x1000

-- PAGING_PRESENT | PAGING_WRITE
abbrev pub kernel_page : ℕ
kernel_page = 3

abbrev pub Store : Type 0
Store = ℕ → Header

abbrev pub put : Store → ℕ → Header → Store
put h a v q = if a == q then v else h q

-- The state of the heap over a pager whose state is `P`.
pub record Heap (P : Type 0) : Type 0 where
  pub heap_start : ℕ
  pub heap_end : ℕ
  pub last : ℕ
  pub heap_initialized : Bool
  pub header : Store
  pub pages : P

-- The result of a call that may not return: `none` means that the fuel ran out.
abbrev pub Run : Type 0 → Type 0
Run P = Option (ℕ × Heap P)

-- How the loop of `malloc` ends: by a `return`, by its `break`, or without fuel.
pub data Found (P : Type 0) : Type 0 where
  returned : ℕ → Heap P → Found P
  exhausted : Found P
  out_of_fuel : Found P

-- The rounding of a request up to the next multiple of `unit`, as `malloc` and `expand_heap` do.
abbrev pub round_up : ℕ → ℕ → ℕ
round_up unit length = if length % unit == 0 then length else add64 (length - length % unit) unit

module _ {P : Type 0} where
  -- Assignments through a header pointer, one for each field.
  abbrev pub set_length : ℕ → ℕ → Heap P → Heap P
  set_length p v s = record s { header = put s.header p (record (s.header p) { length = v }) }

  abbrev pub set_prev : ℕ → ℕ → Heap P → Heap P
  set_prev p v s = record s { header = put s.header p (record (s.header p) { prev = v }) }

  abbrev pub set_next : ℕ → ℕ → Heap P → Heap P
  set_next p v s = record s { header = put s.header p (record (s.header p) { next = v }) }

  abbrev pub set_free : ℕ → Bool → Heap P → Heap P
  set_free p v s = record s { header = put s.header p (record (s.header p) { free = v }) }

  abbrev pub set_last : ℕ → Heap P → Heap P
  set_last v s = record s { last = v }

  -- The part of `combine_with_next` below its two early returns.
  pub absorb_next : ℕ → Heap P → Heap P
  absorb_next seg s =
      let n = (s.header seg).next in
      let s1 = if n == s.last then set_last seg s else s in
      let nn = (s1.header (s1.header seg).next).next in
      let s2 = if nn == 0 then s1 else set_prev nn seg s1 in
      let h2 = s2.header in
      let s3 =
        set_length seg (add64 (add64 (h2 seg).length (h2 (h2 seg).next).length) header_size) s2 in
      set_next seg (s3.header (s3.header seg).next).next s3

  pub combine_with_next : ℕ → Heap P → Heap P
  combine_with_next seg s =
      let n = (s.header seg).next in
      if n == 0 then s else if not (s.header n).free then s else absorb_next seg s

  pub combine_with_prev : ℕ → Heap P → Heap P
  combine_with_prev seg s =
      let p = (s.header seg).prev in
      if not (p == 0) && (s.header p).free then combine_with_next p s else s

  -- The part of `split_header` below its two early returns, with the local `length`.
  pub insert_header : ℕ → ℕ → ℕ → Heap P → ℕ × Heap P
  insert_header seg split_at length s =
      let new_header = add64 (add64 seg split_at) header_size in
      let n = (s.header seg).next in
      let s1 = if n == 0 then s else set_prev n new_header s in
      let s2 = set_next new_header (s1.header seg).next s1 in
      let s3 = set_next seg new_header s2 in
      let s4 = set_prev new_header seg s3 in
      let s5 = set_free new_header (s4.header seg).free s4 in
      let s6 = set_length new_header length s5 in
      let s7 = set_length seg split_at s6 in
      (new_header, if s7.last == seg then set_last new_header s7 else s7)

  -- `length` is a `long long`: its test against 16 is signed, so a wrapped difference fails it.
  pub split_header : ℕ → ℕ → Heap P → ℕ × Heap P
  split_header seg split_at s =
      if ltb split_at 0x10
      then (0, s)
      else (let length = sub64 (sub64 (s.header seg).length split_at) header_size in
          if ltb length 0x10 || leb (2 ^ 63) length
          then (0, s)
          else insert_header seg split_at length s)

  -- `void free(void*)`: the header stands just below the address.
  pub free : ℕ → Heap P → Heap P
  free address s =
      let seg = sub64 address header_size in
      combine_with_prev seg (combine_with_next seg (set_free seg true s))

  -- One round of the loop of `malloc` that returns: the two branches of the tests on `length`.
  pub take_segment : ℕ → ℕ → Heap P → ℕ × Heap P
  take_segment selected length s =
      let s1 =
        if ltb length (s.header selected).length then (split_header selected length s).1 else s in
      (add64 selected header_size, set_free selected false s1)

  -- The `while (TRUE)` of `malloc`, from `selected`.
  pub find_segment : ℕ → ℕ → ℕ → Heap P → Found P
  find_segment zero selected length s = out_of_fuel
  find_segment (suc fuel) selected length s =
      let hd = s.header selected in
      let rest = find_segment fuel hd.next length s in
      if hd.free && leb length hd.length
      then (let (p, s') = take_segment selected length s in returned p s')
      else if hd.next == 0
      then exhausted
      else rest

  -- The part of `expand_heap` below its loop: the header at the old end of the heap.
  pub append_header : ℕ → ℕ → Heap P → Heap P
  append_header end_header length s1 =
      let s2 = set_free end_header true s1 in
      let s3 = set_prev end_header s2.last s2 in
      let s4 = set_next s3.last end_header s3 in
      let s5 = set_last end_header s4 in
      let s6 = set_next end_header 0 s5 in
      combine_with_next end_header (set_length end_header (sub64 length header_size) s6)

module _ (pager : Pager) where
  open pager use {State, alloc_page, map_page, invlpg}

  -- The loop of `init_heap`.
  pub init_pages : ℕ → ℕ → State → State
  init_pages zero ptr w = w
  init_pages (suc i) ptr w =
      let (page, w1) = alloc_page w in
      init_pages i (add64 ptr page_size)
        (invlpg page (invlpg ptr (map_page ptr page kernel_page w1)))

  pub init_heap : ℕ → ℕ → Heap State → Heap State
  init_heap address amount_pages s =
      if s.heap_initialized
      then s
      else (let len = mul64 amount_pages page_size in
          record {
            heap_start = address;
            heap_end = add64 address len;
            last = address;
            heap_initialized = true;
            header =
                put s.header address
                  (record { length = sub64 len header_size; prev = 0; next = 0; free = true });
            pages = init_pages amount_pages address s.pages;
          })

  -- The loop of `expand_heap`.
  pub expand_pages : ℕ → Heap State → Heap State
  expand_pages zero s = s
  expand_pages (suc i) s =
      let (page, w1) = alloc_page s.pages in
      expand_pages i (record s {
        heap_end = add64 s.heap_end page_size;
        pages = map_page s.heap_end page kernel_page w1;
      })

  pub expand_heap : ℕ → Heap State → Heap State
  expand_heap requested s =
      let length = round_up page_size requested in
      append_header s.heap_end length (expand_pages (length / page_size) s)

  -- The first statement of `malloc`.
  pub ensure_heap : Heap State → Heap State
  ensure_heap s = if not s.heap_initialized then init_heap 0x10000f000 256 s else s

  -- `malloc` calls itself after each expansion: `fuel` bounds these calls. The loop visits at most
  -- one header for each byte of the heap.
  pub malloc : ℕ → ℕ → Heap State → Run State
  malloc zero requested s = none
  malloc (suc fuel) requested s =
      let s1 = ensure_heap s in
      let length = round_up 0x10 requested in
      let again = malloc fuel length (expand_heap length s1) in
      if length == 0
      then some (0, s1)
      else elim (find_segment (s1.heap_end - s1.heap_start) s1.heap_start length s1) [
        | returned p s' ↦ some (p, s')
        | exhausted ↦ again
        | out_of_fuel ↦ none
      ]
