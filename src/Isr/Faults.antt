-- ===== src/Isr/Faults.antt =====
-- `exception_handler`: what each exception leaves on the screen and on the serial port.
use mathlib.Core.List.{map}
use titanix.Base.{
  ℕ, ◌+◌, ◌/◌, ◌%◌, ◌^◌, ◌<◌, ◌≡◌, ◌≢◌, refl, ◌∙◌, ap, true, false, some, List, [], ◌∷◌, ◌++◌, ◌==◌,
  arith, inl, inr, Bool-cases, u8, codes,
}
use titanix.Memory.{Memory}
use titanix.Numbers.Digits.{AllBelow, value}
use titanix.Monitor.{Monitor, monitor_put, monitor_write}
use titanix.Monitor.Print.{put_all, monitor_put_hex, monitor_put_dec, hex_char}
use titanix.Monitor.Print.Digits.{monitor_put_hex-Filled}
use titanix.Monitor.Print.Whole.{
  monitor_write-all, put_all-append, put_all-snoc, put_all-then, put_all-one, monitor_put_dec-bit,
}
use titanix.Console.{error}
use titanix.Console.Report.{HexLine, error_line, error-hex}
use native.Mathlib.Nat.{mod-lt}
use titanix.Isr.{
  Cpu, IsrFrame, exception_labels, label_at, cli_hlt, on_screen, present_bit, write_bit,
  reserved_bit, page_fault_screen, analyze_page_fault, analyze_double_fault,
  analyze_general_protection, analyze_division_by_zero, analyze_software_interrupt,
  exception_handler,
}
use titanix.Isr.Screen.{bit, bits_lem, tag, Label, label_at-Label}

-- Every exception but a page fault leaves its label, and the start of a new line.
abbrev pub stopped : (text : List ℕ) → Cpu → Cpu
stopped text c = record { monitor = put_all text c.monitor; serial = c.serial; halted = true }

printed_line :
    (l : List ℕ) (v : ℕ) (m : Monitor)
    → Label v l
    → monitor_put 10 (monitor_write l m) ≡ put_all (l ++ 10 ∷ []) m
printed_line l v m h = ap (monitor_put 10) (monitor_write-all l m h.whole) ∙ put_all-snoc l 10 m

other_runs :
    (cr2 text : ℕ) (memory : Memory) (frame : IsrFrame) (c : Cpu) (l : List ℕ)
    → frame.basic_frame.vector ≢ 0x0e
    → label_at exception_labels frame.basic_frame.vector ≡ some l
    → exception_handler cr2 text memory frame c
      ≡ some (cli_hlt (on_screen (λ m. monitor_put 10 (monitor_write l m)) c))
unfolding exception_handler analyze_double_fault analyze_general_protection analyze_division_by_zero
    analyze_software_interrupt
other_runs cr2 text memory frame c l ne e =
    let z : (frame.basic_frame.vector == 0x0e) ≡ false = ground arith in
    elim (Bool-cases (frame.basic_frame.vector == 0x08)) [
      | inl a ↦ simp (z, a, e)
      | inr a ↦ elim (Bool-cases (frame.basic_frame.vector == 0x0d)) [
        | inl b ↦ simp (z, a, b, e)
        | inr b ↦ elim (Bool-cases (frame.basic_frame.vector == 0x00)) [
          | inl d ↦ simp (z, a, b, d, e)
          | inr d ↦ simp (z, a, b, d, e)
        ]
      ]
    ]

-- On an exception below 32 other than a page fault, `exception_handler` halts, with nothing
-- written to the serial port. It has printed the label of the vector and a new line; the label
-- starts with the vector in two hexadecimal digits.
pub exception_handler-other :
    (cr2 text : ℕ) (memory : Memory) (frame : IsrFrame) (c : Cpu)
    → frame.basic_frame.vector < 32
    → frame.basic_frame.vector ≢ 0x0e
    → (name : List ℕ) × (exception_handler cr2 text memory frame c
        ≡ some (stopped (tag frame.basic_frame.vector ++ name ++ 10 ∷ []) c))
      × (label_at exception_labels frame.basic_frame.vector
          ≡ some (tag frame.basic_frame.vector ++ name))
unfolding cli_hlt
exception_handler-other cr2 text memory frame c h ne =
    let v = frame.basic_frame.vector in
    let (l, e, r) = label_at-Label v (omega arith) in
    (
      r.name,
      other_runs cr2 text memory frame c l ne e
          ∙ ap (λ (m : Monitor). some (record { monitor = m; serial = c.serial; halted = true }))
              (printed_line l v c.monitor r
                ∙ ap (λ (t : List ℕ). put_all (t ++ 10 ∷ []) c.monitor) r.tagged),
      e ∙ ap some r.tagged,
    )

-- The three bits of an error code, as they are printed.
abbrev pub bits_text : ℕ → List ℕ
bits_text err =
    (10 ∷ 10 ∷ codes "present-bit = ")
    ++ ((b'0' + bit 0 err)
        ∷ 10
        ∷ (codes "write-bit = "
            ++ ((b'0' + bit 1 err) ∷ 10 ∷ (codes "reserved-bit = " ++ (b'0' + bit 2 err) ∷ []))))

bit-prints :
    (b k err : ℕ)
    → b ≡ bit k err
    → (m : Monitor) → monitor_put_dec b m ≡ put_all ((b'0' + bit k err) ∷ []) m
bit-prints b k err e m =
    ap (λ (x : ℕ). monitor_put_dec x m) e
    ∙ monitor_put_dec-bit (bit k err) m (mod-lt (err / 2 ^ k) (omega arith))

page_fault_screen-text :
    (l : List ℕ) (a err : ℕ) (m : Monitor)
    → page_fault_screen l a err m ≡ put_all (bits_text err) (monitor_put_hex a (monitor_write l m))
unfolding page_fault_screen
page_fault_screen-text l a err m =
    let m2 = monitor_put_hex a (monitor_write l m) in
    let (p, w, r) = bits_lem err in
    let e3 = put_all-one 10 m2 in
    let e4 =
      put_all-then _ _ (monitor_write (10 ∷ codes "present-bit = ")) m2 _
        (λ k. monitor_write-all _ k refl) e3 in
    let e5 =
      put_all-then _ _ (monitor_put_dec (present_bit (u8 err))) m2 _ (bit-prints _ 0 err p) e4 in
    let e6 =
      put_all-then _ _ (monitor_write (10 ∷ codes "write-bit = ")) m2 _
        (λ k. monitor_write-all _ k refl) e5 in
    let e7 =
      put_all-then _ _ (monitor_put_dec (write_bit (u8 err))) m2 _ (bit-prints _ 1 err w) e6 in
    let e8 =
      put_all-then _ _ (monitor_write (10 ∷ codes "reserved-bit = ")) m2 _
        (λ k. monitor_write-all _ k refl) e7 in
    put_all-then _ _ (monitor_put_dec (reserved_bit (u8 err))) m2 _ (bit-prints _ 2 err r) e8

abbrev page_fault : List ℕ
page_fault = codes "[0x0E] Page Fault "

page_runs :
    (cr2 text : ℕ) (memory : Memory) (frame : IsrFrame) (c : Cpu) (line : List ℕ)
    → frame.basic_frame.vector ≡ 0x0e
    → error text (cr2 ∷ []) memory ≡ some (line, true)
    → exception_handler cr2 text memory frame c
      ≡ some (record {
        monitor = page_fault_screen page_fault cr2 frame.basic_frame.error_code c.monitor;
        serial = c.serial ++ line;
        halted = true;
      })
unfolding exception_handler analyze_page_fault cli_hlt exception_labels label_at
page_runs cr2 text memory frame c line e writes =
    let z : (frame.basic_frame.vector == 0x0e) ≡ true = ground arith in
    let l : label_at exception_labels frame.basic_frame.vector ≡ some page_fault =
      ap (label_at exception_labels) e in
    simp (z, l, writes)

-- The whole text of a page fault, by the digits of its address.
page_screen :
    (cr2 err : ℕ) (hs : List ℕ) (m : Monitor)
    → monitor_put_hex cr2 (monitor_write page_fault m)
      ≡ put_all (map hex_char hs) (monitor_write (codes "0x") (monitor_write page_fault m))
    → page_fault_screen page_fault cr2 err m
      ≡ put_all (page_fault ++ (codes "0x" ++ (map hex_char hs ++ bits_text err))) m
page_screen cr2 err hs m prints =
    let m1 = monitor_write page_fault m in
    page_fault_screen-text page_fault cr2 err m
    ∙ ap (put_all (bits_text err))
        (prints ∙ ap (put_all (map hex_char hs)) (monitor_write-all (codes "0x") m1 refl))
    ∙ ap (put_all (bits_text err)) (put_all-append (codes "0x") (map hex_char hs) m1)
    ∙ put_all-append (codes "0x" ++ map hex_char hs) (bits_text err) m1
    ∙ ap (put_all (codes "0x" ++ (map hex_char hs ++ bits_text err)))
        (monitor_write-all page_fault m refl)
    ∙ put_all-append page_fault _ m

-- On a page fault at a 64-bit address, with the format "%x\n" in memory, `exception_handler`
-- halts. The screen shows the label, the hexadecimal digits of the low 32 bits of the address,
-- none at all if these are 0 and the address is not, and the bits 0, 1 and 2 of the error code;
-- the serial port gets a line with the digits of the whole address.
pub exception_handler-page :
    (cr2 text : ℕ) (memory : Memory) (frame : IsrFrame) (c : Cpu)
    → frame.basic_frame.vector ≡ 0x0e
    → HexLine text memory
    → cr2 < 2 ^ 64
    → (hs ds : List ℕ) × (exception_handler cr2 text memory frame c
        ≡ some (record {
          monitor =
              put_all
                (codes "[0x0E] Page Fault "
                  ++ (codes "0x" ++ (map hex_char hs ++ bits_text frame.basic_frame.error_code)))
                c.monitor;
          serial = c.serial ++ error_line ds;
          halted = true;
        }))
      × AllBelow 16 hs
      × (value 16 hs ≡ cr2 % 2 ^ 32)
      × (cr2 ≢ 0 → cr2 % 2 ^ 32 ≡ 0 → hs ≡ [])
      × AllBelow 16 ds
      × (value 16 ds ≡ cr2)
exception_handler-page cr2 text memory frame c e h w =
    let (ds, writes, below, stands) = error-hex text memory h cr2 w in
    let (hs, prints, below', stands', few, gone) =
      monitor_put_hex-Filled cr2 (monitor_write page_fault c.monitor) w in
    let err = frame.basic_frame.error_code in
    (
      hs,
      ds,
      page_runs cr2 text memory frame c (error_line ds) e writes
          ∙ ap
              (λ (m : Monitor).
                some (record { monitor = m; serial = c.serial ++ error_line ds; halted = true }))
              (page_screen cr2 err hs c.monitor prints),
      below',
      stands',
      gone,
      below,
      stands,
    )
