-- ===== src/Keyboard/Device/Command.antt =====
-- `keyboard_send_command` on a keyboard that answers.
use titanix.Ports.{Ports}
use titanix.Base.{
  ℕ, zero, suc, ◌<◌, ◌≡◌, ◌≢◌, refl, ◌∙◌, ap, sym, Bool, true, false, some, List, ◌∷◌, ◌==◌,
  if◌then◌else◌, bit_and, arith, length, inl, inr, Bool-cases,
}
use titanix.Keyboard.Device.{
  data_port, command_port, ack, failure, resend, no_operand, ps2_wait, answer_loop, send_bytes,
  responsivity_test, keyboard_send_command,
}
use titanix.Keyboard.Device.Wire.{Wire, answer, resends, sent_for}
use titanix.Keyboard.Device.Answer.{
  Ends, goes_on, once_more, answer_loop-first, resends-stop, read_after, answer-skip, loop-other,
  resends-later,
}

module _ (P : Ports) (w : Wire P) where
  -- The polling ends, with the controller ready, on fuel above the polls that it is busy for.
  pub ps2_wait-ready :
      (f : ℕ) (s : P.State)
      → w.busy s < f
      → (s' : P.State) × (ps2_wait P f s ≡ some s')
        × (w.incoming s' ≡ w.incoming s)
        × (w.sent s' ≡ w.sent s)
        × (w.busy s' ≡ 0)
  unfolding ps2_wait
  ps2_wait-ready zero s lt = absurd (omega arith)
  ps2_wait-ready (suc f) s lt =
      let s1 = (P.inb command_port s).1 in
      let (i, t) = w.polls s in
      elim (Bool-cases (w.busy s == 0)) [
        | inl e ↦
            let (clear, ready) = w.idle s (ground arith) in
            let e1 : (bit_and (P.inb command_port s).0 0x02 == 0) ≡ true = ground arith in
            (s1, simp e1, i, t, ready)
        | inr e ↦
            let (set, fewer) = w.at_work s (ground arith) in
            let e1 : (bit_and (P.inb command_port s).0 0x02 == 0) ≡ false = ground arith in
            let (s', run, i', t', ready) = ps2_wait-ready f s1 (omega arith) in
            (s', simp (e1, run), i' ∙ i, t' ∙ t, ready)
      ]

  -- The command and its operand are sent, unless `failure` was read before.
  send_bytes-fail :
      (f command operand st : ℕ) (s : P.State)
      → st ≡ failure
      → send_bytes P f command operand st s ≡ some s
  unfolding send_bytes
  send_bytes-fail f command operand st s e =
      let e1 : (st == failure) ≡ true = ground arith in simp e1

  send_bytes-sent :
      (f command operand st : ℕ) (s : P.State)
      → st ≢ failure
      → w.limit < f
      → w.busy s ≡ 0
      → (s' : P.State) × (send_bytes P f command operand st s ≡ some s')
        × (w.incoming s' ≡ w.incoming s)
        × (w.sent s' ≡ (
            if operand == no_operand
            then (data_port, command) ∷ w.sent s
            else (data_port, operand) ∷ (data_port, command) ∷ w.sent s))
  unfolding send_bytes
  send_bytes-sent f command operand st s ne lt z =
      let e1 : (st == failure) ≡ false = ground arith in
      let s1 = P.outb data_port command s in
      let (i1, t1) = w.writes data_port command s z in
      let below = w.bounded s1 in
      let (s2, run, i2, t2, z2) = ps2_wait-ready f s1 (omega arith) in
      let (i3, t3) = w.writes data_port operand s2 z2 in
      elim (Bool-cases (operand == no_operand)) [
        | inl o ↦ (s2, simp (e1, run, o), i2 ∙ i1, rw o (t2 ∙ t1))
        | inr o ↦ (
          P.outb data_port operand s2,
          simp (e1, run, o),
          i3 ∙ i2 ∙ i1,
          rw o (t3 ∙ ap (λ (l : List (ℕ × ℕ)). (data_port, operand) ∷ l) (t2 ∙ t1)),
        )
      ]

  command-runs :
      (f command operand st : ℕ) (s s3 : P.State)
      → (P.inb data_port (P.outb data_port 0xee s)).0 ≡ 0xee
      → (P.inb data_port (P.inb data_port (P.outb data_port 0xee s)).1).0 ≡ st
      → send_bytes P f command operand st
          (P.inb data_port (P.inb data_port (P.outb data_port 0xee s)).1).1
        ≡ some s3
      → keyboard_send_command P f command operand s ≡ answer_loop P f command st 0 s3
  unfolding keyboard_send_command responsivity_test
  command-runs f command operand st s s3 e1 e2 run = simp (e1, e2, run)

  sent_for-fail :
      (command operand st : ℕ) (rest : List ℕ) (before : List (ℕ × ℕ))
      → st ≡ failure
      → sent_for command operand (st ∷ rest) before ≡ before
  unfolding sent_for
  sent_for-fail command operand st rest before e =
      let e1 : (st == failure) ≡ true = ground arith in simp e1

  sent_for-sent :
      (command operand st : ℕ) (rest : List ℕ) (before : List (ℕ × ℕ))
      → st ≢ failure
      → sent_for command operand (st ∷ rest) before
        ≡ once_more P w command (st ∷ rest) (
            if operand == no_operand
            then (data_port, command) ∷ before
            else (data_port, operand) ∷ (data_port, command) ∷ before)
  unfolding sent_for
  sent_for-sent command operand st rest before ne =
      let e1 : (st == failure) ≡ false = ground arith in simp e1

  -- A first byte that ends nothing is skipped.
  first_skipped :
      (f command operand st : ℕ) (rest : List ℕ) (s s3 : P.State) (b : Bool) (left : List ℕ)
      → keyboard_send_command P (suc f) command operand s ≡ answer_loop P (suc f) command st 0 s3
      → w.incoming s3 ≡ rest
      → answer (st ∷ rest) ≡ some (b, left)
      → length rest < suc f
      → st ≢ ack
      → st ≢ failure
      → st ≢ resend
      → Ends P w
          (keyboard_send_command P (suc f) command operand s)
          b
          left
          (once_more P w command (st ∷ rest) (w.sent s3))
  first_skipped f command operand st rest s s3 b left run i h lt na nf nr =
      let n = read_after P w s3 rest b left i (sym (answer-skip P w st rest na nf) ∙ h) in
      let s4 = (P.inb data_port s3).1 in
      let same : resends (st ∷ rest) ≡ resends ((P.inb data_port s3).0 ∷ n.behind) =
        resends-later P w st rest na nf nr ∙ ap resends n.is_rest in
      goes_on P w _ _ b left _ _ (run ∙ loop-other P w f command st s3 0 na nf (ground arith))
        (ap (λ (r : Bool). if r then (command_port, command) ∷ w.sent s4 else w.sent s4) (sym same)
          ∙ ap (once_more P w command (st ∷ rest)) n.sent)
        (answer_loop-first P w f command (P.inb data_port s3).0 n.behind s4 b left n.incoming
          n.answered (omega (arith, n.fewer)) n.ready)

  -- The byte read before the command is sent may end the command, but is no answer to it.
  pub keyboard_send_command-answer :
      (f command operand st : ℕ) (rest : List ℕ) (s : P.State) (b : Bool) (left : List ℕ)
      → w.incoming s ≡ 0xee ∷ st ∷ rest
      → answer (st ∷ rest) ≡ some (b, left)
      → st ≢ ack
      → st ≢ resend
      → length rest < f
      → w.limit < f
      → w.busy s ≡ 0
      → Ends P w
          (keyboard_send_command P f command operand s)
          b
          left
          (sent_for command operand (st ∷ rest) ((data_port, 0xee) ∷ w.sent s))
  keyboard_send_command-answer zero command operand st rest s b left i h na nr lt lt' z =
      absurd (omega arith)
  keyboard_send_command-answer (suc f) command operand st rest s b left i h na nr lt lt' z =
      let s0 = P.outb data_port 0xee s in
      let (i0, t0) = w.writes data_port 0xee s z in
      let (e1, i1, t1, z1) = w.reads s0 0xee (st ∷ rest) (i0 ∙ i) in
      let s1 = (P.inb data_port s0).1 in
      let (e2, i2, t2, z2) = w.reads s1 st rest i1 in
      let s2 = (P.inb data_port s1).1 in
      let before = (data_port, 0xee) ∷ w.sent s in
      let t3 : w.sent s2 ≡ before = t2 ∙ t1 ∙ t0 in
      elim (Bool-cases (st == failure)) [
        | inl d ↦
            let e : st ≡ failure = ground arith in
            let run =
              command-runs (suc f) command operand st s s2 e1 e2
                (send_bytes-fail (suc f) command operand st s2 e) in
            let quiet = resends-stop P w st rest (ground arith) (inr e) in
            goes_on P w _ _ b left _ _ run
              (ap (λ (r : Bool). if r then (command_port, command) ∷ w.sent s2 else w.sent s2) quiet
                ∙ t3
                ∙ sym (sent_for-fail command operand st rest before e))
              (answer_loop-first P w (suc f) command st rest s2 b left i2 h (omega arith) z2)
        | inr d ↦
            let ne : st ≢ failure = ground arith in
            let (s3, sends, i3, t4) = send_bytes-sent (suc f) command operand st s2 ne lt' z2 in
            let run = command-runs (suc f) command operand st s s3 e1 e2 sends in
            goes_on P w _ _ b left _ _ refl
              (ap (once_more P w command (st ∷ rest)) (
                  t4
                  ∙ ap
                      (λ (l : List (ℕ × ℕ)).
                        if operand == no_operand
                        then (data_port, command) ∷ l
                        else (data_port, operand) ∷ (data_port, command) ∷ l)
                      t3)
                ∙ sym (sent_for-sent command operand st rest before ne))
              (first_skipped f command operand st rest s s3 b left run (i3 ∙ i2) h lt na ne nr)
      ]
