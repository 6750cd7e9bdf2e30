-- ===== src/Keyboard/Device/Answer.antt =====
-- The loop of `keyboard_send_command` on a keyboard that answers.
use titanix.Ports.{Ports}
use titanix.Base.{
  ℕ, zero, suc, ◌<◌, ◌≡◌, ◌≢◌, ◌⊎◌, refl, ◌∙◌, ap, sym, Bool, true, false, ◌&&◌, Option, some, List,
  [], ◌∷◌, ◌==◌, if◌then◌else◌, ltb, arith, length, inl, inr, Bool-cases,
}
use titanix.Keyboard.Device.{data_port, command_port, ack, failure, resend, answer_loop}
use titanix.Keyboard.Device.Wire.{Wire, answer, resends}

module _ (P : Ports) (w : Wire P) where
  module _ (f command st : ℕ) (s : P.State) where
    loop-ack : (t : ℕ) → st ≡ ack → answer_loop P (suc f) command st t s ≡ some (true, s)
    unfolding answer_loop
    loop-ack t e = let e1 : (st == ack) ≡ true = ground arith in simp e1

    loop-failure : (t : ℕ) → st ≡ failure → answer_loop P (suc f) command st t s ≡ some (false, s)
    unfolding answer_loop
    loop-failure t e =
        let e1 : (st == ack) ≡ false = ground arith in
        let e2 : (st == failure) ≡ true = ground arith in
        let e3 : (st == resend) ≡ false = ground arith in simp (e1, e2, e3)

    loop-resend :
        st ≡ resend
        → let s1 = P.inb data_port (P.outb command_port command s) in
          answer_loop P (suc f) command st 0 s ≡ answer_loop P f command s1.0 1 s1.1
    unfolding answer_loop
    loop-resend e =
        let e1 : (st == ack) ≡ false = ground arith in
        let e2 : (st == failure) ≡ false = ground arith in
        let e3 : (st == resend) ≡ true = ground arith in simp (e1, e2, e3)

    pub loop-other :
        (t : ℕ)
        → st ≢ ack
        → st ≢ failure
        → ((st == resend) && ltb t 1) ≡ false
        → let s1 = P.inb data_port s in
          answer_loop P (suc f) command st t s ≡ answer_loop P f command s1.0 t s1.1
    unfolding answer_loop
    loop-other t a b c =
        let e1 : (st == ack) ≡ false = ground arith in
        let e2 : (st == failure) ≡ false = ground arith in simp (e1, e2, c)

  -- The loop ends with the answer and the controller ready; `after` is what was sent then.
  abbrev pub Ends : Option (Bool × P.State) → Bool → (left : List ℕ) (after : List (ℕ × ℕ)) → Type 0
  Ends o b left after =
      (s' : P.State) × (o ≡ some (b, s'))
      × (w.incoming s' ≡ left)
      × (w.sent s' ≡ after)
      × (w.busy s' ≡ 0)

  pub answer-skip :
      (st : ℕ) (rest : List ℕ) → st ≢ ack → st ≢ failure → answer (st ∷ rest) ≡ answer rest
  unfolding answer
  answer-skip st rest na nf =
      let e1 : (st == ack) ≡ false = ground arith in
      let e2 : (st == failure) ≡ false = ground arith in simp (e1, e2)

  answer-ack : (st : ℕ) (rest : List ℕ) → st ≡ ack → answer (st ∷ rest) ≡ some (true, rest)
  unfolding answer
  answer-ack st rest a = let e1 : (st == ack) ≡ true = ground arith in simp e1

  answer-failure : (st : ℕ) (rest : List ℕ) → st ≡ failure → answer (st ∷ rest) ≡ some (false, rest)
  unfolding answer
  answer-failure st rest a =
      let e1 : (st == ack) ≡ false = ground arith in
      let e2 : (st == failure) ≡ true = ground arith in simp (e1, e2)

  answer-nil : (b : Bool) (left : List ℕ) → answer [] ≡ some (b, left) → ⊥
  unfolding answer
  answer-nil b left h = cc

  -- The loop stops at an answer.
  stops :
      (o : Option (Bool × P.State)) (b' b : Bool) (s : P.State) (rest left : List ℕ)
      → o ≡ some (b', s)
      → ◌≡◌ {A = Option (Bool × List ℕ)} (some (b', rest)) (some (b, left))
      → w.incoming s ≡ rest
      → w.busy s ≡ 0
      → Ends o b left (w.sent s)
  stops o b' b s rest left run same i z =
      let eb : b' ≡ b = cc in
      let el : rest ≡ left = cc in (s, run ∙ ap (λ (x : Bool). some (x, s)) eb, i ∙ el, refl, z)

  -- The loop goes on, and from a state that reads the next byte.
  pub goes_on :
      (o o' : Option (Bool × P.State)) (b : Bool) (left : List ℕ) (after after' : List (ℕ × ℕ))
      → o ≡ o'
      → after' ≡ after
      → Ends o' b left after'
      → Ends o b left after
  goes_on o o' b left after after' same e (s', run, i, sent, z) = (s', same ∙ run, i, sent ∙ e, z)

  -- There is an answer to come, so a byte is read.
  pub record Next (s : P.State) (rest : List ℕ) (b : Bool) (left : List ℕ) : Type 0 where
    pub behind : List ℕ
    pub is_rest : rest ≡ (P.inb data_port s).0 ∷ behind
    pub fewer : length rest ≡ suc (length behind)
    pub incoming : w.incoming (P.inb data_port s).1 ≡ behind
    pub sent : w.sent (P.inb data_port s).1 ≡ w.sent s
    pub ready : w.busy (P.inb data_port s).1 ≡ 0
    pub answered : answer ((P.inb data_port s).0 ∷ behind) ≡ some (b, left)

  pub read_after :
      (s : P.State) (rest : List ℕ) (b : Bool) (left : List ℕ)
      → w.incoming s ≡ rest
      → answer rest ≡ some (b, left)
      → Next s rest b left
  read_after s [] b left i h = absurd (answer-nil b left h)
  read_after s (v ∷ rs) b left i h =
      let (ev, ei, es, ez) = w.reads s v rs i in
      record {
        behind = rs;
        is_rest = ap (λ (x : ℕ). x ∷ rs) (sym ev);
        fewer = refl;
        incoming = ei;
        sent = es;
        ready = ez;
        answered = ap (λ (x : ℕ). answer (x ∷ rs)) ev ∙ h;
      }

  -- Once the command was sent twice, it is not sent again.
  answer_loop-again :
      (f command st : ℕ) (rest : List ℕ) (s : P.State) (b : Bool) (left : List ℕ)
      → w.incoming s ≡ rest
      → answer (st ∷ rest) ≡ some (b, left)
      → length rest < f
      → w.busy s ≡ 0
      → Ends (answer_loop P f command st 1 s) b left (w.sent s)
  answer_loop-again zero command st rest s b left i h lt z = absurd (omega arith)
  answer_loop-again (suc f) command st rest s b left i h lt z = elim (Bool-cases (st == ack)) [
    | inl a ↦
        let e : st ≡ ack = ground arith in
        stops _ true b s rest left (loop-ack f command st s 1 e) (sym (answer-ack st rest e) ∙ h) i
          z
    | inr a ↦ elim (Bool-cases (st == failure)) [
      | inl d ↦
          let e : st ≡ failure = ground arith in
          stops _ false b s rest left (loop-failure f command st s 1 e)
            (sym (answer-failure st rest e) ∙ h) i z
      | inr d ↦
          let n =
            read_after s rest b left i
              (sym (answer-skip st rest (ground arith) (ground arith)) ∙ h) in
          goes_on _ _ b left _ _
            (loop-other f command st s 1 (ground arith) (ground arith) (ground arith)) n.sent
            (answer_loop-again f command (P.inb data_port s).0 n.behind (P.inb data_port s).1 b left
              n.incoming n.answered (omega (arith, n.fewer)) n.ready)
    ]
  ]

  pub resends-stop :
      (st : ℕ) (rest : List ℕ)
      → st ≢ resend
      → (st ≡ ack) ⊎ (st ≡ failure)
      → resends (st ∷ rest) ≡ false
  unfolding resends
  resends-stop st rest nr w = elim w [ inl a ↦ ground arith | inr d ↦ ground arith ]

  resends-now : (st : ℕ) (rest : List ℕ) → st ≡ resend → resends (st ∷ rest) ≡ true
  unfolding resends
  resends-now st rest r = ground arith

  pub resends-later :
      (st : ℕ) (rest : List ℕ)
      → st ≢ ack
      → st ≢ failure
      → st ≢ resend
      → resends (st ∷ rest) ≡ resends rest
  unfolding resends
  resends-later st rest na nf nr =
      let e1 : (st == ack) ≡ false = ground arith in
      let e2 : (st == failure) ≡ false = ground arith in
      let e3 : (st == resend) ≡ false = ground arith in simp (e1, e2, e3)

  -- What is sent when `resend` may still be obeyed.
  abbrev pub once_more : (command : ℕ) → List ℕ → List (ℕ × ℕ) → List (ℕ × ℕ)
  once_more command answers before =
      if resends answers then (command_port, command) ∷ before else before

  pub answer_loop-first :
      (f command st : ℕ) (rest : List ℕ) (s : P.State) (b : Bool) (left : List ℕ)
      → w.incoming s ≡ rest
      → answer (st ∷ rest) ≡ some (b, left)
      → length rest < f
      → w.busy s ≡ 0
      → Ends (answer_loop P f command st 0 s) b left (once_more command (st ∷ rest) (w.sent s))
  answer_loop-first zero command st rest s b left i h lt z = absurd (omega arith)
  answer_loop-first (suc f) command st rest s b left i h lt z = elim (Bool-cases (st == ack)) [
    | inl a ↦
        let e : st ≡ ack = ground arith in
        let quiet = resends-stop st rest (ground arith) (inl e) in
        rw quiet (
          stops _ true b s rest left (loop-ack f command st s 0 e) (sym (answer-ack st rest e) ∙ h)
            i z)
    | inr a ↦ elim (Bool-cases (st == failure)) [
      | inl d ↦
          let e : st ≡ failure = ground arith in
          let quiet = resends-stop st rest (ground arith) (inr e) in
          rw quiet (
            stops _ false b s rest left (loop-failure f command st s 0 e)
              (sym (answer-failure st rest e) ∙ h) i z)
      | inr d ↦
          let na : st ≢ ack = ground arith in
          let nf : st ≢ failure = ground arith in
          let h' = sym (answer-skip st rest na nf) ∙ h in
          elim (Bool-cases (st == resend)) [
            | inl r ↦
                let e : st ≡ resend = ground arith in
                let s1 = P.outb command_port command s in
                let (wi, ws) = w.writes command_port command s z in
                let n = read_after s1 rest b left (wi ∙ i) h' in
                rw (resends-now st rest e) (
                  goes_on _ _ b left _ _ (loop-resend f command st s e) (n.sent ∙ ws) (
                    answer_loop-again f command (P.inb data_port s1).0 n.behind
                      (P.inb data_port s1).1 b left n.incoming n.answered (omega (arith, n.fewer))
                      n.ready))
            | inr r ↦
                let nr : st ≢ resend = ground arith in
                let n = read_after s rest b left i h' in
                let same : resends (st ∷ rest) ≡ resends ((P.inb data_port s).0 ∷ n.behind) =
                  resends-later st rest na nf nr ∙ ap resends n.is_rest in
                let s1 = (P.inb data_port s).1 in
                let swap : once_more command ((P.inb data_port s).0 ∷ n.behind) (w.sent s1)
                    ≡ once_more command (st ∷ rest) (w.sent s1) =
                  ap (λ (r : Bool). if r then (command_port, command) ∷ w.sent s1 else w.sent s1)
                    (sym same) in
                let sent_swap = ap (once_more command (st ∷ rest)) n.sent in
                goes_on _ _ b left _ _ (loop-other f command st s 0 na nf (ground arith))
                  (swap ∙ sent_swap)
                  (answer_loop-first f command (P.inb data_port s).0 n.behind (P.inb data_port s).1
                    b left n.incoming n.answered (omega (arith, n.fewer)) n.ready)
          ]
    ]
  ]
