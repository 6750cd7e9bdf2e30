-- ===== src/Timer/Waiting.antt =====
-- What a wait leaves of the timer.
use mathlib.Core.Path.{subst}
use titanix.Ports.{Ports}
use titanix.Base.{
  ℕ, zero, suc, ◌+◌, ◌%◌, ◌^◌, ◌<◌, ◌≤◌, ◌≡◌, refl, ◌∙◌, ap, Bool, true, false, not, Bool-cases,
  inl, inr, arith, if◌then◌else◌,
}
use titanix.Timer.{
  Timer, Machine, timer_func, activate, unmask_line, reset_tick, watch, mask_line, note_masked,
  unwatch, Interrupt, tick, other, Interrupts, done, more, Wait, reached, round, Deadline, deadline,
}

-- The timer that has seen `n` more interrupts.
abbrev pub later : ℕ → Timer → Timer
later n t = record t {
  current_tick = (t.current_tick + n) % 2 ^ 64;
  global_tick = (t.global_tick + n) % 2 ^ 64;
}

later-later : (n j : ℕ) (t : Timer) → later j (later n t) ≡ later (n + j) t
later-later n j t =
    let current : ((t.current_tick + n) % 2 ^ 64 + j) % 2 ^ 64
        ≡ (t.current_tick + (n + j)) % 2 ^ 64 =
      omega arith in
    let global : ((t.global_tick + n) % 2 ^ 64 + j) % 2 ^ 64 ≡ (t.global_tick + (n + j)) % 2 ^ 64 =
      omega arith in
    rw (current, global) refl

module _ (P : Ports) where
  timer_func-unwatched :
      (m : Machine P) → m.timer.watching ≡ false → (timer_func P m).timer ≡ m.timer
  unfolding timer_func
  timer_func-unwatched m w = simp w

  timer_func-later :
      (m : Machine P) → m.timer.watching ≡ true → (timer_func P m).timer ≡ later 1 m.timer
  unfolding timer_func
  timer_func-later m w = simp w

  -- While it is not watched, the timer stays as it is.
  Interrupts-unwatched :
      {n : ℕ} {m m' : Machine P}
      → m.timer.watching ≡ false
      → Interrupts P n m m'
      → m'.timer ≡ m.timer
  Interrupts-unwatched w done = refl
  Interrupts-unwatched {m = m} w (more tick rest) =
      let e = timer_func-unwatched m w in
      Interrupts-unwatched (ap (λ (t : Timer). t.watching) e ∙ w) rest ∙ e
  Interrupts-unwatched w (more (other e) rest) =
      Interrupts-unwatched (ap (λ (t : Timer). t.watching) e ∙ w) rest ∙ e

  module _ (t : Timer) (watched : t.watching ≡ true) where
    -- While it is, every interrupt of the timer counts.
    Interrupt-later :
        {j : ℕ} {m m' : Machine P} (n : ℕ)
        → m.timer ≡ later n t
        → Interrupt P j m m'
        → m'.timer ≡ later (n + j) t
    Interrupt-later {m = m} n h tick =
        timer_func-later m (ap (λ (t : Timer). t.watching) h ∙ watched)
        ∙ ap (later 1) h
        ∙ later-later n 1 t
    Interrupt-later n h (other e) =
        let same : n ≡ n + 0 = omega arith in e ∙ h ∙ ap (λ (x : ℕ). later x t) same

    Interrupts-later :
        {k : ℕ} {m m' : Machine P} (n : ℕ)
        → m.timer ≡ later n t
        → Interrupts P k m m'
        → m'.timer ≡ later (n + k) t
    Interrupts-later n h done =
        let same : n ≡ n + 0 = omega arith in h ∙ ap (λ (x : ℕ). later x t) same
    Interrupts-later n h (more {j} {n = k} i rest) =
        let same : n + j + k ≡ n + (j + k) = omega arith in
        Interrupts-later (n + j) (Interrupt-later n h i) rest ∙ ap (λ (x : ℕ). later x t) same

    Wait-later :
        {delay k : ℕ} {m m' : Machine P} (n : ℕ)
        → m.timer ≡ later n t
        → Wait P delay k m m'
        → (m'.timer ≡ later (n + k) t) × (delay ≤ m'.timer.current_tick)
    Wait-later n h (reached e) =
        let same : n ≡ n + 0 = omega arith in (h ∙ ap (λ (x : ℕ). later x t) same, e)
    Wait-later n h (round {k} {j} {i} {n = r} less before woken after rest) =
        let h1 = Interrupts-later n h before in
        let h2 = Interrupt-later (n + k) h1 woken in
        let h3 = Interrupts-later (n + k + j) h2 after in
        let (all, enough) = Wait-later (n + k + j + i) h3 rest in
        let same : n + k + j + i + r ≡ n + (k + (j + (i + r))) = omega arith in
        (all ∙ ap (λ (x : ℕ). later x t) same, enough)

  -- The timer of a call, at its start.
  abbrev begun : Timer → Timer
  begun t = record t { current_tick = 0; watching = true; activated = true }

  activated-timer :
      (m : Machine P)
      → (if m.timer.activated then m else activate P m).timer
        ≡ record (m.timer) { activated = true }
  unfolding activate
  activated-timer m = elim (Bool-cases m.timer.activated) [ inl e ↦ rw e refl | inr e ↦ rw e refl ]

  unmask_line-timer : (first : Bool) (m : Machine P) → (unmask_line P first m).timer ≡ m.timer
  unfolding unmask_line
  unmask_line-timer true m = refl
  unmask_line-timer false m = refl

  -- Where the timer is not watched and `global_tick` is below 2 ^ 64: a call of `pit_deadline`
  -- that returns, with interrupts between any two of its statements and between the test of the
  -- loop and the halt, has seen at least `delay` interrupts of the timer while it was watched. If
  -- these were `n`, `current_tick` is `n` and `global_tick` has grown by `n`, both modulo 2 ^ 64;
  -- the timer is then activated, noted as masked, and no longer watched.
  pub Deadline-ticks :
      (delay : ℕ) {n : ℕ} {m m' : Machine P}
      → m.timer.global_tick < 2 ^ 64
      → m.timer.watching ≡ false
      → Deadline P delay n m m'
      → (delay ≤ n)
        × (m'.timer ≡ record (m.timer) {
          current_tick = n % 2 ^ 64;
          global_tick = (m.timer.global_tick + n) % 2 ^ 64;
          watching = false;
          masked = true;
          activated = true;
        })
  unfolding reset_tick watch mask_line note_masked unwatch
  Deadline-ticks delay small w
        (deadline {a} {b} {c} {d} {n} {e} {f} {g} {m = m} {m1} {m2} {m3} {m4} {m5} {m6} {m7} {m8} ia
          ib ic id wait ie if' ig) =
      let on = λ (t : Timer). t.watching in
      let e0 = activated-timer m in
      let e1 = Interrupts-unwatched (ap on e0 ∙ w) ia ∙ e0 in
      let e1' = unmask_line-timer (not m.timer.activated) m1 ∙ e1 in
      let e2 = Interrupts-unwatched (ap on e1' ∙ w) ib ∙ e1' in
      let e2' = ap (λ (t : Timer). record t { current_tick = 0 }) e2 in
      let e3 = Interrupts-unwatched (ap on e2' ∙ w) ic ∙ e2' in
      let t0 = begun m.timer in
      let global : m.timer.global_tick ≡ (m.timer.global_tick + 0) % 2 ^ 64 = omega arith in
      let fresh : t0 ≡ later 0 t0 = ap (λ (x : ℕ). record t0 { global_tick = x }) global in
      let e3' = ap (λ (t : Timer). record t { watching = true }) e3 ∙ fresh in
      let e4 = Interrupts-later t0 refl 0 e3' id in
      let (e5, enough) = Wait-later t0 refl (0 + d) e4 wait in
      let e6 = Interrupts-later t0 refl (0 + d + n) e5 ie in
      let e7 = Interrupts-later t0 refl (0 + d + n + e) e6 if' in
      let t1 = record t0 { masked = true } in
      let e7' = ap (λ (t : Timer). record t { masked = true }) e7 in
      let e8 = Interrupts-later t1 refl (0 + d + n + e + f) e7' ig in
      let current = ap (λ (t : Timer). t.current_tick) e5 in
      let whole : 0 + d + n + e + f + g ≡ d + (n + (e + (f + g))) = omega arith in
      let from_zero : 0 + (d + (n + (e + (f + g)))) ≡ d + (n + (e + (f + g))) = omega arith in
      (
        omega arith,
        ap (λ (t : Timer). record t { watching = false }) (e8 ∙ ap (λ (x : ℕ). later x t1) whole)
            ∙ ap
                (λ (x : ℕ). record (m.timer) {
                  current_tick = x % 2 ^ 64;
                  global_tick = (m.timer.global_tick + (d + (n + (e + (f + g))))) % 2 ^ 64;
                  watching = false;
                  masked = true;
                  activated = true;
                })
                from_zero,
      )

  -- If the timer goes on to interrupt while the processor halts, the loop ends.
  pub Wait-run :
      (delay k : ℕ) (m : Machine P)
      → delay < 2 ^ 64
      → m.timer.watching ≡ true
      → m.timer.current_tick + k ≡ delay
      → (m' : Machine P) × Wait P delay k m m'
  Wait-run delay zero m small w h = (m, reached (omega arith))
  Wait-run delay (suc k) m small w h =
      let e = timer_func-later m w in
      let current = ap (λ (t : Timer). t.current_tick) e in
      let (m', rest) =
        Wait-run delay k (timer_func P m) small (ap (λ (t : Timer). t.watching) e ∙ w)
          (omega arith) in
      let same : 0 + (1 + (0 + k)) ≡ suc k = omega arith in
      (m', subst (λ (x : ℕ). Wait P delay x m m') same (round (omega arith) done tick done rest))
