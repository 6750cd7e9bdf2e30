-- ===== src/Keyboard/Device/Wire.antt =====
-- What the commands rely on: ports behind which a keyboard answers byte by byte.
use titanix.Ports.{Ports}
use titanix.Base.{
  ℕ, ◌≤◌, ◌<◌, ◌≡◌, ◌≢◌, Bool, true, false, Option, none, some, List, [], ◌∷◌, ◌==◌, if◌then◌else◌,
  bit_and,
}
use titanix.Keyboard.Device.{data_port, command_port, ack, failure, resend, no_operand}

-- The bytes that the keyboard will answer with, and the bytes that were written and taken, with
-- their ports, the newest first. While the controller is busy with a byte that was written to it,
-- a further one may be lost, and its status says so for at most `limit` polls.
pub record Wire (P : Ports) : Type 0 where
  pub incoming : P.State → List ℕ
  pub sent : P.State → List (ℕ × ℕ)
  -- How many polls the controller will still be busy for.
  pub busy : P.State → ℕ
  pub limit : ℕ
  pub bounded : (s : P.State) → busy s ≤ limit
  -- An answer is there to be read only once the controller has passed on what was written.
  pub reads :
      (s : P.State) (v : ℕ) (rest : List ℕ)
      → incoming s ≡ v ∷ rest
      → ((P.inb data_port s).0 ≡ v)
        × (incoming (P.inb data_port s).1 ≡ rest)
        × (sent (P.inb data_port s).1 ≡ sent s)
        × (busy (P.inb data_port s).1 ≡ 0)
  pub polls :
      (s : P.State)
      → (incoming (P.inb command_port s).1 ≡ incoming s) × (sent (P.inb command_port s).1 ≡ sent s)
  pub idle :
      (s : P.State)
      → busy s ≡ 0
      → (bit_and (P.inb command_port s).0 0x02 ≡ 0) × (busy (P.inb command_port s).1 ≡ 0)
  pub at_work :
      (s : P.State)
      → busy s ≢ 0
      → (bit_and (P.inb command_port s).0 0x02 ≢ 0) × (busy (P.inb command_port s).1 < busy s)
  -- A write to the controller is taken if it is not busy.
  pub writes :
      (p v : ℕ) (s : P.State)
      → busy s ≡ 0
      → (incoming (P.outb p v s) ≡ incoming s) × (sent (P.outb p v s) ≡ (p, v) ∷ sent s)
  -- Other ports are not the controller's.
  pub elsewhere :
      (p v : ℕ) (s : P.State)
      → p ≢ data_port
      → p ≢ command_port
      → (incoming (P.outb p v s) ≡ incoming s) × (sent (P.outb p v s) ≡ (p, v) ∷ sent s)

-- How a command is answered, by the bytes from the one that is read before it is sent: whether by
-- `ack` before any `failure`, and the bytes behind that answer.
unfoldable pub answer : List ℕ → Option (Bool × List ℕ)
answer [] = none
answer (st ∷ rest) =
    let later = answer rest in
    if st == ack then some (true, rest) else if st == failure then some (false, rest) else later

-- Whether the command is sent once more: `resend` comes before the answer.
unfoldable pub resends : List ℕ → Bool
resends [] = false
resends (st ∷ rest) =
    let later = resends rest in
    if st == ack
    then false
    else if st == failure
    then false
    else if st == resend
    then true
    else later

-- The bytes sent for a command, the newest first, that is answered by `st` and `rest`.
unfoldable pub sent_for : (command operand : ℕ) → List ℕ → List (ℕ × ℕ) → List (ℕ × ℕ)
sent_for command operand [] before = before
sent_for command operand (st ∷ rest) before =
    let begun = (data_port, command) ∷ before in
    let full = if operand == no_operand then begun else (data_port, operand) ∷ begun in
    let again = if resends (st ∷ rest) then (command_port, command) ∷ full else full in
    if st == failure then before else again
