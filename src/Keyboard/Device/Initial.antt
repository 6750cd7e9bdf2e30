-- ===== src/Keyboard/Device/Initial.antt =====
-- `init_keyboard` on a keyboard that answers.
use titanix.Ports.{Ports}
use titanix.Base.{
  ℕ, ◌-◌, ◌^◌, ◌<◌, ◌≡◌, ◌≢◌, Bool, false, Option, some, List, ◌∷◌, length, bit_and, u8,
}
use titanix.Idt.{Idt}
use titanix.Keyboard.{Keyboard}
use titanix.Keyboard.Device.{data_port, command_port, ack, resend}
use titanix.Keyboard.Device.Wire.{Wire, answer, sent_for}

-- The configuration byte with the translation turned off.
abbrev pub untranslated : ℕ → ℕ
untranslated config = u8 (bit_and config (2 ^ 32 - 1 - 2 ^ 6))

-- The writes of a start.
abbrev pub set_writes : (vector config : ℕ) → List ℕ → List (ℕ × ℕ) → List (ℕ × ℕ)
set_writes vector config answers before =
    (data_port, 0x00)
    ∷ (data_port, 0xf0)
    ∷ sent_for 0xf0 2 answers (
        (data_port, 0xee)
        ∷ (data_port, untranslated config)
        ∷ (command_port, 0x60)
        ∷ (command_port, vector)
        ∷ before)

-- The keys and locks after a reset.
abbrev pub released : Keyboard → Keyboard
released k = record k {
  capslock = false;
  numlock = false;
  scrolllock = false;
  ctrldown = false;
  altdown = false;
  shiftdown = false;
  fndown = false;
}

module _ (P : Ports) (w : Wire P) where
  -- A state with these bytes to come and these writes made.
  record At (s : P.State) (incoming : List ℕ) (sent : List (ℕ × ℕ)) : Type 0 where
    coming : w.incoming s ≡ incoming
    made : w.sent s ≡ sent

  -- The controller is ready.
  abbrev IsIdle : P.State → Type 0
  IsIdle s = w.busy s ≡ 0

  abbrev Reaches : Option P.State → List ℕ → List (ℕ × ℕ) → Type 0
  Reaches o incoming sent = (s' : P.State) × (o ≡ some s') × At s' incoming sent × IsIdle s'

  -- The bytes behind an echo answer a command, and the fuel is enough for them.
  record Answers (st : ℕ) (rest : List ℕ) (b : Bool) (left : List ℕ) (f : ℕ) : Type 0 where
    answered : answer (st ∷ rest) ≡ some (b, left)
    not_ack : st ≢ ack
    not_resend : st ≢ resend
    fuel : length rest < f
    polled : w.limit < f
