-- ===== src/Keyboard/Letters.antt =====
-- src/drivers/ps2_keyboard.c: the letter keys.
use titanix.Base.Below.{every_below, every_below_lem}
use titanix.Monitor.{Monitor}
use titanix.Base.{
  ℕ, ◌+◌, ◌<◌, ◌≡◌, refl, ◌∙◌, ap, Bool, true, false, not, ◌&&◌, ◌||◌, some, ◌==◌, if◌then◌else◌,
  get_or, arith,
}
use titanix.Keyboard.{
  Keyboard, letter_codes, letters_to_m, letters_from_n, digit_keys, mark_keys, select, key_char,
  analayze_ascii,
}

-- The scan code of the `j`-th letter.
abbrev pub letter_code : ℕ → ℕ
letter_code j = get_or letter_codes j 0

char_of : ℕ → Bool → Bool → ℕ
char_of code shift capital =
    if code == 0x5a
    then 10
    else if code == 0x29
    then 32
    else select mark_keys code shift (
        select letters_to_m code capital
          (select letters_from_n code capital (select digit_keys code shift 126)))

plain : ℕ → Bool
plain c =
    (not (c == 0x12) && not (c == 0xf012) && not (c == 0x58) && not (c == 0x7e))
    && (not (c == 0x14) && not (c == 0xf014) && not (c == 0x66))

letter_test : ℕ → Bool
letter_test j =
    let c = letter_code j in
    (plain c && (char_of c true true == 65 + j))
    && ((char_of c false true == 65 + j) && (char_of c false false == 97 + j))

letter_tests : every_below letter_test 26 ≡ true
unfolding every_below letter_test plain char_of select
letter_tests = refl

plain_lem :
    (fuel c : ℕ) (k : Keyboard) (m : Monitor)
    → plain c ≡ true
    → analayze_ascii fuel c k m ≡ some (char_of c k.shiftdown (k.shiftdown || k.capslock), k, m)
unfolding plain analayze_ascii key_char char_of
plain_lem fuel c k m h = ground arith

chars_lem :
    (j : ℕ) (shift caps : Bool)
    → letter_test j ≡ true
    → (plain (letter_code j) ≡ true)
      × (char_of (letter_code j) shift (shift || caps) ≡ (if shift || caps then 65 else 97) + j)
unfolding letter_test
chars_lem j true caps h = (ground arith, ground arith)
chars_lem j false true h = (ground arith, ground arith)
chars_lem j false false h = (ground arith, ground arith)

-- For the `j`-th letter of the alphabet, `analayze_ascii` of its scan code returns the letter,
-- upper-case when a shift key is down or caps lock is on and lower-case otherwise, and changes no
-- state.
pub analayze_ascii-letter :
    (fuel j : ℕ) (k : Keyboard) (m : Monitor)
    → j < 26
    → analayze_ascii fuel (letter_code j) k m
      ≡ some ((if k.shiftdown || k.capslock then 65 else 97) + j, k, m)
analayze_ascii-letter fuel j k m h =
    let (p, c) =
      chars_lem j k.shiftdown k.capslock (every_below_lem letter_test 26 j letter_tests h) in
    plain_lem fuel (letter_code j) k m p ∙ ap (λ (x : ℕ). some (x, k, m)) c
