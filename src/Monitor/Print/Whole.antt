-- ===== src/Monitor/Print/Whole.antt =====
-- What is printed in parts, as one text.
use titanix.Base.{
  ℕ, zero, suc, ◌+◌, ◌<◌, ◌≡◌, refl, ◌∙◌, ap, Bool, true, false, not, ◌&&◌, List, [], ◌∷◌, ◌++◌,
  ◌==◌, arith,
}
use titanix.Monitor.{Monitor, monitor_put, monitor_write}
use titanix.Monitor.Print.{put_all, monitor_put_dec, digits_loop, dec_char}

abbrev pub no_zero : List ℕ → Bool
no_zero [] = true
no_zero (c ∷ cs) = not (c == 0) && no_zero cs

pub monitor_write-all :
    (cs : List ℕ) (m : Monitor) → no_zero cs ≡ true → monitor_write cs m ≡ put_all cs m
unfolding monitor_write put_all
monitor_write-all [] m h = refl
monitor_write-all (c ∷ cs) m h =
    let e : (c == 0) ≡ false = ground arith in
    rw (monitor_write, put_all, e) (monitor_write-all cs (monitor_put c m) (ground arith))

pub put_all-append :
    (xs ys : List ℕ) (m : Monitor) → put_all ys (put_all xs m) ≡ put_all (xs ++ ys) m
unfolding put_all
put_all-append [] ys m = refl
put_all-append (x ∷ xs) ys m = put_all-append xs ys (monitor_put x m)

pub put_all-snoc :
    (xs : List ℕ) (y : ℕ) (m : Monitor) → monitor_put y (put_all xs m) ≡ put_all (xs ++ y ∷ []) m
unfolding put_all
put_all-snoc [] y m = refl
put_all-snoc (x ∷ xs) y m = put_all-snoc xs y (monitor_put x m)

pub monitor_put_dec-bit :
    (b : ℕ) (m : Monitor) → b < 2 → monitor_put_dec b m ≡ put_all ((b'0' + b) ∷ []) m
unfolding monitor_put_dec put_all digits_loop dec_char
monitor_put_dec-bit zero m h = refl
monitor_put_dec-bit (suc zero) m h = refl
monitor_put_dec-bit (suc (suc n)) m h = absurd (omega arith)

-- One part more.
pub put_all-then :
    (s t : List ℕ) (g : Monitor → Monitor) (m m' : Monitor)
    → ((k : Monitor) → g k ≡ put_all t k)
    → m' ≡ put_all s m
    → g m' ≡ put_all (s ++ t) m
put_all-then s t g m m' h e = ap g e ∙ h (put_all s m) ∙ put_all-append s t m

pub put_all-one : (c : ℕ) (m : Monitor) → monitor_put c m ≡ put_all (c ∷ []) m
unfolding put_all
put_all-one c m = refl
