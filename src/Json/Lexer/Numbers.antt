-- ===== src/Json/Lexer/Numbers.antt =====
-- What `str` prints for a number, the scanner reads as that number.
use mathlib.Core.List.{foldl}
use cisc468_python.Base.{
  ℕ, zero, suc, ◌+◌, ◌-◌, ◌*◌, ◌/◌, ◌%◌, ◌<◌, Str, ltb, Bool, true, false, not, Bool-cases, inl,
  inr, [], ◌∷◌, ◌++◌, ◌≡◌, refl, ap, ◌∙◌, arith, All,
}
use cisc468_python.Json.Dumps.{show_digits, show_nat}
use cisc468_python.Json.Lexer.{is_digit, digits, decimal}

decimal_from : ℕ → Str → ℕ
decimal_from = foldl (λ n d. n * 10 + (d - 48))

decimal_from-show_digits :
    (f n : ℕ) (acc : Str) → n < f → decimal_from 0 (show_digits f n acc) ≡ decimal_from n acc
unfolding decimal_from show_digits
decimal_from-show_digits zero n acc h = absurd (omega arith)
decimal_from-show_digits (suc f) n acc h = elim (Bool-cases (ltb n 10)) [
  | inl small ↦ rw small (ap (λ k. foldl (λ m d. m * 10 + (d - 48)) k acc) (omega arith))
  | inr large ↦ rw large (
      (unfold decimal_from in
        decimal_from-show_digits f (n / 10) ((48 + n % 10) ∷ acc) (ground arith))
      ∙ ap (λ k. foldl (λ m d. m * 10 + (d - 48)) k acc) (omega arith))
]

pub decimal-show_nat : (n : ℕ) → decimal (show_nat n) ≡ n
unfolding decimal show_nat decimal_from
decimal-show_nat n = decimal_from-show_digits (suc n) n [] (omega arith)

abbrev pub AllDigits : Str → Type 0
AllDigits s = All (λ d. is_digit d ≡ true) s

show_digits-AllDigits :
    (f n : ℕ) (acc : Str) → n < f → AllDigits acc → AllDigits (show_digits f n acc)
unfolding show_digits
show_digits-AllDigits zero n acc h ha = ha
show_digits-AllDigits (suc f) n acc h ha = elim (Bool-cases (ltb n 10)) [
  | inl small ↦ rw small (ground arith, ha)
  | inr large ↦
      rw large
        (show_digits-AllDigits f (n / 10) ((48 + n % 10) ∷ acc) (ground arith) (ground arith, ha))
]

pub show_nat-AllDigits : (n : ℕ) → AllDigits (show_nat n)
unfolding show_nat
show_nat-AllDigits n = show_digits-AllDigits (suc n) n [] (omega arith) tt

-- The first character is a digit other than 0.
abbrev pub leads : Str → Bool
leads [] = false
leads (d ∷ s) = ltb 48 d

show_digits-leads : (f n : ℕ) (acc : Str) → 0 < n → n < f → leads (show_digits f n acc) ≡ true
unfolding show_digits
show_digits-leads zero n acc p h = absurd (omega arith)
show_digits-leads (suc f) n acc p h = elim (Bool-cases (ltb n 10)) [
  | inl small ↦ rw small (ground arith)
  | inr large ↦
      rw large (show_digits-leads f (n / 10) ((48 + n % 10) ∷ acc) (ground arith) (ground arith))
]

pub show_nat-leads : (n : ℕ) → 0 < n → leads (show_nat n) ≡ true
unfolding show_nat
show_nat-leads n p = show_digits-leads (suc n) n [] p (omega arith)

-- The text does not start with a digit.
abbrev pub no_digit : Str → Bool
no_digit [] = true
no_digit (c ∷ s) = not (is_digit c)

digits_stop : (rest : Str) → no_digit rest ≡ true → digits rest ≡ ([], rest)
unfolding digits
digits_stop [] h = refl
digits_stop (c ∷ s) h = ground arith

pub digits-append :
    (ds rest : Str) → AllDigits ds → no_digit rest ≡ true → digits (ds ++ rest) ≡ (ds, rest)
unfolding digits
digits-append [] rest h stop = unfold digits in digits_stop rest stop
digits-append (d ∷ ds) rest (hd, h) stop = rw (digits-append ds rest h stop, hd) refl
