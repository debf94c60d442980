-- ===== src/App/Address/Printed.antt =====
-- What the commands read from an address of a host, a colon and a port.
use mathlib.Core.List.{foldl}
use cisc468_python.Base.{
  ℕ, zero, suc, ◌+◌, ◌-◌, ◌*◌, Str, codes, starts_with, if◌then◌else◌, ◌==◌, Bool, true, false, [],
  ◌∷◌, ◌++◌, Option, none, some, All, ◌≡◌, refl, ap, ◌∙◌, arith,
}
use cisc468_python.Json.Dumps.{show_nat}
use cisc468_python.Json.Lexer.{decimal}
use cisc468_python.Json.Lexer.Numbers.{
  AllDigits, show_nat-AllDigits, decimal-show_nat, leads, show_nat-leads,
}
use cisc468_python.App.Address.{
  rsplit_colon, strip_front, shorter, strip_back, strip, is_bracket, is_blank, int_digits, port_of,
  parse_port, with_port, parse_address, parse_new_address,
}

abbrev NoColon : Str → Type 0
NoColon s = All (λ c. (c == b':') ≡ false) s

rsplit_none : (s : Str) → NoColon s → rsplit_colon s ≡ none
unfolding rsplit_colon
rsplit_none [] h = refl
rsplit_none (c ∷ s) (hc, h) = rw (rsplit_none s h, hc) refl

-- The last colon is the one before a text that has none.
rsplit_last :
    (host port : Str) → NoColon port → rsplit_colon (host ++ b':' ∷ port) ≡ some (host, port)
unfolding rsplit_colon
rsplit_last [] port h = rw (rsplit_none port h) refl
rsplit_last (c ∷ host) port h = rw (rsplit_last host port h) refl

-- A text of which no character is stripped.
module _ (p : ℕ → Bool) where
  abbrev KeepsAll : Str → Type 0
  KeepsAll s = All (λ c. p c ≡ false) s

  strip_front_none : (s : Str) → KeepsAll s → strip_front p s ≡ s
  unfolding strip_front
  strip_front_none [] h = refl
  strip_front_none (c ∷ s) (hc, h) = rw hc refl

  shorter_none : (c : ℕ) (s : Str) → p c ≡ false → shorter p c s ≡ c ∷ s
  unfolding shorter
  shorter_none c [] h = rw h refl
  shorter_none c (d ∷ s) h = refl

  -- What is stripped at the end, behind a text that stays.
  strip_back_last : (s : Str) (c : ℕ) → KeepsAll s → p c ≡ true → strip_back p (s ++ c ∷ []) ≡ s
  unfolding strip_back
  strip_back_last [] c h hc = unfold shorter in rw hc refl
  strip_back_last (d ∷ s) c (hd, h) hc = rw (strip_back_last s c h hc) (shorter_none d s hd)

  strip_back_none : (s : Str) → KeepsAll s → strip_back p s ≡ s
  unfolding strip_back
  strip_back_none [] h = refl
  strip_back_none (c ∷ s) (hc, h) = rw (strip_back_none s h) (shorter_none c s hc)

  strip_none : (s : Str) → KeepsAll s → strip p s ≡ s
  unfolding strip
  strip_none s h = rw (strip_front_none s h) (strip_back_none s h)

int_digits_all :
    (s : Str) (acc : ℕ) (ready : Bool) (d : ℕ)
    → AllDigits (d ∷ s)
    → int_digits acc ready (d ∷ s) ≡ some (foldl (λ n c. n * 10 + (c - 48)) acc (d ∷ s))
unfolding int_digits
int_digits_all [] acc ready d (hd, h) = rw hd refl
int_digits_all (e ∷ s) acc ready d (hd, h) =
    let more = int_digits_all s (acc * 10 + (d - 48)) true e h in rw hd (unfold int_digits in more)

digits-NoColon : (s : Str) → AllDigits s → NoColon s
digits-NoColon [] h = tt
digits-NoColon (d ∷ s) (hd, h) = (ground arith, digits-NoColon s h)

digits_stay : (s : Str) → AllDigits s → KeepsAll is_blank s
digits_stay [] h = tt
digits_stay (d ∷ s) (hd, h) = (ground arith, digits_stay s h)

port_of_digits : (s : Str) → leads s ≡ true → AllDigits s → port_of s ≡ some (decimal s)
unfolding port_of decimal
port_of_digits [] l h = absurd (cc)
port_of_digits (d ∷ s) l (hd, h) =
    let unsigned : (d == b'+') ≡ false = ground arith in
    rw unsigned (int_digits_all s 0 false d (hd, h))

port_of-show_nat : (n : ℕ) → port_of (show_nat n) ≡ some n
port_of-show_nat zero = unfold port_of show_nat in refl
port_of-show_nat (suc n) =
    port_of_digits (show_nat (suc n)) (show_nat-leads (suc n) (omega arith))
      (show_nat-AllDigits (suc n))
    ∙ ap some (decimal-show_nat (suc n))

parse_port-show_nat : (n : ℕ) → parse_port (show_nat n) ≡ some n
unfolding parse_port
parse_port-show_nat n =
    ap port_of (strip_none is_blank (show_nat n) (digits_stay (show_nat n) (show_nat-AllDigits n)))
    ∙ port_of-show_nat n

with_port-show_nat :
    (change : Str → Str) (host : Str) (port : ℕ)
    → with_port change (rsplit_colon (host ++ b':' ∷ show_nat port)) ≡ some (change host, port)
unfolding with_port
with_port-show_nat change host port =
    ap (with_port change)
      (rsplit_last host (show_nat port) (digits-NoColon (show_nat port) (show_nat-AllDigits port)))
    ∙ chosen (parse_port (show_nat port)) (parse_port-show_nat port)
  where
    chosen :
        (o : Option ℕ)
        → o ≡ some port
        → ◌≡◌ {A = Option (Str × ℕ)}
            (elim o [ none ↦ none | some k ↦ some (change host, k) ])
            (some (change host, port))
    chosen none e = cc
    chosen (some k) e = cc

-- An address that is written as a host, a colon and a port is read as these two by list-files and
-- request-file, whatever the host is, and by add-contact too if it does not start with a bracket.
pub parse_address-show_nat :
    (host : Str) (port : ℕ)
    → let target = host ++ b':' ∷ show_nat port in
      (parse_address target ≡ some (host, port))
      × (parse_new_address target ≡ (
          if starts_with target (codes "[")
          then some (strip is_bracket host, port)
          else some (host, port)))
unfolding parse_address parse_new_address
parse_address-show_nat host port = (
  with_port-show_nat (λ h. h) host port,
  rw (with_port-show_nat (strip is_bracket) host port, with_port-show_nat (λ h. h) host port) refl,
)

strip_brackets :
    (inner : Str) → KeepsAll is_bracket inner → strip is_bracket (b'[' ∷ inner ++ b']' ∷ []) ≡ inner
unfolding strip
strip_brackets [] h = unfold strip_front strip_back in refl
strip_brackets (c ∷ inner) (hc, h) =
    let front : strip_front is_bracket (b'[' ∷ (c ∷ inner) ++ b']' ∷ [])
        ≡ (c ∷ inner) ++ b']' ∷ [] =
      first_stays c (inner ++ b']' ∷ []) hc in
    ap (strip_back is_bracket) front ∙ strip_back_last is_bracket (c ∷ inner) b']' (hc, h) refl
  where
    first_stays :
        (c : ℕ) (s : Str) → is_bracket c ≡ false → strip_front is_bracket (b'[' ∷ c ∷ s) ≡ c ∷ s
    first_stays c s h = unfold strip_front in rw h refl

-- For an IPv6 address in brackets the commands differ: add-contact reads the host without the
-- brackets, list-files and request-file read it with them.
pub parse_bracketed :
    (inner : Str) (port : ℕ)
    → All (λ c. is_bracket c ≡ false) inner
    → let target = (b'[' ∷ inner ++ b']' ∷ []) ++ b':' ∷ show_nat port in
      (parse_new_address target ≡ some (inner, port))
      × (parse_address target ≡ some (b'[' ∷ inner ++ b']' ∷ [], port))
unfolding parse_new_address starts_with
parse_bracketed inner port h =
    let bracketed = b'[' ∷ inner ++ b']' ∷ [] in
    (
      with_port-show_nat (strip is_bracket) bracketed port
          ∙ ap (λ host. some (host, port)) (strip_brackets inner h),
      (parse_address-show_nat bracketed port).0,
    )
