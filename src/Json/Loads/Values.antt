-- ===== src/Json/Loads/Values.antt =====
-- Numbers and words are read as what `json.dumps` printed.
use cisc468_python.Base.{
  ℕ, zero, suc, ◌+◌, Str, codes, starts_with, ◌==◌, Bool, true, false, [], ◌∷◌, ◌++◌, some, ◌≡◌,
  refl, ap, ◌∙◌, arith,
}
use cisc468_python.Json.{ℤ, pos, negsuc, null, bool, int}
use cisc468_python.Json.Dumps.{show_nat, show_int}
use cisc468_python.Json.Lexer.{is_digit, decimal, fraction, exponent}
use cisc468_python.Json.Lexer.Numbers.{
  decimal-show_nat, show_nat-AllDigits, leads, show_nat-leads, no_digit, digits-append, AllDigits,
}
use cisc468_python.Json.Loads.{signed, after_digits, unsigned, read_word, read_value}
use cisc468_python.Json.Loads.Elements.{ends, starts_value, ReadsAs}

no_fraction : (rest : Str) → ends rest ≡ true → fraction rest ≡ ([], rest)
unfolding fraction
no_fraction [] h = refl
no_fraction (c ∷ []) h = refl
no_fraction (c ∷ d ∷ s) h = ground arith

no_exponent : (rest : Str) → ends rest ≡ true → exponent rest ≡ ([], rest)
unfolding exponent
no_exponent [] h = refl
no_exponent (c ∷ []) h = refl
no_exponent (c ∷ d ∷ s) h = ground arith

ends-no_digit : (rest : Str) → ends rest ≡ true → no_digit rest ≡ true
ends-no_digit [] h = refl
ends-no_digit (c ∷ s) h = ground arith

module _ (repr_float : Str → Str) where
  after_digits_int :
      (neg : Bool) (ds rest : Str)
      → ends rest ≡ true
      → after_digits repr_float neg (ds, rest) ≡ some (int (signed neg (decimal ds)), rest)
  unfolding after_digits
  after_digits_int neg ds rest h = rw (no_fraction rest h, no_exponent rest h) refl

  unsigned_long :
      (neg : Bool) (s rest : Str)
      → leads s ≡ true
      → AllDigits s
      → ends rest ≡ true
      → unsigned repr_float neg (s ++ rest) ≡ some (int (signed neg (decimal s)), rest)
  unfolding unsigned
  unsigned_long neg [] rest l a h = absurd (cc)
  unsigned_long neg (d ∷ s) rest l (hd, a) h =
      let other : (d == 48) ≡ false = ground arith in
      let read = digits-append s rest a (ends-no_digit rest h) in
      rw (other, hd, read, no_fraction rest h, no_exponent rest h) refl

  unsigned-show_nat :
      (neg : Bool) (n : ℕ) (rest : Str)
      → ends rest ≡ true
      → unsigned repr_float neg (show_nat n ++ rest) ≡ some (int (signed neg n), rest)
  unsigned-show_nat neg zero rest h =
      unfold unsigned show_nat in after_digits_int neg (48 ∷ []) rest h
  unsigned-show_nat neg (suc n) rest h =
      unsigned_long neg (show_nat (suc n)) rest (show_nat-leads (suc n) (omega arith))
        (show_nat-AllDigits (suc n)) h
      ∙ ap (λ k. some (int (signed neg k), rest)) (decimal-show_nat (suc n))

  read_word_digit :
      (c : ℕ) (s : Str)
      → is_digit c ≡ true
      → read_word repr_float c s ≡ unsigned repr_float false (c ∷ s)
  unfolding read_word starts_with
  read_word_digit c s h =
      let n : (c == b'n') ≡ false = ground arith in
      let t : (c == b't') ≡ false = ground arith in
      let f : (c == b'f') ≡ false = ground arith in
      let u : (c == b'N') ≡ false = ground arith in
      let i : (c == b'I') ≡ false = ground arith in
      let m : (c == b'-') ≡ false = ground arith in rw (n, t, f, u, i, m) refl

  read_word_minus :
      (d : ℕ) (s : Str)
      → is_digit d ≡ true
      → read_word repr_float b'-' (d ∷ s) ≡ unsigned repr_float true (d ∷ s)
  unfolding read_word starts_with
  read_word_minus d s h = let i : (d == b'I') ≡ false = ground arith in rw i refl

  abbrev head_digit : Str → Bool
  head_digit [] = false
  head_digit (d ∷ s) = is_digit d

  head_digit_of : (s : Str) → leads s ≡ true → AllDigits s → head_digit s ≡ true
  head_digit_of [] l a = cc
  head_digit_of (d ∷ s) l (hd, a) = hd

  show_nat_head : (n : ℕ) → head_digit (show_nat n) ≡ true
  show_nat_head zero = unfold show_nat in refl
  show_nat_head (suc n) =
      head_digit_of (show_nat (suc n)) (show_nat-leads (suc n) (omega arith))
        (show_nat-AllDigits (suc n))

  read_unsigned :
      (n : ℕ) (s rest : Str)
      → head_digit s ≡ true
      → read_value repr_float (suc n) (s ++ rest) ≡ unsigned repr_float false (s ++ rest)
  unfolding read_value
  read_unsigned n [] rest h = absurd (cc)
  read_unsigned n (d ∷ s) rest h =
      let q : (d == 34) ≡ false = ground arith in
      let l : (d == b'[') ≡ false = ground arith in
      let o : (d == b'{') ≡ false = ground arith in
      let word : read_word repr_float d (s ++ rest) ≡ unsigned repr_float false (d ∷ s ++ rest) =
        read_word_digit d (s ++ rest) h in
      rw (q, l, o) word

  read_negative :
      (n : ℕ) (s rest : Str)
      → head_digit s ≡ true
      → read_value repr_float (suc n) (b'-' ∷ (s ++ rest)) ≡ unsigned repr_float true (s ++ rest)
  unfolding read_value
  read_negative n [] rest h = absurd (cc)
  read_negative n (d ∷ s) rest h = read_word_minus d (s ++ rest) h

  starts_value_head : (s : Str) → head_digit s ≡ true → starts_value s ≡ true
  starts_value_head [] h = cc
  starts_value_head (d ∷ s) h = ground arith

  signed_minus : (m k : ℕ) → m ≡ suc k → signed true m ≡ negsuc k
  unfolding signed
  signed_minus zero k e = absurd (omega arith)
  signed_minus (suc m) k e = ap negsuc (omega arith)

  pub int-ReadsAs : (n : ℕ) (z : ℤ) → ReadsAs (read_value repr_float (suc n)) (show_int z) (int z)
  unfolding show_int
  int-ReadsAs n (pos k) = (
    starts_value_head (show_nat k) (show_nat_head k),
    λ rest h.
        read_unsigned n (show_nat k) rest (show_nat_head k)
        ∙ unsigned-show_nat false k rest h
        ∙ unfold signed in refl,
  )
  int-ReadsAs n (negsuc k) = (
    refl,
    λ rest h.
        read_negative n (show_nat (k + 1)) rest (show_nat_head (k + 1))
        ∙ unsigned-show_nat true (k + 1) rest h
        ∙ ap (λ i. some (int i, rest)) (signed_minus (k + 1) k (omega arith)),
  )

  pub null-ReadsAs : (n : ℕ) → ReadsAs (read_value repr_float (suc n)) (codes "null") null
  unfolding read_value starts_with
  null-ReadsAs n = (refl, λ rest h. refl)

  pub true-ReadsAs : (n : ℕ) → ReadsAs (read_value repr_float (suc n)) (codes "true") (bool true)
  unfolding read_value starts_with
  true-ReadsAs n = (refl, λ rest h. refl)

  pub false-ReadsAs : (n : ℕ) → ReadsAs (read_value repr_float (suc n)) (codes "false") (bool false)
  unfolding read_value starts_with
  false-ReadsAs n = (refl, λ rest h. refl)
