-- ===== src/Json/Lexer/Texts.antt =====
-- What `json.dumps` prints for a text, the scanner reads as that text.
use mathlib.Core.Path.{subst}
use cisc468_python.Base.{
  ℕ, zero, suc, ◌+◌, ◌-◌, ◌/◌, ◌%◌, ◌<◌, ◌≤◌, Str, ltb, leb, ◌==◌, Bool, true, not, false, ◌&&◌,
  ◌||◌, Bool-cases, ◌⊎◌, inl, inr, List, [], ◌∷◌, ◌++◌, some, ◌≡◌, refl, ap, ◌∙◌, arith, All,
  length, length-append, append_assoc,
}
use cisc468_python.Json.Dumps.{hex_digit, unicode_escape, escape, escape_all, quote}
use cisc468_python.Json.Lexer.{
  hex_value, four_hex, joined, escaped, after_high, join_low, one_char, consed, read_text,
}

-- A code point that is no surrogate.
abbrev pub IsScalar : ℕ → Type 0
IsScalar c = (c < 55296) ⊎ ((57344 ≤ c) × (c < 1114112))

hex_value-hex_digit : (d : ℕ) → d < 16 → hex_value (hex_digit d) ≡ some d
unfolding hex_value hex_digit
hex_value-hex_digit d h = ground arith

four_hex_lem :
    (c : ℕ) (rest : Str)
    → c < 65536
    → four_hex (
        hex_digit (c / 4096 % 16)
        ∷ hex_digit (c / 256 % 16)
        ∷ hex_digit (c / 16 % 16)
        ∷ hex_digit (c % 16)
        ∷ rest)
      ≡ some (c, rest)
unfolding four_hex
four_hex_lem c rest h =
    rw
      (
        hex_value-hex_digit (c / 4096 % 16) (omega arith),
        hex_value-hex_digit (c / 256 % 16) (omega arith),
        hex_value-hex_digit (c / 16 % 16) (omega arith),
        hex_value-hex_digit (c % 16) (omega arith),
      )
      (ap (λ k. some (k, rest)) (omega arith))

one_char-unicode_escape :
    (c : ℕ) (rest : Str) → c < 65536 → one_char (unicode_escape c ++ rest) ≡ joined (c, rest)
unfolding one_char unicode_escape escaped
one_char-unicode_escape c rest h = rw (four_hex_lem c rest h) refl

joined_scalar : (c : ℕ) (rest : Str) → IsScalar c → joined (c, rest) ≡ some (c, rest)
unfolding joined
joined_scalar c rest h = ground arith

-- A character outside the first 2^16: its two surrogates join.
joined_pair :
    (c : ℕ) (rest : Str)
    → 65536 ≤ c
    → c < 1114112
    → joined (55296 + (c - 65536) / 1024, unicode_escape (56320 + (c - 65536) % 1024) ++ rest)
      ≡ some (c, rest)
unfolding joined after_high join_low unicode_escape
joined_pair c rest h k =
    rw (four_hex_lem (56320 + (c - 65536) % 1024) rest (omega arith)) (ground arith)

one_char_pair :
    (c : ℕ) (rest : Str)
    → 65536 ≤ c
    → c < 1114112
    → one_char (
        (unicode_escape (55296 + (c - 65536) / 1024) ++ unicode_escape (56320 + (c - 65536) % 1024))
        ++ rest)
      ≡ some (c, rest)
one_char_pair c rest h k =
    ap one_char (append_assoc (unicode_escape (55296 + (c - 65536) / 1024)) _ rest)
    ∙ one_char-unicode_escape (55296 + (c - 65536) / 1024) _ (omega arith)
    ∙ joined_pair c rest h k

abbrev among : List ℕ → ℕ → Bool
among [] c = false
among (k ∷ ks) c = c == k || among ks c

-- The characters that have a form of their own.
abbrev forms : List ℕ
forms = 34 ∷ 92 ∷ 10 ∷ 13 ∷ 9 ∷ 12 ∷ 8 ∷ []

among-All {ℓ} : (P : ℕ → Type ℓ) (ks : List ℕ) (c : ℕ) → All P ks → among ks c ≡ true → P c
among-All P [] c h e = cc
among-All P (k ∷ ks) c (hk, h) e = elim (Bool-cases (c == k)) [
  | inl same ↦ let path : k ≡ c = ground arith in subst P path hk
  | inr differ ↦ among-All P ks c h (ground arith)
]

one_char_form :
    (c : ℕ) (rest : Str) → among forms c ≡ true → one_char (escape c ++ rest) ≡ some (c, rest)
unfolding one_char escape escaped
one_char_form c rest h =
    among-All (λ k. one_char (escape k ++ rest) ≡ some (k, rest)) forms c
      (refl, (refl, (refl, (refl, (refl, (refl, (refl, tt))))))) h

one_char_itself :
    (c : ℕ) (rest : Str)
    → among forms c ≡ false
    → (leb 32 c && leb c 126) ≡ true
    → one_char (c ∷ rest) ≡ some (c, rest)
unfolding one_char
one_char_itself c [] h k = ground arith
one_char_itself c (e ∷ rest) h k = ground arith

escape_itself : (c : ℕ) → among forms c ≡ false → (leb 32 c && leb c 126) ≡ true → escape c ≡ c ∷ []
unfolding escape
escape_itself c h k = ground arith

escape_unicode :
    (c : ℕ)
    → among forms c ≡ false
    → (leb 32 c && leb c 126) ≡ false
    → c < 65536
    → escape c ≡ unicode_escape c
unfolding escape
escape_unicode c h k small = ground arith

escape_pair :
    (c : ℕ)
    → among forms c ≡ false
    → (leb 32 c && leb c 126) ≡ false
    → 65536 ≤ c
    → escape c
      ≡ unicode_escape (55296 + (c - 65536) / 1024) ++ unicode_escape (56320 + (c - 65536) % 1024)
unfolding escape
escape_pair c h k large = ground arith

one_char_long :
    (c : ℕ) (rest : Str)
    → IsScalar c
    → among forms c ≡ false
    → (leb 32 c && leb c 126) ≡ false
    → one_char (escape c ++ rest) ≡ some (c, rest)
one_char_long c rest scalar h k = elim (Bool-cases (ltb c 65536)) [
  | inl small ↦
      ap (λ e. one_char (e ++ rest)) (escape_unicode c h k (ground arith))
      ∙ one_char-unicode_escape c rest (ground arith)
      ∙ joined_scalar c rest scalar
  | inr large ↦
      ap (λ e. one_char (e ++ rest)) (escape_pair c h k (ground arith))
      ∙ one_char_pair c rest (ground arith) (ground arith)
]

-- A printed character is read as that character.
one_char-escape : (c : ℕ) (rest : Str) → IsScalar c → one_char (escape c ++ rest) ≡ some (c, rest)
one_char-escape c rest scalar = elim (Bool-cases (among forms c)) [
  | inl h ↦ one_char_form c rest h
  | inr h ↦ elim (Bool-cases (leb 32 c && leb c 126)) [
    | inl k ↦ ap (λ e. one_char (e ++ rest)) (escape_itself c h k) ∙ one_char_itself c rest h k
    | inr k ↦ one_char_long c rest scalar h k
  ]
]

-- A printed character does not start with a quote.
abbrev no_quote : Str → Bool
no_quote [] = false
no_quote (c ∷ s) = not (c == 34)

escape-no_quote : (c : ℕ) → no_quote (escape c) ≡ true
unfolding escape
escape-no_quote c = ground arith

read_text_step :
    (g d : ℕ) (e rest s' t u : Str)
    → no_quote e ≡ true
    → one_char (e ++ rest) ≡ some (d, s')
    → read_text g s' ≡ some (t, u)
    → read_text (suc g) (e ++ rest) ≡ some (d ∷ t, u)
unfolding read_text consed
read_text_step g d [] rest s' t u h one more = absurd (cc)
read_text_step g d (k ∷ e) rest s' t u h one more =
    let other : (k == 34) ≡ false = ground arith in rw (other, one, more) refl

length-escape : (c : ℕ) → 1 ≤ length (escape c)
length-escape c = longer (escape c) (escape-no_quote c)
  where
    longer : (e : Str) → no_quote e ≡ true → 1 ≤ length e
    longer [] h = absurd (cc)
    longer (k ∷ e) h = omega arith

length-le-escape_all : (s : Str) → length s ≤ length (escape_all s)
unfolding escape_all
length-le-escape_all [] = omega arith
length-le-escape_all (c ∷ s) =
    omega (arith, length-escape c, length-le-escape_all s, length-append (escape c) (escape_all s))

read_text-escape_all :
    (g : ℕ) (s rest : Str)
    → All IsScalar s
    → length s < g
    → read_text g (escape_all s ++ 34 ∷ rest) ≡ some (s, rest)
unfolding escape_all
read_text-escape_all zero s rest h k = absurd (omega arith)
read_text-escape_all (suc g) [] rest h k = unfold read_text in refl
read_text-escape_all (suc g) (c ∷ s) rest (hc, h) k =
    ap (read_text (suc g)) (append_assoc (escape c) (escape_all s) (34 ∷ rest))
    ∙ read_text_step g c (escape c) (escape_all s ++ 34 ∷ rest) (escape_all s ++ 34 ∷ rest) s rest
        (escape-no_quote c) (one_char-escape c (escape_all s ++ 34 ∷ rest) hc)
        (read_text-escape_all g s rest h (omega arith))

quote_parts : (s rest : Str) → quote s ++ rest ≡ 34 ∷ (escape_all s ++ 34 ∷ rest)
unfolding quote
quote_parts s rest = ap (λ t. 34 ∷ t) (append_assoc (escape_all s) (34 ∷ []) rest)

-- Behind its opening quote a printed text is read as that text, up to its closing quote.
pub read_text-quote :
    (s rest : Str)
    → All IsScalar s
    → (body : Str) × (quote s ++ rest ≡ 34 ∷ body)
      × (read_text (suc (length body)) body ≡ some (s, rest))
read_text-quote s rest h = (
  escape_all s ++ 34 ∷ rest,
  quote_parts s rest,
  read_text-escape_all (suc (length (escape_all s ++ 34 ∷ rest))) s rest h
      (omega (arith, length-append (escape_all s) (34 ∷ rest), length-le-escape_all s)),
)
