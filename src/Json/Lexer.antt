-- ===== src/Json/Lexer.antt =====
-- The tokens of a JSON text as the module `json` reads them: white space, the parts of a number, and
-- a text in quotes with its escapes.
pub mod Numbers
pub mod Texts
use mathlib.Core.List.{foldl}
use cisc468_python.Base.{
  ℕ, zero, suc, ◌+◌, ◌-◌, ◌*◌, Str, if◌then◌else◌, ltb, leb, ◌==◌, Bool, true, false, ◌&&◌, ◌||◌,
  List, [], ◌∷◌, ◌++◌, Option, none, some,
}

abbrev pub and_then {ℓ κ} : {A : Type ℓ} {B : Type κ} → Option A → (A → Option B) → Option B
and_then none f = none
and_then (some a) f = f a

abbrev pub is_space : ℕ → Bool
is_space c = c == 32 || c == 9 || c == 10 || c == 13

-- Behind the white space at the front.
unfoldable pub skip : Str → Str
skip [] = []
skip (c ∷ s) = let rest = skip s in if is_space c then rest else c ∷ s

abbrev pub is_digit : ℕ → Bool
is_digit c = leb 48 c && leb c 57

-- The digits at the front, and what is behind them.
unfoldable pub digits : Str → Str × Str
digits [] = ([], [])
digits (c ∷ s) = let (ds, rest) = digits s in if is_digit c then (c ∷ ds, rest) else ([], c ∷ s)

-- `int(ds)` for decimal digits
unfoldable pub decimal : Str → ℕ
decimal = foldl (λ n d. n * 10 + (d - 48)) 0

-- The part `.ddd` of a number, if there is one.
unfoldable pub fraction : Str → Str × Str
fraction (c ∷ d ∷ s) =
    let (ds, rest) = digits (d ∷ s) in
    if c == b'.' && is_digit d then (c ∷ ds, rest) else ([], c ∷ d ∷ s)
fraction s = ([], s)

exponent_digits : Str → Str → Str → Str × Str
exponent_digits mark (d ∷ s) all =
    let (ds, rest) = digits (d ∷ s) in if is_digit d then (mark ++ ds, rest) else ([], all)
exponent_digits mark [] all = ([], all)

-- The part `e+ddd`.
unfoldable pub exponent : Str → Str × Str
unfolding exponent_digits
exponent (c ∷ d ∷ s) =
    if c == b'e' || c == b'E'
    then (if d == b'+' || d == b'-'
        then exponent_digits (c ∷ d ∷ []) s (c ∷ d ∷ s)
        else exponent_digits (c ∷ []) (d ∷ s) (c ∷ d ∷ s))
    else ([], c ∷ d ∷ s)
exponent s = ([], s)

-- A text in quotes: one character of it, with its escapes. A high surrogate joins with the low one
-- that follows it.
unfoldable pub hex_value : ℕ → Option ℕ
hex_value c =
    if is_digit c
    then some (c - 48)
    else if leb 97 c && leb c 102
    then some (c - 87)
    else if leb 65 c && leb c 70
    then some (c - 55)
    else none

unfoldable pub four_hex : Str → Option (ℕ × Str)
unfolding hex_value
four_hex (a ∷ b ∷ c ∷ d ∷ s) = and_then (hex_value a) λ w. and_then (hex_value b) λ x.
    and_then (hex_value c)
      λ y. and_then (hex_value d) λ z. some (w * 4096 + x * 256 + y * 16 + z, s)
four_hex _ = none

unfoldable pub join_low : ℕ → Str → Option (ℕ × Str) → Option (ℕ × Str)
join_low high s none = some (high, s)
join_low high s (some (low, t)) =
    if leb 56320 low && leb low 57343
    then some (65536 + ((high - 55296) * 1024 + (low - 56320)), t)
    else some (high, s)

unfoldable pub after_high : ℕ → Str → Option (ℕ × Str)
unfolding join_low four_hex
after_high high (a ∷ b ∷ s) =
    if a == 92 && b == b'u' then join_low high (a ∷ b ∷ s) (four_hex s) else some (high, a ∷ b ∷ s)
after_high high s = some (high, s)

unfoldable pub joined : ℕ × Str → Option (ℕ × Str)
unfolding after_high
joined (c, s) = if leb 55296 c && leb c 56319 then after_high c s else some (c, s)

unfoldable pub escaped : ℕ → Str → Option (ℕ × Str)
unfolding joined four_hex
escaped e s =
    if e == 34
    then some (34, s)
    else if e == 92
    then some (92, s)
    else if e == b'/'
    then some (b'/', s)
    else if e == b'b'
    then some (8, s)
    else if e == b'f'
    then some (12, s)
    else if e == b'n'
    then some (10, s)
    else if e == b'r'
    then some (13, s)
    else if e == b't'
    then some (9, s)
    else if e == b'u'
    then and_then (four_hex s) joined
    else none

unfoldable pub one_char : Str → Option (ℕ × Str)
unfolding escaped
one_char [] = none
one_char (c ∷ []) = if c == 92 || ltb c 32 then none else some (c, [])
one_char (c ∷ e ∷ s) = if c == 92 then escaped e s else if ltb c 32 then none else some (c, e ∷ s)

unfoldable pub consed : ℕ → Str × Str → Option (Str × Str)
consed c (t, s) = some (c ∷ t, s)

-- What is behind the opening quote. Each round takes a character.
unfoldable pub read_text : ℕ → Str → Option (Str × Str)
unfolding one_char consed
read_text zero s = none
read_text (suc g) [] = none
read_text (suc g) (c ∷ s) =
    let rest = and_then (one_char (c ∷ s)) (λ (d, s'). and_then (read_text g s') (consed d)) in
    if c == 34 then some ([], s) else rest
