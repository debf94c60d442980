-- ===== src/Json/Dumps.antt =====
-- `json.dumps` with `ensure_ascii`, its default. The result is ASCII, so its `.encode()` has the
-- same numbers.
use cisc468_python.Base.{
  ℕ, zero, suc, ◌+◌, ◌-◌, ◌/◌, ◌%◌, Str, codes, if◌then◌else◌, ltb, leb, ◌==◌, Bool, true, false,
  ◌&&◌, List, [], ◌∷◌, ◌++◌, map, ◌≡◌, refl,
}
use cisc468_python.Json.{
  ℤ, pos, negsuc, Json, null, bool, int, real, str, arr, obj, Items, nil, cons, Fields, end, field,
  nat, text, fields, items,
}
use cisc468_python.Json.Sorting.{sort_keys}

-- Decimal digits. The fuel is the number itself: each round divides it by ten.
unfoldable pub show_digits : ℕ → ℕ → Str → Str
show_digits zero n acc = acc
show_digits (suc f) n acc =
    let rest = show_digits f (n / 10) ((48 + n % 10) ∷ acc) in
    if ltb n 10 then (48 + n) ∷ acc else rest

-- `str(n)`
unfoldable pub show_nat : ℕ → Str
unfolding show_digits
show_nat n = show_digits (suc n) n []

unfoldable pub show_int : ℤ → Str
unfolding show_nat
show_int (pos n) = show_nat n
show_int (negsuc n) = b'-' ∷ show_nat (n + 1)

unfoldable pub hex_digit : ℕ → ℕ
hex_digit d = if ltb d 10 then 48 + d else 87 + d

-- `\uXXXX`
unfoldable pub unicode_escape : ℕ → Str
unfolding hex_digit
unicode_escape c =
    b'\\'
    ∷ b'u'
    ∷ hex_digit (c / 4096 % 16)
    ∷ hex_digit (c / 256 % 16)
    ∷ hex_digit (c / 16 % 16)
    ∷ hex_digit (c % 16)
    ∷ []

-- One character of a text between the quotes.
unfoldable pub escape : ℕ → Str
unfolding unicode_escape
escape c =
    if c == 34
    then codes "\\\""
    else if c == 92
    then codes "\\\\"
    else if c == 10
    then codes "\\n"
    else if c == 13
    then codes "\\r"
    else if c == 9
    then codes "\\t"
    else if c == 12
    then codes "\\f"
    else if c == 8
    then codes "\\b"
    else if leb 32 c && leb c 126
    then c ∷ []
    else if ltb c 65536
    then unicode_escape c
    else unicode_escape (55296 + (c - 65536) / 1024) ++ unicode_escape (56320 + (c - 65536) % 1024)

unfoldable pub escape_all : Str → Str
unfolding escape
escape_all [] = []
escape_all (c ∷ s) = escape c ++ escape_all s

-- A text with its quotes.
unfoldable pub quote : Str → Str
unfolding escape_all
quote s = 34 ∷ (escape_all s ++ 34 ∷ [])

-- The arguments `separators` and `sort_keys`.
pub record Format : Type 0 where
  pub item_sep : Str
  pub key_sep : Str
  pub sorts : Bool

-- `separators=(',', ':'), sort_keys=True`
abbrev pub compact_sorted : Format
compact_sorted = record { item_sep = codes ","; key_sep = codes ":"; sorts = true }

-- The defaults.
abbrev pub spaced : Format
spaced = record { item_sep = codes ", "; key_sep = codes ": "; sorts = false }

unfoldable pub join : Str → List Str → Str
join sep [] = []
join sep (s ∷ []) = s
join sep (s ∷ t ∷ rest) = s ++ (sep ++ join sep (t ∷ rest))

unfoldable pub member : Format → Str × Str → Str
unfolding quote
member f (k, v) = quote k ++ (f.key_sep ++ v)

-- Members are printed each, and then put in order: each has its key beside it.
unfoldable pub print_members : Format → List (Str × Str) → Str
unfolding join member sort_keys
print_members f ms =
    b'{' ∷ (join f.item_sep (map (member f) (if f.sorts then sort_keys ms else ms)) ++ b'}' ∷ [])

unfoldable mutual
  unfolding show_int quote join print_members

  pub dumps : Format → Json → Str
  dumps f null = codes "null"
  dumps f (bool true) = codes "true"
  dumps f (bool false) = codes "false"
  dumps f (int z) = show_int z
  dumps f (real r) = r
  dumps f (str s) = quote s
  dumps f (arr xs) = b'[' ∷ (join f.item_sep (dump_items f xs) ++ b']' ∷ [])
  dumps f (obj fs) = print_members f (dump_fields f fs)

  pub dump_items : Format → Items → List Str
  dump_items f nil = []
  dump_items f (cons v vs) = dumps f v ∷ dump_items f vs

  pub dump_fields : Format → Fields → List (Str × Str)
  dump_fields f end = []
  dump_fields f (field k v fs) = (k, dumps f v) ∷ dump_fields f fs

dumps_test :
    dumps compact_sorted
      (obj (fields ((codes "b", nat 120) ∷ (codes "a", arr (items (text "x\n" ∷ null ∷ []))) ∷ [])))
    ≡ codes "{\"a\":[\"x\\n\",null],\"b\":120}"
unfolding dumps
dumps_test = refl
