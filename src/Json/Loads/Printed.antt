-- ===== src/Json/Loads/Printed.antt =====
-- The values that come back as they were written, and the parts of a printed list or object with
-- the values that they stand for.
use mathlib.Core.List.{map}
use cisc468_python.Base.{
  ℕ, ◌≤◌, ◌<◌, Str, str_eq_iff, inl, List, [], ◌∷◌, ◌++◌, none, ◌≡◌, refl, ap, arith, All, length,
  length-append,
}
use cisc468_python.Json.{
  Json, null, bool, int, real, str, arr, obj, Items, nil, cons, Fields, end, field, fields, items,
  find,
}
use cisc468_python.Json.Dumps.{
  Format, compact_sorted, spaced, dumps, dump_items, dump_fields, join, member,
}
use cisc468_python.Json.Lexer.Texts.{IsScalar}
use cisc468_python.Json.Loads.Elements.{AllSpace}
use cisc468_python.Json.Loads.Ordering.{Fresh, Unique, on_value, ordered}

-- No floats, no surrogates, and no key twice in an object.
abbrev mutual
  pub IsPlain : Json → Type 0
  IsPlain null = Unit
  IsPlain (bool b) = Unit
  IsPlain (int z) = Unit
  IsPlain (real t) = ⊥
  IsPlain (str s) = All IsScalar s
  IsPlain (arr xs) = IsPlainItems xs
  IsPlain (obj fs) = IsPlainFields fs

  pub IsPlainItems : Items → Type 0
  IsPlainItems nil = Unit
  IsPlainItems (cons v vs) = IsPlain v × IsPlainItems vs

  pub IsPlainFields : Fields → Type 0
  IsPlainFields end = Unit
  IsPlainFields (field k v fs) = All IsScalar k × (find k fs ≡ none) × IsPlain v × IsPlainFields fs

-- The value with the members of each object in the order in which they are printed.
abbrev mutual
  pub printed : Format → Json → Json
  printed f (arr xs) = arr (items (printed_items f xs))
  printed f (obj fs) = obj (fields (ordered f (printed_fields f fs)))
  printed f v = v

  pub printed_items : Format → Items → List Json
  printed_items f nil = []
  printed_items f (cons v vs) = printed f v ∷ printed_items f vs

  pub printed_fields : Format → Fields → List (Str × Json)
  printed_fields f end = []
  printed_fields f (field k v fs) = (k, printed f v) ∷ printed_fields f fs

-- The separators are a comma and a colon, with white space behind them.
pub record IsReadable (f : Format) : Type 0 where
  pub item_space : Str
  pub key_space : Str
  pub comma : f.item_sep ≡ b',' ∷ item_space
  pub colon : f.key_sep ≡ b':' ∷ key_space
  pub item_blank : AllSpace item_space
  pub key_blank : AllSpace key_space

-- Each item with its text, each member with its text.
unfoldable pub item_pairs : Format → Items → List (Json × Str)
item_pairs f nil = []
item_pairs f (cons v vs) = (printed f v, dumps f v) ∷ item_pairs f vs

unfoldable pub triples : Format → Fields → List (Str × (Json × Str))
triples f end = []
triples f (field k v fs) = (k, (printed f v, dumps f v)) ∷ triples f fs

module _ (f : Format) where
  pub dump_items-pairs : (xs : Items) → dump_items f xs ≡ map (λ x. x.1) (item_pairs f xs)
  unfolding dumps item_pairs
  dump_items-pairs nil = refl
  dump_items-pairs (cons v vs) = ap (λ t. dumps f v ∷ t) (dump_items-pairs vs)

  pub printed_items-pairs : (xs : Items) → printed_items f xs ≡ map (λ x. x.0) (item_pairs f xs)
  unfolding item_pairs
  printed_items-pairs nil = refl
  printed_items-pairs (cons v vs) = ap (λ t. printed f v ∷ t) (printed_items-pairs vs)

  pub dump_fields-triples :
      (fs : Fields) → dump_fields f fs ≡ map (on_value (λ p. p.1)) (triples f fs)
  unfolding dumps triples
  dump_fields-triples end = refl
  dump_fields-triples (field k v fs) = ap (λ t. (k, dumps f v) ∷ t) (dump_fields-triples fs)

  pub printed_fields-triples :
      (fs : Fields) → printed_fields f fs ≡ map (on_value (λ p. p.0)) (triples f fs)
  unfolding triples
  printed_fields-triples end = refl
  printed_fields-triples (field k v fs) = ap (λ t. (k, printed f v) ∷ t) (printed_fields-triples fs)

  triples-Fresh : (k : Str) (fs : Fields) → find k fs ≡ none → Fresh k (triples f fs)
  unfolding triples find
  triples-Fresh k end h = tt
  triples-Fresh k (field j v fs) h =
      (ground (arith, str_eq_iff j k, str_eq_iff k j), triples-Fresh k fs (ground arith))

  pub triples-Unique : (fs : Fields) → IsPlainFields fs → Unique (triples f fs)
  unfolding triples
  triples-Unique end h = tt
  triples-Unique (field k v fs) (hk, none_there, hv, h) =
      (triples-Fresh k fs none_there, triples-Unique fs h)

-- A member of an object, as what it is read as and its text.
abbrev pub as_element : Format → Str × (Json × Str) → (Str × Json) × Str
as_element f (k, (v, s)) = ((k, v), member f (k, s))

module _ (f : Format) where
  pub member_texts :
      (ts : List (Str × (Json × Str)))
      → map (member f) (map (on_value (λ p. p.1)) ts) ≡ map (λ x. x.1) (map (as_element f) ts)
  member_texts [] = refl
  member_texts ((k, (v, s)) ∷ ts) = ap (λ t. member f (k, s) ∷ t) (member_texts ts)

  pub member_values :
      (ts : List (Str × (Json × Str)))
      → map (on_value (λ p. p.0)) ts ≡ map (λ x. x.0) (map (as_element f) ts)
  member_values [] = refl
  member_values ((k, (v, s)) ∷ ts) = ap (λ t. (k, v) ∷ t) (member_values ts)

pub length-le-join :
    (sep : Str) (ss : List Str) → All (λ s. 1 ≤ length s) ss → length ss ≤ length (join sep ss)
unfolding join
length-le-join sep [] h = omega arith
length-le-join sep (s ∷ []) (hs, h) = omega arith
length-le-join sep (s ∷ t ∷ ss) (hs, h) = omega (
  arith,
  length-append s (sep ++ join sep (t ∷ ss)),
  length-append sep (join sep (t ∷ ss)),
  length-le-join sep (t ∷ ss) h,
)

pub join_bounds :
    (n : ℕ) (sep : Str) (ss : List Str) → length (join sep ss) ≤ n → All (λ s. length s ≤ n) ss
unfolding join
join_bounds n sep [] h = tt
join_bounds n sep (s ∷ []) h = (h, tt)
join_bounds n sep (s ∷ t ∷ ss) h = (
  omega (arith, length-append s (sep ++ join sep (t ∷ ss))),
  join_bounds n sep (t ∷ ss) (
      omega
        (arith, length-append s (sep ++ join sep (t ∷ ss)), length-append sep (join sep (t ∷ ss)))),
)

pub compact_sorted-IsReadable : IsReadable compact_sorted
compact_sorted-IsReadable = record {
  item_space = [];
  key_space = [];
  comma = refl;
  colon = refl;
  item_blank = tt;
  key_blank = tt;
}

pub spaced-IsReadable : IsReadable spaced
spaced-IsReadable = record {
  item_space = 32 ∷ [];
  key_space = 32 ∷ [];
  comma = refl;
  colon = refl;
  item_blank = (refl, tt);
  key_blank = (refl, tt);
}

pub ascii-IsScalar : (s : Str) → All (λ c. c < 128) s → All IsScalar s
ascii-IsScalar [] h = tt
ascii-IsScalar (c ∷ s) (hc, h) = (inl (omega arith), ascii-IsScalar s h)
