-- ===== src/Json/Loads.antt =====
-- `json.loads`: texts, numbers, lists and dicts as the module `json` reads them. Floats are not
-- computed: `repr_float` gives the `repr` of the float that a literal stands for. Bytes are read as
-- UTF-8.
pub mod Elements
pub mod Ascii
pub mod Containers
pub mod Ordering
pub mod Printed
pub mod Values
pub mod RoundTrip
use cisc468_python.Base.{
  ℕ, zero, suc, ◌+◌, ◌-◌, ◌*◌, ◌<◌, Bytes, Str, codes, str_eq, starts_with, drop, length,
  if◌then◌else◌, ltb, leb, ◌==◌, Bool, true, false, ◌&&◌, ◌||◌, List, [], ◌∷◌, ◌++◌, Option, none,
  some, Result, ok, err, bind_result, value_error, unicode_error, ◌≡◌, refl,
}
use cisc468_python.Base.Dict.{Dict, insert}
use cisc468_python.Json.{
  Json, ℤ, pos, negsuc, null, bool, int, real, str, arr, obj, Fields, fields, items, nat, text,
}
use cisc468_python.Json.Lexer.{
  and_then, skip, is_digit, digits, decimal, fraction, exponent, read_text,
}
use cisc468_python.Json.Utf8.{decode_utf8}

unfoldable pub signed : Bool → ℕ → ℤ
signed false n = pos n
signed true zero = pos 0
signed true (suc n) = negsuc n

unfoldable pub minus : Bool → Str
minus true = b'-' ∷ []
minus false = []

abbrev pub Reader {ℓ} : Type ℓ → Type ℓ
Reader A = Str → Option (A × Str)

module _ {ℓ} {A : Type ℓ} where
  -- Behind an element: the end of the list, or `more` from the next element on.
  unfoldable pub next_element : ℕ → A → Reader (List A) → Reader (List A)
  next_element close a more [] = none
  next_element close a more (c ∷ s) =
      let rest = and_then (more (skip s)) (λ (xs, t). some (a ∷ xs, t)) in
      if c == close then some (a ∷ [], s) else if c == b',' then rest else none

  -- The elements of a list or of an object, of which there is one, each read by `p`, up to the
  -- closing bracket. Each round takes an element.
  unfoldable pub read_elements : ℕ → Reader A → ℕ → Reader (List A)
  unfolding next_element skip
  read_elements close p zero s = none
  read_elements close p (suc g) s =
      and_then (p s) (λ (a, s₁). next_element close a (read_elements close p g) (skip s₁))

-- Behind the text of a key: the colon and the value.
unfoldable pub member_value : Reader Json → Str → Option (Json × Str)
member_value p [] = none
member_value p (c ∷ s) = if c == b':' then p (skip s) else none

unfoldable pub member_key : Str → Option (Str × Str)
member_key [] = none
member_key (c ∷ s) = if c == 34 then read_text (suc (length s)) s else none

unfoldable pub read_member : Reader Json → Str → Option ((Str × Json) × Str)
unfolding member_key member_value skip
read_member p s =
    and_then (member_key s)
      (λ (k, s₁). and_then (member_value p (skip s₁)) (λ (v, s₂). some ((k, v), s₂)))

-- `dict(pairs)`: of two values for a key the last one counts.
unfoldable pub dict_of : List (Str × Json) → Dict Json → Dict Json
dict_of [] d = d
dict_of ((k, v) ∷ kvs) d = dict_of kvs (insert k v d)

unfoldable pub array_from : Reader Json → Str → Option (Json × Str)
array_from p [] = none
array_from p (c ∷ s) =
    let some_items =
      and_then (read_elements b']' p (suc (length (c ∷ s))) (c ∷ s))
        (λ (vs, t). some (arr (items vs), t)) in
    if c == b']' then some (arr (items []), s) else some_items

unfoldable pub object_from : Reader Json → Str → Option (Json × Str)
unfolding dict_of
object_from p [] = none
object_from p (c ∷ s) =
    let some_members =
      and_then (read_elements b'}' (read_member p) (suc (length (c ∷ s))) (c ∷ s))
        (λ (kvs, t). some (obj (fields (dict_of kvs [])), t)) in
    if c == b'}' then some (obj (fields []), s) else some_members

module _ (repr_float : Str → Str) where
  unfoldable pub finish_number : Bool → Str → Str → Str → Str → Json
  unfolding signed minus decimal
  finish_number neg ds [] [] rest = int (signed neg (decimal ds))
  finish_number neg ds frac expo rest = real (repr_float (minus neg ++ (ds ++ (frac ++ expo))))

  -- Behind the digits before the point.
  unfoldable pub after_digits : Bool → Str × Str → Option (Json × Str)
  unfolding finish_number fraction exponent
  after_digits neg (ds, s) =
      let (frac, s₁) = fraction s in
      let (expo, s₂) = exponent s₁ in some (finish_number neg ds frac expo s₂, s₂)

  -- A number without its sign: a zero ends its digits.
  unfoldable pub unsigned : Bool → Str → Option (Json × Str)
  unfolding after_digits digits
  unsigned neg [] = none
  unsigned neg (d ∷ s) =
      if d == 48
      then after_digits neg (48 ∷ [], s)
      else if is_digit d
      then after_digits neg (digits (d ∷ s))
      else none

  unfoldable pub read_number : ℕ → Str → Option (Json × Str)
  unfolding unsigned
  read_number c s = if c == b'-' then unsigned true s else unsigned false (c ∷ s)

  unfoldable pub word : Str → Json → (Unit {0} → Option (Json × Str)) → Str → Option (Json × Str)
  word w v otherwise s = if starts_with s w then some (v, drop (length w) s) else otherwise tt

  unfoldable pub read_word : ℕ → Str → Option (Json × Str)
  unfolding word read_number
  read_word c s =
      word (codes "null") null
        (λ _.
          word (codes "true") (bool true)
            (λ _.
              word (codes "false") (bool false)
                (λ _.
                  word (codes "NaN") (real (codes "nan"))
                    (λ _.
                      word (codes "Infinity") (real (codes "inf"))
                        (λ _.
                          word (codes "-Infinity") (real (codes "-inf")) (λ _. read_number c s)
                            (c ∷ s))
                        (c ∷ s))
                    (c ∷ s))
                (c ∷ s))
            (c ∷ s))
        (c ∷ s)

  unfoldable pub read_at : Reader Json → ℕ → Str → Option (Json × Str)
  unfolding read_word array_from object_from read_text skip
  read_at p c s =
      if c == 34
      then and_then (read_text (suc (length s)) s) (λ (t, s₁). some (str t, s₁))
      else if c == b'['
      then array_from p (skip s)
      else if c == b'{'
      then object_from p (skip s)
      else read_word c s

  -- A value at the front of the text. Each round of fuel is one level of lists and objects.
  unfoldable pub read_value : ℕ → Reader Json
  unfolding read_at
  read_value zero s = none
  read_value (suc f) [] = none
  read_value (suc f) (c ∷ s) = read_at (read_value f) c s

  unfoldable pub whole : Option (Json × Str) → Result Json
  whole (some (v, [])) = ok v
  whole _ = err value_error

  unfoldable pub spaced_end : Option (Json × Str) → Option (Json × Str)
  spaced_end none = none
  spaced_end (some (v, s)) = some (v, skip s)

  -- `json.loads(s)` of a text
  unfoldable pub loads : Str → Result Json
  unfolding whole spaced_end read_value skip
  loads s = whole (spaced_end (read_value (suc (length s)) (skip s)))

-- `json.loads(s)` of bytes
unfoldable pub loads_bytes : (Str → Str) → Bytes → Result Json
unfolding decode_utf8 loads
loads_bytes repr_float s = bind_result (decode_utf8 s) (loads repr_float)

loads_test :
    loads (λ s. s) (codes " {\"b\" : [1, -20,\"x\\n\\u00e9\"] , \"a\":1.50e+3 ,\"b\":{} }\n")
    ≡ ok (obj (fields ((codes "b", obj (fields [])) ∷ (codes "a", real (codes "1.50e+3")) ∷ [])))
unfolding loads read_elements read_member starts_with insert str_eq
loads_test = refl
