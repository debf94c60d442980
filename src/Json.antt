-- ===== src/Json.antt =====
-- JSON values as the program handles them after `json.loads`, with Python's behaviour of `.get`,
-- indexing, truth and `str` on a value of any type (used by protocol.py, server.py, client.py).
pub mod Dumps
pub mod Lexer
pub mod Loads
pub mod Utf8
pub mod Sorting
use cisc468_python.Base.{
  ℕ, ◌+◌, Str, codes, str_eq, if◌then◌else◌, ◌==◌, Bool, true, false, not, ◌&&◌, Option, none, some,
  List, [], ◌∷◌, Result, ok, err, attribute_error, key_error, type_error, ◌≡◌, ◌↔◌, refl, arith,
  str_eq_iff, String,
}

-- `negsuc n` is -(n + 1).
pub data ℤ : Type 0 where
  pos : ℕ → ℤ
  negsuc : ℕ → ℤ

-- A float is given by its `repr`. `Fields` is the dict of an object, in insertion order.
mutual
  pub data Json : Type 0 where
    null : Json
    bool : Bool → Json
    int : ℤ → Json
    real : Str → Json
    str : Str → Json
    arr : Items → Json
    obj : Fields → Json

  pub data Items : Type 0 where
    nil : Items
    cons : Json → Items → Items

  pub data Fields : Type 0 where
    end : Fields
    field : Str → Json → Fields → Fields

-- A natural number, and a literal text, as values.
abbrev pub nat : ℕ → Json
nat n = int (pos n)

abbrev pub text : String → Json
text s = str (codes s)

abbrev pub fields : List (Str × Json) → Fields
fields [] = end
fields ((k, v) ∷ d) = field k v (fields d)

abbrev pub items : List Json → Items
items [] = nil
items (v ∷ vs) = cons v (items vs)

unfoldable pub find : Str → Fields → Option Json
find k end = none
find k (field j v d) = if str_eq j k then some v else find k d

-- `d[k] = v` on the dict of an object
unfoldable pub set_field : Str → Json → Fields → Fields
set_field k v end = field k v end
set_field k v (field j w d) = if str_eq j k then field j v d else field j w (set_field k v d)

abbrev get_found : Option Json → Json → Json
get_found none d = d
get_found (some v) d = v

abbrev index_found : Option Json → Result Json
index_found none = err key_error
index_found (some v) = ok v

-- `x.get(k, d)`
unfoldable pub get : Json → Str → Json → Result Json
get (obj fs) k d = ok (get_found (find k fs) d)
get _ k d = err attribute_error

-- `x[k]`, for a text `k`
unfoldable pub index : Json → Str → Result Json
index (obj fs) k = index_found (find k fs)
index _ k = err type_error

-- `x == s` for a text `s`
unfoldable pub is_str : Json → Str → Bool
is_str (str t) s = str_eq t s
is_str _ s = false

-- `bool(x)`
unfoldable pub truthy : Json → Bool
truthy null = false
truthy (bool b) = b
truthy (int (pos n)) = not (n == 0)
truthy (int (negsuc n)) = true
truthy (real r) = not (str_eq r (codes "0.0")) && not (str_eq r (codes "-0.0"))
truthy (str s) = not (str_eq s [])
truthy (arr nil) = false
truthy (arr (cons v vs)) = true
truthy (obj end) = false
truthy (obj (field k v fs)) = true

pub is_str_iff : (v : Json) (s : Str) → (is_str v s ≡ true) ↔ (v ≡ str s)
unfolding is_str
is_str_iff (str t) s = ground (arith, str_eq_iff t s)
is_str_iff null s = ground arith
is_str_iff (bool b) s = ground arith
is_str_iff (int z) s = ground arith
is_str_iff (real r) s = ground arith
is_str_iff (arr xs) s = ground arith
is_str_iff (obj fs) s = ground arith

pub find-set_field :
    (k j : Str) (v : Json) (d : Fields)
    → find j (set_field k v d) ≡ (if str_eq k j then some v else find j d)
unfolding find set_field
find-set_field k j v end = refl
find-set_field k j v (field i w d) =
    ground (arith, str_eq_iff k j, str_eq_iff i k, str_eq_iff i j, find-set_field k j v d)
