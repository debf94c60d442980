-- ===== src/Json/Loads/Containers.antt =====
-- A printed list or object is read as its parts are read.
use mathlib.Core.Path.{subst, ap₂}
use mathlib.Core.List.{map}
use cisc468_python.Base.{
  ℕ, suc, ◌≤◌, Str, codes, ◌==◌, true, false, List, [], ◌∷◌, ◌++◌, some, ◌≡◌, refl, sym, ap, ◌∙◌,
  arith, All, length, length-append, length-map, append_assoc,
}
use cisc468_python.Json.{Json, str, arr, obj, nil, end, fields, items}
use cisc468_python.Json.Dumps.{Format, join, member, quote}
use cisc468_python.Json.Lexer.{and_then, skip, read_text}
use cisc468_python.Json.Lexer.Texts.{IsScalar, read_text-quote}
use cisc468_python.Json.Loads.{
  Reader, read_elements, read_member, dict_of, array_from, object_from, read_value,
}
use cisc468_python.Json.Loads.Elements.{
  starts_value, ReadsAs, AllSpace, join-starts_value, read_elements-join, member-ReadsAs,
  skip-starts_value,
}
use cisc468_python.Json.Loads.Ordering.{Unique, on_value, map-Unique, dict_of-Unique}
use cisc468_python.Json.Loads.Printed.{
  IsReadable, as_element, member_texts, member_values, length-le-join,
}

pub All-map {ℓ κ ι} :
    {A : Type ℓ} {B : Type κ} (P : B → Type ι) (g : A → B) (xs : List A)
    → All P (map g xs)
    → All (λ x. P (g x)) xs
All-map P g [] h = tt
All-map P g (x ∷ xs) (hx, h) = (hx, All-map P g xs h)

pub starts_long : (s : Str) → starts_value s ≡ true → 1 ≤ length s
starts_long [] h = absurd (cc)
starts_long (c ∷ s) h = omega arith

long-ReadsAs :
    {A : Type 0} (p : Reader A) (es : List (A × Str))
    → All (λ x. ReadsAs p x.1 x.0) es
    → All (λ s. 1 ≤ length s) (map (λ x. x.1) es)
long-ReadsAs p [] h = tt
long-ReadsAs p ((a, s) ∷ es) (hs, h) = (starts_long s hs.0, long-ReadsAs p es h)

pub of_run-ReadsAs :
    {A : Type 0} (p : Reader A) {s s' : Str} {a a' : A}
    → s ≡ s'
    → a ≡ a'
    → ReadsAs p s a
    → ReadsAs p s' a'
of_run-ReadsAs {A} p e e' h = subst (λ (x : Str × A). ReadsAs p x.0 x.1) (λ i. (e i, e' i)) h

-- The fuel that the length of the text gives is enough for its elements.
elements_fuel :
    {A : Type 0} (p : Reader A) (sep tail : Str) (es : List (A × Str))
    → All (λ x. ReadsAs p x.1 x.0) es
    → length es ≤ length (join sep (map (λ x. x.1) es) ++ tail)
elements_fuel p sep tail es h = omega (
  arith,
  length-append (join sep (map (λ x. x.1) es)) tail,
  length-map (λ x. x.1) es,
  length-le-join sep (map (λ x. x.1) es) (long-ReadsAs p es h),
)

array_from_open :
    (p : Reader Json) (s tail : Str)
    → starts_value s ≡ true
    → array_from p (s ++ tail)
      ≡ and_then
          (read_elements b']' p (suc (length (s ++ tail))) (s ++ tail))
          (λ (vs, t). some (arr (items vs), t))
unfolding array_from
array_from_open p [] tail h = absurd (cc)
array_from_open p (c ∷ s) tail h = let other : (c == b']') ≡ false = ground arith in rw other refl

object_from_open :
    (p : Reader Json) (s tail : Str)
    → starts_value s ≡ true
    → object_from p (s ++ tail)
      ≡ and_then
          (read_elements b'}' (read_member p) (suc (length (s ++ tail))) (s ++ tail))
          (λ (kvs, t). some (obj (fields (dict_of kvs [])), t))
unfolding object_from
object_from_open p [] tail h = absurd (cc)
object_from_open p (c ∷ s) tail h = let other : (c == b'}') ≡ false = ground arith in rw other refl

module _ (repr_float : Str → Str) (n : ℕ) where
  abbrev reader : Reader Json
  reader = read_value repr_float n

  read_list : (s : Str) → read_value repr_float (suc n) (b'[' ∷ s) ≡ array_from reader (skip s)
  unfolding read_value
  read_list s = refl

  read_object : (s : Str) → read_value repr_float (suc n) (b'{' ∷ s) ≡ object_from reader (skip s)
  unfolding read_value
  read_object s = refl

  -- Behind an opening bracket, and up to the closing one.
  inside :
      (s rest : Str) (close : ℕ)
      → starts_value s ≡ true
      → skip ((s ++ close ∷ []) ++ rest) ≡ s ++ close ∷ rest
  inside s rest close h =
      ap skip (append_assoc s (close ∷ []) rest) ∙ skip-starts_value s (close ∷ rest) h

  items-ReadsAs :
      (sp : Str) (e : Json × Str) (es : List (Json × Str))
      → AllSpace sp
      → All (λ x. ReadsAs reader x.1 x.0) (e ∷ es)
      → ReadsAs
          (read_value repr_float (suc n))
          (b'[' ∷ (join (b',' ∷ sp) (map (λ x. x.1) (e ∷ es)) ++ b']' ∷ []))
          (arr (items (map (λ x. x.0) (e ∷ es))))
  items-ReadsAs sp e es space h = (
    refl,
    λ rest _.
        let texts = join (b',' ∷ sp) (map (λ x. x.1) (e ∷ es)) in
        let start = join-starts_value (b',' ∷ sp) e.1 (map (λ x. x.1) es) h.0.0 in
        read_list ((texts ++ b']' ∷ []) ++ rest)
        ∙ ap (array_from reader) (inside texts rest b']' start)
        ∙ array_from_open reader texts (b']' ∷ rest) start
        ∙ let fuel = elements_fuel reader (b',' ∷ sp) (b']' ∷ rest) (e ∷ es) h in
          let read =
            read_elements-join b']' reader (length (texts ++ b']' ∷ rest)) sp rest e es
              (omega (arith, fuel)) space refl h in
          rw read refl,
  )

  members-ReadsAs :
      (sp : Str) (e : (Str × Json) × Str) (es : List ((Str × Json) × Str))
      → AllSpace sp
      → Unique (map (λ x. x.0) (e ∷ es))
      → All (λ x. ReadsAs (read_member reader) x.1 x.0) (e ∷ es)
      → ReadsAs
          (read_value repr_float (suc n))
          (b'{' ∷ (join (b',' ∷ sp) (map (λ x. x.1) (e ∷ es)) ++ b'}' ∷ []))
          (obj (fields (map (λ x. x.0) (e ∷ es))))
  members-ReadsAs sp e es space unique h = (
    refl,
    λ rest _.
        let texts = join (b',' ∷ sp) (map (λ x. x.1) (e ∷ es)) in
        let start = join-starts_value (b',' ∷ sp) e.1 (map (λ x. x.1) es) h.0.0 in
        let fuel = elements_fuel (read_member reader) (b',' ∷ sp) (b'}' ∷ rest) (e ∷ es) h in
        let read =
          read_elements-join b'}' (read_member reader) (length (texts ++ b'}' ∷ rest)) sp rest e es
            (omega (arith, fuel)) space refl h in
        read_object ((texts ++ b'}' ∷ []) ++ rest)
        ∙ ap (object_from reader) (inside texts rest b'}' start)
        ∙ object_from_open reader texts (b'}' ∷ rest) start
        ∙ ap (λ o. and_then o (λ (kvs, t). some (obj (fields (dict_of kvs [])), t))) read
        ∙ ap (λ kvs. some (obj (fields kvs), rest))
            (dict_of-Unique (map (λ x. x.0) (e ∷ es)) unique),
  )

  read_quoted :
      (body s rest : Str)
      → read_text (suc (length body)) body ≡ some (s, rest)
      → read_value repr_float (suc n) (34 ∷ body) ≡ some (str s, rest)
  unfolding read_value
  read_quoted body s rest read = rw read refl

  pub text-ReadsAs :
      (s : Str) → All IsScalar s → ReadsAs (read_value repr_float (suc n)) (quote s) (str s)
  text-ReadsAs s scalar = (
    unfold quote in refl,
    λ rest _.
        let (body, text, read) = read_text-quote s rest scalar in
        ap (read_value repr_float (suc n)) text ∙ read_quoted body s rest read,
  )

  empty_list-ReadsAs : ReadsAs (read_value repr_float (suc n)) (codes "[]") (arr nil)
  unfolding read_value
  empty_list-ReadsAs = (refl, λ rest _. refl)

  empty_object-ReadsAs : ReadsAs (read_value repr_float (suc n)) (codes "{}") (obj end)
  unfolding read_value
  empty_object-ReadsAs = (refl, λ rest _. refl)

  elements-ReadsAs :
      (f : Format) (readable : IsReadable f) (ts : List (Str × (Json × Str)))
      → All (λ t. ReadsAs reader t.1.1 t.1.0 × All IsScalar t.0) ts
      → All (λ x. ReadsAs (read_member reader) x.1 x.0) (map (as_element f) ts)
  elements-ReadsAs f readable [] h = tt
  elements-ReadsAs f readable ((k, (v, s)) ∷ ts) ((reads, scalar), h) = (
    member-ReadsAs reader f k readable.key_space s v readable.colon readable.key_blank scalar reads,
    elements-ReadsAs f readable ts h,
  )

  -- The members of an object, in whatever order they stand.
  pub object-ReadsAs :
      (f : Format) (readable : IsReadable f) (ts : List (Str × (Json × Str)))
      → Unique ts
      → All (λ t. ReadsAs reader t.1.1 t.1.0 × All IsScalar t.0) ts
      → ReadsAs
          (read_value repr_float (suc n))
          (b'{' ∷ (join f.item_sep (map (member f) (map (on_value (λ p. p.1)) ts)) ++ b'}' ∷ []))
          (obj (fields (map (on_value (λ p. p.0)) ts)))
  object-ReadsAs f readable [] u h = unfold join in empty_object-ReadsAs
  object-ReadsAs f readable (t ∷ ts) u h =
      of_run-ReadsAs (read_value repr_float (suc n))
        (ap (λ x. b'{' ∷ (x ++ b'}' ∷ []))
          (ap₂ join (sym readable.comma) (sym (member_texts f (t ∷ ts)))))
        (ap (λ x. obj (fields x)) (sym (member_values f (t ∷ ts))))
        (members-ReadsAs readable.item_space (as_element f t) (map (as_element f) ts)
          readable.item_blank
          (subst Unique (member_values f (t ∷ ts)) (map-Unique (λ p. p.0) (t ∷ ts) u))
          (elements-ReadsAs f readable (t ∷ ts) h))

  pub list-ReadsAs :
      (f : Format) (readable : IsReadable f) (es : List (Json × Str))
      → All (λ x. ReadsAs reader x.1 x.0) es
      → ReadsAs
          (read_value repr_float (suc n))
          (b'[' ∷ (join f.item_sep (map (λ x. x.1) es) ++ b']' ∷ []))
          (arr (items (map (λ x. x.0) es)))
  list-ReadsAs f readable [] h = unfold join in empty_list-ReadsAs
  list-ReadsAs f readable (e ∷ es) h =
      of_run-ReadsAs (read_value repr_float (suc n))
        (ap (λ x. b'[' ∷ (join x (map (λ x. x.1) (e ∷ es)) ++ b']' ∷ [])) (sym readable.comma)) refl
        (items-ReadsAs readable.item_space e es readable.item_blank h)
