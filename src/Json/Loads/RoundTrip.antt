-- ===== src/Json/Loads/RoundTrip.antt =====
-- `json.loads` reads back what `json.dumps` wrote.
use mathlib.Core.Path.{subst}
use mathlib.Core.List.{map}
use cisc468_python.Base.{
  ℕ, zero, suc, ◌≤◌, Str, true, false, List, [], ◌∷◌, ◌++◌, ok, ◌≡◌, refl, sym, ap, ◌∙◌, arith, All,
  length, length-append, append-nil,
}
use cisc468_python.Json.{
  Json, null, bool, int, real, str, arr, obj, Items, nil, cons, Fields, end, field, fields, items,
}
use cisc468_python.Json.Dumps.{
  Format, dumps, dump_items, dump_fields, join, member, print_members, quote, show_int,
}
use cisc468_python.Json.Lexer.{skip}
use cisc468_python.Json.Lexer.Texts.{IsScalar}
use cisc468_python.Json.Loads.{read_value, loads}
use cisc468_python.Json.Loads.Elements.{ReadsAs, skip-starts_value}
use cisc468_python.Json.Loads.Ordering.{
  on_value, ordered, ordered-All, All-ordered, ordered-Unique, ordered-map,
}
use cisc468_python.Json.Loads.Values.{int-ReadsAs, null-ReadsAs, true-ReadsAs, false-ReadsAs}
use cisc468_python.Json.Loads.Printed.{
  IsPlain, IsPlainItems, IsPlainFields, printed, IsReadable, item_pairs, triples, dump_items-pairs,
  printed_items-pairs, dump_fields-triples, printed_fields-triples, triples-Unique, join_bounds,
}
use cisc468_python.Json.Loads.Containers.{
  All-map, starts_long, of_run-ReadsAs, text-ReadsAs, object-ReadsAs, list-ReadsAs,
}

module _ (repr_float : Str → Str) (f : Format) (readable : IsReadable f) where
  length-dumps : (v : Json) → IsPlain v → 1 ≤ length (dumps f v)
  unfolding dumps quote print_members
  length-dumps null h = omega arith
  length-dumps (bool true) h = omega arith
  length-dumps (bool false) h = omega arith
  length-dumps (int z) h = starts_long (show_int z) (int-ReadsAs repr_float 0 z).0
  length-dumps (real t) h = absurd h
  length-dumps (str s) h = omega arith
  length-dumps (arr xs) h = omega arith
  length-dumps (obj fs) h = omega arith

  array_of :
      (n : ℕ) (xs : Items)
      → All (λ x. ReadsAs (read_value repr_float n) x.1 x.0) (item_pairs f xs)
      → ReadsAs (read_value repr_float (suc n)) (dumps f (arr xs)) (printed f (arr xs))
  unfolding dumps
  array_of n xs h =
      of_run-ReadsAs (read_value repr_float (suc n))
        (ap (λ x. b'[' ∷ (join f.item_sep x ++ b']' ∷ [])) (sym (dump_items-pairs f xs)))
        (ap (λ x. arr (items x)) (sym (printed_items-pairs f xs)))
        (list-ReadsAs repr_float n f readable (item_pairs f xs) h)

  object_of :
      (n : ℕ) (fs : Fields)
      → IsPlainFields fs
      → All (λ t. ReadsAs (read_value repr_float n) t.1.1 t.1.0 × All IsScalar t.0) (triples f fs)
      → ReadsAs (read_value repr_float (suc n)) (dumps f (obj fs)) (printed f (obj fs))
  unfolding dumps print_members
  object_of n fs plain h =
      of_run-ReadsAs (read_value repr_float (suc n))
        (ap (λ x. b'{' ∷ (join f.item_sep (map (member f) x) ++ b'}' ∷ []))
          (sym (ordered-map f (λ p. p.1) (triples f fs))
            ∙ ap (ordered f) (sym (dump_fields-triples f fs))))
        (ap (λ x. obj (fields x))
          (sym (ordered-map f (λ p. p.0) (triples f fs))
            ∙ ap (ordered f) (sym (printed_fields-triples f fs))))
        (object-ReadsAs repr_float n f readable (ordered f (triples f fs))
          (ordered-Unique f (triples f fs) (triples-Unique f fs plain))
          (ordered-All f (λ t. ReadsAs (read_value repr_float n) t.1.1 t.1.0 × All IsScalar t.0)
            (triples f fs) h))

  member_fits :
      (n : ℕ) (ms : List (Str × Str))
      → All (λ s. length s ≤ n) (map (member f) ms)
      → All (λ e. length e.1 ≤ n) ms
  unfolding member
  member_fits n [] h = tt
  member_fits n ((k, s) ∷ ms) (hs, h) = (
    omega (arith, length-append (quote k) (f.key_sep ++ s), length-append f.key_sep s),
    member_fits n ms h,
  )

  items_fit :
      (n : ℕ) (xs : Items)
      → length (dumps f (arr xs)) ≤ suc n
      → All (λ x. length x.1 ≤ n) (item_pairs f xs)
  unfolding dumps
  items_fit n xs k =
      let joined = join f.item_sep (dump_items f xs) in
      let fits : length joined ≤ n = omega (arith, k, length-append joined (b']' ∷ [])) in
      All-map (λ s. length s ≤ n) (λ x. x.1) (item_pairs f xs)
        (subst (All (λ s. length s ≤ n)) (dump_items-pairs f xs)
          (join_bounds n f.item_sep (dump_items f xs) fits))

  fields_fit :
      (n : ℕ) (fs : Fields)
      → length (dumps f (obj fs)) ≤ suc n
      → All (λ t. length t.1.1 ≤ n) (triples f fs)
  unfolding dumps print_members
  fields_fit n fs k =
      let members = map (member f) (ordered f (dump_fields f fs)) in
      let joined = join f.item_sep members in
      let fits : length joined ≤ n = omega (arith, k, length-append joined (b'}' ∷ [])) in
      All-map (λ e. length e.1 ≤ n) (on_value (λ p. p.1)) (triples f fs)
        (subst (All (λ e. length e.1 ≤ n)) (dump_fields-triples f fs) (
          All-ordered f (λ e. length e.1 ≤ n) (dump_fields f fs)
            (member_fits n (ordered f (dump_fields f fs)) (join_bounds n f.item_sep members fits))))

  mutual
    unfolding dumps item_pairs triples

    pub dumps-ReadsAs :
        (v : Json) (n : ℕ)
        → IsPlain v
        → length (dumps f v) ≤ n
        → ReadsAs (read_value repr_float n) (dumps f v) (printed f v)
    dumps-ReadsAs v zero h k = absurd (omega (arith, length-dumps v h))
    dumps-ReadsAs null (suc n) h k = null-ReadsAs repr_float n
    dumps-ReadsAs (bool true) (suc n) h k = true-ReadsAs repr_float n
    dumps-ReadsAs (bool false) (suc n) h k = false-ReadsAs repr_float n
    dumps-ReadsAs (int z) (suc n) h k = int-ReadsAs repr_float n z
    dumps-ReadsAs (real t) (suc n) h k = absurd h
    dumps-ReadsAs (str s) (suc n) h k = text-ReadsAs repr_float n s h
    dumps-ReadsAs (arr xs) (suc n) h k = array_of n xs (items_each xs n h (items_fit n xs k))
    dumps-ReadsAs (obj fs) (suc n) h k = object_of n fs h (fields_each fs n h (fields_fit n fs k))

    items_each :
        (xs : Items) (n : ℕ)
        → IsPlainItems xs
        → All (λ x. length x.1 ≤ n) (item_pairs f xs)
        → All (λ x. ReadsAs (read_value repr_float n) x.1 x.0) (item_pairs f xs)
    items_each nil n h k = tt
    items_each (cons v vs) n (hv, h) (kv, k) = (dumps-ReadsAs v n hv kv, items_each vs n h k)

    fields_each :
        (fs : Fields) (n : ℕ)
        → IsPlainFields fs
        → All (λ t. length t.1.1 ≤ n) (triples f fs)
        → All (λ t. ReadsAs (read_value repr_float n) t.1.1 t.1.0 × All IsScalar t.0) (triples f fs)
    fields_each end n h k = tt
    fields_each (field j v fs) n (hj, _, hv, h) (kv, k) =
        ((dumps-ReadsAs v n hv kv, hj), fields_each fs n h k)

  dumps_fuel :
      (v : Json)
      → IsPlain v
      → ReadsAs (read_value repr_float (suc (length (dumps f v)))) (dumps f v) (printed f v)
  dumps_fuel v h = dumps-ReadsAs v (suc (length (dumps f v))) h (omega arith)

  -- What `json.dumps` wrote, `json.loads` reads back, with the members of each object in the order
  -- in which they were written.
  pub loads-dumps : (v : Json) → IsPlain v → loads repr_float (dumps f v) ≡ ok (printed f v)
  unfolding loads
  loads-dumps v h =
      let text = dumps f v in
      let (start, reads) = dumps_fuel v h in
      let no_rest = sym (append-nil text) in
      let skipped = ap skip no_rest ∙ skip-starts_value text [] start ∙ append-nil text in
      let read = ap (read_value repr_float (suc (length text))) no_rest ∙ reads [] refl in
      rw (skipped, read) refl
