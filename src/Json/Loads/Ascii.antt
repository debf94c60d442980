-- ===== src/Json/Loads/Ascii.antt =====
-- What `json.dumps` prints is ASCII, so its bytes are its characters, and `json.loads` of bytes reads
-- them back too.
use mathlib.Core.Path.{ap₂}
use cisc468_python.Base.{
  ℕ, ◌+◌, ◌-◌, ◌/◌, ◌%◌, ◌<◌, Str, if◌then◌else◌, ltb, leb, ◌==◌, Bool, true, false, Bool-cases,
  inl, inr, ◌&&◌, List, [], ◌∷◌, ◌++◌, map, ok, ◌≡◌, refl, ap, ◌∙◌, arith, All,
}
use cisc468_python.Json.{
  Json, null, bool, int, real, str, arr, obj, ℤ, pos, negsuc, Items, nil, cons, Fields, end, field,
  fields, items,
}
use cisc468_python.Json.Dumps.{
  Format, dumps, dump_items, dump_fields, join, member, print_members, quote, show_int, show_nat,
  escape, escape_all, unicode_escape, hex_digit,
}
use cisc468_python.Json.Lexer.{is_digit}
use cisc468_python.Json.Lexer.Numbers.{show_nat-AllDigits}
use cisc468_python.Json.Loads.{loads_bytes}
use cisc468_python.Json.Loads.Ordering.{ordered, ordered-All}
use cisc468_python.Json.Loads.Printed.{
  IsPlain, IsPlainItems, IsPlainFields, printed, printed_items, printed_fields, IsReadable,
}
use cisc468_python.Json.Loads.RoundTrip.{loads-dumps}
use cisc468_python.Json.Utf8.{decode_utf8_ascii}

abbrev pub IsAscii : Str → Type 0
IsAscii s = All (λ c. c < 128) s

IsAscii-append : (s t : Str) → IsAscii s → IsAscii t → IsAscii (s ++ t)
IsAscii-append [] t h k = k
IsAscii-append (c ∷ s) t (hc, h) k = (hc, IsAscii-append s t h k)

hex_digit_ascii : (d : ℕ) → d < 16 → hex_digit d < 128
unfolding hex_digit
hex_digit_ascii d h = ground arith

unicode_escape-IsAscii : (c : ℕ) → IsAscii (unicode_escape c)
unfolding unicode_escape
unicode_escape-IsAscii c = (
  omega arith,
  (
    omega arith,
    (
      hex_digit_ascii (c / 4096 % 16) (omega arith),
      (
        hex_digit_ascii (c / 256 % 16) (omega arith),
        (hex_digit_ascii (c / 16 % 16) (omega arith), (hex_digit_ascii (c % 16) (omega arith), tt)),
      ),
    ),
  ),
)

if-IsAscii : (b : Bool) (s t : Str) → IsAscii s → IsAscii t → IsAscii (if b then s else t)
if-IsAscii true s t h k = h
if-IsAscii false s t h k = k

printable-IsAscii :
    (c : ℕ) (t : Str) → IsAscii t → IsAscii (if leb 32 c && leb c 126 then c ∷ [] else t)
printable-IsAscii c t k = elim (Bool-cases (leb 32 c && leb c 126)) [
  | inl e ↦ rw e (ground arith, tt)
  | inr e ↦ rw e k
]

two-IsAscii : (a b : ℕ) → a < 128 → b < 128 → IsAscii (a ∷ b ∷ [])
two-IsAscii a b h k = (h, (k, tt))

escape-IsAscii : (c : ℕ) → IsAscii (escape c)
unfolding escape
escape-IsAscii c = if-IsAscii (c == 34) _ _ (two-IsAscii 92 34 (omega arith) (omega arith)) (
    if-IsAscii (c == 92) _ _ (two-IsAscii 92 92 (omega arith) (omega arith)) (
      if-IsAscii (c == 10) _ _ (two-IsAscii 92 110 (omega arith) (omega arith)) (
        if-IsAscii (c == 13) _ _ (two-IsAscii 92 114 (omega arith) (omega arith)) (
          if-IsAscii (c == 9) _ _ (two-IsAscii 92 116 (omega arith) (omega arith)) (
            if-IsAscii (c == 12) _ _ (two-IsAscii 92 102 (omega arith) (omega arith)) (
              if-IsAscii (c == 8) _ _ (two-IsAscii 92 98 (omega arith) (omega arith)) (
                printable-IsAscii c _ (
                  if-IsAscii (ltb c 65536) _ _ (unicode_escape-IsAscii c) (
                    IsAscii-append (unicode_escape (55296 + (c - 65536) / 1024))
                      (unicode_escape (56320 + (c - 65536) % 1024))
                      (unicode_escape-IsAscii (55296 + (c - 65536) / 1024))
                      (unicode_escape-IsAscii (56320 + (c - 65536) % 1024)))))))))))

escape_all-IsAscii : (s : Str) → IsAscii (escape_all s)
unfolding escape_all
escape_all-IsAscii [] = tt
escape_all-IsAscii (c ∷ s) =
    IsAscii-append (escape c) (escape_all s) (escape-IsAscii c) (escape_all-IsAscii s)

quote-IsAscii : (s : Str) → IsAscii (quote s)
unfolding quote
quote-IsAscii s =
    (omega arith, IsAscii-append (escape_all s) (34 ∷ []) (escape_all-IsAscii s) (omega arith, tt))

digits-IsAscii : (s : Str) → All (λ d. is_digit d ≡ true) s → IsAscii s
digits-IsAscii [] h = tt
digits-IsAscii (d ∷ s) (hd, h) = (ground arith, digits-IsAscii s h)

show_int-IsAscii : (z : ℤ) → IsAscii (show_int z)
unfolding show_int
show_int-IsAscii (pos n) = digits-IsAscii (show_nat n) (show_nat-AllDigits n)
show_int-IsAscii (negsuc n) =
    (omega arith, digits-IsAscii (show_nat (n + 1)) (show_nat-AllDigits (n + 1)))

join-IsAscii : (sep : Str) (ss : List Str) → IsAscii sep → All IsAscii ss → IsAscii (join sep ss)
unfolding join
join-IsAscii sep [] hsep h = tt
join-IsAscii sep (s ∷ []) hsep (hs, h) = hs
join-IsAscii sep (s ∷ t ∷ ss) hsep (hs, h) =
    IsAscii-append s (sep ++ join sep (t ∷ ss)) hs
      (IsAscii-append sep (join sep (t ∷ ss)) hsep (join-IsAscii sep (t ∷ ss) hsep h))

members-IsAscii :
    (f : Format) (ms : List (Str × Str))
    → IsAscii f.key_sep
    → All (λ e. IsAscii e.1) ms
    → All IsAscii (map (member f) ms)
unfolding member
members-IsAscii f [] hsep h = tt
members-IsAscii f ((k, s) ∷ ms) hsep (hs, h) = (
  IsAscii-append (quote k) (f.key_sep ++ s) (quote-IsAscii k) (IsAscii-append f.key_sep s hsep hs),
  members-IsAscii f ms hsep h,
)

module _ (f : Format) (comma : IsAscii f.item_sep) (colon : IsAscii f.key_sep) where
  mutual
    unfolding dumps print_members

    dumps-IsAscii : (v : Json) → IsPlain v → IsAscii (dumps f v)
    dumps-IsAscii null h = omega arith
    dumps-IsAscii (bool true) h = omega arith
    dumps-IsAscii (bool false) h = omega arith
    dumps-IsAscii (int z) h = show_int-IsAscii z
    dumps-IsAscii (real t) h = absurd h
    dumps-IsAscii (str s) h = quote-IsAscii s
    dumps-IsAscii (arr xs) h = (
      omega arith,
      IsAscii-append (join f.item_sep (dump_items f xs)) (b']' ∷ [])
          (join-IsAscii f.item_sep (dump_items f xs) comma (dump_items-IsAscii xs h))
          (omega arith, tt),
    )
    dumps-IsAscii (obj fs) h = (
      omega arith,
      IsAscii-append (join f.item_sep (map (member f) (ordered f (dump_fields f fs)))) (b'}' ∷ [])
          (join-IsAscii f.item_sep (map (member f) (ordered f (dump_fields f fs))) comma (
            members-IsAscii f (ordered f (dump_fields f fs)) colon
              (ordered-All f (λ e. IsAscii e.1) (dump_fields f fs) (dump_fields-IsAscii fs h))))
          (omega arith, tt),
    )

    dump_items-IsAscii : (xs : Items) → IsPlainItems xs → All IsAscii (dump_items f xs)
    dump_items-IsAscii nil h = tt
    dump_items-IsAscii (cons v vs) (hv, h) = (dumps-IsAscii v hv, dump_items-IsAscii vs h)

    dump_fields-IsAscii :
        (fs : Fields) → IsPlainFields fs → All (λ e. IsAscii e.1) (dump_fields f fs)
    dump_fields-IsAscii end h = tt
    dump_fields-IsAscii (field k v fs) (hk, _, hv, h) =
        (dumps-IsAscii v hv, dump_fields-IsAscii fs h)

  -- The bytes of what `json.dumps` wrote are read back too.
  pub loads_bytes-dumps :
      (repr_float : Str → Str) (readable : IsReadable f) (v : Json)
      → IsPlain v
      → loads_bytes repr_float (dumps f v) ≡ ok (printed f v)
  unfolding loads_bytes
  loads_bytes-dumps repr_float readable v h =
      rw (decode_utf8_ascii (dumps f v) (dumps-IsAscii v h)) (loads-dumps repr_float f readable v h)

if_false {ℓ} : {A : Type ℓ} (b : Bool) (x y : A) → b ≡ false → (if b then x else y) ≡ y
if_false b x y e = rw e refl

-- A format that does not sort leaves the members in their order.
module _ (f : Format) (unsorted : f.sorts ≡ false) where
  mutual
    pub printed_unsorted : (v : Json) → printed f v ≡ v
    printed_unsorted null = refl
    printed_unsorted (bool b) = refl
    printed_unsorted (int z) = refl
    printed_unsorted (real t) = refl
    printed_unsorted (str s) = refl
    printed_unsorted (arr xs) = ap arr (printed_items_unsorted xs)
    printed_unsorted (obj fs) =
        ap (λ d. obj (fields d)) (if_false f.sorts _ (printed_fields f fs) unsorted)
        ∙ ap obj (printed_fields_unsorted fs)

    printed_items_unsorted : (xs : Items) → items (printed_items f xs) ≡ xs
    printed_items_unsorted nil = refl
    printed_items_unsorted (cons v vs) = ap₂ cons (printed_unsorted v) (printed_items_unsorted vs)

    printed_fields_unsorted : (fs : Fields) → fields (printed_fields f fs) ≡ fs
    printed_fields_unsorted end = refl
    printed_fields_unsorted (field k v fs) =
        ap₂ (field k) (printed_unsorted v) (printed_fields_unsorted fs)
