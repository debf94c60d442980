-- ===== src/Json/Loads/Elements.antt =====
-- What `json.dumps` prints for the elements of a list, or the members of an object, is read as them.
use cisc468_python.Base.{
  ℕ, zero, suc, ◌≤◌, Str, ◌==◌, Bool, true, false, ◌||◌, not, List, [], ◌∷◌, ◌++◌, map, some, ◌≡◌,
  refl, sym, ap, ◌∙◌, arith, All, length, append-nil, append_assoc,
}
use cisc468_python.Json.{Json}
use cisc468_python.Json.Dumps.{join, member, quote, Format}
use cisc468_python.Json.Lexer.{is_space, skip, read_text}
use cisc468_python.Json.Lexer.Texts.{IsScalar, read_text-quote}
use cisc468_python.Json.Loads.{Reader, read_elements, read_member}

-- A value ends here: at the end of the text, or before what may follow in a list or an object.
abbrev pub ends : Str → Bool
ends [] = true
ends (c ∷ s) = c == b',' || c == b']' || c == b'}'

-- The text is not empty, and starts neither with white space nor with a closing bracket.
abbrev pub starts_value : Str → Bool
starts_value [] = false
starts_value (c ∷ s) = not (is_space c || c == b']' || c == b'}')

abbrev pub AllSpace : Str → Type 0
AllSpace s = All (λ c. is_space c ≡ true) s

pub skip-starts_value : (s t : Str) → starts_value s ≡ true → skip (s ++ t) ≡ s ++ t
unfolding skip
skip-starts_value [] t h = absurd (cc)
skip-starts_value (c ∷ s) t h = ground arith

pub skip-AllSpace : (sp t : Str) → AllSpace sp → skip (sp ++ t) ≡ skip t
unfolding skip
skip-AllSpace [] t h = refl
skip-AllSpace (c ∷ sp) t (hc, h) = rw (hc, skip-AllSpace sp t h) refl

pub starts_value-append : (s t : Str) → starts_value s ≡ true → starts_value (s ++ t) ≡ true
starts_value-append [] t h = absurd (cc)
starts_value-append (c ∷ s) t h = h

-- `p` reads this text as this value, whatever follows.
abbrev pub ReadsAs {ℓ} : {A : Type ℓ} → Reader A → Str → A → Type ℓ
ReadsAs p s a =
    (starts_value s ≡ true) × ((rest : Str) → ends rest ≡ true → p (s ++ rest) ≡ some (a, rest))

pub join-starts_value :
    (sep s : Str) (ss : List Str) → starts_value s ≡ true → starts_value (join sep (s ∷ ss)) ≡ true
unfolding join
join-starts_value sep s [] h = h
join-starts_value sep s (t ∷ ss) h = starts_value-append s (sep ++ join sep (t ∷ ss)) h

-- A closing bracket: one that `ends` knows.
abbrev pub closes : ℕ → Bool
closes c = c == b']' || c == b'}'

module _ {ℓ} {A : Type ℓ} (close : ℕ) (p : Reader A) where
  last_element :
      (g : ℕ) (s rest : Str) (a : A)
      → closes close ≡ true
      → ReadsAs p s a
      → read_elements close p (suc g) (s ++ close ∷ rest) ≡ some (a ∷ [], rest)
  unfolding read_elements
  last_element g s rest a c (hs, h) =
      let stop : ends (close ∷ rest) ≡ true = ground arith in
      let solid : is_space close ≡ false = ground arith in
      let same : (close == close) ≡ true = ground arith in
      rw (h (close ∷ rest) stop, solid, same) refl

  more_elements :
      (g : ℕ) (s sp t rest : Str) (a : A) (xs : List A)
      → AllSpace sp
      → closes close ≡ true
      → starts_value t ≡ true
      → ReadsAs p s a
      → read_elements close p g t ≡ some (xs, rest)
      → read_elements close p (suc g) (s ++ ((b',' ∷ sp) ++ t)) ≡ some (a ∷ xs, rest)
  unfolding read_elements
  more_elements g s sp t rest a xs space c ht (hs, h) more =
      let other : (b',' == close) ≡ false = ground arith in
      let start : skip (sp ++ t) ≡ t =
        skip-AllSpace sp t space
        ∙ ap skip (sym (append-nil t))
        ∙ skip-starts_value t [] ht
        ∙ append-nil t in
      rw (h ((b',' ∷ sp) ++ t) refl, other, start, more) refl

  -- The printed elements, with what `p` reads each as.
  pub read_elements-join :
      (g : ℕ) (sp rest : Str) (e : A × Str) (es : List (A × Str))
      → length es ≤ g
      → AllSpace sp
      → closes close ≡ true
      → All (λ x. ReadsAs p x.1 x.0) (e ∷ es)
      → read_elements close p (suc g) (join (b',' ∷ sp) (map (λ x. x.1) (e ∷ es)) ++ close ∷ rest)
        ≡ some (map (λ x. x.0) (e ∷ es), rest)
  unfolding join
  read_elements-join g sp rest (a, s) [] k space c (h, hs) = last_element g s rest a c h
  read_elements-join zero sp rest e (e₁ ∷ es) k space c h = absurd (omega arith)
  read_elements-join (suc g) sp rest (a, s) ((a₁, s₁) ∷ es) k space c (h, (h₁, hs)) =
      let more = join (b',' ∷ sp) (s₁ ∷ map (λ x. x.1) es) in
      let tail = more ++ close ∷ rest in
      ap (read_elements close p (suc (suc g))) (
        append_assoc s ((b',' ∷ sp) ++ more) (close ∷ rest)
        ∙ ap (λ t. s ++ t) (append_assoc (b',' ∷ sp) more (close ∷ rest)))
      ∙ more_elements (suc g) s sp tail rest a (a₁ ∷ map (λ x. x.0) es) space c
          (starts_value-append more (close ∷ rest)
            (join-starts_value (b',' ∷ sp) s₁ (map (λ x. x.1) es) h₁.0))
          h (read_elements-join g sp rest (a₁, s₁) es (omega arith) space c (h₁, hs))

module _ (p : Reader Json) where
  read_member_parts :
      (k body sp s rest : Str) (v : Json)
      → read_text (suc (length body)) body ≡ some (k, (b':' ∷ sp) ++ (s ++ rest))
      → AllSpace sp
      → starts_value s ≡ true
      → p (s ++ rest) ≡ some (v, rest)
      → read_member p (34 ∷ body) ≡ some ((k, v), rest)
  unfolding read_member
  read_member_parts k body sp s rest v text space start value =
      rw (text, skip-AllSpace sp (s ++ rest) space, skip-starts_value s rest start, value) refl

  -- A member prints as its key in quotes, a colon, and its value.
  pub member-ReadsAs :
      (f : Format) (k sp s : Str) (v : Json)
      → f.key_sep ≡ b':' ∷ sp
      → AllSpace sp
      → All IsScalar k
      → ReadsAs p s v
      → ReadsAs (read_member p) (member f (k, s)) (k, v)
  unfolding member
  member-ReadsAs f k sp s v e space scalar (start, h) = (
    unfold quote in refl,
    λ rest stop.
        let (body, text, read) = read_text-quote k ((b':' ∷ sp) ++ (s ++ rest)) scalar in
        ap (read_member p) (
          append_assoc (quote k) (f.key_sep ++ s) rest
          ∙ ap (λ t. quote k ++ t) (ap (λ x. (x ++ s) ++ rest) e ∙ append_assoc (b':' ∷ sp) s rest)
          ∙ text)
        ∙ read_member_parts k body sp s rest v read space start (h rest stop),
  )
