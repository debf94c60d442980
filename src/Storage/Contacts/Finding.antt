-- ===== src/Storage/Contacts/Finding.antt =====
-- What `ContactStore.get` finds, and what the store keeps: each key once, over its own contact.
use cisc468_python.Base.{
  Str, str_eq, str_eq_iff, str_eq_refl, starts_with, true, [], ◌∷◌, none, some, All, ◌≡◌, ◌⊎◌, inl,
  inr, refl, arith, Bool-cases, Option-cases,
}
use cisc468_python.Base.Dict.{Dict, lookup, insert, lookup-insert}
use cisc468_python.Node.{Contact}
use cisc468_python.Storage.Contacts.{find, get, lower, matching, only}

-- Each key once.
abbrev pub NodupKeys : Dict Contact → Type 0
NodupKeys [] = Unit
NodupKeys ((k, c) ∷ d) = (lookup k d ≡ none) × NodupKeys d

-- A contact stands under its own fingerprint.
abbrev pub Keyed : Dict Contact → Type 0
Keyed d = All (λ (k, c). c.fingerprint ≡ k) d

pub insert-NodupKeys :
    (k : Str) (c : Contact) (d : Dict Contact) → NodupKeys d → NodupKeys (insert k c d)
unfolding insert
insert-NodupKeys k c [] h = (unfold lookup in refl, tt)
insert-NodupKeys k c ((j, w) ∷ d) (fresh, h) = elim (Bool-cases (str_eq j k)) [
  | inl same ↦ rw same (fresh, h)
  | inr differ ↦ rw differ (
    ground (arith, lookup-insert k j c d, str_eq_iff j k, str_eq_iff k j),
    insert-NodupKeys k c d h,
  )
]

pub insert-Keyed :
    (k : Str) (c : Contact) (d : Dict Contact) → c.fingerprint ≡ k → Keyed d → Keyed (insert k c d)
unfolding insert
insert-Keyed k c [] e h = (e, tt)
insert-Keyed k c ((j, w) ∷ d) e (hj, h) = elim (Bool-cases (str_eq j k)) [
  | inl same ↦ rw same (ground (arith, str_eq_iff j k), h)
  | inr differ ↦ rw differ (hj, insert-Keyed k c d e h)
]

pub lookup-Keyed :
    (k : Str) (c : Contact) (d : Dict Contact) → Keyed d → lookup k d ≡ some c → c.fingerprint ≡ k
unfolding lookup
lookup-Keyed k c [] h e = cc
lookup-Keyed k c ((j, w) ∷ d) (hj, h) e = ground (arith, str_eq_iff j k, lookup-Keyed k c d h)

-- A key that no entry of the dict has is no key of the matches.
matching-absent :
    (fp k : Str) (d : Dict Contact) → lookup k d ≡ none → lookup k (matching fp d) ≡ none
unfolding matching lookup
matching-absent fp k [] h = refl
matching-absent fp k ((j, w) ∷ d) h = ground (arith, matching-absent fp k d)

lookup-matching :
    (fp k : Str) (c : Contact) (d : Dict Contact)
    → NodupKeys d
    → lookup k (matching fp d) ≡ some c
    → (lookup k d ≡ some c) × (starts_with k fp ≡ true)
unfolding matching lookup
lookup-matching fp k c [] u e = cc
lookup-matching fp k c ((j, w) ∷ d) (fresh, u) e =
    ground (arith, lookup-matching fp k c d u, matching-absent fp j d fresh, str_eq_iff j k)

only_entry : (k : Str) (c : Contact) → lookup k ((k, c) ∷ []) ≡ some c
unfolding lookup
only_entry k c = rw str_eq_refl

only_sound : (ms : Dict Contact) (e : Str × Contact) → only ms ≡ some e → ms ≡ e ∷ []
unfolding only
only_sound [] e h = cc
only_sound (x ∷ []) e h = cc
only_sound (x ∷ y ∷ ms) e h = cc

-- `find` returns the contact under the lower-cased fingerprint, or else the one contact whose key
-- begins with it.
find_cases :
    (fingerprint k : Str) (c : Contact) (d : Dict Contact)
    → find fingerprint d ≡ some (k, c)
    → ((k ≡ lower fingerprint) × (lookup (lower fingerprint) d ≡ some c))
      ⊎ ((lookup (lower fingerprint) d ≡ none) × (matching (lower fingerprint) d ≡ (k, c) ∷ []))
unfolding find
find_cases fingerprint k c d e = elim (Option-cases (lookup (lower fingerprint) d)) [
  | inl absent ↦ inr (
    absent,
    only_sound (matching (lower fingerprint) d) (k, c) (rw (← e) (rw (absent, find) refl)),
  )
  | inr (w, found) ↦ inl (ground arith)
]

-- What is found stands in the dict, under the key that is given with it, and that key is the
-- fingerprint in lower case or begins with it.
pub find_sound :
    (fingerprint k : Str) (c : Contact) (d : Dict Contact)
    → NodupKeys d
    → find fingerprint d ≡ some (k, c)
    → (lookup k d ≡ some c) × ((k ≡ lower fingerprint) ⊎ (starts_with k (lower fingerprint) ≡ true))
find_sound fingerprint k c d u e = elim (find_cases fingerprint k c d e) [
  | inl (same, found) ↦ (rw same found, inl same)
  | inr (absent, one) ↦
      let inside = lookup-matching (lower fingerprint) k c d u (rw one (only_entry k c)) in
      (inside.0, inr inside.1)
]

-- A fingerprint in lower case that is a key of the store finds the contact of that key.
pub find_exact :
    (k : Str) (c : Contact) (d : Dict Contact)
    → lower k ≡ k
    → lookup k d ≡ some c
    → find k d ≡ some (k, c)
unfolding find
find_exact k c d e h = rw (e, h)

pub get-find :
    (fingerprint k : Str) (c : Contact) (d : Dict Contact)
    → find fingerprint d ≡ some (k, c)
    → get fingerprint d ≡ some c
unfolding get
get-find fingerprint k c d h = rw (h, get) refl
