-- ===== src/Json/Loads/Ordering.antt =====
-- Members in the order in which `json.dumps` prints them, and a dict that is built from them.
use cisc468_python.Base.{
  Str, str_eq, str_eq_iff, if◌then◌else◌, false, Bool-cases, inl, inr, List, [], ◌∷◌, ◌++◌, map,
  ◌≡◌, refl, sym, ap, ◌∙◌, arith, All, append_assoc, append-nil,
}
use cisc468_python.Base.Dict.{Dict, insert}
use cisc468_python.Json.{Json}
use cisc468_python.Json.Dumps.{Format}
use cisc468_python.Json.Sorting.{str_le, insert_sorted, sort_keys}
use cisc468_python.Json.Loads.{dict_of}

module _ {ℓ} {V : Type ℓ} where
  insert_sorted-All {κ} :
      (P : Str × V → Type κ) (k : Str) (v : V) (d : List (Str × V))
      → P (k, v)
      → All P d
      → All P (insert_sorted k v d)
  unfolding insert_sorted
  insert_sorted-All P k v [] hk h = (hk, tt)
  insert_sorted-All P k v ((j, w) ∷ d) hk (hj, h) = elim (Bool-cases (str_le k j)) [
    | inl first ↦ rw first (hk, (hj, h))
    | inr later ↦ rw later (hj, insert_sorted-All P k v d hk h)
  ]

  All-insert_sorted {κ} :
      (P : Str × V → Type κ) (k : Str) (v : V) (d : List (Str × V))
      → All P (insert_sorted k v d)
      → P (k, v) × All P d
  unfolding insert_sorted
  All-insert_sorted P k v [] (hk, h) = (hk, tt)
  All-insert_sorted P k v ((j, w) ∷ d) h = elim (Bool-cases (str_le k j)) [
    | inl first ↦ rw first at h
    | inr later ↦
        let (hj, rest) = rw later at h in
        let (hk, hd) = All-insert_sorted P k v d rest in (hk, (hj, hd))
  ]

  -- What holds of every member holds of every one in the order of the keys, and back.
  sort_keys-All {κ} : (P : Str × V → Type κ) (d : List (Str × V)) → All P d → All P (sort_keys d)
  unfolding sort_keys
  sort_keys-All P [] h = tt
  sort_keys-All P ((k, v) ∷ d) (hk, h) =
      insert_sorted-All P k v (sort_keys d) hk (sort_keys-All P d h)

  All-sort_keys {κ} : (P : Str × V → Type κ) (d : List (Str × V)) → All P (sort_keys d) → All P d
  unfolding sort_keys
  All-sort_keys P [] h = tt
  All-sort_keys P ((k, v) ∷ d) h =
      let (hk, hd) = All-insert_sorted P k v (sort_keys d) h in (hk, All-sort_keys P d hd)

  -- No member has this key.
  abbrev pub Fresh : Str → List (Str × V) → Type 0
  Fresh k d = All (λ e. str_eq k e.0 ≡ false) d

  abbrev pub Unique : List (Str × V) → Type 0
  Unique [] = Unit
  Unique ((k, v) ∷ d) = Fresh k d × Unique d

  insert_sorted-Unique :
      (k : Str) (v : V) (d : List (Str × V)) → Fresh k d → Unique d → Unique (insert_sorted k v d)
  unfolding insert_sorted
  insert_sorted-Unique k v [] f u = (tt, tt)
  insert_sorted-Unique k v ((j, w) ∷ d) (fj, f) (g, u) = elim (Bool-cases (str_le k j)) [
    | inl first ↦ rw first ((fj, f), (g, u))
    | inr later ↦
        let back : str_eq j k ≡ false = ground (arith, str_eq_iff j k, str_eq_iff k j) in
        rw later (
          insert_sorted-All (λ e. str_eq j e.0 ≡ false) k v d back g,
          insert_sorted-Unique k v d f u,
        )
  ]

  sort_keys-Unique : (d : List (Str × V)) → Unique d → Unique (sort_keys d)
  unfolding sort_keys
  sort_keys-Unique [] u = tt
  sort_keys-Unique ((k, v) ∷ d) (f, u) =
      insert_sorted-Unique k v (sort_keys d) (sort_keys-All (λ e. str_eq k e.0 ≡ false) d f)
        (sort_keys-Unique d u)

-- A map of the values leaves the order of the keys.
abbrev pub on_value {ℓ κ} : {V : Type ℓ} {W : Type κ} → (V → W) → Str × V → Str × W
on_value g (k, v) = (k, g v)

module _ {ℓ κ} {V : Type ℓ} {W : Type κ} (g : V → W) where
  insert_sorted-map :
      (k : Str) (v : V) (d : List (Str × V))
      → insert_sorted k (g v) (map (on_value g) d) ≡ map (on_value g) (insert_sorted k v d)
  unfolding insert_sorted
  insert_sorted-map k v [] = refl
  insert_sorted-map k v ((j, w) ∷ d) = elim (Bool-cases (str_le k j)) [
    | inl first ↦ rw first refl
    | inr later ↦ rw later (ap (λ t. (j, g w) ∷ t) (insert_sorted-map k v d))
  ]

  sort_keys-map :
      (d : List (Str × V)) → sort_keys (map (on_value g) d) ≡ map (on_value g) (sort_keys d)
  unfolding sort_keys
  sort_keys-map [] = refl
  sort_keys-map ((k, v) ∷ d) =
      ap (insert_sorted k (g v)) (sort_keys-map d) ∙ insert_sorted-map k v (sort_keys d)

-- The members as `print_members` orders them.
abbrev pub ordered {ℓ} : {V : Type ℓ} → Format → List (Str × V) → List (Str × V)
ordered f d = if f.sorts then sort_keys d else d

module _ {ℓ} {V : Type ℓ} (f : Format) where
  pub ordered-All {κ} : (P : Str × V → Type κ) (d : List (Str × V)) → All P d → All P (ordered f d)
  ordered-All P d h = elim (Bool-cases f.sorts) [
    | inl e ↦ rw e (sort_keys-All P d h)
    | inr e ↦ rw e h
  ]

  pub All-ordered {κ} : (P : Str × V → Type κ) (d : List (Str × V)) → All P (ordered f d) → All P d
  All-ordered P d h = elim (Bool-cases f.sorts) [
    | inl e ↦ All-sort_keys P d (rw e at h)
    | inr e ↦ rw e at h
  ]

  pub ordered-Unique : (d : List (Str × V)) → Unique d → Unique (ordered f d)
  ordered-Unique d u = elim (Bool-cases f.sorts) [
    | inl e ↦ rw e (sort_keys-Unique d u)
    | inr e ↦ rw e u
  ]

pub ordered-map {ℓ κ} :
    {V : Type ℓ} {W : Type κ} (f : Format) (g : V → W) (d : List (Str × V))
    → ordered f (map (on_value g) d) ≡ map (on_value g) (ordered f d)
ordered-map f g d = elim (Bool-cases f.sorts) [
  | inl e ↦ rw e (sort_keys-map g d)
  | inr e ↦ rw e refl
]

module _ {ℓ κ} {V : Type ℓ} {W : Type κ} (g : V → W) where
  map-Fresh : (k : Str) (d : List (Str × V)) → Fresh k d → Fresh k (map (on_value g) d)
  map-Fresh k [] f = tt
  map-Fresh k ((j, w) ∷ d) (fj, f) = (fj, map-Fresh k d f)

  pub map-Unique : (d : List (Str × V)) → Unique d → Unique (map (on_value g) d)
  map-Unique [] u = tt
  map-Unique ((k, v) ∷ d) (f, u) = (map-Fresh k d f, map-Unique d u)

module _ {ℓ} {V : Type ℓ} where
  differs_last :
      (j k : Str) (v : V) (front back : Dict V)
      → Fresh j (front ++ (k, v) ∷ back)
      → str_eq j k ≡ false
  differs_last j k v [] back (fk, f) = fk
  differs_last j k v ((i, x) ∷ front) back (fi, f) = differs_last j k v front back f

  pub insert_last :
      (k : Str) (v : V) (front back : Dict V)
      → Unique (front ++ (k, v) ∷ back)
      → insert k v front ≡ front ++ (k, v) ∷ []
  unfolding insert
  insert_last k v [] back u = refl
  insert_last k v ((j, w) ∷ front) back (f, u) =
      rw (differs_last j k v front back f) (ap (λ t. (j, w) ∷ t) (insert_last k v front back u))

dict_of-append : (kvs front : Dict Json) → Unique (front ++ kvs) → dict_of kvs front ≡ front ++ kvs
unfolding dict_of
dict_of-append [] front u = sym (append-nil front)
dict_of-append ((k, v) ∷ kvs) front u =
    ap (dict_of kvs) (insert_last k v front kvs u)
    ∙ dict_of-append kvs (front ++ (k, v) ∷ []) (rw append_assoc u)
    ∙ append_assoc front ((k, v) ∷ []) kvs

-- A dict of members whose keys differ has just these members.
pub dict_of-Unique : (kvs : Dict Json) → Unique kvs → dict_of kvs [] ≡ kvs
dict_of-Unique kvs u = dict_of-append kvs [] u
