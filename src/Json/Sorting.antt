-- ===== src/Json/Sorting.antt =====
-- Members in the order of their keys, as `sort_keys=True` prints them.
use Prim.Native.Nat.{compare, Ordering}
use cisc468_python.Base.{Str, Bool, true, false, List, [], ◌∷◌, if◌then◌else◌}

-- `s <= t`, by code points
unfoldable pub str_le : Str → Str → Bool
str_le [] t = true
str_le (a ∷ s) [] = false
str_le (a ∷ s) (b ∷ t) = elim (compare a b) [
  | Ordering.lt ↦ true
  | Ordering.eq ↦ str_le s t
  | Ordering.gt ↦ false
]

module _ {ℓ} {V : Type ℓ} where
  unfoldable pub insert_sorted : Str → V → List (Str × V) → List (Str × V)
  insert_sorted k v [] = (k, v) ∷ []
  insert_sorted k v ((j, w) ∷ d) =
      if str_le k j then (k, v) ∷ (j, w) ∷ d else (j, w) ∷ insert_sorted k v d

  -- `sorted(d.items())`, for a dict, whose keys differ
  unfoldable pub sort_keys : List (Str × V) → List (Str × V)
  unfolding insert_sorted str_le
  sort_keys [] = []
  sort_keys ((k, v) ∷ d) = insert_sorted k v (sort_keys d)
