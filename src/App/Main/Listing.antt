-- ===== src/App/Main/Listing.antt =====
-- What `cmd_list_contacts` and `cmd_list_files` print.
use cisc468_python.Base.{
  ℕ, zero, suc, ◌+◌, Str, codes, take, true, false, if◌then◌else◌, List, [], ◌∷◌, ◌++◌, Option,
  none, some, Result, ok, err, bind_result, attribute_error, type_error, length, ◌≡◌, ◌↔◌, arith,
}
use cisc468_python.Json.{Json, str, text, arr, obj, Items, nil, cons, get, index, truthy}
use cisc468_python.Json.Dumps.{show_nat}
use cisc468_python.Runtime.{Runtime, py_str}
use cisc468_python.Node.{Contact}

or_text : Str → Str → Str
or_text [] d = d
or_text (c ∷ s) d = c ∷ s

successor_note : Option Str → Str
successor_note none = []
successor_note (some []) = []
successor_note (some (c ∷ s)) = codes " → " ++ (take 16 (c ∷ s) ++ codes "...")

unfoldable pub status_of : Contact → Str
unfolding successor_note
status_of c =
    if c.revoked
    then codes "✗ REVOKED" ++ successor_note c.successor_fp
    else if c.verified
    then codes "✓ verified"
    else codes "? unverified"

abbrev count_items : Items → ℕ
count_items nil = 0
count_items (cons v vs) = count_items vs + 1

module _ (r : Runtime) where
  lines_of : Contact → List Str
  unfolding or_text status_of
  lines_of c =
      (codes "  " ++ or_text c.alias (codes "(no alias)"))
      ∷ (codes "    fingerprint : " ++ c.fingerprint)
      ∷ (codes "    address     : " ++ (c.host ++ (codes ":" ++ py_str r c.port)))
      ∷ (codes "    status      : " ++ status_of c)
      ∷ []
      ∷ []

  all_lines : List Contact → List Str
  unfolding lines_of
  all_lines [] = []
  all_lines (c ∷ cs) = lines_of c ++ all_lines cs

  unfoldable pub contact_lines : List Contact → List Str
  unfolding all_lines
  contact_lines [] = codes "No contacts." ∷ []
  contact_lines (c ∷ cs) =
      [] ∷ (show_nat (length (c ∷ cs)) ++ codes " contact(s):") ∷ [] ∷ all_lines (c ∷ cs)

  take_items : ℕ → Items → Items
  take_items n nil = nil
  take_items zero (cons v vs) = nil
  take_items (suc n) (cons v vs) = cons v (take_items n vs)

  -- `f.get("original_owner", "?")[:16]`
  shortened : Json → Result Json
  unfolding take_items
  shortened (str s) = ok (str (take 16 s))
  shortened (arr vs) = ok (arr (take_items 16 vs))
  shortened _ = err type_error

  file_lines : Json → Result (List Str)
  unfolding shortened
  file_lines f = bind_result (get f (codes "original_owner") (text "?")) λ owner.
      bind_result (shortened owner) λ owner_short.
        bind_result (index f (codes "filename")) λ filename.
          bind_result (index f (codes "file_id")) λ file_id.
            bind_result (index f (codes "sha256_hex")) λ sha.
              bind_result (index f (codes "size")) λ size. ok (
                (codes "  " ++ py_str r filename)
                ∷ (codes "    file_id  : " ++ py_str r file_id)
                ∷ (codes "    SHA-256  : " ++ py_str r sha)
                ∷ (codes "    size     : " ++ (py_str r size ++ codes " bytes"))
                ∷ (codes "    owner    : " ++ (py_str r owner_short ++ codes "..."))
                ∷ []
                ∷ [])

  each_file : Items → Result (List Str)
  unfolding file_lines
  each_file nil = ok []
  each_file (cons f fs) =
      let rest = each_file fs in
      bind_result (file_lines f) (λ ls. bind_result rest (λ more. ok (ls ++ more)))

  -- The list that the peer sent, of any type: a dict or a text has texts as its elements, which have
  -- no `get`, and a number has no length.
  unfoldable pub listing_lines : Json → Result (List Str)
  unfolding each_file
  listing_lines files =
      if truthy files
      then (elim files [
        | arr fs ↦
            bind_result (each_file fs)
              (λ ls. ok ([] ∷ (show_nat (count_items fs) ++ codes " file(s):") ∷ [] ∷ ls))
        | obj fs ↦ err attribute_error
        | str s ↦ err attribute_error
        | _ ↦ err type_error
      ])
      else ok (codes "No files available from that peer." ∷ [])

-- A contact is shown as verified exactly when it is, and has not been revoked.
pub status_of-verified :
    (c : Contact) → (status_of c ≡ codes "✓ verified") ↔ ((c.verified ≡ true) × (c.revoked ≡ false))
unfolding status_of
status_of-verified c = ground arith
