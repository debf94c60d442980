-- ===== src/Storage/Shares/Spec.antt =====
-- What a share index promises: it is a finite map from identifiers to files. The dict with its order,
-- the results of the operations and the file on disk refine the map.
use mathlib.Core.Path.{fun_ext, ap₂}
use cisc468_python.Base.{
  Str, str_eq, if◌then◌else◌, is_some, Bool, true, false, List, [], ◌∷◌, Option, none, some, Result,
  ok, ◌≡◌, ◌⊎◌, inl, inr, refl, ap, ◌∙◌, Option-cases,
}
use cisc468_python.Base.Dict.{lookup}
use cisc468_python.Node.{SharedFile, Node}
use cisc468_python.Storage.Shares.{add, remove, remove_found, get, get-add, get-remove}

pub data Operation : Type 0 where
  adds : SharedFile → Operation
  removes : Str → Operation

-- The abstract index.
abbrev pub Index : Type 0
Index = Str → Option SharedFile

-- What an operation does to the map, and what it answers.
unfoldable pub spec_step : Operation → Index → Index
spec_step (adds f) m = λ id. if str_eq f.file_id id then some f else m id
spec_step (removes file_id) m = λ id. if str_eq file_id id then none else m id

unfoldable pub spec_answer : Operation → Index → Bool
spec_answer (adds f) m = true
spec_answer (removes file_id) m = is_some (m file_id)

unfoldable pub spec_run : List Operation → Index → List Bool × Index
unfolding spec_step spec_answer
spec_run [] m = ([], m)
spec_run (op ∷ ops) m =
    let (answers, m') = spec_run ops (spec_step op m) in (spec_answer op m ∷ answers, m')

-- The same operations of the program. `add` answers nothing, and never fails.
answer_of : Result Bool → Bool
answer_of (ok b) = b
answer_of _ = false

operate : Operation → Node → Bool × Node
unfolding answer_of
operate (adds f) n = (true, (add f n).1)
operate (removes file_id) n = let (res, n') = remove file_id n in (answer_of res, n')

unfoldable pub operate_all : List Operation → Node → List Bool × Node
unfolding operate
operate_all [] n = ([], n)
operate_all (op ∷ ops) n =
    let (b, n₁) = operate op n in let (answers, n') = operate_all ops n₁ in (b ∷ answers, n')

-- The map that a peer's index stands for.
abbrev pub index_of : Node → Index
index_of n = λ id. get id n.shares

-- The index on disk, once it was written, is the one in memory.
abbrev pub IsSynced : Node → Type 0
IsSynced n = ((n.shares ≡ []) × (n.shares_file ≡ none)) ⊎ (n.shares_file ≡ some n.shares)

operate-step :
    (op : Operation) (n : Node)
    → ((operate op n).0 ≡ spec_answer op (index_of n))
      × (index_of (operate op n).1 ≡ spec_step op (index_of n))
unfolding operate spec_step spec_answer
operate-step (adds f) n = (refl, fun_ext (λ id. (get-add f id n).0))
operate-step (removes file_id) n =
    (ap answer_of (get-remove file_id file_id n).0, fun_ext (λ id. (get-remove file_id id n).1))

operate-IsSynced : (op : Operation) (n : Node) → IsSynced n → IsSynced (operate op n).1
unfolding operate remove
operate-IsSynced (adds f) n h = inr (get-add f f.file_id n).1
operate-IsSynced (removes file_id) n h = elim (Option-cases (lookup file_id n.shares)) [
  | inl absent ↦ rw (absent, remove_found) h
  | inr (f, found) ↦ rw (found, remove_found) (inr refl)
]

-- After any sequence of calls of `add` and `remove`, the share index gives the same answers as the
-- map, and `get` finds under every identifier exactly what the map has; and the index on disk, once it
-- was written, is still the one in memory.
pub operate_all-spec_run :
    (ops : List Operation) (n : Node)
    → IsSynced n
    → let (answers, n') = operate_all ops n in
      (answers ≡ (spec_run ops (index_of n)).0)
      × (index_of n' ≡ (spec_run ops (index_of n)).1)
      × IsSynced n'
unfolding operate_all spec_run
operate_all-spec_run [] n h = (refl, refl, h)
operate_all-spec_run (op ∷ ops) n h =
    let n₁ = (operate op n).1 in
    let (answer, map) = operate-step op n in
    let (answers, index, synced) = operate_all-spec_run ops n₁ (operate-IsSynced op n h) in
    (
      ap₂ ◌∷◌ answer (answers ∙ ap (λ m. (spec_run ops m).0) map),
      index ∙ ap (λ m. (spec_run ops m).1) map,
      synced,
    )
