-- ===== src/Storage/Shares.antt =====
-- `ShareIndex` of storage.py.
pub mod Spec
use cisc468_python.Base.{
  Str, codes, Bool, true, false, List, [], ◌∷◌, map, Option, none, some, Exec, pure, modify, ◌>>◌,
  ok, ◌≡◌, refl, if◌then◌else◌, str_eq, str_eq_iff, is_some, arith,
}
use cisc468_python.Base.Dict.{Dict, lookup, insert, erase, values, lookup-insert, lookup-erase}
use cisc468_python.Json.{Json, str, nat, obj, Fields, fields}
use cisc468_python.Node.{SharedFile, Node}

-- `to_public_dict`: all fields but the path
unfoldable pub to_public_dict : SharedFile → Fields
to_public_dict f = fields (
    (codes "file_id", str f.file_id)
    ∷ (codes "filename", str f.filename)
    ∷ (codes "sha256_hex", str f.sha256_hex)
    ∷ (codes "size", nat f.size)
    ∷ (codes "original_owner", str f.original_owner)
    ∷ (codes "manifest_sig", str f.manifest_sig)
    ∷ (codes "timestamp", str f.timestamp)
    ∷ [])

save : Exec Node (Unit {0})
save = modify λ n. record n { shares_file = some n.shares }

unfoldable pub add : SharedFile → Exec Node (Unit {0})
unfolding save
add f = do modify (λ n. record n { shares = insert f.file_id f n.shares }); save

remove_found : Option SharedFile → Str → Exec Node Bool
unfolding save
remove_found none file_id = pure false
remove_found (some f) file_id = do
  modify (λ n. record n { shares = erase file_id n.shares })
  save
  pure true

unfoldable pub remove : Str → Exec Node Bool
unfolding remove_found
remove file_id n = remove_found (lookup file_id n.shares) file_id n

unfoldable pub get : Str → Dict SharedFile → Option SharedFile
get file_id d = lookup file_id d

-- `all`
unfoldable pub all : Dict SharedFile → List SharedFile
all d = values d

unfoldable pub public_list : Dict SharedFile → List Json
public_list d = map (λ f. obj (to_public_dict f)) (values d)

-- `remove` says whether the file was in the index. After it the file is not found and every other
-- file is found as before. If there was one, the index on disk is the one in memory; if not,
-- nothing was written.
pub get-remove :
    (file_id other : Str) (n : Node)
    → let (r, n') = remove file_id n in
      (r ≡ ok (is_some (get file_id n.shares)))
      × (get other n'.shares ≡ (if str_eq file_id other then none else get other n.shares))
      × (n'.shares_file
          ≡ (if is_some (get file_id n.shares) then some n'.shares else n.shares_file))
unfolding remove get
get-remove file_id other n = (
  ground arith,
  ground (arith, lookup-erase file_id other n.shares, str_eq_iff file_id other),
  ground arith,
)

-- After `add` the file is found under its identifier, every other one as before, and the index on
-- disk is the one in memory.
pub get-add :
    (f : SharedFile) (other : Str) (n : Node)
    → let (r, n') = add f n in
      (get other n'.shares ≡ (if str_eq f.file_id other then some f else get other n.shares))
      × (n'.shares_file ≡ some n'.shares)
unfolding add get
get-add f other n = (lookup-insert f.file_id other f n.shares, refl)
