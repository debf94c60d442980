-- ===== src/Storage/Received.antt =====
-- `ReceivedFileStore` of storage.py. A name that spells the path of another one, as `a/../b` does,
-- is taken for a file of its own.
use cisc468_python.Base.{
  Bytes, Str, codes, Bool, List, [], map, Option, none, some, is_some, Exec, modify, ◌>>=◌, Result,
  ok, err, bind_result, os_error, invalid_tag, ◌≡◌, refl, if◌then◌else◌, str_eq, str_eq_refl,
  Bool-cases, inl, inr, All, ◌<◌,
}
use cisc468_python.Base.Dict.{Dict, lookup, insert, lookup-insert}
use cisc468_python.Json.{Json, str, obj, Fields, end, field, set_field, index, find-set_field}
use cisc468_python.Crypto.Primitives.{aes_gcm_decrypt}
use cisc468_python.Runtime.{Runtime, IsLawful, py_str}
use cisc468_python.Crypto.Base64.{b64e, b64d, b64d-b64e}
use cisc468_python.Node.{Received, Node, urandom}

-- `{**front, **back}`
merged : Fields → Fields → Fields
merged front end = front
merged front (field k v back) = merged (set_field k v front) back

unfoldable pub exists : Str → Dict Received → Bool
exists file_id d = is_some (lookup file_id d)

meta_of : Option Received → Option Fields
meta_of none = none
meta_of (some f) = some f.meta

unfoldable pub get_meta : Str → Dict Received → Option Fields
unfolding meta_of
get_meta file_id d = meta_of (lookup file_id d)

listed : Str × Received → Json
unfolding merged
listed (file_id, f) = obj (merged (field (codes "file_id") (str file_id) end) f.meta)

-- The order of `os.listdir` is that of the model's dict.
unfoldable pub list_files : Dict Received → List Json
unfolding listed
list_files d = map listed d

module _ (r : Runtime) where
  -- The name of the file is the text of `file_id`, of any type.
  unfoldable pub save : Json → Bytes → Fields → Exec Node (Unit {0})
  save file_id plaintext meta = do
    nonce ← urandom r 12
    modify λ n. record n {
      received =
          insert (py_str r file_id)
            (record {
              ciphertext = r.aes_gcm_seal n.file_key nonce plaintext [];
              meta = set_field (codes "nonce") (str (b64e nonce)) meta;
            })
            n.received;
    }

  decrypted : Option Bytes → Fields → Result (Bytes × Fields)
  decrypted none meta = err invalid_tag
  decrypted (some plain) meta = ok (plain, meta)

  load_found : Bytes → Option Received → Result (Bytes × Fields)
  unfolding decrypted
  load_found key none = err os_error
  load_found key (some f) = bind_result (index (obj f.meta) (codes "nonce")) λ nonce_b64.
      bind_result (b64d nonce_b64)
        λ nonce. decrypted (aes_gcm_decrypt r key nonce f.ciphertext) f.meta

  -- `load`: the content and the metadata
  unfoldable pub load : Str → Node → Result (Bytes × Fields)
  unfolding load_found
  load file_id n = load_found n.file_key (lookup file_id n.received)

module _ (r : Runtime) (lawful : IsLawful r) where
  load_saved :
      (key nonce plaintext : Bytes) (meta : Fields)
      → All (λ b. b < 256) nonce
      → load_found r key (
          some (record {
            ciphertext = r.aes_gcm_seal key nonce plaintext [];
            meta = set_field (codes "nonce") (str (b64e nonce)) meta;
          }))
        ≡ ok (plaintext, set_field (codes "nonce") (str (b64e nonce)) meta)
  unfolding load_found index decrypted
  load_saved key nonce plaintext meta h =
      rw
        (
          find-set_field (codes "nonce") (codes "nonce") (str (b64e nonce)) meta,
          str_eq_refl (codes "nonce"),
          b64d-b64e nonce h,
          lawful.open-seal key nonce plaintext [],
        )
        refl

  pub load-save :
      (file_id : Json) (other : Str) (plaintext : Bytes) (meta : Fields) (n : Node)
      → let (done, n') = save r file_id plaintext meta n in
        load r other n' ≡ (
          if str_eq (py_str r file_id) other
          then ok (plaintext, set_field (codes "nonce") (str (b64e (r.urandom n.draws 12))) meta)
          else load r other n)
  unfolding save load urandom
  load-save file_id other plaintext meta n = elim (Bool-cases (str_eq (py_str r file_id) other)) [
    | inl same ↦
        rw (lookup-insert, same)
          (load_saved n.file_key (r.urandom n.draws 12) plaintext meta
            (lawful.urandom-bytes n.draws 12))
    | inr differ ↦ rw (lookup-insert, differ) refl
  ]
