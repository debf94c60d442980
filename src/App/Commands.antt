-- ===== src/App/Commands.antt =====
-- The commands of p2pshare.py that change what a peer keeps. The stores are loaded, and the
-- answers of the user are arguments.
pub mod Sharing
pub mod Verifying
pub mod Rotating
use cisc468_python.Base.{
  ℕ, ◌==◌, Bytes, Str, codes, length, Bool, true, false, if◌then◌else◌, str_eq, List, [], ◌∷◌, ◌++◌,
  Option, none, some, Exec, pure, raise, or_raise, lift, modify, ◌>>=◌, ◌>>◌, Result, ok, err,
  os_error,
}
use cisc468_python.Json.{Json, str, nat}
use cisc468_python.Runtime.{Runtime}
use cisc468_python.Crypto.Base64.{b64e}
use cisc468_python.Crypto.Identity.{Identity, sign}
use cisc468_python.Node.{Contact, SharedFile, DiskFile, missing, unreadable, holds, Node, uuid4}
use cisc468_python.Storage.Contacts
use cisc468_python.Storage.Hashing.{sha256_file}
use cisc468_python.Storage.Shares
use cisc468_python.Protocol.{canonical_manifest}
use cisc468_python.Client.Contacts.{notify_key_rotation}
use cisc468_python.App.Keyfile

-- `os.path.basename(path)`: what comes behind the last slash
unfoldable pub after_slash : Str → Str → Str
after_slash name [] = name
after_slash name (c ∷ path) =
    if c == b'/' then after_slash [] path else after_slash (name ++ c ∷ []) path

module _ (r : Runtime) where
  -- The file with this content and hash, signed by its owner.
  unfoldable pub shared_file : Identity → Str → Bytes → Str → Str → Str → SharedFile
  unfolding after_slash
  shared_file identity path content sha file_id timestamp =
      let filename = after_slash [] path in
      record {
        file_id = file_id;
        filename = filename;
        path = path;
        sha256_hex = sha;
        size = length content;
        original_owner = identity.fingerprint;
        manifest_sig = b64e (
            sign r identity (
              canonical_manifest (str file_id) (str filename) (str identity.fingerprint) (str sha)
                (nat (length content)) (str timestamp)));
        timestamp = timestamp;
      }

  share_found : Identity → Str → Str → DiskFile → Exec Node (Unit {0})
  unfolding shared_file
  share_found identity path timestamp missing = pure tt
  share_found identity path timestamp (unreadable e) = raise os_error
  share_found identity path timestamp (holds content) = do
    sha ← or_raise (sha256_file r content) os_error
    file_id ← uuid4 r
    Shares.add (shared_file identity path content sha file_id timestamp)

  -- `cmd_share`, at a time, for a path in which `~` is expanded
  unfoldable pub share : Identity → Str → Str → Exec Node (Unit {0})
  unfolding share_found
  share identity path timestamp n = share_found identity path timestamp (n.disk path) n

  -- `cmd_unshare`
  unfoldable pub unshare : Str → Exec Node Bool
  unshare file_id = Shares.remove file_id

  verify_found : Bool → Option Contact → Exec Node (Unit {0})
  verify_found confirmed none = pure tt
  verify_found confirmed (some contact) =
      if confirmed then (do Contacts.mark_verified r contact.fingerprint; pure tt) else pure tt

  -- `cmd_verify_contact`, with what the user answers
  unfoldable pub verify_contact : Str → Bool → Exec Node (Unit {0})
  unfolding verify_found
  verify_contact fingerprint confirmed n =
      verify_found confirmed (Contacts.get (Contacts.lower fingerprint) n.contacts) n

  rotate_confirmed : Identity → Str → Str → Exec Node (Unit {0})
  rotate_confirmed identity new_pw new_pw2 = do
    new_identity ← Keyfile.generate r
    if str_eq new_pw new_pw2
        then (do
          Keyfile.save r new_identity new_pw
          notify_key_rotation r identity new_identity
          pure tt)
        else pure tt

  -- `cmd_rotate_key`, with the user's answer and the two passwords
  unfoldable pub rotate_key : Identity → Bool → Str → Str → Exec Node (Unit {0})
  unfolding rotate_confirmed
  rotate_key identity confirmed new_pw new_pw2 =
      if confirmed then rotate_confirmed identity new_pw new_pw2 else pure tt
