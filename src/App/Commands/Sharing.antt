-- ===== src/App/Commands/Sharing.antt =====
-- A file that is shared can be received.
use cisc468_python.Base.{Bytes, Str, length, some, ok, true, ◌≡◌, refl, ◌∙◌, str_eq_refl}
use cisc468_python.Base.Dict.{lookup-insert}
use cisc468_python.Json.{str}
use cisc468_python.Runtime.{Runtime, IsLawful}
use cisc468_python.Crypto.Base64.{b64d, b64d-b64e}
use cisc468_python.Crypto.Identity.{Identity, IsIdentity, sign}
use cisc468_python.Node.{SharedFile, Node, holds, uuid4}
use cisc468_python.Storage.Hashing.{sha256_file-sha256_hex}
use cisc468_python.Storage.Shares
use cisc468_python.Storage.Shares.{get-add}
use cisc468_python.Protocol.Envelope.{public_of_identity}
use cisc468_python.Client.Transfer.Arrival.{shared_manifest}
use cisc468_python.App.Commands.{shared_file, share_found, share}

-- `f` is shared by this identity with this content, as a receiver checks it.
pub record IsShared (r : Runtime) (identity : Identity) (path : Str) (content : Bytes) (n' : Node)
    : Type 0 where
  pub f : SharedFile
  pub listed : Shares.get f.file_id n'.shares ≡ some f
  pub written : n'.shares_file ≡ some n'.shares
  pub located : f.path ≡ path
  pub sized : f.size ≡ length content
  pub owned : f.original_owner ≡ identity.fingerprint
  pub hashed : f.sha256_hex ≡ r.sha256_hex content
  pub msig : Bytes
  pub has_sig : b64d (str f.manifest_sig) ≡ ok msig
  pub signed : r.ed25519_accepts identity.raw_pub msig (shared_manifest f) ≡ true

module _ (r : Runtime) (lawful : IsLawful r) where
  -- After `cmd_share` of a file that can be read: the index, in memory and on disk, has a file with
  -- the path, the size and the hash of the content, owned by the identity, and its manifest signature
  -- is accepted by the identity's public key: what a receiver of the file checks, holds.
  pub share-IsShared :
      (identity : Identity) (path timestamp : Str) (content : Bytes) (n : Node)
      → IsIdentity r identity
      → n.disk path ≡ holds content
      → IsShared r identity path content (share r identity path timestamp n).1
  unfolding share share_found shared_file uuid4 sign Shares.add Shares.get
  share-IsShared identity path timestamp content n is_id found =
      let f =
        shared_file r identity path content (r.sha256_hex content) (r.uuid4 n.draws) timestamp in
      let msig = sign r identity (shared_manifest f) in
      rw (found, sha256_file-sha256_hex r content)
        (record {
          f = f;
          listed = lookup-insert f.file_id f.file_id f n.shares ∙ rw str_eq_refl refl;
          written = refl;
          located = refl;
          sized = refl;
          owned = refl;
          hashed = refl;
          msig = msig;
          has_sig = b64d-b64e msig (lawful.sign-bytes identity.seed (shared_manifest f));
          signed =
              lawful.accepts-sign identity.seed identity.raw_pub (shared_manifest f)
                (public_of_identity r lawful identity is_id);
        })
