-- ===== src/App/Keyfile.antt =====
-- `Identity.generate`, `Identity.save` and `Identity.load` of crypto_utils.py.
pub mod Files
use cisc468_python.Base.{
  Bytes, Str, codes, take, drop, take-append_at, drop-append_at, [], ◌∷◌, ◌++◌, Option, none, some,
  Exec, lift, or_raise, modify, ◌>>=◌, Result, ok, err, bind_result, value_error, os_error,
  invalid_tag, All, ◌<◌, ◌+◌, length, str_eq, lift-ok, ◌≡◌, refl, sym, ap, ◌∙◌,
}
use cisc468_python.Json.{str, obj, fields, index, find}
use cisc468_python.Crypto.Primitives.{argon2id_derive, aes_gcm_decrypt}
use cisc468_python.Runtime.{Runtime, IsLawful}
use cisc468_python.Crypto.Packing.{utf8}
use cisc468_python.Crypto.Base64.{b64e, b64d, b64d-b64e}
use cisc468_python.Crypto.Identity.{Identity, IsIdentity, make_identity}
use cisc468_python.Node.{Node, KeyFile, urandom}

module _ (r : Runtime) where
  -- `Ed25519PrivateKey.generate()` draws the seed.
  unfoldable pub generate : Exec Node Identity
  generate = do seed ← urandom r 32; or_raise (make_identity r seed) value_error

  unfoldable pub key_file_of : Identity → Bytes → Bytes → Bytes → KeyFile
  key_file_of identity password salt nonce = record {
    blob = nonce ++ r.aes_gcm_seal (argon2id_derive r password salt) nonce identity.seed [];
    meta =
        fields
          ((codes "salt", str (b64e salt)) ∷ (codes "pubkey", str (b64e identity.raw_pub)) ∷ []);
  }

  unfoldable pub save : Identity → Str → Exec Node (Unit {0})
  unfolding key_file_of
  save identity password = do
    salt ← urandom r 32
    secret ← lift (utf8 password)
    nonce ← urandom r 12
    modify λ n. record n { identity_file = some (key_file_of identity secret salt nonce) }

  made : Option Identity → Result Identity
  made none = err value_error
  made (some identity) = ok identity

  from_seed : Option Bytes → Result Identity
  unfolding made
  from_seed none = err invalid_tag
  from_seed (some seed) = made (make_identity r seed)

  load_found : Str → Option KeyFile → Result Identity
  unfolding from_seed
  load_found password none = err os_error
  load_found password (some f) = bind_result (index (obj f.meta) (codes "salt")) λ salt_b64.
      bind_result (b64d salt_b64) λ salt. bind_result (utf8 password) λ secret.
        from_seed
          (aes_gcm_decrypt r (argon2id_derive r secret salt) (take 12 f.blob) (drop 12 f.blob))

  unfoldable pub load : Str → Node → Result Identity
  unfolding load_found
  load password n = load_found password n.identity_file

module _ (r : Runtime) (lawful : IsLawful r) where
  load_file_of :
      (identity : Identity) (password : Str) (secret salt nonce : Bytes)
      → IsIdentity r identity
      → utf8 password ≡ ok secret
      → All (λ b. b < 256) salt
      → length nonce ≡ 12
      → load_found r password (some (key_file_of r identity secret salt nonce)) ≡ ok identity
  unfolding load_found key_file_of from_seed made index find str_eq
  load_file_of identity password secret salt nonce is_id encodes bytes twelve =
      rw
        (
          b64d-b64e salt bytes,
          encodes,
          take-append_at 12 nonce _ twelve,
          drop-append_at 12 nonce _ twelve,
          lawful.open-seal (argon2id_derive r secret salt) nonce identity.seed [],
          is_id,
        )
        refl

  -- An identity that was saved under a password loads under that password as the same identity: its
  -- seed, its public key and its fingerprint.
  pub load-save_identity :
      (identity : Identity) (password : Str) (n n' : Node)
      → IsIdentity r identity
      → save r identity password n ≡ (ok tt, n')
      → load r password n' ≡ ok identity
  unfolding save load urandom
  load-save_identity identity password n n' is_id h =
      let (secret, encodes, h₁) = lift-ok (utf8 password) _ (urandom r 32 n).1 h in
      ap (λ p. load_found r password p.1.identity_file) (sym h₁)
      ∙ load_file_of identity password secret (r.urandom n.draws 32) (r.urandom (n.draws + 1) 12)
          is_id encodes (lawful.urandom-bytes n.draws 32) (lawful.length-urandom (n.draws + 1) 12)
