-- ===== src/Crypto/Identity.antt =====
-- `Identity` of crypto_utils.py. A private key is given by its seed.
use cisc468_python.Base.{Bytes, Str, length, Option, none, some, ◌≡◌, refl, ap, ◌∙◌, arith}
use cisc468_python.Runtime.{Runtime, IsLawful}

pub record Identity : Type 0 where
  pub seed : Bytes
  pub raw_pub : Bytes
  pub fingerprint : Str

module _ (r : Runtime) where
  unfoldable pub fingerprint_from_bytes : Bytes → Str
  fingerprint_from_bytes raw_pub = r.sha256_hex raw_pub

  abbrev from_public : Bytes → Option Bytes → Option Identity
  from_public seed none = none
  from_public seed (some raw_pub) =
      some (record { seed = seed; raw_pub = raw_pub; fingerprint = fingerprint_from_bytes raw_pub })

  -- `Identity.__init__`, of the private key with this seed
  unfoldable pub make_identity : Bytes → Option Identity
  unfolding fingerprint_from_bytes
  make_identity seed = from_public seed (r.ed25519_public seed)

  unfoldable pub sign : Identity → Bytes → Bytes
  sign identity message = r.ed25519_sign identity.seed message

-- An identity that a constructor built.
abbrev pub IsIdentity : Runtime → Identity → Type 0
IsIdentity r identity = make_identity r identity.seed ≡ some identity

module _ (r : Runtime) where
  from_public-seed :
      (seed : Bytes) (public : Option Bytes) (identity : Identity)
      → from_public r seed public ≡ some identity
      → identity.seed ≡ seed
  from_public-seed seed none identity h = absurd (ground arith)
  from_public-seed seed (some raw_pub) identity h = ground arith

  -- What the constructor builds is an identity.
  pub make_identity-IsIdentity :
      (seed : Bytes) (identity : Identity)
      → make_identity r seed ≡ some identity
      → IsIdentity r identity
  unfolding make_identity
  make_identity-IsIdentity seed identity h =
      ap (make_identity r) (from_public-seed seed (r.ed25519_public seed) identity h) ∙ h

  -- 32 bytes are the seed of an identity.
  pub make_identity-some :
      IsLawful r
      → (seed : Bytes) → length seed ≡ 32
      → (identity : Identity) × (make_identity r seed ≡ some identity)
  unfolding make_identity
  make_identity-some lawful seed h =
      let (raw, public) = lawful.public-some seed h in
      (
        record { seed = seed; raw_pub = raw; fingerprint = fingerprint_from_bytes r raw },
        rw public refl,
      )
