-- ===== src/Runtime.antt =====
-- What the program takes from outside: the package `cryptography`, the hash of `hashlib`, the
-- randomness of the operating system, Python's `repr` of a list or a dict,
-- and its floats.
use cisc468_python.Base.{
  ℕ, Bytes, Str, codes, Bool, true, false, Option, ◌≡◌, ◌<◌, some, length, All,
}
use cisc468_python.Json.{Json, null, bool, int, real, str, arr, obj}
use cisc468_python.Json.Dumps.{show_int}

-- Private keys are given by their raw 32 bytes. `none` stands for an exception of the package.
pub record Runtime : Type 0 where
  -- `Ed25519PrivateKey.from_private_bytes(seed)`, and the raw public key of it
  pub ed25519_public : Bytes → Option Bytes
  pub ed25519_sign : Bytes → Bytes → Bytes
  -- `Ed25519PublicKey.from_public_bytes(raw).verify(signature, data)` returns
  pub ed25519_accepts : Bytes → Bytes → Bytes → Bool
  pub x25519_public : Bytes → Bytes
  -- `X25519PublicKey.from_public_bytes(peer)` and `private.exchange` of it
  pub x25519_exchange : Bytes → Bytes → Option Bytes
  -- `HKDF(SHA256, length, salt, info).derive(secret)`
  pub hkdf : ℕ → Bytes → Bytes → Bytes → Bytes
  -- `Argon2id(salt, length, iterations, lanes, memory_cost).derive(password)`
  pub argon2id : Bytes → ℕ → ℕ → ℕ → ℕ → Bytes → Bytes
  -- `AESGCM(key).encrypt(nonce, data, aad)` and `.decrypt`
  pub aes_gcm_seal : Bytes → Bytes → Bytes → Bytes → Bytes
  pub aes_gcm_open : Bytes → Bytes → Bytes → Bytes → Option Bytes
  pub sha256_hex : Bytes → Str
  -- The draw with a number, of a length; and the identifier with a number.
  pub urandom : ℕ → ℕ → Bytes
  pub uuid4 : ℕ → Str
  pub repr : Json → Str
  -- `repr(float(s))`, for a decimal literal
  pub repr_float : Str → Str

-- What the documentation of `cryptography` promises.
pub record IsLawful (r : Runtime) : Type 0 where
  pub accepts-sign :
      (seed raw m : Bytes)
      → r.ed25519_public seed ≡ some raw
      → r.ed25519_accepts raw (r.ed25519_sign seed m) m ≡ true
  -- `from_private_bytes` takes any 32 bytes.
  pub public-some :
      (seed : Bytes) → length seed ≡ 32 → (raw : Bytes) × (r.ed25519_public seed ≡ some raw)
  -- Diffie-Hellman: both ends compute the same secret, or both refuse.
  pub exchange_comm :
      (a b : Bytes)
      → r.x25519_exchange a (r.x25519_public b) ≡ r.x25519_exchange b (r.x25519_public a)
  pub public-bytes : (a : Bytes) → All (λ b. b < 256) (r.x25519_public a)
  pub urandom-bytes : (i size : ℕ) → All (λ b. b < 256) (r.urandom i size)
  pub length-urandom : (i size : ℕ) → length (r.urandom i size) ≡ size
  pub length-sign : (seed m : Bytes) → length (r.ed25519_sign seed m) ≡ 64
  pub sign-bytes : (seed m : Bytes) → All (λ b. b < 256) (r.ed25519_sign seed m)
  pub seal-bytes :
      (key nonce m aad : Bytes)
      → All (λ b. b < 256) m
      → All (λ b. b < 256) (r.aes_gcm_seal key nonce m aad)
  pub open-seal :
      (key nonce m aad : Bytes)
      → r.aes_gcm_open key nonce (r.aes_gcm_seal key nonce m aad) aad ≡ some m

-- `str(x)`, the text that an f-string shows for `x`
unfoldable pub py_str : Runtime → Json → Str
unfolding show_int
py_str r null = codes "None"
py_str r (bool true) = codes "True"
py_str r (bool false) = codes "False"
py_str r (int z) = show_int z
py_str r (real t) = t
py_str r (str s) = s
py_str r (arr xs) = r.repr (arr xs)
py_str r (obj fs) = r.repr (obj fs)
