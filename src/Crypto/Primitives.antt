-- ===== src/Crypto/Primitives.antt =====
-- `argon2id_derive`, `aes_gcm_decrypt` and `ed25519_verify` of crypto_utils.py.
use cisc468_python.Base.{ℕ, Bytes, Bool, [], Option}
use cisc468_python.Runtime.{Runtime}

abbrev argon2_time : ℕ
argon2_time = 3

-- 64 MB in KiB
abbrev argon2_memory : ℕ
argon2_memory = 65536

abbrev argon2_threads : ℕ
argon2_threads = 4

abbrev argon2_key_len : ℕ
argon2_key_len = 32

abbrev pub argon2id_derive : Runtime → Bytes → Bytes → Bytes
argon2id_derive r password salt =
    r.argon2id salt argon2_key_len argon2_time argon2_threads argon2_memory password

-- No associated data: `aad or None` of the default.
abbrev pub aes_gcm_decrypt : Runtime → Bytes → Bytes → Bytes → Option Bytes
aes_gcm_decrypt r key nonce ciphertext = r.aes_gcm_open key nonce ciphertext []

-- Any exception of the package counts as a refusal.
abbrev pub ed25519_verify : Runtime → Bytes → Bytes → Bytes → Bool
ed25519_verify r raw_pub signature message = r.ed25519_accepts raw_pub signature message
