-- ===== src/Crypto.antt =====
-- crypto_utils.py: the code around the primitives of `cryptography`, which are a `Runtime`.
pub mod Packing
pub mod Primitives
pub mod Identity
pub mod Session
pub mod Chunk
pub mod Base64
