-- ===== src/Crypto/Chunk.antt =====
-- `chunk_nonce`, `encrypt_chunk` and `decrypt_chunk` of crypto_utils.py.
use cisc468_python.Base.{
  ℕ, ◌^◌, ◌<◌, Bytes, codes, ltb, lt→ltb, true, false, if◌then◌else◌, [], ◌++◌, ◌≡◌, sym, ap, ◌∙◌,
  arith, length, drop, Option, none, some, Result, ok, err, bind_result, struct_error, invalid_tag,
  replicate,
}
use cisc468_python.Json.{Json, int, bool, nat, pos}
use cisc468_python.Runtime.{Runtime, IsLawful, py_str}
use cisc468_python.Crypto.Packing.{
  xor_bytes, utf8, pack_be, unpack_be, unpack_be-pack_be, length-pack_be, pack_be-IsBytes,
  xor_bytes_cancel, IsBytes,
}

abbrev pub chunk_size : ℕ
chunk_size = 524288

-- `struct.pack(">Q", n)` for `n` of any type: an integer below 2^64, or a `bool`.
unfoldable pub pack_uint64 : Json → Result Bytes
pack_uint64 (int (pos n)) = if ltb n (2 ^ 64) then ok (pack_be 8 n) else err struct_error
pack_uint64 (bool false) = ok (pack_be 8 0)
pack_uint64 (bool true) = ok (pack_be 8 1)
pack_uint64 _ = err struct_error

unfoldable pub chunk_nonce : Bytes → Json → Result Bytes
unfolding pack_uint64
chunk_nonce nonce_base chunk_index =
    bind_result (pack_uint64 chunk_index)
      λ idx_bytes. ok (xor_bytes nonce_base (replicate 4 0 ++ idx_bytes))

module _ (r : Runtime) where
  -- `f"{file_id}:{chunk_index}:{total_chunks}:{message_id}".encode()`
  chunk_aad : Json → Json → Json → Json → Result Bytes
  chunk_aad file_id chunk_index total_chunks message_id = utf8 (
      py_str r file_id
      ++ (codes ":"
          ++ (py_str r chunk_index
              ++ (codes ":" ++ (py_str r total_chunks ++ (codes ":" ++ py_str r message_id))))))

  unfoldable pub encrypt_chunk : Bytes → Bytes → Json → Bytes → Json → Json → Json → Result Bytes
  unfolding chunk_aad
  encrypt_chunk key nonce_base chunk_index plain file_id total_chunks message_id =
      bind_result (chunk_nonce nonce_base chunk_index) λ nonce.
        bind_result (chunk_aad file_id chunk_index total_chunks message_id)
          λ aad. ok (r.aes_gcm_seal key nonce plain aad)

  abbrev opened : Option Bytes → Result Bytes
  opened none = err invalid_tag
  opened (some plain) = ok plain

  unfoldable pub decrypt_chunk : Bytes → Bytes → Json → Bytes → Json → Json → Json → Result Bytes
  unfolding chunk_aad
  decrypt_chunk key nonce_base chunk_index ciphertext file_id total_chunks message_id =
      bind_result (chunk_nonce nonce_base chunk_index) λ nonce.
        bind_result (chunk_aad file_id chunk_index total_chunks message_id)
          λ aad. opened (r.aes_gcm_open key nonce ciphertext aad)

  open_sealed :
      IsLawful r
      → (key plain ct : Bytes) (nonce aad : Result Bytes)
      → bind_result nonce (λ n. bind_result aad (λ a. ok (r.aes_gcm_seal key n plain a))) ≡ ok ct
      → bind_result nonce (λ n. bind_result aad (λ a. opened (r.aes_gcm_open key n ct a)))
        ≡ ok plain
  open_sealed lawful key plain ct (err x) aad h = cc
  open_sealed lawful key plain ct (ok n) (err x) h = cc
  open_sealed lawful key plain ct (ok n) (ok a) h = ground (arith, lawful.open-seal key n plain a)

  -- A chunk that was encrypted decrypts to its plaintext, under the same key, nonce base, index,
  -- file, count and transfer.
  pub decrypt_chunk-encrypt_chunk :
      IsLawful r
      → (key nonce_base plain ct : Bytes) (chunk_index file_id total_chunks message_id : Json)
      → encrypt_chunk key nonce_base chunk_index plain file_id total_chunks message_id ≡ ok ct
      → decrypt_chunk key nonce_base chunk_index ct file_id total_chunks message_id ≡ ok plain
  unfolding encrypt_chunk decrypt_chunk
  decrypt_chunk-encrypt_chunk lawful key nonce_base plain ct chunk_index file_id total_chunks
        message_id h =
      open_sealed lawful key plain ct (chunk_nonce nonce_base chunk_index)
        (chunk_aad file_id chunk_index total_chunks message_id) h

module _ (r : Runtime) where
  sealed-IsBytes :
      IsLawful r
      → (key plain ct : Bytes) (nonce aad : Result Bytes) → IsBytes plain
      → bind_result nonce (λ n. bind_result aad (λ a. ok (r.aes_gcm_seal key n plain a))) ≡ ok ct
      → IsBytes ct
  sealed-IsBytes lawful key plain ct (err x) aad bytes h = absurd (ground arith)
  sealed-IsBytes lawful key plain ct (ok n) (err x) bytes h = absurd (ground arith)
  sealed-IsBytes lawful key plain ct (ok n) (ok a) bytes h =
      let is_ct : r.aes_gcm_seal key n plain a ≡ ct = ground arith in
      rw (← is_ct) (lawful.seal-bytes key n plain a bytes)

  pub encrypt_chunk-IsBytes :
      IsLawful r
      → (key nonce_base plain ct : Bytes) (chunk_index file_id total_chunks message_id : Json)
      → IsBytes plain
      → encrypt_chunk r key nonce_base chunk_index plain file_id total_chunks message_id ≡ ok ct
      → IsBytes ct
  unfolding encrypt_chunk
  encrypt_chunk-IsBytes lawful key nonce_base plain ct chunk_index file_id total_chunks message_id
        bytes h =
      sealed-IsBytes lawful key plain ct (chunk_nonce nonce_base chunk_index)
        (chunk_aad r file_id chunk_index total_chunks message_id) bytes h

padded_length : (n : ℕ) → length (replicate 4 0 ++ pack_be 8 n) ≡ 12
padded_length n = omega (arith, length-pack_be 8 n)

padded-IsBytes : (n : ℕ) → IsBytes (replicate 4 0 ++ pack_be 8 n)
padded-IsBytes n = (omega arith, (omega arith, (omega arith, (omega arith, pack_be-IsBytes 8 n))))

-- The mask of an index is recovered from its nonce.
recover_padded :
    (base : Bytes) (n : ℕ)
    → length base ≡ 12
    → IsBytes base
    → xor_bytes base (xor_bytes base (replicate 4 0 ++ pack_be 8 n)) ≡ replicate 4 0 ++ pack_be 8 n
recover_padded base n len h =
    xor_bytes_cancel base (replicate 4 0 ++ pack_be 8 n) h (padded-IsBytes n)
      (omega (arith, padded_length n))

chunk_nonce_lem :
    (base : Bytes) (n : ℕ)
    → n < 2 ^ 64
    → chunk_nonce base (int (pos n)) ≡ ok (xor_bytes base (replicate 4 0 ++ pack_be 8 n))
unfolding chunk_nonce
chunk_nonce_lem base n h = rw (lt→ltb n (2 ^ 64) h)

abbrev ok_or_nil : Result Bytes → Bytes
ok_or_nil (ok s) = s
ok_or_nil (err e) = []

index_of_nonce :
    (base : Bytes) (n : ℕ)
    → length base ≡ 12
    → IsBytes base
    → n < 2 ^ 64
    → unpack_be (drop 4 (xor_bytes base (ok_or_nil (chunk_nonce base (int (pos n)))))) ≡ n
index_of_nonce base n len h hn =
    rw (chunk_nonce_lem base n hn, recover_padded base n len h) (unpack_be-pack_be 8 n hn)

-- No nonce is used twice in a session: under one 12-byte nonce base, two chunk indices below 2^64
-- that give the same result are the same index.
pub chunk_nonce-injective :
    (base : Bytes) (i j : ℕ)
    → length base ≡ 12
    → IsBytes base
    → i < 2 ^ 64
    → j < 2 ^ 64
    → chunk_nonce base (nat i) ≡ chunk_nonce base (nat j)
    → i ≡ j
chunk_nonce-injective base i j len h hi hj e =
    sym (index_of_nonce base i len h hi)
    ∙ ap (λ x. unpack_be (drop 4 (xor_bytes base (ok_or_nil x)))) e
    ∙ index_of_nonce base j len h hj
