-- ===== src/Client/Transfer.antt =====
-- `Client._recv_transfer`.
pub mod Receipt
pub mod Refusal
pub mod Joining
pub mod Arrival
pub mod Delivery
use cisc468_python.Base.{
  ℕ, zero, suc, ◌+◌, ◌==◌, Bytes, Str, codes, Bool, true, false, if◌then◌else◌, List, [], ◌∷◌, ◌++◌,
  Option, none, some, Exec, pure, lift, ◌>>=◌, ◌>>◌, Result, ok, err, bind_result, type_error,
  key_error,
}
use cisc468_python.Json.{
  Json, null, bool, int, pos, negsuc, str, text, Fields, fields, get, index, is_str,
}
use cisc468_python.Crypto.Primitives.{ed25519_verify}
use cisc468_python.Runtime.{Runtime}
use cisc468_python.Crypto.Base64.{b64d}
use cisc468_python.Crypto.Session.{SessionKeys}
use cisc468_python.Crypto.Chunk.{decrypt_chunk}
use cisc468_python.Node.{Contact, Node}
use cisc468_python.Storage.Received
use cisc468_python.Protocol.{canonical_manifest, recv_frame}
use cisc468_python.Server.Contacts.{get_contact, raw_pub_bytes}

-- What the client reads of TRANSFER_START, of any type.
pub record Start : Type 0 where
  pub file_id : Json
  pub filename : Json
  pub exp_sha : Json
  pub total_ch : Json
  pub size : Json
  pub owner_fp : Json
  pub manif_sig : Json
  pub timestamp : Json
  pub transfer_id : Json

unfoldable pub read_start : Json → Result Start
read_start start_env = bind_result (index start_env (codes "payload")) λ p.
    bind_result (index p (codes "file_id")) λ file_id.
      bind_result (index p (codes "filename")) λ filename.
        bind_result (index p (codes "sha256_hex")) λ exp_sha.
          bind_result (index p (codes "total_chunks")) λ total_ch.
            bind_result (index p (codes "size")) λ size.
              bind_result (index p (codes "original_owner")) λ owner_fp.
                bind_result (index p (codes "manifest_sig")) λ manif_sig.
                  bind_result (get p (codes "timestamp") (text "")) λ timestamp.
                    bind_result (index start_env (codes "id")) λ transfer_id. ok (record {
                      file_id = file_id;
                      filename = filename;
                      exp_sha = exp_sha;
                      total_ch = total_ch;
                      size = size;
                      owner_fp = owner_fp;
                      manif_sig = manif_sig;
                      timestamp = timestamp;
                      transfer_id = transfer_id;
                    })

unfoldable pub manifest_of : Start → Bytes
manifest_of s = canonical_manifest s.file_id s.filename s.owner_fp s.exp_sha s.size s.timestamp

-- The metadata that is saved with the file.
unfoldable pub meta_of : Start → Fields
meta_of s = fields (
    (codes "filename", s.filename)
    ∷ (codes "sha256_hex", s.exp_sha)
    ∷ (codes "size", s.size)
    ∷ (codes "original_owner", s.owner_fp)
    ∷ (codes "manifest_sig", s.manif_sig)
    ∷ (codes "timestamp", s.timestamp)
    ∷ [])

-- The number of rounds of `range(total_ch)`: a `bool` is an integer in Python.
unfoldable pub rounds : Json → Result ℕ
rounds (int (pos n)) = ok n
rounds (int (negsuc n)) = ok 0
rounds (bool false) = ok 0
rounds (bool true) = ok 1
rounds _ = err type_error

-- The dict `chunks`. A key for which a nonce was packed is an integer from 0 on, or a `bool`.
abbrev pub Chunks : Type 0
Chunks = List (ℕ × Bytes)

unfoldable pub key_of : Json → ℕ
key_of (int (pos n)) = n
key_of (bool true) = 1
key_of _ = 0

unfoldable pub put_chunk : ℕ → Bytes → Chunks → Chunks
put_chunk i plain [] = (i, plain) ∷ []
put_chunk i plain ((j, old) ∷ d) =
    let rest = put_chunk i plain d in if j == i then (j, plain) ∷ d else (j, old) ∷ rest

unfoldable pub chunk_with : ℕ → Chunks → Result Bytes
chunk_with i [] = err key_error
chunk_with i ((j, plain) ∷ d) = let rest = chunk_with i d in if j == i then ok plain else rest

-- `b"".join(chunks[i] for i in range(total_ch))`, from index `i` on, with so many left
unfoldable pub join_chunks : ℕ → ℕ → Chunks → Result Bytes
join_chunks zero i chunks = ok []
join_chunks (suc left) i chunks =
    bind_result (chunk_with i chunks)
      λ plain. bind_result (join_chunks left (i + 1) chunks) λ rest. ok (plain ++ rest)

-- `f"Transfer aborted: {ce['payload'].get('message','')}"`, and `return False`
aborted {ℓ} : {A : Type ℓ} → Json → Result (Option A)
aborted env =
    bind_result (index env (codes "payload"))
      λ payload. bind_result (get payload (codes "message") (text "")) λ message. ok none

module _ (r : Runtime) (session : SessionKeys) (s : Start) where
  opened_chunk : Json → Result Bytes → Option (ℕ × Bytes)
  opened_chunk idx (ok plain) = some (key_of idx, plain)
  opened_chunk idx (err e) = none

  -- The chunk in a frame; `none` where the transfer ends with False.
  unfoldable pub chunk_of : Json → Result (Option (ℕ × Bytes))
  unfolding aborted opened_chunk
  chunk_of ce = bind_result (get ce (codes "type") null) λ msg_type.
      if is_str msg_type (codes "ERROR")
      then aborted ce
      else if is_str msg_type (codes "CHUNK")
      then bind_result (index ce (codes "payload")) (λ cp.
        bind_result (index cp (codes "chunk_index")) λ idx.
          bind_result (index cp (codes "data")) λ data_b64. bind_result (b64d data_b64) λ ct. ok (
            opened_chunk idx (
              decrypt_chunk r session.rx_key session.rx_nonce_base idx ct s.file_id s.total_ch
                s.transfer_id)))
      else ok none

  next_chunk :
      (ℕ → Bytes → Exec Node (Option Chunks)) → Option (ℕ × Bytes) → Exec Node (Option Chunks)
  next_chunk go none = pure none
  next_chunk go (some (i, plain)) = go i plain

  -- The loop, with the number of rounds that are left.
  unfoldable pub recv_chunks : ℕ → Chunks → Exec Node (Option Chunks)
  unfolding next_chunk
  recv_chunks zero chunks = pure (some chunks)
  recv_chunks (suc left) chunks = do
    ce ← recv_frame
    chunk ← lift (chunk_of ce)
    next_chunk (λ i plain. recv_chunks left (put_chunk i plain chunks)) chunk

  -- The hash, and what is saved.
  unfoldable pub store_content : Bytes → Exec Node Bool
  store_content content =
      if is_str s.exp_sha (r.sha256_hex content)
      then (do Received.save r s.file_id content (meta_of s); pure true)
      else pure false

  unfoldable pub finish_transfer : ℕ → Option Chunks → Exec Node Bool
  unfolding store_content
  finish_transfer total none = pure false
  finish_transfer total (some chunks) = do
    done ← recv_frame
    msg_type ← lift (get done (codes "type") null)
    if is_str msg_type (codes "TRANSFER_DONE")
        then (do content ← lift (join_chunks total 0 chunks); store_content content)
        else pure false

  unfoldable pub recv_content : Exec Node Bool
  unfolding recv_chunks finish_transfer
  recv_content = do
    total ← lift (rounds s.total_ch)
    chunks ← recv_chunks total []
    finish_transfer total chunks

  -- `try: msig = b64d(manif_sig) except Exception: return False`, and what follows
  check_manifest : Contact → Result Bytes → Exec Node Bool
  unfolding recv_content
  check_manifest owner (err e) = pure false
  check_manifest owner (ok msig) = do
    raw_pub ← lift (raw_pub_bytes owner)
    if ed25519_verify r raw_pub msig (manifest_of s) then recv_content else pure false

  check_owner : Option Contact → Exec Node Bool
  unfolding check_manifest
  check_owner none = pure false
  check_owner (some owner) = check_manifest owner (b64d s.manif_sig)

module _ (r : Runtime) where
  unfoldable pub recv_transfer : SessionKeys → Json → Exec Node Bool
  unfolding check_owner
  recv_transfer session start_env = do
    s ← lift (read_start start_env)
    owner ← get_contact s.owner_fp
    check_owner r session s owner
