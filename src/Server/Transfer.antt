-- ===== src/Server/Transfer.antt =====
-- `Server._send_file`.
pub mod Keeps
pub mod Slices
pub mod Frames
use cisc468_python.Base.{
  ℕ, zero, suc, ◌+◌, ◌-◌, ◌*◌, ◌/◌, max, Bytes, Str, codes, take, drop, length, List, [], ◌∷◌, ◌++◌,
  Exec, pure, lift, ◌>>=◌, ◌>>◌, Result, ok, err,
}
use cisc468_python.Json.{Json, str, nat, Fields, fields}
use cisc468_python.Runtime.{Runtime}
use cisc468_python.Crypto.Base64.{b64e}
use cisc468_python.Crypto.Identity.{Identity}
use cisc468_python.Crypto.Session.{SessionKeys}
use cisc468_python.Crypto.Chunk.{chunk_size, encrypt_chunk}
use cisc468_python.Node.{SharedFile, DiskFile, missing, unreadable, holds, Node, uuid4}
use cisc468_python.Protocol.{build_envelope, build_envelope_with, send_frame}
use cisc468_python.Handshake.{send_error}

-- `max(1, math.ceil(len(data) / CHUNK_SIZE))`. The division of floats is exact: it is by a power of
-- two, of a length below 2^53.
unfoldable pub total_chunks_of : Bytes → ℕ
total_chunks_of content = max 1 ((length content + (chunk_size - 1)) / chunk_size)

-- `data[idx * CHUNK_SIZE:(idx + 1) * CHUNK_SIZE]`
unfoldable pub chunk_at : ℕ → Bytes → Bytes
chunk_at idx content = take chunk_size (drop (idx * chunk_size) content)

unfoldable pub start_payload : SharedFile → ℕ → Fields
start_payload f total_chunks = fields (
    (codes "file_id", str f.file_id)
    ∷ (codes "filename", str f.filename)
    ∷ (codes "sha256_hex", str f.sha256_hex)
    ∷ (codes "size", nat f.size)
    ∷ (codes "total_chunks", nat total_chunks)
    ∷ (codes "original_owner", str f.original_owner)
    ∷ (codes "manifest_sig", str f.manifest_sig)
    ∷ (codes "timestamp", str f.timestamp)
    ∷ [])

unfoldable pub chunk_payload : SharedFile → ℕ → ℕ → Bytes → Str → Fields
chunk_payload f idx total_chunks ct transfer_id = fields (
    (codes "file_id", str f.file_id)
    ∷ (codes "chunk_index", nat idx)
    ∷ (codes "total_chunks", nat total_chunks)
    ∷ (codes "data", str (b64e ct))
    ∷ (codes "transfer_id", str transfer_id)
    ∷ [])

unfoldable pub done_payload : SharedFile → Str → Fields
done_payload f transfer_id = fields (
    (codes "file_id", str f.file_id)
    ∷ (codes "transfer_id", str transfer_id)
    ∷ (codes "sha256_hex", str f.sha256_hex)
    ∷ [])

module _ (r : Runtime) (identity : Identity) (session : SessionKeys) (f : SharedFile) where
  unfoldable pub send_chunk : Bytes → ℕ → Str → ℕ → Exec Node (Unit {0})
  send_chunk content total_chunks transfer_id idx = do
    ct ← lift (
        encrypt_chunk r session.tx_key session.tx_nonce_base (nat idx) (chunk_at idx content)
          (str f.file_id) (nat total_chunks) (str transfer_id))
    env ←
        build_envelope r identity (codes "CHUNK") (chunk_payload f idx total_chunks ct transfer_id)
    send_frame env

  -- The loop, with the number of chunks that are left and the next index.
  unfoldable pub send_chunks : Bytes → ℕ → Str → ℕ → ℕ → Exec Node (Unit {0})
  unfolding send_chunk
  send_chunks content total_chunks transfer_id zero idx = pure tt
  send_chunks content total_chunks transfer_id (suc left) idx = do
    send_chunk content total_chunks transfer_id idx
    send_chunks content total_chunks transfer_id left (idx + 1)

  -- All frames of a transfer.
  unfoldable pub send_transfer : Bytes → ℕ → Str → Exec Node (Unit {0})
  unfolding send_chunks done_payload
  send_transfer content total_chunks transfer_id = do
    send_frame (
        build_envelope_with r identity (codes "TRANSFER_START") (start_payload f total_chunks)
          transfer_id)
    send_chunks content total_chunks transfer_id total_chunks 0
    env ← build_envelope r identity (codes "TRANSFER_DONE") (done_payload f transfer_id)
    send_frame env

  unfoldable pub send_content : Bytes → Exec Node (Unit {0})
  unfolding send_transfer
  send_content content = do
    transfer_id ← uuid4 r
    send_transfer content (total_chunks_of content) transfer_id

  send_found : DiskFile → Exec Node (Unit {0})
  unfolding send_content
  send_found missing = send_error r identity (codes "File not found on disk: " ++ f.filename)
  send_found (unreadable e) = send_error r identity (codes "Cannot read file: " ++ e)
  send_found (holds content) = send_content content

  unfoldable pub send_file : Exec Node (Unit {0})
  unfolding send_found
  send_file n = send_found (n.disk f.path) n
