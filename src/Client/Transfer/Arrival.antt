-- ===== src/Client/Transfer/Arrival.antt =====
-- The frames of an honest transfer, as the receiver reads them.
use cisc468_python.Base.{
  ℕ, zero, suc, ◌+◌, ◌<◌, Bytes, Str, str_eq, drop, take-All, drop-All, ◌*◌, List, [], ◌∷◌, ◌++◌,
  map, some, ok, Result, ◌≡◌, refl, ap,
}
use cisc468_python.Json.{Json, str, nat, get, index, find, is_str}
use cisc468_python.Runtime.{Runtime, IsLawful}
use cisc468_python.Crypto.Base64.{b64d-b64e}
use cisc468_python.Crypto.Packing.{IsBytes}
use cisc468_python.Crypto.Identity.{Identity}
use cisc468_python.Crypto.Session.{SessionKeys, mirror}
use cisc468_python.Crypto.Chunk.{chunk_size, decrypt_chunk-encrypt_chunk, encrypt_chunk-IsBytes}
use cisc468_python.Node.{SharedFile, Node}
use cisc468_python.Protocol.{build_envelope_with, canonical_manifest, recv_frame}
use cisc468_python.Server.Transfer.{chunk_at, start_payload, chunk_payload}
use cisc468_python.Server.Transfer.Frames.{IsChunk, AreChunks, no_more, one_more, start_frame}
use cisc468_python.Client.Transfer.{
  Start, read_start, Chunks, put_chunk, chunk_of, opened_chunk, key_of, next_chunk, recv_chunks,
}
use cisc468_python.Client.Transfer.Joining.{put_all}

-- What the owner of a shared file signs.
abbrev pub shared_manifest : SharedFile → Bytes
shared_manifest f =
    canonical_manifest (str f.file_id) (str f.filename) (str f.original_owner) (str f.sha256_hex)
      (nat f.size) (str f.timestamp)

-- What the client reads of the first frame of a transfer.
unfoldable pub start_of : SharedFile → ℕ → Str → Start
start_of f total transfer_id = record {
  file_id = str f.file_id;
  filename = str f.filename;
  exp_sha = str f.sha256_hex;
  total_ch = nat total;
  size = nat f.size;
  owner_fp = str f.original_owner;
  manif_sig = str f.manifest_sig;
  timestamp = str f.timestamp;
  transfer_id = str transfer_id;
}

chunk_at-IsBytes : (idx : ℕ) (content : Bytes) → IsBytes content → IsBytes (chunk_at idx content)
unfolding chunk_at
chunk_at-IsBytes idx content bytes =
    take-All (λ b. b < 256) chunk_size (drop (idx * chunk_size) content)
      (drop-All (λ b. b < 256) (idx * chunk_size) content bytes)

pub recv_frame_lem :
    (frame : Result Json) (rest : List (Result Json)) (n : Node)
    → n.inbox ≡ frame ∷ rest
    → recv_frame n ≡ (frame, record n { inbox = rest })
unfolding recv_frame
recv_frame_lem frame rest n h = rw h refl

module _ (r : Runtime) (lawful : IsLawful r) (identity : Identity) (session : SessionKeys)
    (f : SharedFile) (content : Bytes) (bytes : IsBytes content) (total : ℕ)
    (transfer_id : Str) where
  pub read_start_frame :
      read_start (start_frame r identity session f content total transfer_id)
      ≡ ok (start_of f total transfer_id)
  unfolding read_start start_of start_payload build_envelope_with index get find str_eq
  read_start_frame = refl

  chunk_of-IsChunk :
      (idx : ℕ) (frame : Json)
      → IsChunk r identity session f content total transfer_id idx frame
      → chunk_of r (mirror session) (start_of f total transfer_id) frame
        ≡ ok (some (idx, chunk_at idx content))
  unfolding chunk_of chunk_payload opened_chunk start_of build_envelope_with index get find str_eq
      is_str key_of
  chunk_of-IsChunk idx frame h =
      let plain = chunk_at idx content in
      let plain_bytes : IsBytes plain = chunk_at-IsBytes idx content bytes in
      let ct_bytes =
        encrypt_chunk-IsBytes r lawful session.tx_key session.tx_nonce_base plain h.ct (nat idx)
          (str f.file_id) (nat total) (str transfer_id) plain_bytes h.sealed in
      rw
        (
          h.built,
          b64d-b64e h.ct ct_bytes,
          decrypt_chunk-encrypt_chunk r lawful session.tx_key session.tx_nonce_base plain h.ct
              (nat idx) (str f.file_id) (nat total) (str transfer_id) h.sealed,
        )
        refl

  pub recv_chunks-AreChunks :
      (left idx : ℕ) (frames : List Json) (d : Chunks) (n : Node) (rest : List (Result Json))
      → AreChunks r identity session f content total transfer_id left idx frames
      → n.inbox ≡ map ok frames ++ rest
      → recv_chunks r (mirror session) (start_of f total transfer_id) left d n
        ≡ (ok (some (put_all left idx content d)), record n { inbox = rest })
  unfolding recv_chunks next_chunk put_all
  recv_chunks-AreChunks zero idx [] d n rest no_more arrives =
      ap (λ frames. (ok (some d), record n { inbox = frames })) arrives
  recv_chunks-AreChunks zero idx (frame ∷ frames) d n rest none_left arrives = elim none_left [ ]
  recv_chunks-AreChunks (suc left) idx [] d n rest some_left arrives = elim some_left [ ]
  recv_chunks-AreChunks (suc left) idx (frame ∷ frames) d n rest (one_more is_chunk more) arrives =
      rw
        (
          recv_frame_lem (ok frame) (map ok frames ++ rest) n arrives,
          chunk_of-IsChunk idx frame is_chunk,
        )
        (recv_chunks-AreChunks left (idx + 1) frames (put_chunk idx (chunk_at idx content) d)
          (record n { inbox = map ok frames ++ rest }) rest more refl)
