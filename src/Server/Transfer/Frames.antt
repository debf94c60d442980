-- ===== src/Server/Transfer/Frames.antt =====
-- The frames that a transfer sends, if it is not broken off.
use cisc468_python.Base.{
  ℕ, zero, suc, ◌+◌, Bytes, Str, codes, List, [], ◌∷◌, ◌++◌, append_assoc, append-nil, ok, ◌>>=◌,
  lift-ok, bind-ok, ◌≡◌, refl, ap, ◌∙◌, sym, arith,
}
use cisc468_python.Json.{Json, str, nat, Fields}
use cisc468_python.Runtime.{Runtime}
use cisc468_python.Crypto.Identity.{Identity}
use cisc468_python.Crypto.Session.{SessionKeys}
use cisc468_python.Crypto.Chunk.{encrypt_chunk}
use cisc468_python.Node.{SharedFile, Node, uuid4}
use cisc468_python.Protocol.{build_envelope, build_envelope_with, send_frame}
use cisc468_python.Server.Transfer.{
  chunk_at, start_payload, chunk_payload, done_payload, send_chunk, send_chunks, send_transfer,
  send_content, total_chunks_of,
}

send_frame-ok :
    (env : Json) (n n' : Node) → send_frame env n ≡ (ok tt, n') → n'.outbox ≡ n.outbox ++ env ∷ []
unfolding send_frame
send_frame-ok env n n' h = ground arith

in_order {ℓ} :
    {A : Type ℓ} (o o₁ o₂ o₃ fs : List A) (a d : A)
    → o₁ ≡ o ++ a ∷ []
    → o₂ ≡ o₁ ++ fs
    → o₃ ≡ o₂ ++ d ∷ []
    → o₃ ≡ o ++ a ∷ (fs ++ d ∷ [])
in_order o o₁ o₂ o₃ fs a d h₁ h₂ h₃ =
    h₃
    ∙ ap (λ out. out ++ d ∷ []) (h₂ ∙ ap (λ out. out ++ fs) h₁ ∙ append_assoc o (a ∷ []) fs)
    ∙ append_assoc o (a ∷ fs) (d ∷ [])

module _ (r : Runtime) (identity : Identity) where
  built_frame-ok :
      (msg_type : Str) (payload : Fields) (n n' : Node)
      → (build_envelope r identity msg_type payload >>= send_frame) n ≡ (ok tt, n')
      → (msg_id : Str) × (n'.outbox
          ≡ n.outbox ++ build_envelope_with r identity msg_type payload msg_id ∷ [])
  unfolding build_envelope uuid4
  built_frame-ok msg_type payload n n' h = (
    r.uuid4 n.draws,
    send_frame-ok (build_envelope_with r identity msg_type payload (r.uuid4 n.draws)) (uuid4 r n).1
        n' h,
  )

module _ (r : Runtime) (identity : Identity) (session : SessionKeys) (f : SharedFile)
    (content : Bytes) (total : ℕ) (transfer_id : Str) where
  -- The frame of the chunk with this index.
  pub record IsChunk (idx : ℕ) (frame : Json) : Type 0 where
    pub ct : Bytes
    pub msg_id : Str
    pub sealed :
        encrypt_chunk r session.tx_key session.tx_nonce_base
          (nat idx)
          (chunk_at idx content)
          (str f.file_id)
          (nat total)
          (str transfer_id)
        ≡ ok ct
    pub built :
        frame
        ≡ build_envelope_with r identity
            (codes "CHUNK")
            (chunk_payload f idx total ct transfer_id)
            msg_id

  -- The frames of so many chunks, from one of them on.
  pub data AreChunks : ℕ → ℕ → List Json → Type 0 where
    no_more : {idx : ℕ} → AreChunks zero idx []
    one_more :
        {left idx : ℕ} {frame : Json} {frames : List Json}
        → IsChunk idx frame
        → AreChunks left (idx + 1) frames
        → AreChunks (suc left) idx (frame ∷ frames)

  send_chunk-IsChunk :
      (idx : ℕ) (n n' : Node)
      → send_chunk r identity session f content total transfer_id idx n ≡ (ok tt, n')
      → (frame : Json) × (n'.outbox ≡ n.outbox ++ frame ∷ []) × IsChunk idx frame
  unfolding send_chunk
  send_chunk-IsChunk idx n n' h =
      let (ct, sealed, h₁) =
        lift-ok
          (encrypt_chunk r session.tx_key session.tx_nonce_base (nat idx) (chunk_at idx content)
            (str f.file_id) (nat total) (str transfer_id))
          _ n h in
      let (msg_id, sent) =
        built_frame-ok r identity (codes "CHUNK") (chunk_payload f idx total ct transfer_id) n n'
          h₁ in
      (
        build_envelope_with r identity (codes "CHUNK") (chunk_payload f idx total ct transfer_id)
            msg_id,
        sent,
        record { ct = ct; msg_id = msg_id; sealed = sealed; built = refl },
      )

  send_chunks-AreChunks :
      (left idx : ℕ) (n n' : Node)
      → send_chunks r identity session f content total transfer_id left idx n ≡ (ok tt, n')
      → (frames : List Json) × (n'.outbox ≡ n.outbox ++ frames) × AreChunks left idx frames
  unfolding send_chunks
  send_chunks-AreChunks zero idx n n' h =
      ([], ap (λ p. p.1.outbox) (sym h) ∙ sym (append-nil n.outbox), no_more)
  send_chunks-AreChunks (suc left) idx n n' h =
      let (done, n₁, first, h₁) =
        bind-ok (send_chunk r identity session f content total transfer_id idx) _ n h in
      let (frame, sent, is_chunk) = send_chunk-IsChunk idx n n₁ first in
      let (frames, more, are_chunks) = send_chunks-AreChunks left (idx + 1) n₁ n' h₁ in
      (
        frame ∷ frames,
        more ∙ ap (λ out. out ++ frames) sent ∙ append_assoc n.outbox (frame ∷ []) frames,
        one_more is_chunk are_chunks,
      )

  abbrev pub start_frame : Json
  start_frame =
      build_envelope_with r identity (codes "TRANSFER_START") (start_payload f total) transfer_id

  pub send_transfer-AreChunks :
      (n n' : Node)
      → send_transfer r identity session f content total transfer_id n ≡ (ok tt, n')
      → (frames : List Json) × (msg_id : Str) × (n'.outbox
          ≡ n.outbox
            ++ start_frame
              ∷ (frames
                  ++ build_envelope_with r identity
                      (codes "TRANSFER_DONE")
                      (done_payload f transfer_id)
                      msg_id
                    ∷ []))
        × AreChunks total 0 frames
  unfolding send_transfer
  send_transfer-AreChunks n n' h =
      let (done, n₁, started, h₁) = bind-ok (send_frame start_frame) _ n h in
      let (done, n₂, chunked, h₂) =
        bind-ok (send_chunks r identity session f content total transfer_id total 0) _ n₁ h₁ in
      let (frames, sent, are_chunks) = send_chunks-AreChunks total 0 n₁ n₂ chunked in
      let (msg_id, last) =
        built_frame-ok r identity (codes "TRANSFER_DONE") (done_payload f transfer_id) n₂ n' h₂ in
      (
        frames,
        msg_id,
        in_order _ _ _ _ _ _ _ (send_frame-ok start_frame n n₁ started) sent last,
        are_chunks,
      )

-- The first frame of a transfer that was not broken off is TRANSFER_START.
pub send_content-start :
    (r : Runtime) (identity : Identity) (session : SessionKeys) (f : SharedFile) (content : Bytes)
    (m m' : Node)
    → send_content r identity session f content m ≡ (ok tt, m')
    → (transfer_id : Str) × (frames : List Json) × (m'.outbox
        ≡ m.outbox
          ++ start_frame r identity session f content (total_chunks_of content) transfer_id
            ∷ frames)
unfolding send_content
send_content-start r identity session f content m m' ran =
    let (transfer_id, m₁, drawn, ran₁) = bind-ok (uuid4 r) _ m ran in
    let (chunks, msg_id, out, _) =
      send_transfer-AreChunks r identity session f content (total_chunks_of content) transfer_id m₁
        m' ran₁ in
    let same_out : m₁.outbox ≡ m.outbox = (unfold uuid4 in sym (ap (λ p. p.1.outbox) drawn)) in
    let done =
      build_envelope_with r identity (codes "TRANSFER_DONE") (done_payload f transfer_id) msg_id in
    let start = start_frame r identity session f content (total_chunks_of content) transfer_id in
    (transfer_id, chunks ++ done ∷ [], out ∙ ap (λ o. o ++ start ∷ (chunks ++ done ∷ [])) same_out)
