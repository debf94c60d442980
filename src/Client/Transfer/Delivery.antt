-- ===== src/Client/Transfer/Delivery.antt =====
-- A transfer between honest peers.
use cisc468_python.Base.{
  append_cancel, ℕ, Bytes, Str, codes, true, str_eq, str_eq_refl, List, [], ◌∷◌, ◌++◌, map, some,
  ok, Result, bind-ok, ◌≡◌, refl, ◌∙◌, sym, ap, arith,
}
use cisc468_python.Json.{Json, Fields, str, set_field, is_str}
use cisc468_python.Runtime.{Runtime, IsLawful, py_str}
use cisc468_python.Crypto.Base64.{b64e, b64d}
use cisc468_python.Crypto.Packing.{IsBytes}
use cisc468_python.Crypto.Identity.{Identity}
use cisc468_python.Crypto.Session.{SessionKeys, mirror}
use cisc468_python.Node.{Contact, SharedFile, Node, urandom, uuid4}
use cisc468_python.Storage.Contacts
use cisc468_python.Storage.Received
use cisc468_python.Storage.Received.{load-save}
use cisc468_python.Protocol.{build_envelope_with}
use cisc468_python.Protocol.Envelope.{get-type}
use cisc468_python.Server.Contacts.{get_contact, raw_pub_bytes}
use cisc468_python.Server.Transfer.{total_chunks_of, done_payload, send_content}
use cisc468_python.Server.Transfer.Slices.{chunks_from, chunks_from-total_chunks_of}
use cisc468_python.Server.Transfer.Frames.{AreChunks, start_frame, send_transfer-AreChunks}
use cisc468_python.Client.Transfer.{
  manifest_of, meta_of, rounds, join_chunks, store_content, finish_transfer, recv_content,
  check_manifest, check_owner, recv_transfer,
}
use cisc468_python.Client.Transfer.Joining.{put_all, join_chunks-put_all}
use cisc468_python.Client.Transfer.Arrival.{
  shared_manifest, start_of, recv_frame_lem, read_start_frame, recv_chunks-AreChunks,
}

module _ (r : Runtime) (lawful : IsLawful r) (identity : Identity) (session : SessionKeys)
    (f : SharedFile) (content : Bytes) (bytes : IsBytes content) (total : ℕ)
    (transfer_id : Str) where
  -- The node once the content is saved.
  stored : Node → List (Result Json) → Node
  stored n rest =
      (Received.save r (str f.file_id) content (meta_of (start_of f total transfer_id))
        (record n { inbox = rest })).1

  store_content-ok :
      (n : Node)
      → f.sha256_hex ≡ r.sha256_hex content
      → store_content r (mirror session) (start_of f total transfer_id) content n ≡ (
        ok true,
        (Received.save r (str f.file_id) content (meta_of (start_of f total transfer_id)) n).1,
      )
  unfolding store_content start_of is_str Received.save urandom
  store_content-ok n h = rw (h, str_eq_refl (r.sha256_hex content)) refl

  finish_transfer-ok :
      (msg_id : Str) (n : Node) (rest : List (Result Json))
      → total ≡ total_chunks_of content
      → f.sha256_hex ≡ r.sha256_hex content
      → n.inbox
        ≡ ok (
            build_envelope_with r identity
              (codes "TRANSFER_DONE")
              (done_payload f transfer_id)
              msg_id)
          ∷ rest
      → finish_transfer r
          (mirror session)
          (start_of f total transfer_id)
          total
          (some (put_all total 0 content []))
          n
        ≡ (ok true, stored n rest)
  unfolding finish_transfer stored
  finish_transfer-ok msg_id n rest all hashed arrives =
      let joins : join_chunks total 0 (put_all total 0 content []) ≡ ok content =
        join_chunks-put_all total content
        ∙ ap ok (ap (λ t. chunks_from t 0 content) all ∙ chunks_from-total_chunks_of content) in
      rw
        (
          recv_frame_lem _ rest n arrives,
          get-type r identity (codes "TRANSFER_DONE") (done_payload f transfer_id) msg_id,
          joins,
        )
        (unfold is_str str_eq in store_content-ok (record n { inbox = rest }) hashed)

  recv_content-ok :
      (frames : List Json) (msg_id : Str) (n : Node) (rest : List (Result Json))
      → AreChunks r identity session f content total transfer_id total 0 frames
      → total ≡ total_chunks_of content
      → f.sha256_hex ≡ r.sha256_hex content
      → n.inbox
        ≡ map ok frames
          ++ ok (
              build_envelope_with r identity
                (codes "TRANSFER_DONE")
                (done_payload f transfer_id)
                msg_id)
            ∷ rest
      → recv_content r (mirror session) (start_of f total transfer_id) n ≡ (ok true, stored n rest)
  unfolding recv_content rounds start_of stored
  recv_content-ok frames msg_id n rest chunks all hashed arrives =
      rw
        (recv_chunks-AreChunks r lawful identity session f content bytes total transfer_id total 0
          frames [] n _ chunks arrives)
        (finish_transfer-ok msg_id (record n { inbox = _ }) rest all hashed refl)

  stored_inbox : (n : Node) (rest : List (Result Json)) → (stored n rest).inbox ≡ rest
  unfolding stored Received.save urandom
  stored_inbox n rest = refl

  load-stored :
      (n : Node) (rest : List (Result Json))
      → Received.load r f.file_id (stored n rest)
        ≡ ok (
          content,
          set_field
              (codes "nonce")
              (str (b64e (r.urandom n.draws 12)))
              (meta_of (start_of f total transfer_id)),
        )
  unfolding stored py_str
  load-stored n rest =
      load-save r lawful (str f.file_id) f.file_id content (meta_of (start_of f total transfer_id))
        (record n { inbox = rest })
      ∙ rw (str_eq_refl f.file_id) refl

  accepted_transfer :
      (n n' : Node) (owner : Contact) (owner_pub msig : Bytes)
      → Contacts.get f.original_owner n.contacts ≡ some owner
      → raw_pub_bytes owner ≡ ok owner_pub
      → b64d (str f.manifest_sig) ≡ ok msig
      → r.ed25519_accepts owner_pub msig (shared_manifest f) ≡ true
      → recv_content r (mirror session) (start_of f total transfer_id) n ≡ (ok true, n')
      → recv_transfer r
          (mirror session)
          (start_frame r identity session f content total transfer_id)
          n
        ≡ (ok true, n')
  unfolding recv_transfer check_owner check_manifest get_contact start_of manifest_of
  accepted_transfer n n' owner owner_pub msig known has_pub has_sig signed run =
      rw (read_start_frame, known, has_sig, has_pub, signed) run

map-append_frames :
    (frames : List Json) (done : Json) (rest : List (Result Json))
    → map ok (frames ++ done ∷ []) ++ rest ≡ map ok frames ++ ok done ∷ rest
map-append_frames [] done rest = refl
map-append_frames (frame ∷ frames) done rest =
    ap (λ t. ok frame ∷ t) (map-append_frames frames done rest)

pub cons_parts {ℓ} : {A : Type ℓ} {x y : A} {xs ys : List A} → x ∷ xs ≡ y ∷ ys → (x ≡ y) × (xs ≡ ys)
cons_parts h = (ground arith, ground arith)

module _ (r : Runtime) (lawful : IsLawful r) (identity : Identity) (session : SessionKeys)
    (f : SharedFile) (content : Bytes) where
  -- A transfer between honest peers succeeds, for content of any length. Suppose the sender's
  -- `_send_file` ends without an error, and the receiver, whose session is the mirror image, takes
  -- the first of the frames it sent as TRANSFER_START and is delivered the others in order; the file
  -- in the index has the hash of the content, and a manifest signature that the owner's key, a
  -- contact of the receiver, accepts. Then the receiver returns True, and `load` finds the
  -- content under the file's identifier; the frames behind are still to be read.
  pub recv_transfer-send_content :
      (m m' n : Node) (start_env : Json) (frames : List Json) (rest : List (Result Json))
      (owner : Contact) (owner_pub msig : Bytes)
      → IsBytes content
      → send_content r identity session f content m ≡ (ok tt, m')
      → m'.outbox ≡ m.outbox ++ start_env ∷ frames
      → n.inbox ≡ map ok frames ++ rest
      → Contacts.get f.original_owner n.contacts ≡ some owner
      → raw_pub_bytes owner ≡ ok owner_pub
      → b64d (str f.manifest_sig) ≡ ok msig
      → r.ed25519_accepts owner_pub msig (shared_manifest f) ≡ true
      → f.sha256_hex ≡ r.sha256_hex content
      → (n' : Node) × (meta : Fields) × (recv_transfer r (mirror session) start_env n
          ≡ (ok true, n'))
        × (n'.inbox ≡ rest)
        × (Received.load r f.file_id n' ≡ ok (content, meta))
  unfolding send_content
  recv_transfer-send_content m m' n start_env frames rest owner owner_pub msig bytes ran sent
        arrives known has_pub has_sig signed hashed =
      let (transfer_id, m₁, drawn, ran₁) = bind-ok (uuid4 r) _ m ran in
      let total = total_chunks_of content in
      let (chunks, msg_id, out, are_chunks) =
        send_transfer-AreChunks r identity session f content total transfer_id m₁ m' ran₁ in
      let same_out : m₁.outbox ≡ m.outbox = (unfold uuid4 in sym (ap (λ p. p.1.outbox) drawn)) in
      let done =
        build_envelope_with r identity (codes "TRANSFER_DONE") (done_payload f transfer_id)
          msg_id in
      let (first, others) = cons_parts (
        append_cancel m.outbox _ _ (
          sym sent
          ∙ out
          ∙ ap
              (λ o.
                o
                ++ start_frame r identity session f content total transfer_id
                  ∷ (chunks ++ done ∷ []))
              same_out)) in
      let run =
        recv_content-ok r lawful identity session f content bytes total transfer_id chunks msg_id n
          rest are_chunks refl hashed
          (arrives ∙ ap (λ t. map ok t ++ rest) others ∙ map-append_frames chunks done rest) in
      (
        stored r lawful identity session f content bytes total transfer_id n rest,
        set_field (codes "nonce") (str (b64e (r.urandom n.draws 12)))
            (meta_of (start_of f total transfer_id)),
        rw first (
            accepted_transfer r lawful identity session f content bytes total transfer_id n _ owner
              owner_pub msig known has_pub has_sig signed run),
        stored_inbox r lawful identity session f content bytes total transfer_id n rest,
        load-stored r lawful identity session f content bytes total transfer_id n rest,
      )
