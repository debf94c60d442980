-- ===== src/Client/Requests/Served.antt =====
-- A request that an honest server, whose user consents, answers.
use cisc468_python.Base.{
  ℕ, length, le→ltb, Option, ◌+◌, ◌≤◌, Bytes, Str, codes, str_eq, true, suc, List, [], ◌∷◌, ◌++◌,
  map, some, Result, ok, append_assoc, append_cancel, ◌≡◌, refl, sym, ap, ◌∙◌,
}
use cisc468_python.Json.{Json, Fields, str, is_str}
use cisc468_python.Json.Dumps.{dumps, compact_sorted}
use cisc468_python.Runtime.{Runtime, IsLawful}
use cisc468_python.Crypto.Base64.{b64d}
use cisc468_python.Crypto.Packing.{IsBytes}
use cisc468_python.Crypto.Identity.{Identity, IsIdentity}
use cisc468_python.Crypto.Session.{SessionKeys, mirror}
use cisc468_python.Node.{Contact, SharedFile, holds, Node, uuid4}
use cisc468_python.Storage.Contacts
use cisc468_python.Storage.Received
use cisc468_python.Storage.Shares
use cisc468_python.Protocol.{build_envelope, build_envelope_with, send_frame, max_frame}
use cisc468_python.Protocol.Envelope.{get-type, verify_envelope-build_envelope}
use cisc468_python.Handshake.{initiate, perform_handshake_initiator, perform_handshake_responder}
use cisc468_python.Handshake.Agreement.{handshake_agreement}
use cisc468_python.Server.Contacts.{Server, raw_pub_bytes}
use cisc468_python.Server.Session.{peer_name, handle_file_session}
use cisc468_python.Server.Session.Approval.{
  request_of, approve_of, file_payload, handle_file_session-approve,
}
use cisc468_python.Server.Transfer.{total_chunks_of, start_payload}
use cisc468_python.Server.Transfer.Frames.{start_frame, send_content-start}
use cisc468_python.Client.Contacts.{Client, connect}
use cisc468_python.Client.Transfer.{recv_transfer}
use cisc468_python.Client.Transfer.Arrival.{recv_frame_lem, shared_manifest}
use cisc468_python.Client.Transfer.Delivery.{cons_parts, recv_transfer-send_content}
use cisc468_python.Client.Requests.{ask, take_transfer, do_request}

module _ (r : Runtime) (lawful : IsLawful r) (client : Client) (contact : Contact)
    (responder : Identity) (hr : IsIdentity r responder)
    (has_pub : raw_pub_bytes contact ≡ ok responder.raw_pub) where
  take_transfer-start :
      (session : SessionKeys) (payload : Fields) (msg_id : Str) (n : Node)
      (more : List (Result Json))
      → let start = build_envelope_with r responder (codes "TRANSFER_START") payload msg_id in
        n.inbox ≡ ok start ∷ more
        → take_transfer r client contact session n
          ≡ recv_transfer r session start (record n { inbox = more })
  unfolding take_transfer is_str str_eq
  take_transfer-start session payload msg_id n more arrives =
      rw
        (
          recv_frame_lem _ more n arrives,
          get-type r responder (codes "TRANSFER_START") payload msg_id,
          has_pub,
          verify_envelope-build_envelope r lawful responder (codes "TRANSFER_START") payload msg_id
              hr,
        )
        refl

connect_lem :
    (n : Node) (frames : List (Result Json)) (room : ℕ)
    (ds : List (Option (List (Result Json) × ℕ)))
    → n.dials ≡ some (frames, room) ∷ ds
    → connect n ≡ (ok tt, record n { dials = ds; inbox = frames; sendable = room })
unfolding connect
connect_lem n frames room ds dials = rw dials refl

send_frame_lem :
    (env : Json) (room : ℕ) (n : Node)
    → length (dumps compact_sorted env) ≤ max_frame
    → n.sendable ≡ suc room
    → send_frame env n ≡ (ok tt, record n { outbox = n.outbox ++ env ∷ []; sendable = room })
unfolding send_frame
send_frame_lem env room n fits more =
    rw (le→ltb (length (dumps compact_sorted env)) max_frame fits, more) refl

module _ (r : Runtime) (client : Client) (contact : Contact) (responder_pub : Bytes)
    (session : SessionKeys) (file_id : Str) where
  -- What `ask` does once the handshake is done: it sends the request, and reads the reply.
  ask_lem :
      (n n₁ : Node) (frames : List (Result Json)) (room room₁ : ℕ)
      (ds : List (Option (List (Result Json) × ℕ))) (reply : Json) (more : List (Result Json))
      → n.dials ≡ some (frames, room) ∷ ds
      → raw_pub_bytes contact ≡ ok responder_pub
      → perform_handshake_initiator r client.identity contact.fingerprint responder_pub
          (record n { dials = ds; inbox = frames; sendable = room })
        ≡ (ok session, n₁)
      → let request = request_of r client.identity file_id (r.uuid4 n₁.draws) in
        length (dumps compact_sorted request) ≤ max_frame
        → n₁.sendable ≡ suc room₁
        → n₁.inbox ≡ ok reply ∷ more
        → ask r client contact file_id n ≡ (
          ok (session, reply),
          record n₁ {
            draws = n₁.draws + 1;
            outbox = n₁.outbox ++ request ∷ [];
            sendable = room₁;
            inbox = more;
          },
        )
  unfolding ask build_envelope uuid4
  ask_lem n n₁ frames room room₁ ds reply more dials has_pub shaken fits can_send arrives =
      let request = request_of r client.identity file_id (r.uuid4 n₁.draws) in
      let sent = record n₁ {
        draws = n₁.draws + 1;
        outbox = n₁.outbox ++ request ∷ [];
        sendable = room₁;
      } in
      rw
        (
          connect_lem n frames room ds dials,
          has_pub,
          shaken,
          send_frame_lem request room₁ (record n₁ { draws = n₁.draws + 1 }) fits can_send,
          recv_frame_lem (ok reply) more sent arrives,
        )
        refl

-- The frames of the server's handler, in the order of sending.
replies_are :
    (before : List Json) (resp approve start : Json) (replies frames o₁ o₂ o₃ : List Json)
    → o₁ ≡ before ++ resp ∷ []
    → o₂ ≡ o₁ ++ approve ∷ []
    → o₃ ≡ o₂ ++ start ∷ frames
    → o₃ ≡ before ++ resp ∷ replies
    → replies ≡ approve ∷ start ∷ frames
replies_are before resp approve start replies frames o₁ o₂ o₃ h₁ h₂ h₃ h =
    let all : o₃ ≡ before ++ resp ∷ approve ∷ start ∷ frames =
      h₃
      ∙ ap (λ o. o ++ start ∷ frames) (h₂ ∙ ap (λ o. o ++ approve ∷ []) h₁)
      ∙ append_assoc (before ++ resp ∷ []) (approve ∷ []) (start ∷ frames)
      ∙ append_assoc before (resp ∷ []) (approve ∷ start ∷ frames) in
    (cons_parts (append_cancel before _ _ (sym h ∙ all))).1

module _ (r : Runtime) (client : Client) (contact : Contact) (session : SessionKeys)
    (file_id : Str) where
  -- A reply that approves the request.
  do_request_lem :
      (responder : Identity) (msg_id : Str) (n s : Node)
      → ask r client contact file_id n ≡ (ok (session, approve_of r responder file_id msg_id), s)
      → do_request r client contact file_id n ≡ take_transfer r client contact session s
  unfolding do_request is_str str_eq
  do_request_lem responder msg_id n s asked =
      rw (asked, get-type r responder (codes "FILE_APPROVE") (file_payload file_id) msg_id) refl

module _ (r : Runtime) (lawful : IsLawful r) (client : Client) (server : Server)
    (hc : IsIdentity r client.identity) (hs : IsIdentity r server.identity) where
  -- A file goes from one honest peer to another, from the call to the stored file. The client calls
  -- a server whose fingerprint and key it has as a contact, as the server has the client's. The client
  -- can send INIT and the request, which fits in a frame. The network
  -- delivers to each what the other sent: the server is handed INIT, has accepted it with RESP, and
  -- reads the request next; the client is delivered the frames that the server's handler sent until
  -- it returned. The server has the file in its index, with the hash of the content that is on
  -- disk and a manifest signature that the key of the owner, a contact of the client, accepts; and
  -- its user consents. Then `_do_request` returns True, `load` finds the content under the file's
  -- identifier, and the frames behind are still to be read.
  pub do_request-handle_file_session :
      (contact peer owner : Contact) (file_id : Str) (f : SharedFile)
      (content owner_pub msig eph nonce : Bytes) (n n₁ m m₁ m' : Node) (init resp : Json)
      (replies : List Json) (keys : SessionKeys) (room room₁ : ℕ)
      (ds : List (Option (List (Result Json) × ℕ))) (rest more : List (Result Json))
      → contact.fingerprint ≡ server.identity.fingerprint
      → raw_pub_bytes contact ≡ ok server.identity.raw_pub
      → peer.fingerprint ≡ client.identity.fingerprint
      → raw_pub_bytes peer ≡ ok client.identity.raw_pub
      → n.dials ≡ some (map ok (resp ∷ replies) ++ rest, room) ∷ ds
      → initiate r client.identity
          (record n { dials = ds; inbox = map ok (resp ∷ replies) ++ rest; sendable = room })
        ≡ (ok (eph, nonce), n₁)
      → n₁.outbox ≡ n.outbox ++ init ∷ []
      → n₁.sendable ≡ suc room₁
      → n₁.inbox ≡ map ok (resp ∷ replies) ++ rest
      → length (dumps compact_sorted (request_of r client.identity file_id (r.uuid4 n₁.draws)))
        ≤ max_frame
      → perform_handshake_responder r server.identity peer.fingerprint client.identity.raw_pub
          (some init)
          m
        ≡ (ok keys, m₁)
      → m₁.outbox ≡ m.outbox ++ resp ∷ []
      → m₁.inbox ≡ ok (request_of r client.identity file_id (r.uuid4 n₁.draws)) ∷ more
      → Shares.get file_id m₁.shares ≡ some f
      → server.consent_cb peer.fingerprint (peer_name peer) f.filename ≡ true
      → m₁.disk f.path ≡ holds content
      → IsBytes content
      → f.sha256_hex ≡ r.sha256_hex content
      → handle_file_session r server init peer m ≡ (ok tt, m')
      → m'.outbox ≡ m.outbox ++ resp ∷ replies
      → Contacts.get f.original_owner n₁.contacts ≡ some owner
      → raw_pub_bytes owner ≡ ok owner_pub
      → b64d (str f.manifest_sig) ≡ ok msig
      → r.ed25519_accepts owner_pub msig (shared_manifest f) ≡ true
      → (n' : Node) × (meta : Fields) × (do_request r client contact file_id n ≡ (ok true, n'))
        × (n'.inbox ≡ rest)
        × (Received.load r f.file_id n' ≡ ok (content, meta))
  do_request-handle_file_session contact peer owner file_id f content owner_pub msig eph nonce n n₁
        m m₁ m' init resp replies keys room room₁ ds rest more named has_pub peer_named peer_pub
        dials started sent_init can_send arrives fits answered sent_resp requested found consents
        on_disk bytes hashed served sent_all known owner_key has_sig signed =
      let (m₂, approved, sends) =
        handle_file_session-approve r server peer keys init client.identity (r.uuid4 n₁.draws)
          file_id f content client.identity.raw_pub m m₁ m' more peer_pub answered requested found
          consents on_disk served in
      let approve = approve_of r server.identity file_id (r.uuid4 m₁.draws) in
      let (transfer_id, frames, sent_start) =
        send_content-start r server.identity keys f content m₂ m' sends in
      let start =
        start_frame r server.identity keys f content (total_chunks_of content) transfer_id in
      let are =
        replies_are m.outbox resp approve start replies frames m₁.outbox m₂.outbox m'.outbox
          sent_resp approved sent_start sent_all in
      let called = record n {
        dials = ds;
        inbox = map ok (resp ∷ replies) ++ rest;
        sendable = room;
      } in
      let s₁ : Node = record n₁ { inbox = map ok replies ++ rest } in
      let shaken : perform_handshake_initiator r client.identity contact.fingerprint
            server.identity.raw_pub called
          ≡ (ok (mirror keys), s₁) =
        rw named (
          handshake_agreement r lawful client.identity server.identity hc hs called n₁ m m₁ eph
            nonce init resp keys (map ok replies ++ rest) started sent_init
            (rw peer_named at answered) sent_resp arrives) in
      let s₂ : Node = record s₁ {
        draws = n₁.draws + 1;
        outbox = n₁.outbox ++ request_of r client.identity file_id (r.uuid4 n₁.draws) ∷ [];
        sendable = room₁;
        inbox = ok start ∷ (map ok frames ++ rest);
      } in
      let asked : ask r client contact file_id n ≡ (ok (mirror keys, approve), s₂) =
        ask_lem r client contact server.identity.raw_pub (mirror keys) file_id n s₁
          (map ok (resp ∷ replies) ++ rest) room room₁ ds approve
          (ok start ∷ (map ok frames ++ rest)) dials has_pub shaken fits can_send
          (ap (λ t. map ok t ++ rest) are) in
      let took =
        take_transfer-start r lawful client contact server.identity hs has_pub (mirror keys)
          (start_payload f (total_chunks_of content)) transfer_id s₂ (map ok frames ++ rest) refl in
      let s₃ : Node = record s₂ { inbox = map ok frames ++ rest } in
      let (n', meta, ran, behind, loaded) =
        recv_transfer-send_content r lawful server.identity keys f content m₂ m' s₃ start frames
          rest owner owner_pub msig bytes sends sent_start refl known owner_key has_sig signed
          hashed in
      (
        n',
        meta,
        do_request_lem r client contact (mirror keys) file_id server.identity (r.uuid4 m₁.draws) n
              s₂ asked
            ∙ took
            ∙ ran,
        behind,
        loaded,
      )
