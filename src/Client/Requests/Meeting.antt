-- ===== src/Client/Requests/Meeting.antt =====
-- A client and a server, from the command of the one to the dispatcher of the other.
use cisc468_python.Base.{
  ℕ, length, ◌+◌, ◌≤◌, Bytes, Str, codes, str_eq, true, false, suc, List, [], ◌∷◌, ◌++◌, map,
  Option, some, Result, ok, Exec, Exn, try, ◌≡◌, refl, sym, ap, ◌∙◌,
}
use cisc468_python.Base.Dict.{values}
use cisc468_python.Json.{Json, Fields, str, is_str}
use cisc468_python.Json.Dumps.{dumps, compact_sorted}
use cisc468_python.Runtime.{Runtime, IsLawful}
use cisc468_python.Crypto.Base64.{b64d}
use cisc468_python.Crypto.Packing.{IsBytes}
use cisc468_python.Crypto.Identity.{Identity, IsIdentity}
use cisc468_python.Crypto.Session.{SessionKeys}
use cisc468_python.Node.{Contact, SharedFile, holds, Node}
use cisc468_python.Storage.Contacts
use cisc468_python.Storage.Received
use cisc468_python.Storage.Shares
use cisc468_python.Protocol.{max_frame}
use cisc468_python.Protocol.Envelope.{get-type, get-from}
use cisc468_python.Handshake.{initiate, hello_fields, perform_handshake_responder}
use cisc468_python.Handshake.Agreement.{init_env, initiate-sent, last_frame}
use cisc468_python.Server.Contacts.{Server, get_contact, raw_pub_bytes}
use cisc468_python.Server.Session.{peer_name, handle_file_session}
use cisc468_python.Server.Session.Approval.{request_of}
use cisc468_python.Server.Dispatch.{dispatch, dispatch_env}
use cisc468_python.Client.Contacts.{Client, contact_at, required, require_contact}
use cisc468_python.Client.Transfer.Arrival.{shared_manifest, recv_frame_lem}
use cisc468_python.Client.Requests.{do_request, request_file}
use cisc468_python.Client.Requests.Served.{do_request-handle_file_session}

module _ (r : Runtime) (server : Server) where
  -- INIT of a contact that is not revoked opens a file session.
  dispatch-init :
      (sender : Identity) (eph nonce : Bytes) (msg_id host : Str) (peer : Contact) (m : Node)
      (more : List (Result Json))
      → m.inbox ≡ ok (init_env r sender eph nonce msg_id) ∷ more
      → Contacts.get sender.fingerprint m.contacts ≡ some peer
      → peer.revoked ≡ false
      → dispatch r server host m
        ≡ handle_file_session r server
            (init_env r sender eph nonce msg_id)
            peer
            (record m { inbox = more })
  unfolding dispatch dispatch_env get_contact is_str str_eq
  dispatch-init sender eph nonce msg_id host peer m more arrives known trusted =
      let payload = hello_fields r (r.x25519_public eph) nonce Fields.end in
      rw
        (
          recv_frame_lem _ more m arrives,
          get-type r sender (codes "HANDSHAKE_INIT") payload msg_id,
          get-from r sender (codes "HANDSHAKE_INIT") payload msg_id,
          known,
          trusted,
        )
        refl

try-ok {ℓ} :
    {A : Type ℓ} {a : A} (m : Exec Node A) (h : Exn → Exec Node A) (n n' : Node)
    → m n ≡ (ok a, n')
    → try m h n ≡ (ok a, n')
try-ok m h n n' ran = rw ran refl

module _ (r : Runtime) (client : Client) where
  -- `request_file` of a contact that is not revoked, when it is reached.
  request_file_lem :
      (contact : Contact) (host file_id : Str) (port : ℕ) (n n' : Node)
      → contact_at host port (values n.contacts) ≡ some contact
      → contact.revoked ≡ false
      → do_request r client contact file_id n ≡ (ok true, n')
      → request_file r client host port file_id n ≡ (ok true, n')
  unfolding request_file require_contact required do_request
  request_file_lem contact host file_id port n n' at trusted ran =
      rw at (simp trusted (try-ok (do_request r client contact file_id) _ n n' ran))

module _ (r : Runtime) (lawful : IsLawful r) (client : Client) (server : Server)
    (hc : IsIdentity r client.identity) (hs : IsIdentity r server.identity) where
  -- A file goes from one honest peer to another, from the call of `request_file` to the stored file.
  -- The client calls a server that is a contact of it, under its fingerprint and key, as the client
  -- is one of the server; neither is revoked. The client can send INIT and the request, which fits in
  -- a frame. The network delivers to each what the other sent: the
  -- server reads INIT, accepts it with RESP, and reads the request next; the client is delivered the
  -- frames that the server's `_dispatch` sent until it returned. The server has the file in its
  -- index, with the hash of the content that is on disk and a manifest signature that the key of the
  -- owner, a contact of the client, accepts; and its user consents. Then `request_file` returns True,
  -- `load` finds the content under the file's identifier, and the frames behind are still to be read.
  pub request_file-dispatch :
      (contact peer owner : Contact) (host peer_host file_id : Str) (port : ℕ) (f : SharedFile)
      (content owner_pub msig eph nonce : Bytes) (n n₁ m m₁ m' : Node) (init resp : Json)
      (replies : List Json) (keys : SessionKeys) (room room₁ : ℕ)
      (ds : List (Option (List (Result Json) × ℕ))) (rest more : List (Result Json))
      → let request = request_of r client.identity file_id (r.uuid4 n₁.draws) in
        let incoming = map ok (resp ∷ replies) ++ rest in
        contact_at host port (values n.contacts) ≡ some contact
        → contact.revoked ≡ false
        → contact.fingerprint ≡ server.identity.fingerprint
        → raw_pub_bytes contact ≡ ok server.identity.raw_pub
        → Contacts.get client.identity.fingerprint m.contacts ≡ some peer
        → peer.revoked ≡ false
        → peer.fingerprint ≡ client.identity.fingerprint
        → raw_pub_bytes peer ≡ ok client.identity.raw_pub
        → n.dials ≡ some (incoming, room) ∷ ds
        → initiate r client.identity (record n { dials = ds; inbox = incoming; sendable = room })
          ≡ (ok (eph, nonce), n₁)
        → n₁.outbox ≡ n.outbox ++ init ∷ []
        → n₁.sendable ≡ suc room₁
        → n₁.inbox ≡ incoming
        → length (dumps compact_sorted request) ≤ max_frame
        → m.inbox ≡ ok init ∷ ok request ∷ more
        → perform_handshake_responder r server.identity peer.fingerprint client.identity.raw_pub
            (some init)
            (record m { inbox = ok request ∷ more })
          ≡ (ok keys, m₁)
        → m₁.outbox ≡ m.outbox ++ resp ∷ []
        → m₁.inbox ≡ ok request ∷ more
        → Shares.get file_id m₁.shares ≡ some f
        → server.consent_cb peer.fingerprint (peer_name peer) f.filename ≡ true
        → m₁.disk f.path ≡ holds content
        → IsBytes content
        → f.sha256_hex ≡ r.sha256_hex content
        → dispatch r server peer_host m ≡ (ok tt, m')
        → m'.outbox ≡ m.outbox ++ resp ∷ replies
        → Contacts.get f.original_owner n₁.contacts ≡ some owner
        → raw_pub_bytes owner ≡ ok owner_pub
        → b64d (str f.manifest_sig) ≡ ok msig
        → r.ed25519_accepts owner_pub msig (shared_manifest f) ≡ true
        → (n' : Node) × (meta : Fields) × (request_file r client host port file_id n
            ≡ (ok true, n'))
          × (n'.inbox ≡ rest)
          × (Received.load r f.file_id n' ≡ ok (content, meta))
  request_file-dispatch contact peer owner host peer_host file_id port f content owner_pub msig eph
        nonce n n₁ m m₁ m' init resp replies keys room room₁ ds rest more found_contact trusted
        named has_pub knows peer_trusted peer_named peer_pub dials started sent_init can_send
        arrives fits reads answered sent_resp requested found consents on_disk bytes hashed served
        sent_all known owner_key has_sig signed =
      let request = request_of r client.identity file_id (r.uuid4 n₁.draws) in
      let called : Node = record n {
        dials = ds;
        inbox = map ok (resp ∷ replies) ++ rest;
        sendable = room;
      } in
      let handled : Node = record m { inbox = ok request ∷ more } in
      let (_, _, first) = initiate-sent r client.identity eph nonce called n₁ started in
      let msg_id = r.uuid4 (n.draws + 1 + 1) in
      let init_is =
        last_frame n.outbox init (init_env r client.identity eph nonce msg_id)
          (sym sent_init ∙ first) in
      let opened =
        dispatch-init r server client.identity eph nonce msg_id peer_host peer m (ok request ∷ more)
          (reads ∙ ap (λ x. ok x ∷ ok request ∷ more) init_is) knows peer_trusted
        ∙ ap (λ x. handle_file_session r server x peer handled) (sym init_is) in
      let (n', meta, ran, behind, loaded) =
        do_request-handle_file_session r lawful client server hc hs contact peer owner file_id f
          content owner_pub msig eph nonce n n₁ handled m₁ m' init resp replies keys room room₁ ds
          rest more named has_pub peer_named peer_pub dials started sent_init can_send arrives fits
          answered sent_resp requested found consents on_disk bytes hashed (sym opened ∙ served)
          sent_all known owner_key has_sig signed in
      (
        n',
        meta,
        request_file_lem r client contact host file_id port n n' found_contact trusted ran,
        behind,
        loaded,
      )
