-- ===== src/Server/Session/Approval.antt =====
-- A request that the user approves: what the server sends.
use cisc468_python.Base.{
  Bytes, Str, codes, str_eq, true, List, [], ◌∷◌, ◌++◌, some, Result, ok, ◌+◌, ◌≡◌, refl, sym, ◌∙◌,
}
use cisc468_python.Json.{Json, str, Fields, fields, get, find, is_str}
use cisc468_python.Runtime.{Runtime}
use cisc468_python.Crypto.Identity.{Identity}
use cisc468_python.Crypto.Session.{SessionKeys}
use cisc468_python.Node.{Contact, SharedFile, holds, Node, uuid4}
use cisc468_python.Storage.Shares
use cisc468_python.Protocol.{build_envelope, build_envelope_with, recv_frame}
use cisc468_python.Protocol.Envelope.{get-type, index-payload}
use cisc468_python.Handshake.{perform_handshake_responder}
use cisc468_python.Handshake.Agreement.{sent, send_frame-ok}
use cisc468_python.Server.Contacts.{Server, raw_pub_bytes}
use cisc468_python.Server.Transfer.{send_content, send_file}
use cisc468_python.Server.Session.{
  peer_name, get_share, approve, answer_request, serve_request, handle_file_session, handshake_then,
  after_handshake, read_request, read_frame,
}

-- The payload of FILE_REQUEST and of FILE_APPROVE.
abbrev pub file_payload : Str → Fields
file_payload file_id = fields ((codes "file_id", str file_id) ∷ [])

abbrev pub request_of : Runtime → Identity → Str → Str → Json
request_of r sender file_id msg_id =
    build_envelope_with r sender (codes "FILE_REQUEST") (file_payload file_id) msg_id

abbrev pub approve_of : Runtime → Identity → Str → Str → Json
approve_of r sender file_id msg_id =
    build_envelope_with r sender (codes "FILE_APPROVE") (file_payload file_id) msg_id

module _ (r : Runtime) (server : Server) (peer : Contact) (session : SessionKeys) (file_id : Str)
    (f : SharedFile) where
  serve_request_lem :
      (sender : Identity) (msg_id : Str) (m : Node)
      → Shares.get file_id m.shares ≡ some f
      → server.consent_cb peer.fingerprint (peer_name peer) f.filename ≡ true
      → serve_request r server peer session (request_of r sender file_id msg_id) m
        ≡ approve r server session (str file_id) f m
  unfolding serve_request answer_request get_share is_str str_eq get find
  serve_request_lem sender msg_id m found consents =
      rw
        (
          get-type r sender (codes "FILE_REQUEST") (file_payload file_id) msg_id,
          index-payload r sender (codes "FILE_REQUEST") (file_payload file_id) msg_id,
          found,
          consents,
        )
        refl

  -- The server sends FILE_APPROVE, and then the content.
  pub serve_request-approve :
      (sender : Identity) (msg_id : Str) (content : Bytes) (m m' : Node)
      → Shares.get file_id m.shares ≡ some f
      → server.consent_cb peer.fingerprint (peer_name peer) f.filename ≡ true
      → m.disk f.path ≡ holds content
      → serve_request r server peer session (request_of r sender file_id msg_id) m ≡ (ok tt, m')
      → (m₁ : Node) × (m₁.outbox
          ≡ m.outbox ++ approve_of r server.identity file_id (r.uuid4 m.draws) ∷ [])
        × (send_content r server.identity session f content m₁ ≡ (ok tt, m'))
  unfolding approve build_envelope uuid4 send_file
  serve_request-approve sender msg_id content m m' found consents on_disk ran =
      let m₁ = record m { draws = m.draws + 1 } in
      let env = approve_of r server.identity file_id (r.uuid4 m.draws) in
      let run = sym (serve_request_lem sender msg_id m found consents) ∙ ran in
      let sends = send_frame-ok r env (send_file r server.identity session f) tt m₁ m' run in
      (sent r env m₁, refl, rw on_disk at sends)

module _ (r : Runtime) (server : Server) (peer : Contact) (session : SessionKeys) where
  -- The handler from the handshake on.
  handle_file_session_lem :
      (init request : Json) (peer_pub : Bytes) (m m₁ : Node) (more : List (Result Json))
      → raw_pub_bytes peer ≡ ok peer_pub
      → perform_handshake_responder r server.identity peer.fingerprint peer_pub (some init) m
        ≡ (ok session, m₁)
      → m₁.inbox ≡ ok request ∷ more
      → handle_file_session r server init peer m
        ≡ serve_request r server peer session request (record m₁ { inbox = more })
  unfolding handle_file_session handshake_then after_handshake read_request read_frame recv_frame
  handle_file_session_lem init request peer_pub m m₁ more has_pub shaken arrives =
      rw (has_pub, shaken, arrives) refl

  -- A session in which the peer, after the handshake, requests a file that is in the index and that
  -- the user lets it have: the reply is FILE_APPROVE, and the content follows.
  pub handle_file_session-approve :
      (init : Json) (sender : Identity) (msg_id file_id : Str) (f : SharedFile)
      (content peer_pub : Bytes) (m m₁ m' : Node) (more : List (Result Json))
      → raw_pub_bytes peer ≡ ok peer_pub
      → perform_handshake_responder r server.identity peer.fingerprint peer_pub (some init) m
        ≡ (ok session, m₁)
      → m₁.inbox ≡ ok (request_of r sender file_id msg_id) ∷ more
      → Shares.get file_id m₁.shares ≡ some f
      → server.consent_cb peer.fingerprint (peer_name peer) f.filename ≡ true
      → m₁.disk f.path ≡ holds content
      → handle_file_session r server init peer m ≡ (ok tt, m')
      → (m₂ : Node) × (m₂.outbox
          ≡ m₁.outbox ++ approve_of r server.identity file_id (r.uuid4 m₁.draws) ∷ [])
        × (send_content r server.identity session f content m₂ ≡ (ok tt, m'))
  handle_file_session-approve init sender msg_id file_id f content peer_pub m m₁ m' more has_pub
        shaken arrives found consents on_disk ran =
      let request = request_of r sender file_id msg_id in
      serve_request-approve r server peer session file_id f sender msg_id content
        (record m₁ { inbox = more }) m' found consents on_disk
        (sym (handle_file_session_lem init request peer_pub m m₁ more has_pub shaken arrives) ∙ ran)
