-- ===== src/Server/Session/Keeps.antt =====
-- A file session keeps the invariants that the connection is no part of.
use cisc468_python.Base.{Bytes, Str, Option, none, some, Result, ok, err, handshake_error}
use cisc468_python.Base.Keeps.{Keeps, Keeps-raise, Keeps-pure, keeps_rules}
use cisc468_python.Json.{Json, null}
use cisc468_python.Runtime.{Runtime}
use cisc468_python.Crypto.Session.{SessionKeys}
use cisc468_python.Node.{Contact, SharedFile, Node}
use cisc468_python.Node.Quiet.{IsQuiet}
use cisc468_python.Protocol.{recv_frame}
use cisc468_python.Protocol.Quiet.{build_envelope-Keeps, send_frame-Keeps, recv_frame-Keeps}
use cisc468_python.Handshake.{perform_handshake_responder}
use cisc468_python.Handshake.Quiet.{send_error-Keeps, perform_handshake_responder-Keeps}
use cisc468_python.Server.Contacts.{Server}
use cisc468_python.Server.Transfer.Keeps.{send_file-Keeps}
use cisc468_python.Server.Session.{
  get_share, deny, approve, answer_request, serve_request, read_request, read_frame,
  after_handshake, handle_file_session, handshake_then,
}

module _ {κ} (r : Runtime) (server : Server) {P : Node → Type κ} (quiet : IsQuiet P) where
  get_share-Keeps : (file_id : Json) → Keeps P (get_share file_id)
  unfolding get_share
  get_share-Keeps null = record { at = λ n h. h }
  get_share-Keeps _ = record { at = λ n h. h }

  deny-Keeps : (file_id : Json) (reason : Str) → Keeps P (deny r server file_id reason)
  unfolding deny
  deny-Keeps file_id reason =
      search (keeps_rules, build_envelope-Keeps r quiet, send_frame-Keeps quiet)

  approve-Keeps :
      (session : SessionKeys) (file_id : Json) (f : SharedFile)
      → Keeps P (approve r server session file_id f)
  unfolding approve
  approve-Keeps session file_id f =
      search (keeps_rules, build_envelope-Keeps r quiet, send_frame-Keeps quiet, send_file-Keeps)
        depth 12

  answer_request-Keeps :
      (c : Contact) (session : SessionKeys) (file_id : Json) (found : Option SharedFile)
      → Keeps P (answer_request r server c session file_id found)
  unfolding answer_request
  answer_request-Keeps c session file_id none = search (keeps_rules, deny-Keeps)
  answer_request-Keeps c session file_id (some f) = search (keeps_rules, deny-Keeps, approve-Keeps)

  serve_request-Keeps :
      (c : Contact) (session : SessionKeys) (req : Json)
      → Keeps P (serve_request r server c session req)
  unfolding serve_request
  serve_request-Keeps c session req =
      search (keeps_rules, get_share-Keeps, answer_request-Keeps, send_error-Keeps r quiet) depth 12

  read_frame-Keeps :
      (c : Contact) (session : SessionKeys) (frame : Result Json)
      → Keeps P (read_frame r server c session frame)
  unfolding read_frame
  read_frame-Keeps c session (ok req) = serve_request-Keeps c session req
  read_frame-Keeps c session (err e) = Keeps-pure tt

  read_request-Keeps :
      (c : Contact) (session : SessionKeys) → Keeps P (read_request r server c session)
  unfolding read_request
  read_request-Keeps c session = record {
    at = λ n h.
        (read_frame-Keeps c session (recv_frame n).0).at (recv_frame n).1
          ((recv_frame-Keeps quiet).at n h);
  }

  after_handshake-Keeps :
      (c : Contact) (session : Result SessionKeys) → Keeps P (after_handshake r server c session)
  unfolding after_handshake
  after_handshake-Keeps c (ok session) = read_request-Keeps c session
  after_handshake-Keeps c (err handshake_error) = Keeps-pure tt
  after_handshake-Keeps c (err _) = Keeps-raise _

  handshake_then-Keeps :
      (env : Json) (c : Contact) (raw_pub : Bytes) → Keeps P (handshake_then r server env c raw_pub)
  unfolding handshake_then
  handshake_then-Keeps env c raw_pub = record {
    at = λ n h.
        let run =
          perform_handshake_responder r server.identity c.fingerprint raw_pub (some env) n in
        (after_handshake-Keeps c run.0).at run.1 (
          (perform_handshake_responder-Keeps r quiet server.identity c.fingerprint raw_pub
              (some env)).at
            n h);
  }

  pub handle_file_session-Keeps :
      (env : Json) (c : Contact) → Keeps P (handle_file_session r server env c)
  unfolding handle_file_session
  handle_file_session-Keeps env c = search (keeps_rules, handshake_then-Keeps)
