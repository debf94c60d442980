-- ===== src/Server/Session.antt =====
-- `Server._handle_file_session`.
pub mod Keeps
pub mod Denial
pub mod Approval
use cisc468_python.Base.{
  ℕ, Bytes, Str, codes, take, Bool, true, false, if◌then◌else◌, List, [], ◌∷◌, ◌++◌, Option, none,
  some, Exec, Exn, handshake_error, type_error, pure, raise, lift, gets, try, ◌>>=◌, ◌>>◌, Result,
  ok, err, str_eq,
}
use cisc468_python.Json.{Json, str, nat, null, text, obj, arr, Fields, fields, get, index, is_str}
use cisc468_python.Runtime.{Runtime, py_str}
use cisc468_python.Crypto.Session.{SessionKeys}
use cisc468_python.Node.{Contact, SharedFile, Node}
use cisc468_python.Storage.Shares
use cisc468_python.Protocol.{build_envelope, send_frame, recv_frame}
use cisc468_python.Handshake.{send_error, perform_handshake_responder}
use cisc468_python.Server.Contacts.{Server, raw_pub_bytes}
use cisc468_python.Server.Transfer.{send_file}

-- `contact.alias or contact.fingerprint[:16]`
unfoldable pub peer_name : Contact → Str
peer_name c = if str_eq c.alias [] then take 16 c.fingerprint else c.alias

-- `self.share_index.get(file_id)`, for `file_id` of any type: a list or a dict has no hash.
unfoldable pub get_share : Json → Exec Node (Option SharedFile)
get_share (str file_id) n = (ok (Shares.get file_id n.shares), n)
get_share (arr xs) n = (err type_error, n)
get_share (obj fs) n = (err type_error, n)
get_share _ n = (ok none, n)

module _ (r : Runtime) (server : Server) where
  unfoldable pub deny : Json → Str → Exec Node (Unit {0})
  deny file_id reason = do
    env ←
        build_envelope r server.identity (codes "FILE_DENY")
          (fields ((codes "file_id", file_id) ∷ (codes "reason", str reason) ∷ []))
    send_frame env

  unfoldable pub approve : SessionKeys → Json → SharedFile → Exec Node (Unit {0})
  approve session file_id f = do
    env ←
        build_envelope r server.identity (codes "FILE_APPROVE")
          (fields ((codes "file_id", file_id) ∷ []))
    send_frame env
    send_file r server.identity session f

  unfoldable pub answer_request :
      Contact → SessionKeys → Json → Option SharedFile → Exec Node (Unit {0})
  unfolding deny approve peer_name
  answer_request contact session file_id none = deny file_id (codes "File not found in share index")
  answer_request contact session file_id (some f) =
      if server.consent_cb contact.fingerprint (peer_name contact) f.filename
      then approve session file_id f
      else deny file_id (codes "Denied by user")

  -- From the request that follows the handshake on.
  unfoldable pub serve_request : Contact → SessionKeys → Json → Exec Node (Unit {0})
  unfolding answer_request
  serve_request contact session req_env = do
    msg_type ← lift (get req_env (codes "type") null)
    if is_str msg_type (codes "FILE_REQUEST")
        then (do
          payload ← lift (index req_env (codes "payload"))
          file_id ← lift (get payload (codes "file_id") (text ""))
          f ← get_share file_id
          answer_request contact session file_id f)
        else send_error r server.identity (codes "Expected FILE_REQUEST, got " ++ py_str r msg_type)

  -- `try: req_env = recv_frame(sock) except Exception: return`, on what `recv_frame` does
  read_frame : Contact → SessionKeys → Result Json → Exec Node (Unit {0})
  unfolding serve_request
  read_frame contact session (ok req_env) = serve_request contact session req_env
  read_frame contact session (err e) = pure tt

  read_request : Contact → SessionKeys → Exec Node (Unit {0})
  unfolding read_frame
  read_request contact session n =
      let (frame, n') = recv_frame n in read_frame contact session frame n'

  -- `except HandshakeError: return`; any other exception goes on.
  after_handshake : Contact → Result SessionKeys → Exec Node (Unit {0})
  unfolding read_request
  after_handshake contact (ok session) = read_request contact session
  after_handshake contact (err handshake_error) = pure tt
  after_handshake contact (err e) = raise e

  handshake_then : Json → Contact → Bytes → Exec Node (Unit {0})
  unfolding after_handshake
  handshake_then env contact raw_pub n =
      let (session, n') =
        perform_handshake_responder r server.identity contact.fingerprint raw_pub (some env) n in
      after_handshake contact session n'

  unfoldable pub handle_file_session : Json → Contact → Exec Node (Unit {0})
  unfolding handshake_then
  handle_file_session env contact = do
    raw_pub ← lift (raw_pub_bytes contact)
    handshake_then env contact raw_pub
