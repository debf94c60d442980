-- ===== src/Server/Dispatch.antt =====
-- `Server._dispatch` and `_handle_connection`.
pub mod Keeps
use cisc468_python.Base.{
  ℕ, Bytes, Str, codes, take, Bool, true, false, if◌then◌else◌, List, [], ◌∷◌, ◌++◌, Option, none,
  some, Exec, pure, lift, try, ◌>>=◌, ◌>>◌, Result, ok, err,
}
use cisc468_python.Json.{Json, str, text, get, is_str}
use cisc468_python.Runtime.{Runtime, py_str}
use cisc468_python.Node.{Contact, Node}
use cisc468_python.Protocol.{recv_frame}
use cisc468_python.Handshake.{send_error}
use cisc468_python.Server.Contacts.{
  Server, get_contact, text_of, handle_hello, handle_contact_request, handle_list_files,
  handle_key_rotate,
}
use cisc468_python.Server.Session.{handle_file_session}

module _ (r : Runtime) (server : Server) where
  unknown_peer : Json → Exec Node (Unit {0})
  unknown_peer peer_fp =
      send_error r server.identity (codes "Unknown peer: " ++ take 16 (text_of peer_fp))

  go_known : Json → (Contact → Exec Node (Unit {0})) → Option Contact → Exec Node (Unit {0})
  unfolding unknown_peer
  go_known peer_fp go none = unknown_peer peer_fp
  go_known peer_fp go (some contact) = go contact

  -- The contact that the sender names, or an error frame.
  known : Json → (Contact → Exec Node (Unit {0})) → Exec Node (Unit {0})
  unfolding go_known
  known peer_fp go = do found ← get_contact peer_fp; go_known peer_fp go found

  not_revoked : (Contact → Exec Node (Unit {0})) → Contact → Exec Node (Unit {0})
  not_revoked go contact =
      if contact.revoked
      then send_error r server.identity (codes "[SECURITY] Your key has been marked revoked")
      else go contact

  -- The branches of `_dispatch`, for the first frame of a connection from `host`.
  unfoldable pub dispatch_env : Json → Str → Exec Node (Unit {0})
  unfolding known not_revoked
  dispatch_env env host = do
    msg_type ← lift (get env (codes "type") (text ""))
    peer_fp ← lift (get env (codes "from") (text ""))
    if is_str msg_type (codes "HELLO")
        then handle_hello r server
        else if is_str msg_type (codes "CONTACT_REQUEST")
        then handle_contact_request r server env host
        else if is_str msg_type (codes "KEY_ROTATE_NOTICE")
        then known peer_fp (handle_key_rotate r server env)
        else if is_str msg_type (codes "LIST_FILES_REQUEST")
        then known peer_fp (not_revoked (handle_list_files r server env))
        else if is_str msg_type (codes "HANDSHAKE_INIT")
        then known peer_fp (not_revoked (handle_file_session r server env))
        else send_error r server.identity (codes "Unexpected message type: " ++ py_str r msg_type)

  -- `try: env = recv_frame(sock) except Exception: return`, on what `recv_frame` does
  dispatch_frame : Str → Result Json → Exec Node (Unit {0})
  unfolding dispatch_env
  dispatch_frame host (ok env) = dispatch_env env host
  dispatch_frame host (err e) = pure tt

  unfoldable pub dispatch : Str → Exec Node (Unit {0})
  unfolding dispatch_frame
  dispatch host n = let (frame, n') = recv_frame n in dispatch_frame host frame n'

  -- What `_handle_connection` does once TLS is up: no exception leaves it.
  unfoldable pub handle_connection : Str → Node → Node
  unfolding dispatch
  handle_connection host n = (dispatch host n).1
