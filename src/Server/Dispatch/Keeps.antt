-- ===== src/Server/Dispatch/Keeps.antt =====
-- The rule for invariants of a whole connection.
use cisc468_python.Base.{Str, Option, none, some, Exec, Result, ok, err}
use cisc468_python.Base.Keeps.{Keeps, Keeps-pure, keeps_rules}
use cisc468_python.Json.{Json}
use cisc468_python.Runtime.{Runtime}
use cisc468_python.Node.{Contact, Node}
use cisc468_python.Protocol.{recv_frame}
use cisc468_python.Protocol.Quiet.{recv_frame-Keeps}
use cisc468_python.Handshake.Quiet.{send_error-Keeps}
use cisc468_python.Server.Contacts.{Server}
use cisc468_python.Server.Contacts.Keeps.{
  IsKept, get_contact-Keeps, handle_hello-Keeps, handle_contact_request-Keeps,
  handle_list_files-Keeps, handle_key_rotate-Keeps,
}
use cisc468_python.Server.Session.Keeps.{handle_file_session-Keeps}
use cisc468_python.Server.Dispatch.{
  unknown_peer, known, go_known, not_revoked, dispatch_env, dispatch_frame, dispatch,
  handle_connection,
}

module _ {κ} (r : Runtime) (server : Server) {P : Node → Type κ} (kept : IsKept r P) where
  unknown_peer-Keeps : (fp : Json) → Keeps P (unknown_peer r server fp)
  unfolding unknown_peer
  unknown_peer-Keeps fp = send_error-Keeps r kept.quiet server.identity _

  go_known-Keeps :
      (fp : Json) (go : Contact → Exec Node (Unit {0})) (found : Option Contact)
      → ((c : Contact) → Keeps P (go c))
      → Keeps P (go_known r server fp go found)
  unfolding go_known
  go_known-Keeps fp go none h = unknown_peer-Keeps fp
  go_known-Keeps fp go (some c) h = h c

  known-Keeps :
      (fp : Json) (go : Contact → Exec Node (Unit {0}))
      → ((c : Contact) → Keeps P (go c))
      → Keeps P (known r server fp go)
  unfolding known
  known-Keeps fp go h = search (keeps_rules, get_contact-Keeps, go_known-Keeps)

  not_revoked-Keeps :
      (go : Contact → Exec Node (Unit {0})) (c : Contact)
      → Keeps P (go c)
      → Keeps P (not_revoked r server go c)
  unfolding not_revoked
  not_revoked-Keeps go c h = search (keeps_rules, send_error-Keeps r kept.quiet)

  dispatch_env-Keeps : (env : Json) (host : Str) → Keeps P (dispatch_env r server env host)
  unfolding dispatch_env
  dispatch_env-Keeps env host =
      search
        (
          keeps_rules,
          known-Keeps,
          not_revoked-Keeps,
          handle_hello-Keeps,
          handle_contact_request-Keeps r server kept,
          handle_list_files-Keeps r server kept,
          handle_key_rotate-Keeps r server kept,
          handle_file_session-Keeps r server kept.quiet,
          send_error-Keeps r kept.quiet,
        )
        depth 16

  dispatch_frame-Keeps :
      (host : Str) (frame : Result Json) → Keeps P (dispatch_frame r server host frame)
  unfolding dispatch_frame
  dispatch_frame-Keeps host (ok env) = dispatch_env-Keeps env host
  dispatch_frame-Keeps host (err e) = Keeps-pure tt

  -- An invariant of this kind holds after every connection, whatever frames the peer sends.
  pub handle_connection-Keeps :
      (host : Str) (n : Node) → P n → P (handle_connection r server host n)
  unfolding handle_connection dispatch
  handle_connection-Keeps host n h =
      (dispatch_frame-Keeps host (recv_frame n).0).at (recv_frame n).1
        ((recv_frame-Keeps kept.quiet).at n h)
