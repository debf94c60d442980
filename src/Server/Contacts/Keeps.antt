-- ===== src/Server/Contacts/Keeps.antt =====
-- The rule for invariants of the handlers that answer with one frame.
use cisc468_python.Base.{Bytes, Str, false, Option, none, some, Exec, Result, ok, err, ◌≡◌, refl}
use cisc468_python.Base.Keeps.{Keeps, keeps_rules}
use cisc468_python.Json.{Json, str, Fields}
use cisc468_python.Runtime.{Runtime}
use cisc468_python.Node.{Contact, Node}
use cisc468_python.Node.Quiet.{IsQuiet}
use cisc468_python.Storage.Contacts
use cisc468_python.Protocol.Quiet.{build_envelope-Keeps, send_frame-Keeps}
use cisc468_python.Handshake.Quiet.{send_error-Keeps}
use cisc468_python.Server.Contacts.{
  Server, get_contact, reply_with, store_contact, accept_contact, on_decoded, successor, rotate_to,
  handle_hello, handle_contact_request, handle_list_files, handle_key_rotate,
}

-- An invariant that the connection is no part of and that the three changes of a contact that the
-- server makes keep: a contact that the server adds is not verified.
pub record IsKept {κ} (r : Runtime) (P : Node → Type κ) : Type κ where
  pub quiet : IsQuiet P
  pub adds : (c : Contact) → c.verified ≡ false → Keeps P (Contacts.add r c)
  pub revokes : (fp : Str) (s : Option Str) → Keeps P (Contacts.mark_revoked r fp s)
  pub relocates : (fp host : Str) (port : Json) → Keeps P (Contacts.update_address r fp host port)

module _ {κ} {P : Node → Type κ} where
  pub get_contact-Keeps : (fp : Json) → Keeps P (get_contact fp)
  unfolding get_contact
  get_contact-Keeps (str fp) = record { at = λ n h. h }
  get_contact-Keeps _ = record { at = λ n h. h }

module _ {κ} (r : Runtime) (server : Server) {P : Node → Type κ} (kept : IsKept r P) where
  reply_with-Keeps :
      (msg_type : Str) (payload : Fields) → Keeps P (reply_with r server msg_type payload)
  unfolding reply_with
  reply_with-Keeps msg_type payload =
      search (keeps_rules, build_envelope-Keeps r kept.quiet, send_frame-Keeps kept.quiet)

  pub handle_hello-Keeps : Keeps P (handle_hello r server)
  unfolding handle_hello
  handle_hello-Keeps = reply_with-Keeps _ _

  store_contact-Keeps :
      (fp : Json) (raw_pub host : Str) (port : Json) (existing : Option Contact)
      → Keeps P (store_contact r server fp raw_pub host port existing)
  unfolding store_contact
  store_contact-Keeps fp raw_pub host port none = kept.adds _ refl
  store_contact-Keeps fp raw_pub host port (some c) = kept.relocates _ host port

  on_decoded-Keeps :
      (decoded : Result Bytes) (message : Str) (go : Bytes → Exec Node (Unit {0}))
      → ((raw : Bytes) → Keeps P (go raw))
      → Keeps P (on_decoded r server decoded message go)
  unfolding on_decoded
  on_decoded-Keeps (ok raw) message go h = h raw
  on_decoded-Keeps (err e) message go h = send_error-Keeps r kept.quiet server.identity message

  accept_contact-Keeps :
      (env fp raw_pub_b64 port : Json) (host : Str) (raw_pub : Bytes)
      → Keeps P (accept_contact r server env fp raw_pub_b64 port host raw_pub)
  unfolding accept_contact
  accept_contact-Keeps env fp raw_pub_b64 port host raw_pub =
      search
        (
          keeps_rules,
          get_contact-Keeps,
          store_contact-Keeps,
          reply_with-Keeps,
          send_error-Keeps r kept.quiet,
        )
        depth 12

  pub handle_contact_request-Keeps :
      (env : Json) (host : Str) → Keeps P (handle_contact_request r server env host)
  unfolding handle_contact_request
  handle_contact_request-Keeps env host =
      search (keeps_rules, on_decoded-Keeps, accept_contact-Keeps) depth 12

  pub handle_list_files-Keeps :
      (env : Json) (c : Contact) → Keeps P (handle_list_files r server env c)
  unfolding handle_list_files
  handle_list_files-Keeps env c =
      search (keeps_rules, reply_with-Keeps, send_error-Keeps r kept.quiet) depth 12

  add-successor-Keeps :
      (c : Contact) (fp raw : Str) → Keeps P (Contacts.add r (successor r server c fp raw))
  unfolding successor
  add-successor-Keeps c fp raw = kept.adds _ refl

  rotate_to-Keeps :
      (c : Contact) (new_fp new_raw_b64 : Json) (new_raw : Bytes)
      → Keeps P (rotate_to r server c new_fp new_raw_b64 new_raw)
  unfolding rotate_to
  rotate_to-Keeps c new_fp new_raw_b64 new_raw =
      search
        (
          keeps_rules,
          kept.revokes,
          add-successor-Keeps,
          reply_with-Keeps,
          send_error-Keeps r kept.quiet,
        )
        depth 12

  pub handle_key_rotate-Keeps :
      (env : Json) (c : Contact) → Keeps P (handle_key_rotate r server env c)
  unfolding handle_key_rotate
  handle_key_rotate-Keeps env c =
      search (keeps_rules, on_decoded-Keeps, rotate_to-Keeps, send_error-Keeps r kept.quiet) depth
        12
