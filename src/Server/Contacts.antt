-- ===== src/Server/Contacts.antt =====
-- The handlers of server.py that answer with one frame: HELLO, CONTACT_REQUEST, LIST_FILES_REQUEST
-- and KEY_ROTATE_NOTICE.
pub mod Keeps
use cisc468_python.Base.{
  ℕ, Bytes, Str, codes, take, Bool, true, false, if◌then◌else◌, List, [], ◌∷◌, ◌++◌, Option, none,
  some, Exec, pure, lift, gets, try, ◌>>=◌, ◌>>◌, Result, ok, err, attribute_error,
}
use cisc468_python.Json.{
  Json, str, nat, text, obj, arr, Fields, end, fields, items, get, index, is_str,
}
use cisc468_python.Runtime.{Runtime}
use cisc468_python.Crypto.Base64.{b64e, b64d}
use cisc468_python.Crypto.Identity.{Identity, fingerprint_from_bytes}
use cisc468_python.Node.{Contact, Node}
use cisc468_python.Storage.Contacts
use cisc468_python.Storage.Shares.{public_list}
use cisc468_python.Protocol.{build_envelope, verify_envelope, send_frame}
use cisc468_python.Handshake.{send_error}

-- What a `Server` keeps besides its stores.
pub record Server : Type 0 where
  pub identity : Identity
  pub actual_port : ℕ
  -- The answer of the user to: contact, name of the contact, name of the file.
  pub consent_cb : Str → Str → Str → Bool

-- `self.contacts.get(fp)`, for `fp` of any type
unfoldable pub get_contact : Json → Exec Node (Option Contact)
get_contact (str fp) n = (ok (Contacts.get fp n.contacts), n)
get_contact _ n = (err attribute_error, n)

-- `contact.raw_pub_bytes()`
unfoldable pub raw_pub_bytes : Contact → Result Bytes
raw_pub_bytes c = b64d (str c.raw_pub)

-- A value that was used as a text is one.
abbrev pub text_of : Json → Str
text_of (str s) = s
text_of _ = []

module _ (r : Runtime) (server : Server) where
  reply_with : Str → Fields → Exec Node (Unit {0})
  reply_with msg_type payload = do
    env ← build_envelope r server.identity msg_type payload
    send_frame env

  -- `{"raw_pub": …, "port": …}` of this server
  own_fields : Fields
  own_fields = fields (
      (codes "raw_pub", str (b64e server.identity.raw_pub))
      ∷ (codes "port", nat server.actual_port)
      ∷ [])

  unfoldable pub handle_hello : Exec Node (Unit {0})
  unfolding reply_with own_fields
  handle_hello = reply_with (codes "HELLO") own_fields

  fresh_contact : Str → Str → Str → Json → Contact
  fresh_contact fp raw_pub host port = record {
    fingerprint = fp;
    raw_pub = raw_pub;
    host = host;
    port = port;
    alias = [];
    verified = false;
    revoked = false;
    successor_fp = none;
  }

  -- A new contact is stored; of an old one the address is updated.
  unfoldable pub store_contact : Json → Str → Str → Json → Option Contact → Exec Node (Unit {0})
  unfolding fresh_contact
  store_contact peer_fp raw_pub host port none =
      Contacts.add r (fresh_contact (text_of peer_fp) raw_pub host port)
  store_contact peer_fp raw_pub host port (some existing) =
      Contacts.update_address r (text_of peer_fp) host port

  -- The handler once `raw_pub` is decoded.
  accept_contact : Json → Json → Json → Json → Str → Bytes → Exec Node (Unit {0})
  unfolding store_contact reply_with own_fields
  accept_contact env peer_fp raw_pub_b64 peer_port host raw_pub = do
    valid ← lift (verify_envelope r env raw_pub)
    if valid
        then (do
          existing ← get_contact peer_fp
          store_contact peer_fp (text_of raw_pub_b64) host peer_port existing
          reply_with (codes "CONTACT_ACCEPT") own_fields)
        else send_error r server.identity (codes "[SECURITY] CONTACT_REQUEST signature invalid")

  -- `try: raw = b64d(…) except Exception: self._send_error(…); return`, on what `b64d` does
  on_decoded : Result Bytes → Str → (Bytes → Exec Node (Unit {0})) → Exec Node (Unit {0})
  on_decoded (ok raw) message go = go raw
  on_decoded (err e) message go = send_error r server.identity message

  -- The address of the connection is the second argument.
  unfoldable pub handle_contact_request : Json → Str → Exec Node (Unit {0})
  unfolding accept_contact on_decoded
  handle_contact_request env host = do
    payload ← lift (get env (codes "payload") (obj end))
    peer_fp ← lift (get env (codes "from") (text ""))
    raw_pub_b64 ← lift (get payload (codes "raw_pub") (text ""))
    peer_port ← lift (get payload (codes "port") (nat 0))
    on_decoded (b64d raw_pub_b64) (codes "Invalid raw_pub")
        (accept_contact env peer_fp raw_pub_b64 peer_port host)

  unfoldable pub handle_list_files : Json → Contact → Exec Node (Unit {0})
  unfolding reply_with
  handle_list_files env contact = do
    raw_pub ← lift (raw_pub_bytes contact)
    valid ← lift (verify_envelope r env raw_pub)
    if valid
        then (do
          files ← gets (λ n. public_list n.shares)
          reply_with (codes "LIST_FILES_RESPONSE")
              (fields ((codes "files", arr (items files)) ∷ [])))
        else send_error r server.identity (codes "[SECURITY] LIST_FILES_REQUEST signature invalid")

  -- The successor of a contact: new key, same address and alias, not verified.
  successor : Contact → Str → Str → Contact
  successor contact new_fp new_raw = record {
    fingerprint = new_fp;
    raw_pub = new_raw;
    host = contact.host;
    port = contact.port;
    alias = contact.alias;
    verified = false;
    revoked = false;
    successor_fp = none;
  }

  rotate_to : Contact → Json → Json → Bytes → Exec Node (Unit {0})
  unfolding successor reply_with own_fields
  rotate_to contact new_fp new_raw_b64 new_raw =
      let computed = fingerprint_from_bytes r new_raw in
      if is_str new_fp computed
      then (do
        Contacts.mark_revoked r contact.fingerprint (some computed)
        Contacts.add r (successor contact computed (text_of new_raw_b64))
        reply_with (codes "CONTACT_ACCEPT") own_fields)
      else send_error r server.identity
          (codes "[SECURITY] New fingerprint doesn't match new public key")

  unfoldable pub handle_key_rotate : Json → Contact → Exec Node (Unit {0})
  unfolding rotate_to on_decoded
  handle_key_rotate env contact = do
    raw_pub ← lift (raw_pub_bytes contact)
    valid ← lift (verify_envelope r env raw_pub)
    if valid
        then (do
          payload ← lift (index env (codes "payload"))
          new_fp ← lift (get payload (codes "new_fingerprint") (text ""))
          new_raw_b64 ← lift (get payload (codes "new_raw_pub") (text ""))
          on_decoded (b64d new_raw_b64) (codes "Invalid new_raw_pub")
              (rotate_to contact new_fp new_raw_b64))
        else send_error r server.identity (codes "[SECURITY] KEY_ROTATE_NOTICE signature invalid")
