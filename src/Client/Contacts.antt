-- ===== src/Client/Contacts.antt =====
-- `Client`: connecting, `add_contact`, `list_files` with its cache, `notify_key_rotation`.
pub mod Adding
pub mod Quiet
use cisc468_python.Base.{
  ℕ, suc, ◌+◌, ◌==◌, Bytes, Str, codes, take, Bool, true, false, not, ◌&&◌, ◌||◌, if◌then◌else◌,
  str_eq, List, [], ◌∷◌, ◌++◌, Option, none, some, Exec, pure, raise, raise_unless, lift, gets,
  modify, try, ◌>>=◌, ◌>>◌, Result, ok, err, value_error, connection_error,
}
use cisc468_python.Base.Dict.{Dict, lookup, insert, values}
use cisc468_python.Json.{
  Json, null, bool, int, real, pos, str, nat, text, arr, nil, Fields, end, fields, get, index,
  is_str,
}
use cisc468_python.Json.Dumps.{show_nat}
use cisc468_python.Runtime.{Runtime}
use cisc468_python.Crypto.Base64.{b64e, b64d}
use cisc468_python.Crypto.Identity.{Identity, fingerprint_from_bytes}
use cisc468_python.Node.{Contact, Node}
use cisc468_python.Storage.Contacts
use cisc468_python.Protocol.{build_envelope, verify_envelope, send_frame, recv_frame}
use cisc468_python.Server.Contacts.{get_contact, text_of}

-- What a `Client` keeps besides its stores.
pub record Client : Type 0 where
  pub identity : Identity
  pub listen_port : ℕ

-- `_connect_tls`: whom it meets is given by the state.
unfoldable pub connect : Exec Node (Unit {0})
connect n = elim n.dials [
  | [] ↦ (err connection_error, n)
  | none ∷ ds ↦ (err connection_error, record n { dials = ds })
  | some (frames, room) ∷ ds ↦ (ok tt, record n { dials = ds; inbox = frames; sendable = room })
]

-- `c.port == port`: the text of a whole number below 10^16 as a `float` ends in `.0`.
unfoldable pub is_port : Json → ℕ → Bool
is_port (int (pos k)) port = k == port
is_port (bool true) port = port == 1
is_port (bool false) port = port == 0
is_port (real t) port = str_eq t (show_nat port ++ codes ".0")
is_port _ port = false

-- The loop of `_require_contact`
unfoldable pub contact_at : Str → ℕ → List Contact → Option Contact
unfolding is_port
contact_at host port [] = none
contact_at host port (c ∷ cs) =
    let rest = contact_at host port cs in
    if str_eq c.host host && is_port c.port port then some c else rest

unfoldable pub required : Option Contact → Exec Node Contact
required none = raise value_error
required (some c) = pure c

unfoldable pub require_contact : Str → ℕ → Exec Node Contact
unfolding contact_at required
require_contact host port n = required (contact_at host port (values n.contacts)) n

-- `_read_cache`: the file that is at the path, of which JSON's `null` reads as None.
some_listing : Option Json → Option Json
some_listing none = none
some_listing (some null) = none
some_listing (some files) = some files

unfoldable pub read_cache : Str → Dict Json → Option Json
unfolding some_listing
read_cache fp listings = some_listing (lookup (take 16 fp) listings)

unfoldable pub write_cache : Str → Json → Exec Node (Unit {0})
write_cache fp files = modify λ n. record n { listings = insert (take 16 fp) files n.listings }

-- `raise ValueError(reply["payload"].get("message", …))`
raise_message : Json → Exec Node (Unit {0})
raise_message reply = do
  payload ← lift (index reply (codes "payload"))
  message ← lift (get payload (codes "message") (text ""))
  raise value_error

-- The reply is of this type.
unfoldable pub check_reply : Json → Str → Exec Node (Unit {0})
unfolding raise_message
check_reply reply expected = do
  msg_type ← lift (get reply (codes "type") null)
  if is_str msg_type (codes "ERROR")
      then raise_message reply
      else raise_unless (is_str msg_type expected) value_error

module _ (r : Runtime) (client : Client) where
  unfoldable pub new_contact : Str → Str → Str → Json → Contact
  new_contact fp raw_pub host port = record {
    fingerprint = fp;
    raw_pub = raw_pub;
    host = host;
    port = port;
    alias = [];
    verified = false;
    revoked = false;
    successor_fp = none;
  }

  -- A contact that exists is returned as the object that `update_address` has changed.
  unfoldable pub keep_contact : Json → Str → Str → Json → Option Contact → Exec Node Contact
  unfolding new_contact
  keep_contact peer_fp raw_pub host port none = do
    Contacts.add r (new_contact (text_of peer_fp) raw_pub host port)
    pure (new_contact (text_of peer_fp) raw_pub host port)
  keep_contact peer_fp raw_pub host port (some existing) = do
    Contacts.update_address r (text_of peer_fp) host port
    pure (record existing { host = host; port = port })

  -- From the reply on.
  unfoldable pub accept_reply : Json → Str → ℕ → Exec Node Contact
  unfolding keep_contact
  accept_reply reply host port = do
    check_reply reply (codes "CONTACT_ACCEPT")
    peer_fp ← lift (get reply (codes "from") (text ""))
    payload ← lift (index reply (codes "payload"))
    raw_pub_b64 ← lift (get payload (codes "raw_pub") (text ""))
    peer_port ← lift (get payload (codes "port") (nat port))
    raw_pub ← lift (b64d raw_pub_b64)
    raise_unless (is_str peer_fp (fingerprint_from_bytes r raw_pub)) value_error
    valid ← lift (verify_envelope r reply raw_pub)
    raise_unless valid value_error
    existing ← get_contact peer_fp
    keep_contact peer_fp (text_of raw_pub_b64) host peer_port existing

  -- The request and the reply to it.
  unfoldable pub request_contact : Exec Node Json
  request_contact = do
    connect
    env ← build_envelope r client.identity (codes "CONTACT_REQUEST") (
        fields (
          (codes "raw_pub", str (b64e client.identity.raw_pub))
          ∷ (codes "port", nat client.listen_port)
          ∷ []))
    send_frame env
    recv_frame

  unfoldable pub add_contact : Str → ℕ → Exec Node Contact
  unfolding request_contact accept_reply
  add_contact host port = do reply ← request_contact; accept_reply reply host port

  unfoldable pub fetch_list : Contact → Exec Node Json
  fetch_list contact = do
    env ← build_envelope r client.identity (codes "LIST_FILES_REQUEST") end
    send_frame env
    reply ← recv_frame
    check_reply reply (codes "LIST_FILES_RESPONSE")
    payload ← lift (index reply (codes "payload"))
    files ← lift (get payload (codes "files") (arr nil))
    write_cache contact.fingerprint files
    pure files

  unfoldable pub offline_list : Option Json → Exec Node Json
  offline_list none = raise connection_error
  offline_list (some cached) = pure cached

  -- `try: sock = _connect_tls(…) except Exception: …`, on what `_connect_tls` does
  list_connected : Contact → Result (Unit {0}) → Exec Node Json
  unfolding fetch_list offline_list
  list_connected contact (ok u) n = fetch_list contact n
  list_connected contact (err e) n = offline_list (read_cache contact.fingerprint n.listings) n

  unfoldable pub list_from : Contact → Exec Node Json
  unfolding list_connected
  list_from contact n = let (up, n') = connect n in list_connected contact up n'

  unfoldable pub list_files : Str → ℕ → Exec Node Json
  unfolding list_from
  list_files host port = do contact ← require_contact host port; list_from contact

-- Whether a peer answered with one of the two types that count.
counts : Json → ℕ
counts msg_type =
    if is_str msg_type (codes "CONTACT_ACCEPT") || is_str msg_type (codes "ERROR") then 1 else 0

notify_one : Json → Exec Node ℕ
unfolding counts
notify_one env = do
  connect
  send_frame env
  reply ← recv_frame
  msg_type ← lift (get reply (codes "type") null)
  pure (counts msg_type)

-- The loop of `notify_key_rotation`: revoked contacts are passed over, and an exception counts as
-- no answer.
unfoldable pub notify_all : Json → List Contact → Exec Node ℕ
unfolding notify_one
notify_all env [] = pure 0
notify_all env (c ∷ cs) = if c.revoked then notify_all env cs else (do
  answered ← try (notify_one env) (λ e. pure 0)
  more ← notify_all env cs
  pure (answered + more))

module _ (r : Runtime) where
  unfoldable pub notify_key_rotation : Identity → Identity → Exec Node ℕ
  unfolding notify_all
  notify_key_rotation old_identity new_identity = do
    env ← build_envelope r old_identity (codes "KEY_ROTATE_NOTICE") (
        fields (
          (codes "new_fingerprint", str new_identity.fingerprint)
          ∷ (codes "new_raw_pub", str (b64e new_identity.raw_pub))
          ∷ []))
    contacts ← gets (λ n. values n.contacts)
    notify_all env contacts
