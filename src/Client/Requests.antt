-- ===== src/Client/Requests.antt =====
-- `Client.request_file`, `_do_request` and `_proxy_download`.
pub mod Settled
pub mod Outcome
pub mod Served
pub mod Meeting
use cisc468_python.Base.{
  ℕ, Bytes, Str, codes, Bool, true, false, not, ◌||◌, if◌then◌else◌, str_eq, List, [], ◌∷◌, ◌++◌,
  Option, none, some, Exec, Exn, pure, raise, lift, gets, try, ◌>>=◌, ◌>>◌, Result, ok, err,
  bind_result, value_error, connection_error, os_error, type_error, attribute_error,
}
use cisc468_python.Base.Dict.{Dict, values}
use cisc468_python.Json.{
  Json, null, str, text, arr, obj, Items, nil, cons, fields, get, index, is_str, truthy,
}
use cisc468_python.Runtime.{Runtime}
use cisc468_python.Crypto.Session.{SessionKeys}
use cisc468_python.Node.{Contact, Node}
use cisc468_python.Protocol.{build_envelope, verify_envelope, send_frame, recv_frame}
use cisc468_python.Handshake.{perform_handshake_initiator}
use cisc468_python.Server.Contacts.{raw_pub_bytes}
use cisc468_python.Client.Contacts.{Client, connect, require_contact, read_cache}
use cisc468_python.Client.Transfer.{recv_transfer}

-- `any(f.get("file_id") == file_id for f in cached)`
unfoldable pub any_item : Items → Str → Result Bool
any_item nil file_id = ok false
any_item (cons f fs) file_id =
    let rest = any_item fs file_id in
    bind_result (get f (codes "file_id") null) λ id. if is_str id file_id then ok true else rest

-- The same for what was in the cache, of any type: a dict or a text gives texts, which have no
-- `get`.
unfoldable pub has_file : Json → Str → Result Bool
unfolding any_item
has_file (arr fs) file_id = any_item fs file_id
has_file (obj fs) file_id = err attribute_error
has_file (str s) file_id = err attribute_error
has_file _ file_id = err type_error

-- Whether `_proxy_download` asks this contact, by what `_read_cache` gives.
unfoldable pub may_have : Option Json → Str → Result Bool
unfolding has_file
may_have none file_id = ok false
may_have (some cached) file_id = if truthy cached then has_file cached file_id else ok false

-- The message of a refusal is read, and the result is False.
refused : Json → Str → Exec Node Bool
refused reply key = do
  payload ← lift (index reply (codes "payload"))
  message ← lift (get payload key (text ""))
  pure false

module _ (r : Runtime) (client : Client) where
  -- The handshake and FILE_REQUEST: the session and the reply.
  unfoldable pub ask : Contact → Str → Exec Node (SessionKeys × Json)
  ask contact file_id = do
    connect
    raw_pub ← lift (raw_pub_bytes contact)
    session ← perform_handshake_initiator r client.identity contact.fingerprint raw_pub
    env ←
        build_envelope r client.identity (codes "FILE_REQUEST")
          (fields ((codes "file_id", str file_id) ∷ []))
    send_frame env
    reply ← recv_frame
    pure (session, reply)

  -- TRANSFER_START and what follows it.
  unfoldable pub take_transfer : Contact → SessionKeys → Exec Node Bool
  take_transfer contact session = do
    start_env ← recv_frame
    msg_type ← lift (get start_env (codes "type") null)
    if is_str msg_type (codes "TRANSFER_START")
        then (do
          raw_pub ← lift (raw_pub_bytes contact)
          valid ← lift (verify_envelope r start_env raw_pub)
          if valid then recv_transfer r session start_env else pure false)
        else pure false

  unfoldable pub do_request : Contact → Str → Exec Node Bool
  unfolding ask take_transfer refused
  do_request contact file_id = do
    (session, reply) ← ask contact file_id
    msg_type ← lift (get reply (codes "type") null)
    if is_str msg_type (codes "FILE_DENY")
        then refused reply (codes "reason")
        else if is_str msg_type (codes "ERROR")
        then refused reply (codes "message")
        else if is_str msg_type (codes "FILE_APPROVE")
        then take_transfer contact session
        else pure false

  -- One round of `_proxy_download` inside its `try`.
  unfoldable pub ask_proxy : Contact → Str → Exec Node Bool
  unfolding ask take_transfer
  ask_proxy contact file_id = do
    (session, reply) ← ask contact file_id
    msg_type ← lift (get reply (codes "type") null)
    if is_str msg_type (codes "FILE_APPROVE") then take_transfer contact session else pure false

  -- The next contact is asked if this one did not deliver.
  or_next : Exec Node Bool → Bool → Exec Node Bool
  or_next next true = pure true
  or_next next false = next

  try_proxy : Contact → Str → Exec Node Bool → Bool → Exec Node Bool
  unfolding ask_proxy or_next
  try_proxy contact file_id next false = next
  try_proxy contact file_id next true = do
    delivered ← try (ask_proxy contact file_id) (λ e. pure false)
    or_next next delivered

  unfoldable pub ask_all : Str → Str → List Contact → Exec Node Bool
  unfolding try_proxy may_have
  ask_all offline_fp file_id [] = pure false
  ask_all offline_fp file_id (contact ∷ more) =
      if str_eq contact.fingerprint offline_fp || contact.revoked
      then ask_all offline_fp file_id more
      else (do
        cached ← gets (λ n. read_cache contact.fingerprint n.listings)
        asked ← lift (may_have cached file_id)
        try_proxy contact file_id (ask_all offline_fp file_id more) asked)

  unfoldable pub proxy_download : Str → Str → Exec Node Bool
  unfolding ask_all
  proxy_download offline_fp file_id = do
    contacts ← gets (λ n. values n.contacts)
    ask_all offline_fp file_id contacts

  -- `except (ConnectionError, OSError)`; any other exception goes on.
  on_offline : Contact → Str → Exn → Exec Node Bool
  unfolding proxy_download
  on_offline contact file_id connection_error = proxy_download contact.fingerprint file_id
  on_offline contact file_id os_error = proxy_download contact.fingerprint file_id
  on_offline contact file_id e = raise e

  unfoldable pub request_file : Str → ℕ → Str → Exec Node Bool
  unfolding do_request on_offline
  request_file host port file_id = do
    contact ← require_contact host port
    if contact.revoked
        then pure false
        else try (do_request contact file_id) (on_offline contact file_id)
