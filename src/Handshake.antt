-- ===== src/Handshake.antt =====
-- handshake.py
pub mod Passing
pub mod Agreement
pub mod Authentication
pub mod Quiet
use cisc468_python.Base.{
  ℕ, Bytes, Str, codes, Bool, true, false, not, if◌then◌else◌, List, [], ◌∷◌, ◌++◌, Option, none,
  some, Exec, pure, raise, raise_unless, or_raise, lift, gets, try, ◌>>=◌, ◌>>◌, Result, ok, err,
  bind_result, handshake_error, value_error,
}
use cisc468_python.Json.{Json, null, str, text, obj, Fields, fields, get, index, is_str}
use cisc468_python.Crypto.Primitives.{ed25519_verify}
use cisc468_python.Runtime.{Runtime}
use cisc468_python.Crypto.Packing.{pack_be, utf8}
use cisc468_python.Crypto.Base64.{b64e, b64d}
use cisc468_python.Crypto.Identity.{Identity, sign}
use cisc468_python.Crypto.Session.{SessionKeys, derive}
use cisc468_python.Node.{Node, urandom}
use cisc468_python.Protocol.{build_envelope, verify_envelope, send_frame, recv_frame}

-- `_build_transcript`
unfoldable pub build_transcript : Str → Str → Bytes → Bytes → Bytes → Bytes → Result Bytes
build_transcript init_fp resp_fp init_eph resp_eph init_nonce resp_nonce =
    bind_result (utf8 init_fp) λ init_name. bind_result (utf8 resp_fp) λ resp_name. ok (
      codes "CISC468-HANDSHAKE-V1"
      ++ (init_name
          ++ (resp_name
              ++ (init_eph ++ (resp_eph ++ (init_nonce ++ (resp_nonce ++ pack_be 4 1)))))))

-- `b64d(env["payload"][key])`
unfoldable pub payload_bytes : Json → Str → Result Bytes
payload_bytes env key =
    bind_result (index env (codes "payload")) λ payload. bind_result (index payload key) b64d

module _ (r : Runtime) where
  -- `_send_error` of handshake.py, and of `Server`: an exception is dropped.
  unfoldable pub send_error : Identity → Str → Exec Node (Unit {0})
  send_error identity message =
      try
        (do
          env ←
              build_envelope r identity (codes "ERROR")
                (fields ((codes "message", str message) ∷ []))
          send_frame env)
        (λ e. pure tt)

  -- `f"Peer error: {env['payload'].get('message','')}"`, which is raised
  unfoldable pub raise_peer_error {ℓ} : {A : Type ℓ} → Json → Exec Node A
  raise_peer_error env = do
    payload ← lift (index env (codes "payload"))
    message ← lift (get payload (codes "message") (text ""))
    raise handshake_error

  -- The checks of the type, the sender and the signature of HANDSHAKE_RESP.
  unfoldable pub check_resp : Json → Str → Bytes → Exec Node (Unit {0})
  unfolding raise_peer_error
  check_resp resp responder_fp responder_raw_pub = do
    msg_type ← lift (get resp (codes "type") null)
    if is_str msg_type (codes "ERROR") then raise_peer_error resp else do
      raise_unless (is_str msg_type (codes "HANDSHAKE_RESP")) handshake_error
      from_fp ← lift (get resp (codes "from") null)
      raise_unless (is_str from_fp responder_fp) handshake_error
      valid ← lift (verify_envelope r resp responder_raw_pub)
      raise_unless valid handshake_error

  -- The payload of an INIT, and the first part of a RESP.
  unfoldable pub hello_fields : Bytes → Bytes → Fields → Fields
  hello_fields eph_pub nonce more =
      Fields.field (codes "ephemeral_pub") (str (b64e eph_pub))
        (Fields.field (codes "nonce") (str (b64e nonce)) more)

  -- `perform_handshake_initiator` up to sending INIT: the ephemeral private key and the nonce.
  unfoldable pub initiate : Identity → Exec Node (Bytes × Bytes)
  unfolding hello_fields
  initiate identity = do
    eph ← urandom r 32
    nonce ← urandom r 32
    env ←
        build_envelope r identity (codes "HANDSHAKE_INIT")
          (hello_fields (r.x25519_public eph) nonce Fields.end)
    send_frame env
    pure (eph, nonce)

  -- The rest of it, from the reply on.
  unfoldable pub finish : Identity → Str → Bytes → Bytes → Bytes → Exec Node SessionKeys
  finish identity responder_fp responder_raw_pub eph nonce = do
    resp ← recv_frame
    check_resp resp responder_fp responder_raw_pub
    resp_eph_pub ← lift (payload_bytes resp (codes "ephemeral_pub"))
    resp_nonce ← lift (payload_bytes resp (codes "nonce"))
    transcript ← lift (
        build_transcript identity.fingerprint responder_fp (r.x25519_public eph) resp_eph_pub nonce
          resp_nonce)
    ts ← try (lift (payload_bytes resp (codes "transcript_sig"))) (λ e. raise handshake_error)
    raise_unless (ed25519_verify r responder_raw_pub ts transcript) handshake_error
    shared ← or_raise (r.x25519_exchange eph resp_eph_pub) value_error
    lift (derive r shared nonce resp_nonce identity.fingerprint responder_fp true)

  unfoldable pub perform_handshake_initiator : Identity → Str → Bytes → Exec Node SessionKeys
  unfolding initiate finish
  perform_handshake_initiator identity responder_fp responder_raw_pub = do
    (eph, nonce) ← initiate identity
    finish identity responder_fp responder_raw_pub eph nonce

  -- An error frame is sent before the exception.
  refuse_unless : Bool → Identity → Str → Exec Node (Unit {0})
  unfolding send_error
  refuse_unless accepted identity message =
      if accepted then pure tt else (do send_error identity message; raise handshake_error)

  unfoldable pub check_init : Identity → Json → Str → Bytes → Exec Node (Unit {0})
  unfolding raise_peer_error refuse_unless
  check_init identity init initiator_fp initiator_raw_pub = do
    msg_type ← lift (get init (codes "type") null)
    if is_str msg_type (codes "ERROR") then raise_peer_error init else do
      raise_unless (is_str msg_type (codes "HANDSHAKE_INIT")) handshake_error
      from_fp ← lift (get init (codes "from") null)
      refuse_unless (is_str from_fp initiator_fp) identity
          (codes "Fingerprint mismatch: expected " ++ initiator_fp)
      valid ← lift (verify_envelope r init initiator_raw_pub)
      refuse_unless valid identity (codes "HANDSHAKE_INIT signature invalid")

  -- The reply to an INIT that was accepted, and the session.
  unfoldable pub respond : Identity → Str → Bytes → Bytes → Exec Node SessionKeys
  unfolding hello_fields
  respond identity initiator_fp init_eph_pub init_nonce = do
    eph ← urandom r 32
    nonce ← urandom r 32
    transcript ← lift (
        build_transcript initiator_fp identity.fingerprint init_eph_pub (r.x25519_public eph)
          init_nonce nonce)
    env ← build_envelope r identity (codes "HANDSHAKE_RESP") (
        hello_fields (r.x25519_public eph) nonce (
          Fields.field (codes "transcript_sig") (str (b64e (sign r identity transcript)))
            Fields.end))
    send_frame env
    shared ← or_raise (r.x25519_exchange eph init_eph_pub) value_error
    lift (derive r shared init_nonce nonce initiator_fp identity.fingerprint false)

  first_frame : Option Json → Exec Node Json
  first_frame none = recv_frame
  first_frame (some env) = pure env

  unfoldable pub perform_handshake_responder :
      Identity → Str → Bytes → Option Json → Exec Node SessionKeys
  unfolding check_init respond first_frame
  perform_handshake_responder identity initiator_fp initiator_raw_pub prefetched_env = do
    init ← first_frame prefetched_env
    check_init identity init initiator_fp initiator_raw_pub
    init_eph_pub ← lift (payload_bytes init (codes "ephemeral_pub"))
    init_nonce ← lift (payload_bytes init (codes "nonce"))
    respond identity initiator_fp init_eph_pub init_nonce
