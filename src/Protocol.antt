-- ===== src/Protocol.antt =====
-- protocol.py: message types, the bytes that are signed, envelopes, and sending and receiving at
-- the level of whole frames. The bytes of a frame are in the child `Frame`.
pub mod Binding
pub mod Envelope
pub mod Frame
pub mod Quiet
use cisc468_python.Base.{
  ℕ, zero, suc, ◌+◌, ◌-◌, Bytes, Str, codes, String, Bool, true, false, if◌then◌else◌, ltb,
  contains, List, [], ◌∷◌, ◌++◌, Option, none, some, Exec, pure, raise, ◌>>=◌, ◌>>◌, Result, ok,
  err, bind_result, value_error, os_error, connection_error, type_error, length,
}
use cisc468_python.Json.{Json, str, nat, text, obj, arr, Fields, fields, get, index, truthy}
use cisc468_python.Json.Dumps.{dumps, compact_sorted, spaced}
use cisc468_python.Crypto.Primitives.{ed25519_verify}
use cisc468_python.Runtime.{Runtime}
use cisc468_python.Crypto.Base64.{b64e, b64d}
use cisc468_python.Crypto.Identity.{Identity, sign}
use cisc468_python.Node.{Node, uuid4}

abbrev pub max_frame : ℕ
max_frame = 4194304

-- `SIGNED_TYPES`
abbrev pub signed_types : List Str
signed_types =
    codes "HELLO"
    ∷ codes "CONTACT_REQUEST"
    ∷ codes "CONTACT_ACCEPT"
    ∷ codes "HANDSHAKE_INIT"
    ∷ codes "HANDSHAKE_RESP"
    ∷ codes "KEY_ROTATE_NOTICE"
    ∷ codes "TRANSFER_START"
    ∷ []

unfoldable pub canonical_for_signing : Json → Json → Json → Json → Bytes
canonical_for_signing msg_type msg_id from_fp payload =
    codes "{\"v\":1,\"type\":"
    ++ (dumps spaced msg_type
        ++ (codes ",\"id\":"
            ++ (dumps spaced msg_id
                ++ (codes ",\"from\":"
                    ++ (dumps spaced from_fp
                        ++ (codes ",\"payload\":"
                            ++ (dumps compact_sorted payload ++ codes "}")))))))

-- `x in SIGNED_TYPES`: a list or a dict has no hash.
unfoldable pub in_signed_types : Json → Result Bool
in_signed_types (str t) = ok (contains signed_types t)
in_signed_types (arr xs) = err type_error
in_signed_types (obj fs) = err type_error
in_signed_types _ = ok false

envelope_of : Str → Str → Fields → Str → Str → Json
envelope_of from_fp msg_id payload sig msg_type = obj (
    fields (
      (codes "from", str from_fp)
      ∷ (codes "id", str msg_id)
      ∷ (codes "payload", obj payload)
      ∷ (codes "sig", str sig)
      ∷ (codes "type", str msg_type)
      ∷ (codes "v", nat 1)
      ∷ []))

module _ (r : Runtime) where
  unfoldable pub signature_of : Identity → Str → Fields → Str → Str
  signature_of identity msg_type payload msg_id =
      if contains signed_types msg_type
      then b64e (
          sign r identity (
            canonical_for_signing (str msg_type) (str msg_id) (str identity.fingerprint)
              (obj payload)))
      else []

  -- `build_envelope` once the identifier is there
  unfoldable pub build_envelope_with : Identity → Str → Fields → Str → Json
  unfolding signature_of envelope_of
  build_envelope_with identity msg_type payload msg_id =
      envelope_of identity.fingerprint msg_id payload
        (signature_of identity msg_type payload msg_id) msg_type

  -- `build_envelope` with no identifier given: a fresh one is drawn.
  unfoldable pub build_envelope : Identity → Str → Fields → Exec Node Json
  build_envelope identity msg_type payload = do
    msg_id ← uuid4 r
    pure (build_envelope_with identity msg_type payload msg_id)

  verify_signature : Bytes → Json → Bytes → Result Bool
  verify_signature raw_pub env sig = bind_result (get env (codes "type") (text "")) λ msg_type.
      bind_result (index env (codes "id")) λ msg_id.
        bind_result (index env (codes "from")) λ from_fp.
          bind_result (index env (codes "payload")) λ payload.
            ok
              (ed25519_verify r raw_pub sig (canonical_for_signing msg_type msg_id from_fp payload))

  -- `try: sig = b64d(sig_b64) except Exception: return False`, and what follows
  verify_decoded : Bytes → Json → Result Bytes → Result Bool
  verify_decoded raw_pub env (err e) = ok false
  verify_decoded raw_pub env (ok sig) = verify_signature raw_pub env sig

  unfoldable pub verify_envelope : Json → Bytes → Result Bool
  unfolding verify_signature verify_decoded in_signed_types
  verify_envelope env raw_pub = bind_result (get env (codes "type") (text "")) λ msg_type.
      bind_result (in_signed_types msg_type) λ needs_signature.
        if needs_signature
        then bind_result (get env (codes "sig") (text "")) (λ sig_b64.
          if truthy sig_b64 then verify_decoded raw_pub env (b64d sig_b64) else ok false)
        else ok true

-- `send_frame`: `sendall` raises once the connection is broken.
unfoldable pub send_frame : Json → Exec Node (Unit {0})
send_frame envelope n =
    if ltb max_frame (length (dumps compact_sorted envelope))
    then (err value_error, n)
    else elim n.sendable [
      | zero ↦ (err os_error, n)
      | suc more ↦ (ok tt, record n { outbox = n.outbox ++ envelope ∷ []; sendable = more })
    ]

-- `recv_frame`: the next frame of the peer, or the exception that reading it raises; after the
-- last one the connection is closed.
unfoldable pub recv_frame : Exec Node Json
recv_frame n = elim n.inbox [
  | [] ↦ (err connection_error, n)
  | frame ∷ rest ↦ (frame, record n { inbox = rest })
]

-- `canonical_manifest`, of values of any type
unfoldable pub canonical_manifest : Json → Json → Json → Json → Json → Json → Bytes
canonical_manifest file_id filename original_owner sha256_hex size timestamp =
    dumps compact_sorted (
      obj (
        fields (
          (codes "file_id", file_id)
          ∷ (codes "filename", filename)
          ∷ (codes "original_owner", original_owner)
          ∷ (codes "sha256_hex", sha256_hex)
          ∷ (codes "size", size)
          ∷ (codes "timestamp", timestamp)
          ∷ [])))
