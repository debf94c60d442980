-- ===== src/Handshake/Passing.antt =====
-- What an honest peer built passes the checks, and its fields are read back.
use cisc468_python.Base.{Bytes, Str, codes, str_eq, str_eq_refl, ok, ◌≡◌, All, ◌<◌}
use cisc468_python.Json.{str, Fields, find, index, is_str}
use cisc468_python.Runtime.{Runtime, IsLawful}
use cisc468_python.Crypto.Base64.{b64e, b64d-b64e}
use cisc468_python.Crypto.Identity.{Identity, IsIdentity}
use cisc468_python.Node.{Node}
use cisc468_python.Protocol.{build_envelope_with}
use cisc468_python.Protocol.Envelope.{built, index-payload, verify_envelope-build_envelope}
use cisc468_python.Handshake.{payload_bytes, check_resp, hello_fields, refuse_unless, check_init}

module _ (r : Runtime) (lawful : IsLawful r) (identity : Identity) (h : IsIdentity r identity) where
  pub check_init_passes :
      (me : Identity) (payload : Fields) (msg_id : Str) (n : Node)
      → check_init r me
          (build_envelope_with r identity (codes "HANDSHAKE_INIT") payload msg_id)
          identity.fingerprint
          identity.raw_pub
          n
        ≡ (ok tt, n)
  unfolding check_init refuse_unless is_str str_eq
  check_init_passes me payload msg_id n = simp (
    built,
    str_eq_refl,
    verify_envelope-build_envelope r lawful identity (codes "HANDSHAKE_INIT") payload msg_id h,
  )

  pub check_resp_passes :
      (payload : Fields) (msg_id : Str) (n : Node)
      → check_resp r
          (build_envelope_with r identity (codes "HANDSHAKE_RESP") payload msg_id)
          identity.fingerprint
          identity.raw_pub
          n
        ≡ (ok tt, n)
  unfolding check_resp is_str str_eq
  check_resp_passes payload msg_id n = simp (
    built,
    str_eq_refl,
    verify_envelope-build_envelope r lawful identity (codes "HANDSHAKE_RESP") payload msg_id h,
  )

module _ (r : Runtime) (identity : Identity) (msg_type msg_id : Str) (eph_pub nonce : Bytes)
    (more : Fields) where
  pub payload_eph :
      All (λ b. b < 256) eph_pub
      → payload_bytes
          (build_envelope_with r identity msg_type (hello_fields r eph_pub nonce more) msg_id)
          (codes "ephemeral_pub")
        ≡ ok eph_pub
  unfolding payload_bytes
  payload_eph h = simp index-payload (unfold index find str_eq hello_fields in b64d-b64e eph_pub h)

  pub payload_nonce :
      All (λ b. b < 256) nonce
      → payload_bytes
          (build_envelope_with r identity msg_type (hello_fields r eph_pub nonce more) msg_id)
          (codes "nonce")
        ≡ ok nonce
  unfolding payload_bytes
  payload_nonce h = simp index-payload (unfold index find str_eq hello_fields in b64d-b64e nonce h)

  pub payload_ts :
      (ts : Bytes)
      → All (λ b. b < 256) ts
      → payload_bytes
          (build_envelope_with r identity msg_type
            (hello_fields r eph_pub nonce
              (Fields.field (codes "transcript_sig") (str (b64e ts)) more))
            msg_id)
          (codes "transcript_sig")
        ≡ ok ts
  unfolding payload_bytes
  payload_ts ts h = simp index-payload (unfold index find str_eq hello_fields in b64d-b64e ts h)
