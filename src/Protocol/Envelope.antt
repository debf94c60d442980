-- ===== src/Protocol/Envelope.antt =====
-- Which envelopes verify.
use cisc468_python.Base.{
  Bytes, Str, codes, Bool, true, false, if◌then◌else◌, contains, [], some, Result, ok, err,
  bind_result, bind_result-eq-ok, ◌≡◌, refl, ◌⊎◌, inl, inr, arith, Bool-cases, length, str_eq,
  str_eq_iff,
}
use cisc468_python.Json.{Json, str, text, obj, Fields, get, index, find, truthy}
use cisc468_python.Runtime.{Runtime, IsLawful}
use cisc468_python.Crypto.Base64.{b64e, b64d, b64d-b64e, length-b64e}
use cisc468_python.Crypto.Identity.{Identity, IsIdentity, sign, make_identity}
use cisc468_python.Protocol.{
  canonical_for_signing, in_signed_types, signed_types, build_envelope_with, verify_envelope,
  verify_signature, verify_decoded, signature_of,
}

-- The signature of `env` was accepted over the four fields that are signed.
pub record IsSigned (r : Runtime) (env : Json) (raw_pub : Bytes) : Type 0 where
  pub msg_type : Json
  pub msg_id : Json
  pub from_fp : Json
  pub payload : Json
  pub sig_b64 : Json
  pub signature : Bytes
  pub has_type : get env (codes "type") (text "") ≡ ok msg_type
  pub has_id : index env (codes "id") ≡ ok msg_id
  pub has_from : index env (codes "from") ≡ ok from_fp
  pub has_payload : index env (codes "payload") ≡ ok payload
  pub has_sig : get env (codes "sig") (text "") ≡ ok sig_b64
  pub decodes : b64d sig_b64 ≡ ok signature
  pub accepted :
      r.ed25519_accepts raw_pub signature (canonical_for_signing msg_type msg_id from_fp payload)
      ≡ true

truthy-b64e : (s : Bytes) → length s ≡ 64 → truthy (str (b64e s)) ≡ true
unfolding truthy
truthy-b64e s h = ground (arith, length-b64e s, str_eq_iff (b64e s) [])

module _ (r : Runtime) (identity : Identity) (msg_type : Str) (payload : Fields)
    (msg_id : Str) where
  -- The fields of an envelope that was built.
  pub get-type :
      (d : Json)
      → get (build_envelope_with r identity msg_type payload msg_id) (codes "type") d
        ≡ ok (str msg_type)
  unfolding build_envelope_with get find str_eq
  get-type d = refl

  pub get-sig :
      get (build_envelope_with r identity msg_type payload msg_id) (codes "sig") (text "")
      ≡ ok (str (signature_of r identity msg_type payload msg_id))
  unfolding build_envelope_with get find str_eq
  get-sig = refl

  pub index-id :
      index (build_envelope_with r identity msg_type payload msg_id) (codes "id") ≡ ok (str msg_id)
  unfolding build_envelope_with index find str_eq
  index-id = refl

  pub index-from :
      index (build_envelope_with r identity msg_type payload msg_id) (codes "from")
      ≡ ok (str identity.fingerprint)
  unfolding build_envelope_with index find str_eq
  index-from = refl

  pub get-from :
      (d : Json)
      → get (build_envelope_with r identity msg_type payload msg_id) (codes "from") d
        ≡ ok (str identity.fingerprint)
  unfolding build_envelope_with get find str_eq
  get-from d = refl

  pub index-payload :
      index (build_envelope_with r identity msg_type payload msg_id) (codes "payload")
      ≡ ok (obj payload)
  unfolding build_envelope_with index find str_eq
  index-payload = refl

pub ruleset built = (get-type, get-sig, get-from, index-id, index-from, index-payload)

module _ (r : Runtime) (lawful : IsLawful r) where
  pub public_of_identity :
      (identity : Identity)
      → IsIdentity r identity
      → r.ed25519_public identity.seed ≡ some identity.raw_pub
  unfolding make_identity
  public_of_identity identity h = ground arith

  -- What an identity builds, anyone who has its public key verifies: an envelope of any type, signed
  -- or not, with any payload.
  pub verify_envelope-build_envelope :
      (identity : Identity) (msg_type : Str) (payload : Fields) (msg_id : Str)
      → IsIdentity r identity
      → verify_envelope r (build_envelope_with r identity msg_type payload msg_id) identity.raw_pub
        ≡ ok true
  unfolding verify_envelope
  verify_envelope-build_envelope identity msg_type payload msg_id h =
      elim (Bool-cases (contains signed_types msg_type)) [
        | inl signed ↦
            simp (built, signed)
              (unfold signature_of sign in
                simp (
                  signed,
                  truthy-b64e
                      (r.ed25519_sign identity.seed (
                        canonical_for_signing (str msg_type) (str msg_id) (str identity.fingerprint)
                          (obj payload)))
                      (lawful.length-sign identity.seed _),
                  b64d-b64e _ (lawful.sign-bytes identity.seed _),
                  built,
                  lawful.accepts-sign identity.seed identity.raw_pub _
                      (public_of_identity identity h),
                ))
        | inr not_signed ↦ simp (built, not_signed)
      ]

module _ (r : Runtime) where
  -- The parts of the test, from the last one on.
  signature_sound :
      (env : Json) (raw_pub : Bytes) (sig_b64 : Json) (sig : Bytes)
      → get env (codes "sig") (text "") ≡ ok sig_b64
      → b64d sig_b64 ≡ ok sig
      → verify_signature r raw_pub env sig ≡ ok true
      → IsSigned r env raw_pub
  unfolding verify_signature
  signature_sound env raw_pub sig_b64 sig has_sig decodes h =
      let (t, has_type, h₁) = bind_result-eq-ok (get env (codes "type") (text "")) _ h in
      let (i, has_id, h₂) = bind_result-eq-ok (index env (codes "id")) _ h₁ in
      let (f, has_from, h₃) = bind_result-eq-ok (index env (codes "from")) _ h₂ in
      let (p, has_payload, h₄) = bind_result-eq-ok (index env (codes "payload")) _ h₃ in
      record {
        msg_type = t;
        msg_id = i;
        from_fp = f;
        payload = p;
        sig_b64 = sig_b64;
        signature = sig;
        has_type = has_type;
        has_id = has_id;
        has_from = has_from;
        has_payload = has_payload;
        has_sig = has_sig;
        decodes = decodes;
        accepted = ground arith;
      }

  decoded_sound :
      (env : Json) (raw_pub : Bytes) (sig_b64 : Json) (decoded : Result Bytes)
      → get env (codes "sig") (text "") ≡ ok sig_b64
      → b64d sig_b64 ≡ decoded
      → verify_decoded r raw_pub env decoded ≡ ok true
      → IsSigned r env raw_pub
  unfolding verify_decoded
  decoded_sound env raw_pub sig_b64 (ok sig) has_sig decodes h =
      signature_sound env raw_pub sig_b64 sig has_sig decodes h
  decoded_sound env raw_pub sig_b64 (err e) has_sig decodes h = cc

  sig_sound :
      (env : Json) (raw_pub : Bytes) (sig_b64 : Json) (there : Bool)
      → get env (codes "sig") (text "") ≡ ok sig_b64
      → (if there then verify_decoded r raw_pub env (b64d sig_b64) else ok false) ≡ ok true
      → IsSigned r env raw_pub
  sig_sound env raw_pub sig_b64 true has_sig h =
      decoded_sound env raw_pub sig_b64 (b64d sig_b64) has_sig refl h
  sig_sound env raw_pub sig_b64 false has_sig h = cc

  verified_of_kind :
      (env : Json) (raw_pub : Bytes) (t : Json)
      → get env (codes "type") (text "") ≡ ok t
      → (needs : Bool) → in_signed_types t ≡ ok needs
      → (if needs
          then bind_result (get env (codes "sig") (text "")) (λ sig_b64.
            if truthy sig_b64 then verify_decoded r raw_pub env (b64d sig_b64) else ok false)
          else ok true)
        ≡ ok true
      → ((t : Json) × (get env (codes "type") (text "") ≡ ok t) × (in_signed_types t ≡ ok false))
        ⊎ IsSigned r env raw_pub
  verified_of_kind env raw_pub t has_type false kind h = inl (t, has_type, kind)
  verified_of_kind env raw_pub t has_type true kind h =
      let (s, has_sig, h₁) = bind_result-eq-ok (get env (codes "sig") (text "")) _ h in
      inr (sig_sound env raw_pub s (truthy s) has_sig h₁)

  -- An envelope that verifies is of a type that needs no signature, or its signature was accepted,
  -- under the given key, over the canonical form of its own type, identifier, sender and payload.
  pub verify_envelope_sound :
      (env : Json) (raw_pub : Bytes)
      → verify_envelope r env raw_pub ≡ ok true
      → ((t : Json) × (get env (codes "type") (text "") ≡ ok t) × (in_signed_types t ≡ ok false))
        ⊎ IsSigned r env raw_pub
  unfolding verify_envelope
  verify_envelope_sound env raw_pub h =
      let (t, has_type, h₁) = bind_result-eq-ok (get env (codes "type") (text "")) _ h in
      let (needs, kind, h₂) = bind_result-eq-ok (in_signed_types t) _ h₁ in
      verified_of_kind env raw_pub t has_type needs kind h₂
