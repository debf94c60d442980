-- ===== src/Handshake/Authentication.antt =====
-- What the two ends of a handshake have checked when they return a session.
use cisc468_python.Base.{
  ◌+◌, Bytes, Str, codes, Bool, true, false, if◌then◌else◌, some, ok, ◌≡◌, ap, ◌∙◌, arith,
  handshake_error, value_error, raise, lift, try, Exec, lift-ok, or_raise-ok, bind-ok,
  raise_unless-ok,
}
use cisc468_python.Json.{Json, str, null, text, get, index, is_str, is_str_iff}
use cisc468_python.Runtime.{Runtime}
use cisc468_python.Crypto.Identity.{Identity}
use cisc468_python.Crypto.Session.{SessionKeys, derive}
use cisc468_python.Node.{Node, urandom, uuid4}
use cisc468_python.Protocol.{build_envelope, verify_envelope, send_frame, recv_frame}
use cisc468_python.Handshake.{
  build_transcript, payload_bytes, check_resp, raise_peer_error, initiate, finish,
  perform_handshake_initiator,
}

-- The envelope is of this type, names this sender, and its signature is that of the key.
pub record IsFrom (r : Runtime) (env : Json) (msg_type fp : Str) (raw_pub : Bytes) : Type 0 where
  pub typed : get env (codes "type") null ≡ ok (str msg_type)
  pub sender : get env (codes "from") null ≡ ok (str fp)
  pub verified : verify_envelope r env raw_pub ≡ ok true

module _ (r : Runtime) where
  peer_error_raises {ℓ} :
      {A : Type ℓ} (env : Json) (n n' : Node) (a : A) → raise_peer_error r env n ≡ (ok a, n') → ⊥
  unfolding raise_peer_error
  peer_error_raises env n n' a h =
      let (payload, found, h₁) = lift-ok (index env (codes "payload")) _ n h in
      let (message, shown, h₂) = lift-ok (get payload (codes "message") (text "")) _ n h₁ in cc

  -- A run that returned did not take the branch of the peer's error.
  no_peer_error {ℓ} :
      {A : Type ℓ} (b : Bool) (env : Json) (k : Exec Node A) (n n' : Node) (a : A)
      → (if b then raise_peer_error r env else k) n ≡ (ok a, n')
      → k n ≡ (ok a, n')
  no_peer_error true env k n n' a h = absurd (peer_error_raises env n n' a h)
  no_peer_error false env k n n' a h = h

  check_resp-IsFrom :
      (resp : Json) (fp : Str) (raw_pub : Bytes) (n n' : Node)
      → check_resp r resp fp raw_pub n ≡ (ok tt, n')
      → IsFrom r resp (codes "HANDSHAKE_RESP") fp raw_pub × (n' ≡ n)
  unfolding check_resp
  check_resp-IsFrom resp fp raw_pub n n' h =
      let (t, typed, h₁) = lift-ok (get resp (codes "type") null) _ n h in
      let h₂ = no_peer_error (is_str t (codes "ERROR")) resp _ n n' tt h₁ in
      let (resp_type, h₃) =
        raise_unless-ok (is_str t (codes "HANDSHAKE_RESP")) handshake_error _ n h₂ in
      let (f, sender, h₄) = lift-ok (get resp (codes "from") null) _ n h₃ in
      let (same, h₅) = raise_unless-ok (is_str f fp) handshake_error _ n h₄ in
      let (valid, verified, h₆) = lift-ok (verify_envelope r resp raw_pub) _ n h₅ in
      (
        record {
          typed = typed ∙ ap ok ((is_str_iff t (codes "HANDSHAKE_RESP")).0 resp_type);
          sender = sender ∙ ap ok ((is_str_iff f fp).0 same);
          verified = ground arith;
        },
        ground arith,
      )

-- What the initiator has checked when it returns `keys`: the reply was sent and signed by the
-- expected peer, and the peer has signed the transcript of this run, with the ephemeral key and the
-- nonce that were just drawn.
pub record Authenticated (r : Runtime) (me : Identity) (fp : Str) (raw_pub eph nonce : Bytes)
    (keys : SessionKeys) : Type 0 where
  pub resp : Json
  pub resp_eph_pub : Bytes
  pub resp_nonce : Bytes
  pub transcript : Bytes
  pub ts : Bytes
  pub shared : Bytes
  pub from_peer : IsFrom r resp (codes "HANDSHAKE_RESP") fp raw_pub
  pub eph_sent : payload_bytes resp (codes "ephemeral_pub") ≡ ok resp_eph_pub
  pub nonce_sent : payload_bytes resp (codes "nonce") ≡ ok resp_nonce
  pub transcribed :
      build_transcript me.fingerprint fp (r.x25519_public eph) resp_eph_pub nonce resp_nonce
      ≡ ok transcript
  pub signed : r.ed25519_accepts raw_pub ts transcript ≡ true
  pub exchanged : r.x25519_exchange eph resp_eph_pub ≡ some shared
  pub derived : derive r shared nonce resp_nonce me.fingerprint fp true ≡ ok keys

module _ (r : Runtime) (me : Identity) (fp : Str) (raw_pub : Bytes) where
  finish-Authenticated :
      (eph nonce : Bytes) (n n' : Node) (keys : SessionKeys)
      → finish r me fp raw_pub eph nonce n ≡ (ok keys, n')
      → Authenticated r me fp raw_pub eph nonce keys
  unfolding finish
  finish-Authenticated eph nonce n n' keys h =
      let (resp, n₁, got, h₁) = bind-ok recv_frame _ n h in
      let (done, n₂, checked, h₂) = bind-ok (check_resp r resp fp raw_pub) _ n₁ h₁ in
      let (resp_eph_pub, eph_sent, h₃) =
        lift-ok (payload_bytes resp (codes "ephemeral_pub")) _ n₂ h₂ in
      let (resp_nonce, nonce_sent, h₄) = lift-ok (payload_bytes resp (codes "nonce")) _ n₂ h₃ in
      let (transcript, transcribed, h₅) =
        lift-ok
          (build_transcript me.fingerprint fp (r.x25519_public eph) resp_eph_pub nonce resp_nonce) _
          n₂ h₄ in
      let (ts, n₃, decoded, h₆) =
        bind-ok
          (try (lift (payload_bytes resp (codes "transcript_sig"))) (λ e. raise handshake_error)) _
          n₂ h₅ in
      let (signed, h₇) =
        raise_unless-ok (r.ed25519_accepts raw_pub ts transcript) handshake_error _ n₃ h₆ in
      let (shared, exchanged, h₈) =
        or_raise-ok (r.x25519_exchange eph resp_eph_pub) value_error _ n₃ h₇ in
      record {
        resp = resp;
        resp_eph_pub = resp_eph_pub;
        resp_nonce = resp_nonce;
        transcript = transcript;
        ts = ts;
        shared = shared;
        from_peer = (check_resp-IsFrom r resp fp raw_pub n₁ n₂ checked).0;
        eph_sent = eph_sent;
        nonce_sent = nonce_sent;
        transcribed = transcribed;
        signed = signed;
        exchanged = exchanged;
        derived = ground arith;
      }

  initiate-draws :
      (eph nonce : Bytes) (n n' : Node)
      → initiate r me n ≡ (ok (eph, nonce), n')
      → (eph ≡ r.urandom n.draws 32) × (nonce ≡ r.urandom (n.draws + 1) 32)
  unfolding initiate urandom uuid4 build_envelope send_frame
  initiate-draws eph nonce n n' h = (ground arith, ground arith)

  -- If the initiator returns a session, whatever it received and whoever sent it, then the reply
  -- names the expected peer and carries its signature, and the peer's key signed the transcript
  -- with this run's own ephemeral key and nonce: the two draws that the run began with. The session
  -- is the one that is derived from the ephemeral key and the nonce in that transcript.
  pub perform_handshake_initiator-Authenticated :
      (n n' : Node) (keys : SessionKeys)
      → perform_handshake_initiator r me fp raw_pub n ≡ (ok keys, n')
      → Authenticated r me fp raw_pub (r.urandom n.draws 32) (r.urandom (n.draws + 1) 32) keys
  unfolding perform_handshake_initiator
  perform_handshake_initiator-Authenticated n n' keys h =
      let ((eph, nonce), n₁, started, h₁) = bind-ok (initiate r me) _ n h in
      let drawn = initiate-draws eph nonce n n₁ started in
      rw (← drawn.0, ← drawn.1) (finish-Authenticated eph nonce n₁ n' keys h₁)
