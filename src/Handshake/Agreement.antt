-- ===== src/Handshake/Agreement.antt =====
-- A handshake between two honest peers gives both the same session.
use cisc468_python.Base.{
  ◌+◌, Bytes, Str, codes, false, List, [], ◌∷◌, ◌++◌, some, Result, ok, ◌≡◌, sym, ap, ◌∙◌, arith,
  All, ◌<◌, ◌>>=◌, pure, append_cancel, lift-ok, or_raise-ok, value_error, Exec, ◌-◌,
}
use cisc468_python.Json.{Json, str, Fields}
use cisc468_python.Runtime.{Runtime, IsLawful}
use cisc468_python.Crypto.Base64.{b64e}
use cisc468_python.Crypto.Identity.{Identity, IsIdentity, sign}
use cisc468_python.Crypto.Session.{SessionKeys, derive, mirror, derive-mirror}
use cisc468_python.Node.{Node, urandom, uuid4}
use cisc468_python.Protocol.{build_envelope, build_envelope_with, send_frame, recv_frame}
use cisc468_python.Protocol.Envelope.{public_of_identity}
use cisc468_python.Handshake.{
  build_transcript, hello_fields, initiate, finish, respond, perform_handshake_responder,
  perform_handshake_initiator,
}
use cisc468_python.Handshake.Passing.{
  check_init_passes, check_resp_passes, payload_eph, payload_nonce, payload_ts,
}

module _ (r : Runtime) where
  abbrev pub init_env : Identity → Bytes → Bytes → Str → Json
  init_env identity eph nonce msg_id =
      build_envelope_with r identity (codes "HANDSHAKE_INIT")
        (hello_fields r (r.x25519_public eph) nonce Fields.end) msg_id

  abbrev resp_env : Identity → Bytes → Bytes → Bytes → Str → Json
  resp_env identity eph nonce transcript msg_id =
      build_envelope_with r identity (codes "HANDSHAKE_RESP")
        (hello_fields r (r.x25519_public eph) nonce (
          Fields.field (codes "transcript_sig") (str (b64e (sign r identity transcript)))
            Fields.end))
        msg_id

  -- The node after a frame was sent.
  abbrev pub sent : Json → Node → Node
  sent env n = record n { outbox = n.outbox ++ env ∷ []; sendable = n.sendable - 1 }

  -- A run that returns has sent its frame.
  pub send_frame-ok {ℓ} :
      {A : Type ℓ} (env : Json) (k : Exec Node A) (a : A) (n n' : Node)
      → (send_frame env >>= λ _. k) n ≡ (ok a, n')
      → k (sent env n) ≡ (ok a, n')
  unfolding send_frame
  send_frame-ok env k a n n' h = ground arith

  pub initiate-sent :
      (identity : Identity) (eph nonce : Bytes) (n n' : Node)
      → initiate r identity n ≡ (ok (eph, nonce), n')
      → (eph ≡ r.urandom n.draws 32)
        × (nonce ≡ r.urandom (n.draws + 1) 32)
        × (n'.outbox ≡ n.outbox ++ init_env identity eph nonce (r.uuid4 (n.draws + 1 + 1)) ∷ [])
  unfolding initiate urandom uuid4 build_envelope
  initiate-sent identity eph nonce n n' h =
      let e = r.urandom n.draws 32 in
      let v = r.urandom (n.draws + 1) 32 in
      let env = init_env identity e v (r.uuid4 (n.draws + 1 + 1)) in
      let n₃ = record n { draws = n.draws + 1 + 1 + 1 } in
      let run = send_frame-ok env (pure (e, v)) (eph, nonce) n₃ n' h in
      (ground arith, ground arith, ground arith)

  -- What a responder that returned a session has sent, and what it has computed.
  record Responded (identity : Identity) (initiator_fp : Str) (init_eph_pub init_nonce : Bytes)
      (n : Node) (keys : SessionKeys) (n' : Node) : Type 0 where
    transcript : Bytes
    shared : Bytes
    transcribed :
        build_transcript initiator_fp identity.fingerprint init_eph_pub
          (r.x25519_public (r.urandom n.draws 32))
          init_nonce
          (r.urandom (n.draws + 1) 32)
        ≡ ok transcript
    exchanged : r.x25519_exchange (r.urandom n.draws 32) init_eph_pub ≡ some shared
    derived :
        derive r shared init_nonce
          (r.urandom (n.draws + 1) 32)
          initiator_fp
          identity.fingerprint
          false
        ≡ ok keys
    replied :
        n'.outbox
        ≡ n.outbox
          ++ resp_env identity
              (r.urandom n.draws 32)
              (r.urandom (n.draws + 1) 32)
              transcript
              (r.uuid4 (n.draws + 1 + 1))
            ∷ []

  respond-Responded :
      (identity : Identity) (initiator_fp : Str) (init_eph_pub init_nonce : Bytes) (n : Node)
      (keys : SessionKeys) (n' : Node)
      → respond r identity initiator_fp init_eph_pub init_nonce n ≡ (ok keys, n')
      → Responded identity initiator_fp init_eph_pub init_nonce n keys n'
  unfolding respond urandom uuid4 build_envelope
  respond-Responded identity initiator_fp init_eph_pub init_nonce n keys n' h =
      let e = r.urandom n.draws 32 in
      let v = r.urandom (n.draws + 1) 32 in
      let n₂ = record n { draws = n.draws + 1 + 1 } in
      let n₃ = record n { draws = n.draws + 1 + 1 + 1 } in
      let (transcript, transcribed, h₁) =
        lift-ok
          (build_transcript initiator_fp identity.fingerprint init_eph_pub (r.x25519_public e)
            init_nonce v)
          _ n₂ h in
      let env = resp_env identity e v transcript (r.uuid4 (n.draws + 1 + 1)) in
      let h₂ = send_frame-ok env _ keys n₃ n' h₁ in
      let (shared, exchanged, h₃) =
        or_raise-ok (r.x25519_exchange e init_eph_pub) value_error _ (sent env n₃) h₂ in
      record {
        transcript = transcript;
        shared = shared;
        transcribed = transcribed;
        exchanged = exchanged;
        derived = ground arith;
        replied = ground arith;
      }

module _ (r : Runtime) (lawful : IsLawful r) (identity peer : Identity)
    (h : IsIdentity r peer) where
  -- The initiator's reading of the reply of an honest responder.
  finish_lem :
      (eph nonce eph' nonce' transcript shared : Bytes) (msg_id : Str) (keys : SessionKeys)
      (n : Node) (rest : List (Result Json))
      → All (λ b. b < 256) nonce'
      → n.inbox ≡ ok (resp_env r peer eph' nonce' transcript msg_id) ∷ rest
      → build_transcript identity.fingerprint peer.fingerprint
          (r.x25519_public eph)
          (r.x25519_public eph')
          nonce
          nonce'
        ≡ ok transcript
      → r.x25519_exchange eph' (r.x25519_public eph) ≡ some shared
      → derive r shared nonce nonce' identity.fingerprint peer.fingerprint false ≡ ok keys
      → finish r identity peer.fingerprint peer.raw_pub eph nonce n
        ≡ (ok (mirror keys), record n { inbox = rest })
  unfolding finish recv_frame sign
  finish_lem eph nonce eph' nonce' transcript shared msg_id keys n rest bytes inbox transcribed
        exchanged derived =
      rw inbox (
        simp (
          check_resp_passes r lawful peer h,
          payload_eph r peer (codes "HANDSHAKE_RESP") msg_id (r.x25519_public eph') nonce' _
              (lawful.public-bytes eph'),
          payload_nonce r peer (codes "HANDSHAKE_RESP") msg_id (r.x25519_public eph') nonce' _
              bytes,
          payload_ts r peer (codes "HANDSHAKE_RESP") msg_id (r.x25519_public eph') nonce' Fields.end
              (r.ed25519_sign peer.seed transcript) (lawful.sign-bytes peer.seed transcript),
          transcribed,
          lawful.accepts-sign peer.seed peer.raw_pub transcript
              (public_of_identity r lawful peer h),
          lawful.exchange_comm eph eph',
          exchanged,
          derive-mirror r shared nonce nonce' identity.fingerprint peer.fingerprint,
          derived,
        ))

-- The frame that was appended is the one that was sent.
pub last_frame :
    (sent_before : List Json) (a b : Json) → sent_before ++ a ∷ [] ≡ sent_before ++ b ∷ [] → a ≡ b
last_frame sent_before a b h = cc (append_cancel sent_before (a ∷ []) (b ∷ []) h)

module _ (r : Runtime) (lawful : IsLawful r) (initiator responder : Identity)
    (hi : IsIdentity r initiator) (hr : IsIdentity r responder) where
  -- A responder that was handed the INIT of an honest initiator answers it.
  responder_lem :
      (eph nonce : Bytes) (msg_id : Str) (n : Node)
      → All (λ b. b < 256) nonce
      → perform_handshake_responder r responder initiator.fingerprint initiator.raw_pub
          (some (init_env r initiator eph nonce msg_id))
          n
        ≡ respond r responder initiator.fingerprint (r.x25519_public eph) nonce n
  unfolding perform_handshake_responder
  responder_lem eph nonce msg_id n bytes = simp (
    check_init_passes r lawful initiator hi responder,
    payload_eph r initiator (codes "HANDSHAKE_INIT") msg_id (r.x25519_public eph) nonce Fields.end
        (lawful.public-bytes eph),
    payload_nonce r initiator (codes "HANDSHAKE_INIT") msg_id (r.x25519_public eph) nonce Fields.end
        bytes,
  )

  -- Two honest peers agree. Suppose the initiator sends `init`, the responder is handed exactly
  -- that frame, returns the session `keys` and sends `resp`, and exactly that frame is what the
  -- initiator receives next. Then the initiator returns too, its session is the mirror image of
  -- `keys`, and the frames behind `resp` are still to be read.
  pub handshake_agreement :
      (n n' m m' : Node) (eph nonce : Bytes) (init resp : Json) (keys : SessionKeys)
      (rest : List (Result Json))
      → initiate r initiator n ≡ (ok (eph, nonce), n')
      → n'.outbox ≡ n.outbox ++ init ∷ []
      → perform_handshake_responder r responder initiator.fingerprint initiator.raw_pub
          (some init)
          m
        ≡ (ok keys, m')
      → m'.outbox ≡ m.outbox ++ resp ∷ []
      → n'.inbox ≡ ok resp ∷ rest
      → perform_handshake_initiator r initiator responder.fingerprint responder.raw_pub n
        ≡ (ok (mirror keys), record n' { inbox = rest })
  unfolding perform_handshake_initiator
  handshake_agreement n n' m m' eph nonce init resp keys rest started sent_init answered sent_resp
        arrives =
      let (eph_is, nonce_is, first) = initiate-sent r initiator eph nonce n n' started in
      let bytes : All (λ b. b < 256) nonce = rw nonce_is (lawful.urandom-bytes (n.draws + 1) 32) in
      let msg_id = r.uuid4 (n.draws + 1 + 1) in
      let init_is =
        last_frame n.outbox init (init_env r initiator eph nonce msg_id) (sym sent_init ∙ first) in
      let ran = sym (responder_lem eph nonce msg_id m bytes) ∙ rw init_is at answered in
      let done =
        respond-Responded r responder initiator.fingerprint (r.x25519_public eph) nonce m keys m'
          ran in
      let eph' = r.urandom m.draws 32 in
      let nonce' = r.urandom (m.draws + 1) 32 in
      let reply = resp_env r responder eph' nonce' done.transcript (r.uuid4 (m.draws + 1 + 1)) in
      let resp_is = last_frame m.outbox resp reply (sym sent_resp ∙ done.replied) in
      rw started (
        finish_lem r lawful initiator responder hr eph nonce eph' nonce' done.transcript done.shared
          (r.uuid4 (m.draws + 1 + 1)) keys n' rest (lawful.urandom-bytes (m.draws + 1) 32)
          (arrives ∙ ap (λ x. ok x ∷ rest) resp_is) done.transcribed done.exchanged done.derived)
