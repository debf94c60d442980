-- ===== src/Server/Session/Denial.antt =====
-- What a peer gets whose request the user denies.
use cisc468_python.Base.{
  ℕ, zero, suc, ltb, length, Bool-cases, os_error, Str, Bool, true, false, if◌then◌else◌, ◌∷◌, [],
  ◌++◌, Option, none, some, Exec, Result, ok, err, pure, lift, catch, continue, ◌>>=◌, ◌≡◌, ◌⊎◌,
  inl, inr, refl, codes,
}
use cisc468_python.Json.{Json, null, bool, int, real, str, arr, obj, Fields, get}
use cisc468_python.Json.Dumps.{dumps, compact_sorted}
use cisc468_python.Runtime.{Runtime}
use cisc468_python.Crypto.Session.{SessionKeys}
use cisc468_python.Crypto.Identity.{Identity}
use cisc468_python.Node.{Contact, SharedFile, Node, uuid4}
use cisc468_python.Storage.Shares
use cisc468_python.Protocol.{max_frame, build_envelope, build_envelope_with, send_frame}
use cisc468_python.Protocol.Envelope.{get-type}
use cisc468_python.Handshake.{send_error}
use cisc468_python.Server.Contacts.{Server}
use cisc468_python.Server.Session.{get_share, deny, answer_request, peer_name, serve_request}

-- The type of a refusal
data Refuses : Str → Type 0 where
  denies : Refuses (codes "FILE_DENY")
  reports : Refuses (codes "ERROR")

-- From `n` to `n'` nothing was sent, or one frame, of one of these two types.
abbrev pub Withheld : Node → Node → Type 0
Withheld n n' =
    (n'.outbox ≡ n.outbox)
    ⊎ ((env : Json) × (n'.outbox ≡ n.outbox ++ env ∷ [])
        × ((get env (codes "type") null ≡ ok (str (codes "FILE_DENY")))
            ⊎ (get env (codes "type") null ≡ ok (str (codes "ERROR")))))

-- Every run of `m` sends no more than that.
record Withholding {ℓ} {A : Type ℓ} (m : Exec Node A) : Type ℓ where
  at : (n : Node) → Withheld n (m n).1

room_cases :
    (room : ℕ) (env : Json) (n : Node)
    → let after = elim room as (λ room. Result (Unit {0}) × Node) [
      | zero ↦ (err os_error, n)
      | suc more ↦ (ok tt, record n { outbox = n.outbox ++ env ∷ []; sendable = more })
    ] in
      (after.1.outbox ≡ n.outbox) ⊎ (after.1.outbox ≡ n.outbox ++ env ∷ [])
room_cases zero env n = inl refl
room_cases (suc more) env n = inr refl

send_frame_cases :
    (env : Json) (n : Node)
    → ((send_frame env n).1.outbox ≡ n.outbox)
      ⊎ ((send_frame env n).1.outbox ≡ n.outbox ++ env ∷ [])
unfolding send_frame
send_frame_cases env n = elim (Bool-cases (ltb max_frame (length (dumps compact_sorted env)))) [
  | inl large ↦ inl (rw large refl)
  | inr fits ↦ rw fits (room_cases n.sendable env n)
]

module _ {ℓ κ} {A : Type ℓ} {B : Type κ} where
  continue-Withheld :
      (a : Result A) (k : A → Exec Node B) (n : Node)
      → ((a : A) → Withholding (k a))
      → Withheld n (continue a k n).1
  continue-Withheld (ok a) k n h = (h a).at n
  continue-Withheld (err e) k n h = inl refl

  Withholding-lift :
      (a : Result A) (k : A → Exec Node B)
      → ((a : A) → Withholding (k a))
      → Withholding (lift a >>= k)
  Withholding-lift a k h = record { at = λ n. continue-Withheld a k n h }

Withholding-if {ℓ} :
    {A : Type ℓ} (b : Bool) (m k : Exec Node A)
    → Withholding m
    → Withholding k
    → Withholding (if b then m else k)
Withholding-if true m k hm hk = hm
Withholding-if false m k hm hk = hk

share-Withholding {κ} :
    {B : Type κ} (file_id : Json) (k : Option SharedFile → Exec Node B)
    → ((f : Option SharedFile) → Withholding (k f))
    → Withholding (get_share file_id >>= k)
unfolding get_share
share-Withholding (str s) k h = record { at = λ n. (h (Shares.get s n.shares)).at n }
share-Withholding (arr xs) k h = record { at = λ n. inl refl }
share-Withholding (obj fs) k h = record { at = λ n. inl refl }
share-Withholding null k h = record { at = λ n. (h none).at n }
share-Withholding (bool b) k h = record { at = λ n. (h none).at n }
share-Withholding (int z) k h = record { at = λ n. (h none).at n }
share-Withholding (real t) k h = record { at = λ n. (h none).at n }

catch_same : (p : Result (Unit {0}) × Node) → (catch p.0 (λ e. pure tt) p.1).1 ≡ p.1
catch_same (ok u, n) = refl
catch_same (err e, n) = refl

module _ (r : Runtime) (identity : Identity) where
  refused_type :
      (t : Str) (payload : Fields) (msg_id : Str)
      → Refuses t
      → (get (build_envelope_with r identity t payload msg_id) (codes "type") null
          ≡ ok (str (codes "FILE_DENY")))
        ⊎ (get (build_envelope_with r identity t payload msg_id) (codes "type") null
            ≡ ok (str (codes "ERROR")))
  refused_type t payload msg_id denies = inl (get-type r identity _ payload msg_id null)
  refused_type t payload msg_id reports = inr (get-type r identity _ payload msg_id null)

  post-Withholding :
      (t : Str) (payload : Fields)
      → Refuses t
      → Withholding (build_envelope r identity t payload >>= send_frame)
  unfolding build_envelope uuid4
  post-Withholding t payload h = record {
    at = λ n.
        let env = build_envelope_with r identity t payload (r.uuid4 n.draws) in
        elim (send_frame_cases env (uuid4 r n).1) [
          | inl nothing ↦ inl nothing
          | inr sent ↦ inr (env, sent, refused_type t payload (r.uuid4 n.draws) h)
        ];
  }

  send_error-Withholding : (message : Str) → Withholding (send_error r identity message)
  unfolding send_error
  send_error-Withholding message = record {
    at = λ n.
        rw (catch_same ((build_envelope r identity (codes "ERROR") _ >>= send_frame) n))
          ((post-Withholding (codes "ERROR") _ reports).at n);
  }

module _ (r : Runtime) (server : Server) where
  answer-Withholding :
      (contact : Contact) (session : SessionKeys) (file_id : Json) (f : Option SharedFile)
      → ((fp name file : Str) → server.consent_cb fp name file ≡ false)
      → Withholding (answer_request r server contact session file_id f)
  unfolding answer_request deny
  answer-Withholding contact session file_id none refuses =
      post-Withholding r server.identity (codes "FILE_DENY") _ denies
  answer-Withholding contact session file_id (some f) refuses =
      rw (refuses contact.fingerprint (peer_name contact) f.filename)
        (post-Withholding r server.identity (codes "FILE_DENY") _ denies)

  serve-Withholding :
      (contact : Contact) (session : SessionKeys) (req_env : Json)
      → ((fp name file : Str) → server.consent_cb fp name file ≡ false)
      → Withholding (serve_request r server contact session req_env)
  unfolding serve_request
  serve-Withholding contact session req_env refuses =
      search
        (
          Withholding-lift, Withholding-if, share-Withholding, answer-Withholding,
          send_error-Withholding,
        )
        depth 14

  -- A peer gets nothing of a file if the user denies: whatever frame it sends after its handshake,
  -- the server sends no frame, or one, of the type FILE_DENY or ERROR, where the user's answer is
  -- always no.
  pub serve_request_denied :
      (contact : Contact) (session : SessionKeys) (req_env : Json) (n : Node)
      → ((fp name file : Str) → server.consent_cb fp name file ≡ false)
      → Withheld n (serve_request r server contact session req_env n).1
  serve_request_denied contact session req_env n refuses =
      (serve-Withholding contact session req_env refuses).at n
