-- ===== src/Protocol/Quiet.antt =====
-- Sending and receiving frames keeps the invariants that the connection is no part of.
use cisc468_python.Base.{Str, arith}
use cisc468_python.Base.Keeps.{Keeps, keeps_rules}
use cisc468_python.Json.{Json, Fields}
use cisc468_python.Runtime.{Runtime}
use cisc468_python.Crypto.Identity.{Identity}
use cisc468_python.Node.{Node}
use cisc468_python.Node.Quiet.{IsQuiet, uuid4-Keeps}
use cisc468_python.Protocol.{build_envelope, send_frame, recv_frame}

module _ {κ} {P : Node → Type κ} (quiet : IsQuiet P) where
  pub send_frame-Keeps : (env : Json) → Keeps P (send_frame env)
  unfolding send_frame
  send_frame-Keeps env = record { at = λ n h. quiet.moves n (send_frame env n).1 (ground arith) h }

  pub recv_frame-Keeps : Keeps P recv_frame
  unfolding recv_frame
  recv_frame-Keeps = record { at = λ n h. quiet.moves n (recv_frame n).1 (ground arith) h }

module _ {κ} (r : Runtime) {P : Node → Type κ} (quiet : IsQuiet P) where
  pub build_envelope-Keeps :
      (identity : Identity) (msg_type : Str) (payload : Fields)
      → Keeps P (build_envelope r identity msg_type payload)
  unfolding build_envelope
  build_envelope-Keeps identity msg_type payload = search (keeps_rules, uuid4-Keeps)
