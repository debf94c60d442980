-- ===== src/Handshake/Quiet.antt =====
-- A handshake keeps the invariants that the connection is no part of.
use cisc468_python.Base.{Bytes, Str, Bool, Option, none, some}
use cisc468_python.Base.Keeps.{Keeps, keeps_rules}
use cisc468_python.Json.{Json}
use cisc468_python.Runtime.{Runtime}
use cisc468_python.Crypto.Identity.{Identity}
use cisc468_python.Node.{Node}
use cisc468_python.Node.Quiet.{IsQuiet, urandom-Keeps}
use cisc468_python.Protocol.Quiet.{build_envelope-Keeps, send_frame-Keeps, recv_frame-Keeps}
use cisc468_python.Handshake.{
  send_error, raise_peer_error, check_init, refuse_unless, respond, first_frame,
  perform_handshake_responder, check_resp, initiate, finish, perform_handshake_initiator,
}

module _ {κ} (r : Runtime) {P : Node → Type κ} (quiet : IsQuiet P) where
  pub send_error-Keeps :
      (identity : Identity) (message : Str) → Keeps P (send_error r identity message)
  unfolding send_error
  send_error-Keeps identity message = search (keeps_rules, build_envelope-Keeps, send_frame-Keeps)

  raise_peer_error-Keeps {ℓ} : {A : Type ℓ} (env : Json) → Keeps P (raise_peer_error r {A = A} env)
  unfolding raise_peer_error
  raise_peer_error-Keeps env = search keeps_rules

  refuse_unless-Keeps :
      (b : Bool) (identity : Identity) (message : Str)
      → Keeps P (refuse_unless r b identity message)
  unfolding refuse_unless
  refuse_unless-Keeps b identity message = search (keeps_rules, send_error-Keeps)

  check_init-Keeps :
      (identity : Identity) (init : Json) (fp : Str) (raw_pub : Bytes)
      → Keeps P (check_init r identity init fp raw_pub)
  unfolding check_init
  check_init-Keeps identity init fp raw_pub =
      search (keeps_rules, raise_peer_error-Keeps, refuse_unless-Keeps) depth 12

  respond-Keeps :
      (identity : Identity) (fp : Str) (init_eph_pub init_nonce : Bytes)
      → Keeps P (respond r identity fp init_eph_pub init_nonce)
  unfolding respond
  respond-Keeps identity fp init_eph_pub init_nonce =
      search (keeps_rules, urandom-Keeps, build_envelope-Keeps, send_frame-Keeps) depth 12

  first_frame-Keeps : (env : Option Json) → Keeps P (first_frame r env)
  unfolding first_frame
  first_frame-Keeps none = search (keeps_rules, recv_frame-Keeps)
  first_frame-Keeps (some env) = search keeps_rules

  pub perform_handshake_responder-Keeps :
      (identity : Identity) (fp : Str) (raw_pub : Bytes) (env : Option Json)
      → Keeps P (perform_handshake_responder r identity fp raw_pub env)
  unfolding perform_handshake_responder
  perform_handshake_responder-Keeps identity fp raw_pub env =
      search (keeps_rules, first_frame-Keeps, check_init-Keeps, respond-Keeps) depth 12

  check_resp-Keeps :
      (resp : Json) (fp : Str) (raw_pub : Bytes) → Keeps P (check_resp r resp fp raw_pub)
  unfolding check_resp
  check_resp-Keeps resp fp raw_pub = search (keeps_rules, raise_peer_error-Keeps) depth 12

  initiate-Keeps : (identity : Identity) → Keeps P (initiate r identity)
  unfolding initiate
  initiate-Keeps identity =
      search (keeps_rules, urandom-Keeps, build_envelope-Keeps, send_frame-Keeps) depth 12

  finish-Keeps :
      (identity : Identity) (fp : Str) (raw_pub eph nonce : Bytes)
      → Keeps P (finish r identity fp raw_pub eph nonce)
  unfolding finish
  finish-Keeps identity fp raw_pub eph nonce =
      search (keeps_rules, recv_frame-Keeps, check_resp-Keeps) depth 20

  pub perform_handshake_initiator-Keeps :
      (identity : Identity) (fp : Str) (raw_pub : Bytes)
      → Keeps P (perform_handshake_initiator r identity fp raw_pub)
  unfolding perform_handshake_initiator
  perform_handshake_initiator-Keeps identity fp raw_pub =
      search (keeps_rules, initiate-Keeps, finish-Keeps) depth 12
