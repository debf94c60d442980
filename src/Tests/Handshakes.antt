-- ===== src/Tests/Handshakes.antt =====
-- A handshake between two peers, run in full, and the theorems about it at that run.
use cisc468_python.Base.{[], ◌∷◌, ◌++◌, Result, ok, ◌≡◌, refl, some, replicate}
use cisc468_python.Json.{Json}
use cisc468_python.Crypto.Session.{SessionKeys, mirror}
use cisc468_python.Node.{Node}
use cisc468_python.Handshake.{initiate, perform_handshake_initiator, perform_handshake_responder}
use cisc468_python.Handshake.Agreement.{handshake_agreement}
use cisc468_python.Handshake.Authentication.{
  Authenticated, perform_handshake_initiator-Authenticated,
}
use cisc468_python.Tests.Running.{running}
use cisc468_python.Tests.Toy.{
  toy, toy-IsLawful, alice, bob, alice-IsIdentity, bob-IsIdentity, node_with, last_sent,
}

abbrev init : Json
init = last_sent (initiate toy alice (node_with [])).1.outbox

abbrev bob_run : Result SessionKeys × Node
bob_run =
    perform_handshake_responder toy bob alice.fingerprint alice.raw_pub (some init) (node_with [])

abbrev resp : Json
resp = last_sent bob_run.1.outbox

abbrev start : Node
start = node_with (ok resp ∷ [])

abbrev keys_of : Result SessionKeys → SessionKeys
keys_of (ok k) = k
keys_of _ = record { tx_key = []; rx_key = []; tx_nonce_base = []; rx_nonce_base = [] }

-- What the two runs return, computed.
started :
    initiate toy alice start ≡ (ok (replicate 32 0, replicate 32 1), (initiate toy alice start).1)
unfolding running
started = refl

sends_init : (initiate toy alice start).1.outbox ≡ [] ++ init ∷ []
unfolding running
sends_init = refl

answered : bob_run ≡ (ok (keys_of bob_run.0), bob_run.1)
unfolding running
answered = refl

sends_resp : bob_run.1.outbox ≡ [] ++ resp ∷ []
unfolding running
sends_resp = refl

arrives : (initiate toy alice start).1.inbox ≡ ok resp ∷ []
unfolding running
arrives = refl

handshake_agreement_example :
    perform_handshake_initiator toy alice bob.fingerprint bob.raw_pub start
    ≡ (ok (mirror (keys_of bob_run.0)), record (initiate toy alice start).1 { inbox = [] })
handshake_agreement_example =
    handshake_agreement toy toy-IsLawful alice bob alice-IsIdentity bob-IsIdentity start
      (initiate toy alice start).1 (node_with []) bob_run.1 (replicate 32 0) (replicate 32 1) init
      resp (keys_of bob_run.0) [] started sends_init answered sends_resp arrives

perform_handshake_initiator-Authenticated_example :
    Authenticated toy alice bob.fingerprint bob.raw_pub
      (replicate 32 0)
      (replicate 32 1)
      (mirror (keys_of bob_run.0))
perform_handshake_initiator-Authenticated_example =
    perform_handshake_initiator-Authenticated toy alice bob.fingerprint bob.raw_pub start
      (record (initiate toy alice start).1 { inbox = [] }) (mirror (keys_of bob_run.0))
      handshake_agreement_example
