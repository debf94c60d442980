-- ===== src/Tests/Meetings.antt =====
-- A client and a server that meet, run in full: alice requests a file of bob's.
use cisc468_python.Base.{
  Bytes, codes, true, false, List, [], ◌∷◌, ◌++◌, map, drop, none, some, Result, ok, ◌≡◌, refl,
  replicate, arith,
}
use cisc468_python.Json.{Json, nat, str, Fields}
use cisc468_python.Json.Dumps.{show_nat}
use cisc468_python.Crypto.Base64.{b64e}
use cisc468_python.Crypto.Identity.{sign}
use cisc468_python.Crypto.Session.{SessionKeys}
use cisc468_python.Node.{Contact, SharedFile, holds, Node}
use cisc468_python.Storage.Received
use cisc468_python.Protocol.{canonical_manifest}
use cisc468_python.Handshake.{initiate, perform_handshake_responder}
use cisc468_python.Server.Contacts.{Server}
use cisc468_python.Server.Session.Approval.{request_of}
use cisc468_python.Server.Dispatch.{dispatch}
use cisc468_python.Client.Contacts.{Client}
use cisc468_python.Client.Requests.{request_file}
use cisc468_python.Client.Requests.Meeting.{request_file-dispatch}
use cisc468_python.Tests.Running.{running}
use cisc468_python.Tests.Toy.{
  toy, toy-IsLawful, alice, bob, alice-IsIdentity, bob-IsIdentity, node_with, last_sent,
}

abbrev content : Bytes
content = 104 ∷ 105 ∷ 33 ∷ []

abbrev msig : Bytes
msig = sign toy bob (
    canonical_manifest (str (codes "id-1")) (str (codes "notes.txt")) (str (codes "11"))
      (str (show_nat 242)) (nat 3) (str (codes "t")))

abbrev notes : SharedFile
notes = record {
  file_id = codes "id-1";
  filename = codes "notes.txt";
  path = codes "/notes.txt";
  sha256_hex = show_nat 242;
  size = 3;
  original_owner = codes "11";
  manifest_sig = b64e msig;
  timestamp = codes "t";
}

abbrev alice_there : Contact
alice_there = record {
  fingerprint = codes "3";
  raw_pub = b64e (1 ∷ 2 ∷ []);
  host = codes "a";
  port = nat 1;
  alias = [];
  verified = false;
  revoked = false;
  successor_fp = none;
}

abbrev bob_there : Contact
bob_there = record alice_there {
  fingerprint = codes "11";
  raw_pub = b64e (5 ∷ 6 ∷ []);
  host = codes "b";
}

abbrev me : Client
me = record { identity = alice; listen_port = 5 }

abbrev sharing : Server
sharing = record { identity = bob; actual_port = 1; consent_cb = λ fp name file. true }

abbrev init : Json
init = last_sent (initiate toy alice (node_with [])).1.outbox

abbrev request : Json
request = request_of toy alice (codes "id-1") (toy.uuid4 3)

-- Bob's side: he is called, answers, and sends.
abbrev called : Node
called = record (node_with (ok init ∷ ok request ∷ [])) {
  contacts = (codes "3", alice_there) ∷ [];
  shares = (codes "id-1", notes) ∷ [];
  disk = λ p. holds content;
}

abbrev answering : Result SessionKeys × Node
answering =
    perform_handshake_responder toy bob (codes "3") alice.raw_pub (some init)
      (record called { inbox = ok request ∷ [] })

abbrev keys_of : Result SessionKeys → SessionKeys
keys_of (ok k) = k
keys_of _ = record { tx_key = []; rx_key = []; tx_nonce_base = []; rx_nonce_base = [] }

abbrev served : Node
served = (dispatch toy sharing (codes "a") called).1

abbrev resp : Json
resp = last_sent answering.1.outbox

abbrev replies : List Json
replies = drop 1 served.outbox

-- Alice's side.
abbrev calling : Node
calling = record (node_with []) {
  contacts = (codes "11", bob_there) ∷ [];
  dials = some (map ok (resp ∷ replies) ++ [], 10) ∷ [];
}

abbrev connected : Node
connected = record calling { dials = []; inbox = map ok (resp ∷ replies) ++ []; sendable = 10 }

abbrev asking : Node
asking = (initiate toy alice connected).1

starts : initiate toy alice connected ≡ (ok (replicate 32 0, replicate 32 1), asking)
unfolding running
starts = refl

answers :
    perform_handshake_responder toy bob
      (codes "3")
      alice.raw_pub
      (some init)
      (record called { inbox = ok request ∷ [] })
    ≡ (ok (keys_of answering.0), answering.1)
unfolding running
answers = refl

serves : dispatch toy sharing (codes "a") called ≡ (ok tt, served)
unfolding running
serves = refl

sends_all : served.outbox ≡ [] ++ resp ∷ replies
unfolding running
sends_all = refl

request_file-dispatch_example :
    (n' : Node) × (meta : Fields) × (request_file toy me (codes "b") 1 (codes "id-1") calling
      ≡ (ok true, n'))
    × (n'.inbox ≡ [])
    × (Received.load toy (codes "id-1") n' ≡ ok (content, meta))
request_file-dispatch_example =
    request_file-dispatch toy toy-IsLawful me sharing alice-IsIdentity bob-IsIdentity bob_there
      alice_there bob_there (codes "b") (codes "a") (codes "id-1") 1 notes content (5 ∷ 6 ∷ []) msig
      (replicate 32 0) (replicate 32 1) calling asking called answering.1 served init resp replies
      (keys_of answering.0) 10 8 [] [] [] (unfold running in refl) refl (unfold running in refl)
      (unfold running in refl) (unfold running in refl) refl (unfold running in refl)
      (unfold running in refl) refl starts (unfold running in refl) (unfold running in refl)
      (unfold running in refl) (unfold running in omega arith) (unfold running in refl)
      (unfold running in answers) (unfold running in refl) (unfold running in refl)
      (unfold running in refl) refl (unfold running in refl) (omega arith) (unfold running in refl)
      serves sends_all (unfold running in refl) (unfold running in refl) (unfold running in refl)
      (unfold running in refl)
