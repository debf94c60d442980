-- ===== src/Tests/Transfers.antt =====
-- A transfer between two peers, run in full, and the theorems on the client at concrete inputs.
use cisc468_python.Base.{
  Bytes, codes, true, false, List, [], ◌∷◌, ◌++◌, map, drop, none, some, ok, err, connection_error,
  ◌≡◌, ◌≢◌, refl, arith,
}
use cisc468_python.Json.{Json, null, nat, str, Fields, fields}
use cisc468_python.Json.Dumps.{show_nat}
use cisc468_python.Crypto.Base64.{b64e}
use cisc468_python.Crypto.Identity.{sign}
use cisc468_python.Crypto.Session.{SessionKeys, mirror}
use cisc468_python.Node.{Contact, SharedFile, Node}
use cisc468_python.Node.Quiet.{SameStores}
use cisc468_python.Storage.Received
use cisc468_python.Protocol.{build_envelope_with, canonical_manifest}
use cisc468_python.Server.Transfer.{send_content, total_chunks_of}
use cisc468_python.Server.Transfer.Slices.{chunks_from, chunks_from-total_chunks_of}
use cisc468_python.Client.Transfer.{recv_transfer}
use cisc468_python.Client.Transfer.Receipt.{Receipt}
use cisc468_python.Client.Transfer.Refusal.{recv_transfer_refuses}
use cisc468_python.Client.Transfer.Delivery.{recv_transfer-send_content}
use cisc468_python.Client.Contacts.{Client}
use cisc468_python.Client.Requests.Settled.{Outcome}
use cisc468_python.Tests.Toy.{toy, toy-IsLawful, alice, bob, node_with}
use cisc468_python.Tests.Running.{running}

chunks_from-total_chunks_of_example :
    chunks_from (total_chunks_of (1 ∷ 2 ∷ 3 ∷ [])) 0 (1 ∷ 2 ∷ 3 ∷ []) ≡ 1 ∷ 2 ∷ 3 ∷ []
chunks_from-total_chunks_of_example = chunks_from-total_chunks_of (1 ∷ 2 ∷ 3 ∷ [])

abbrev content : Bytes
content = 104 ∷ 105 ∷ 33 ∷ []

-- A file of alice, who is a contact, that bob shares.
abbrev unsigned : SharedFile
unsigned = record {
  file_id = codes "id-1";
  filename = codes "notes.txt";
  path = codes "/notes.txt";
  sha256_hex = show_nat 242;
  size = 3;
  original_owner = codes "3";
  manifest_sig = [];
  timestamp = codes "t";
}

abbrev msig : Bytes
msig = sign toy alice (
    canonical_manifest (str (codes "id-1")) (str (codes "notes.txt")) (str (codes "3"))
      (str (show_nat 242)) (nat 3) (str (codes "t")))

abbrev shared : SharedFile
shared = record unsigned { manifest_sig = b64e msig }

abbrev owner : Contact
owner = record {
  fingerprint = codes "3";
  raw_pub = b64e (1 ∷ 2 ∷ []);
  host = codes "h";
  port = nat 1;
  alias = [];
  verified = true;
  revoked = false;
  successor_fp = none;
}

abbrev keys : SessionKeys
keys = record { tx_key = 1 ∷ []; rx_key = 2 ∷ []; tx_nonce_base = 3 ∷ []; rx_nonce_base = 4 ∷ [] }

abbrev sending : Node
sending = (send_content toy bob keys shared content (node_with [])).1

abbrev head : List Json → Json
head [] = null
head (v ∷ vs) = v

abbrev start : Json
start = head sending.outbox

abbrev frames : List Json
frames = drop 1 sending.outbox

abbrev receiving : Node
receiving = record (node_with (map ok frames ++ [])) { contacts = (codes "3", owner) ∷ [] }

sends : send_content toy bob keys shared content (node_with []) ≡ (ok tt, sending)
unfolding running
sends = refl

recv_transfer-send_content_example :
    (n' : Node) × (meta : Fields) × (recv_transfer toy (mirror keys) start receiving
      ≡ (ok true, n'))
    × (n'.inbox ≡ [])
    × (Received.load toy (codes "id-1") n' ≡ ok (content, meta))
recv_transfer-send_content_example =
    recv_transfer-send_content toy toy-IsLawful bob keys shared content (node_with []) sending
      receiving start frames [] owner (1 ∷ 2 ∷ []) msig (omega arith) sends (unfold running in refl)
      refl (unfold running in refl) (unfold running in refl) (unfold running in refl)
      (unfold running in refl) (unfold running in refl)

abbrev received : Node
received = (recv_transfer toy (mirror keys) start receiving).1

-- The connection is closed before the first chunk.
abbrev cut_off : Node
cut_off = record receiving { inbox = [] }

fails : (recv_transfer toy (mirror keys) start cut_off).0 ≡ err connection_error
unfolding running
fails = refl

not_true : (recv_transfer toy (mirror keys) start cut_off).0 ≢ ok true
not_true h = absurd (ground (arith, fails))

recv_transfer_refuses_example : SameStores cut_off (recv_transfer toy (mirror keys) start cut_off).1
recv_transfer_refuses_example = recv_transfer_refuses toy (mirror keys) start cut_off not_true

abbrev me : Client
me = record { identity = bob; listen_port = 5 }

abbrev acceptance : Json
acceptance =
    build_envelope_with toy alice (codes "CONTACT_ACCEPT")
      (fields ((codes "raw_pub", str (b64e alice.raw_pub)) ∷ (codes "port", nat 9) ∷ []))
      (codes "m1")

abbrev dialing : Node
dialing = record (node_with []) { dials = some (ok acceptance ∷ [], 3) ∷ [] }

abbrev added : Contact
added = record {
  fingerprint = codes "3";
  raw_pub = b64e alice.raw_pub;
  host = codes "h";
  port = nat 9;
  alias = [];
  verified = false;
  revoked = false;
  successor_fp = none;
}
