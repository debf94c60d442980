-- ===== src/Tests/Starting.antt =====
-- The theorems on messages, the stores on disk, the start of a peer and its life at concrete inputs.
use cisc468_python.Base.{codes, take, true, false, [], ◌∷◌, none, some, ok, ◌≡◌, refl, arith}
use cisc468_python.Json.{Json, nat}
use cisc468_python.Json.Dumps.{show_nat}
use cisc468_python.Json.Loads.Printed.{ascii-IsScalar}
use cisc468_python.Node.{Contact, Node}
use cisc468_python.Crypto.Base64.{b64e}
use cisc468_python.Crypto.Packing.{utf8}
use cisc468_python.Crypto.Identity.{Identity, IsIdentity}
use cisc468_python.Storage.Contacts
use cisc468_python.Storage.Contacts.Invariant.{StoreOk}
use cisc468_python.Storage.Contacts.Loading
use cisc468_python.Storage.Contacts.Loading.Reloaded.{ArePlain, load-StoreOk}
use cisc468_python.Storage.Shares.Spec.{IsSynced}
use cisc468_python.Storage.Hashing.{sha256_file, sha256_file-sha256_hex}
use cisc468_python.Client.Transfer.Receipt.{Receipt}
use cisc468_python.Server.Contacts.{Server}
use cisc468_python.Server.Lifecycle.{
  Daemon, Connection, started, connected, serve, Reach, here, next, start, accept,
}
use cisc468_python.App.Opening.{load_stores, derive_file_key, load_or_create_identity, stopped}
use cisc468_python.App.Opening.First.{first_stores, load_stores-RunsAs}
use cisc468_python.App.Opening.Reopened.{RunsAs}
use cisc468_python.App.Opening.Serving.{load_stores-Reach}
use cisc468_python.App.Keyfile
use cisc468_python.Tests.Toy.{toy, toy-IsLawful, alice, node_with}
use cisc468_python.Tests.Stores.{knowing, knowing-StoreOk, bob_server, request}
use cisc468_python.Tests.Running.{running}

abbrev pub fresh : Node
fresh = node_with []

-- The peer after its first start under a password.
abbrev first : Node
first = (load_stores toy (codes "pw") fresh).1

abbrev new_identity : Identity
new_identity = record {
  seed = take 32 (toy.urandom 0 32);
  raw_pub = take 32 (toy.urandom 0 32);
  fingerprint = show_nat 0;
}

starts : load_stores toy (codes "pw") fresh ≡ (ok new_identity, first)
unfolding running load_stores derive_file_key load_or_create_identity Keyfile.generate Keyfile.save
    Loading.load
starts = refl

load_stores-RunsAs_example :
    (identity : Identity) × (n : Node) × (load_stores toy (codes "pw") fresh ≡ (ok identity, n))
    × IsIdentity toy identity
    × RunsAs toy (codes "pw") identity n
    × StoreOk toy n
    × IsSynced n
    × (n.contacts ≡ [])
    × (n.shares ≡ [])
load_stores-RunsAs_example =
    load_stores-RunsAs toy toy-IsLawful (codes "pw") fresh (112 ∷ 119 ∷ []) (unfold utf8 in refl)
      refl refl refl

runs : RunsAs toy (codes "pw") new_identity first
runs = (first_stores toy toy-IsLawful (codes "pw") fresh first new_identity refl refl refl starts).1

well_formed : StoreOk toy first
well_formed =
    (first_stores toy toy-IsLawful (codes "pw") fresh first new_identity refl refl refl starts).2

indexed : IsSynced first
indexed =
    (first_stores toy toy-IsLawful (codes "pw") fresh first new_identity refl refl refl starts).3

-- A peer starts its server, and alice asks to be a contact.
abbrev idle : Daemon
idle = record { node = first; running = false; listening = false; cert_files = false }

abbrev pub asking : Connection
asking = record { host = codes "h"; secure = true; frames = ok request ∷ []; room = 4 }

abbrev own_server : Server
own_server = record {
  identity = new_identity;
  actual_port = 7;
  consent_cb = λ contact name file. true;
}

abbrev busy : Daemon
busy = record (started idle) { node = serve toy own_server asking first }

served : Reach toy own_server idle busy
unfolding started
served = next (next here (start idle)) (accept (started idle) asking refl)

abbrev pub alice_contact : Contact
alice_contact = record {
  fingerprint = codes "3";
  raw_pub = b64e alice.raw_pub;
  host = codes "h";
  port = nat 9;
  alias = [];
  verified = false;
  revoked = false;
  successor_fp = none;
}

known_now : busy.node.contacts ≡ (codes "3", alice_contact) ∷ []
unfolding running serve connected load_stores derive_file_key load_or_create_identity
    Keyfile.generate Keyfile.save Loading.load
known_now = refl

pub alice-ArePlain : ArePlain ((codes "3", alice_contact) ∷ [])
unfolding b64e Contacts.opt_str
alice-ArePlain = (
  (
    ascii-IsScalar (codes "3") (omega arith),
    record {
      fingerprint = ascii-IsScalar (codes "3") (omega arith);
      raw_pub = ascii-IsScalar (b64e alice.raw_pub) (omega arith);
      host = ascii-IsScalar (codes "h") (omega arith);
      port = tt;
      alias = tt;
      successor = tt;
    },
  ),
  tt,
)

busy-ArePlain : ArePlain busy.node.contacts
busy-ArePlain = rw known_now alice-ArePlain

load_stores-Reach_example :
    load_stores toy (codes "pw") (stopped busy.node) ≡ (ok new_identity, busy.node)
load_stores-Reach_example =
    load_stores-Reach toy (codes "pw") new_identity toy-IsLawful own_server idle busy runs
      well_formed indexed served busy-ArePlain

-- Bob's server knows alice as a verified contact when she asks again, from another host.
abbrev bob_idle : Daemon
bob_idle = record { node = knowing; running = false; listening = false; cert_files = false }

abbrev evil : Connection
evil = record { host = codes "evil"; secure = true; frames = ok request ∷ []; room = 4 }

abbrev bob_busy : Daemon
bob_busy = record (started bob_idle) { node = serve toy bob_server evil knowing }

knowing-ArePlain : ArePlain knowing.contacts
unfolding running
knowing-ArePlain = (
  (
    ascii-IsScalar (codes "3") (omega arith),
    record {
      fingerprint = ascii-IsScalar (codes "3") (omega arith);
      raw_pub = ascii-IsScalar (b64e (1 ∷ 2 ∷ [])) (omega arith);
      host = ascii-IsScalar (codes "h") (omega arith);
      port = tt;
      alias = ascii-IsScalar (codes "alice") (omega arith);
      successor = tt;
    },
  ),
  tt,
)

load-StoreOk_example : Loading.load toy knowing.file_key knowing.contacts_file ≡ ok knowing.contacts
load-StoreOk_example = load-StoreOk toy knowing knowing-StoreOk knowing-ArePlain

sha256_file-sha256_hex_example :
    sha256_file toy (104 ∷ 105 ∷ []) ≡ some (toy.sha256_hex (104 ∷ 105 ∷ []))
sha256_file-sha256_hex_example = sha256_file-sha256_hex toy (104 ∷ 105 ∷ [])
