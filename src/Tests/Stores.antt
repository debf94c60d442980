-- ===== src/Tests/Stores.antt =====
-- The theorems on the stores and the server at concrete inputs.
use cisc468_python.Base.{
  Str, codes, true, false, [], ◌∷◌, none, some, ok, ◌≡◌, ◌⊎◌, inl, refl, starts_with,
}
use cisc468_python.Base.Dict.{Dict, lookup}
use cisc468_python.Json.{Json, nat, str, fields}
use cisc468_python.Crypto.Base64.{b64e}
use cisc468_python.Node.{Contact, SharedFile, Node}
use cisc468_python.Storage.Contacts
use cisc468_python.Storage.Contacts.Finding.{find_sound}
use cisc468_python.Storage.Contacts.Invariant.{StoreOk, add-StoreOk}
use cisc468_python.Storage.Shares
use cisc468_python.Storage.Shares.{get-remove, get-add}
use cisc468_python.Protocol.{build_envelope_with}
use cisc468_python.Server.Contacts.{Server}
use cisc468_python.Crypto.Session.{SessionKeys}
use cisc468_python.Server.Session.{serve_request}
use cisc468_python.Server.Session.Denial.{Withheld, serve_request_denied}
use cisc468_python.Server.Dispatch.{handle_connection}
use cisc468_python.Server.Safety.{handle_connection-StoreOk, handle_connection-TrustsOnly}
use cisc468_python.Tests.Toy.{toy, toy-IsLawful, alice, bob, node_with}
use cisc468_python.Tests.Running.{running}

abbrev pub contact_of : Str → Contact
contact_of fp = record {
  fingerprint = fp;
  raw_pub = b64e (1 ∷ 2 ∷ []);
  host = codes "h";
  port = nat 1;
  alias = codes "alice";
  verified = true;
  revoked = false;
  successor_fp = none;
}

abbrev two : Dict Contact
two = (codes "ab12", contact_of (codes "ab12")) ∷ (codes "ac34", contact_of (codes "ac34")) ∷ []

found_ab : Contacts.find (codes "AB") two ≡ some (codes "ab12", contact_of (codes "ab12"))
unfolding running
found_ab = refl

find_sound_example :
    (lookup (codes "ab12") two ≡ some (contact_of (codes "ab12")))
    × ((codes "ab12" ≡ Contacts.lower (codes "AB"))
        ⊎ (starts_with (codes "ab12") (Contacts.lower (codes "AB")) ≡ true))
find_sound_example =
    find_sound (codes "AB") (codes "ab12") (contact_of (codes "ab12")) two
      (unfold running in (refl, (refl, tt))) found_ab

abbrev pub notes : SharedFile
notes = record {
  file_id = codes "id-1";
  filename = codes "notes.txt";
  path = codes "/notes.txt";
  sha256_hex = codes "00";
  size = 3;
  original_owner = codes "3";
  manifest_sig = [];
  timestamp = codes "t";
}

abbrev sharing : Node
sharing = (Shares.add notes (node_with [])).1

-- Bob's server with alice as a verified contact, and a request of hers to be one again.
abbrev pub request : Json
request =
    build_envelope_with toy alice (codes "CONTACT_REQUEST")
      (fields ((codes "raw_pub", str (b64e alice.raw_pub)) ∷ (codes "port", nat 9) ∷ []))
      (codes "m1")

abbrev pub knowing : Node
knowing = (Contacts.add toy (contact_of (codes "3")) (node_with (ok request ∷ []))).1

pub knowing-StoreOk : StoreOk toy knowing
knowing-StoreOk =
    add-StoreOk toy toy-IsLawful (contact_of (codes "3")) (node_with (ok request ∷ []))
      (record { keyed = tt; nodup = tt; synced = inl (refl, refl) })

abbrev pub bob_server : Server
bob_server = record { identity = bob; actual_port = 7; consent_cb = λ contact name file. true }

abbrev served : Node
served = handle_connection toy bob_server (codes "evil") knowing

handle_connection-StoreOk_example : StoreOk toy served
handle_connection-StoreOk_example =
    handle_connection-StoreOk toy toy-IsLawful bob_server (codes "evil") knowing knowing-StoreOk

abbrev pub moved : Contact
moved = record (contact_of (codes "3")) { host = codes "evil"; port = nat 9 }

served_contact : lookup (codes "3") served.contacts ≡ some moved
unfolding running
served_contact = refl

handle_connection-TrustsOnly_example :
    (o : Contact) × (lookup (codes "3") knowing.contacts ≡ some o)
    × (o.verified ≡ true)
    × (o.raw_pub ≡ moved.raw_pub)
handle_connection-TrustsOnly_example =
    handle_connection-TrustsOnly toy toy-IsLawful bob_server (codes "evil") knowing (codes "3")
      moved knowing-StoreOk served_contact refl

-- Bob shares the notes, and says no to every request.
abbrev refusing : Server
refusing = record { identity = bob; actual_port = 7; consent_cb = λ contact name file. false }

abbrev wish : Json
wish =
    build_envelope_with toy alice (codes "FILE_REQUEST")
      (fields ((codes "file_id", str (codes "id-1")) ∷ [])) (codes "m2")

abbrev keys : SessionKeys
keys = record { tx_key = []; rx_key = []; tx_nonce_base = []; rx_nonce_base = [] }

serve_request_denied_example :
    Withheld sharing (serve_request toy refusing (contact_of (codes "3")) keys wish sharing).1
serve_request_denied_example =
    serve_request_denied toy refusing (contact_of (codes "3")) keys wish sharing
      (λ fp name file. refl)
