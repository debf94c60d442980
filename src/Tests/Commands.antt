-- ===== src/Tests/Commands.antt =====
-- The theorems on the commands at concrete inputs.
use cisc468_python.Base.{
  codes, str_eq, true, false, if◌then◌else◌, [], ◌∷◌, none, some, ok, ◌≡◌, refl, inl,
}
use cisc468_python.Base.Dict.{lookup}
use cisc468_python.Json.{nat}
use cisc468_python.Crypto.Base64.{b64e}
use cisc468_python.Node.{Contact, Node, holds}
use cisc468_python.Storage.Contacts
use cisc468_python.Storage.Contacts.Invariant.{StoreOk, add-StoreOk}
use cisc468_python.App.Keyfile
use cisc468_python.App.Keyfile.{load-save_identity}
use cisc468_python.App.Commands.{share, verify_contact, rotate_key}
use cisc468_python.App.Commands.Rotating.{rotate_key-load}
use cisc468_python.Client.Contacts.{notify_key_rotation}
use cisc468_python.Crypto.Identity.{Identity}
use cisc468_python.App.Commands.Sharing.{IsShared, share-IsShared}
use cisc468_python.App.Commands.Verifying.{verify_contact_exact}
use cisc468_python.Tests.Toy.{toy, toy-IsLawful, alice, alice-IsIdentity, node_with}
use cisc468_python.Tests.Running.{running}

abbrev saved : Node
saved = (Keyfile.save toy alice (codes "pw") (node_with [])).1

saves : Keyfile.save toy alice (codes "pw") (node_with []) ≡ (ok tt, saved)
unfolding running Keyfile.save
saves = refl

load-save_identity_example : Keyfile.load toy (codes "pw") saved ≡ ok alice
load-save_identity_example =
    load-save_identity toy toy-IsLawful alice (codes "pw") (node_with []) saved alice-IsIdentity
      saves

abbrev owning : Node
owning = record (node_with []) { disk = λ p. holds (104 ∷ 105 ∷ []) }

share-IsShared_example :
    IsShared toy alice
      (codes "/a/notes.txt")
      (104 ∷ 105 ∷ [])
      (share toy alice (codes "/a/notes.txt") (codes "t") owning).1
share-IsShared_example =
    share-IsShared toy toy-IsLawful alice (codes "/a/notes.txt") (codes "t") (104 ∷ 105 ∷ []) owning
      alice-IsIdentity refl

abbrev stranger : Contact
stranger = record {
  fingerprint = codes "ab12";
  raw_pub = b64e (1 ∷ 2 ∷ []);
  host = codes "h";
  port = nat 1;
  alias = [];
  verified = false;
  revoked = false;
  successor_fp = none;
}

abbrev knowing : Node
knowing = (Contacts.add toy stranger (node_with [])).1

knowing-StoreOk : StoreOk toy knowing
knowing-StoreOk =
    add-StoreOk toy toy-IsLawful stranger (node_with [])
      (record { keyed = tt; nodup = tt; synced = inl (refl, refl) })

verify_contact_exact_example :
    lookup (codes "ab12") (verify_contact toy (codes "AB") true knowing).1.contacts ≡ (
      if str_eq (codes "ab12") (codes "ab12")
      then some (record stranger { verified = true })
      else lookup (codes "ab12") knowing.contacts)
verify_contact_exact_example =
    verify_contact_exact toy (codes "AB") (codes "ab12") (codes "ab12") stranger knowing
      knowing-StoreOk (unfold running in refl) (unfold running in refl)

abbrev rotated : Node
rotated = (rotate_key toy alice true (codes "new") (codes "new") knowing).1

rotates : rotate_key toy alice true (codes "new") (codes "new") knowing ≡ (ok tt, rotated)
unfolding running Keyfile.generate Keyfile.save rotate_key notify_key_rotation
rotates = refl

rotate_key-load_example :
    (fresh : Identity) × ((Keyfile.generate toy knowing).0 ≡ ok fresh)
    × (Keyfile.load toy (codes "new") rotated ≡ ok fresh)
    × (rotated.contacts_file ≡ knowing.contacts_file)
    × (rotated.received ≡ knowing.received)
rotate_key-load_example =
    rotate_key-load toy toy-IsLawful alice (codes "new") knowing rotated rotates
