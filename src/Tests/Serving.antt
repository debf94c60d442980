-- ===== src/Tests/Serving.antt =====
-- A run of `serve` from the first start on, and the start after it.
use cisc468_python.Base.{Bool, Str, codes, true, [], ◌∷◌, none, ok, ◌≡◌, refl}
use cisc468_python.Node.{Node}
use cisc468_python.Crypto.Packing.{utf8}
use cisc468_python.Crypto.Identity.{Identity, IsIdentity}
use cisc468_python.Storage.Contacts.Loading
use cisc468_python.Server.Lifecycle.{connected, serve}
use cisc468_python.App.Opening.{load_stores, derive_file_key, load_or_create_identity, stopped}
use cisc468_python.App.Keyfile
use cisc468_python.App.Serving.{Serving, cmd_serve}
use cisc468_python.App.Serving.Restart.{load_stores-cmd_serve}
use cisc468_python.Tests.Toy.{toy, toy-IsLawful}
use cisc468_python.Tests.Running.{running}
use cisc468_python.Tests.Starting.{fresh, asking, alice_contact, alice-ArePlain}

-- Bob's first run of `serve`, in which alice asks to be a contact.
agrees : Str → Str → Str → Bool
agrees fp name file = true

abbrev ended : Node
ended = (cmd_serve toy none true (codes "pw") 7 agrees (asking ∷ []) fresh).1

met : ended.contacts ≡ (codes "3", alice_contact) ∷ []
unfolding running serve connected cmd_serve load_stores derive_file_key load_or_create_identity
    Keyfile.generate Keyfile.save Loading.load
met = refl

load_stores-cmd_serve_example :
    (identity : Identity) × (serving : Serving) × ((cmd_serve toy none true
        (codes "pw")
        7
        agrees
        (asking ∷ [])
        fresh).0
      ≡ ok serving)
    × IsIdentity toy identity
    × (load_stores toy (codes "pw") (stopped ended) ≡ (ok identity, ended))
load_stores-cmd_serve_example =
    load_stores-cmd_serve toy toy-IsLawful none true (codes "pw") (112 ∷ 119 ∷ []) 7 agrees
      (asking ∷ []) fresh (unfold utf8 in refl) refl refl refl (rw met alice-ArePlain)
