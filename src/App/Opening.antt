-- ===== src/App/Opening.antt =====
-- `App` of p2pshare.py: unlocking or creating the identity, the key of the stores, and the stores.
-- Each command is given the password and starts with no identity in memory.
pub mod Creating
pub mod First
pub mod Reopened
pub mod Returning
pub mod Salt
pub mod Serving
use cisc468_python.Base.{
  Bytes, Str, List, [], Option, none, some, Exec, Exn, pure, raise, lift, gets, modify, try, ◌>>=◌,
  ◌>>◌, ok, err, Result, system_exit,
}
use cisc468_python.Base.Dict.{Dict}
use cisc468_python.Crypto.Primitives.{argon2id_derive}
use cisc468_python.Runtime.{Runtime}
use cisc468_python.Crypto.Identity.{Identity}
use cisc468_python.Crypto.Packing.{utf8}
use cisc468_python.Node.{SharedFile, KeyFile, Node, urandom}
use cisc468_python.Storage.Contacts.Loading
use cisc468_python.App.Keyfile

unfoldable pub index_on_disk : Option (Dict SharedFile) → Dict SharedFile
index_on_disk none = []
index_on_disk (some shares) = shares

module _ (r : Runtime) where
  -- The salt that is on disk, or a new one, which is written.
  salt_of : Option Bytes → Exec Node Bytes
  salt_of (some salt) = pure salt
  salt_of none = do salt ← urandom r 32; modify λ n. record n { salt_file = some salt }; pure salt

  read_salt : Exec Node Bytes
  unfolding salt_of
  read_salt n = salt_of n.salt_file n

  -- `_derive_file_key`
  unfoldable pub derive_file_key : Str → Exec Node Bytes
  unfolding read_salt
  derive_file_key password = do
    salt ← read_salt
    secret ← lift (utf8 password)
    pure (argon2id_derive r secret salt)

  -- `try: Identity.load(…) except Exception: … sys.exit(1)`
  unlocked : Result Identity → Exec Node Identity
  unlocked (ok identity) = pure identity
  unlocked (err e) = raise system_exit

  create : Str → Exec Node Identity
  create password = do
    identity ← Keyfile.generate r
    Keyfile.save r identity password
    pure identity

  identity_for : Str → Option KeyFile → Exec Node Identity
  unfolding unlocked create
  identity_for password (some f) n = unlocked (Keyfile.load r password n) n
  identity_for password none n = create password n

  read_identity : Str → Exec Node Identity
  unfolding identity_for
  read_identity password n = identity_for password n.identity_file n

  -- `load_or_create_identity`
  unfoldable pub load_or_create_identity : Str → Exec Node Identity
  unfolding read_identity
  load_or_create_identity password = do
    identity ← read_identity password
    key ← derive_file_key password
    modify λ n. record n { file_key = key }
    pure identity

  load_contacts : Exec Node (Unit {0})
  load_contacts = do
    loaded ← gets (λ n. Loading.load r n.file_key n.contacts_file)
    contacts ← lift loaded
    modify λ n. record n { contacts = contacts }

  -- `load_stores`. What a `ReceivedFileStore` finds is on disk.
  unfoldable pub load_stores : Str → Exec Node Identity
  unfolding index_on_disk load_contacts
  load_stores password = do
    identity ← load_or_create_identity password
    load_contacts
    modify λ n. record n { shares = index_on_disk n.shares_file }
    pure identity

-- What is left of a peer when its process has ended: the files.
unfoldable pub stopped : Node → Node
stopped n = record n { contacts = []; file_key = []; shares = [] }
