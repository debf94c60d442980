-- ===== src/Node.antt =====
-- The state of one peer while it serves a connection or runs a command: its stores (storage.py),
-- the draws of randomness, the open connection, as the frames to come and those sent, and the
-- connections that it will open.
pub mod Quiet
use cisc468_python.Base.{
  ℕ, ◌+◌, Bytes, Str, Bool, List, Option, none, some, Result, ok, err, Exec, connection_error, pure,
  ◌≡◌, refl, [], ◌∷◌, ◌++◌,
}
use cisc468_python.Base.Dict.{Dict}
use cisc468_python.Json.{Json, Fields}
use cisc468_python.Runtime.{Runtime}

-- `storage.Contact`. The port is what the peer sent, of any type.
pub record Contact : Type 0 where
  pub fingerprint : Str
  pub raw_pub : Str
  pub host : Str
  pub port : Json
  pub alias : Str
  pub verified : Bool
  pub revoked : Bool
  pub successor_fp : Option Str

-- `storage.SharedFile`
pub record SharedFile : Type 0 where
  pub file_id : Str
  pub filename : Str
  pub path : Str
  pub sha256_hex : Str
  pub size : ℕ
  pub original_owner : Str
  pub manifest_sig : Str
  pub timestamp : Str

-- Two files on disk that belong together: the nonce of the `.meta` and the `.enc`.
pub record Sealed : Type 0 where
  pub nonce : Bytes
  pub ciphertext : Bytes

-- identity.key and identity.key.meta, the latter as its dict
pub record KeyFile : Type 0 where
  pub blob : Bytes
  pub meta : Fields

-- A received file: what is in its `.enc`, and the dict in its `.meta`, which has the nonce.
pub record Received : Type 0 where
  pub ciphertext : Bytes
  pub meta : Fields

-- What `os.path.exists` and `open(path, "rb").read()` find at a path; a file that cannot be read
-- raises an `OSError` with a text.
pub data DiskFile : Type 0 where
  missing : DiskFile
  unreadable : Str → DiskFile
  holds : Bytes → DiskFile

pub record Node : Type 0 where
  pub contacts : Dict Contact
  -- contacts.json.enc and contacts.json.meta, if they were written
  pub contacts_file : Option Sealed
  pub file_key : Bytes
  pub shares : Dict SharedFile
  -- share_index.json
  pub shares_file : Option (Dict SharedFile)
  -- The directory `files`, by the name of a file without its ending.
  pub received : Dict Received
  -- file_list_cache: the lists of files, by the first 16 characters of the fingerprint
  pub listings : Dict Json
  pub disk : Str → DiskFile
  pub identity_file : Option KeyFile
  -- storage.salt
  pub salt_file : Option Bytes
  -- The number of calls of `os.urandom` and of `uuid4` so far.
  pub draws : ℕ
  -- What each coming `recv_frame` does, and the envelopes sent. When `sendable` frames more have
  -- been sent the connection breaks.
  pub inbox : List (Result Json)
  pub outbox : List Json
  pub sendable : ℕ
  -- What each coming call of `_connect_tls` meets: no peer, or a connection, on which these frames
  -- arrive and so many can be sent.
  pub dials : List (Option (List (Result Json) × ℕ))

module _ (r : Runtime) where
  -- `os.urandom(size)`
  unfoldable pub urandom : ℕ → Exec Node Bytes
  urandom size n = (ok (r.urandom n.draws size), record n { draws = n.draws + 1 })

  -- `str(uuid.uuid4())`
  unfoldable pub uuid4 : Exec Node Str
  uuid4 n = (ok (r.uuid4 n.draws), record n { draws = n.draws + 1 })
