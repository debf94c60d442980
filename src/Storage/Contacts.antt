-- ===== src/Storage/Contacts.antt =====
-- `ContactStore` of storage.py. A contact found by `get` is the object in the dict, so a field
-- that is set on it is set in the store.
pub mod Finding
pub mod Invariant
pub mod Loading
pub mod Trust
use cisc468_python.Base.{
  ℕ, ◌+◌, Bytes, Str, codes, ltb, leb, Bool, true, false, ◌&&◌, if◌then◌else◌, starts_with, List,
  [], ◌∷◌, map, Option, none, some, Exec, pure, gets, modify, ◌>>=◌, ◌>>◌, Result, ok, err, ◌≡◌,
  refl,
}
use cisc468_python.Base.Dict.{Dict, lookup, insert, values}
use cisc468_python.Json.{Json, null, bool, str, obj, Fields, end, field, fields}
use cisc468_python.Json.Dumps.{Format, dumps}
use cisc468_python.Runtime.{Runtime}
use cisc468_python.Node.{Contact, Node, Sealed, urandom}

-- `s.lower()`, for ASCII letters; any other character is kept.
unfoldable pub lower : Str → Str
lower = map (λ c. if leb b'A' c && leb c b'Z' then c + 32 else c)

-- The entries whose key starts with `fp`.
unfoldable pub matching : Str → Dict Contact → Dict Contact
matching fp [] = []
matching fp ((k, c) ∷ d) =
    let rest = matching fp d in if starts_with k fp then (k, c) ∷ rest else rest

-- `matches[0] if len(matches) == 1 else None`
only : Dict Contact → Option (Str × Contact)
only (e ∷ []) = some e
only _ = none

or_only : Option Contact → Str → Dict Contact → Option (Str × Contact)
or_only (some c) fp ms = some (fp, c)
or_only none fp ms = only ms

-- The key and the contact that `get` finds: under the whole fingerprint, or under the one key that
-- it is a prefix of.
unfoldable pub find : Str → Dict Contact → Option (Str × Contact)
unfolding only or_only matching
find fingerprint d = let fp = lower fingerprint in or_only (lookup fp d) fp (matching fp d)

unfoldable pub get : Str → Dict Contact → Option Contact
unfolding find
get fingerprint d = elim (find fingerprint d) [ none ↦ none | some (k, c) ↦ some c ]

unfoldable pub opt_str : Option Str → Json
opt_str none = null
opt_str (some s) = str s

-- `asdict(contact)`
unfoldable pub contact_fields : Contact → Fields
unfolding opt_str
contact_fields c = fields (
    (codes "fingerprint", str c.fingerprint)
    ∷ (codes "raw_pub", str c.raw_pub)
    ∷ (codes "host", str c.host)
    ∷ (codes "port", c.port)
    ∷ (codes "alias", str c.alias)
    ∷ (codes "verified", bool c.verified)
    ∷ (codes "revoked", bool c.revoked)
    ∷ (codes "successor_fp", opt_str c.successor_fp)
    ∷ [])

-- `separators=(',', ':')`
abbrev pub compact : Format
compact = record { item_sep = codes ","; key_sep = codes ":"; sorts = false }

unfoldable pub dict_fields : Dict Contact → Fields
dict_fields [] = end
dict_fields ((k, c) ∷ d) = field k (obj (contact_fields c)) (dict_fields d)

-- The plaintext of contacts.json.enc
unfoldable pub contacts_json : Dict Contact → Bytes
unfolding dict_fields contact_fields
contacts_json d = dumps compact (obj (dict_fields d))

module _ (r : Runtime) where
  unfoldable pub save : Exec Node (Unit {0})
  save = do
    nonce ← urandom r 12
    modify λ n. record n {
      contacts_file = some (record {
        nonce = nonce;
        ciphertext = r.aes_gcm_seal n.file_key nonce (contacts_json n.contacts) [];
      });
    }

  put_contact : Str → Contact → Exec Node (Unit {0})
  put_contact k c = modify λ n. record n { contacts = insert k c n.contacts }

  -- `add`, and `update`, which has the same body
  unfoldable pub add : Contact → Exec Node (Unit {0})
  unfolding save put_contact
  add contact = do put_contact contact.fingerprint contact; save

  -- Sets fields of the contact that `get` finds and saves; the result says whether there is one.
  set_found : (Contact → Contact) → Option (Str × Contact) → Exec Node Bool
  set_found change none = pure false
  set_found change (some (k, c)) = do put_contact k (change c); save; pure true

  on_found : (Contact → Contact) → Str → Exec Node Bool
  on_found change fingerprint n = set_found change (find fingerprint n.contacts) n

  unfoldable pub mark_verified : Str → Exec Node Bool
  unfolding on_found set_found save put_contact
  mark_verified fingerprint = on_found (λ c. record c { verified = true }) fingerprint

  unfoldable pub mark_revoked : Str → Option Str → Exec Node (Unit {0})
  unfolding on_found set_found save put_contact
  mark_revoked fingerprint successor = do
    on_found (λ c. record c { revoked = true; successor_fp = successor }) fingerprint
    pure tt

  unfoldable pub update_address : Str → Str → Json → Exec Node (Unit {0})
  unfolding on_found set_found save put_contact
  update_address fingerprint host port = do
    on_found (λ c. record c { host = host; port = port }) fingerprint
    pure tt
