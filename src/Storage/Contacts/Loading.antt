-- ===== src/Storage/Contacts/Loading.antt =====
-- `ContactStore._load` of storage.py, on what `_save` wrote.
pub mod Reloaded
use cisc468_python.Base.{
  Bytes, Str, codes, contains, Bool, true, false, ◌&&◌, if◌then◌else◌, List, [], ◌∷◌, Option, none,
  some, Exec, Exn, raise, Result, ok, err, bind_result, invalid_tag, type_error, attribute_error,
  ◌≡◌, refl,
}
use cisc468_python.Base.Dict.{Dict, insert}
use cisc468_python.Json.{Json, null, bool, str, obj, Fields, end, field, find}
use cisc468_python.Json.Loads.{loads_bytes}
use cisc468_python.Crypto.Primitives.{aes_gcm_decrypt}
use cisc468_python.Runtime.{Runtime}
use cisc468_python.Node.{Contact, Node, Sealed}

-- The fields of `Contact`; `Contact(**d)` refuses any other.
abbrev contact_keys : List Str
contact_keys =
    codes "fingerprint"
    ∷ codes "raw_pub"
    ∷ codes "host"
    ∷ codes "port"
    ∷ codes "alias"
    ∷ codes "verified"
    ∷ codes "revoked"
    ∷ codes "successor_fp"
    ∷ []

all_known : Fields → Bool
all_known end = true
all_known (field k v fs) = contains contact_keys k && all_known fs

-- A field with no default. `_save` wrote a text; Python would take any other value too.
required_text : Option Json → Result Str
required_text (some (str s)) = ok s
required_text _ = err type_error

required_any : Option Json → Result Json
required_any none = err type_error
required_any (some v) = ok v

text_or : Str → Option Json → Result Str
text_or d none = ok d
text_or d (some (str s)) = ok s
text_or d (some v) = err type_error

bool_or : Bool → Option Json → Result Bool
bool_or d none = ok d
bool_or d (some (bool b)) = ok b
bool_or d (some v) = err type_error

opt_text : Option Json → Result (Option Str)
opt_text none = ok none
opt_text (some null) = ok none
opt_text (some (str s)) = ok (some s)
opt_text (some v) = err type_error

contact_with : Fields → Result Contact
unfolding required_text required_any text_or bool_or opt_text
contact_with fs = bind_result (required_text (find (codes "fingerprint") fs)) λ fingerprint.
    bind_result (required_text (find (codes "raw_pub") fs)) λ raw_pub.
      bind_result (required_text (find (codes "host") fs)) λ host.
        bind_result (required_any (find (codes "port") fs)) λ port.
          bind_result (text_or [] (find (codes "alias") fs)) λ alias.
            bind_result (bool_or false (find (codes "verified") fs)) λ verified.
              bind_result (bool_or false (find (codes "revoked") fs)) λ revoked.
                bind_result (opt_text (find (codes "successor_fp") fs)) λ successor_fp. ok (record {
                  fingerprint = fingerprint;
                  raw_pub = raw_pub;
                  host = host;
                  port = port;
                  alias = alias;
                  verified = verified;
                  revoked = revoked;
                  successor_fp = successor_fp;
                })

-- `Contact(**d)`
unfoldable pub contact_of : Json → Result Contact
unfolding all_known contact_with
contact_of (obj fs) = if all_known fs then contact_with fs else err type_error
contact_of _ = err type_error

-- `for fp, d in data.items(): self._contacts[fp] = Contact(**d)`
unfoldable pub contacts_from : Fields → Dict Contact → Result (Dict Contact)
contacts_from end d = ok d
contacts_from (field fp v fs) d = bind_result (contact_of v) λ c. contacts_from fs (insert fp c d)

contacts_in : Json → Result (Dict Contact)
unfolding contacts_from contact_of
contacts_in (obj fs) = contacts_from fs []
contacts_in _ = err attribute_error

module _ (r : Runtime) where
  opened : Option Bytes → Result Bytes
  opened none = err invalid_tag
  opened (some plaintext) = ok plaintext

  -- `_load`: the contacts that a new `ContactStore` has.
  unfoldable pub load : Bytes → Option Sealed → Result (Dict Contact)
  unfolding contacts_in opened
  load key none = ok []
  load key (some file) =
      bind_result (opened (aes_gcm_decrypt r key file.nonce file.ciphertext))
        λ plaintext. bind_result (loads_bytes r.repr_float plaintext) contacts_in
