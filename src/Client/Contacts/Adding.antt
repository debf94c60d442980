-- ===== src/Client/Contacts/Adding.antt =====
-- What `add_contact` has checked when it returns.
use cisc468_python.Base.{Bytes, Str, codes, true, false, none, some, ok, ◌≡◌, ◌⊎◌, arith}
use cisc468_python.Base.Dict.{Dict, lookup}
use cisc468_python.Base.Keeps.{Keeps, keeps_rules}
use cisc468_python.Json.{Json, str, text, get}
use cisc468_python.Runtime.{Runtime}
use cisc468_python.Crypto.Base64.{b64d}
use cisc468_python.Crypto.Identity.{fingerprint_from_bytes}
use cisc468_python.Node.{Contact, Node}
use cisc468_python.Node.Quiet.{IsQuiet}
use cisc468_python.Storage.Contacts
use cisc468_python.Protocol.{verify_envelope}
use cisc468_python.Client.Contacts.{Client, connect, check_reply, raise_message}

-- What became of a peer with this key: `c` is new, not verified, and stored, or known before.
abbrev pub Kept : Runtime → Bytes → Dict Contact → Contact → Dict Contact → Type 0
Kept r raw_pub before c after =
    ((Contacts.get (fingerprint_from_bytes r raw_pub) before ≡ none)
      × (c.fingerprint ≡ fingerprint_from_bytes r raw_pub)
      × (c.verified ≡ false)
      × (b64d (str c.raw_pub) ≡ ok raw_pub)
      × (lookup (fingerprint_from_bytes r raw_pub) after ≡ some c))
    ⊎ ((e : Contact) × (Contacts.get (fingerprint_from_bytes r raw_pub) before ≡ some e)
        × (c.fingerprint ≡ e.fingerprint)
        × (c.raw_pub ≡ e.raw_pub)
        × (c.verified ≡ e.verified))

-- The contact `c` that came of the run from `n` to `n'`: the peer's name is the hash of its key, and
-- the key signed the reply. A peer that was not known is stored as it is returned, with that key
-- and not verified; of a known one, name, key and flag are as they were.
pub record Introduced (r : Runtime) (n : Node) (c : Contact) (n' : Node) : Type 0 where
  pub reply : Json
  pub raw_pub : Bytes
  pub named : get reply (codes "from") (text "") ≡ ok (str (fingerprint_from_bytes r raw_pub))
  pub signed : verify_envelope r reply raw_pub ≡ ok true
  pub kept : Kept r raw_pub n.contacts c n'.contacts

module _ {κ} {P : Node → Type κ} (quiet : IsQuiet P) where
  pub connect-Keeps : Keeps P connect
  unfolding connect
  connect-Keeps = record { at = λ n h. quiet.moves n (connect n).1 (ground arith) h }

  raise_message-Keeps : (reply : Json) → Keeps P (raise_message reply)
  unfolding raise_message
  raise_message-Keeps reply = search keeps_rules

  pub check_reply-Keeps : (reply : Json) (expected : Str) → Keeps P (check_reply reply expected)
  unfolding check_reply
  check_reply-Keeps reply expected = search (keeps_rules, raise_message-Keeps) depth 12
