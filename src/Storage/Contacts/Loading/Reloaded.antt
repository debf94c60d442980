-- ===== src/Storage/Contacts/Loading/Reloaded.antt =====
-- The contacts that were saved are the contacts that a new store loads.
use cisc468_python.Base.{
  Bytes, Str, codes, str_eq, str_eq_iff, contains, [], ◌∷◌, ◌++◌, append_assoc, append-nil, Option,
  none, some, ok, bind_result, All, ◌≡◌, inl, inr, refl, sym, ap, ◌∙◌, arith,
}
use cisc468_python.Base.Dict.{Dict, lookup}
use cisc468_python.Json.{obj, find}
use cisc468_python.Json.Lexer.Texts.{IsScalar}
use cisc468_python.Json.Loads.Ascii.{loads_bytes-dumps, printed_unsorted}
use cisc468_python.Json.Loads.Ordering.{Fresh, Unique, insert_last}
use cisc468_python.Json.Loads.Printed.{IsPlain, IsPlainFields, IsReadable, ascii-IsScalar}
use cisc468_python.Json.Loads.{loads_bytes}
use cisc468_python.Runtime.{Runtime}
use cisc468_python.Node.{Contact, Node, Sealed}
use cisc468_python.Storage.Contacts.{contact_fields, opt_str, compact, dict_fields, contacts_json}
use cisc468_python.Storage.Contacts.Finding.{NodupKeys}
use cisc468_python.Storage.Contacts.Invariant.{saved_json, StoreOk}
use cisc468_python.Storage.Contacts.Loading.{
  contact_of, contacts_from, contacts_in, opt_text, load, opened,
}

-- No surrogates in the texts of a contact, and a port that `json.dumps` prints in one way.
pub record IsPlainContact (c : Contact) : Type 0 where
  pub fingerprint : All IsScalar c.fingerprint
  pub raw_pub : All IsScalar c.raw_pub
  pub host : All IsScalar c.host
  pub port : IsPlain c.port
  pub alias : All IsScalar c.alias
  pub successor : IsPlain (opt_str c.successor_fp)

abbrev pub ArePlain : Dict Contact → Type 0
ArePlain d = All (λ (k, c). All IsScalar k × IsPlainContact c) d

opt_text-opt_str : (s : Option Str) → opt_text (some (opt_str s)) ≡ ok s
unfolding opt_text opt_str
opt_text-opt_str none = refl
opt_text-opt_str (some s) = refl

contact_of-contact_fields : (c : Contact) → contact_of (obj (contact_fields c)) ≡ ok c
unfolding contact_of contact_fields contains find str_eq
contact_of-contact_fields c = rw (opt_text-opt_str c.successor_fp) refl

Unique-of : (d : Dict Contact) → NodupKeys d → Unique d
unfolding lookup
Unique-of [] h = tt
Unique-of ((k, c) ∷ d) (fresh, h) = (apart d fresh, Unique-of d h)
  where
    apart : (d : Dict Contact) → lookup k d ≡ none → Fresh k d
    apart [] e = tt
    apart ((j, w) ∷ d) e = (ground (arith, str_eq_iff j k, str_eq_iff k j), apart d (ground arith))

contacts_from-dict_fields :
    (front back : Dict Contact)
    → Unique (front ++ back)
    → contacts_from (dict_fields back) front ≡ ok (front ++ back)
unfolding contacts_from dict_fields
contacts_from-dict_fields front [] u = ap ok (sym (append-nil front))
contacts_from-dict_fields front ((k, c) ∷ back) u =
    rw
      (
        contact_of-contact_fields c,
        insert_last k c front back u,
        contacts_from-dict_fields (front ++ (k, c) ∷ []) back (rw append_assoc u),
      )
      (ap ok (append_assoc front ((k, c) ∷ []) back))

contact_fields-IsPlain : (c : Contact) → IsPlainContact c → IsPlainFields (contact_fields c)
unfolding contact_fields find str_eq
contact_fields-IsPlain c h = (
  ascii-IsScalar (codes "fingerprint") (omega arith),
  refl,
  h.fingerprint,
  (
    ascii-IsScalar (codes "raw_pub") (omega arith),
    refl,
    h.raw_pub,
    (
      ascii-IsScalar (codes "host") (omega arith),
      refl,
      h.host,
      (
        ascii-IsScalar (codes "port") (omega arith),
        refl,
        h.port,
        (
          ascii-IsScalar (codes "alias") (omega arith),
          refl,
          h.alias,
          (
            ascii-IsScalar (codes "verified") (omega arith),
            refl,
            tt,
            (
              ascii-IsScalar (codes "revoked") (omega arith),
              refl,
              tt,
              (ascii-IsScalar (codes "successor_fp") (omega arith), refl, h.successor, tt),
            ),
          ),
        ),
      ),
    ),
  ),
)

find-dict_fields : (k : Str) (d : Dict Contact) → lookup k d ≡ none → find k (dict_fields d) ≡ none
unfolding find dict_fields lookup
find-dict_fields k [] h = refl
find-dict_fields k ((j, c) ∷ d) h = ground (arith, find-dict_fields k d)

dict_fields-IsPlain : (d : Dict Contact) → NodupKeys d → ArePlain d → IsPlainFields (dict_fields d)
unfolding dict_fields
dict_fields-IsPlain [] u h = tt
dict_fields-IsPlain ((k, c) ∷ d) (fresh, u) ((hk, hc), h) =
    (hk, find-dict_fields k d fresh, contact_fields-IsPlain c hc, dict_fields-IsPlain d u h)

compact-IsReadable : IsReadable compact
compact-IsReadable = record {
  item_space = [];
  key_space = [];
  comma = refl;
  colon = refl;
  item_blank = tt;
  key_blank = tt;
}

read-contacts_json :
    (repr_float : Str → Str) (d : Dict Contact)
    → NodupKeys d
    → ArePlain d
    → bind_result (loads_bytes repr_float (contacts_json d)) contacts_in ≡ ok d
unfolding contacts_json contacts_in
read-contacts_json repr_float d u h =
    ap (λ x. bind_result x contacts_in)
      (loads_bytes-dumps compact (omega arith, tt) (omega arith, tt) repr_float compact-IsReadable
          (obj (dict_fields d)) (dict_fields-IsPlain d u h)
        ∙ ap ok (printed_unsorted compact refl (obj (dict_fields d))))
    ∙ contacts_from-dict_fields [] d (Unique-of d u)

module _ (r : Runtime) where
  unwritten_file : (key : Bytes) → load r key none ≡ ok []
  unfolding load
  unwritten_file key = refl

  load_file :
      (key : Bytes) (file : Option Sealed) (plaintext : Bytes)
      → saved_json r key file ≡ some plaintext
      → load r key file ≡ bind_result (loads_bytes r.repr_float plaintext) contacts_in
  unfolding load opened
  load_file key none plaintext h = cc
  load_file key (some file) plaintext h = rw h refl

  -- A peer that starts again finds its contacts: if the store is well formed, what `_load` reads from
  -- its file, under the same key, are the contacts that it had, each with all its fields and in the
  -- same order. The contacts have no surrogates in their texts and no float as a port.
  pub load-StoreOk :
      (n : Node)
      → StoreOk r n
      → ArePlain n.contacts
      → load r n.file_key n.contacts_file ≡ ok n.contacts
  load-StoreOk n h plain = elim h.synced [
    | inl (empty, unwritten) ↦
        ap (load r n.file_key) unwritten ∙ unwritten_file n.file_key ∙ ap ok (sym empty)
    | inr saved ↦
        load_file n.file_key n.contacts_file (contacts_json n.contacts) saved
        ∙ read-contacts_json r.repr_float n.contacts h.nodup plain
  ]
