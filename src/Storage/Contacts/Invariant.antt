-- ===== src/Storage/Contacts/Invariant.antt =====
-- What every operation of `ContactStore` keeps.
use cisc468_python.Base.{
  Bytes, Str, Bool, true, [], Option, none, some, ◌≡◌, ◌⊎◌, inl, inr, refl, ◌∙◌, Option-cases, ok,
  err, Result, continue, pure, ◌>>=◌,
}
use cisc468_python.Base.Dict.{insert}
use cisc468_python.Json.{Json}
use cisc468_python.Runtime.{Runtime, IsLawful}
use cisc468_python.Node.{Contact, Node, Sealed, urandom}
use cisc468_python.Storage.Contacts.{
  find, contacts_json, save, add, put_contact, set_found, on_found, mark_verified, mark_revoked,
  update_address,
}
use cisc468_python.Storage.Contacts.Finding.{
  NodupKeys, Keyed, insert-NodupKeys, insert-Keyed, lookup-Keyed, find_sound,
}

module _ (r : Runtime) where
  -- The plaintext that `_load` would read from contacts.json.enc.
  abbrev pub saved_json : Bytes → Option Sealed → Option Bytes
  saved_json key none = none
  saved_json key (some s) = r.aes_gcm_open key s.nonce s.ciphertext []

  -- Keys are unique, each over the contact with that fingerprint, and the file on disk, once it
  -- was written, holds the contacts in memory.
  pub record StoreOk (n : Node) : Type 0 where
    pub keyed : Keyed n.contacts
    pub nodup : NodupKeys n.contacts
    pub synced :
        ((n.contacts ≡ []) × (n.contacts_file ≡ none))
        ⊎ (saved_json n.file_key n.contacts_file ≡ some (contacts_json n.contacts))

module _ (r : Runtime) (lawful : IsLawful r) where
  put_save :
      (k : Str) (c : Contact) (n : Node)
      → c.fingerprint ≡ k
      → StoreOk r n
      → StoreOk r ((put_contact r k c >>= λ _. save r) n).1
  unfolding put_contact save urandom
  put_save k c n e h = record {
    keyed = insert-Keyed k c n.contacts e h.keyed;
    nodup = insert-NodupKeys k c n.contacts h.nodup;
    synced = inr (
        lawful.open-seal n.file_key (r.urandom n.draws 12) (contacts_json (insert k c n.contacts))
          []);
  }

  then_pure :
      (p : Result Bool × Node)
      → StoreOk r p.1
      → StoreOk r (continue {B = Unit {0}} p.0 (λ _. pure tt) p.1).1
  then_pure (ok b, n) h = h
  then_pure (err e, n) h = h

  pub add-StoreOk : (c : Contact) (n : Node) → StoreOk r n → StoreOk r (add r c n).1
  unfolding add
  add-StoreOk c n h = put_save c.fingerprint c n refl h

  on_found-StoreOk :
      (change : Contact → Contact) (fp : Str) (n : Node)
      → ((c : Contact) → (change c).fingerprint ≡ c.fingerprint)
      → StoreOk r n
      → StoreOk r (on_found r change fp n).1
  unfolding on_found set_found save put_contact urandom
  on_found-StoreOk change fp n same h = elim (Option-cases (find fp n.contacts)) [
    | inl absent ↦ rw absent h
    | inr ((k, c), found) ↦ rw found (
        put_save k (change c) n
          (same c
            ∙ lookup-Keyed k c n.contacts h.keyed (find_sound fp k c n.contacts h.nodup found).0)
          h)
  ]

  pub mark_verified-StoreOk :
      (fp : Str) (n : Node) → StoreOk r n → StoreOk r (mark_verified r fp n).1
  unfolding mark_verified
  mark_verified-StoreOk fp n h =
      on_found-StoreOk (λ c. record c { verified = true }) fp n (λ c. refl) h

  pub mark_revoked-StoreOk :
      (fp : Str) (successor : Option Str) (n : Node)
      → StoreOk r n
      → StoreOk r (mark_revoked r fp successor n).1
  unfolding mark_revoked
  mark_revoked-StoreOk fp successor n h =
      then_pure (on_found r (λ c. record c { revoked = true; successor_fp = successor }) fp n) (
        on_found-StoreOk (λ c. record c { revoked = true; successor_fp = successor }) fp n
          (λ c. refl) h)

  pub update_address-StoreOk :
      (fp host : Str) (port : Json) (n : Node)
      → StoreOk r n
      → StoreOk r (update_address r fp host port n).1
  unfolding update_address
  update_address-StoreOk fp host port n h =
      then_pure (on_found r (λ c. record c { host = host; port = port }) fp n)
        (on_found-StoreOk (λ c. record c { host = host; port = port }) fp n (λ c. refl) h)
