-- ===== src/App/Commands/Verifying.antt =====
-- What verifying a contact changes.
use cisc468_python.Base.{Str, str_eq, true, if◌then◌else◌, some, ◌≡◌, ◌∙◌, ap}
use cisc468_python.Base.Dict.{lookup, lookup-insert}
use cisc468_python.Runtime.{Runtime}
use cisc468_python.Node.{Contact, Node}
use cisc468_python.Storage.Contacts
use cisc468_python.Storage.Contacts.Finding.{find_exact, get-find, lookup-Keyed, find_sound}
use cisc468_python.Storage.Contacts.Trust.{mark_verified-find}
use cisc468_python.Storage.Contacts.Invariant.{StoreOk}
use cisc468_python.App.Commands.{verify_found, verify_contact}

module _ (r : Runtime) where
  -- `cmd_verify_contact`, confirmed, for a text that finds a contact, in full or by a prefix: exactly
  -- that contact is verified afterwards, with all else of it unchanged, and every other contact is
  -- as before, if the store is well formed and the fingerprint of the contact is in lower case.
  pub verify_contact_exact :
      (fingerprint k other : Str) (c : Contact) (n : Node)
      → StoreOk r n
      → Contacts.find (Contacts.lower fingerprint) n.contacts ≡ some (k, c)
      → Contacts.lower k ≡ k
      → lookup other (verify_contact r fingerprint true n).1.contacts
        ≡ (if str_eq k other then some (record c { verified = true }) else lookup other n.contacts)
  unfolding verify_contact verify_found
  verify_contact_exact fingerprint k other c n h found lowered =
      let there = (find_sound (Contacts.lower fingerprint) k c n.contacts h.nodup found).0 in
      let named : c.fingerprint ≡ k = lookup-Keyed k c n.contacts h.keyed there in
      let (n₁, ran, is_n₁) =
        mark_verified-find r c.fingerprint k c n
          (ap (λ x. Contacts.find x n.contacts) named ∙ find_exact k c n.contacts lowered there) in
      rw (get-find (Contacts.lower fingerprint) k c n.contacts found, ran, is_n₁)
        (lookup-insert k other (record c { verified = true }) n.contacts)
