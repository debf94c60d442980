-- ===== src/Storage/Contacts/Trust.antt =====
-- Where a verified contact comes from: only `mark_verified` sets the flag, and no operation changes
-- the key under it.
use cisc468_python.Base.{
  ◌>>=◌, Str, str_eq, str_eq_iff, Bool, true, false, Option, some, ◌≡◌, inl, inr, refl, arith,
  Option-cases, Bool-cases, Result, ok, err, continue, pure,
}
use cisc468_python.Base.Dict.{Dict, lookup, insert, lookup-insert}
use cisc468_python.Json.{Json}
use cisc468_python.Runtime.{Runtime}
use cisc468_python.Node.{Contact, Node, urandom}
use cisc468_python.Storage.Contacts.{
  find, save, add, put_contact, set_found, on_found, mark_verified, mark_revoked, update_address,
}
use cisc468_python.Storage.Contacts.Finding.{NodupKeys, find_sound}

-- Each verified contact of `d` was verified in `before` already, with the same key.
abbrev pub TrustsOnly : Dict Contact → Dict Contact → Type 0
TrustsOnly before d =
    (k : Str) (c : Contact)
    → lookup k d ≡ some c
    → c.verified ≡ true
    → (o : Contact) × (lookup k before ≡ some o) × (o.verified ≡ true) × (o.raw_pub ≡ c.raw_pub)

pub TrustsOnly-refl : (d : Dict Contact) → TrustsOnly d d
TrustsOnly-refl d k c h v = (c, h, v, refl)

insert_unverified :
    (before d : Dict Contact) (k : Str) (c : Contact)
    → c.verified ≡ false
    → TrustsOnly before d
    → TrustsOnly before (insert k c d)
insert_unverified before d k c unverified h j c' found v = elim (Bool-cases (str_eq k j)) [
  | inl same ↦ absurd (ground (arith, lookup-insert k j c d))
  | inr differ ↦ h j c' (ground (arith, lookup-insert k j c d)) v
]

insert_changed :
    (before d : Dict Contact) (k : Str) (o c : Contact)
    → lookup k d ≡ some o
    → c.verified ≡ o.verified
    → c.raw_pub ≡ o.raw_pub
    → TrustsOnly before d
    → TrustsOnly before (insert k c d)
insert_changed before d k o c was same_flag same_key h j c' found v =
    elim (Bool-cases (str_eq k j)) [
      | inl same ↦
          let is_c : c ≡ c' = ground (arith, lookup-insert k j c d) in
          let is_k : k ≡ j = (str_eq_iff k j).0 same in
          let (p, there, verified, key) = h k o was (ground arith) in
          (p, rw (← is_k) there, verified, ground arith)
      | inr differ ↦ h j c' (ground (arith, lookup-insert k j c d)) v
    ]

module _ (r : Runtime) (before : Dict Contact) where
  pub add-TrustsOnly :
      (c : Contact) (n : Node)
      → c.verified ≡ false
      → TrustsOnly before n.contacts
      → TrustsOnly before (add r c n).1.contacts
  unfolding add urandom
  add-TrustsOnly c n unverified h = insert_unverified before n.contacts c.fingerprint c unverified h

  on_found-TrustsOnly :
      (change : Contact → Contact) (fp : Str) (n : Node)
      → ((c : Contact) → ((change c).verified ≡ c.verified) × ((change c).raw_pub ≡ c.raw_pub))
      → NodupKeys n.contacts
      → TrustsOnly before n.contacts
      → TrustsOnly before (on_found r change fp n).1.contacts
  unfolding on_found set_found save put_contact urandom
  on_found-TrustsOnly change fp n same u h = elim (Option-cases (find fp n.contacts)) [
    | inl absent ↦ rw absent h
    | inr ((k, c), found) ↦ rw found (
        insert_changed before n.contacts k c (change c) (find_sound fp k c n.contacts u found).0
          (same c).0 (same c).1 h)
  ]

  then_pure :
      (p : Result Bool × Node)
      → TrustsOnly before p.1.contacts
      → TrustsOnly before (continue {B = Unit {0}} p.0 (λ _. pure tt) p.1).1.contacts
  then_pure (ok b, n) h = h
  then_pure (err e, n) h = h

  pub mark_revoked-TrustsOnly :
      (fp : Str) (successor : Option Str) (n : Node)
      → NodupKeys n.contacts
      → TrustsOnly before n.contacts
      → TrustsOnly before (mark_revoked r fp successor n).1.contacts
  unfolding mark_revoked
  mark_revoked-TrustsOnly fp successor n u h =
      let change = λ (c : Contact). record c { revoked = true; successor_fp = successor } in
      then_pure (on_found r change fp n) (on_found-TrustsOnly change fp n (λ c. (refl, refl)) u h)

  pub update_address-TrustsOnly :
      (fp host : Str) (port : Json) (n : Node)
      → NodupKeys n.contacts
      → TrustsOnly before n.contacts
      → TrustsOnly before (update_address r fp host port n).1.contacts
  unfolding update_address
  update_address-TrustsOnly fp host port n u h =
      let change = λ (c : Contact). record c { host = host; port = port } in
      then_pure (on_found r change fp n) (on_found-TrustsOnly change fp n (λ c. (refl, refl)) u h)

module _ (r : Runtime) where
  -- What `mark_verified` does with a contact that it finds.
  pub mark_verified-find :
      (fingerprint k : Str) (c : Contact) (n : Node)
      → find fingerprint n.contacts ≡ some (k, c)
      → (n' : Node) × (mark_verified r fingerprint n ≡ (ok true, n'))
        × (n'.contacts ≡ insert k (record c { verified = true }) n.contacts)
  unfolding mark_verified on_found set_found save put_contact urandom
  mark_verified-find fingerprint k c n h =
      let change = λ (c : Contact). record c { verified = true } in
      (((put_contact r k (change c) >>= λ _. save r) n).1, rw h refl, refl)
