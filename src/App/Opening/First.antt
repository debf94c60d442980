-- ===== src/App/Opening/First.antt =====
-- The first start of a peer: a new identity, and empty stores.
use mathlib.Core.Path.{subst}
use cisc468_python.Base.{
  Bytes, Str, [], Option, none, some, ok, bind-ok, ◌≡◌, inl, refl, ap, ◌∙◌, sym, arith,
}
use cisc468_python.Base.Returns.{Returns, bind-Returns}
use cisc468_python.Runtime.{Runtime, IsLawful}
use cisc468_python.Crypto.Identity.{Identity, IsIdentity}
use cisc468_python.Crypto.Packing.{utf8}
use cisc468_python.Node.{Sealed, Node}
use cisc468_python.Storage.Contacts.Invariant.{StoreOk}
use cisc468_python.Storage.Contacts.Loading
use cisc468_python.Storage.Shares.Spec.{IsSynced}
use cisc468_python.App.Keyfile.Files.{load_same}
use cisc468_python.App.Opening.{load_or_create_identity, load_contacts, load_stores, index_on_disk}
use cisc468_python.App.Opening.Reopened.{RunsAs}
use cisc468_python.App.Opening.Returning.{load_or_create-Returns}
use cisc468_python.App.Opening.Creating.{load_or_create-RunsAs}

module _ (r : Runtime) (lawful : IsLawful r) (password : Str) where
  unwritten : (key : Bytes) (file : Option Sealed) → file ≡ none → Loading.load r key file ≡ ok []
  unfolding Loading.load
  unwritten key none e = refl
  unwritten key (some f) e = cc

  load_no_contacts :
      (n n' : Node)
      → n.contacts_file ≡ none
      → load_contacts r n ≡ (ok tt, n')
      → n' ≡ record n { contacts = [] }
  unfolding load_contacts
  load_no_contacts n n' no_file h =
      let loaded = unwritten n.file_key n.contacts_file no_file in
      ap (λ p. p.1) (sym (rw loaded at h))

  load_stores-Returns :
      (n : Node) (secret : Bytes)
      → utf8 password ≡ ok secret
      → n.identity_file ≡ none
      → n.contacts_file ≡ none
      → Returns (load_stores r password) n
  unfolding load_stores load_contacts
  load_stores-Returns n secret encodes absent no_contacts =
      bind-Returns (load_or_create_identity r password) _ n
        (load_or_create-Returns r lawful password secret encodes n absent)
        λ identity n₁ opened.
          let (_, _, files) = load_or_create-RunsAs r lawful password n n₁ identity absent opened in
          let no_file : n₁.contacts_file ≡ none = files.contacts_file ∙ no_contacts in
          (
            identity,
            record n₁ { contacts = []; shares = index_on_disk n₁.shares_file },
            rw (unwritten n₁.file_key n₁.contacts_file no_file) refl,
          )

  -- The stores of a peer that wrote none.
  empty_stores :
      (n n' : Node) (identity : Identity)
      → IsIdentity r identity × RunsAs r password identity n
      → n.contacts_file ≡ none
      → n.shares_file ≡ none
      → n' ≡ record n { contacts = []; shares = index_on_disk n.shares_file }
      → IsIdentity r identity
        × RunsAs r password identity n'
        × StoreOk r n'
        × IsSynced n'
        × (n'.contacts ≡ [])
        × (n'.shares ≡ [])
  empty_stores n n' identity (is_id, runs) no_contacts no_shares last =
      let file : n'.identity_file ≡ n.identity_file = ap (λ m. m.identity_file) last in
      let none_known : n'.contacts ≡ [] = ap (λ m. m.contacts) last in
      let none_shared : n'.shares ≡ [] =
        ap (λ m. m.shares) last ∙ ap index_on_disk no_shares ∙ (unfold index_on_disk in refl) in
      (
        is_id,
        record {
          key_file = runs.key_file;
          salt = runs.salt;
          secret = runs.secret;
          written = file ∙ runs.written;
          unlocks = load_same r password n' n file ∙ runs.unlocks;
          salted = ap (λ m. m.salt_file) last ∙ runs.salted;
          encodes = runs.encodes;
          key = ap (λ m. m.file_key) last ∙ runs.key;
        },
        record {
          keyed = rw none_known tt;
          nodup = rw none_known tt;
          synced = inl (none_known, ap (λ m. m.contacts_file) last ∙ no_contacts);
        },
        inl (none_shared, ap (λ m. m.shares_file) last ∙ no_shares),
        none_known,
        none_shared,
      )

  -- What `load_stores` leaves when it returns.
  pub first_stores :
      (n n' : Node) (identity : Identity)
      → n.identity_file ≡ none
      → n.contacts_file ≡ none
      → n.shares_file ≡ none
      → load_stores r password n ≡ (ok identity, n')
      → IsIdentity r identity
        × RunsAs r password identity n'
        × StoreOk r n'
        × IsSynced n'
        × (n'.contacts ≡ [])
        × (n'.shares ≡ [])
  unfolding load_stores
  first_stores n n' identity absent no_contacts no_shares h =
      let (fresh, n₁, opened, h₁) = bind-ok (load_or_create_identity r password) _ n h in
      let (is_id, runs, files) = load_or_create-RunsAs r lawful password n n₁ fresh absent opened in
      let (_, n₂, loaded, h₂) = bind-ok (load_contacts r) _ n₁ h₁ in
      let no_file : n₁.contacts_file ≡ none = files.contacts_file ∙ no_contacts in
      let emptied : n₂ ≡ record n₁ { contacts = [] } = load_no_contacts n₁ n₂ no_file loaded in
      let same : fresh ≡ identity = ground (arith, h₂) in
      let last : n' ≡ record n₂ { shares = index_on_disk n₂.shares_file } =
        ap (λ p. p.1) (sym h₂) in
      empty_stores n₁ n' identity
        (subst (λ i. IsIdentity r i × RunsAs r password i n₁) same (is_id, runs)) no_file
        (files.shares_file ∙ no_shares)
        (last ∙ ap (λ (m : Node). record m { shares = index_on_disk m.shares_file }) emptied)

  -- The first start of a peer: where there are no files of an identity, of contacts and of shared
  -- files, `load_stores` returns, under every password that has an encoding. It returns a new identity,
  -- and leaves a peer that runs as that identity under the password, with no contacts and no shared
  -- files, and with well-formed stores.
  pub load_stores-RunsAs :
      (n : Node) (secret : Bytes)
      → utf8 password ≡ ok secret
      → n.identity_file ≡ none
      → n.contacts_file ≡ none
      → n.shares_file ≡ none
      → (identity : Identity) × (n' : Node) × (load_stores r password n ≡ (ok identity, n'))
        × IsIdentity r identity
        × RunsAs r password identity n'
        × StoreOk r n'
        × IsSynced n'
        × (n'.contacts ≡ [])
        × (n'.shares ≡ [])
  load_stores-RunsAs n secret encodes absent no_contacts no_shares =
      let (identity, n', returns) = load_stores-Returns n secret encodes absent no_contacts in
      let (is_id, runs, store, synced, contacts, shares) =
        first_stores n n' identity absent no_contacts no_shares returns in
      (identity, n', returns, is_id, runs, store, synced, contacts, shares)
