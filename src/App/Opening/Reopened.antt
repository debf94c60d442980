-- ===== src/App/Opening/Reopened.antt =====
-- A peer that is started again is in the state in which it was stopped.
use mathlib.Core.Path.{ap₂}
use cisc468_python.Base.{
  Bytes, Str, Option, none, some, ok, ◌≡◌, inl, inr, refl, ap, ◌∙◌, sym, arith,
}
use cisc468_python.Base.Dict.{Dict}
use cisc468_python.Crypto.Primitives.{argon2id_derive}
use cisc468_python.Runtime.{Runtime}
use cisc468_python.Crypto.Identity.{Identity}
use cisc468_python.Crypto.Packing.{utf8}
use cisc468_python.Node.{Contact, KeyFile, Node}
use cisc468_python.Storage.Contacts.Invariant.{StoreOk}
use cisc468_python.Storage.Contacts.Loading
use cisc468_python.Storage.Shares.Spec.{IsSynced}
use cisc468_python.Storage.Contacts.Loading.Reloaded.{ArePlain, load-StoreOk}
use cisc468_python.App.Keyfile
use cisc468_python.App.Opening.{
  derive_file_key, salt_of, read_salt, unlocked, identity_for, read_identity,
  load_or_create_identity, load_contacts, load_stores, index_on_disk, stopped,
}

-- The peer runs as this identity under this password: the identity is on disk, and so is the salt
-- from which the key of the stores is derived.
pub record RunsAs (r : Runtime) (password : Str) (identity : Identity) (n : Node) : Type 0 where
  pub key_file : KeyFile
  pub salt : Bytes
  pub secret : Bytes
  pub written : n.identity_file ≡ some key_file
  pub unlocks : Keyfile.load r password n ≡ ok identity
  pub salted : n.salt_file ≡ some salt
  pub encodes : utf8 password ≡ ok secret
  pub key : n.file_key ≡ argon2id_derive r secret salt

-- What `_load` finds of an index that is on disk as it is in memory.
index_on_disk-IsSynced : (n : Node) → IsSynced n → index_on_disk n.shares_file ≡ n.shares
unfolding index_on_disk
index_on_disk-IsSynced n (inl (empty, unwritten)) = rw (empty, unwritten) refl
index_on_disk-IsSynced n (inr written) = rw written refl

module _ (r : Runtime) (password : Str) where
  identity_for-some :
      (n : Node) (file : Option KeyFile) (f : KeyFile) (identity : Identity)
      → file ≡ some f
      → Keyfile.load r password n ≡ ok identity
      → identity_for r password file n ≡ (ok identity, n)
  unfolding identity_for unlocked
  identity_for-some n none f identity e h = cc
  identity_for-some n (some g) f identity e h = rw h refl

  salt_of-some :
      (n : Node) (file : Option Bytes) (salt : Bytes)
      → file ≡ some salt
      → salt_of r file n ≡ (ok salt, n)
  unfolding salt_of
  salt_of-some n none salt e = cc
  salt_of-some n (some s) salt e = ground arith

  derive_file_key_lem :
      (n : Node) (salt secret : Bytes)
      → n.salt_file ≡ some salt
      → utf8 password ≡ ok secret
      → derive_file_key r password n ≡ (ok (argon2id_derive r secret salt), n)
  unfolding derive_file_key read_salt
  derive_file_key_lem n salt secret e h = rw (salt_of-some n n.salt_file salt e, h) refl

  pub load_or_create_lem :
      (n : Node) (f : KeyFile) (salt secret : Bytes) (identity : Identity)
      → n.identity_file ≡ some f
      → Keyfile.load r password n ≡ ok identity
      → n.salt_file ≡ some salt
      → utf8 password ≡ ok secret
      → load_or_create_identity r password n
        ≡ (ok identity, record n { file_key = argon2id_derive r secret salt })
  unfolding load_or_create_identity read_identity
  load_or_create_lem n f salt secret identity written unlocks salted encodes =
      rw
        (
          identity_for-some n n.identity_file f identity written unlocks,
          derive_file_key_lem n salt secret salted encodes,
        )
        refl

  load_stores_lem :
      (n n₁ : Node) (identity : Identity) (contacts : Dict Contact)
      → load_or_create_identity r password n ≡ (ok identity, n₁)
      → Loading.load r n₁.file_key n₁.contacts_file ≡ ok contacts
      → load_stores r password n
        ≡ (ok identity, record n₁ { contacts = contacts; shares = index_on_disk n₁.shares_file })
  unfolding load_stores load_contacts
  load_stores_lem n n₁ identity contacts opened loaded = rw (opened, loaded) refl

module _ (r : Runtime) where
  -- From the files alone, `load_stores` rebuilds the peer: if the peer runs as an identity under a
  -- password, its stores are well formed and its contacts plain, then the same password on what is
  -- left of it when it stops gives the same identity, and exactly the state that it had, the contacts
  -- and the shared files in memory and the key of the stores included.
  pub load_stores-stopped :
      (password : Str) (identity : Identity) (n : Node)
      → RunsAs r password identity n
      → StoreOk r n
      → ArePlain n.contacts
      → IsSynced n
      → load_stores r password (stopped n) ≡ (ok identity, n)
  unfolding stopped Keyfile.load
  load_stores-stopped password identity n runs store plain synced =
      let reopened : Node = record (stopped n) {
        file_key = argon2id_derive r runs.secret runs.salt;
      } in
      load_stores_lem r password (stopped n) reopened identity n.contacts
        (load_or_create_lem r password (stopped n) runs.key_file runs.salt runs.secret identity
          runs.written runs.unlocks runs.salted runs.encodes)
        (ap (λ k. Loading.load r k n.contacts_file) (sym runs.key) ∙ load-StoreOk r n store plain)
      ∙ ap₂ (λ k d. (ok identity, record n { file_key = k; shares = d })) (sym runs.key)
          (index_on_disk-IsSynced n synced)
