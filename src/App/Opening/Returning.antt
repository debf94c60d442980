-- ===== src/App/Opening/Returning.antt =====
-- The first start of a peer returns.
use cisc468_python.Base.{Bytes, Str, Option, none, some, ok, lift, value_error, ◌≡◌, refl}
use cisc468_python.Base.Returns.{Returns, bind-Returns, lift-Returns, or_raise-Returns}
use cisc468_python.Crypto.Primitives.{argon2id_derive}
use cisc468_python.Runtime.{Runtime, IsLawful}
use cisc468_python.Crypto.Identity.{Identity, make_identity, make_identity-some}
use cisc468_python.Crypto.Packing.{utf8}
use cisc468_python.Node.{KeyFile, Node, urandom}
use cisc468_python.App.Keyfile.{generate, save}
use cisc468_python.App.Opening.{
  derive_file_key, salt_of, read_salt, create, identity_for, read_identity, load_or_create_identity,
}

module _ (r : Runtime) (lawful : IsLawful r) (password : Str) (secret : Bytes)
    (encodes : utf8 password ≡ ok secret) where
  generate-Returns : (n : Node) → Returns (generate r) n
  unfolding generate urandom
  generate-Returns n =
      let seed = r.urandom n.draws 32 in
      let (identity, made) = make_identity-some r lawful seed (lawful.length-urandom n.draws 32) in
      or_raise-Returns (make_identity r seed) value_error identity (urandom r 32 n).1 made

  save-Returns : (identity : Identity) (n : Node) → Returns (save r identity password) n
  unfolding save urandom
  save-Returns identity n =
      bind-Returns (lift (utf8 password)) _ (urandom r 32 n).1
        (lift-Returns (utf8 password) secret (urandom r 32 n).1 encodes) (λ s n₂ _. (tt, _, refl))

  create-Returns : (n : Node) → Returns (create r password) n
  unfolding create
  create-Returns n = bind-Returns (generate r) _ n (generate-Returns n) λ identity n₁ _.
      bind-Returns (save r identity password) _ n₁ (save-Returns identity n₁)
        (λ _ n₂ _. (identity, n₂, refl))

  identity_for-Returns :
      (file : Option KeyFile) (n : Node) → file ≡ none → Returns (identity_for r password file) n
  unfolding identity_for
  identity_for-Returns none n e = create-Returns n
  identity_for-Returns (some f) n e = cc

  read_identity-Returns : (n : Node) → n.identity_file ≡ none → Returns (read_identity r password) n
  unfolding read_identity
  read_identity-Returns n absent = identity_for-Returns n.identity_file n absent

  salt_of-Returns : (file : Option Bytes) (n : Node) → Returns (salt_of r file) n
  unfolding salt_of urandom
  salt_of-Returns none n = (r.urandom n.draws 32, _, refl)
  salt_of-Returns (some salt) n = (salt, n, refl)

  derive_file_key-Returns : (n : Node) → Returns (derive_file_key r password) n
  unfolding derive_file_key read_salt
  derive_file_key-Returns n =
      bind-Returns (read_salt r) _ n (salt_of-Returns n.salt_file n) λ salt n₁ _.
        bind-Returns (lift (utf8 password)) _ n₁ (lift-Returns (utf8 password) secret n₁ encodes)
          (λ s n₂ _. (argon2id_derive r s salt, n₂, refl))

  -- Where there is no identity, `load_or_create_identity` makes one and returns, if the password has
  -- an encoding.
  pub load_or_create-Returns :
      (n : Node) → n.identity_file ≡ none → Returns (load_or_create_identity r password) n
  unfolding load_or_create_identity
  load_or_create-Returns n absent =
      bind-Returns (read_identity r password) _ n (read_identity-Returns n absent) λ identity n₁ _.
        bind-Returns (derive_file_key r password) _ n₁ (derive_file_key-Returns n₁)
          (λ key n₂ _. (identity, _, refl))
