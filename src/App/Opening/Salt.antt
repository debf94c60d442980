-- ===== src/App/Opening/Salt.antt =====
-- The salt of the key of the stores: the one on disk, or a new one.
use cisc468_python.Base.{
  Bytes, Str, Option, none, some, ok, bind-ok, lift-ok, ◌≡◌, refl, ap, ◌∙◌, sym, arith,
}
use cisc468_python.Crypto.Primitives.{argon2id_derive}
use cisc468_python.Runtime.{Runtime}
use cisc468_python.Crypto.Packing.{utf8}
use cisc468_python.Node.{Node, urandom}
use cisc468_python.App.Opening.{derive_file_key, salt_of, read_salt}

module _ (r : Runtime) (password : Str) where
  -- The files of the stores are the same.
  pub record SameFiles (n n' : Node) : Type 0 where
    pub contacts_file : n'.contacts_file ≡ n.contacts_file
    pub shares_file : n'.shares_file ≡ n.shares_file

  pub record Salted (key : Bytes) (n n' : Node) : Type 0 where
    pub salt : Bytes
    pub secret : Bytes
    pub salted : n'.salt_file ≡ some salt
    pub encodes : utf8 password ≡ ok secret
    pub derived : key ≡ argon2id_derive r secret salt
    pub identity_file : n'.identity_file ≡ n.identity_file
    pub files : SameFiles n n'

  salt_of-Salted :
      (file : Option Bytes) (n n' : Node) (salt : Bytes)
      → n.salt_file ≡ file
      → salt_of r file n ≡ (ok salt, n')
      → (n'.salt_file ≡ some salt) × (n'.identity_file ≡ n.identity_file) × SameFiles n n'
  unfolding salt_of urandom
  salt_of-Salted none n n' salt e h = ground arith
  salt_of-Salted (some s) n n' salt e h = ground arith

  pub derive_file_key-Salted :
      (n n' : Node) (key : Bytes) → derive_file_key r password n ≡ (ok key, n') → Salted key n n'
  unfolding derive_file_key read_salt
  derive_file_key-Salted n n' key h =
      let (salt, n₁, read, h₁) = bind-ok (read_salt r) _ n h in
      let (secret, encodes, h₂) = lift-ok (utf8 password) _ n₁ h₁ in
      let (salted, same, files) = salt_of-Salted n.salt_file n n₁ salt refl read in
      let last = ap (λ p. p.1) h₂ in
      record {
        salt = salt;
        secret = secret;
        salted = ap (λ m. m.salt_file) (sym last) ∙ salted;
        encodes = encodes;
        derived = ground (arith, h₂);
        identity_file = ap (λ m. m.identity_file) (sym last) ∙ same;
        files = record {
          contacts_file = ap (λ m. m.contacts_file) (sym last) ∙ files.contacts_file;
          shares_file = ap (λ m. m.shares_file) (sym last) ∙ files.shares_file;
        };
      }
