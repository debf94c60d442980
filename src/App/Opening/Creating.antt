-- ===== src/App/Opening/Creating.antt =====
-- A new identity: what `load_or_create_identity` leaves where there is none.
use mathlib.Core.Path.{subst}
use cisc468_python.Base.{Str, Option, none, some, ok, bind-ok, ◌≡◌, ap, ◌∙◌, sym, arith}
use cisc468_python.Runtime.{Runtime, IsLawful}
use cisc468_python.Crypto.Identity.{Identity, IsIdentity}
use cisc468_python.Node.{KeyFile, Node}
use cisc468_python.App.Keyfile
use cisc468_python.App.Keyfile.{load-save_identity}
use cisc468_python.App.Keyfile.Files.{generate-ok, save-ok, load_same}
use cisc468_python.App.Opening.{
  derive_file_key, create, identity_for, read_identity, load_or_create_identity,
}
use cisc468_python.App.Opening.Reopened.{RunsAs}
use cisc468_python.App.Opening.Salt.{SameFiles, derive_file_key-Salted}

module _ (r : Runtime) (lawful : IsLawful r) (password : Str) where
  -- What `load_or_create_identity` leaves where there was no identity.
  record Created (identity : Identity) (n n' : Node) : Type 0 where
    is_id : IsIdentity r identity
    file : KeyFile
    written : n'.identity_file ≡ some file
    unlocks : Keyfile.load r password n' ≡ ok identity
    files : SameFiles r password n n'

  create-Created :
      (n n' : Node) (identity : Identity)
      → create r password n ≡ (ok identity, n')
      → Created identity n n'
  unfolding create
  create-Created n n' identity h =
      let (fresh, n₁, generated, h₁) = bind-ok (Keyfile.generate r) _ n h in
      let (is_id, drawn) = generate-ok r n n₁ fresh generated in
      let (_, n₂, saved, h₂) = bind-ok (Keyfile.save r fresh password) _ n₁ h₁ in
      let (file, written) = save-ok r fresh password n₁ n₂ saved in
      let last : n' ≡ n₂ = ap (λ p. p.1) (sym h₂) in
      let same : fresh ≡ identity = ground (arith, h₂) in
      record {
        is_id = subst (IsIdentity r) same is_id;
        file = file;
        written = ap (λ m. m.identity_file) (last ∙ written);
        unlocks =
            ap (Keyfile.load r password) last
            ∙ load-save_identity r lawful fresh password n₁ n₂ is_id saved
            ∙ ap ok same;
        files = record {
          contacts_file =
              ap (λ m. m.contacts_file) (last ∙ written) ∙ ap (λ m. m.contacts_file) drawn;
          shares_file = ap (λ m. m.shares_file) (last ∙ written) ∙ ap (λ m. m.shares_file) drawn;
        };
      }

  identity_for-Created :
      (file : Option KeyFile) (n n' : Node) (identity : Identity)
      → file ≡ none
      → identity_for r password file n ≡ (ok identity, n')
      → Created identity n n'
  unfolding identity_for
  identity_for-Created none n n' identity e h = create-Created n n' identity h
  identity_for-Created (some f) n n' identity e h = absurd (ground arith)

  -- Where there is no identity, `load_or_create_identity` makes one, and the peer runs as it.
  pub load_or_create-RunsAs :
      (n n' : Node) (identity : Identity)
      → n.identity_file ≡ none
      → load_or_create_identity r password n ≡ (ok identity, n')
      → IsIdentity r identity × RunsAs r password identity n' × SameFiles r password n n'
  unfolding load_or_create_identity read_identity
  load_or_create-RunsAs n n' identity absent h =
      let (fresh, m₁, read, h₁) = bind-ok (read_identity r password) _ n h in
      let created = identity_for-Created n.identity_file n m₁ fresh absent read in
      let (key, m₂, derived, h₂) = bind-ok (derive_file_key r password) _ m₁ h₁ in
      let salted = derive_file_key-Salted r password m₁ m₂ key derived in
      let last : n' ≡ record m₂ { file_key = key } = ap (λ p. p.1) (sym h₂) in
      let same : fresh ≡ identity = ground (arith, h₂) in
      let file : n'.identity_file ≡ m₁.identity_file =
        ap (λ m. m.identity_file) last ∙ salted.identity_file in
      (
        subst (IsIdentity r) same created.is_id,
        record {
          key_file = created.file;
          salt = salted.salt;
          secret = salted.secret;
          written = file ∙ created.written;
          unlocks = load_same r password n' m₁ file ∙ created.unlocks ∙ ap ok same;
          salted = ap (λ m. m.salt_file) last ∙ salted.salted;
          encodes = salted.encodes;
          key = ap (λ m. m.file_key) last ∙ salted.derived;
        },
        record {
          contacts_file =
              ap (λ m. m.contacts_file) last
              ∙ salted.files.contacts_file
              ∙ created.files.contacts_file;
          shares_file =
              ap (λ m. m.shares_file) last ∙ salted.files.shares_file ∙ created.files.shares_file;
        },
      )
