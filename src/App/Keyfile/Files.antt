-- ===== src/App/Keyfile/Files.antt =====
-- What `Identity.generate` and `Identity.save` change, when they return.
use cisc468_python.Base.{
  Str, Option, none, some, ok, ◌+◌, or_raise, value_error, lift-ok, ◌≡◌, ap, sym, arith,
}
use cisc468_python.Runtime.{Runtime}
use cisc468_python.Crypto.Identity.{Identity, IsIdentity, make_identity, make_identity-IsIdentity}
use cisc468_python.Crypto.Packing.{utf8}
use cisc468_python.Node.{Node, KeyFile, urandom}
use cisc468_python.App.Keyfile.{generate, save, key_file_of, load, load_found}

or_raise-some {ℓ} :
    {A : Type ℓ} (o : Option A) (a : A) (n n' : Node)
    → or_raise o value_error n ≡ (ok a, n')
    → (o ≡ some a) × (n' ≡ n)
or_raise-some none a n n' h = absurd (ground arith)
or_raise-some (some b) a n n' h = (ground arith, ground arith)

module _ (r : Runtime) where
  pub generate-ok :
      (n n' : Node) (fresh : Identity)
      → generate r n ≡ (ok fresh, n')
      → IsIdentity r fresh × (n' ≡ record n { draws = n.draws + 1 })
  unfolding generate urandom
  generate-ok n n' fresh h =
      let (made, same) =
        or_raise-some (make_identity r (r.urandom n.draws 32)) fresh (urandom r 32 n).1 n' h in
      (make_identity-IsIdentity r (r.urandom n.draws 32) fresh made, same)

  pub save-ok :
      (fresh : Identity) (password : Str) (n n' : Node)
      → save r fresh password n ≡ (ok tt, n')
      → (f : KeyFile) × (n' ≡ record n { draws = n.draws + 1 + 1; identity_file = some f })
  unfolding save urandom
  save-ok fresh password n n' h =
      let (secret, encodes, h₁) = lift-ok (utf8 password) _ (urandom r 32 n).1 h in
      (
        key_file_of r fresh secret (r.urandom n.draws 32) (r.urandom (n.draws + 1) 12),
        ap (λ p. p.1) (sym h₁),
      )

  -- `Identity.load` reads nothing but the file of the identity.
  pub load_same :
      (password : Str) (n m : Node)
      → n.identity_file ≡ m.identity_file
      → load r password n ≡ load r password m
  unfolding load
  load_same password n m e = ap (load_found r password) e
