-- ===== src/Base/Returns.antt =====
-- Code that returns: from a state, it ends with no exception.
use mathlib.Core.Path.{◌≡◌, refl}
use mathlib.Core.Option.{Option, some}
use cisc468_python.Base.Effects.{Exn, Result, ok, Exec, lift, or_raise, ◌>>=◌}

module _ {ℓ} {S : Type 0} {A : Type ℓ} where
  -- `m` returns a value from this state.
  abbrev pub Returns : Exec S A → S → Type ℓ
  Returns m s = (a : A) × (s' : S) × (m s ≡ (ok a, s'))

  pub lift-Returns : (res : Result A) (a : A) (s : S) → res ≡ ok a → Returns (lift res) s
  lift-Returns res a s e = (a, s, rw e refl)

  pub or_raise-Returns :
      (o : Option A) (e : Exn) (a : A) (s : S) → o ≡ some a → Returns (or_raise o e) s
  or_raise-Returns o e a s found = (a, s, rw found refl)

module _ {ℓ κ} {S : Type 0} {A : Type ℓ} {B : Type κ} where
  -- A sequence returns when its first step does, and its second from where that one leads.
  pub bind-Returns :
      (m : Exec S A) (k : A → Exec S B) (s : S)
      → Returns m s
      → ((a : A) (s' : S) → m s ≡ (ok a, s') → Returns (k a) s')
      → Returns (m >>= k) s
  bind-Returns m k s (a, s', runs) h = let (b, t, ends) = h a s' runs in (b, t, rw runs ends)
