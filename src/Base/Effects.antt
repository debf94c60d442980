-- ===== src/Base/Effects.antt =====
-- Python code that changes state and may raise: the state comes back beside the exception, since
-- what was written before a raise stays written.
use mathlib.Core.Path.{◌≡◌, refl}
use mathlib.Core.Bool.{Bool, true, false}
use cisc468_python.Base.Tests.{if◌then◌else◌}
use mathlib.Core.Option.{Option, none, some}

-- The exception classes that the program's handlers tell apart, and those that only `Exception`
-- catches.
pub data Exn : Type 0 where
  value_error connection_error os_error key_error index_error type_error attribute_error : Exn
  handshake_error struct_error unicode_error : Exn
  invalid_tag : Exn
  -- `sys.exit`, which `except Exception` lets through
  system_exit : Exn

pub data Result {ℓ} (A : Type ℓ) : Type ℓ where
  ok : A → Result A
  err : Exn → Result A

-- A step that reads no state.
abbrev pub bind_result {ℓ κ} : {A : Type ℓ} {B : Type κ} → Result A → (A → Result B) → Result B
bind_result (ok a) f = f a
bind_result (err e) f = err e

-- Inversion of a step that succeeded.
pub bind_result-eq-ok {ℓ κ} :
    {A : Type ℓ} {B : Type κ} (m : Result A) (f : A → Result B) {b : B}
    → bind_result m f ≡ ok b
    → (a : A) × (m ≡ ok a) × (f a ≡ ok b)
bind_result-eq-ok (ok a) f h = (a, refl, h)
bind_result-eq-ok (err e) f h = cc

abbrev pub Exec {ℓ} : Type 0 → Type ℓ → Type ℓ
Exec S A = S → Result A × S

module _ {ℓ} {S : Type 0} {A : Type ℓ} where
  abbrev pub pure : A → Exec S A
  pure a s = (ok a, s)

  abbrev pub raise : Exn → Exec S A
  raise e s = (err e, s)

  abbrev pub lift : Result A → Exec S A
  lift r s = (r, s)

  abbrev pub gets : (S → A) → Exec S A
  gets f s = (ok (f s), s)

  abbrev pub or_raise : Option A → Exn → Exec S A
  or_raise none e = raise e
  or_raise (some a) e = pure a

module _ {S : Type 0} where
  -- `if not b: raise e`
  abbrev pub raise_unless : Bool → Exn → Exec S (Unit {0})
  raise_unless b e s = if b then (ok tt, s) else (err e, s)

  abbrev pub modify : (S → S) → Exec S (Unit {0})
  modify f s = (ok tt, f s)

module _ {ℓ κ} {S : Type 0} {A : Type ℓ} {B : Type κ} where
  abbrev pub continue : Result A → (A → Exec S B) → S → Result B × S
  continue (ok a) f s = f a s
  continue (err e) f s = (err e, s)

  infixl 5 ◌>>=◌ ◌>>◌
  abbrev pub ◌>>=◌ : Exec S A → (A → Exec S B) → Exec S B
  ◌>>=◌ m f s = let (r, s') = m s in continue r f s'

  abbrev pub ◌>>◌ : Exec S A → Exec S B → Exec S B
  m >> k = m >>= λ _. k

module _ {ℓ} {S : Type 0} {A : Type ℓ} where
  abbrev pub catch : Result A → (Exn → Exec S A) → S → Result A × S
  catch (ok a) h s = (ok a, s)
  catch (err e) h s = h e s

  -- `try: m; except …: h`
  abbrev pub try : Exec S A → (Exn → Exec S A) → Exec S A
  try m h s = let (r, s') = m s in catch r h s'

-- Inversion of a run that returned, from its first step on.
module _ {ℓ κ} {S : Type 0} {A : Type ℓ} {B : Type κ} where
  pub lift-ok :
      (m : Result A) (k : A → Exec S B) (s : S) {b : B} {s' : S}
      → (lift m >>= k) s ≡ (ok b, s')
      → (a : A) × (m ≡ ok a) × (k a s ≡ (ok b, s'))
  lift-ok (ok a) k s h = (a, refl, h)
  lift-ok (err e) k s h = cc

  pub or_raise-ok :
      (o : Option A) (e : Exn) (k : A → Exec S B) (s : S) {b : B} {s' : S}
      → (or_raise o e >>= k) s ≡ (ok b, s')
      → (a : A) × (o ≡ some a) × (k a s ≡ (ok b, s'))
  or_raise-ok (some a) e k s h = (a, refl, h)
  or_raise-ok none e k s h = cc

  continue-ok :
      (p : Result A × S) (k : A → Exec S B) {b : B} {s' : S}
      → continue p.0 k p.1 ≡ (ok b, s')
      → (a : A) × (s₁ : S) × (p ≡ (ok a, s₁)) × (k a s₁ ≡ (ok b, s'))
  continue-ok (ok a, s₁) k h = (a, s₁, refl, h)
  continue-ok (err e, s₁) k h = cc

  pub bind-ok :
      (m : Exec S A) (k : A → Exec S B) (s : S) {b : B} {s' : S}
      → (m >>= k) s ≡ (ok b, s')
      → (a : A) × (s₁ : S) × (m s ≡ (ok a, s₁)) × (k a s₁ ≡ (ok b, s'))
  bind-ok m k s h = continue-ok (m s) k h

module _ {κ} {S : Type 0} {B : Type κ} where
  pub raise_unless-ok :
      (c : Bool) (e : Exn) (k : Unit {0} → Exec S B) (s : S) {b : B} {s' : S}
      → (raise_unless c e >>= k) s ≡ (ok b, s')
      → (c ≡ true) × (k tt s ≡ (ok b, s'))
  raise_unless-ok true e k s h = (refl, h)
  raise_unless-ok false e k s h = cc
