-- ===== src/Base/Keeps.antt =====
-- Invariants of code that changes state: one rule for each way to build it.
use mathlib.Core.Bool.{Bool, true, false}
use mathlib.Core.Option.{Option, none, some}
use cisc468_python.Base.Tests.{if◌then◌else◌}
use cisc468_python.Base.Effects.{
  Exn, Result, ok, err, Exec, pure, raise, lift, gets, or_raise, raise_unless, continue, ◌>>=◌, try,
  catch,
}

-- `m` keeps `P`, whether it returns or raises.
pub record Keeps {ℓ κ} {S : Type 0} {A : Type ℓ} (P : S → Type κ) (m : Exec S A)
    : Type (ℓ ⊔ κ) where
  pub at : (s : S) → P s → P (m s).1

module _ {ℓ κ} {S : Type 0} {A : Type ℓ} {P : S → Type κ} where
  pub Keeps-pure : (a : A) → Keeps P (pure a)
  Keeps-pure a = record { at = λ s h. h }

  pub Keeps-raise : (e : Exn) → Keeps P (raise {A = A} e)
  Keeps-raise e = record { at = λ s h. h }

  pub Keeps-lift : (r : Result A) → Keeps P (lift r)
  Keeps-lift r = record { at = λ s h. h }

  pub Keeps-gets : (f : S → A) → Keeps P (gets f)
  Keeps-gets f = record { at = λ s h. h }

  pub Keeps-or_raise : (o : Option A) (e : Exn) → Keeps P (or_raise o e)
  Keeps-or_raise none e = record { at = λ s h. h }
  Keeps-or_raise (some a) e = record { at = λ s h. h }

  pub Keeps-if : (b : Bool) (m k : Exec S A) → Keeps P m → Keeps P k → Keeps P (if b then m else k)
  Keeps-if true m k hm hk = hm
  Keeps-if false m k hm hk = hk

module _ {κ} {S : Type 0} {P : S → Type κ} where
  pub Keeps-raise_unless : (b : Bool) (e : Exn) → Keeps P (raise_unless b e)
  Keeps-raise_unless true e = record { at = λ s h. h }
  Keeps-raise_unless false e = record { at = λ s h. h }

module _ {ℓ ℓ' κ} {S : Type 0} {A : Type ℓ} {B : Type ℓ'} {P : S → Type κ} where
  continue-keeps :
      (r : Result A) (k : A → Exec S B) (s : S)
      → ((a : A) → Keeps P (k a))
      → P s
      → P (continue r k s).1
  continue-keeps (ok a) k s hk h = (hk a).at s h
  continue-keeps (err e) k s hk h = h

  pub Keeps-bind :
      (m : Exec S A) (k : A → Exec S B) → Keeps P m → ((a : A) → Keeps P (k a)) → Keeps P (m >>= k)
  Keeps-bind m k hm hk = record { at = λ s h. continue-keeps (m s).0 k (m s).1 hk (hm.at s h) }

module _ {ℓ κ} {S : Type 0} {A : Type ℓ} {P : S → Type κ} where
  catch-keeps :
      (r : Result A) (k : Exn → Exec S A) (s : S)
      → ((e : Exn) → Keeps P (k e))
      → P s
      → P (catch r k s).1
  catch-keeps (ok a) k s hk h = h
  catch-keeps (err e) k s hk h = (hk e).at s h

  pub Keeps-try :
      (m : Exec S A) (k : Exn → Exec S A)
      → Keeps P m
      → ((e : Exn) → Keeps P (k e))
      → Keeps P (try m k)
  Keeps-try m k hm hk = record { at = λ s h. catch-keeps (m s).0 k (m s).1 hk (hm.at s h) }

pub ruleset keeps_rules = (
  Keeps-pure, Keeps-raise, Keeps-lift, Keeps-gets, Keeps-or_raise, Keeps-raise_unless, Keeps-if,
  Keeps-bind, Keeps-try,
)
